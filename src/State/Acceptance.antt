-- ===== src/State/Acceptance.antt =====
-- packages/state/src/acceptance-ledger.ts: the ledger of user sends. `F` is what a file holds; the
-- ledger's JSON printer and parser are parameters. Each operation takes the time it reads.
pub mod Fate
pub mod Restart
mod Examples
use open_claw_bot.Common.{
  ℕ, Bool, true, false, Option, none, some, List, [], ◌∷◌, ◌++◌, map, length, if◌then◌else◌, ◌==◌,
}
use open_claw_bot.Common.Maps.{Dict, get, set, delete}
use open_claw_bot.Common.Texts.{Text, text_eq}

pub data AcceptanceState : Type 0 where
  pending accepted rejected : AcceptanceState

pub record AcceptanceRecord : Type 0 where
  pub account_slot : Text
  pub client_nonce : Text
  pub input_digest : Text
  pub state : AcceptanceState
  pub created_at_ms : ℕ
  pub updated_at_ms : ℕ
  pub error_message : Option Text

pub record SendInput : Type 0 where
  pub account_slot : Text
  pub client_nonce : Text
  pub input_digest : Text

pub data AdmissionResult : Type 0 where
  admitted duplicate digest_mismatch : AcceptanceRecord → AdmissionResult

pub data AcceptanceLookup : Type 0 where
  unknown : AcceptanceLookup
  known : AcceptanceState → AcceptanceRecord → AcceptanceLookup

-- `file` is what the ledger's file holds now, and `announced` what `onRecord` has seen.
pub record AcceptanceLedger (F : Type 0) : Type 0 where
  pub records : Dict Text AcceptanceRecord
  pub loaded : Bool
  pub has_file : Bool
  pub file : Option F
  pub announced : List AcceptanceRecord

abbrev pub fresh_record : ℕ → SendInput → AcceptanceRecord
fresh_record now input = record {
  account_slot = input.account_slot;
  client_nonce = input.client_nonce;
  input_digest = input.input_digest;
  state = pending;
  created_at_ms = now;
  updated_at_ms = now;
  error_message = none;
}

abbrev pub accept_record : ℕ → AcceptanceRecord → AcceptanceRecord
accept_record now r = record r { state = accepted; updated_at_ms = now }

abbrev pub reject_record : ℕ → Text → AcceptanceRecord → AcceptanceRecord
reject_record now message r = record r {
  state = rejected;
  error_message = some message;
  updated_at_ms = now;
}

abbrev pub values : Dict Text AcceptanceRecord → List AcceptanceRecord
values = map (λ entry. entry.1)

-- The loop of `load` over the records that the file holds.
unfoldable pub load_records :
    List AcceptanceRecord → Dict Text AcceptanceRecord → Dict Text AcceptanceRecord
load_records [] m = m
load_records (r ∷ rs) m = load_records rs (set m r.client_nonce r)

-- An answer to a send whose nonce is known.
abbrev pub repeated : SendInput → AcceptanceRecord → AdmissionResult
repeated input existing =
    if existing.input_digest == input.input_digest
    then duplicate existing
    else digest_mismatch existing

module _ {F : Type 0} (stringify : List AcceptanceRecord → F) where
  unfoldable pub persist : AcceptanceLedger F → AcceptanceLedger F
  persist s = if s.has_file then record s { file = some (stringify (values s.records)) } else s

  -- What each operation does with a record: it is stored, written and announced.
  unfoldable pub put : AcceptanceRecord → Text → AcceptanceLedger F → AcceptanceLedger F
  unfolding persist
  put r nonce s =
      let s' = persist (record s { records = set s.records nonce r }) in
      record s' { announced = s'.announced ++ r ∷ [] }

  -- `admitSend` behind its `load`.
  unfoldable pub admit : ℕ → SendInput → AcceptanceLedger F → AdmissionResult × AcceptanceLedger F
  unfolding put
  admit now input s = elim (get s.records input.client_nonce) [
    | some existing ↦ (repeated input existing, s)
    | none ↦ let r = fresh_record now input in (admitted r, put r input.client_nonce s)
  ]

  unfoldable pub mark_accepted :
      ℕ → Text → AcceptanceLedger F → Option AcceptanceRecord × AcceptanceLedger F
  unfolding put
  mark_accepted now nonce s = elim (get s.records nonce) [
    | none ↦ (none, s)
    | some r ↦ (some (accept_record now r), put (accept_record now r) nonce s)
  ]

  unfoldable pub mark_rejected : ℕ → Text → Text → AcceptanceLedger F → AcceptanceLedger F
  unfolding put
  mark_rejected now nonce message s = elim (get s.records nonce) [
    | none ↦ s
    | some r ↦ put (reject_record now message r) nonce s
  ]

  unfoldable pub clear : Text → AcceptanceLedger F → AcceptanceLedger F
  unfolding persist
  clear nonce s = persist (record s { records = delete s.records nonce })

unfoldable pub lookup : {F : Type 0} → Text → Text → AcceptanceLedger F → AcceptanceLookup
lookup slot nonce s = elim (get s.records nonce) [
  | none ↦ unknown
  | some r ↦ if r.account_slot == slot then known r.state r else unknown
]

abbrev pub size : {F : Type 0} → AcceptanceLedger F → ℕ
size s = length s.records

-- `load` up to the read: the mark is set at once. Is a read due?
unfoldable pub load_start : {F : Type 0} → AcceptanceLedger F → Bool × AcceptanceLedger F
load_start s = if s.loaded then (false, s) else (s.has_file, record s { loaded = true })

module _ {F : Type 0} (parse : F → Option (List AcceptanceRecord)) where
  -- `load` behind the read; a missing or broken file leaves the ledger as it is.
  unfoldable pub load_finish : Option F → AcceptanceLedger F → AcceptanceLedger F
  unfolding load_records
  load_finish none s = s
  load_finish (some contents) s = elim (parse contents) [
    | none ↦ s
    | some rs ↦ record s { records = load_records rs s.records }
  ]

  -- `load` with nothing in between.
  unfoldable pub load : AcceptanceLedger F → AcceptanceLedger F
  unfolding load_start load_finish
  load s = let due = load_start s in if due.0 then load_finish s.file due.1 else due.1

pub data Event : Type 0 where
  admits : ℕ → SendInput → Event
  accepts : ℕ → Text → Event
  rejects : ℕ → Text → Text → Event
  clears : Text → Event

module _ {F : Type 0} (stringify : List AcceptanceRecord → F) where
  abbrev pub step : Event → AcceptanceLedger F → AcceptanceLedger F
  step (admits now input) s = (admit stringify now input s).1
  step (accepts now nonce) s = (mark_accepted stringify now nonce s).1
  step (rejects now nonce message) s = mark_rejected stringify now nonce message s
  step (clears nonce) s = clear stringify nonce s

  abbrev pub run : AcceptanceLedger F → List Event → AcceptanceLedger F
  run s [] = s
  run s (e ∷ es) = run (step e s) es
