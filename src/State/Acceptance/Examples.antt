-- ===== src/State/Acceptance/Examples.antt =====
-- Sends of packages/state/src/acceptance-ledger.ts; the file holds the records themselves.
use open_claw_bot.Common.{◌≡◌, refl, true, false, none, some, List, [], ◌∷◌, ◌==◌, if◌then◌else◌}
use open_claw_bot.Common.Maps.{get, set}
use open_claw_bot.Common.Texts.{units, text_eq, text_beq}
use open_claw_bot.State.Acceptance.{
  AcceptanceRecord, SendInput, AcceptanceLedger, Event, accepted, admitted, duplicate,
  digest_mismatch, known, admits, accepts, rejects, fresh_record, load_start, load, load_finish,
  load_records, repeated, admit, mark_accepted, mark_rejected, put, persist, lookup, run,
}
use open_claw_bot.State.Acceptance.Fate.{run-fate, fate, admitted_once, SameSend}
use open_claw_bot.State.Acceptance.Restart.{new_ledger, reopened, load-run, load_overtaken}

abbrev Records : Type 0
Records = List AcceptanceRecord

abbrev same : Records → Records
same rs = rs

abbrev send : SendInput
send = record { account_slot = units "main"; client_nonce = units "n1"; input_digest = units "d1" }

abbrev changed : SendInput
changed = record send { input_digest = units "d2" }

abbrev history : List Event
history = accepts 5 (units "n1") ∷ rejects 6 (units "n2") (units "no") ∷ []

nothing_yet : get (new_ledger Records).records send.client_nonce ≡ none
unfolding get
nothing_yet = refl

run-fate_example :
    get (run same (new_ledger Records) (admits 1 send ∷ history)).records (units "n1")
    ≡ fate (units "n1") (get (new_ledger Records).records (units "n1")) (admits 1 send ∷ history)
run-fate_example = run-fate same (admits 1 send ∷ history) (new_ledger Records) (units "n1")

admitted_once_example :
    let s' = run same (admit same 1 send (new_ledger Records)).1 history in
    (r : AcceptanceRecord) × ((admit same 9 changed s') ≡ (
      (if send.input_digest == changed.input_digest then duplicate r else digest_mismatch r),
      s',
    ))
    × SameSend r (fresh_record 1 send)
admitted_once_example =
    admitted_once same 1 send (new_ledger Records) nothing_yet history ((λ h. h), ((λ h. h), tt)) 9
      changed refl

load-run_example :
    let s = run same (new_ledger Records) (admits 1 send ∷ history) in
    (load some (reopened s)).records ≡ s.records
load-run_example = load-run same some (λ rs. refl) (admits 1 send ∷ history)

abbrev left : AcceptanceLedger Records
left = record (new_ledger Records) { file = some (fresh_record 1 send ∷ []) }

held : get (load some (reopened left)).records send.client_nonce ≡ some (fresh_record 1 send)
unfolding load load_start load_finish load_records get set text_beq
held = refl

load_overtaken_example :
    let first = load_start (reopened left) in
    let second = load_start first.1 in
    let after = admit same 3 send second.1 in
    ((admit same 3 send (load some (reopened left))).0 ≡ repeated send (fresh_record 1 send))
    × (first.0 ≡ true)
    × (second.0 ≡ false)
    × (after.0 ≡ admitted (fresh_record 3 send))
    × (after.1.file ≡ some (fresh_record 3 send ∷ []))
load_overtaken_example = load_overtaken same some left 3 send (fresh_record 1 send) refl held

-- A mark does not ask for the state: a rejected send becomes an accepted one.
accepts_a_rejected_send :
    let s =
      mark_rejected same 2 (units "n1") (units "no") (admit same 1 send (new_ledger Records)).1 in
    (r : AcceptanceRecord) × (lookup
        (units "main")
        (units "n1")
        (mark_accepted same 3 (units "n1") s).1
      ≡ known accepted r)
unfolding admit mark_rejected mark_accepted put persist lookup get set text_beq
accepts_a_rejected_send = (_, refl)
