-- ===== src/State/Acceptance/Restart.antt =====
-- A host that restarts with the file of packages/state/src/acceptance-ledger.ts, and a send that
-- arrives while the file is still being read.
use mathlib.Core.List.{append_assoc, append-nil}
use open_claw_bot.Common.{
  ℕ, ◌≡◌, refl, sym, ap, ◌∙◌, subst, ◌⊎◌, inl, inr, true, false, Option, none, some, List, [], ◌∷◌,
  ◌++◌, if◌then◌else◌, ◌==◌, arith, Bool-cases, Option-cases, All,
}
use open_claw_bot.Common.Maps.{Dict, get, set, delete, get-set, get-delete}
use open_claw_bot.Common.Texts.{Text, text_eq, text_beq_iff}
use open_claw_bot.State.Acceptance.Fate.{admit-repeated}
use open_claw_bot.State.Acceptance.{
  AcceptanceRecord, SendInput, AcceptanceLedger, Event, admitted, repeated, admits, accepts,
  rejects, clears, fresh_record, accept_record, reject_record, values, load_records, persist, put,
  admit, mark_accepted, mark_rejected, clear, load_start, load_finish, load, step, run,
}

-- Each record is stored under its own nonce, and each nonce once.
abbrev pub IsKeyed : Dict Text AcceptanceRecord → Type 0
IsKeyed [] = Unit
IsKeyed ((k, r) ∷ m) = (r.client_nonce ≡ k) × (get m k ≡ none) × IsKeyed m

get-IsKeyed :
    (m : Dict Text AcceptanceRecord) (k : Text) (r : AcceptanceRecord)
    → IsKeyed m
    → get m k ≡ some r
    → r.client_nonce ≡ k
unfolding get
get-IsKeyed [] k r h e = cc
get-IsKeyed ((j, w) ∷ m) k r h e = ground (arith, text_beq_iff j k, get-IsKeyed m k r)

set-IsKeyed :
    (m : Dict Text AcceptanceRecord) (k : Text) (r : AcceptanceRecord)
    → IsKeyed m
    → r.client_nonce ≡ k
    → IsKeyed (set m k r)
unfolding set get
set-IsKeyed [] k r h e = (e, refl, tt)
set-IsKeyed ((j, w) ∷ m) k r h e = elim (Bool-cases (j == k)) [
  | inl same ↦ rw same (e ∙ sym ((text_beq_iff j k).0 same), h.1, h.2)
  | inr other ↦ rw other (
    h.0,
    get-set m k j r ∙ ground (arith, text_beq_iff j k, text_beq_iff k j, h.1),
    set-IsKeyed m k r h.2 e,
  )
]

delete-IsKeyed : (m : Dict Text AcceptanceRecord) (k : Text) → IsKeyed m → IsKeyed (delete m k)
unfolding delete
delete-IsKeyed [] k h = tt
delete-IsKeyed ((j, w) ∷ m) k h = elim (Bool-cases (j == k)) [
  | inl same ↦ rw same (delete-IsKeyed m k h.2)
  | inr other ↦ rw other (h.0, get-delete m k j ∙ ground (arith, h.1), delete-IsKeyed m k h.2)
]

set_absent :
    (m : Dict Text AcceptanceRecord) (k : Text) (r : AcceptanceRecord)
    → get m k ≡ none
    → set m k r ≡ m ++ (k, r) ∷ []
unfolding get set
set_absent [] k r e = refl
set_absent ((j, w) ∷ m) k r e = ground (arith, set_absent m k r)

-- The keys of `m` are not in `held`.
abbrev IsApart : Dict Text AcceptanceRecord → Dict Text AcceptanceRecord → Type 0
IsApart held = All (λ entry. get held entry.0 ≡ none)

set-IsApart :
    (held m : Dict Text AcceptanceRecord) (k : Text) (r : AcceptanceRecord)
    → IsApart held m
    → get m k ≡ none
    → IsApart (set held k r) m
unfolding get
set-IsApart held [] k r h e = tt
set-IsApart held ((j, w) ∷ m) k r h e = (
  unfold get in get-set held k j r ∙ ground (arith, text_beq_iff j k, text_beq_iff k j, h.0),
  set-IsApart held m k r h.1 (ground arith),
)

load_records-values :
    (m held : Dict Text AcceptanceRecord)
    → IsKeyed m
    → IsApart held m
    → load_records (values m) held ≡ held ++ m
unfolding load_records
load_records-values [] held h apart = sym (append-nil held)
load_records-values ((k, r) ∷ m) held h apart =
    ap (λ j. load_records (values m) (set held j r)) h.0
    ∙ load_records-values m (set held k r) h.2 (set-IsApart held m k r apart.1 h.1)
    ∙ ap (λ front. front ++ m) (set_absent held k r apart.0)
    ∙ append_assoc held ((k, r) ∷ []) m

-- A ledger on a file that is not there yet.
abbrev pub new_ledger : (F : Type 0) → AcceptanceLedger F
new_ledger F = record { records = []; loaded = true; has_file = true; file = none; announced = [] }

-- A new process opens the file that a ledger has left.
abbrev pub reopened : {F : Type 0} → AcceptanceLedger F → AcceptanceLedger F
reopened s = record s { records = []; loaded = false; announced = [] }

module _ {F : Type 0} (stringify : List AcceptanceRecord → F) where
  -- The file says what the records are.
  record IsWritten (s : AcceptanceLedger F) : Type 0 where
    keyed : IsKeyed s.records
    on_file : s.has_file ≡ true
    written : ((s.file ≡ none) × (s.records ≡ [])) ⊎ (s.file ≡ some (stringify (values s.records)))

  persist-IsWritten :
      (s : AcceptanceLedger F)
      → IsKeyed s.records
      → s.has_file ≡ true
      → IsWritten (persist stringify s)
  unfolding persist
  persist-IsWritten s h file =
      subst IsWritten
        (sym
          (ap (λ b. if b then record s { file = some (stringify (values s.records)) } else s) file))
        (record { keyed = h; on_file = file; written = inr refl })

  put-IsWritten :
      (r : AcceptanceRecord) (nonce : Text) (s : AcceptanceLedger F)
      → IsWritten s
      → r.client_nonce ≡ nonce
      → IsWritten (put stringify r nonce s)
  unfolding put
  put-IsWritten r nonce s h own =
      let w =
        persist-IsWritten (record s { records = set s.records nonce r })
          (set-IsKeyed s.records nonce r h.keyed own) h.on_file in
      record { keyed = w.keyed; on_file = w.on_file; written = w.written }

  step-IsWritten :
      (e : Event) (s : AcceptanceLedger F) → IsWritten s → IsWritten (step stringify e s)
  step-IsWritten (admits now input) s h = elim (Option-cases (get s.records input.client_nonce)) [
    | inl e ↦
        unfold admit in
        rw (e, step, admit) (put-IsWritten (fresh_record now input) input.client_nonce s h refl)
    | inr (r, e) ↦ unfold admit in rw (e, step, admit) h
  ]
  step-IsWritten (accepts now nonce) s h = elim (Option-cases (get s.records nonce)) [
    | inl e ↦ unfold mark_accepted in rw (e, step, mark_accepted) h
    | inr (r, e) ↦
        unfold mark_accepted in
        rw (e, step, mark_accepted)
          (put-IsWritten (accept_record now r) nonce s h (get-IsKeyed s.records nonce r h.keyed e))
  ]
  step-IsWritten (rejects now nonce message) s h = elim (Option-cases (get s.records nonce)) [
    | inl e ↦ unfold mark_rejected in rw (e, step, mark_rejected) h
    | inr (r, e) ↦
        unfold mark_rejected in
        rw (e, step, mark_rejected)
          (put-IsWritten (reject_record now message r) nonce s h
            (get-IsKeyed s.records nonce r h.keyed e))
  ]
  step-IsWritten (clears nonce) s h =
      unfold clear in
      persist-IsWritten (record s { records = delete s.records nonce })
        (delete-IsKeyed s.records nonce h.keyed) h.on_file

  run-IsWritten :
      (es : List Event) (s : AcceptanceLedger F) → IsWritten s → IsWritten (run stringify s es)
  run-IsWritten [] s h = h
  run-IsWritten (e ∷ es) s h = run-IsWritten es (step stringify e s) (step-IsWritten e s h)

  load-written :
      (parse : F → Option (List AcceptanceRecord))
      → ((rs : List AcceptanceRecord) → parse (stringify rs) ≡ some rs)
      → (s : AcceptanceLedger F) → IsWritten s
      → (load parse (reopened s)).records ≡ s.records
  unfolding get
  load-written parse round s h =
      unfold load load_start load_finish in
      ap (λ b. (if b then load_finish parse s.file opened else opened).records) h.on_file
      ∙ elim h.written [
        | inl (absent, nothing) ↦
            ap (λ f. (load_finish parse f opened).records) absent ∙ sym nothing
        | inr there ↦
            ap (λ f. (load_finish parse f opened).records) there
            ∙ rw (round (values s.records), load_finish)
                (load_records-values s.records [] h.keyed (apart s.records))
      ]
    where
      opened : AcceptanceLedger F
      opened = record (reopened s) { loaded = true }

      apart : (m : Dict Text AcceptanceRecord) → IsApart [] m
      apart [] = tt
      apart (x ∷ m) = (refl, apart m)

persist-file :
    {F : Type 0} (stringify : List AcceptanceRecord → F) (s : AcceptanceLedger F)
    → s.has_file ≡ true
    → (persist stringify s).file ≡ some (stringify (values s.records))
unfolding persist
persist-file stringify s file =
    ap (λ b. (if b then record s { file = some (stringify (values s.records)) } else s).file) file

-- A restart forgets nothing: whatever sends, marks and clears a host has handled on a file that did
-- not exist before, a new process that loads the file has the same records in the same order,
-- provided that the parser reads back what the printer wrote.
pub load-run :
    {F : Type 0} (stringify : List AcceptanceRecord → F)
    (parse : F → Option (List AcceptanceRecord))
    → ((rs : List AcceptanceRecord) → parse (stringify rs) ≡ some rs)
    → (es : List Event)
    → let s = run stringify (new_ledger F) es in (load parse (reopened s)).records ≡ s.records
load-run stringify parse round es =
    load-written stringify parse round (run stringify (new_ledger _) es) (
      run-IsWritten stringify es (new_ledger _)
        (record { keyed = tt; on_file = refl; written = inl (refl, refl) }))

-- The read of the file is not awaited twice. Suppose that the file of a ledger holds the nonce of
-- a send, so that a new process that has loaded it answers the send as a repeated one. While the
-- first send of the new process waits for the read, a send with that nonce needs no read, is
-- admitted, and is written over the file as its only record.
pub load_overtaken :
    {F : Type 0} (stringify : List AcceptanceRecord → F)
    (parse : F → Option (List AcceptanceRecord))
    → (s : AcceptanceLedger F) (now : ℕ) (input : SendInput) (r : AcceptanceRecord)
    → s.has_file ≡ true
    → get (load parse (reopened s)).records input.client_nonce ≡ some r
    → let first = load_start (reopened s) in
      let second = load_start first.1 in
      let after = admit stringify now input second.1 in
      ((admit stringify now input (load parse (reopened s))).0 ≡ repeated input r)
      × (first.0 ≡ true)
      × (second.0 ≡ false)
      × (after.0 ≡ admitted (fresh_record now input))
      × (after.1.file ≡ some (stringify (fresh_record now input ∷ [])))
load_overtaken stringify parse s now input r file there =
    let answered = admit-repeated stringify now input (load parse (reopened s)) r there in
    let once = ap (λ answer. answer.0) answered in
    unfold load_start admit put get set in (once, file, refl, refl, persist-file stringify _ file)
