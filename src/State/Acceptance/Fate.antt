-- ===== src/State/Acceptance/Fate.antt =====
-- The fate of one nonce in packages/state/src/acceptance-ledger.ts: a small automaton that sees only
-- the events of that nonce, and the answers to sends that repeat it.
use open_claw_bot.Common.{
  ℕ, ◌≡◌, refl, sym, ap, ◌∙◌, ◌⊎◌, inl, inr, true, false, Option, none, some, List, [], ◌∷◌,
  if◌then◌else◌, ◌==◌, arith, Bool-cases, Option-cases, All,
}
use open_claw_bot.Common.Maps.{Dict, get, set, delete, get-set, get-delete, ==_refl}
use open_claw_bot.Common.Texts.{Text, text_eq, text_beq_iff}
use open_claw_bot.State.Acceptance.{
  AcceptanceRecord, SendInput, AcceptanceLedger, Event, duplicate, digest_mismatch, repeated,
  admits, accepts, rejects, clears, fresh_record, accept_record, reject_record, persist, put, admit,
  mark_accepted, mark_rejected, clear, step, run,
}

abbrev pub map_record :
    (AcceptanceRecord → AcceptanceRecord) → Option AcceptanceRecord → Option AcceptanceRecord
map_record f none = none
map_record f (some r) = some (f r)

-- What an event of its own nonce does to a record that may be there.
abbrev pub react : Event → Option AcceptanceRecord → Option AcceptanceRecord
react (admits now input) none = some (fresh_record now input)
react (admits now input) (some r) = some r
react (accepts now nonce) o = map_record (accept_record now) o
react (rejects now nonce message) o = map_record (reject_record now message) o
react (clears nonce) o = none

abbrev pub nonce_of : Event → Text
nonce_of (admits now input) = input.client_nonce
nonce_of (accepts now nonce) = nonce
nonce_of (rejects now nonce message) = nonce
nonce_of (clears nonce) = nonce

abbrev pub fate : Text → Option AcceptanceRecord → List Event → Option AcceptanceRecord
fate n o [] = o
fate n o (e ∷ es) = fate n (if nonce_of e == n then react e o else o) es

module _ {F : Type 0} (stringify : List AcceptanceRecord → F) where
  persist-records : (s : AcceptanceLedger F) → (persist stringify s).records ≡ s.records
  unfolding persist
  persist-records s = ground arith

  put-records :
      (r : AcceptanceRecord) (nonce : Text) (s : AcceptanceLedger F)
      → (put stringify r nonce s).records ≡ set s.records nonce r
  unfolding put
  put-records r nonce s = persist-records (record s { records = set s.records nonce r })

  get-put :
      (r : AcceptanceRecord) (nonce n : Text) (s : AcceptanceLedger F)
      → get (put stringify r nonce s).records n ≡ (if nonce == n then some r else get s.records n)
  get-put r nonce n s = ap (λ m. get m n) (put-records r nonce s) ∙ get-set s.records nonce n r

  -- The record under a key is the one under an equal key.
  same_key :
      (m : Dict Text AcceptanceRecord) (k n : Text) (o : Option AcceptanceRecord)
      → get m k ≡ o
      → (if k == n then o else get m n) ≡ get m n
  same_key m k n o e = elim (Bool-cases (k == n)) [
    | inl same ↦ rw same (sym e ∙ ap (get m) ((text_beq_iff k n).0 same))
    | inr other ↦ rw other refl
  ]

  -- One record changes as its automaton says, whatever else the ledger holds.
  step-react :
      (e : Event) (s : AcceptanceLedger F) (n : Text)
      → get (step stringify e s).records n
        ≡ (if nonce_of e == n then react e (get s.records (nonce_of e)) else get s.records n)
  step-react (admits now input) s n = elim (Option-cases (get s.records input.client_nonce)) [
    | inl e ↦
        unfold admit in
        rw (e, step, admit) (get-put (fresh_record now input) input.client_nonce n s)
    | inr (r, e) ↦
        unfold admit in
        rw (e, step, admit) (sym (same_key s.records input.client_nonce n (some r) e))
  ]
  step-react (accepts now nonce) s n = elim (Option-cases (get s.records nonce)) [
    | inl e ↦
        unfold mark_accepted in
        rw (e, step, mark_accepted) (sym (same_key s.records nonce n none e))
    | inr (r, e) ↦
        unfold mark_accepted in
        rw (e, step, mark_accepted) (get-put (accept_record now r) nonce n s)
  ]
  step-react (rejects now nonce message) s n = elim (Option-cases (get s.records nonce)) [
    | inl e ↦
        unfold mark_rejected in
        rw (e, step, mark_rejected) (sym (same_key s.records nonce n none e))
    | inr (r, e) ↦
        unfold mark_rejected in
        rw (e, step, mark_rejected) (get-put (reject_record now message r) nonce n s)
  ]
  step-react (clears nonce) s n =
      unfold clear in
      ap (λ m. get m n) (persist-records (record s { records = delete s.records nonce }))
      ∙ get-delete s.records nonce n

  -- After any history of sends, marks and clears, the record of a nonce is the one that the
  -- automaton of that nonce alone arrives at: the other nonces do not disturb it.
  pub run-fate :
      (es : List Event) (s : AcceptanceLedger F) (n : Text)
      → get (run stringify s es).records n ≡ fate n (get s.records n) es
  run-fate [] s n = refl
  run-fate (e ∷ es) s n =
      run-fate es (step stringify e s) n
      ∙ ap (λ o. fate n o es) (step-react e s n ∙ own (Bool-cases (nonce_of e == n)))
    where
      own :
          (nonce_of e == n ≡ true) ⊎ (nonce_of e == n ≡ false)
          → (if nonce_of e == n then react e (get s.records (nonce_of e)) else get s.records n)
            ≡ (if nonce_of e == n then react e (get s.records n) else get s.records n)
      own (inl same) =
          rw same (ap (λ k. react e (get s.records k)) ((text_beq_iff (nonce_of e) n).0 same))
      own (inr other) = rw other refl

-- A nonce that is not there is admitted, and one that is there changes nothing.
admit-first :
    {F : Type 0} (stringify : List AcceptanceRecord → F)
    → (now : ℕ) (input : SendInput) (s : AcceptanceLedger F)
    → get s.records input.client_nonce ≡ none
    → get (admit stringify now input s).1.records input.client_nonce ≡ some (fresh_record now input)
admit-first stringify now input s first =
    unfold admit in
    rw (first, admit)
      (get-put stringify (fresh_record now input) input.client_nonce input.client_nonce s
        ∙ rw (==_refl input.client_nonce) refl)

pub admit-repeated :
    {F : Type 0} (stringify : List AcceptanceRecord → F)
    → (now : ℕ) (input : SendInput) (s : AcceptanceLedger F) (r : AcceptanceRecord)
    → get s.records input.client_nonce ≡ some r
    → admit stringify now input s ≡ (repeated input r, s)
admit-repeated stringify now input s r there = unfold admit in rw (there, admit) refl

-- An event that clears the nonce.
abbrev pub IsClear : Text → Event → Type 0
IsClear n (admits now input) = ⊥
IsClear n (accepts now nonce) = ⊥
IsClear n (rejects now nonce message) = ⊥
IsClear n (clears nonce) = nonce ≡ n

-- Two records of one send.
pub record SameSend (a b : AcceptanceRecord) : Type 0 where
  pub same_digest : a.input_digest ≡ b.input_digest
  pub same_slot : a.account_slot ≡ b.account_slot
  pub same_time : a.created_at_ms ≡ b.created_at_ms

react-SameSend :
    (n : Text) (e : Event) (a b : AcceptanceRecord)
    → ¬ IsClear n e
    → nonce_of e ≡ n
    → SameSend a b
    → (a' : AcceptanceRecord) × (react e (some a) ≡ some a') × SameSend a' b
react-SameSend n (admits now input) a b stays own h = (a, refl, h)
react-SameSend n (accepts now nonce) a b stays own h = (
  accept_record now a,
  refl,
  record { same_digest = h.same_digest; same_slot = h.same_slot; same_time = h.same_time },
)
react-SameSend n (rejects now nonce message) a b stays own h = (
  reject_record now message a,
  refl,
  record { same_digest = h.same_digest; same_slot = h.same_slot; same_time = h.same_time },
)
react-SameSend n (clears nonce) a b stays own h = absurd (stays own)

fate-SameSend :
    (n : Text) (es : List Event) (a b : AcceptanceRecord)
    → All (λ e. ¬ IsClear n e) es
    → SameSend a b
    → (a' : AcceptanceRecord) × (fate n (some a) es ≡ some a') × SameSend a' b
fate-SameSend n [] a b stays h = (a, refl, h)
fate-SameSend n (e ∷ es) a b stays h = elim (Bool-cases (nonce_of e == n)) [
  | inr other ↦ rw other (fate-SameSend n es a b stays.1 h)
  | inl own ↦
      let (a', next, h') = react-SameSend n e a b stays.0 ((text_beq_iff (nonce_of e) n).0 own) h in
      rw own (rw next (fate-SameSend n es a' b stays.1 h'))
]

-- A send is admitted once. From the admission of a nonce on, for as long as the nonce is not
-- cleared, every send with that nonce changes nothing: it is answered as a duplicate if its digest
-- is the admitted one and as a mismatch otherwise, with the record of the admitted send.
pub admitted_once :
    {F : Type 0} (stringify : List AcceptanceRecord → F)
    → (now : ℕ) (input : SendInput) (s : AcceptanceLedger F)
    → get s.records input.client_nonce ≡ none
    → (es : List Event) → All (λ e. ¬ IsClear input.client_nonce e) es
    → (later : ℕ) (again : SendInput) → again.client_nonce ≡ input.client_nonce
    → let s' = run stringify (admit stringify now input s).1 es in
      (r : AcceptanceRecord) × ((admit stringify later again s') ≡ (
        (if input.input_digest == again.input_digest then duplicate r else digest_mismatch r),
        s',
      ))
      × SameSend r (fresh_record now input)
admitted_once stringify now input s first es stays later again same =
    let n = input.client_nonce in
    let admitted_state = (admit stringify now input s).1 in
    let (r, e, h) =
      fate-SameSend n es (fresh_record now input) (fresh_record now input) stays
        (record { same_digest = refl; same_slot = refl; same_time = refl }) in
    let found : get (run stringify admitted_state es).records again.client_nonce ≡ some r =
      ap (get (run stringify admitted_state es).records) same
      ∙ run-fate stringify es admitted_state n
      ∙ ap (λ o. fate n o es) (admit-first stringify now input s first)
      ∙ e in
    (
      r,
      admit-repeated stringify later again (run stringify admitted_state es) r found
          ∙ ap
              (λ d. (
                (if d == again.input_digest then duplicate r else digest_mismatch r),
                run stringify admitted_state es,
              ))
              h.same_digest,
      h,
    )
