-- ===== src/Community/MailAuth/Sound.antt =====
-- What a verified mail of apps/community/mail-auth.mjs has passed.
use mathlib.Core.Option.{some-injective}
use open_claw_bot.Common.{
  ℕ, ◌≡◌, refl, sym, ap, ◌∙◌, subst, ◌⊎◌, inl, inr, Bool, true, false, not, Option, none, some,
  List, [], ◌∷◌, length, keep, contains, is_empty, if◌then◌else◌, ltb, or_else, is_some, get_elem?,
  arith, Bool-cases,
}
use open_claw_bot.Common.Ints.{ℤ}
use open_claw_bot.Common.Texts.{Text, units, text_eq}
use open_claw_bot.Community.MailAuth.{reference_ids, message_id, domain_of, in_window}
use open_claw_bot.Community.MailAuth.Verify.{
  MailResult, Parsed, Signature, Verification, Libraries, values_of, needed, all_in,
  first_signature, signed_set, has_bad_headers, is_automated, is_mailing_list, is_delivery_report,
  is_from, is_pass_of, is_full, is_verified_from, accept, accept_signature, check_signatures,
}
use open_claw_bot.Community.MailAuth.Pipeline.{guard, is_addressed, check_thread}

-- A guard that lets a verified result through was not met.
pub guard_keeps :
    (P : MailResult → Type 0) (bad : Bool) (r rest : MailResult) (reason : Text)
    → (guard bad r reason rest).verified ≡ true
    → (bad ≡ false → rest.verified ≡ true → P rest)
    → P (guard bad r reason rest)
guard_keeps P true r rest reason h k = cc
guard_keeps P false r rest reason h k = k refl h

accept_signature_keeps :
    (P : MailResult → Type 0) (l : Libraries) (p : Parsed) (ids : List Text) (o : Option Signature)
    (r : MailResult)
    → (accept_signature l p ids o r).verified ≡ true
    → ((sig : Signature) → o ≡ some sig → P (accept l p ids sig r))
    → P (accept_signature l p ids o r)
accept_signature_keeps P l p ids none r h k = cc
accept_signature_keeps P l p ids (some sig) r h k = k sig refl

-- A signature that carries a mail: a pass of the sender's own domain over the whole body and all
-- headers that must be signed.
pub record Carries (l : Libraries) (expected : Text) (with_recipient : Bool) (p : Parsed)
    (sig : Signature) : Type 0 where
  pub passes : is_pass_of l (domain_of expected) sig ≡ true
  pub full : is_full l sig ≡ true
  pub covers : all_in (signed_set l sig) (needed p with_recipient) ≡ true

-- One of the results that the DKIM check gave.
abbrev pub IsAmong : List Signature → Signature → Type 0
IsAmong [] sig = ⊥
IsAmong (x ∷ xs) sig = (x ≡ sig) ⊎ IsAmong xs sig

first_signature-found :
    (p : Signature → Bool) (xs : List Signature) (sig : Signature)
    → first_signature p xs ≡ some sig
    → (p sig ≡ true) × IsAmong xs sig
first_signature-found p [] sig h = cc
first_signature-found p (x ∷ xs) sig h = elim (Bool-cases (p x)) [
  | inl good ↦
      let same : some x ≡ some sig =
        sym (ap (λ b. if b then some x else first_signature p xs) good) ∙ h in
      (subst (λ s. p s ≡ true) (some-injective _ _ same) good, inl (some-injective _ _ same))
  | inr bad ↦
      let later =
        first_signature-found p xs sig
          (sym (ap (λ b. if b then some x else first_signature p xs) bad) ∙ h) in
      (later.0, inr later.1)
]

keep-IsAmong :
    (p : Signature → Bool) (xs : List Signature) (sig : Signature)
    → IsAmong (keep p xs) sig
    → (p sig ≡ true) × IsAmong xs sig
keep-IsAmong p [] sig h = elim h [ ]
keep-IsAmong p (x ∷ xs) sig h = elim (Bool-cases (p x)) [
  | inl good ↦ elim (subst (λ b. IsAmong (if b then x ∷ keep p xs else keep p xs) sig) good h) [
    | inl same ↦ (subst (λ s. p s ≡ true) same good, inl same)
    | inr later ↦ (let found = keep-IsAmong p xs sig later in (found.0, inr found.1))
  ]
  | inr bad ↦
      let found =
        keep-IsAmong p xs sig
          (subst (λ b. IsAmong (if b then x ∷ keep p xs else keep p xs) sig) bad h) in
      (found.0, inr found.1)
]

-- A verified result rests on a carrying signature, and its thread is only what that one signed.
pub record Rests (l : Libraries) (expected : Text) (with_recipient : Bool) (p : Parsed)
    (o : Option Verification) (r result : MailResult) : Type 0 where
  pub verification : Verification
  pub given : o ≡ some verification
  pub sender : is_verified_from l expected verification ≡ true
  pub signature : Signature
  pub among : IsAmong verification.results signature
  pub carries : Carries l expected with_recipient p signature
  pub reply_signed :
      contains (signed_set l signature) (units "in-reply-to") ≡ false → result.in_reply_to ≡ []
  pub references_signed :
      contains (signed_set l signature) (units "references") ≡ false → result.references ≡ []
  pub same_sender : result.sender ≡ r.sender
  pub same_id : result.message_id ≡ r.message_id

accept-Rests :
    (l : Libraries) (expected : Text) (with_recipient : Bool) (p : Parsed) (ids : List Text)
    (v : Verification) (r : MailResult) (sig : Signature)
    → is_verified_from l expected v ≡ true
    → IsAmong (keep (is_full l) (keep (is_pass_of l (domain_of expected)) v.results)) sig
    → all_in (signed_set l sig) (needed p with_recipient) ≡ true
    → Rests l expected with_recipient p (some v) r (accept l p ids sig r)
accept-Rests l expected with_recipient p ids v r sig sender there covers =
    let full = keep-IsAmong (is_full l) _ sig there in
    let pass = keep-IsAmong (is_pass_of l (domain_of expected)) v.results sig full.1 in
    unfold accept in
    record {
      verification = v;
      given = refl;
      sender = sender;
      signature = sig;
      among = pass.1;
      carries = record { passes = pass.0; full = full.0; covers = covers };
      reply_signed = λ unsigned. rw unsigned refl;
      references_signed = λ unsigned. rw unsigned refl;
      same_sender = refl;
      same_id = refl;
    }

check_signatures-Rests :
    (l : Libraries) (expected : Text) (with_recipient : Bool) (p : Parsed) (ids : List Text)
    (o : Option Verification) (r : MailResult)
    → (check_signatures l expected with_recipient p ids o r).verified ≡ true
    → Rests l expected with_recipient p o r (check_signatures l expected with_recipient p ids o r)
unfolding check_signatures
check_signatures-Rests l expected with_recipient p ids none r h = cc
check_signatures-Rests l expected with_recipient p ids (some v) r h =
    let P : MailResult → Type 0 = Rests l expected with_recipient p (some v) r in
    let pass = keep (is_pass_of l (domain_of expected)) v.results in
    let full = keep (is_full l) pass in
    let covers : Signature → Bool = λ sig. all_in (signed_set l sig) (needed p with_recipient) in
    guard_keeps P (not (is_verified_from l expected v)) r _ _ h (λ sender h1.
      guard_keeps P (is_empty pass) r _ _ h1 (λ _ h2.
        guard_keeps P (is_empty full) r _ _ h2 (λ _ h3.
          accept_signature_keeps P l p ids (first_signature covers full) r h3 (λ sig found.
            let there = first_signature-found covers full sig found in
            accept-Rests l expected with_recipient p ids v r sig (ground arith) there.1 there.0))))

-- The parts of a mail that a verified result vouches for.
pub record IsAuthorized (l : Libraries) (bytes : Text) (now : ℕ) (expected : Text)
    (recipient : Option Text) (p : Parsed) (result : MailResult) : Type 0 where
  pub well_formed : has_bad_headers l p ≡ false
  pub not_automated : is_automated l p ≡ false
  pub no_list : is_mailing_list l p ≡ false
  pub no_report : is_delivery_report l p ≡ false
  pub from_expected : is_from l expected p ≡ true
  pub sent_in_window :
      (sent : ℤ) × (l.parse_date (or_else (get_elem? (values_of p.headers (units "date")) 0) [])
        ≡ some sent)
      × (in_window now sent ≡ true)
  pub addressed : is_addressed l bytes now expected recipient p ≡ true
  pub draft : MailResult
  pub rests : Rests l expected (is_some recipient) p (l.verify_dkim bytes now) draft result
  pub sender : result.sender ≡ expected
  pub has_id : is_empty (message_id p.message_id) ≡ false
  pub id : result.message_id ≡ message_id p.message_id

-- What the last stages add.
pub record IsThreaded (l : Libraries) (bytes : Text) (now : ℕ) (expected : Text)
    (recipient : Option Text) (p : Parsed) (r result : MailResult) : Type 0 where
  pub addressed : is_addressed l bytes now expected recipient p ≡ true
  pub rests : Rests l expected (is_some recipient) p (l.verify_dkim bytes now) r result

module _ (l : Libraries) (bytes : Text) (now : ℕ) (expected : Text) (recipient : Option Text)
    (p : Parsed) where
  pub check_thread-IsThreaded :
      (r : MailResult)
      → (check_thread l bytes now expected recipient p r).verified ≡ true
      → IsThreaded l bytes now expected recipient p r
          (check_thread l bytes now expected recipient p r)
  unfolding check_thread
  check_thread-IsThreaded r h =
      let P : MailResult → Type 0 = IsThreaded l bytes now expected recipient p r in
      guard_keeps P (not (is_addressed l bytes now expected recipient p)) r _ _ h (λ to h1.
        guard_keeps P (ltb 100 (length (reference_ids p.references))) r _ _ h1 (λ _ h2.
          guard_keeps P (is_empty (values_of p.headers (units "dkim-signature"))) r _ _ h2 (λ _ h3.
            record {
              addressed = ground arith;
              rests =
                  check_signatures-Rests l expected (is_some recipient) p
                    (reference_ids p.references) (l.verify_dkim bytes now) r h3;
            })))
