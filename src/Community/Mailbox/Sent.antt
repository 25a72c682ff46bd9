-- ===== src/Community/Mailbox/Sent.antt =====
-- What apps/community/mailbox.mjs sends, and when it says that a mail was accepted.
use mathlib.Core.Option.{some-injective}
use open_claw_bot.Common.{
  ℕ, ◌≤◌, ◌≡◌, refl, sym, ap, ◌∙◌, subst, ◌⊎◌, inl, inr, Bool, true, false, not, Option, none, some,
  List, [], ◌∷◌, ◌||◌, ◌==◌, nat_eq, if◌then◌else◌, ltb, arith, Bool-cases,
}
use open_claw_bot.Common.Texts.{Text, text_eq}
use open_claw_bot.Community.Mailbox.{
  string, Result, failed, done, Answer, unreachable, unreadable, refused, answered, request_result,
  is_mail_id, Action, send, reply, Input, Target, to_mail, to_address, Payload, is_text,
  is_request_id, is_receiver, is_subject, passing, address_target, mail_target, target_of,
  payload_parts, payload_for, payload_of, Receipt, receipt_result, send_payload, send_mail,
}

passing-some : (p : Text → Bool) (o : Option Text) (s : Text) → passing p o ≡ some s → p s ≡ true
passing-some p none s h = cc
passing-some p (some t) s h = elim (Bool-cases (p t)) [
  | inl good ↦
      let same : some t ≡ some s = sym (ap (λ b. if b then some t else none) good) ∙ h in
      subst (λ x. p x ≡ true) (some-injective _ _ same) good
  | inr bad ↦
      (let none_left : none ≡ some s = sym (ap (λ b. if b then some t else none) bad) ∙ h in cc)
]

-- A target that may be sent to.
abbrev pub IsTarget : Target → Type 0
IsTarget (to_mail id) = is_mail_id id ≡ true
IsTarget (to_address to subject) = (is_receiver to ≡ true) × (is_subject subject ≡ true)

address-IsTarget :
    (a b : Option Text) (t : Target)
    → ((s : Text) → a ≡ some s → is_receiver s ≡ true)
    → ((s : Text) → b ≡ some s → is_subject s ≡ true)
    → address_target a b ≡ some t
    → IsTarget t
address-IsTarget none b t ha hb h = cc
address-IsTarget (some to) none t ha hb h = cc
address-IsTarget (some to) (some subject) t ha hb h =
    subst IsTarget (some-injective _ _ h) (ha to refl, hb subject refl)

mail-IsTarget :
    (a : Option Text) (t : Target)
    → ((s : Text) → a ≡ some s → is_mail_id s ≡ true)
    → mail_target a ≡ some t
    → IsTarget t
mail-IsTarget none t ha h = cc
mail-IsTarget (some id) t ha h = subst IsTarget (some-injective _ _ h) (ha id refl)

target_of-IsTarget :
    (action : Action) (input : Input) (t : Target) → target_of action input ≡ some t → IsTarget t
unfolding target_of
target_of-IsTarget send input t h =
    address-IsTarget _ _ t (passing-some is_receiver input.to)
      (passing-some is_subject input.subject) h
target_of-IsTarget reply input t h = mail-IsTarget _ t (passing-some is_mail_id input.id) h

pub record IsPayload (p : Payload) : Type 0 where
  pub text : is_text p.text ≡ true
  pub request_id : is_request_id p.request_id ≡ true
  pub target : IsTarget p.target

parts-IsPayload :
    (a b : Option Text) (automatic : Bool) (c : Option Target) (p : Payload)
    → ((s : Text) → a ≡ some s → is_text s ≡ true)
    → ((s : Text) → b ≡ some s → is_request_id s ≡ true)
    → ((t : Target) → c ≡ some t → IsTarget t)
    → payload_parts a b automatic c ≡ some p
    → IsPayload p
parts-IsPayload none b automatic c p ha hb hc h = cc
parts-IsPayload (some text) none automatic c p ha hb hc h = cc
parts-IsPayload (some text) (some id) automatic none p ha hb hc h = cc
parts-IsPayload (some text) (some id) automatic (some target) p ha hb hc h =
    subst IsPayload (some-injective _ _ h)
      (record { text = ha text refl; request_id = hb id refl; target = hc target refl })

payload_for-IsPayload :
    (o : Option Action) (input : Input) (p : Payload) → payload_for o input ≡ some p → IsPayload p
payload_for-IsPayload none input p h = cc
payload_for-IsPayload (some action) input p h =
    parts-IsPayload _ _ input.is_automatic (target_of action input) p
      (passing-some is_text input.text) (passing-some is_request_id input.request_id)
      (target_of-IsTarget action input) h

refused_fails :
    (status : ℕ) → (code : ℕ) × (request_result {A = Receipt} (refused status) ≡ failed code)
unfolding request_result
refused_fails status = elim (Bool-cases (status == 404)) [
  | inl missing ↦ (404, rw missing refl)
  | inr found ↦ elim (Bool-cases (status == 401 || status == 403)) [
    | inl denied ↦ (409, rw found (rw denied refl))
    | inr broken ↦ (502, rw found (rw broken refl))
  ]
]

receipt_result-done :
    (a : Answer Receipt) (out : Text × Text)
    → receipt_result (request_result a) ≡ done out
    → (r : Receipt) × (a ≡ answered r) × (r.accepted ≡ true)
unfolding request_result
receipt_result-done unreachable out h = cc
receipt_result-done unreadable out h = cc
receipt_result-done (refused status) out h =
    let (code, e) = refused_fails status in
    let wrong : failed code ≡ done out = sym (ap receipt_result e) ∙ h in cc
receipt_result-done (answered r) out h = elim (Bool-cases r.accepted) [
  | inl was_accepted ↦ (r, refl, was_accepted)
  | inr not_accepted ↦
      let wrong : failed 502 ≡ done out =
        sym (
          ap (λ b. if b then done (string r.id 200, string r.sender 320) else failed 502)
            not_accepted)
        ∙ h in
      cc
]

-- What became of a call of `send`.
pub record IsPosted (configured : Bool) (size : Payload → ℕ) (post : Payload → Answer Receipt)
    (input : Input) (posted : List Payload) (result : Result (Text × Text)) : Type 0 where
  pub payload : Payload
  pub once : posted ≡ payload ∷ []
  pub asked : payload_of input ≡ some payload
  pub checked : IsPayload payload
  pub small : size payload ≤ 65536
  pub connected : configured ≡ true
  pub accepted :
      (out : Text × Text)
      → result ≡ done out
      → (r : Receipt) × (post payload ≡ answered r) × (r.accepted ≡ true)

abbrev pub IsSettled :
    Bool
    → (Payload → ℕ)
    → (Payload → Answer Receipt)
    → Input
    → List Payload × Result (Text × Text)
    → Type 0
IsSettled configured size post input outcome =
    ((outcome.0 ≡ [])
      × ((code : ℕ) × (outcome.1 ≡ failed code) × ((code ≡ 400) ⊎ (code ≡ 409) ⊎ (code ≡ 413))))
    ⊎ IsPosted configured size post input outcome.0 outcome.1

send_payload-IsSettled :
    (configured : Bool) (size : Payload → ℕ) (post : Payload → Answer Receipt) (input : Input)
    (o : Option Payload)
    → payload_of input ≡ o
    → IsSettled configured size post input (send_payload configured size post o)
send_payload-IsSettled configured size post input none e = inl (refl, (400, refl, inl refl))
send_payload-IsSettled configured size post input (some p) e =
    elim (Bool-cases (ltb 65536 (size p))) [
      | inl large ↦ rw large (inl (refl, (413, refl, inr (inr refl))))
      | inr small ↦ rw small (by_connection configured small)
    ]
  where
    by_connection :
        (c : Bool)
        → ltb 65536 (size p) ≡ false
        → IsSettled c size post input
            (if not c then ([], failed 409) else (p ∷ [], receipt_result (request_result (post p))))
    by_connection false fits = inl (refl, (409, refl, inr (inl refl)))
    by_connection true fits = inr (record {
      payload = p;
      once = refl;
      asked = e;
      checked = unfold payload_of in payload_for-IsPayload input.action input p e;
      small = ground arith;
      connected = refl;
      accepted = λ out. receipt_result-done (post p) out;
    })

-- A call of `send` posts nothing and fails with 400, 409 or 413, or it posts exactly one payload, the
-- one that its input asks for: with a text, a request id and a receiver or a mail id that pass their
-- checks, of at most 65536 bytes, over a mailbox that is configured. It reports success only if the
-- server has answered that it accepted the mail.
pub send_mail-IsSettled :
    (configured : Bool) (size : Payload → ℕ) (post : Payload → Answer Receipt) (input : Input)
    → IsSettled configured size post input (send_mail configured size post input)
unfolding send_mail
send_mail-IsSettled configured size post input =
    send_payload-IsSettled configured size post input (payload_of input) refl
