-- ===== src/Core/Lifecycle/Acks.antt =====
-- The acknowledgements of packages/core/src/run-lifecycle.ts: none is lost and none is retired twice.
use mathlib.Core.Option.{some-injective}
use open_claw_bot.Common.{
  ℕ, ◌+◌, ◌-◌, ◌≡◌, refl, sym, ap, subst, ◌∙◌, inl, inr, Option, none, some, List, [], ◌∷◌, ◌++◌,
  if◌then◌else◌, ◌==◌, nat_eq, ltb, or_else, is_some, arith, Bool-cases, Option-cases,
}
use open_claw_bot.Common.Texts.{Text, text_eq, text_beq_iff}
use open_claw_bot.Common.Maps.{
  Dict, get, set, delete, get-set, get-delete, get-set_other, get-delete_other,
}
use open_claw_bot.Core.Lifecycle.{
  RunLifecycle, new_lifecycle, AckObligation, Report, turn_completed, ack_minted, ack_retired,
  ack_redrive_scheduled, open_window, begin_session_run, completed, end_session_run, mint_ack,
  retire_ack, settle_run, LifecycleCall, begins, ends, mints, retires, settles, call, calls,
}

-- How often a token was minted, and how often retired, among the reports.
unfoldable pub minted_of : Text → List Report → ℕ
minted_of k [] = 0
minted_of k (ack_minted o ∷ rest) = (if o.token == k then 1 else 0) + minted_of k rest
minted_of k (turn_completed t ∷ rest) = minted_of k rest
minted_of k (ack_retired o ∷ rest) = minted_of k rest
minted_of k (ack_redrive_scheduled b n ∷ rest) = minted_of k rest

unfoldable pub retired_of : Text → List Report → ℕ
retired_of k [] = 0
retired_of k (ack_retired o ∷ rest) = (if o.token == k then 1 else 0) + retired_of k rest
retired_of k (turn_completed t ∷ rest) = retired_of k rest
retired_of k (ack_minted o ∷ rest) = retired_of k rest
retired_of k (ack_redrive_scheduled b n ∷ rest) = retired_of k rest

minted_of-append :
    (k : Text) (xs ys : List Report) → minted_of k (xs ++ ys) ≡ minted_of k xs + minted_of k ys
unfolding minted_of
minted_of-append k [] ys = omega arith
minted_of-append k (ack_minted o ∷ xs) ys = omega (arith, minted_of-append k xs ys)
minted_of-append k (turn_completed t ∷ xs) ys = minted_of-append k xs ys
minted_of-append k (ack_retired o ∷ xs) ys = minted_of-append k xs ys
minted_of-append k (ack_redrive_scheduled b n ∷ xs) ys = minted_of-append k xs ys

retired_of-append :
    (k : Text) (xs ys : List Report) → retired_of k (xs ++ ys) ≡ retired_of k xs + retired_of k ys
unfolding retired_of
retired_of-append k [] ys = omega arith
retired_of-append k (ack_retired o ∷ xs) ys = omega (arith, retired_of-append k xs ys)
retired_of-append k (turn_completed t ∷ xs) ys = retired_of-append k xs ys
retired_of-append k (ack_minted o ∷ xs) ys = retired_of-append k xs ys
retired_of-append k (ack_redrive_scheduled b n ∷ xs) ys = retired_of-append k xs ys

-- What is owed for a token.
abbrev pub owed : Text → RunLifecycle → ℕ
owed k s = if is_some (get s.acks k) then 1 else 0

-- Obligations stand under their tokens.
abbrev pub IsFiled : Dict Text AckObligation → Type 0
IsFiled m = (k : Text) (o : AckObligation) → get m k ≡ some o → o.token ≡ k

set-IsFiled :
    (m : Dict Text AckObligation) (token : Text) (v : AckObligation)
    → v.token ≡ token
    → IsFiled m
    → IsFiled (set m token v)
set-IsFiled m token v e filed k o h = elim (Bool-cases (token == k)) [
  | inl same ↦
      let here : some v ≡ some o = sym (get-set m token k v ∙ rw same) ∙ h in
      sym (ap (λ x. x.token) (some-injective _ _ here)) ∙ e ∙ (text_beq_iff token k).0 same
  | inr other ↦ filed k o (sym (get-set_other m token k v other) ∙ h)
]

delete-IsFiled : (m : Dict Text AckObligation) (token : Text) → IsFiled m → IsFiled (delete m token)
delete-IsFiled m token filed k o h = elim (Bool-cases (token == k)) [
  | inl same ↦ (let gone : none ≡ some o = sym (get-delete m token k ∙ rw same) ∙ h in cc)
  | inr other ↦ filed k o (sym (get-delete_other m token k other) ∙ h)
]

-- The account of a token over a call.
abbrev Balances : Text → RunLifecycle → RunLifecycle × List Report → Type 0
Balances k s r = (minted_of k r.1 + owed k s ≡ retired_of k r.1 + owed k r.0) × IsFiled r.0.acks

new_count :
    (k token : Text) (s : RunLifecycle) (v : AckObligation)
    → get s.acks token ≡ none
    → ((if token == k then 1 else 0) + 0 + owed k s
        ≡ 0 + (if is_some (get (set s.acks token v) k) then 1 else 0))
new_count k token s v new = elim (Bool-cases (token == k)) [
  | inl same ↦
      let gone : get s.acks k ≡ none =
        subst (λ x. get s.acks x ≡ none) ((text_beq_iff token k).0 same) new in
      rw (get-set s.acks token k v, same, gone) refl
  | inr other ↦ rw (get-set s.acks token k v, other) (omega arith)
]

known_count :
    (k token : Text) (s : RunLifecycle) (v o : AckObligation)
    → get s.acks token ≡ some o
    → (0 + owed k s ≡ 0 + (if is_some (get (set s.acks token v) k) then 1 else 0))
known_count k token s v o known = elim (Bool-cases (token == k)) [
  | inl same ↦
      let found : get s.acks k ≡ some o =
        subst (λ x. get s.acks x ≡ some o) ((text_beq_iff token k).0 same) known in
      rw (get-set s.acks token k v, same, found) refl
  | inr other ↦ rw (get-set s.acks token k v, other) refl
]

gone_count :
    (k token : Text) (s : RunLifecycle) (o : AckObligation)
    → get s.acks token ≡ some o
    → o.token ≡ token
    → (0 + owed k s
        ≡ (if o.token == k then 1 else 0)
          + 0
          + (if is_some (get (delete s.acks token) k) then 1 else 0))
gone_count k token s o known e = elim (Bool-cases (token == k)) [
  | inl same ↦
      let found : get s.acks k ≡ some o =
        subst (λ x. get s.acks x ≡ some o) ((text_beq_iff token k).0 same) known in
      subst
        (λ x.
          0 + owed k s
          ≡ (if x == k then 1 else 0)
            + 0
            + (if is_some (get (delete s.acks token) k) then 1 else 0))
        (sym e) (rw (get-delete s.acks token k, same, found) refl)
  | inr other ↦
      subst
        (λ x.
          0 + owed k s
          ≡ (if x == k then 1 else 0)
            + 0
            + (if is_some (get (delete s.acks token) k) then 1 else 0))
        (sym e) (rw (get-delete s.acks token k, other) (omega arith))
]

completed_counts :
    (k b : Text) (started : Option ℕ) (sources : List Text)
    → (minted_of k (completed b started sources) ≡ 0)
      × (retired_of k (completed b started sources) ≡ 0)
unfolding completed minted_of retired_of
completed_counts k b none sources = (refl, refl)
completed_counts k b (some started) sources = (refl, refl)

mint-Balances :
    (k agent_id token : Text) (now : ℕ) (s : RunLifecycle)
    → IsFiled s.acks
    → Balances k s (mint_ack agent_id token now s)
unfolding mint_ack minted_of retired_of
mint-Balances k agent_id token now s filed = elim (Option-cases (get s.acks token)) [
  | inl new ↦ rw new (new_count k token s _ new, set-IsFiled s.acks token _ refl filed)
  | inr (o, known) ↦
      rw known
        (known_count k token s _ o known, set-IsFiled s.acks token _ (filed token o known) filed)
]

retire-Balances :
    (k token : Text) (s : RunLifecycle) → IsFiled s.acks → Balances k s (retire_ack token s)
unfolding retire_ack minted_of retired_of
retire-Balances k token s filed = elim (Option-cases (get s.acks token)) [
  | inl gone ↦ rw gone (refl, filed)
  | inr (o, known) ↦
      rw known
        (gone_count k token s o known (filed token o known), delete-IsFiled s.acks token filed)
]

end-Balances : (k b : Text) (s : RunLifecycle) → IsFiled s.acks → Balances k s (end_session_run b s)
unfolding end_session_run minted_of retired_of
end-Balances k b s filed =
    elim (Bool-cases (ltb 0 (or_else (get s.in_flight_run_counts b) 1 - 1))) [
      | inl more ↦ rw more (refl, filed)
      | inr last ↦ rw last (
        omega (
          arith,
          completed_counts k b (get s.run_window_started_at b) (or_else (get s.run_sources b) []),
        ),
        filed,
      )
    ]

then-Balances :
    (k : Text) (s : RunLifecycle) (r q : RunLifecycle × List Report)
    → Balances k s r
    → Balances k r.0 q
    → Balances k s (q.0, r.1 ++ q.1)
then-Balances k s r q one two =
    (omega (arith, one.0, two.0, minted_of-append k r.1 q.1, retired_of-append k r.1 q.1), two.1)

begin-acks :
    (b source : Text) (now : ℕ) (s : RunLifecycle)
    → (begin_session_run b source now s).acks ≡ s.acks
unfolding begin_session_run open_window
begin-acks b source now s = ground arith

begin-Balances :
    (k b source : Text) (now : ℕ) (s : RunLifecycle)
    → IsFiled s.acks
    → Balances k s (begin_session_run b source now s, [])
unfolding minted_of retired_of
begin-Balances k b source now s filed = rw (begin-acks b source now s) (refl, filed)

call-Balances :
    (k : Text) (c : LifecycleCall) (s : RunLifecycle) → IsFiled s.acks → Balances k s (call c s)
unfolding call settle_run
call-Balances k (begins b source now) s filed = begin-Balances k b source now s filed
call-Balances k (ends b) s filed = end-Balances k b s filed
call-Balances k (mints b token now) s filed = mint-Balances k b token now s filed
call-Balances k (retires token) s filed = retire-Balances k token s filed
call-Balances k (settles b none) s filed = end-Balances k b s filed
call-Balances k (settles b (some token)) s filed =
    let retires_first = retire-Balances k token s filed in
    then-Balances k s (retire_ack token s) (end_session_run b (retire_ack token s).0) retires_first
      (end-Balances k b (retire_ack token s).0 retires_first.1)

calls-Balances :
    (k : Text) (cs : List LifecycleCall) (s : RunLifecycle)
    → IsFiled s.acks
    → Balances k s (calls cs s)
unfolding calls minted_of retired_of
calls-Balances k [] s filed = (refl, filed)
calls-Balances k (c ∷ cs) s filed =
    let one = call-Balances k c s filed in
    then-Balances k s (call c s) (calls cs (call c s).0) one
      (calls-Balances k cs (call c s).0 one.1)

empty-IsFiled : IsFiled []
unfolding get
empty-IsFiled k o h = cc

-- Over every history of calls, each obligation that `onAckMinted` announced for a token was either
-- retired, once, or is still outstanding: the announcements are as many as the retirements, plus one
-- if and only if the token is still owed.
pub calls-acks :
    (k : Text) (cs : List LifecycleCall)
    → minted_of k (calls cs new_lifecycle).1
      ≡ retired_of k (calls cs new_lifecycle).1 + owed k (calls cs new_lifecycle).0
unfolding get
calls-acks k cs = omega (arith, (calls-Balances k cs new_lifecycle empty-IsFiled).0)
