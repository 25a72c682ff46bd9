-- ===== src/Core/Lifecycle/Windows.antt =====
-- The run windows of packages/core/src/run-lifecycle.ts against one counter for each agent.
use open_claw_bot.Common.{
  ℕ, ◌+◌, ◌-◌, ◌≡◌, refl, sym, subst, ◌∙◌, inl, inr, false, Option, none, some, List, [], ◌∷◌, ◌++◌,
  if◌then◌else◌, ◌==◌, nat_eq, ltb, or_else, Bool-cases, Option-cases, Option-cases,
}
use open_claw_bot.Common.Texts.{Text, text_eq, text_beq_iff}
use open_claw_bot.Common.Maps.{Dict, get, get-set_other, get-delete_other}
use open_claw_bot.Core.Lifecycle.{
  RunLifecycle, new_lifecycle, CompletedTurn, Report, add_to_set, add_source, open_window,
  begin_session_run, completed, end_session_run, mint_ack, retire_ack, settle_run, LifecycleCall,
  begins, ends, mints, retires, settles, call, calls,
}
use open_claw_bot.Core.Lifecycle.Window.{
  Window, window_begins, window_ends, window_call, window_calls, Shows, turns_of, turns_of-append,
  begin_self, end_self, closed, opened,
}

-- Two states that say the same of an agent's window.
abbrev SameAt : Text → RunLifecycle → RunLifecycle → Type 0
SameAt a s s' =
    (get s'.in_flight_run_counts a ≡ get s.in_flight_run_counts a)
    × (get s'.run_window_started_at a ≡ get s.run_window_started_at a)
    × (get s'.run_sources a ≡ get s.run_sources a)

SameAt-Shows :
    (a : Text) (s s' : RunLifecycle) (w : Window) → SameAt a s s' → Shows s a w → Shows s' a w
SameAt-Shows a s s' closed (ec, et, er) (c, t, r) = (ec ∙ c, et ∙ t, er ∙ r)
SameAt-Shows a s s' (opened started sources more) (ec, et, er) (c, t, r) = (ec ∙ c, et ∙ t, er ∙ r)

add_source-other :
    (m : Dict Text (List Text)) (b a source : Text)
    → (b == a) ≡ false
    → get (add_source m b source) a ≡ get m a
unfolding add_source
add_source-other m b a source other = elim (Option-cases (get m b)) [
  | inl gone ↦ rw (gone, add_source)
  | inr (xs, found) ↦ rw (found, add_source) (get-set_other m b a (add_to_set xs source) other)
]

open_window-SameAt :
    (b a : Text) (n now : ℕ) (s : RunLifecycle)
    → (b == a) ≡ false
    → SameAt a s (open_window b n now s)
unfolding open_window
open_window-SameAt b a n now s other = elim (Bool-cases (n == 0)) [
  | inl first ↦ rw first (refl, get-set_other _ b a now other, get-set_other _ b a [] other)
  | inr later ↦ rw later (refl, refl, refl)
]

begin-SameAt :
    (b source a : Text) (now : ℕ) (s : RunLifecycle)
    → (b == a) ≡ false
    → SameAt a s (begin_session_run b source now s)
unfolding begin_session_run
begin-SameAt b source a now s other =
    let n = or_else (get s.in_flight_run_counts b) 0 in
    let same = open_window-SameAt b a n now s other in
    (
      get-set_other _ b a (n + 1) other ∙ same.0,
      same.1,
      add_source-other _ b a source other ∙ same.2,
    )

completed-other :
    (b a : Text) (started : Option ℕ) (sources : List Text)
    → (b == a) ≡ false
    → turns_of a (completed b started sources) ≡ []
unfolding completed turns_of
completed-other b a none sources other = refl
completed-other b a (some started) sources other = rw other

end-SameAt :
    (b a : Text) (s : RunLifecycle)
    → (b == a) ≡ false
    → SameAt a s (end_session_run b s).0 × (turns_of a (end_session_run b s).1 ≡ [])
unfolding end_session_run turns_of
end-SameAt b a s other = elim (Bool-cases (ltb 0 (or_else (get s.in_flight_run_counts b) 1 - 1))) [
  | inl more ↦ rw more ((get-set_other _ b a _ other, refl, refl), refl)
  | inr last ↦ rw last (
    (get-delete_other _ b a other, get-delete_other _ b a other, get-delete_other _ b a other),
    completed-other b a _ _ other,
  )
]

mint-SameAt :
    (b token a : Text) (now : ℕ) (s : RunLifecycle)
    → SameAt a s (mint_ack b token now s).0 × (turns_of a (mint_ack b token now s).1 ≡ [])
unfolding mint_ack turns_of
mint-SameAt b token a now s = elim (Option-cases (get s.acks token)) [
  | inl new ↦ rw new ((refl, refl, refl), refl)
  | inr (o, known) ↦ rw known ((refl, refl, refl), refl)
]

retire-SameAt :
    (token a : Text) (s : RunLifecycle)
    → SameAt a s (retire_ack token s).0 × (turns_of a (retire_ack token s).1 ≡ [])
unfolding retire_ack turns_of
retire-SameAt token a s = elim (Option-cases (get s.acks token)) [
  | inl gone ↦ rw gone ((refl, refl, refl), refl)
  | inr (o, known) ↦ rw known ((refl, refl, refl), refl)
]

-- A call in front of others whose state and turns are known.
abbrev Tracks : Text → RunLifecycle × List Report → Window × List CompletedTurn → Type 0
Tracks a r w = Shows r.0 a w.0 × (turns_of a r.1 ≡ w.1)

quiet-Tracks :
    (a : Text) (s : RunLifecycle) (r : RunLifecycle × List Report) (w : Window)
    → Shows s a w
    → SameAt a s r.0 × (turns_of a r.1 ≡ [])
    → Tracks a r (w, [])
quiet-Tracks a s r w shown same = (SameAt-Shows a s r.0 w same.0 shown, same.1)

then-Tracks :
    (a : Text) (r q : RunLifecycle × List Report) (w v : Window × List CompletedTurn)
    → turns_of a r.1 ≡ w.1
    → Tracks a q v
    → Tracks a (q.0, r.1 ++ q.1) (v.0, w.1 ++ v.1)
then-Tracks a r q w v e (shown, f) = (shown, turns_of-append a r.1 q.1 ∙ rw (e, f))

end-Tracks :
    (b a : Text) (s : RunLifecycle) (w : Window)
    → Shows s a w
    → Tracks a (end_session_run b s) (if b == a then window_ends a w else (w, []))
end-Tracks b a s w shown = elim (Bool-cases (b == a)) [
  | inl same ↦ rw same (
      subst (λ x. Tracks a (end_session_run x s) (window_ends a w))
        (sym ((text_beq_iff b a).0 same)) (end_self s a w shown))
  | inr other ↦ rw other (quiet-Tracks a s (end_session_run b s) w shown (end-SameAt b a s other))
]

begin-Tracks :
    (b source a : Text) (now : ℕ) (s : RunLifecycle) (w : Window)
    → Shows s a w
    → Tracks a
        (begin_session_run b source now s, [])
        (if b == a then (window_begins source now w, []) else (w, []))
unfolding turns_of
begin-Tracks b source a now s w shown = elim (Bool-cases (b == a)) [
  | inl same ↦ rw same (
      subst (λ x. Tracks a (begin_session_run x source now s, []) (window_begins source now w, []))
        (sym ((text_beq_iff b a).0 same)) (begin_self s a source now w shown, refl))
  | inr other ↦ rw other (
      quiet-Tracks a s (begin_session_run b source now s, []) w shown
        (begin-SameAt b source a now s other, refl))
]

settle-Tracks :
    (b a : Text) (token : Option Text) (s : RunLifecycle) (w : Window)
    → Shows s a w
    → Tracks a (settle_run b token s) (if b == a then window_ends a w else (w, []))
unfolding settle_run
settle-Tracks b a none s w shown = end-Tracks b a s w shown
settle-Tracks b a (some token) s w shown =
    let quiet = quiet-Tracks a s (retire_ack token s) w shown (retire-SameAt token a s) in
    then-Tracks a (retire_ack token s) (end_session_run b (retire_ack token s).0) (w, [])
      (if b == a then window_ends a w else (w, [])) quiet.1
      (end-Tracks b a (retire_ack token s).0 w quiet.0)

call-Tracks :
    (a : Text) (c : LifecycleCall) (s : RunLifecycle) (w : Window)
    → Shows s a w
    → Tracks a (call c s) (window_call a c w)
unfolding call window_call
call-Tracks a (begins b source now) s w shown = begin-Tracks b source a now s w shown
call-Tracks a (ends b) s w shown = end-Tracks b a s w shown
call-Tracks a (mints b token now) s w shown =
    quiet-Tracks a s (mint_ack b token now s) w shown (mint-SameAt b token a now s)
call-Tracks a (retires token) s w shown =
    quiet-Tracks a s (retire_ack token s) w shown (retire-SameAt token a s)
call-Tracks a (settles b token) s w shown = settle-Tracks b a token s w shown

calls-Tracks :
    (a : Text) (cs : List LifecycleCall) (s : RunLifecycle) (w : Window)
    → Shows s a w
    → Tracks a (calls cs s) (window_calls a cs w)
unfolding calls window_calls turns_of
calls-Tracks a [] s w shown = (shown, refl)
calls-Tracks a (c ∷ cs) s w shown =
    let one = call-Tracks a c s w shown in
    then-Tracks a (call c s) (calls cs (call c s).0) (window_call a c w)
      (window_calls a cs (window_call a c w).0) one.1 (calls-Tracks a cs _ _ one.0)

-- Over every history of calls, and for every agent, the three maps always agree with each other and
-- hold what one counter for that agent gives: a window opens with the first run, collects the
-- sources of the runs that overlap it, and closes with the last. `onTurnCompleted` is called for the
-- agent exactly when a window closes, with the window's start and sources. An end without a begin
-- and the acknowledgements change nothing of it.
pub calls-windows :
    (a : Text) (cs : List LifecycleCall)
    → Shows (calls cs new_lifecycle).0 a (window_calls a cs closed).0
      × (turns_of a (calls cs new_lifecycle).1 ≡ (window_calls a cs closed).1)
unfolding get
calls-windows a cs = calls-Tracks a cs new_lifecycle closed (refl, refl, refl)
