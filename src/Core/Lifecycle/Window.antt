-- ===== src/Core/Lifecycle/Window.antt =====
-- The run window of one agent of packages/core/src/run-lifecycle.ts.
use open_claw_bot.Common.{
  ℕ, zero, suc, ◌≡◌, refl, none, some, List, [], ◌∷◌, ◌++◌, if◌then◌else◌, ◌==◌, nat_eq, arith,
}
use open_claw_bot.Common.Texts.{Text, text_eq, text_beq_iff}
use open_claw_bot.Common.Maps.{get, set, get-set_self, get-delete_self}
use open_claw_bot.Core.Lifecycle.{
  RunLifecycle, CompletedTurn, Report, turn_completed, ack_minted, ack_retired,
  ack_redrive_scheduled, add_to_set, begin_session_run, completed, end_session_run, LifecycleCall,
  begins, ends, mints, retires, settles,
}

-- The window of one agent: closed, or open since `started` with the sources of its runs and the
-- number of runs in flight beyond the first.
pub data Window : Type 0 where
  closed : Window
  opened : (started : ℕ) (sources : List Text) (more : ℕ) → Window

unfoldable pub window_begins : Text → ℕ → Window → Window
window_begins source now closed = opened now (source ∷ []) 0
window_begins source now (opened started sources more) =
    opened started (add_to_set sources source) (suc more)

unfoldable pub window_ends : Text → Window → Window × List CompletedTurn
window_ends agent_id closed = (closed, [])
window_ends agent_id (opened started sources zero) =
    (closed, record { agent_id = agent_id; started_at_ms = started; sources = sources } ∷ [])
window_ends agent_id (opened started sources (suc more)) = (opened started sources more, [])

unfoldable pub window_call : Text → LifecycleCall → Window → Window × List CompletedTurn
window_call a (begins b source now) w = if b == a then (window_begins source now w, []) else (w, [])
window_call a (ends b) w = if b == a then window_ends a w else (w, [])
window_call a (mints b token now) w = (w, [])
window_call a (retires token) w = (w, [])
window_call a (settles b token) w = if b == a then window_ends a w else (w, [])

unfoldable pub window_calls : Text → List LifecycleCall → Window → Window × List CompletedTurn
window_calls a [] w = (w, [])
window_calls a (c ∷ cs) w =
    let r = window_call a c w in let later = window_calls a cs r.0 in (later.0, r.1 ++ later.1)

-- What the three maps hold for an agent whose window is `w`.
abbrev pub Shows : RunLifecycle → Text → Window → Type 0
Shows s a closed =
    (get s.in_flight_run_counts a ≡ none)
    × (get s.run_window_started_at a ≡ none)
    × (get s.run_sources a ≡ none)
Shows s a (opened started sources more) =
    (get s.in_flight_run_counts a ≡ some (suc more))
    × (get s.run_window_started_at a ≡ some started)
    × (get s.run_sources a ≡ some sources)

-- The turns of an agent among the reports.
unfoldable pub turns_of : Text → List Report → List CompletedTurn
turns_of a [] = []
turns_of a (turn_completed t ∷ rest) =
    if t.agent_id == a then t ∷ turns_of a rest else turns_of a rest
turns_of a (ack_minted o ∷ rest) = turns_of a rest
turns_of a (ack_retired o ∷ rest) = turns_of a rest
turns_of a (ack_redrive_scheduled b n ∷ rest) = turns_of a rest

pub turns_of-append :
    (a : Text) (xs ys : List Report) → turns_of a (xs ++ ys) ≡ turns_of a xs ++ turns_of a ys
unfolding turns_of
turns_of-append a [] ys = refl
turns_of-append a (turn_completed t ∷ xs) ys = ground (arith, turns_of-append a xs ys)
turns_of-append a (ack_minted o ∷ xs) ys = turns_of-append a xs ys
turns_of-append a (ack_retired o ∷ xs) ys = turns_of-append a xs ys
turns_of-append a (ack_redrive_scheduled b n ∷ xs) ys = turns_of-append a xs ys

pub begin_self :
    (s : RunLifecycle) (a source : Text) (now : ℕ) (w : Window)
    → Shows s a w
    → Shows (begin_session_run a source now s) a (window_begins source now w)
unfolding begin_session_run window_begins add_to_set
begin_self s a source now closed (c, t, r) = ground (
  arith,
  get-set_self s.in_flight_run_counts a 1,
  get-set_self s.run_window_started_at a now,
  get-set_self s.run_sources a [],
  get-set_self (set s.run_sources a []) a (source ∷ []),
)
begin_self s a source now (opened started sources more) (c, t, r) = ground (
  arith,
  get-set_self s.in_flight_run_counts a (suc (suc more)),
  get-set_self s.run_sources a (add_to_set sources source),
)

pub end_self :
    (s : RunLifecycle) (a : Text) (w : Window)
    → Shows s a w
    → Shows (end_session_run a s).0 a (window_ends a w).0
      × (turns_of a (end_session_run a s).1 ≡ (window_ends a w).1)
unfolding end_session_run window_ends turns_of completed
end_self s a closed (c, t, r) = ground (
  arith,
  get-delete_self s.in_flight_run_counts a,
  get-delete_self s.run_window_started_at a,
  get-delete_self s.run_sources a,
)
end_self s a (opened started sources zero) (c, t, r) = ground (
  arith,
  get-delete_self s.in_flight_run_counts a,
  get-delete_self s.run_window_started_at a,
  get-delete_self s.run_sources a,
  text_beq_iff a a,
)
end_self s a (opened started sources (suc more)) (c, t, r) =
    ground (arith, get-set_self s.in_flight_run_counts a (suc more))
