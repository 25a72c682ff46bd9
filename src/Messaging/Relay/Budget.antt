-- ===== src/Messaging/Relay/Budget.antt =====
-- The budget of packages/messaging/src/cross-user-relay.ts over whole histories.
use mathlib.Core.List.{append-nil}
use open_claw_bot.Common.{
  ℕ, ◌-◌, ◌≤◌, ◌<◌, ◌++◌, ◌≡◌, refl, sym, ap, ◌∙◌, inl, inr, ◌⊎◌, none, some, List, [], ◌∷◌, length,
  keep, keep-append, ltb, leb, arith, Option-cases, Bool-cases, All,
}
use open_claw_bot.Common.Maps.{get}
use open_claw_bot.Common.Texts.{text_eq}
use open_claw_bot.Messaging.Relay.{
  CrossUserRelay, TurnRequest, Event, begins, completes, fails, registers, answers, diagnoses,
  in_window, prune_window, admit, Begun, dispatched, replayed, backed_off, TurnResult, begin_turn,
  complete_turn, fail_turn, on_turn_request, answer_turn_request, diagnostics, new_relay, step,
}

-- The time at which an event reads the clock, where it does.
abbrev pub at : ℕ → Event → ℕ
at before (begins now request) = now
at before (fails now) = now
at before (diagnoses now) = now
at before _ = before

-- The clock never goes back over a history.
abbrev pub IsMonotone : ℕ → List Event → Type 0
IsMonotone before [] = Unit
IsMonotone before (e ∷ es) = (before ≤ at before e) × IsMonotone (at before e) es

abbrev pub sent_of : ℕ → Begun → List ℕ
sent_of now dispatched = now ∷ []
sent_of now _ = []

-- The times at which an event sends a turn to the transport.
pub sent : CrossUserRelay → Event → List ℕ
sent s (begins now request) = sent_of now (begin_turn now request s).0
sent s _ = []

-- At each event of a history: the turns of `log` that fall in the window of an event which sends a
-- turn are fewer than the budget.
pub WithinBudget : CrossUserRelay → List ℕ → List Event → Type 0
WithinBudget s log [] = Unit
WithinBudget s log (e ∷ es) =
    All (λ now. length (keep (in_window s.budget_window_ms now) log) < s.budget_max_per_window)
      (sent s e)
    × WithinBudget (step s e) (log ++ sent s e) es

keep_narrow :
    (w before now : ℕ) (ts : List ℕ)
    → before ≤ now
    → keep (in_window w now) (keep (in_window w before) ts) ≡ keep (in_window w now) ts
keep_narrow w before now [] le = refl
keep_narrow w before now (t ∷ ts) le = ground (arith, keep_narrow w before now ts le)

-- The relay remembers every sent turn that is still in the window.
abbrev Remembers : CrossUserRelay → List ℕ → ℕ → Type 0
Remembers s log before =
    keep (in_window s.budget_window_ms before) log
    ≡ keep (in_window s.budget_window_ms before) s.turn_timestamps

later-Remembers :
    (s : CrossUserRelay) (log : List ℕ) (before now : ℕ)
    → Remembers s log before
    → before ≤ now
    → Remembers s log now
later-Remembers s log before now h le =
    sym (keep_narrow s.budget_window_ms before now log le)
    ∙ (ap (keep (in_window s.budget_window_ms now)) h
        ∙ keep_narrow s.budget_window_ms before now s.turn_timestamps le)

prune_window-Remembers :
    (s : CrossUserRelay) (log : List ℕ) (now : ℕ)
    → Remembers s log now
    → Remembers (prune_window now s) log now
unfolding prune_window
prune_window-Remembers s log now h =
    h ∙ sym (keep_narrow s.budget_window_ms now now s.turn_timestamps (omega arith))

-- What one event does: the settings stay, the relay still remembers, and a turn that it sends
-- found room in the window.
record Counts (s : CrossUserRelay) (log : List ℕ) (e : Event) (now : ℕ) : Type 0 where
  window : (step s e).budget_window_ms ≡ s.budget_window_ms
  budget : (step s e).budget_max_per_window ≡ s.budget_max_per_window
  remembers : Remembers (step s e) (log ++ sent s e) now
  room :
      All
        (λ t. length (keep (in_window s.budget_window_ms t) log) < s.budget_max_per_window)
        (sent s e)

admit-Counts :
    (s : CrossUserRelay) (log : List ℕ) (now : ℕ)
    → keep (in_window s.budget_window_ms now) log ≡ s.turn_timestamps
    → Remembers s log now
    → let r = admit now s in
      Remembers r.1 (log ++ sent_of now r.0) now
      × All
          (λ t. length (keep (in_window s.budget_window_ms t) log) < s.budget_max_per_window)
          (sent_of now r.0)
unfolding admit
admit-Counts s log now same h =
    elim (Bool-cases (leb s.budget_max_per_window (length s.turn_timestamps))) [
      | inl full ↦ rw (full, admit) (rw append-nil h, tt)
      | inr free ↦
          rw (free, admit)
            (
              rw
                  (
                    keep-append (in_window s.budget_window_ms now) log (now ∷ []),
                    keep-append (in_window s.budget_window_ms now) s.turn_timestamps (now ∷ []),
                    h,
                  )
                  refl,
              (ground (arith, ap length same), tt),
            )
    ]

-- The branches of a begun turn.
pub begin_turn-cases :
    (now : ℕ) (request : TurnRequest) (s : CrossUserRelay)
    → ((c : TurnResult) × (get s.results request.nonce ≡ some c)
        × (begin_turn now request s ≡ (replayed c, s)))
      ⊎ ((now < s.unreachable_until)
          × (begin_turn now request s ≡ (backed_off (s.unreachable_until - now), s)))
      ⊎ ((get s.results request.nonce ≡ none)
          × (s.unreachable_until ≤ now)
          × (begin_turn now request s ≡ admit now (prune_window now s)))
unfolding begin_turn
begin_turn-cases now request s = elim (Option-cases (get s.results request.nonce)) [
  | inr (c, e) ↦ inl (c, e, ground arith)
  | inl e ↦ inr (elim (Bool-cases (ltb now s.unreachable_until)) [
    | inl early ↦ inl (ground arith, ground arith)
    | inr due ↦ inr (e, ground arith, ground arith)
  ])
]

begin-Counts :
    (s : CrossUserRelay) (log : List ℕ) (now : ℕ) (request : TurnRequest)
    → Remembers s log now
    → Counts s log (begins now request) now
unfolding sent step prune_window
begin-Counts s log now request h = elim (begin_turn-cases now request s) [
  | inl (c, _, e) ↦ record {
    window = rw (e, step) refl;
    budget = rw (e, step) refl;
    remembers = rw (e, step, append-nil) h;
    room = rw e tt;
  }
  | inr (inl (_, e)) ↦ record {
    window = rw (e, step) refl;
    budget = rw (e, step) refl;
    remembers = rw (e, step, append-nil) h;
    room = rw e tt;
  }
  | inr (inr (_, _, e)) ↦
      let (remembers, room) =
        admit-Counts (prune_window now s) log now h (prune_window-Remembers s log now h) in
      record {
        window = rw (e, step) (unfold admit prune_window in ground arith);
        budget = rw (e, step) (unfold admit prune_window in ground arith);
        remembers = rw (e, step) remembers;
        room = rw e room;
      }
]

-- An event that sends nothing and leaves what the relay remembers.
quiet-Counts :
    (s : CrossUserRelay) (log : List ℕ) (e : Event) (now : ℕ)
    → sent s e ≡ []
    → (step s e).budget_window_ms ≡ s.budget_window_ms
    → (step s e).budget_max_per_window ≡ s.budget_max_per_window
    → Remembers (step s e) log now
    → Counts s log e now
quiet-Counts s log e now nothing window budget h = record {
  window = window;
  budget = budget;
  remembers = rw (nothing, append-nil) h;
  room = rw nothing tt;
}

step-Counts :
    (s : CrossUserRelay) (log : List ℕ) (before : ℕ) (e : Event)
    → Remembers s log before
    → before ≤ at before e
    → Counts s log e (at before e)
unfolding step sent complete_turn fail_turn on_turn_request answer_turn_request diagnostics
step-Counts s log before (begins now request) h le =
    begin-Counts s log now request (later-Remembers s log before now h le)
step-Counts s log before (completes request result) h le =
    quiet-Counts s log (completes request result) before refl refl refl h
step-Counts s log before (fails now) h le =
    quiet-Counts s log (fails now) now refl refl refl (later-Remembers s log before now h le)
step-Counts s log before registers h le = quiet-Counts s log registers before refl refl refl h
step-Counts s log before (answers request texts) h le = elim (Bool-cases s.has_turn_handler) [
  | inl e ↦
      quiet-Counts s log (answers request texts) before refl (ground arith) (ground arith)
        (ground arith)
  | inr e ↦
      quiet-Counts s log (answers request texts) before refl (ground arith) (ground arith)
        (ground arith)
]
step-Counts s log before (diagnoses now) h le =
    quiet-Counts s log (diagnoses now) now refl refl refl
      (prune_window-Remembers s log now (later-Remembers s log before now h le))

-- Over every history in which the clock does not go back, from a relay that remembers its log: each
-- turn is sent when the turns sent before it in its window are fewer than the budget.
run-WithinBudget :
    (s : CrossUserRelay) (log : List ℕ) (before : ℕ) (es : List Event)
    → Remembers s log before
    → IsMonotone before es
    → WithinBudget s log es
unfolding WithinBudget
run-WithinBudget s log before [] h m = tt
run-WithinBudget s log before (e ∷ es) h m =
    let counts = step-Counts s log before e h m.0 in
    (
      counts.room,
      run-WithinBudget (step s e) (log ++ sent s e) (at before e) es counts.remembers m.1,
    )

-- The budget: over every history of a new relay in which the clock does not go back, a turn is sent
-- only when fewer turns than the budget were sent before it in the window that ends with it.
pub new_relay-WithinBudget : (es : List Event) → IsMonotone 0 es → WithinBudget new_relay [] es
unfolding new_relay
new_relay-WithinBudget es m = run-WithinBudget new_relay [] 0 es refl m
