-- ===== src/State/Automations/Examples.antt =====
-- A sweep over three automations of packages/state/src/automations.ts.
use open_claw_bot.Common.{
  ℕ, ◌+◌, ◌-◌, map, not, ◌≡◌, refl, true, false, Option, none, some, [], ◌∷◌, nat_eq,
}
use open_claw_bot.Common.Texts.{Text, units, text_eq, text_beq, trim, trim_start, is_space}
use open_claw_bot.Common.Maps.{get, set, delete}
use open_claw_bot.State.Automations.{
  AutomationTrigger, schedule, interval, manual, AutomationStore, Draft, fresh, create, patched,
  update, set_enabled, stored, remove, recorded, run_noted, record_run, list, words_from, words,
  number_at, is_due_at, is_due_by, is_due, is_fired, Dispatch, fire, sweep, tick,
}

abbrev label : ℕ → Text
label n = 97 ∷ (48 + n) ∷ []

abbrev number : Text → Option ℕ
number (c ∷ []) = some (c - 48)
number t = none

abbrev draft : AutomationTrigger → Draft
draft t = record {
  agent_id = units "x";
  name = units "n";
  prompt = units "p";
  trigger = t;
  is_enabled = none;
}

abbrev empty : AutomationStore
empty = record { automations = []; next_id = 1 }

-- Every ten minutes, at nine minutes past midnight, and by hand.
abbrev three : AutomationStore
three =
    (create label 0 (draft manual)
      (create label 0 (draft (schedule (units " 9  0") none))
        (create label 0 (draft (interval 10)) empty).1).1).1

-- The first dispatch fails, the second one comes back.
abbrev flaky : Dispatch
flaky a s = (not (text_beq a.id (label 1)), s)

ids_run :
    (map (λ a. a.id) (tick number flaky false 540000 540001 three).0 ≡ label 2 ∷ [])
    × (map (λ a. a.id) (tick number flaky false 600000 600000 three).0 ≡ label 1 ∷ [])
    × (map (λ a. a.run_count) (list none (tick number flaky false 540000 540001 three).1)
        ≡ 0 ∷ 1 ∷ 0 ∷ [])
unfolding create fresh set get stored recorded run_noted record_run list words_from words number_at
    is_due_at is_due_by is_due is_fired fire sweep tick text_beq trim trim_start is_space
ids_run = (refl, refl, refl)

crud_runs :
    (map (λ a. a.id) (list none (remove (label 2) three).1) ≡ label 1 ∷ label 3 ∷ [])
    × (map (λ a. a.is_enabled) (list (some (units "x")) (set_enabled 5 (label 1) false three).1)
        ≡ false ∷ true ∷ true ∷ [])
unfolding create fresh set get delete stored list update set_enabled patched remove text_beq
crud_runs = (refl, refl)
