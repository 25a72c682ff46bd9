-- ===== src/State/Automations.antt =====
-- packages/state/src/automations.ts: the store of automations and the sweep of its scheduler.
-- Times are milliseconds of the two clocks, which are arguments. The file is not modelled.
mod Sweeps
mod Examples
use open_claw_bot.Common.{
  ℕ, zero, suc, ◌+◌, ◌*◌, ◌/◌, ◌%◌, Bool, true, false, ◌&&◌, Option, none, some, List, [], ◌∷◌,
  ◌++◌, map, ◌==◌, nat_eq, if◌then◌else◌, leb, or_else, keep, get_elem?, is_empty, is_some,
}
use open_claw_bot.Common.Texts.{Text, text_eq, is_space, trim}
use open_claw_bot.Common.Maps.{Dict, get, set, delete}

pub data AutomationTrigger : Type 0 where
  schedule : (cron : Text) (timezone : Option Text) → AutomationTrigger
  interval : (interval_minutes : ℕ) → AutomationTrigger
  channel : (platform : Text) → AutomationTrigger
  manual : AutomationTrigger

pub record Automation : Type 0 where
  pub id : Text
  pub agent_id : Text
  pub name : Text
  pub prompt : Text
  pub trigger : AutomationTrigger
  pub is_enabled : Bool
  pub created_at_ms : ℕ
  pub updated_at_ms : ℕ
  pub last_run_at_ms : Option ℕ
  pub run_count : ℕ

-- `automations` and `nextId`.
pub record AutomationStore : Type 0 where
  pub automations : Dict Text Automation
  pub next_id : ℕ

-- The argument of `create`.
pub record Draft : Type 0 where
  pub agent_id : Text
  pub name : Text
  pub prompt : Text
  pub trigger : AutomationTrigger
  pub is_enabled : Option Bool

-- The argument of `update`: the fields it gives.
pub record Patch : Type 0 where
  pub name : Option Text
  pub prompt : Option Text
  pub trigger : Option AutomationTrigger
  pub is_enabled : Option Bool

-- The record that `create` makes.
unfoldable pub fresh : Text → ℕ → Draft → Automation
fresh key now d = record {
  id = key;
  agent_id = d.agent_id;
  name = d.name;
  prompt = d.prompt;
  trigger = d.trigger;
  is_enabled = or_else d.is_enabled true;
  created_at_ms = now;
  updated_at_ms = now;
  last_run_at_ms = none;
  run_count = 0;
}

-- `label` is the text of `a${n}`.
unfoldable pub create :
    (label : ℕ → Text) → ℕ → Draft → AutomationStore → Automation × AutomationStore
create label now d s = (
  fresh (label s.next_id) now d,
  record {
    automations = set s.automations (label s.next_id) (fresh (label s.next_id) now d);
    next_id = s.next_id + 1;
  },
)

unfoldable pub patched : ℕ → Patch → Automation → Automation
patched now p a = record {
  id = a.id;
  agent_id = a.agent_id;
  name = or_else p.name a.name;
  prompt = or_else p.prompt a.prompt;
  trigger = or_else p.trigger a.trigger;
  is_enabled = or_else p.is_enabled a.is_enabled;
  created_at_ms = a.created_at_ms;
  updated_at_ms = now;
  last_run_at_ms = a.last_run_at_ms;
  run_count = a.run_count;
}

unfoldable pub stored : AutomationStore → Text → Automation → AutomationStore
stored s key a = record { automations = set s.automations key a; next_id = s.next_id }

unfoldable pub update : ℕ → Text → Patch → AutomationStore → Option Automation × AutomationStore
update now key p s = elim (get s.automations key) [
  | none ↦ (none, s)
  | some a ↦ (some (patched now p a), stored s key (patched now p a))
]

unfoldable pub set_enabled : ℕ → Text → Bool → AutomationStore → Option Automation × AutomationStore
set_enabled now key b s =
    update now key (record { name = none; prompt = none; trigger = none; is_enabled = some b }) s

unfoldable pub remove : Text → AutomationStore → Bool × AutomationStore
remove key s = (
  is_some (get s.automations key),
  record { automations = delete s.automations key; next_id = s.next_id },
)

-- An automation behind a run at `now`.
unfoldable pub recorded : ℕ → Automation → Automation
recorded now a = record {
  id = a.id;
  agent_id = a.agent_id;
  name = a.name;
  prompt = a.prompt;
  trigger = a.trigger;
  is_enabled = a.is_enabled;
  created_at_ms = a.created_at_ms;
  updated_at_ms = now;
  last_run_at_ms = some now;
  run_count = a.run_count + 1;
}

-- `recordRun` behind its look-up.
unfoldable pub run_noted : ℕ → Text → AutomationStore → Option Automation → AutomationStore
run_noted now key s none = s
run_noted now key s (some a) = stored s key (recorded now a)

unfoldable pub record_run : ℕ → Text → AutomationStore → AutomationStore
record_run now key s = run_noted now key s (get s.automations key)

unfoldable pub list : Option Text → AutomationStore → List Automation
list none s = map (λ p. p.1) s.automations
list (some agent) s = keep (λ a. a.agent_id == agent) (map (λ p. p.1) s.automations)

-- The words of a cron line, `trim` and `split(/\s+/)`: `word` is what is read of a word so far.
unfoldable pub words_from : Text → Text → List Text
words_from [] word = if is_empty word then [] else (word ∷ [])
words_from (c ∷ rest) word =
    if is_space c
    then (if is_empty word then words_from rest [] else (word ∷ words_from rest []))
    else words_from rest (word ++ (c ∷ []))

unfoldable pub words : Text → List Text
words t = words_from (trim t) []

-- `number` is `Number` where it gives an integer from 0, the only ones a clock shows.
unfoldable pub number_at : (number : Text → Option ℕ) → List Text → ℕ → Option ℕ
number_at number parts i = elim (get_elem? parts i) [ none ↦ none | some t ↦ number t ]

unfoldable pub is_due_at : Option ℕ → Option ℕ → ℕ → ℕ → Bool
is_due_at (some minute) (some hour) last_run now =
    (((now / 3600000) % 24) == hour)
    && ((((now / 60000) % 60) == minute) && leb (last_run + 60000) now)
is_due_at _ _ last_run now = false

-- The `switch` on the trigger. `now - lastRun >= gap` is written as `lastRun + gap <= now`.
unfoldable pub is_due_by : (number : Text → Option ℕ) → AutomationTrigger → Option ℕ → ℕ → ℕ → Bool
is_due_by number (interval m) last_run created now = leb (or_else last_run created + m * 60000) now
is_due_by number (schedule cron timezone) last_run created now =
    is_due_at (number_at number (words cron) 0) (number_at number (words cron) 1)
      (or_else last_run 0) now
is_due_by number (channel platform) last_run created now = false
is_due_by number manual last_run created now = false

unfoldable pub is_due : (number : Text → Option ℕ) → Automation → ℕ → Bool
is_due number a now = is_due_by number a.trigger a.last_run_at_ms a.created_at_ms now

-- The two guards of the sweep.
unfoldable pub is_fired : (number : Text → Option ℕ) → ℕ → Automation → Bool
is_fired number now a = a.is_enabled && is_due number a now

-- What `dispatch` makes of the store it may use, and whether it came back without an error.
abbrev pub Dispatch : Type 0
Dispatch = Automation → AutomationStore → Bool × AutomationStore

-- One automation of the sweep; a run is recorded at the store's own clock.
unfoldable pub fire : Dispatch → ℕ → Automation → AutomationStore → AutomationStore
fire dispatch clock a s =
    let sent = dispatch a s in if sent.0 then record_run clock a.id sent.1 else sent.1

-- The loop over the list read before it: the dispatched automations and the store behind them.
unfoldable pub sweep :
    (number : Text → Option ℕ)
    → Dispatch
    → ℕ
    → ℕ
    → List Automation
    → AutomationStore
    → List Automation × AutomationStore
sweep number dispatch now clock [] s = ([], s)
sweep number dispatch now clock (a ∷ rest) s =
    let skipped = sweep number dispatch now clock rest s in
    let later = sweep number dispatch now clock rest (fire dispatch clock a s) in
    if is_fired number now a then (a ∷ later.0, later.1) else skipped

-- `firing` is true while an earlier sweep waits for its dispatch.
unfoldable pub tick :
    (number : Text → Option ℕ)
    → Dispatch
    → Bool
    → ℕ
    → ℕ
    → AutomationStore
    → List Automation × AutomationStore
tick number dispatch true now clock s = ([], s)
tick number dispatch false now clock s = sweep number dispatch now clock (list none s) s
