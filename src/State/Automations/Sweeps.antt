-- ===== src/State/Automations/Sweeps.antt =====
-- Which automations a sweep of packages/state/src/automations.ts dispatches, and when again.
use open_claw_bot.Common.{ℕ, ◌+◌, ◌*◌, ◌≤◌, ◌≡◌, true, Option, some, nat_eq}
use open_claw_bot.Common.Texts.{Text, text_eq}
use open_claw_bot.Common.Maps.{get}
use open_claw_bot.State.Automations.{
  AutomationTrigger, schedule, interval, channel, manual, Automation, AutomationStore, record_run,
  is_fired,
}

-- The milliseconds between two runs of an automation.
abbrev pub gap : AutomationTrigger → ℕ
gap (schedule cron timezone) = 60000
gap (interval m) = m * 60000
gap (channel platform) = 0
gap manual = 0

-- What a store holds of an automation whose run it recorded at `clock` is fired again only behind
-- its gap.
abbrev pub IsRested : (number : Text → Option ℕ) → ℕ → Automation → Type 0
IsRested number clock a =
    (s : AutomationStore) (b : Automation) (later : ℕ)
    → get (record_run clock a.id s).automations a.id ≡ some b
    → is_fired number later b ≡ true
    → clock + gap b.trigger ≤ later
