-- ===== src/Core/IdleWatchdog.antt =====
-- packages/core/src/policies.ts (createIdleWatchdogPolicy) on the timers of packages/core/src/clock.ts
-- (schedule). Times are milliseconds; a call and the end of a delay are events in the order in
-- which they come.
mod Fires
mod Examples
use open_claw_bot.Common.{
  ℕ, ◌+◌, Bool, true, false, Option, none, some, List, [], ◌∷◌, if◌then◌else◌, leb,
}

-- What `arm` keeps: the time from which its active timer may end, and `disposed`.
pub record Watchdog : Type 0 where
  pub timer : Option ℕ
  pub disposed : Bool

-- `elapse t`: the event loop looks at the timers at `t`, and runs those whose delay is over.
pub data IdleEvent : Type 0 where
  kick : (t : ℕ) → IdleEvent
  dispose : IdleEvent
  elapse : (t : ℕ) → IdleEvent

-- `schedule`: no timer may end before its delay.
unfoldable pub schedule : ℕ → ℕ → Option ℕ
schedule now delay = some (now + delay)

-- `armTimer`: the old timer is gone in either case.
unfoldable pub arm_timer : ℕ → ℕ → Watchdog → Watchdog
arm_timer idle now w =
    if w.disposed
    then record { timer = none; disposed = true }
    else record { timer = schedule now idle; disposed = false }

unfoldable pub arm : ℕ → ℕ → Watchdog
arm idle now = arm_timer idle now (record { timer = none; disposed = false })

-- A timer whose delay is over runs the callback of `armTimer`, which calls `onIdle` or returns.
unfoldable pub timer_ended : Watchdog → Bool × Watchdog
timer_ended w =
    if w.disposed
    then (false, record { timer = none; disposed = true })
    else (true, record { timer = none; disposed = true })

unfoldable pub elapse_at : ℕ → Watchdog → Option ℕ → Bool × Watchdog
elapse_at t w none = (false, w)
elapse_at t w (some due) = if leb due t then timer_ended w else (false, w)

-- Whether `onIdle` is called, and the watchdog behind the event.
unfoldable pub idle_step : ℕ → IdleEvent → Watchdog → Bool × Watchdog
idle_step idle (kick t) w = (false, if w.disposed then w else arm_timer idle t w)
idle_step idle dispose w = (false, record { timer = none; disposed = true })
idle_step idle (elapse t) w = elapse_at t w w.timer

-- The events at which `onIdle` is called.
unfoldable pub idle_calls : ℕ → List IdleEvent → Watchdog → List IdleEvent
idle_calls idle [] w = []
idle_calls idle (e ∷ es) w =
    let answer = idle_step idle e w in
    let rest = idle_calls idle es answer.1 in if answer.0 then e ∷ rest else rest
