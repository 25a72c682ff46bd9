-- ===== src/Core/Lifecycle/Examples.antt =====
-- Two overlapping runs of one agent, and an acknowledgement, of packages/core/src/run-lifecycle.ts.
use open_claw_bot.Common.{◌+◌, ◌≡◌, refl, false, some, List, [], ◌∷◌, map}
use open_claw_bot.Common.Texts.{Text, units, text_beq}
use open_claw_bot.Common.Maps.{get, set, delete}
use open_claw_bot.Core.Lifecycle.{
  new_lifecycle, ack_redrive_scheduled, add_to_set, begin_session_run, end_session_run, is_running,
  running_agent_ids, mint_ack, retire_ack, outstanding_acks, outstanding_acks_for,
  schedule_ack_redrive_after_idle, settle_run, LifecycleCall, begins, ends, mints, settles, call,
  calls,
}
use open_claw_bot.Core.Lifecycle.Window.{closed, window_calls, Shows, turns_of}
use open_claw_bot.Core.Lifecycle.Windows.{calls-windows}
use open_claw_bot.Core.Lifecycle.Acks.{minted_of, retired_of, owed, calls-acks}

abbrev bot : Text
bot = units "b"

abbrev day : List LifecycleCall
day =
    begins bot (units "chat") 5
    ∷ mints bot (units "m1") 5
    ∷ begins bot (units "room") 6
    ∷ begins bot (units "chat") 7
    ∷ settles bot (some (units "m1"))
    ∷ ends bot
    ∷ mints bot (units "m2") 8
    ∷ mints bot (units "m2") 9
    ∷ ends bot
    ∷ ends bot
    ∷ []

day_runs :
    (turns_of bot (calls day new_lifecycle).1
      ≡ record { agent_id = bot; started_at_ms = 5; sources = units "chat" ∷ units "room" ∷ [] }
        ∷ [])
    × (map (λ o. o.coalesced_count) (outstanding_acks (calls day new_lifecycle).0) ≡ 1 ∷ [])
    × (schedule_ack_redrive_after_idle bot (calls day new_lifecycle).0
        ≡ ack_redrive_scheduled bot 1 ∷ [])
    × (is_running bot (calls day new_lifecycle).0 ≡ false)
    × (running_agent_ids (begin_session_run bot bot 3 new_lifecycle) ≡ bot ∷ [])
unfolding get set delete text_beq add_to_set begin_session_run end_session_run is_running
    running_agent_ids mint_ack retire_ack outstanding_acks outstanding_acks_for
    schedule_ack_redrive_after_idle settle_run call calls turns_of
day_runs = (refl, refl, refl, refl, refl)

calls-windows_example :
    Shows (calls day new_lifecycle).0 bot (window_calls bot day closed).0
    × (turns_of bot (calls day new_lifecycle).1 ≡ (window_calls bot day closed).1)
calls-windows_example = calls-windows bot day

calls-acks_example :
    minted_of (units "m2") (calls day new_lifecycle).1
    ≡ retired_of (units "m2") (calls day new_lifecycle).1
      + owed (units "m2") (calls day new_lifecycle).0
calls-acks_example = calls-acks (units "m2") day
