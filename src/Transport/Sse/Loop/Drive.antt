-- ===== src/Transport/Sse/Loop/Drive.antt =====
-- An event loop of packages/transport/src/sse.ts that loses its streams.
use open_claw_bot.Common.{◌≡◌, refl, List, [], ◌∷◌, keep, not}
use open_claw_bot.Transport.Sse.Loop.{
  closes, reconnects, connects, connect_fails, stalls, stream_breaks, wait_ends, stream_error,
  LoopEvent, tries, connected, down, superseded, waits, start_attempt, loop_steps, start_loop,
}
use open_claw_bot.Transport.Sse.Loop.Reconnects.{loop_trace}
use open_claw_bot.Transport.Sse.Loop.Closed.{is_down, close-quiet}

abbrev rough : List LoopEvent
rough =
    connect_fails ∷ wait_ends ∷ connect_fails ∷ wait_ends ∷ connects ∷ stalls ∷ stream_breaks
    ∷ wait_ends ∷ connects ∷ reconnects ∷ stream_breaks ∷ connects ∷ []

rough_runs :
    loop_trace rough
    ≡ tries
      ∷ waits 1000
      ∷ tries
      ∷ waits 2000
      ∷ tries
      ∷ connected 1
      ∷ down 1 stream_error
      ∷ waits 1000
      ∷ tries
      ∷ connected 2
      ∷ down 2 stream_error
      ∷ superseded
      ∷ tries
      ∷ connected 3
      ∷ []
unfolding start_loop start_attempt loop_steps
rough_runs = refl

close-quiet_example :
    keep (λ e. not (is_down e)) (loop_steps (closes ∷ rough) (loop_steps rough start_loop.0).0).1
    ≡ []
close-quiet_example = close-quiet (loop_steps rough start_loop.0).0 rough
