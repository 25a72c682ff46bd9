-- ===== src/Transport/Sse/Loop.antt =====
-- packages/transport/src/sse.ts: runEventLoop and streamEvents of GatewaySseClient, with the delays of
-- createRetryPolicy in packages/core/src/policies.ts. The code behind the guard of the handshake
-- follows it at once, and an awaited promise that ends is an event; the listener does not throw.
pub mod Delays
pub mod View
pub mod Reconnects
pub mod Closed
mod Drive
use open_claw_bot.Common.{
  ℕ, ◌+◌, ◌-◌, ◌*◌, ◌^◌, min, Bool, true, false, not, ◌&&◌, ◌||◌, List, [], ◌∷◌, ◌++◌,
  if◌then◌else◌, ◌==◌, nat_eq,
}

-- `schedule` of a retry policy, for attempts from one on.
unfoldable pub policy_delay : (factor initial_delay_ms max_delay_ms attempt : ℕ) → ℕ
policy_delay factor initial_delay_ms max_delay_ms attempt =
    min (initial_delay_ms * factor ^ (min attempt 32 - 1)) max_delay_ms

abbrev pub sse_reconnect_min_ms : ℕ
sse_reconnect_min_ms = 1000

abbrev pub sse_reconnect_max_ms : ℕ
sse_reconnect_max_ms = 10000

unfoldable pub reconnect_backoff : ℕ → ℕ
unfolding policy_delay
reconnect_backoff attempt = policy_delay 2 sse_reconnect_min_ms sse_reconnect_max_ms attempt

-- What the loop awaits: the handshake, a read of the stream, the delay, or nothing more.
pub data LoopPhase : Type 0 where
  connecting streaming backing_off finished : LoopPhase

-- `is_aborted` is the signal of the active controller.
pub record EventLoop : Type 0 where
  pub is_closed : Bool
  pub reconnect_generation : ℕ
  pub connection_count : ℕ
  pub failed_attempts : ℕ
  pub attempt_generation : ℕ
  pub is_aborted : Bool
  pub is_stalled : Bool
  pub phase : LoopPhase

pub data LoopEvent : Type 0 where
  closes reconnects : LoopEvent
  connects connect_fails : LoopEvent
  stalls stream_ends stream_breaks : LoopEvent
  wait_ends : LoopEvent

pub data DownReason : Type 0 where
  stalled stream_ended stream_error : DownReason

-- An attempt starts, a transport event goes out, the loop goes on because a reconnect was asked for,
-- or it waits.
pub data LoopEffect : Type 0 where
  tries : LoopEffect
  connected : (generation : ℕ) → LoopEffect
  down : (generation : ℕ) (reason : DownReason) → LoopEffect
  superseded : LoopEffect
  waits : (ms : ℕ) → LoopEffect

abbrev pub Stepped : Type 0
Stepped = EventLoop × List LoopEffect

-- The head of the loop.
unfoldable pub start_attempt : EventLoop → Stepped
start_attempt s = if s.is_closed then (record s { phase = finished }, []) else (
  record s {
    attempt_generation = s.reconnect_generation;
    is_aborted = false;
    is_stalled = false;
    phase = connecting;
  },
  tries ∷ [],
)

-- The loop behind an attempt.
unfoldable pub attempt_over : EventLoop → Stepped
unfolding start_attempt reconnect_backoff
attempt_over s =
    let again = start_attempt (record s { failed_attempts = 0 }) in
    if s.is_closed
    then (record s { phase = finished }, [])
    else (if not (s.attempt_generation == s.reconnect_generation)
        then (again.0, superseded ∷ again.1)
        else (
          record s {
            failed_attempts = s.failed_attempts + 1;
            is_aborted = false;
            phase = backing_off;
          },
          waits (reconnect_backoff (s.failed_attempts + 1)) ∷ [],
        ))

unfoldable pub is_superseded : EventLoop → Bool
is_superseded s = s.is_aborted || not (s.attempt_generation == s.reconnect_generation)

-- The handshake has its response.
unfoldable pub handshake : EventLoop → Stepped
unfolding is_superseded attempt_over
handshake s = if is_superseded s then attempt_over s else (
  record s { failed_attempts = 0; connection_count = s.connection_count + 1; phase = streaming },
  connected (s.connection_count + 1) ∷ [],
)

unfoldable pub stream_over : DownReason → EventLoop → Stepped
unfolding attempt_over
stream_over reason s =
    let next = attempt_over s in (next.0, down s.connection_count reason ∷ next.1)

abbrev pub is_connecting : LoopPhase → Bool
is_connecting connecting = true
is_connecting _ = false

abbrev pub is_reading : LoopPhase → Bool
is_reading streaming = true
is_reading _ = false

abbrev pub is_backing_off : LoopPhase → Bool
is_backing_off backing_off = true
is_backing_off _ = false

-- An event that the loop does not await does not happen.
unfoldable pub awaited : Bool → Stepped → EventLoop → Stepped
awaited happens step s = if happens then step else (s, [])

unfoldable pub stall : EventLoop → Stepped
stall s = (record s { is_stalled = true; is_aborted = true }, [])

unfoldable pub request_reconnect : EventLoop → EventLoop
request_reconnect s = record s {
  reconnect_generation = s.reconnect_generation + 1;
  is_aborted = true;
}

unfoldable pub close_loop : EventLoop → EventLoop
close_loop s = record s {
  is_closed = true;
  reconnect_generation = s.reconnect_generation + 1;
  is_aborted = true;
}

unfoldable pub loop_step : LoopEvent → EventLoop → Stepped
unfolding awaited request_reconnect close_loop stall handshake attempt_over stream_over
    start_attempt
loop_step closes s = (close_loop s, [])
loop_step reconnects s = (request_reconnect s, [])
loop_step connects s = awaited (is_connecting s.phase) (handshake s) s
loop_step connect_fails s = awaited (is_connecting s.phase) (attempt_over s) s
loop_step stalls s = awaited (is_reading s.phase) (stall s) s
loop_step stream_ends s =
    awaited (is_reading s.phase) (stream_over (if s.is_stalled then stalled else stream_ended) s) s
loop_step stream_breaks s = awaited (is_reading s.phase) (stream_over stream_error s) s
loop_step wait_ends s = awaited (is_backing_off s.phase) (start_attempt s) s

unfoldable pub loop_steps : List LoopEvent → EventLoop → Stepped
unfolding loop_step
loop_steps [] s = (s, [])
loop_steps (e ∷ es) s =
    let one = loop_step e s in let rest = loop_steps es one.0 in (rest.0, one.1 ++ rest.1)

unfoldable pub start_loop : Stepped
unfolding start_attempt
start_loop = start_attempt (record {
  is_closed = false;
  reconnect_generation = 0;
  connection_count = 0;
  failed_attempts = 0;
  attempt_generation = 0;
  is_aborted = false;
  is_stalled = false;
  phase = finished;
})
