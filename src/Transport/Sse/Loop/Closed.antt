-- ===== src/Transport/Sse/Loop/Closed.antt =====
-- The event loop of packages/transport/src/sse.ts once it is closed.
use open_claw_bot.Common.{
  ◌≡◌, refl, ap, ◌∙◌, Bool, true, false, not, List, [], ◌∷◌, ◌++◌, keep, keep-append, if◌then◌else◌,
  nat_eq,
}
use open_claw_bot.Transport.Sse.Loop.{
  EventLoop, LoopEvent, closes, reconnects, connects, connect_fails, stalls, stream_ends,
  stream_breaks, wait_ends, DownReason, stalled, stream_ended, stream_error, LoopEffect, down,
  Stepped, start_attempt, attempt_over, is_superseded, handshake, stream_over, awaited, stall,
  request_reconnect, close_loop, loop_step, loop_steps,
}

-- A loop that is closed.
abbrev IsClosed : EventLoop → Type 0
IsClosed s = (s.is_closed ≡ true) × (s.is_aborted ≡ true)

abbrev pub is_down : LoopEffect → Bool
is_down (down g reason) = true
is_down _ = false

abbrev others : List LoopEffect → List LoopEffect
others effects = keep (λ e. not (is_down e)) effects

abbrev IsQuiet : Stepped → Type 0
IsQuiet r = IsClosed r.0 × (others r.1 ≡ [])

over-IsQuiet : (s : EventLoop) → IsClosed s → IsQuiet (attempt_over s)
unfolding attempt_over
over-IsQuiet s (closed, aborted) = rw closed ((refl, aborted), refl)

awaited-IsQuiet :
    (happens : Bool) (r : Stepped) (s : EventLoop)
    → IsClosed s
    → IsQuiet r
    → IsQuiet (awaited happens r s)
unfolding awaited
awaited-IsQuiet true r s h quiet = quiet
awaited-IsQuiet false r s h quiet = (h, refl)

handshake-IsQuiet : (s : EventLoop) → IsClosed s → IsQuiet (handshake s)
unfolding handshake is_superseded
handshake-IsQuiet s (closed, aborted) = rw (aborted, closed) ((refl, refl), refl)

stream-IsQuiet : (reason : DownReason) (s : EventLoop) → IsClosed s → IsQuiet (stream_over reason s)
unfolding stream_over
stream-IsQuiet reason s h = over-IsQuiet s h

start-IsQuiet : (s : EventLoop) → IsClosed s → IsQuiet (start_attempt s)
unfolding start_attempt
start-IsQuiet s (closed, aborted) = rw closed ((refl, aborted), refl)

step-IsQuiet : (e : LoopEvent) (s : EventLoop) → IsClosed s → IsQuiet (loop_step e s)
unfolding loop_step request_reconnect close_loop stall
step-IsQuiet closes s h = ((refl, refl), refl)
step-IsQuiet reconnects s h = ((h.0, refl), refl)
step-IsQuiet connects s h = awaited-IsQuiet _ (handshake s) s h (handshake-IsQuiet s h)
step-IsQuiet connect_fails s h = awaited-IsQuiet _ (attempt_over s) s h (over-IsQuiet s h)
step-IsQuiet stalls s h = awaited-IsQuiet _ (stall s) s h ((h.0, refl), refl)
step-IsQuiet stream_ends s h =
    let reason = if s.is_stalled then stalled else stream_ended in
    awaited-IsQuiet _ (stream_over reason s) s h (stream-IsQuiet reason s h)
step-IsQuiet stream_breaks s h =
    awaited-IsQuiet _ (stream_over stream_error s) s h (stream-IsQuiet stream_error s h)
step-IsQuiet wait_ends s h = awaited-IsQuiet _ (start_attempt s) s h (start-IsQuiet s h)

steps-IsQuiet : (es : List LoopEvent) (s : EventLoop) → IsClosed s → others (loop_steps es s).1 ≡ []
unfolding loop_steps
steps-IsQuiet [] s h = refl
steps-IsQuiet (e ∷ es) s h =
    let one = step-IsQuiet e s h in
    keep-append (λ e. not (is_down e)) (loop_step e s).1 (loop_steps es (loop_step e s).0).1
    ∙ ap (λ xs. xs ++ others (loop_steps es (loop_step e s).0).1) one.1
    ∙ steps-IsQuiet es (loop_step e s).0 one.0

-- Behind `close`, whatever happens, the loop starts no attempt, opens no stream and waits no more: all
-- that its listener may still hear is that the stream is down.
pub close-quiet :
    (s : EventLoop) (es : List LoopEvent)
    → keep (λ e. not (is_down e)) (loop_steps (closes ∷ es) s).1 ≡ []
unfolding loop_steps loop_step close_loop
close-quiet s es = steps-IsQuiet es (close_loop s) (refl, refl)
