-- ===== src/Transport/Sse/Loop/Reconnects.antt =====
-- What the listener of packages/transport/src/sse.ts sees of the event loop.
use open_claw_bot.Common.{◌≡◌, some, List, ◌++◌, nat_eq}
use open_claw_bot.Transport.Sse.Loop.{LoopEvent, LoopEffect, Stepped, loop_steps, start_loop}
use open_claw_bot.Transport.Sse.Loop.View.{Mode, View, sees_all, view, IsMode}

-- The effects of a step are what may follow, and the loop is where they lead.
abbrev Goes : Stepped → View → Type 0
Goes r v = (m : Mode) × (sees_all r.1 (some v) ≡ some (view r.0 m)) × IsMode r.0.phase m

-- What the loop does from its start through a history.
abbrev pub loop_trace : List LoopEvent → List LoopEffect
loop_trace es = start_loop.1 ++ (loop_steps es start_loop.0).1
