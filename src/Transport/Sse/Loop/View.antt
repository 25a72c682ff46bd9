-- ===== src/Transport/Sse/Loop/View.antt =====
-- What may follow what for the listener of the event loop of packages/transport/src/sse.ts.
use open_claw_bot.Common.{
  ℕ, ◌+◌, ◌≡◌, refl, sym, Bool, true, false, not, ◌||◌, Option, none, some, List, [], ◌∷◌, ◌++◌,
  if◌then◌else◌, ◌==◌, nat_eq,
}
use open_claw_bot.Transport.Sse.Loop.{
  LoopPhase, connecting, streaming, backing_off, finished, EventLoop, LoopEffect, tries, connected,
  down, superseded, waits,
}
use open_claw_bot.Transport.Sse.Loop.Delays.{doubling}

-- A client as its listener sees it: between attempts, in one, or on a stream.
pub data Mode : Type 0 where
  idle trying live : Mode

pub record View : Type 0 where
  pub streams : ℕ
  pub fails : ℕ
  pub mode : Mode

abbrev pub is_live : Mode → Bool
is_live idle = false
is_live trying = false
is_live live = true

-- What may follow what: an attempt is made between attempts; a stream opens in an attempt, with the
-- next generation, and goes down with its own; and a wait has the delay of the attempts that failed in
-- a row since the last stream or the last reconnect that was asked for.
unfoldable pub sees : LoopEffect → Mode → View → Option View
sees tries idle v = some (record v { mode = trying })
sees (connected g) trying v =
    if g == v.streams + 1 then some (record { streams = g; fails = 0; mode = live }) else none
sees (down g reason) live v = if g == v.streams then some (record v { mode = idle }) else none
sees superseded m v = if is_live m then none else some (record v { fails = 0; mode = idle })
sees (waits ms) m v =
    if is_live m || not (ms == doubling v.fails)
    then none
    else some (record v { fails = v.fails + 1; mode = idle })
sees _ _ _ = none

abbrev pub sees_all : List LoopEffect → Option View → Option View
sees_all effects none = none
sees_all [] (some v) = some v
sees_all (e ∷ effects) (some v) = sees_all effects (sees e v.mode v)

sees_all-none : (effects : List LoopEffect) → sees_all effects none ≡ none
sees_all-none [] = refl
sees_all-none (e ∷ effects) = refl

pub sees_all-append :
    (xs ys : List LoopEffect) (v : Option View)
    → sees_all (xs ++ ys) v ≡ sees_all ys (sees_all xs v)
sees_all-append [] ys none = refl
sees_all-append [] ys (some v) = refl
sees_all-append (x ∷ xs) ys none = sym (sees_all-none ys)
sees_all-append (x ∷ xs) ys (some v) = sees_all-append xs ys (sees x v.mode v)

abbrev pub view : EventLoop → Mode → View
view s m = record { streams = s.connection_count; fails = s.failed_attempts; mode = m }

-- A loop that has ended may have been left in an attempt.
abbrev pub IsMode : LoopPhase → Mode → Type 0
IsMode finished m = Unit
IsMode connecting trying = Unit
IsMode streaming live = Unit
IsMode backing_off idle = Unit
IsMode _ _ = ⊥
