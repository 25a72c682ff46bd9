-- ===== src/Community/Push.antt =====
-- apps/community/push.mjs: the queue of createPushService. A number stands for a notification; its
-- work is two steps, a start and a settlement, so that works overlap.
pub mod Bounded
mod Examples
use open_claw_bot.Common.{
  ℕ, zero, suc, ◌+◌, ◌-◌, ◌*◌, min, max, ◌++◌, Bool, true, false, not, ◌&&◌, ◌||◌, List, [], ◌∷◌,
  length, contains, is_empty, if◌then◌else◌, ◌==◌, nat_eq, leb, ltb,
}

-- `finished` and `refused` hold the notifications whose promise has been settled: by their own
-- work, or by the queue.
pub record PushQueue : Type 0 where
  pub parallelism : ℕ
  pub queue : List ℕ
  pub in_flight : List ℕ
  pub active : ℕ
  pub closed : Bool
  pub finished : List ℕ
  pub refused : List ℕ

abbrev pub queue_limit : ℕ
queue_limit = 256

unfoldable pub new_queue : ℕ → PushQueue
new_queue concurrency = record {
  parallelism = max 1 (min 4 concurrency);
  queue = [];
  in_flight = [];
  active = 0;
  closed = false;
  finished = [];
  refused = [];
}

-- The loop of `pump`, over the tasks that wait.
unfoldable pub pump_from : List ℕ → PushQueue → PushQueue
pump_from [] s = record s { queue = [] }
pump_from (id ∷ rest) s =
    let started = record s { active = s.active + 1; in_flight = s.in_flight ++ id ∷ [] } in
    let later = pump_from rest started in
    if not s.closed && ltb s.active s.parallelism then later else record s { queue = id ∷ rest }

unfoldable pub pump : PushQueue → PushQueue
unfolding pump_from
pump s = pump_from s.queue s

unfoldable pub enqueue_push : ℕ → PushQueue → PushQueue
unfolding pump
enqueue_push id s =
    if s.closed || leb queue_limit (length s.queue)
    then record s { refused = s.refused ++ id ∷ [] }
    else pump (record s { queue = s.queue ++ id ∷ [] })

-- `inFlight.delete(work)`.
unfoldable pub remove_first : List ℕ → ℕ → List ℕ
remove_first [] id = []
remove_first (x ∷ xs) id = if x == id then xs else x ∷ remove_first xs id

-- The work of a notification settles its promise and pumps again.
unfoldable pub finish : ℕ → PushQueue → PushQueue
unfolding pump remove_first
finish id s =
    if contains s.in_flight id
    then pump (record s {
      active = s.active - 1;
      in_flight = remove_first s.in_flight id;
      finished = s.finished ++ id ∷ [];
    })
    else s

unfoldable pub close_queue : PushQueue → PushQueue
close_queue s = record s { closed = true; queue = []; refused = s.refused ++ s.queue }

pub data Event : Type 0 where
  enqueues finishes : ℕ → Event
  closes : Event

unfoldable pub step : Event → PushQueue → PushQueue
unfolding enqueue_push finish close_queue
step (enqueues id) s = enqueue_push id s
step (finishes id) s = finish id s
step closes s = close_queue s

abbrev pub run : List Event → PushQueue → PushQueue
run [] s = s
run (e ∷ es) s = run es (step e s)
