-- ===== src/Community/Push/Bounded.antt =====
-- What the push queue of apps/community/push.mjs keeps over every history.
use open_claw_bot.Common.{
  ℕ, ◌+◌, ◌-◌, ◌≤◌, ◌<◌, ◌++◌, ◌≡◌, refl, sym, ap, ◌∙◌, true, false, not, ◌&&◌, ◌||◌, List, [], ◌∷◌,
  length, contains, is_empty, length-append, ◌==◌, nat_eq, nat_beq_iff, leb, ltb, arith, Bool-cases,
  inl, inr,
}
use open_claw_bot.Community.Push.{
  PushQueue, queue_limit, new_queue, pump_from, pump, enqueue_push, remove_first, finish,
  close_queue, Event, enqueues, finishes, closes, step, run,
}

-- The sum of a weight over notifications, and over all that the queue has taken.
abbrev pub total : (ℕ → ℕ) → List ℕ → ℕ
total f [] = 0
total f (x ∷ xs) = f x + total f xs

abbrev pub held : (ℕ → ℕ) → PushQueue → ℕ
held f s = total f s.queue + total f s.in_flight + total f s.finished + total f s.refused

total-append : (f : ℕ → ℕ) (xs ys : List ℕ) → total f (xs ++ ys) ≡ total f xs + total f ys
total-append f [] ys = omega arith
total-append f (x ∷ xs) ys = omega (arith, total-append f xs ys)

-- The queue without what has to do with its waiting tasks.
record IsCounted (s : PushQueue) : Type 0 where
  counted : s.active ≡ length s.in_flight
  bounded : s.active ≤ s.parallelism

pub record IsSound (s : PushQueue) : Type 0 where
  pub counted : s.active ≡ length s.in_flight
  pub bounded : s.active ≤ s.parallelism
  pub short : length s.queue ≤ queue_limit
  pub busy : s.closed ≡ false → is_empty s.queue ≡ false → s.active ≡ s.parallelism
  pub shut : s.closed ≡ true → s.queue ≡ []

-- What a pump leaves of a queue whose waiting tasks are `waiting`.
record Pumps (waiting : List ℕ) (s s' : PushQueue) : Type 0 where
  counted : s'.active ≡ length s'.in_flight
  bounded : s'.active ≤ s'.parallelism
  shorter : length s'.queue ≤ length waiting
  busy : s'.closed ≡ false → is_empty s'.queue ≡ false → s'.active ≡ s'.parallelism
  same : s'.closed ≡ s.closed
  same_width : s'.parallelism ≡ s.parallelism
  conserved :
      (f : ℕ → ℕ)
      → held f s' ≡ total f waiting + total f s.in_flight + total f s.finished + total f s.refused

pump_from-Pumps :
    (waiting : List ℕ) (s : PushQueue) → IsCounted s → Pumps waiting s (pump_from waiting s)
unfolding pump_from
pump_from-Pumps [] s c = record {
  counted = c.counted;
  bounded = c.bounded;
  shorter = omega arith;
  busy = λ _ some_left. cc;
  same = refl;
  same_width = refl;
  conserved = λ f. omega arith;
}
pump_from-Pumps (id ∷ rest) s c = elim (Bool-cases (not s.closed && ltb s.active s.parallelism)) [
  | inl room ↦
      let fits : s.active < s.parallelism = ground arith in
      let started : PushQueue = record s {
        active = s.active + 1;
        in_flight = s.in_flight ++ id ∷ [];
      } in
      let later = pump_from-Pumps rest started (record {
        counted = omega (arith, c.counted, length-append s.in_flight (id ∷ []));
        bounded = omega arith;
      }) in
      rw (room, pump_from)
        (record {
          counted = later.counted;
          bounded = later.bounded;
          shorter = omega (arith, later.shorter);
          busy = later.busy;
          same = later.same;
          same_width = later.same_width;
          conserved = λ f. omega (arith, later.conserved f, total-append f s.in_flight (id ∷ []));
        })
  | inr full ↦
      rw (full, pump_from)
        (record {
          counted = c.counted;
          bounded = c.bounded;
          shorter = omega arith;
          busy = λ still _. (let b = c.bounded in ground arith);
          same = refl;
          same_width = refl;
          conserved = λ f. omega arith;
        })
]

Pumps-IsSound :
    (waiting : List ℕ) (s s' : PushQueue)
    → Pumps waiting s s'
    → length waiting ≤ queue_limit
    → (s.closed ≡ true → waiting ≡ [])
    → IsSound s'
Pumps-IsSound waiting s s' p short shut = record {
  counted = p.counted;
  bounded = p.bounded;
  short = omega (arith, p.shorter);
  busy = p.busy;
  shut =
      λ closed. nil_of s'.queue (omega (arith, p.shorter, ap length (shut (sym p.same ∙ closed))));
}
  where
    nil_of : (xs : List ℕ) → length xs ≤ 0 → xs ≡ []
    nil_of [] h = refl
    nil_of (x ∷ xs) h = absurd (omega arith)

remove_first-lem :
    (f : ℕ → ℕ) (xs : List ℕ) (id : ℕ)
    → contains xs id ≡ true
    → (length (remove_first xs id) + 1 ≡ length xs)
      × (total f (remove_first xs id) + f id ≡ total f xs)
unfolding remove_first
remove_first-lem f [] id h = cc
remove_first-lem f (x ∷ xs) id h = elim (Bool-cases (x == id)) [
  | inl same ↦ rw same (omega arith, omega (arith, ap f ((nat_beq_iff x id).0 same)))
  | inr different ↦
      let later = remove_first-lem f xs id (ground arith) in
      rw different (omega (arith, later.0), omega (arith, later.1))
]

-- A step keeps the invariant, and what it takes in is held from then on.
record Steps (id_taken : (ℕ → ℕ) → ℕ) (s s' : PushQueue) : Type 0 where
  sound : IsSound s'
  conserved : (f : ℕ → ℕ) → held f s' ≡ held f s + id_taken f

enqueue_push-Steps : (id : ℕ) (s : PushQueue) → IsSound s → Steps (λ f. f id) s (enqueue_push id s)
unfolding enqueue_push pump
enqueue_push-Steps id s h = elim (Bool-cases (s.closed || leb queue_limit (length s.queue))) [
  | inl refused ↦
      rw (refused, enqueue_push)
        (record {
          sound = record {
            counted = h.counted;
            bounded = h.bounded;
            short = h.short;
            busy = h.busy;
            shut = h.shut;
          };
          conserved = λ f. omega (arith, total-append f s.refused (id ∷ []));
        })
  | inr taken ↦
      let more : PushQueue = record s { queue = s.queue ++ id ∷ [] } in
      let p =
        pump_from-Pumps more.queue more (record { counted = h.counted; bounded = h.bounded }) in
      let room : length s.queue < 256 = ground arith in
      let still : s.closed ≡ false = ground arith in
      rw (taken, enqueue_push)
        (record {
          sound =
              Pumps-IsSound more.queue more _ p (omega (arith, length-append s.queue (id ∷ [])))
                (λ closed. cc);
          conserved = λ f. omega (arith, p.conserved f, total-append f s.queue (id ∷ []));
        })
]

finish-Steps : (id : ℕ) (s : PushQueue) → IsSound s → Steps (λ f. 0) s (finish id s)
unfolding finish pump
finish-Steps id s h = elim (Bool-cases (contains s.in_flight id)) [
  | inr unknown ↦ rw (unknown, finish) (record { sound = h; conserved = λ f. omega arith })
  | inl known ↦
      let fewer : PushQueue = record s {
        active = s.active - 1;
        in_flight = remove_first s.in_flight id;
        finished = s.finished ++ id ∷ [];
      } in
      let left = remove_first-lem (λ x. 0) s.in_flight id known in
      let p = pump_from-Pumps s.queue fewer (record {
        counted = omega (arith, left.0, h.counted);
        bounded = omega (arith, h.bounded);
      }) in
      rw (known, finish)
        (record {
          sound = Pumps-IsSound s.queue fewer _ p h.short h.shut;
          conserved = λ f. omega (
            arith,
            p.conserved f,
            total-append f s.finished (id ∷ []),
            (remove_first-lem f s.in_flight id known).1,
          );
        })
]

close_queue-Steps : (s : PushQueue) → IsSound s → Steps (λ f. 0) s (close_queue s)
unfolding close_queue
close_queue-Steps s h = record {
  sound = record {
    counted = h.counted;
    bounded = h.bounded;
    short = omega arith;
    busy = λ still. cc;
    shut = λ _. refl;
  };
  conserved = λ f. omega (arith, total-append f s.refused s.queue);
}

abbrev pub taken_by : (ℕ → ℕ) → List Event → ℕ
taken_by f [] = 0
taken_by f (enqueues id ∷ es) = f id + taken_by f es
taken_by f (finishes id ∷ es) = taken_by f es
taken_by f (closes ∷ es) = taken_by f es

run-both :
    (es : List Event) (s : PushQueue)
    → IsSound s
    → IsSound (run es s) × ((f : ℕ → ℕ) → held f (run es s) ≡ held f s + taken_by f es)
unfolding step
run-both [] s h = (h, λ f. omega arith)
run-both (enqueues id ∷ es) s h =
    let now = enqueue_push-Steps id s h in
    let later = run-both es (enqueue_push id s) now.sound in
    (later.0, λ f. omega (arith, later.1 f, now.conserved f))
run-both (finishes id ∷ es) s h =
    let now = finish-Steps id s h in
    let later = run-both es (finish id s) now.sound in
    (later.0, λ f. omega (arith, later.1 f, now.conserved f))
run-both (closes ∷ es) s h =
    let now = close_queue-Steps s h in
    let later = run-both es (close_queue s) now.sound in
    (later.0, λ f. omega (arith, later.1 f, now.conserved f))

new_queue-IsSound : (concurrency : ℕ) → IsSound (new_queue concurrency)
unfolding new_queue
new_queue-IsSound concurrency = record {
  counted = refl;
  bounded = omega arith;
  short = omega arith;
  busy = λ _ some_left. cc;
  shut = λ _. refl;
}

-- Over every history of notifications, settlements and a close: the count of active works is the
-- number of works in flight and stays within the parallelism, at most 256 notifications wait, none
-- waits while a work could start, and none waits after the close. By any weight, the notifications
-- that came in are those that wait, are in flight, have finished or were refused.
pub run-IsSound :
    (concurrency : ℕ) (es : List Event)
    → let s = run es (new_queue concurrency) in IsSound s × ((f : ℕ → ℕ) → held f s ≡ taken_by f es)
run-IsSound concurrency es =
    let both = run-both es (new_queue concurrency) (new_queue-IsSound concurrency) in
    (both.0, λ f. (unfold new_queue in omega (arith, both.1 f)))
