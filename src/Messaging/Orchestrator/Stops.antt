-- ===== src/Messaging/Orchestrator/Stops.antt =====
-- When the conversation of packages/messaging/src/group-orchestrator.ts ends: how many turns it
-- can take, a check that fails, and a room in which nobody has anything to say.
use open_claw_bot.Common.{
  ℕ, zero, suc, ◌+◌, ◌*◌, ◌≤◌, ◌≡◌, ◌≢◌, refl, sym, ap, ◌∙◌, inl, inr, true, false, some, List, [],
  ◌∷◌, length, is_empty, leb, arith, Bool-cases, Option-cases,
}
use open_claw_bot.Common.Texts.{Text}
use open_claw_bot.Messaging.GroupChat.{Member, Message, group_max_rounds}
use open_claw_bot.Messaging.Orchestrator.{
  Outcome, goes_on, returned, rejected, Talk, Room, opening, check, proceed, next_round, spoken_of,
  post_all, run_one_turn, speak, speak_round, run_rounds, converse,
}
use open_claw_bot.Messaging.Orchestrator.Bounds.{
  speak_round-cases, run_rounds-cases, converse_keeps,
}

post_all-counts :
    (m : Member) (cs : List Text) (t : Talk)
    → let t' = (post_all m cs t).0 in (t'.checks ≡ t.checks) × (t'.turns ≡ t.turns)
unfolding post_all
post_all-counts m [] t = (refl, refl)
post_all-counts m (c ∷ cs) t = elim (Bool-cases (leb 10 (t.total + 1))) [
  | inl full ↦ rw full (refl, refl)
  | inr free ↦ rw free (post_all-counts m cs _)
]

-- A turn makes no check and counts once.
speak-counts :
    (r : Room) (m : Member) (n : ℕ) (t : Talk)
    → let t' = (speak r m n t).2 in (t'.checks ≡ t.checks) × (t'.turns ≡ t.turns + 1)
unfolding speak
speak-counts r m n t = elim (Option-cases (run_one_turn r m t).0) [
  | inl failed ↦ rw (failed, speak) (unfold run_one_turn in (refl, refl))
  | inr (texts, e) ↦
      rw (e, speak)
        (unfold run_one_turn in post_all-counts m texts (record t { turns = t.turns + 1 }))
]

-- Once a check fails the conversation is over: no later check is made.
pub stale_check_ends : (r : Room) (k : ℕ) → r.is_current k ≡ false → (converse r).1.checks ≤ k + 1
stale_check_ends r k stale =
    converse_keeps r (λ t. t.checks ≤ k) (λ t. t.checks ≤ k + 1) (λ t h. omega arith)
      (λ t current h.
        let other : t.checks ≢ k =
          λ e. (let same : true ≡ false = sym current ∙ ap r.is_current e ∙ stale in cc) in
        omega (arith, other))
      (λ t _ h. omega arith) (λ m n t _ h. omega (arith, (speak-counts r m n t).0)) (omega arith)

-- One speaker adds at most one turn, whatever follows.
proceed-turns :
    (o : Outcome × ℕ × Talk) (k : ℕ → Talk → Outcome × ℕ × Talk) (a b : ℕ)
    → o.2.turns ≤ a
    → ((n : ℕ) (t : Talk) → (k n t).2.turns ≤ t.turns + b)
    → (proceed o k).2.turns ≤ a + b
proceed-turns (goes_on, n, t) k a b h later = omega (arith, later n t)
proceed-turns (returned, n, t) k a b h later = omega arith
proceed-turns (rejected, n, t) k a b h later = omega arith

next_round-turns :
    (o : Outcome × ℕ × Talk) (k : Talk → Outcome × Talk) (a b : ℕ)
    → o.2.turns ≤ a
    → ((t : Talk) → (k t).1.turns ≤ t.turns + b)
    → (next_round o k).1.turns ≤ a + b
next_round-turns (goes_on, zero, t) k a b h later = omega arith
next_round-turns (goes_on, suc n, t) k a b h later = omega (arith, later t)
next_round-turns (returned, n, t) k a b h later = omega arith
next_round-turns (rejected, n, t) k a b h later = omega arith

speak_round-turns :
    (r : Room) (ids : List Text) (n : ℕ) (t : Talk)
    → (speak_round r ids n t).2.turns ≤ t.turns + length ids
speak_round-turns r [] n t = unfold speak_round in omega arith
speak_round-turns r (id ∷ ids) n t = elim (speak_round-cases r id ids n t) [
  | inl e ↦ rw e (omega arith)
  | inr (inl (_, e)) ↦ rw e (omega arith)
  | inr (inr (inl (_, e))) ↦ rw e (omega (arith, speak_round-turns r ids n (check t)))
  | inr (inr (inr (m, _, _, e))) ↦ rw e (
      let bound =
        proceed-turns (speak r m n (check t)) (speak_round r ids) (t.turns + 1) (length ids)
          (omega (arith, (speak-counts r m n (check t)).1)) (speak_round-turns r ids) in
      omega arith)
]

run_rounds-turns :
    (r : Room) (left round : ℕ) (t : Talk)
    → (run_rounds r left round t).1.turns ≤ t.turns + left * length r.members
run_rounds-turns r zero round t = unfold run_rounds in omega arith
run_rounds-turns r (suc left) round t = elim (run_rounds-cases r left round t) [
  | inl (_, e) ↦ rw e (omega arith)
  | inr (ids, few, _, e) ↦ rw e (
      let bound =
        next_round-turns (speak_round r ids 0 (check t)) (run_rounds r left (round + 1))
          (t.turns + length ids) (left * length r.members) (speak_round-turns r ids 0 (check t))
          (run_rounds-turns r left (round + 1)) in
      omega arith)
]

-- A conversation asks its members for at most three turns each on average, whatever they answer.
pub converse-turns : (r : Room) → (converse r).1.turns ≤ 3 * length r.members
unfolding converse
converse-turns r = elim (Bool-cases (is_empty r.members)) [
  | inl nobody ↦ rw nobody (omega arith)
  | inr some_member ↦
      rw some_member (let bound = run_rounds-turns r group_max_rounds 0 opening in omega arith)
]

-- Nobody ever has anything to say.
abbrev pub IsQuiet : Room → Type 0
IsQuiet r =
    (k : ℕ) (m : Member) (peers : List Member) (shown : List Message)
    → spoken_of (r.turn k m peers shown) ≡ some []

speak_quiet :
    (r : Room) (m : Member) (n : ℕ) (t : Talk)
    → IsQuiet r
    → speak r m n t ≡ (goes_on, n, record t { turns = t.turns + 1 })
unfolding speak run_one_turn
speak_quiet r m n t quiet =
    rw (quiet t.turns m _ _, speak)
      (unfold post_all in
        let e : n + 0 ≡ n = omega arith in
        ap (λ k. (goes_on, k, record t { turns = t.turns + 1 })) e)

-- What a round in which nobody speaks leaves.
abbrev Silent : Outcome × ℕ × Talk → Type 0
Silent (o, n, t) = (o ≢ rejected) × (n ≡ 0) × (t.history ≡ [])

speak_round_quiet :
    (r : Room) (ids : List Text) (t : Talk)
    → IsQuiet r
    → t.history ≡ []
    → Silent (speak_round r ids 0 t)
speak_round_quiet r [] t quiet h = unfold speak_round in ((λ e. cc), refl, h)
speak_round_quiet r (id ∷ ids) t quiet h = elim (speak_round-cases r id ids 0 t) [
  | inl e ↦ rw e ((λ e. cc), refl, h)
  | inr (inl (_, e)) ↦ rw e ((λ e. cc), refl, h)
  | inr (inr (inl (_, e))) ↦ rw e (speak_round_quiet r ids (check t) quiet h)
  | inr (inr (inr (m, _, _, e))) ↦
      rw e (rw (speak_quiet r m 0 (check t) quiet) (speak_round_quiet r ids _ quiet h))
]

next_round_ends :
    (o : Outcome × ℕ × Talk) (k : Talk → Outcome × Talk)
    → Silent o
    → (next_round o k).0 ≡ returned × ((next_round o k).1 ≡ o.2)
next_round_ends (goes_on, zero, t) k h = (refl, refl)
next_round_ends (goes_on, suc n, t) k h = (let none_posted = h.1 in absurd (omega arith))
next_round_ends (returned, n, t) k h = (refl, refl)
next_round_ends (rejected, n, t) k h = absurd (h.0 refl)

-- A room in which nobody has anything to say settles: the conversation returns with an empty
-- history after at most one turn of each member.
pub converse_quiet :
    (r : Room)
    → IsQuiet r
    → (converse r).0 ≡ returned
      × ((converse r).1.history ≡ [])
      × ((converse r).1.turns ≤ length r.members)
unfolding converse
converse_quiet r quiet = elim (Bool-cases (is_empty r.members)) [
  | inl nobody ↦ rw nobody (refl, refl, omega arith)
  | inr some_member ↦ rw some_member (elim (run_rounds-cases r 2 0 opening) [
    | inl (_, e) ↦ rw e (refl, refl, omega arith)
    | inr (ids, few, _, e) ↦
        let silent = speak_round_quiet r ids (check opening) quiet refl in
        let ended =
          next_round_ends (speak_round r ids 0 (check opening)) (run_rounds r 2 1) silent in
        let turns = speak_round-turns r ids 0 (check opening) in
        rw e (ended.0, ap (λ t. t.history) ended.1 ∙ silent.2, rw ended.1 (omega arith))
  ])
]
