-- ===== src/Messaging/Orchestrator/Bounds.antt =====
-- The caps of packages/messaging/src/group-orchestrator.ts, whatever the members answer.
use mathlib.Core.Option.{some-injective}
use open_claw_bot.Common.{
  ℕ, zero, suc, ◌+◌, ◌≤◌, ◌<◌, ◌≡◌, refl, subst, ◌⊎◌, inl, inr, true, false, some, List, [], ◌∷◌,
  map, length, is_empty, All, length-map, leb, arith, Bool-cases, Option-cases,
}
use open_claw_bot.Common.Texts.{Text, trim}
use open_claw_bot.Messaging.GroupChat.{
  Member, Message, order_round_speakers, resolve_responders, is_pass_content, group_max_rounds,
}
use open_claw_bot.Messaging.GroupChat.Turns.{length-order_round_speakers}
use open_claw_bot.Messaging.GroupChat.Mentions.{length-resolve_responders}
use open_claw_bot.Messaging.Orchestrator.{
  TurnReply, said, no_runner, session_gone, threw, Outcome, goes_on, returned, rejected, Talk, Room,
  opening, check, proceed, next_round, collect_spoken, spoken_of, speak, speak_round, run_rounds,
  converse, member_by_id,
}

-- A posted text: a text of a turn, trimmed, that is no pass and not blank.
abbrev pub IsSpoken : Text → Type 0
IsSpoken c = (raw : Text) × (c ≡ trim raw) × (is_pass_content raw ≡ false) × (is_empty c ≡ false)

collect_spoken-IsSpoken : (n : ℕ) (cs : List Text) → All IsSpoken (collect_spoken n cs)
unfolding collect_spoken
collect_spoken-IsSpoken n [] = tt
collect_spoken-IsSpoken n (c ∷ cs) = elim (Bool-cases (is_pass_content c)) [
  | inl pass ↦ rw pass (collect_spoken-IsSpoken n cs)
  | inr real ↦ rw real (elim (Bool-cases (is_empty (trim c))) [
    | inl blank ↦ rw blank (collect_spoken-IsSpoken n cs)
    | inr full ↦ rw full (
      (c, refl, real, full),
      elim (Bool-cases (leb 2 (n + 1))) [
        | inl enough ↦ rw enough tt
        | inr more ↦ rw more (collect_spoken-IsSpoken (n + 1) cs)
      ],
    )
  ])
]

length-collect_spoken : (n : ℕ) (cs : List Text) → n < 2 → length (collect_spoken n cs) + n ≤ 2
unfolding collect_spoken
length-collect_spoken n [] h = omega arith
length-collect_spoken n (c ∷ cs) h =
    ground (arith, length-collect_spoken n cs, length-collect_spoken (n + 1) cs)

-- A turn posts at most two texts, each of them a real one.
pub spoken_of-bounded :
    (reply : TurnReply) (texts : List Text)
    → spoken_of reply ≡ some texts
    → (length texts ≤ 2) × All IsSpoken texts
unfolding spoken_of
spoken_of-bounded no_runner texts e =
    subst (λ ts. (length ts ≤ 2) × All IsSpoken ts) (some-injective _ _ e) (omega arith, tt)
spoken_of-bounded session_gone texts e =
    subst (λ ts. (length ts ≤ 2) × All IsSpoken ts) (some-injective _ _ e) (omega arith, tt)
spoken_of-bounded threw texts e = cc
spoken_of-bounded (said raw) texts e =
    subst (λ ts. (length ts ≤ 2) × All IsSpoken ts) (some-injective _ _ e)
      (omega (arith, length-collect_spoken 0 raw), collect_spoken-IsSpoken 0 raw)

-- What holds of a talk at any time: the cap, the count, and what was posted.
pub record IsBounded (t : Talk) : Type 0 where
  pub capped : t.total ≤ 10
  pub counted : length t.history ≡ t.total
  pub clean : All (λ (m : Message). IsSpoken m.content) t.history

-- One speaker of a round: the cap, a check that fails, an id that no member has, or a turn.
pub speak_round-cases :
    (r : Room) (id : Text) (ids : List Text) (n : ℕ) (t : Talk)
    → (speak_round r (id ∷ ids) n t ≡ (returned, n, t))
      ⊎ ((r.is_current t.checks ≡ false) × (speak_round r (id ∷ ids) n t ≡ (returned, n, check t)))
      ⊎ ((r.is_current t.checks ≡ true)
          × (speak_round r (id ∷ ids) n t ≡ speak_round r ids n (check t)))
      ⊎ ((m : Member) × (t.total < 10)
          × (r.is_current t.checks ≡ true)
          × (speak_round r (id ∷ ids) n t ≡ proceed (speak r m n (check t)) (speak_round r ids)))
unfolding speak_round
speak_round-cases r id ids n t = elim (Bool-cases (leb 10 t.total)) [
  | inl full ↦ inl (rw full refl)
  | inr free ↦ inr (elim (Bool-cases (r.is_current t.checks)) [
    | inr stale ↦ inl (stale, rw free (rw (stale, speak_round) refl))
    | inl current ↦ inr (elim (Option-cases (member_by_id r.members id)) [
      | inl unknown ↦
          inl (current, rw free (rw (current, speak_round) (rw (unknown, speak_round) refl)))
      | inr (m, e) ↦
          inr (
            m,
            ground arith,
            current,
            rw free (rw (current, speak_round) (rw (e, speak_round) refl)),
          )
    ])
  ])
]

length-speakers :
    (r : Room) (round : ℕ) (history : List Message)
    → let responders = resolve_responders r.to_lower r.members history in
      length (order_round_speakers (map (λ m. m.id) responders) round) ≤ length r.members
length-speakers r round history =
    let responders = resolve_responders r.to_lower r.members history in
    omega (
      arith,
      length-order_round_speakers (map (λ m. m.id) responders) round,
      length-map (λ (m : Member). m.id) responders,
      length-resolve_responders r.to_lower r.members history,
    )

-- A round of the outer loop: a check that fails, or the speakers of the round.
pub run_rounds-cases :
    (r : Room) (left round : ℕ) (t : Talk)
    → ((r.is_current t.checks ≡ false) × (run_rounds r (suc left) round t ≡ (returned, check t)))
      ⊎ ((ids : List Text) × (length ids ≤ length r.members)
          × (r.is_current t.checks ≡ true)
          × (run_rounds r (suc left) round t
              ≡ next_round (speak_round r ids 0 (check t)) (run_rounds r left (round + 1))))
unfolding run_rounds
run_rounds-cases r left round t = elim (Bool-cases (r.is_current t.checks)) [
  | inr stale ↦ inl (stale, rw (stale, run_rounds) refl)
  | inl current ↦
      let responders = resolve_responders r.to_lower r.members t.history in
      inr (
        order_round_speakers (map (λ m. m.id) responders) round,
        length-speakers r round t.history,
        current,
        rw (current, run_rounds) refl,
      )
]

-- What checks and turns keep of a talk that goes on (`P`), and what a talk that ends has (`F`).
module _ (r : Room) (P F : Talk → Type 0) (ends : (t : Talk) → P t → F t)
    (by_check : (t : Talk) → r.is_current t.checks ≡ true → P t → P (check t))
    (by_stale : (t : Talk) → r.is_current t.checks ≡ false → P t → F (check t))
    (by_turn : (m : Member) (n : ℕ) (t : Talk) → t.total < 10 → P t → P (speak r m n t).2) where
  abbrev Leaves : Outcome × ℕ × Talk → Type 0
  Leaves (goes_on, n, t) = P t
  Leaves (returned, n, t) = F t
  Leaves (rejected, n, t) = F t

  turn_Leaves : (o : Outcome × ℕ × Talk) → P o.2 → Leaves o
  turn_Leaves (goes_on, n, t) h = h
  turn_Leaves (returned, n, t) h = ends t h
  turn_Leaves (rejected, n, t) h = ends t h

  proceed-Leaves :
      (o : Outcome × ℕ × Talk) (k : ℕ → Talk → Outcome × ℕ × Talk)
      → P o.2
      → ((n : ℕ) (t : Talk) → P t → Leaves (k n t))
      → Leaves (proceed o k)
  proceed-Leaves (goes_on, n, t) k h later = later n t h
  proceed-Leaves (returned, n, t) k h later = ends t h
  proceed-Leaves (rejected, n, t) k h later = ends t h

  next_round_keeps :
      (o : Outcome × ℕ × Talk) (k : Talk → Outcome × Talk)
      → Leaves o
      → ((t : Talk) → P t → F (k t).1)
      → F (next_round o k).1
  next_round_keeps (goes_on, zero, t) k h later = ends t h
  next_round_keeps (goes_on, suc n, t) k h later = later t h
  next_round_keeps (returned, n, t) k h later = h
  next_round_keeps (rejected, n, t) k h later = h

  speak_round-Leaves : (ids : List Text) (n : ℕ) (t : Talk) → P t → Leaves (speak_round r ids n t)
  speak_round-Leaves [] n t h = unfold speak_round in h
  speak_round-Leaves (id ∷ ids) n t h = elim (speak_round-cases r id ids n t) [
    | inl e ↦ rw e (ends t h)
    | inr (inl (stale, e)) ↦ rw e (by_stale t stale h)
    | inr (inr (inl (current, e))) ↦
        rw e (speak_round-Leaves ids n (check t) (by_check t current h))
    | inr (inr (inr (m, room, current, e))) ↦ rw e (
        proceed-Leaves (speak r m n (check t)) (speak_round r ids)
          (by_turn m n (check t) room (by_check t current h)) (speak_round-Leaves ids))
  ]

  rounds_keep : (left round : ℕ) (t : Talk) → P t → F (run_rounds r left round t).1
  rounds_keep zero round t h = unfold run_rounds in ends t h
  rounds_keep (suc left) round t h = elim (run_rounds-cases r left round t) [
    | inl (stale, e) ↦ rw e (by_stale t stale h)
    | inr (ids, _, current, e) ↦ rw e (
        next_round_keeps (speak_round r ids 0 (check t)) (run_rounds r left (round + 1))
          (speak_round-Leaves ids 0 (check t) (by_check t current h))
          (rounds_keep left (round + 1)))
  ]

  pub converse_keeps : P opening → F (converse r).1
  unfolding converse
  converse_keeps h = elim (Bool-cases (is_empty r.members)) [
    | inl nobody ↦ rw nobody (ends opening h)
    | inr some_member ↦ rw some_member (rounds_keep group_max_rounds 0 opening h)
  ]
