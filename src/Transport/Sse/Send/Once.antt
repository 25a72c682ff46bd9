-- ===== src/Transport/Sse/Send/Once.antt =====
-- A prompt of packages/transport/src/sse.ts does not run twice at a gateway.
use open_claw_bot.Common.{
  ◌+◌, ◌≤◌, ◌++◌, ◌≡◌, refl, ℕ, Bool, true, false, not, ◌&&◌, ◌||◌, Option, none, some, List, [],
  ◌∷◌, length, contains, if◌then◌else◌, ◌==◌, All, arith, Bool-cases, inl, inr, All-append, subst,
  sym, ap, ◌∙◌,
}
use open_claw_bot.Common.Texts.{Text, text_eq}
use open_claw_bot.Core.Lifecycle.{add_to_set}
use open_claw_bot.Transport.Sse.Send.{
  PostReply, answers, refuses, breaks, Attempt, SseSender, proven_by, elapsed, Posts, Attempted,
  attempted, send_prompt_attempt, is_proven, has_nonce, is_transport_error, is_retryable,
  send_prompt,
}

-- Whether a post reached its gateway, which then runs the prompt.
abbrev pub arrives : PostReply → Bool
arrives (answers accepted) = true
arrives refuses = false
arrives (breaks arrived) = arrived

abbrev pub may_repeat : Option Text → Bool → Bool
may_repeat nonce closed = not closed && has_nonce nonce

module _ (dedupes : Text → Bool) where
  -- The runs that posts of one prompt start at a gateway: one that dedupes runs the nonce once.
  abbrev pub runs_at : Text → Posts → ℕ
  runs_at url [] = 0
  runs_at url ((to, reply) ∷ posts) =
      let later = runs_at url posts in
      if (to == url) && arrives reply then (if dedupes url then 1 else later + 1) else later

  -- Gateways that answer with `accepted`, and those that are proven, dedupe.
  abbrev pub IsHonest : Option Text → PostReply → Type 0
  IsHonest (some url) (answers true) = dedupes url ≡ true
  IsHonest _ _ = Unit

  abbrev pub Dedupes : Text → Type 0
  Dedupes url = dedupes url ≡ true

  -- Of these attempts: every gateway that answers with `accepted` dedupes.
  abbrev pub IsFaithful : Attempt → Type 0
  IsFaithful a = IsHonest a.resolves_to a.reply × All Dedupes a.proven_since

  contained :
      (urls : List Text) (url : Text) → All Dedupes urls → contains urls url ≡ true → Dedupes url
  contained [] url h found = (let bad : true ≡ false = sym found in cc)
  contained (u ∷ urls) url (first, others) found = elim (Bool-cases (u == url)) [
    | inl same ↦ subst Dedupes ((text_eq.equal_iff u url).0 same) first
    | inr other ↦ contained urls url others (rw other at found)
  ]

  add_to_set-Dedupes :
      (urls : List Text) (url : Text)
      → All Dedupes urls
      → Dedupes url
      → All Dedupes (add_to_set urls url)
  unfolding add_to_set
  add_to_set-Dedupes urls url h one = elim (Bool-cases (contains urls url)) [
    | inl found ↦ rw found h
    | inr missing ↦ rw missing (All-append Dedupes urls (url ∷ []) h (one, tt))
  ]

  abbrev IsKnown : SseSender → Type 0
  IsKnown s = All Dedupes s.send_dedupe_proven_base_urls

  attempted-IsKnown :
      (target : Option Text) (reply : PostReply) (s : SseSender)
      → IsKnown s
      → IsHonest target reply
      → IsKnown (attempted target reply s).sender
  unfolding attempted proven_by
  attempted-IsKnown none reply s h honest = h
  attempted-IsKnown (some url) (answers true) s h honest = add_to_set-Dedupes _ url h honest
  attempted-IsKnown (some url) (answers false) s h honest = h
  attempted-IsKnown (some url) refuses s h honest = h
  attempted-IsKnown (some url) (breaks arrived) s h honest = h

  attempt-IsKnown :
      (a : Attempt) (s : SseSender)
      → IsKnown s
      → IsFaithful a
      → IsKnown (send_prompt_attempt a s).sender
  unfolding send_prompt_attempt elapsed
  attempt-IsKnown a s h (honest, since) =
      attempted-IsKnown a.resolves_to a.reply (elapsed a s)
        (All-append Dedupes s.send_dedupe_proven_base_urls a.proven_since h since) honest

  -- At a gateway that dedupes there is one run at most, and one post starts one run at most.
  runs-Dedupes : (url : Text) (posts : Posts) → Dedupes url → runs_at url posts ≤ 1
  runs-Dedupes url [] h = omega arith
  runs-Dedupes url ((to, reply) ∷ posts) h =
      let later = runs-Dedupes url posts h in
      elim (Bool-cases ((to == url) && arrives reply)) [
        | inl here ↦ rw (here, h) (omega arith)
        | inr other ↦ rw other later
      ]

  runs_one : (url to : Text) (reply : PostReply) → runs_at url ((to, reply) ∷ []) ≤ 1
  runs_one url to reply = elim (Bool-cases ((to == url) && arrives reply)) [
    | inl here ↦ (elim (Bool-cases (dedupes url)) [
      | inl known ↦ rw (here, known) (omega arith)
      | inr new ↦ rw (here, new) (omega arith)
    ])
    | inr other ↦ rw other (omega arith)
  ]

  abbrev IsCounted : ℕ → Text → Posts → Type 0
  IsCounted n url posts = (length posts ≤ n) × (runs_at url posts ≤ 1)

  attempted-IsCounted :
      (target : Option Text) (reply : PostReply) (s : SseSender) (url : Text)
      → IsCounted 1 url (attempted target reply s).posts
  unfolding attempted
  attempted-IsCounted none reply s url = (omega arith, omega arith)
  attempted-IsCounted (some to) reply s url = (omega arith, runs_one url to reply)

  -- A second post, behind a first one that was not dispatched or went to a proven gateway.
  second-IsCounted :
      (target : Option Text) (reply : PostReply) (s : SseSender) (url : Text) (posts : Posts)
      → IsKnown (attempted target reply s).sender
      → not (attempted target reply s).state.post_started
          || is_proven (attempted target reply s).state.base_url (attempted target reply s).sender
        ≡ true
      → IsCounted 1 url posts
      → IsCounted 2 url ((attempted target reply s).posts ++ posts)
  unfolding attempted
  second-IsCounted none reply s url posts h proven (few, one) = (omega arith, one)
  second-IsCounted (some to) reply s url posts h proven (few, one) =
      let known = contained _ to h proven in
      (
        omega arith,
        elim (Bool-cases (to == url)) [
          | inl same ↦
              runs-Dedupes url ((to, reply) ∷ posts)
                (subst Dedupes ((text_eq.equal_iff to url).0 same) known)
          | inr other ↦ rw other one
        ],
      )

  four-true :
      (closed named lost free : Bool)
      → not closed && named && lost && free ≡ true
      → (not closed && named ≡ true) × (free ≡ true)
  four-true false true true free h = (refl, h)
  four-true false true false free h = (let bad : true ≡ false = sym h in cc)
  four-true false false lost free h = (let bad : true ≡ false = sym h in cc)
  four-true true named lost free h = (let bad : true ≡ false = sym h in cc)

  retryable-parts :
      (nonce : Option Text) (f : Attempted)
      → is_retryable nonce f ≡ true
      → (may_repeat nonce f.sender.is_closed ≡ true)
        × (not f.state.post_started || is_proven f.state.base_url f.sender ≡ true)
  unfolding is_retryable
  retryable-parts nonce f h =
      four-true f.sender.is_closed (has_nonce nonce) (is_transport_error f.result)
        (not f.state.post_started || is_proven f.state.base_url f.sender) h

  attempt_closed :
      (target : Option Text) (reply : PostReply) (s : SseSender)
      → (attempted target reply s).sender.is_closed ≡ s.is_closed
  unfolding attempted
  attempt_closed none reply s = refl
  attempt_closed (some url) reply s = refl

  one_or_two : (n : ℕ) (b : Bool) → n ≤ 1 → n ≤ (if b then 2 else 1)
  one_or_two n true h = omega arith
  one_or_two n false h = h

  two_allowed : (n : ℕ) (b : Bool) → b ≡ true → n ≤ 2 → n ≤ (if b then 2 else 1)
  two_allowed n b h few = rw h few

  -- If the gateways that are proven, and those that answer with `accepted`, dedupe: a call of
  -- `sendPrompt` posts once at most, or twice if it has a nonce and the client is open behind the
  -- first attempt; every gateway runs the prompt at most once, whatever posts break; and the gateways
  -- that are proven afterwards dedupe too.
  pub send_prompt-once :
      (nonce : Option Text) (a b : Attempt) (s : SseSender) (url : Text)
      → All Dedupes s.send_dedupe_proven_base_urls
      → IsFaithful a
      → IsFaithful b
      → (length (send_prompt nonce a b s).posts
          ≤ (if may_repeat nonce (s.is_closed || a.is_closed_since) then 2 else 1))
        × (runs_at url (send_prompt nonce a b s).posts ≤ 1)
        × All Dedupes (send_prompt nonce a b s).sender.send_dedupe_proven_base_urls
  unfolding send_prompt send_prompt_attempt elapsed
  send_prompt-once nonce a b s url known ha hb =
      let first = send_prompt_attempt a s in
      elim (Bool-cases (is_retryable nonce first)) [
        | inl again ↦
            (let parts = retryable-parts nonce first again in
              let after = attempt-IsKnown a s known ha in
              let next = attempted-IsCounted b.resolves_to b.reply (elapsed b first.sender) url in
              let both =
                second-IsCounted a.resolves_to a.reply (elapsed a s) url
                  (send_prompt_attempt b first.sender).posts after parts.1 next in
              rw again (
                two_allowed _ _
                    (ap (may_repeat nonce)
                        (sym (attempt_closed a.resolves_to a.reply (elapsed a s)))
                      ∙ parts.0)
                    both.0,
                both.1,
                attempt-IsKnown b first.sender after hb,
              ))
        | inr ended ↦
            (let one = attempted-IsCounted a.resolves_to a.reply (elapsed a s) url in
              rw ended (one_or_two _ _ one.0, one.1, attempt-IsKnown a s known ha))
      ]
