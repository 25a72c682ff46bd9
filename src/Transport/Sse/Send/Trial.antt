-- ===== src/Transport/Sse/Send/Trial.antt =====
-- Sends of packages/transport/src/sse.ts whose reply is lost.
use open_claw_bot.Common.{
  ◌≡◌, refl, ◌≤◌, Bool, true, false, Option, none, some, [], ◌∷◌, length, All, if◌then◌else◌,
}
use open_claw_bot.Common.Texts.{Text, units, text_eq, text_beq}
use open_claw_bot.Core.Lifecycle.{add_to_set}
use open_claw_bot.Transport.Sse.Send.{
  answers, refuses, breaks, Attempt, SseSender, returns, result_of, proven_by, elapsed, attempted,
  send_prompt_attempt, is_retryable, send_prompt,
}
use open_claw_bot.Transport.Sse.Send.Once.{runs_at, Dedupes, may_repeat, send_prompt-once}

-- The reply of the first attempt is lost, and the host has a new address for the second.
abbrev lost : Attempt
lost = record {
  resolves_to = some (units "a");
  reply = breaks true;
  is_closed_since = false;
  proven_since = [];
}

abbrev same_host : Attempt
same_host = record lost { reply = answers true }

abbrev new_host : Attempt
new_host = record same_host { resolves_to = some (units "b") }

abbrev proven : SseSender
proven = record { is_closed = false; send_dedupe_proven_base_urls = units "a" ∷ [] }

abbrev nonce : Option Text
nonce = some (units "n1")

abbrev always : Text → Bool
always url = true

sends_run :
    (length (send_prompt nonce lost same_host proven).posts ≡ 2)
    × (length (send_prompt none lost same_host proven).posts ≡ 1)
    × (length (send_prompt nonce (record lost { reply = refuses }) same_host proven).posts ≡ 1)
    × (length (send_prompt nonce (record lost { is_closed_since = true }) same_host proven).posts
        ≡ 1)
    × ((send_prompt nonce (record lost { resolves_to = none }) new_host proven).result ≡ returns)
unfolding send_prompt send_prompt_attempt attempted elapsed is_retryable result_of proven_by
    add_to_set text_beq
sends_run = (refl, refl, refl, refl, refl)

-- Both hosts run the prompt.
moved_runs :
    (runs_at always (units "a") (send_prompt nonce lost new_host proven).posts ≡ 1)
    × (runs_at always (units "b") (send_prompt nonce lost new_host proven).posts ≡ 1)
unfolding send_prompt send_prompt_attempt attempted elapsed is_retryable result_of proven_by
    add_to_set text_beq
moved_runs = (refl, refl)

send_prompt-once_example :
    (length (send_prompt nonce lost same_host proven).posts
      ≤ (if may_repeat nonce false then 2 else 1))
    × (runs_at always (units "a") (send_prompt nonce lost same_host proven).posts ≤ 1)
    × All
        (Dedupes always)
        (send_prompt nonce lost same_host proven).sender.send_dedupe_proven_base_urls
send_prompt-once_example =
    send_prompt-once always nonce lost same_host proven (units "a") (refl, tt) (tt, tt) (refl, tt)
