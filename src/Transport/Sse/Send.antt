-- ===== src/Transport/Sse/Send.antt =====
-- packages/transport/src/sse.ts: sendPrompt of GatewaySseClient with its one retry. What the
-- connection and the gateways do during an attempt is the data of an `Attempt`.
pub mod Once
mod Trial
use open_claw_bot.Common.{
  ◌++◌, Bool, true, false, not, ◌&&◌, ◌||◌, Option, none, some, List, [], ◌∷◌, contains, is_empty,
  if◌then◌else◌, ◌==◌, is_some,
}
use open_claw_bot.Common.Texts.{Text, text_eq}
use open_claw_bot.Core.Lifecycle.{add_to_set}

-- How a post ends: an answer with its flag `accepted`, a GatewayCommandError, or another error, after
-- which the client cannot tell whether the prompt has arrived at the gateway.
pub data PostReply : Type 0 where
  answers : (accepted : Bool) → PostReply
  refuses : PostReply
  breaks : (arrived : Bool) → PostReply

-- `resolves_to` is none where resolveConnection throws. By the end of the attempt, the other calls of
-- the client may have closed it and proven further gateways.
pub record Attempt : Type 0 where
  pub resolves_to : Option Text
  pub reply : PostReply
  pub is_closed_since : Bool
  pub proven_since : List Text

pub record SseSender : Type 0 where
  pub is_closed : Bool
  pub send_dedupe_proven_base_urls : List Text

-- The fields of the argument `state` behind an attempt.
pub record AttemptState : Type 0 where
  pub base_url : Option Text
  pub post_started : Bool

pub data SendResult : Type 0 where
  returns : SendResult
  command_error : SendResult
  transport_error : SendResult

unfoldable pub result_of : PostReply → SendResult
result_of (answers accepted) = returns
result_of refuses = command_error
result_of (breaks arrived) = transport_error

unfoldable pub proven_by : PostReply → Text → List Text → List Text
proven_by (answers true) url urls = add_to_set urls url
proven_by (answers false) url urls = urls
proven_by refuses url urls = urls
proven_by (breaks arrived) url urls = urls

unfoldable pub elapsed : Attempt → SseSender → SseSender
elapsed a s = record {
  is_closed = s.is_closed || a.is_closed_since;
  send_dedupe_proven_base_urls = s.send_dedupe_proven_base_urls ++ a.proven_since;
}

-- The posts of a call, each with its gateway.
abbrev pub Posts : Type 0
Posts = List (Text × PostReply)

pub record Attempted : Type 0 where
  pub sender : SseSender
  pub state : AttemptState
  pub result : SendResult
  pub posts : Posts

unfoldable pub attempted : Option Text → PostReply → SseSender → Attempted
unfolding result_of proven_by
attempted none reply s = record {
  sender = s;
  state = record { base_url = none; post_started = false };
  result = transport_error;
  posts = [];
}
attempted (some url) reply s = record {
  sender = record s {
    send_dedupe_proven_base_urls = proven_by reply url s.send_dedupe_proven_base_urls;
  };
  state = record { base_url = some url; post_started = true };
  result = result_of reply;
  posts = (url, reply) ∷ [];
}

unfoldable pub send_prompt_attempt : Attempt → SseSender → Attempted
unfolding attempted elapsed
send_prompt_attempt a s = attempted a.resolves_to a.reply (elapsed a s)

abbrev pub is_proven : Option Text → SseSender → Bool
is_proven none s = false
is_proven (some url) s = contains s.send_dedupe_proven_base_urls url

abbrev pub has_nonce : Option Text → Bool
has_nonce none = false
has_nonce (some nonce) = not (is_empty nonce)

abbrev pub is_transport_error : SendResult → Bool
is_transport_error returns = false
is_transport_error command_error = false
is_transport_error transport_error = true

unfoldable pub is_retryable : Option Text → Attempted → Bool
is_retryable client_nonce first =
    not first.sender.is_closed
    && has_nonce client_nonce
    && is_transport_error first.result
    && (not first.state.post_started || is_proven first.state.base_url first.sender)

-- The call of `sendPrompt`, with both its attempts.
unfoldable pub send_prompt : Option Text → Attempt → Attempt → SseSender → Attempted
unfolding send_prompt_attempt is_retryable
send_prompt client_nonce a b s =
    let first = send_prompt_attempt a s in
    let second = send_prompt_attempt b first.sender in
    if is_retryable client_nonce first
    then record second { posts = first.posts ++ second.posts }
    else first
