-- ===== src/Community/Mailbox.antt =====
-- apps/community/mailbox.mjs: what is asked of the mail server and what comes back to the caller. The
-- server's answer is a value; `size` stands for the bytes of a payload's JSON.
pub mod Sent
mod Read
mod Examples
use open_claw_bot.Common.{
  ℕ, ◌-◌, Bool, true, false, not, ◌&&◌, ◌||◌, Option, none, some, List, [], ◌∷◌, length, take, keep,
  contains, any, is_empty, if◌then◌else◌, ◌==◌, nat_eq, nat_beq, leb, ltb, is_some,
}
use open_claw_bot.Common.Texts.{Text, units, text_eq, trim, is_space}
use open_claw_bot.Community.Usage.{all_chars, is_digit}
use open_claw_bot.Community.Usage.Events.{is_alphanumeric}
use open_claw_bot.Community.MailAuth.{cut_at}

-- A result, or the status of the error.
pub data Result (A : Type 0) : Type 0 where
  failed : ℕ → Result A
  done : A → Result A

abbrev pub is_lower_hex : ℕ → Bool
is_lower_hex c = (leb b'a' c && leb c b'f') || (leb b'0' c && leb c b'9')

unfoldable pub is_mail_id : Text → Bool
unfolding all_chars
is_mail_id s = length s == 64 && all_chars is_lower_hex s

-- `string`; a value that is no text is `none`.
abbrev pub string : Option Text → ℕ → Text
string none high = []
string (some s) high = take high s

pub record RawSummary : Type 0 where
  pub id : Option Text
  pub sender : Option Text
  pub subject : Option Text
  pub received_at : Option Text

pub record Summary : Type 0 where
  pub id : Text
  pub sender : Text
  pub subject : Text
  pub received_at : Text

abbrev pub summary : RawSummary → Summary
summary raw = record {
  id = string raw.id 64;
  sender = string raw.sender 320;
  subject = string raw.subject 1000;
  received_at = string raw.received_at 64;
}

abbrev pub summaries : List RawSummary → List Summary
summaries [] = []
summaries (raw ∷ rest) = summary raw ∷ summaries rest

-- What the server does with a request: no answer, a status that is not ok, a body that is too large
-- or cannot be read, or data.
pub data Answer (A : Type 0) : Type 0 where
  unreachable unreadable : Answer A
  refused : ℕ → Answer A
  answered : A → Answer A

-- `request` on a configured mailbox.
unfoldable pub request_result : {A : Type 0} → Answer A → Result A
request_result unreachable = failed 502
request_result unreadable = failed 502
request_result (refused status) =
    if status == 404
    then failed 404
    else if status == 401 || status == 403
    then failed 409
    else failed 502
request_result (answered data_) = done data_

pub record Listing : Type 0 where
  pub address : Option Text
  pub messages : Option (List RawSummary)
  pub cursor : Option Text

pub record MailList : Type 0 where
  pub configured : Bool
  pub address : Text
  pub messages : List Summary
  pub cursor : Option Text

abbrev is_bad_cursor : Option (Option Text) → Bool
is_bad_cursor none = false
is_bad_cursor (some none) = true
is_bad_cursor (some (some s)) = ltb 2048 (length s) || any (λ c. leb c 31) s

abbrev short_cursor : Option Text → Option Text
short_cursor none = none
short_cursor (some s) = if leb (length s) 2048 then some s else none

abbrev listed : Listing → Option (List RawSummary) → Result MailList
listed l none = failed 502
listed l (some messages) = done (record {
  configured = true;
  address = string l.address 320;
  messages = keep (λ m. is_mail_id m.id) (summaries (take 50 messages));
  cursor = short_cursor l.cursor;
})

abbrev then_listed : Result Listing → Result MailList
then_listed (failed status) = failed status
then_listed (done l) = listed l l.messages

-- `list`; a cursor that is not given is `none`.
unfoldable pub list_mails : Bool → Option (Option Text) → Answer Listing → Result MailList
unfolding request_result is_mail_id
list_mails configured cursor answer =
    if not configured
    then done (record { configured = false; address = []; messages = []; cursor = none })
    else if is_bad_cursor cursor
    then failed 400
    else then_listed (request_result answer)

pub data Action : Type 0 where
  send reply : Action

pub record Input : Type 0 where
  pub action : Option Action
  pub id : Option Text
  pub to : Option Text
  pub subject : Option Text
  pub text : Option Text
  pub request_id : Option Text
  pub is_automatic : Bool

-- Where a mail goes: it answers a mail, or it has an address and a subject.
pub data Target : Type 0 where
  to_mail : Text → Target
  to_address : Text → Text → Target

pub record Payload : Type 0 where
  pub text : Text
  pub request_id : Text
  pub is_automatic : Bool
  pub target : Target

unfoldable pub is_text : Text → Bool
unfolding trim
is_text s = not (is_empty (trim s)) && leb (length s) 40000

abbrev pub is_request_char : ℕ → Bool
is_request_char c = is_alphanumeric c || nat_beq c b'_' || nat_beq c b'-'

unfoldable pub is_request_id : Text → Bool
unfolding all_chars is_alphanumeric
is_request_id s = leb 16 (length s) && leb (length s) 100 && all_chars is_request_char s

-- `[^\s<>@]`, and a domain of them with a dot inside.
abbrev pub is_address_char : ℕ → Bool
is_address_char c = not (is_space c) && not (contains (units "<>@") c)

abbrev has_dot_inside : Text → Bool
has_dot_inside [] = false
has_dot_inside (c ∷ s) = contains (take (length s - 1) s) b'.'

abbrev receiver_parts : Text × Option Text → Bool
receiver_parts (before, none) = false
receiver_parts (before, some behind) =
    not (is_empty before)
    && all_chars is_address_char before
    && all_chars is_address_char behind
    && has_dot_inside behind

unfoldable pub is_receiver : Text → Bool
unfolding cut_at all_chars is_space
is_receiver s = leb (length s) 254 && receiver_parts (cut_at b'@' s)

unfoldable pub is_subject : Text → Bool
is_subject s = leb (length s) 1000 && not (any (λ c. nat_beq c 13 || nat_beq c 10) s)

-- A field that is a text and passes its test.
abbrev pub passing : (Text → Bool) → Option Text → Option Text
passing p none = none
passing p (some s) = if p s then some s else none

abbrev pub address_target : Option Text → Option Text → Option Target
address_target none subject = none
address_target (some to) none = none
address_target (some to) (some subject) = some (to_address to subject)

abbrev pub mail_target : Option Text → Option Target
mail_target none = none
mail_target (some id) = some (to_mail id)

unfoldable pub target_of : Action → Input → Option Target
unfolding is_mail_id is_receiver is_subject
target_of reply input = mail_target (passing is_mail_id input.id)
target_of send input =
    address_target (passing is_receiver input.to) (passing is_subject input.subject)

abbrev pub payload_parts : Option Text → Option Text → Bool → Option Target → Option Payload
payload_parts none request_id automatic target = none
payload_parts (some text) none automatic target = none
payload_parts (some text) (some request_id) automatic none = none
payload_parts (some text) (some request_id) automatic (some target) =
    some
      (record { text = text; request_id = request_id; is_automatic = automatic; target = target })

abbrev pub payload_for : Option Action → Input → Option Payload
payload_for none input = none
payload_for (some action) input =
    payload_parts (passing is_text input.text) (passing is_request_id input.request_id)
      input.is_automatic (target_of action input)

unfoldable pub payload_of : Input → Option Payload
unfolding is_text is_request_id target_of
payload_of input = payload_for input.action input

pub record Receipt : Type 0 where
  pub accepted : Bool
  pub id : Option Text
  pub sender : Option Text

-- What is sent to the server, and what the caller gets: an error, or the id and the sender.
abbrev pub receipt_result : Result Receipt → Result (Text × Text)
receipt_result (failed status) = failed status
receipt_result (done r) =
    if r.accepted then done (string r.id 200, string r.sender 320) else failed 502

abbrev pub send_payload :
    Bool
    → (Payload → ℕ)
    → (Payload → Answer Receipt)
    → Option Payload
    → List Payload × Result (Text × Text)
send_payload configured size post none = ([], failed 400)
send_payload configured size post (some p) =
    if ltb 65536 (size p)
    then ([], failed 413)
    else if not configured
    then ([], failed 409)
    else (p ∷ [], receipt_result (request_result (post p)))

-- `send`.
unfoldable pub send_mail :
    Bool → (Payload → ℕ) → (Payload → Answer Receipt) → Input → List Payload × Result (Text × Text)
unfolding request_result payload_of
send_mail configured size post input = send_payload configured size post (payload_of input)
