-- ===== src/Community/Mailbox/Read.antt =====
-- apps/community/mailbox.mjs: the reading of one mail, for the caller (read) and for the check of its
-- sender (raw).
use open_claw_bot.Common.{
  ℕ, Bool, true, false, Option, none, some, List, [], map, take, if◌then◌else◌, ◌==◌, nat_eq,
}
use open_claw_bot.Common.Texts.{Text, text_eq}
use open_claw_bot.Community.Mailbox.{
  Result, failed, done, is_mail_id, string, RawSummary, Summary, summary, Answer, request_result,
}

pub record RawAttachment : Type 0 where
  pub filename : Option Text
  pub mime_type : Option Text

pub record Attachment : Type 0 where
  pub filename : Text
  pub mime_type : Text

-- The data of the server: `attachments` is `none` if it is no array.
pub record RawMail : Type 0 where
  pub head : RawSummary
  pub to : Option Text
  pub text : Option Text
  pub attachments : Option (List RawAttachment)

pub record Mail : Type 0 where
  pub head : Summary
  pub to : Text
  pub text : Text
  pub attachments : List Attachment

unfoldable pub attachment : RawAttachment → Attachment
attachment raw = record { filename = string raw.filename 255; mime_type = string raw.mime_type 120 }

unfoldable pub attachments_of : Option (List RawAttachment) → List Attachment
attachments_of none = []
attachments_of (some raws) = map attachment (take 100 raws)

unfoldable pub mail_of : RawMail → Mail
mail_of raw = record {
  head = summary raw.head;
  to = string raw.to 320;
  text = string raw.text 200000;
  attachments = attachments_of raw.attachments;
}

is_same_id : Option Text → Text → Bool
is_same_id none id = false
is_same_id (some got) id = got == id

-- `request`, whose first line is the check of the configuration.
unfoldable pub requested : {A : Type 0} → Bool → Answer A → Result A
requested true answer = request_result answer
requested false answer = failed 409

unfoldable pub checked : Text → Result RawMail → Result Mail
unfolding is_same_id
checked id (failed status) = failed status
checked id (done raw) = if is_same_id raw.head.id id then done (mail_of raw) else failed 502

-- `read`; `id` is `none` if it is no text.
unfoldable pub read_mail : Bool → Option Text → (Text → Answer RawMail) → Result Mail
read_mail configured none server = failed 400
read_mail configured (some id) server =
    if is_mail_id id then checked id (requested configured (server id)) else failed 400

-- `raw`, with bytes as numbers.
unfoldable pub raw_mail : Bool → Option Text → (Text → Answer (List ℕ)) → Result (List ℕ)
raw_mail configured none server = failed 400
raw_mail configured (some id) server =
    if is_mail_id id then requested configured (server id) else failed 400
