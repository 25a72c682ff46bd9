-- ===== src/Community/Mailbox/Examples.antt =====
-- A mail and a list of apps/community/mailbox.mjs.
use open_claw_bot.Common.{◌≡◌, refl, true, false, none, some, [], ◌∷◌}
use open_claw_bot.Common.Texts.{Text, text_beq, units, text_eq, trim, trim_start, is_space}
use open_claw_bot.Community.Usage.{all_chars, is_digit}
use open_claw_bot.Community.Usage.Events.{is_alphanumeric}
use open_claw_bot.Community.MailAuth.{cut_at}
use open_claw_bot.Community.Mailbox.{
  failed, done, Answer, refused, answered, request_result, is_mail_id, list_mails, send, Input,
  Payload, is_text, is_request_id, is_receiver, is_subject, target_of, payload_of, Receipt,
  send_mail,
}
use open_claw_bot.Community.Mailbox.Read.{RawMail, mail_of, requested, checked, read_mail, raw_mail}
use open_claw_bot.Community.Mailbox.Sent.{IsSettled, send_mail-IsSettled}

abbrev input : Input
input = record {
  action = some send;
  id = none;
  to = some (units "a@b.c");
  subject = some (units "hi");
  text = some (units "text");
  request_id = some (units "0123456789abcdef");
  is_automatic = false;
}

abbrev accepts : Payload → Answer Receipt
accepts p = answered (record { accepted = true; id = some (units "7"); sender = none })

send_runs :
    ((send_mail true (λ p. 90) accepts input).1 ≡ done (units "7", []))
    × ((send_mail true (λ p. 90) (λ p. refused 403) input).1 ≡ failed 409)
    × ((send_mail true (λ p. 90) accepts (record input { to = some (units "a@bc") }))
        ≡ ([], failed 400))
    × ((send_mail true (λ p. 90) accepts (record input { subject = some (10 ∷ []) }))
        ≡ ([], failed 400))
unfolding send_mail payload_of target_of request_result is_text is_request_id is_receiver is_subject
    is_mail_id cut_at all_chars is_alphanumeric is_digit is_space trim trim_start
send_runs = (refl, refl, refl, refl)

send_mail-IsSettled_example :
    IsSettled true (λ p. 90) accepts input (send_mail true (λ p. 90) accepts input)
send_mail-IsSettled_example = send_mail-IsSettled true (λ p. 90) accepts input

-- A list without messages is an error of the server, and a wrong place one of the caller.
list_runs :
    (list_mails true none (answered (record { address = none; messages = none; cursor = none }))
      ≡ failed 502)
    × (list_mails true
          (some (some (3 ∷ [])))
          (answered (record { address = none; messages = some []; cursor = none }))
        ≡ failed 400)
unfolding list_mails request_result is_mail_id
list_runs = (refl, refl)

abbrev mail_id : Text
mail_id = units "aaaaaaaaaaaaaaaaaaaaaaaaaaaaaaaaaaaaaaaaaaaaaaaaaaaaaaaaaaaaaaaa"

abbrev raw : RawMail
raw = record {
  head = record {
    id = some mail_id;
    sender = none;
    subject = some (units "s");
    received_at = none;
  };
  to = none;
  text = some (units "t");
  attachments = some (record { filename = some (units "f"); mime_type = none } ∷ []);
}

read_runs :
    (read_mail true (some mail_id) (λ id. answered raw) ≡ done (mail_of raw))
    × (read_mail true (some (units "a")) (λ id. answered raw) ≡ failed 400)
    × (read_mail false (some mail_id) (λ id. answered raw) ≡ failed 409)
    × (raw_mail true (some mail_id) (λ id. refused 404) ≡ failed 404)
unfolding read_mail raw_mail checked requested request_result is_mail_id all_chars text_beq
read_runs = (refl, refl, refl, refl)
