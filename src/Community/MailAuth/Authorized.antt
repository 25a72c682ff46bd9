-- ===== src/Community/MailAuth/Authorized.antt =====
-- A verified mail of apps/community/mail-auth.mjs, from the first guard to the last.
use open_claw_bot.Common.{ℕ, ◌≡◌, false, Option, some}
use open_claw_bot.Common.Texts.{Text, text_eq}
use open_claw_bot.Community.MailAuth.{clean, message_id}
use open_claw_bot.Community.MailAuth.Verify.{
  MailResult, Parsed, Libraries, base, has_bad_headers, is_automated, is_mailing_list,
  is_delivery_report,
}
use open_claw_bot.Community.MailAuth.Sound.{IsAuthorized}

module _ (l : Libraries) (bytes : Text) (now : ℕ) (expected : Text) (recipient : Option Text)
    (p : Parsed) (well_formed : has_bad_headers l p ≡ false)
    (not_automated : is_automated l p ≡ false) (no_list : is_mailing_list l p ≡ false)
    (no_report : is_delivery_report l p ≡ false) where
  abbrev filled : MailResult
  filled = record base {
    sender = expected;
    subject = clean p.subject 1000;
    message_id = message_id p.message_id;
  }

-- Some parsed mail that a result vouches for.
abbrev IsParsed : Libraries → Text → ℕ → Text → Option Text → Option Parsed → MailResult → Type 0
IsParsed l bytes now expected recipient o result =
    (p : Parsed) × (o ≡ some p) × IsAuthorized l bytes now expected recipient p result

-- A verified result: the clock and the bytes were given, the sender was expected, and the mail that
-- the parser reads in these bytes is authorized.
pub record IsVouched (l : Libraries) (raw : Option Text) (now : Option ℕ) (expected : Text)
    (recipient : Option Text) (result : MailResult) : Type 0 where
  pub bytes : Text
  pub given : raw ≡ some bytes
  pub time : ℕ
  pub timed : now ≡ some time
  pub mail : Parsed
  pub parsed : l.parse_mime bytes ≡ some mail
  pub authorized : IsAuthorized l bytes time expected recipient mail result
