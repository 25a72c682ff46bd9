-- ===== src/Community/MailAuth/Pipeline.antt =====
-- The order of the guards of `verifyMail` in apps/community/mail-auth.mjs. Each stage is the rest of
-- the function from a point on, with the result as far as it is filled in there.
use open_claw_bot.Common.{
  ℕ, Bool, true, not, ◌||◌, Option, none, some, [], length, is_empty, if◌then◌else◌, ltb, or_else,
  is_some, get_elem?,
}
use open_claw_bot.Common.Ints.{ℤ}
use open_claw_bot.Common.Texts.{Text, units, text_eq}
use open_claw_bot.Community.MailAuth.{
  max_bytes, max_headers, clean, reference_ids, message_id, header_end, normalize_address,
  in_window,
}
use open_claw_bot.Community.MailAuth.Verify.{
  MailResult, Parsed, Libraries, base, reject, values_of, has_bad_headers, is_automated,
  is_mailing_list, is_delivery_report, is_from, is_to, check_signatures,
}

-- A guard with an early return.
abbrev pub guard : Bool → MailResult → Text → MailResult → MailResult
guard bad r reason rest = if bad then reject r reason else rest

module _ (l : Libraries) (bytes : Text) (now : ℕ) (expected : Text) (recipient : Option Text) where
  abbrev pub is_addressed : Parsed → Bool
  is_addressed p = elim recipient [ none ↦ true | some to ↦ is_to l to p ]

  -- From the recipient on.
  unfoldable pub check_thread : Parsed → MailResult → MailResult
  unfolding is_to reference_ids check_signatures
  check_thread p r =
      let ids = reference_ids p.references in
      guard (not (is_addressed p)) r (units "invalid_recipient") (
        guard (ltb 100 (length ids)) r (units "skipped_thread_limit") (
          guard (is_empty (values_of p.headers (units "dkim-signature"))) r
            (units "unverified_dkim")
            (check_signatures l expected (is_some recipient) p ids (l.verify_dkim bytes now) r)))

  abbrev pub check_sent : Parsed → MailResult → Option ℤ → MailResult
  check_sent p r none = reject r (units "invalid_date")
  check_sent p r (some sent) =
      guard (not (in_window now sent)) r (units "invalid_date")
        (check_thread p (record r { date = l.print_date sent }))

  -- From the sender on.
  unfoldable pub check_sender : Parsed → MailResult
  unfolding is_from clean message_id in_window check_thread
  check_sender p =
      let id = message_id p.message_id in
      let r : MailResult = record base {
        sender = expected;
        subject = clean p.subject 1000;
        message_id = id;
      } in
      let sent = l.parse_date (or_else (get_elem? (values_of p.headers (units "date")) 0) []) in
      guard (not (is_from l expected p)) base (units "invalid_sender")
        (guard (is_empty id) r (units "invalid_message_id") (check_sent p r sent))

  -- From the headers on.
  abbrev pub check_parsed : Option Parsed → MailResult
  check_parsed none = reject base (units "invalid_message")
  check_parsed (some p) = guard (has_bad_headers l p) base (units "invalid_headers") (
      guard (ltb 8 (length (values_of p.headers (units "dkim-signature")))) base
        (units "invalid_signature_count")
        (guard (is_automated l p) base (units "skipped_automated") (
          guard (is_mailing_list l p) base (units "skipped_mailing_list") (
            guard (is_delivery_report l p) base (units "skipped_delivery_report")
              (check_sender p)))))

  -- From the end of the headers on.
  abbrev pub check_end : Option ℕ → MailResult
  check_end none = reject base (units "invalid_headers")
  check_end (some end) =
      guard (ltb max_headers end) base (units "invalid_headers") (check_parsed (l.parse_mime bytes))

  -- From the size of the message on.
  unfoldable pub check_bytes : MailResult
  unfolding header_end has_bad_headers is_automated is_mailing_list is_delivery_report check_sender
  check_bytes =
      guard (is_empty bytes || ltb max_bytes (length bytes)) base (units "invalid_message_size")
        (check_end (header_end bytes))

-- From the clock on.
abbrev pub check_raw : Libraries → Text → Option Text → Option ℕ → Option Text → MailResult
check_raw l expected recipient none raw = reject base (units "invalid_clock")
check_raw l expected recipient (some now) none = reject base (units "invalid_message")
check_raw l expected recipient (some now) (some bytes) = check_bytes l bytes now expected recipient

abbrev pub recipient_of : Libraries → Option (Option Text) → Option Text
recipient_of l none = none
recipient_of l (some to) = some (normalize_address l.to_lower to)

-- What the caller has given as no text, no bytes or no time is `none`; an expected recipient that
-- is left out is `none` as well.
unfoldable pub verify_mail :
    Libraries → Option Text → Option Text → Option (Option Text) → Option ℕ → MailResult
unfolding normalize_address check_bytes
verify_mail l raw expected_from expected_to now =
    let expected = normalize_address l.to_lower expected_from in
    let recipient = recipient_of l expected_to in
    guard (is_empty expected) base (units "invalid_expected_sender") (
      guard (is_empty (or_else recipient (units "-"))) base (units "invalid_expected_recipient")
        (check_raw l expected recipient now raw))
