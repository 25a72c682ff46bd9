-- ===== src/Community/MailAuth/Examples.antt =====
-- One signed mail for apps/community/mail-auth.mjs, with libraries that know only this mail.
use open_claw_bot.Common.{◌≡◌, refl, true, false, none, some, [], ◌∷◌}
use open_claw_bot.Common.Ints.{pos}
use open_claw_bot.Common.Texts.{
  Text, units, text_eq, text_beq, trim, trim_start, is_space, starts_with,
}
use open_claw_bot.Community.Usage.{all_chars}
use open_claw_bot.Community.MailAuth.{
  is_control, clean, ascii_lower, is_local_char, is_domain_char, cut_at, is_address, is_id_char,
  ids_from, reference_ids, message_id, split_on, domain_of, join_spaces, index_of, header_end,
  normalize_address, in_window,
}
use open_claw_bot.Community.MailAuth.Verify.{
  Parsed, Signature, Libraries, needed, is_automated, is_mailing_list, is_report_type,
  is_delivery_report, has_bad_headers, is_from, is_to, is_pass_of, is_full, is_verified_from,
  accept, check_signatures,
}
use open_claw_bot.Community.MailAuth.Pipeline.{check_thread, check_sender, check_bytes, verify_mail}

abbrev signature : Signature
signature = record {
  is_pass = true;
  signing_domain = some (units "b.c");
  is_timely = true;
  is_testing = false;
  is_limited = some false;
  body_length = 2;
  body_length_total = 2;
  signed_names = some (units "from: subject:date:message-id");
}

abbrev mail : Parsed
mail = record {
  headers =
      (units "from", units "a@b.c")
      ∷ (units "subject", units "hi")
      ∷ (units "date", units "today")
      ∷ (units "message-id", units "<1>")
      ∷ (units "dkim-signature", units "v=1")
      ∷ [];
  subject = some (units "hi");
  message_id = some (units "<1>");
  in_reply_to = some (units "<0>");
  references = some (units "<0> <x");
}

abbrev signed_by : Signature → Libraries
signed_by sig = record {
  to_lower = λ s. s;
  parse_mime = λ bytes. some mail;
  parse_addresses = λ s. record { is_group = false; address = some s } ∷ [];
  parse_date = λ s. some (pos 1000);
  print_date = λ t. units "1970";
  verify_dkim = λ bytes now. some (record {
    from_fields = 1;
    from_syntax = units "valid";
    header_from = units "a@b.c" ∷ [];
    results = sig ∷ [];
  });
}

abbrev libraries : Libraries
libraries = signed_by signature

abbrev bytes : Text
bytes = 104 ∷ 10 ∷ 10 ∷ 104 ∷ []

-- The thread is unsigned, so it is left out; a limited body is refused, as is another domain.
verify_runs :
    ((verify_mail libraries (some bytes) (some (units "a@b.c")) none (some 2000)).in_reply_to ≡ [])
    × ((verify_mail
          (signed_by (record signature { body_length_total = 3 }))
          (some bytes)
          (some (units "a@b.c"))
          none
          (some 2000)).reason
        ≡ units "unverified_full_body")
    × ((verify_mail
          (signed_by (record signature { signing_domain = some (units "x.y") }))
          (some bytes)
          (some (units "a@b.c"))
          none
          (some 2000)).reason
        ≡ units "unverified_dkim")
    × ((verify_mail libraries (some bytes) (some (units "a@b.c")) none (some 700000000)).reason
        ≡ units "invalid_date")
unfolding verify_mail check_bytes check_sender check_thread check_signatures accept
    normalize_address is_address ascii_lower cut_at all_chars is_local_char is_domain_char
    header_end index_of starts_with has_bad_headers is_automated is_mailing_list is_report_type
    is_delivery_report is_from is_to is_pass_of is_full is_verified_from needed clean message_id
    ids_from is_id_char is_control is_space trim trim_start reference_ids split_on domain_of
    join_spaces in_window text_beq
verify_runs = (refl, refl, refl, refl)
