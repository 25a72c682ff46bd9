-- ===== src/Community/MailAuth/Verify.antt =====
-- The guards of `verifyMail` in apps/community/mail-auth.mjs. The MIME parser, the address parser,
-- the DKIM check (with its DNS lookups and its timeout) and the runtime's dates are parameters; where
-- they throw they give `none`.
use open_claw_bot.Common.{
  ℕ, Bool, true, false, not, ◌&&◌, ◌||◌, Option, none, some, List, [], ◌∷◌, ◌++◌, map, length, take,
  drop, keep, any, contains, is_empty, if◌then◌else◌, ◌==◌, leb, ltb, nat_beq, or_else, get_elem?,
}
use open_claw_bot.Common.Ints.{ℤ}
use open_claw_bot.Common.Texts.{Text, units, text_eq, trim, starts_with}
use open_claw_bot.Community.MailAuth.{
  required, mime_headers, single_headers, ascii_lower, message_id, split_on, domain_of, join_spaces,
  normalize_address,
}

pub record MailResult : Type 0 where
  pub verified : Bool
  pub reason : Text
  pub sender : Text
  pub message_id : Text
  pub in_reply_to : Text
  pub references : Text
  pub subject : Text
  pub date : Text

pub record Parsed : Type 0 where
  pub headers : List (Text × Text)
  pub subject : Option Text
  pub message_id : Option Text
  pub in_reply_to : Option Text
  pub references : Option Text

pub record Address : Type 0 where
  pub is_group : Bool
  pub address : Option Text

-- One DKIM result: `is_timely` is false only where the check says so.
pub record Signature : Type 0 where
  pub is_pass : Bool
  pub signing_domain : Option Text
  pub is_timely : Bool
  pub is_testing : Bool
  pub is_limited : Option Bool
  pub body_length : ℕ
  pub body_length_total : ℕ
  pub signed_names : Option Text

pub record Verification : Type 0 where
  pub from_fields : ℕ
  pub from_syntax : Text
  pub header_from : List Text
  pub results : List Signature

pub record Libraries : Type 0 where
  pub to_lower : Text → Text
  pub parse_mime : Text → Option Parsed
  pub parse_addresses : Text → List Address
  pub parse_date : Text → Option ℤ
  pub print_date : ℤ → Text
  pub verify_dkim : Text → ℕ → Option Verification

abbrev pub base : MailResult
base = record {
  verified = false;
  reason = units "invalid_message";
  sender = [];
  message_id = [];
  in_reply_to = [];
  references = [];
  subject = [];
  date = [];
}

abbrev pub reject : MailResult → Text → MailResult
reject r reason = record r { verified = false; reason = reason }

abbrev pub values_of : List (Text × Text) → Text → List Text
values_of headers name = map (λ h. h.1) (keep (λ h. h.0 == name) headers)

-- The headers that the signature must cover.
unfoldable pub needed : Parsed → Bool → List Text
needed p with_recipient =
    required
    ++ keep (λ name. not (is_empty (values_of p.headers name))) mime_headers
    ++ (if with_recipient then units "to" ∷ [] else [])

abbrev pub all_in : List Text → List Text → Bool
all_in signed [] = true
all_in signed (name ∷ names) = contains signed name && all_in signed names

abbrev pub first_signature : (Signature → Bool) → List Signature → Option Signature
first_signature p [] = none
first_signature p (x ∷ xs) = if p x then some x else first_signature p xs

module _ (l : Libraries) where
  -- The three tests for mail that no person has sent.
  unfoldable pub is_automated : Parsed → Bool
  unfolding split_on trim
  is_automated p =
      let first_part : Text → Text = λ value. or_else (get_elem? (split_on b';' value) 0) [] in
      any (λ value. not (l.to_lower (trim (first_part value)) == units "no"))
        (values_of p.headers (units "auto-submitted"))
      || not (is_empty (values_of p.headers (units "x-auto-response-suppress")))

  unfoldable pub is_mailing_list : Parsed → Bool
  unfolding trim
  is_mailing_list p =
      let bulk : List Text = units "bulk" ∷ units "junk" ∷ units "list" ∷ [] in
      not (is_empty (values_of p.headers (units "list-id")))
      || any (λ value. contains bulk (l.to_lower (trim value)))
          (values_of p.headers (units "precedence"))

  abbrev is_pattern_word : ℕ → Bool
  is_pattern_word c = (leb b'a' c && leb c b'z') || (leb b'0' c && leb c b'9') || nat_beq c b'_'

  abbrev starts_word : Text → Bool
  starts_word [] = false
  starts_word (c ∷ s) = is_pattern_word c

  unfoldable pub is_report_type : Text → Bool
  unfolding trim ascii_lower starts_with
  is_report_type value =
      let lower = map ascii_lower (trim value) in
      let report = units "multipart/report" in
      starts_with lower report && not (starts_word (drop (length report) lower))

  unfoldable pub is_delivery_report : Parsed → Bool
  unfolding is_report_type
  is_delivery_report p =
      any (λ value. trim value == units "<>") (values_of p.headers (units "return-path"))
      || any is_report_type (values_of p.headers (units "content-type"))

  unfoldable pub has_bad_headers : Parsed → Bool
  has_bad_headers p =
      any (λ name. not (nat_beq (length (values_of p.headers name)) 1)) required
      || any (λ name. ltb 1 (length (values_of p.headers name))) single_headers

  -- Is the list of addresses the expected one alone?
  abbrev is_only : Text → List Address → Bool
  is_only expected [] = false
  is_only expected (a ∷ []) = not a.is_group && normalize_address l.to_lower a.address == expected
  is_only expected (a ∷ b ∷ rest) = false

  unfoldable pub is_from : Text → Parsed → Bool
  unfolding normalize_address
  is_from expected p =
      is_only expected
        (l.parse_addresses (or_else (get_elem? (values_of p.headers (units "from")) 0) []))

  unfoldable pub is_to : Text → Parsed → Bool
  unfolding normalize_address
  is_to recipient p =
      any (λ a. not a.is_group && normalize_address l.to_lower a.address == recipient)
        (l.parse_addresses (or_else (get_elem? (values_of p.headers (units "to")) 0) []))

  abbrev pub signed_set : Signature → List Text
  signed_set sig = elim sig.signed_names [
    | none ↦ []
    | some names ↦ map trim (split_on b':' (l.to_lower names))
  ]

  unfoldable pub is_pass_of : Text → Signature → Bool
  is_pass_of domain sig =
      sig.is_pass
      && (elim sig.signing_domain [ none ↦ false | some d ↦ l.to_lower d == domain ])
      && sig.is_timely
      && not sig.is_testing

  unfoldable pub is_full : Signature → Bool
  is_full sig = not (or_else sig.is_limited true) && nat_beq sig.body_length sig.body_length_total

  abbrev only_from : Text → List Text → Bool
  only_from expected [] = false
  only_from expected (a ∷ []) = normalize_address l.to_lower (some a) == expected
  only_from expected (a ∷ b ∷ rest) = false

  unfoldable pub is_verified_from : Text → Verification → Bool
  unfolding normalize_address
  is_verified_from expected v =
      nat_beq v.from_fields 1 && v.from_syntax == units "valid" && only_from expected v.header_from

  -- The end: what the signature does not cover must not select a thread.
  unfoldable pub accept : Parsed → List Text → Signature → MailResult → MailResult
  unfolding message_id join_spaces
  accept p ids sig r =
      let signed = signed_set sig in
      record r {
        verified = true;
        reason = units "verified";
        in_reply_to =
            if contains signed (units "in-reply-to") then message_id p.in_reply_to else [];
        references =
            if contains signed (units "references") then take 8192 (join_spaces ids) else [];
      }

  abbrev pub accept_signature : Parsed → List Text → Option Signature → MailResult → MailResult
  accept_signature p ids none r = reject r (units "unverified_signed_headers")
  accept_signature p ids (some sig) r = accept p ids sig r

  unfoldable pub check_signatures :
      Text → Bool → Parsed → List Text → Option Verification → MailResult → MailResult
  unfolding is_verified_from domain_of is_pass_of is_full needed accept
  check_signatures expected with_recipient p ids none r = reject r (units "unverified_dkim")
  check_signatures expected with_recipient p ids (some v) r =
      let pass = keep (is_pass_of (domain_of expected)) v.results in
      let full = keep is_full pass in
      let covers : Signature → Bool = λ sig. all_in (signed_set sig) (needed p with_recipient) in
      if not (is_verified_from expected v)
      then reject r (units "invalid_sender")
      else if is_empty pass
      then reject r (units "unverified_dkim")
      else if is_empty full
      then reject r (units "unverified_full_body")
      else accept_signature p ids (first_signature covers full) r
