-- ===== src/Community/MailAuth.antt =====
-- apps/community/mail-auth.mjs: the texts of a mail that the verification reads. Texts and bytes are
-- lists of numbers; `to_lower` stands for the runtime's `toLowerCase`.
pub mod Verify
pub mod Pipeline
pub mod Sound
pub mod Authorized
mod Examples
use mathlib.Core.List.{reverse}
use open_claw_bot.Common.{
  ℕ, ◌+◌, ◌-◌, ◌*◌, Bool, true, false, not, ◌&&◌, ◌||◌, Option, none, some, List, [], ◌∷◌, ◌++◌,
  map, length, take, drop, keep, any, contains, last?, is_empty, if◌then◌else◌, ◌==◌, leb, ltb,
  nat_beq, nat_eq, or_else,
}
use open_claw_bot.Common.Ints.{ℤ, pos, negsuc}
use open_claw_bot.Common.Texts.{Text, units, text_eq, trim, is_space, starts_with}
use open_claw_bot.Community.Usage.{all_chars, is_digit}

abbrev pub max_bytes : ℕ
max_bytes = 10485760

abbrev pub max_headers : ℕ
max_headers = 65536

abbrev pub max_age : ℕ
max_age = 604800000

abbrev pub future_skew : ℕ
future_skew = 300000

abbrev pub required : List Text
required = units "from" ∷ units "subject" ∷ units "date" ∷ units "message-id" ∷ []

abbrev pub mime_headers : List Text
mime_headers = units "content-type" ∷ units "content-transfer-encoding" ∷ units "mime-version" ∷ []

abbrev pub single_headers : List Text
single_headers =
    required ++ mime_headers ++ units "to" ∷ units "in-reply-to" ∷ units "references" ∷ []

-- The characters up to 31, and 127.
unfoldable pub is_control : ℕ → Bool
is_control c = leb c 31 || nat_beq c 127

unfoldable pub clean : Option Text → ℕ → Text
unfolding is_control
clean none high = []
clean (some s) high = take high (map (λ c. if is_control c then 32 else c) s)

-- `/i`: capital letters of ASCII as small ones.
unfoldable pub ascii_lower : ℕ → ℕ
ascii_lower c = if leb b'A' c && leb c b'Z' then c + 32 else c

abbrev is_letter_or_digit : ℕ → Bool
is_letter_or_digit c = (leb b'a' c && leb c b'z') || (leb b'0' c && leb c b'9')

-- The characters before the `@` of an address, and those behind it.
unfoldable pub is_local_char : ℕ → Bool
is_local_char c = is_letter_or_digit c || contains (units ".!#$%&'*+/=?^_`{|}~-") c

unfoldable pub is_domain_char : ℕ → Bool
is_domain_char c = is_letter_or_digit c || nat_beq c b'.' || nat_beq c b'-'

-- The text before the first `@`, and the text behind it if there is one.
unfoldable pub cut_at : ℕ → Text → Text × Option Text
cut_at mark [] = ([], none)
cut_at mark (c ∷ s) =
    let rest = cut_at mark s in if nat_beq c mark then ([], some s) else (c ∷ rest.0, rest.1)

abbrev ends_well : Option ℕ → Bool
ends_well none = false
ends_well (some c) = is_letter_or_digit c

abbrev is_domain : Text → Bool
is_domain [] = false
is_domain (c ∷ s) =
    is_letter_or_digit c && all_chars is_domain_char (c ∷ s) && ends_well (last? (c ∷ s))

abbrev address_parts : Text × Option Text → Bool
address_parts (before, none) = false
address_parts (before, some behind) =
    not (is_empty before) && all_chars is_local_char before && is_domain behind

unfoldable pub is_address : Text → Bool
unfolding ascii_lower cut_at all_chars is_local_char is_domain_char
is_address s = address_parts (cut_at b'@' (map ascii_lower s))

-- A message id: one of `<...>` with 1 to 500 characters that may stand in it.
unfoldable pub is_id_char : ℕ → Bool
unfolding is_control is_space
is_id_char c =
    not (nat_beq c b'<') && not (nat_beq c b'>') && not (is_space c) && not (is_control c)

-- The ids of a text; `opened` holds the characters behind a `<` that is still open, reversed.
unfoldable pub ids_from : Option Text → Text → List Text
unfolding is_id_char
ids_from opened [] = []
ids_from opened (c ∷ s) =
    let reopened = ids_from (some []) s in
    let outside = ids_from none s in
    elim opened [
      | none ↦ if nat_beq c b'<' then reopened else outside
      | some inside ↦
          let longer = ids_from (some (c ∷ inside)) s in
          if nat_beq c b'<'
          then reopened
          else if nat_beq c b'>'
          then (if is_empty inside then outside else (b'<' ∷ reverse inside ++ b'>' ∷ []) ∷ outside)
          else if is_id_char c && ltb (length inside) 500
          then longer
          else outside
    ]

unfoldable pub reference_ids : Option Text → List Text
unfolding ids_from
reference_ids references = ids_from none (or_else references [])

abbrev is_one : Text → List Text → Bool
is_one s [] = false
is_one s (id ∷ []) = id == s
is_one s (id ∷ next ∷ rest) = false

unfoldable pub message_id : Option Text → Text
unfolding ids_from trim
message_id none = []
message_id (some s) = if is_one (trim s) (ids_from none (trim s)) then trim s else []

-- The parts of a text between the marks, as `split` gives them.
unfoldable pub split_on : ℕ → Text → List Text
split_on mark [] = [] ∷ []
split_on mark (c ∷ s) = elim (split_on mark s) [
  | [] ↦ [] ∷ []
  | part ∷ parts ↦ if nat_beq c mark then [] ∷ part ∷ parts else (c ∷ part) ∷ parts
]

-- The text behind the last `@`.
unfoldable pub domain_of : Text → Text
unfolding split_on
domain_of address = or_else (last? (split_on b'@' address)) []

unfoldable pub join_spaces : List Text → Text
join_spaces [] = []
join_spaces (s ∷ []) = s
join_spaces (s ∷ next ∷ rest) = s ++ b' ' ∷ join_spaces (next ∷ rest)

-- The index of the first place where `mark` stands.
unfoldable pub index_of : Text → Text → Option ℕ
unfolding starts_with
index_of mark [] = if is_empty mark then some 0 else none
index_of mark (c ∷ s) =
    let later = index_of mark s in
    if starts_with (c ∷ s) mark
    then some 0
    else (elim later [ none ↦ none | some i ↦ some (i + 1) ])

-- Where the headers end: at the first blank line of either kind, the one with carriage returns first.
unfoldable pub header_end : Text → Option ℕ
unfolding index_of
header_end bytes = elim (index_of (13 ∷ 10 ∷ 13 ∷ 10 ∷ []) bytes) [
  | some i ↦ some i
  | none ↦ index_of (10 ∷ 10 ∷ []) bytes
]

module _ (to_lower : Text → Text) where
  unfoldable pub normalize_address : Option Text → Text
  unfolding is_address trim
  normalize_address none = []
  normalize_address (some s) =
      if leb (length s) 254 && is_address (trim s) then to_lower (trim s) else []

-- Is a time within a week before and five minutes behind the clock?
unfoldable pub in_window : ℕ → ℤ → Bool
in_window now (pos sent) = leb now (sent + max_age) && leb sent (now + future_skew)
in_window now (negsuc n) = leb (now + n + 1) max_age
