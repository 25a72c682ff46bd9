-- ===== src/Community/Usage.antt =====
-- apps/community/usage.mjs: what the app may keep of an API response, and the totals of a room. The
-- two tables are insertion-ordered maps; `is_date` stands for `Number.isFinite(Date.parse(text))`.
pub mod Events
pub mod Store
pub mod Bounds
pub mod Totals
mod Examples
use open_claw_bot.Common.{
  ℕ, ◌+◌, ◌-◌, ◌*◌, Bool, true, false, not, ◌&&◌, ◌||◌, Option, none, some, List, [], ◌∷◌, ◌++◌,
  map, length, take, drop, is_empty, if◌then◌else◌, ◌==◌, leb, ltb, nat_beq, is_some, or_else,
}
use open_claw_bot.Common.Ints.{ℤ, pos, negsuc}
use open_claw_bot.Common.Maps.{Dict, get, set}
use open_claw_bot.Common.Texts.{Text, units, text_eq, trim}

abbrev pub max_count : ℕ
max_count = 1000000000000

-- A value of the source's language, as far as this file tells values apart: `other` stands for
-- what is neither text nor a whole number.
pub data Value : Type 0 where
  text : Text → Value
  integer : ℤ → Value
  other : Value

-- The whole numbers from `low` to `high`; `Number.isSafeInteger` asks for less than 2 ^ 53.
unfoldable pub natural_within : ℕ → ℕ → Value → Option ℕ
natural_within low high (text s) = none
natural_within low high (integer (negsuc n)) = none
natural_within low high (integer (pos n)) =
    if leb low n && leb n high && ltb n 9007199254740992 then some n else none
natural_within low high other = none

unfoldable pub count : Value → Option ℕ
unfolding natural_within
count v = natural_within 0 max_count v

unfoldable pub is_digit : ℕ → Bool
is_digit c = leb b'0' c && leb c b'9'

unfoldable pub all_chars : (ℕ → Bool) → Text → Bool
all_chars p [] = true
all_chars p (c ∷ s) = p c && all_chars p s

-- `\d{1,n}` on a whole text.
unfoldable pub some_digits : ℕ → Text → Bool
unfolding is_digit all_chars
some_digits n s = leb 1 (length s) && leb (length s) n && all_chars is_digit s

-- The number that a text of digits writes.
unfoldable pub number_from : ℕ → Text → ℕ
number_from n [] = n
number_from n (c ∷ s) = number_from (n * 10 + (c - b'0')) s

unfoldable pub header_count : Option Text → Option ℕ
unfolding some_digits number_from count trim
header_count none = none
header_count (some s) =
    if some_digits 13 (trim s) then count (integer (pos (number_from 0 (trim s)))) else none

-- The expression for durations such as `2m59.56s`, as an automaton.
pub data Duration : Type 0 where
  start whole point fraction minutes unit refused : Duration

unfoldable pub after_digits : ℕ → Duration
after_digits c =
    if nat_beq c b'm'
    then minutes
    else if nat_beq c b's' || nat_beq c b'h' || nat_beq c b'd'
    then unit
    else refused

unfoldable pub duration_step : Duration → ℕ → Duration
unfolding is_digit after_digits
duration_step start c = if is_digit c then whole else refused
duration_step whole c =
    if is_digit c then whole else if nat_beq c b'.' then point else after_digits c
duration_step point c = if is_digit c then fraction else refused
duration_step fraction c = if is_digit c then fraction else after_digits c
duration_step minutes c = if is_digit c then whole else if nat_beq c b's' then unit else refused
duration_step unit c = if is_digit c then whole else refused
duration_step refused c = refused

unfoldable pub is_duration_from : Duration → Text → Bool
unfolding duration_step
is_duration_from unit [] = true
is_duration_from minutes [] = true
is_duration_from start [] = false
is_duration_from whole [] = false
is_duration_from point [] = false
is_duration_from fraction [] = false
is_duration_from refused [] = false
is_duration_from d (c ∷ s) = is_duration_from (duration_step d c) s

-- The text before the first `c`, and the text behind it if there is one.
unfoldable pub split_at : ℕ → Text → Text × Option Text
split_at c [] = ([], none)
split_at c (x ∷ s) =
    let rest = split_at c s in if nat_beq x c then ([], some s) else (x ∷ rest.0, rest.1)

-- `\d{1,13}(?:\.\d{1,6})?`.
abbrev decimal_parts : Text × Option Text → Bool
decimal_parts (s, none) = some_digits 13 s
decimal_parts (s, some f) = some_digits 13 s && some_digits 6 f

unfoldable pub is_decimal : Text → Bool
unfolding split_at some_digits
is_decimal s = decimal_parts (split_at b'.' s)

-- A text of the shape `pattern`, where `0` stands for any digit.
unfoldable pub has_shape : Text → Text → Bool
unfolding is_digit
has_shape [] [] = true
has_shape [] (c ∷ s) = false
has_shape (p ∷ ps) [] = false
has_shape (p ∷ ps) (c ∷ s) = (if nat_beq p b'0' then is_digit c else nat_beq c p) && has_shape ps s

unfoldable pub is_iso_time : Text → Bool
unfolding has_shape
is_iso_time s =
    let seconds = units "0000-00-00T00:00:00" in
    has_shape (seconds ++ units "Z") s
    || has_shape (seconds ++ units ".0Z") s
    || has_shape (seconds ++ units ".00Z") s
    || has_shape (seconds ++ units ".000Z") s

unfoldable pub reset_value : (Text → Bool) → Value → Option Text
unfolding is_duration_from is_decimal is_iso_time trim
reset_value is_date (text raw) =
    let s = trim raw in
    if ltb 64 (length s)
    then none
    else if is_duration_from start s || is_decimal s || (is_iso_time s && is_date s)
    then some s
    else none
reset_value is_date (integer n) = none
reset_value is_date other = none
