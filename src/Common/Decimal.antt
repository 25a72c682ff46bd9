-- ===== src/Common/Decimal.antt =====
-- The decimal texts of numbers, as template literals print them and `Number` reads digits.
use Prim.Native.Nat.{ℕ, zero, suc, ◌+◌, ◌-◌, ◌*◌, ◌/◌, ◌%◌, ◌<◌}
use mathlib.Core.Path.{◌≡◌, refl, sym, ap, ◌∙◌}
use mathlib.Core.Bool.{Bool, true, false, ◌&&◌}
use mathlib.Core.Logic.{inl, inr}
use mathlib.Core.List.{[], ◌∷◌}
use native.Mathlib.Omega.{arith}
use open_claw_bot.Common.Tests.{if◌then◌else◌, leb, ltb, Bool-cases}
use open_claw_bot.Common.Texts.{Text}
use open_claw_bot.Common.Lists.{is_empty}

-- The digits of `n` in front of `out`; a number below the fuel is printed whole.
unfoldable pub digits_before : ℕ → ℕ → Text → Text
digits_before zero n out = out
digits_before (suc fuel) n out =
    let rest = digits_before fuel (n / 10) ((48 + n % 10) ∷ out) in
    if ltb n 10 then (48 + n) ∷ out else rest

-- `${n}`.
unfoldable pub decimal : ℕ → Text
unfolding digits_before
decimal n = digits_before (suc n) n []

-- The number that digits spell behind `n`.
unfoldable pub digits_value : ℕ → Text → ℕ
digits_value n [] = n
digits_value n (c ∷ s) = digits_value (n * 10 + (c - 48)) s

abbrev pub is_digit_char : ℕ → Bool
is_digit_char c = leb 48 c && leb c 57

unfoldable pub all_digits : Text → Bool
all_digits [] = true
all_digits (c ∷ s) = is_digit_char c && all_digits s

value-before :
    (fuel n : ℕ) (out : Text)
    → n < fuel
    → digits_value 0 (digits_before fuel n out) ≡ digits_value n out
unfolding digits_before digits_value
value-before zero n out h = elim h [ ]
value-before (suc fuel) n out h = elim (Bool-cases (ltb n 10)) [
  | inl short ↦ rw short (ap (λ m. digits_value m out) (omega arith))
  | inr long ↦ rw long (
      value-before fuel (n / 10) ((48 + n % 10) ∷ out) (ground (arith, long))
      ∙ ap (λ m. digits_value m out) (omega arith))
]

-- A printed number is read back.
pub value-decimal : (n : ℕ) → digits_value 0 (decimal n) ≡ n
unfolding decimal digits_value
value-decimal n = value-before (suc n) n [] (omega arith)

pub decimal-injective : (m n : ℕ) → decimal m ≡ decimal n → m ≡ n
decimal-injective m n e = sym (value-decimal m) ∙ ap (digits_value 0) e ∙ value-decimal n

digits-before :
    (fuel n : ℕ) (out : Text) → all_digits out ≡ true → all_digits (digits_before fuel n out) ≡ true
unfolding digits_before all_digits
digits-before zero n out h = h
digits-before (suc fuel) n out h = elim (Bool-cases (ltb n 10)) [
  | inl short ↦ rw short (rw h (ground (arith, short)))
  | inr long ↦ rw long (digits-before fuel (n / 10) ((48 + n % 10) ∷ out) (rw h (ground arith)))
]

pub digits-decimal : (n : ℕ) → all_digits (decimal n) ≡ true
unfolding decimal all_digits
digits-decimal n = digits-before (suc n) n [] refl

before-ne-nil : (fuel n d : ℕ) (out : Text) → is_empty (digits_before fuel n (d ∷ out)) ≡ false
unfolding digits_before
before-ne-nil zero n d out = refl
before-ne-nil (suc fuel) n d out =
    ground (arith, before-ne-nil fuel (n / 10) (48 + n % 10) (d ∷ out))

pub decimal-ne-nil : (n : ℕ) → is_empty (decimal n) ≡ false
unfolding decimal
decimal-ne-nil n = ground (arith, before-ne-nil n (n / 10) (48 + n % 10) [])
