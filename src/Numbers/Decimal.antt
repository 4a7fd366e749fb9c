-- ===== src/Numbers/Decimal.antt =====
-- `parse_unsigned` reads back what is printed in decimal, and what else it takes.
use native.Mathlib.Nat.{pow-suc}
use okay_hermes_realtime.Base.{
  ℕ, zero, suc, ◌+◌, ◌-◌, ◌*◌, ◌/◌, ◌%◌, ◌^◌, tests, ◌≤◌, ◌<◌, ◌≡◌, refl, ap, ◌∙◌, Bool, true,
  false, some, [], ◌∷◌, ltb, arith, if◌then◌else◌, Bool-cases, inl, inr, lt→ltb,
}
use okay_hermes_realtime.Base.Bytes.{Bytes}
use okay_hermes_realtime.Numbers.{
  ulong_mod, uint32_max, is_digit, skip_spaces, read_digits, convert_digits, convert_signed,
  strtoul, parse_unsigned, negated,
}

-- `printf("%u")`: the decimal digits of a number, with rounds as fuel.
unfoldable pub digits_from : ℕ → ℕ → Bytes → Bytes
digits_from zero n more = (b'0' + n % 10) ∷ more
digits_from (suc fuel) n more =
    let rest = digits_from fuel (n / 10) ((b'0' + n % 10) ∷ more) in
    if ltb n 10 then (b'0' + n % 10) ∷ more else rest

-- Twenty digits are enough below 2 ^ 64.
unfoldable pub decimal : ℕ → Bytes
decimal n = digits_from 19 n []

-- A number parsed is one that an `unsigned int` holds, and not 0.
pub parse_unsigned_range :
    (text : Bytes) {n : ℕ} → parse_unsigned text ≡ some n → (0 < n) × (n < 2 ^ 32)
unfolding parse_unsigned
parse_unsigned_range text h = elim (Bool-cases (ltb uint32_max (strtoul text).value)) [
  | inl big ↦ ground arith
  | inr small ↦ ground arith
]

read_digits-cons :
    (acc d : ℕ) (more : Bytes)
    → d < 10
    → read_digits acc ((b'0' + d) ∷ more) ≡ read_digits (acc * 10 + d) more
unfolding read_digits
read_digits-cons acc d more h = rw (digit) (ap (λ k. read_digits (acc * 10 + k) more) (omega arith))
  where
    digit : is_digit (b'0' + d) ≡ true
    digit = ground arith

-- Reading the printed digits back.
read_digits-digits_from :
    (fuel n : ℕ) (more : Bytes)
    → n < 10 ^ suc fuel
    → read_digits 0 (digits_from fuel n more) ≡ read_digits n more
unfolding digits_from
read_digits-digits_from zero n more h =
    read_digits-cons 0 (n % 10) more (omega arith)
    ∙ ap (λ k. read_digits k more) {x = 0 * 10 + n % 10} {y = n} (omega (arith, pow-suc 10 0))
read_digits-digits_from (suc fuel) n more h = elim (Bool-cases (ltb n 10)) [
  | inl one ↦ rw one (
      read_digits-cons 0 (n % 10) more (omega arith)
      ∙ ap (λ k. read_digits k more) {x = 0 * 10 + n % 10} {y = n} (omega tests))
  | inr more_digits ↦ rw more_digits (
      read_digits-digits_from fuel (n / 10) _ (omega (arith, pow-suc 10 (suc fuel)))
      ∙ read_digits-cons (n / 10) (n % 10) more (omega arith)
      ∙ ap (λ k. read_digits k more) {x = n / 10 * 10 + n % 10} {y = n} (omega arith))
]

-- A text that begins with a digit.
pub record StartsWithDigit (text : Bytes) : Type 0 where
  pub first : ℕ
  pub others : Bytes
  pub splits : text ≡ first ∷ others
  pub digit : is_digit first ≡ true

digits_from-StartsWithDigit :
    (fuel n : ℕ) (more : Bytes) → StartsWithDigit (digits_from fuel n more)
unfolding digits_from
digits_from-StartsWithDigit zero n more = record {
  first = b'0' + n % 10;
  others = more;
  splits = refl;
  digit = ground arith;
}
digits_from-StartsWithDigit (suc fuel) n more = elim (Bool-cases (ltb n 10)) [
  | inl one ↦
      rw one (record { first = b'0' + n % 10; others = more; splits = refl; digit = ground arith })
  | inr more_digits ↦ rw more_digits (digits_from-StartsWithDigit fuel (n / 10) _)
]

convert_digits_lem :
    (text : Bytes) (negative : Bool) (c : ℕ) (digits : Bytes) (n : ℕ)
    → is_digit c ≡ true
    → read_digits 0 (c ∷ digits) ≡ (n, [])
    → n < ulong_mod
    → convert_digits text negative (c ∷ digits)
      ≡ record { value = negated negative n; moved = true; rest = []; range_error = false }
unfolding convert_digits
convert_digits_lem text negative c digits n d e small = rw (d, e, lt→ltb n ulong_mod small)

strtoul-digits :
    (c : ℕ) (digits : Bytes) (n : ℕ)
    → is_digit c ≡ true
    → read_digits 0 (c ∷ digits) ≡ (n, [])
    → n < ulong_mod
    → strtoul (c ∷ digits) ≡ record { value = n; moved = true; rest = []; range_error = false }
unfolding strtoul convert_signed skip_spaces
strtoul-digits c digits n d e small =
    ground (arith, convert_digits_lem (c ∷ digits) false c digits n d e small)

strtoul-minus :
    (c : ℕ) (digits : Bytes) (n : ℕ)
    → is_digit c ≡ true
    → read_digits 0 (c ∷ digits) ≡ (n, [])
    → n < ulong_mod
    → strtoul (b'-' ∷ c ∷ digits)
      ≡ record { value = (ulong_mod - n) % ulong_mod; moved = true; rest = []; range_error = false }
unfolding strtoul convert_signed skip_spaces
strtoul-minus c digits n d e small =
    convert_digits_lem (b'-' ∷ c ∷ digits) true c digits n d e small

-- `parse_unsigned` reads back every number from 1 to UINT32_MAX that is printed in decimal.
pub parse_unsigned-decimal : (n : ℕ) → 0 < n → n ≤ uint32_max → parse_unsigned (decimal n) ≡ some n
unfolding parse_unsigned decimal read_digits
parse_unsigned-decimal n pos small =
    let s = digits_from-StartsWithDigit 19 n [] in
    rw
      (
        s.splits,
        strtoul-digits s.first s.others n s.digit
            (rw s.splits at (read_digits-digits_from 19 n [] (omega arith))) (omega arith),
      )
      (ground arith)

-- A number with a minus sign is not refused: a decimal between 2 ^ 64 - UINT32_MAX and 2 ^ 64 - 1
-- behind a minus sign is parsed as 2 ^ 64 less that number.
pub parse_unsigned-minus :
    (n : ℕ) → 0 < n → n ≤ uint32_max → parse_unsigned (b'-' ∷ decimal (ulong_mod - n)) ≡ some n
unfolding parse_unsigned decimal read_digits
parse_unsigned-minus n pos small =
    let m = ulong_mod - n in
    let s = digits_from-StartsWithDigit 19 m [] in
    rw
      (
        s.splits,
        strtoul-minus s.first s.others m s.digit
            (rw s.splits at (read_digits-digits_from 19 m [] (omega arith))) (omega arith),
      )
      (ground arith)
