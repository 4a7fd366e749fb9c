-- ===== src/Numbers.antt =====
-- `parse_unsigned` and `parse_float` of native/okay-hermes-realtime-wake-listener.c, with the
-- C library's `strtoul` in base 10 for a 64-bit `unsigned long`.
pub mod Decimal
use okay_hermes_realtime.Base.{
  ℕ, suc, ◌+◌, ◌-◌, ◌*◌, ◌%◌, ◌^◌, Bool, true, false, not, ◌&&◌, ◌||◌, Option, none, some, List, [],
  ◌∷◌, ltb, leb, ◌==◌, if◌then◌else◌,
}
use okay_hermes_realtime.Base.Bytes.{Bytes}
use okay_hermes_realtime.Float.{Float}

-- `ULONG_MAX + 1` and `UINT32_MAX`
abbrev pub ulong_mod : ℕ
ulong_mod = 2 ^ 64

abbrev pub uint32_max : ℕ
uint32_max = 2 ^ 32 - 1

-- `isspace` and `isdigit` in the C locale
abbrev pub is_space : ℕ → Bool
is_space c = c == 0x20 || (leb 9 c && leb c 13)

abbrev pub is_digit : ℕ → Bool
is_digit c = leb b'0' c && leb c b'9'

unfoldable pub skip_spaces : Bytes → Bytes
skip_spaces [] = []
skip_spaces (c ∷ rest) = let skipped = skip_spaces rest in if is_space c then skipped else c ∷ rest

-- The value of the digits in front, added behind those of `value`, and what follows them.
unfoldable pub read_digits : ℕ → Bytes → ℕ × Bytes
read_digits value [] = (value, [])
read_digits value (c ∷ rest) =
    let more = read_digits (value * 10 + (c - b'0')) rest in
    if is_digit c then more else (value, c ∷ rest)

-- What a conversion of <stdlib.h> leaves: the value, whether it took any character (`end` is not
-- `value`), the text at `end`, and whether `errno` was set.
pub record Converted (V : Type 0) : Type 0 where
  pub value : V
  pub moved : Bool
  pub rest : Bytes
  pub range_error : Bool

abbrev pub negated : Bool → ℕ → ℕ
negated negative n = if negative then (ulong_mod - n) % ulong_mod else n

-- The digits behind the optional sign. Too large a number gives ULONG_MAX and ERANGE; `negative`
-- negates the value as an unsigned number.
unfoldable pub convert_digits : Bytes → Bool → Bytes → Converted ℕ
convert_digits text negative [] = record {
  value = 0;
  moved = false;
  rest = text;
  range_error = false;
}
convert_digits text negative (c ∷ digits) =
    if is_digit c
    then (let (n, rest) = read_digits 0 (c ∷ digits) in
        if ltb n ulong_mod
        then record { value = negated negative n; moved = true; rest = rest; range_error = false }
        else record { value = ulong_mod - 1; moved = true; rest = rest; range_error = true })
    else record { value = 0; moved = false; rest = text; range_error = false }

unfoldable pub convert_signed : Bytes → Bytes → Converted ℕ
convert_signed text [] = convert_digits text false []
convert_signed text (c ∷ digits) =
    if c == b'-'
    then convert_digits text true digits
    else if c == b'+'
    then convert_digits text false digits
    else convert_digits text false (c ∷ digits)

-- `strtoul(text, &end, 10)`
unfoldable pub strtoul : Bytes → Converted ℕ
strtoul text = convert_signed text (skip_spaces text)

abbrev pub is_empty : Bytes → Bool
is_empty [] = true
is_empty (c ∷ rest) = false

-- `parse_unsigned(value, out)`: `none` is -1, and otherwise `*out`.
unfoldable pub parse_unsigned : Bytes → Option ℕ
parse_unsigned text =
    let parsed = strtoul text in
    if parsed.range_error || not parsed.moved || not (is_empty parsed.rest) || parsed.value == 0
    then none
    else if ltb uint32_max parsed.value
    then none
    else some parsed.value

-- `parse_float(value, out)`; the conversion `strtof` is the C library's.
module _ (F : Float) (strtof : Bytes → Converted F.Value) where
  open F use {Value, of_unsigned, lt, is_finite}

  unfoldable pub parse_float : Bytes → Option Value
  parse_float text =
      let parsed = strtof text in
      if parsed.range_error
        || not parsed.moved
        || not (is_empty parsed.rest)
        || not (is_finite parsed.value)
        || lt parsed.value (of_unsigned 0)
        || lt (of_unsigned 1) parsed.value
      then none
      else some parsed.value
