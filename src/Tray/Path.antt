-- ===== src/Tray/Path.antt =====
-- The object path of a unit names the unit uniquely.
use okay_hermes_realtime.Base.{
  ℕ, ◌+◌, ◌-◌, ◌*◌, ◌/◌, ◌%◌, ◌<◌, ◌≡◌, refl, sym, ap, ap₂, ◌∙◌, Bool, true, false, [], ◌∷◌, ltb,
  ltb→lt, ltb-false→le, ◌==◌, arith, if◌then◌else◌, Bool-cases, inl, inr,
}
use okay_hermes_realtime.Base.Bytes.{Bytes, bytes, append_cancel}
use okay_hermes_realtime.Tray.{hex_digit, hex_from, escape_code, escape, systemd_unit_object_path}

abbrev hex_value : ℕ → ℕ
hex_value c = if ltb c b'a' then c - b'0' else c - b'a' + 10

-- Undoing the escapes of two digits.
unfoldable pub unescape : Bytes → Bytes
unescape [] = []
unescape (c ∷ []) = c ∷ []
unescape (c ∷ a ∷ []) = c ∷ a ∷ []
unescape (c ∷ a ∷ b ∷ rest) =
    let escaped = (hex_value a * 16 + hex_value b) ∷ unescape rest in
    let plain = c ∷ unescape (a ∷ b ∷ rest) in if c == b'_' then escaped else plain

hex_from_one : (n : ℕ) → n < 16 → hex_from 3 n [] ≡ hex_digit n ∷ []
unfolding hex_from
hex_from_one n small = rw one (ap (λ k. hex_digit k ∷ []) {x = n % 16} {y = n} (omega arith))
  where
    one : ltb n 16 ≡ true
    one = ground arith

hex_from_two :
    (n : ℕ) → 15 < n → n < 256 → hex_from 3 n [] ≡ hex_digit (n / 16) ∷ hex_digit (n % 16) ∷ []
unfolding hex_from
hex_from_two n large small =
    rw (more, two)
      (ap (λ k. hex_digit k ∷ hex_digit (n % 16) ∷ []) {x = n / 16 % 16} {y = n / 16} (omega arith))
  where
    more : ltb n 16 ≡ false
    more = ground arith

    two : ltb (n / 16) 16 ≡ true
    two = ground arith

escape_code_two :
    (n : ℕ) → n < 256 → escape_code n ≡ b'_' ∷ hex_digit (n / 16) ∷ hex_digit (n % 16) ∷ []
unfolding escape_code
escape_code_two n small = elim (Bool-cases (ltb n 16)) [
  | inl one ↦
      rw (one, hex_from_one n (ltb→lt n 16 one))
        (ap₂ (λ a b. b'_' ∷ hex_digit a ∷ hex_digit b ∷ []) {x = 0} {y = n / 16}
          (omega (arith, ltb→lt n 16 one)) (omega (arith, ltb→lt n 16 one)))
  | inr two ↦ rw (two, hex_from_two n (omega (arith, ltb-false→le n 16 two)) small) refl
]

hex_value-hex_digit : (d : ℕ) → d < 16 → hex_value (hex_digit d) ≡ d
hex_value-hex_digit d small = ground arith

unescape-plain :
    (c : ℕ) (rest : Bytes) → (c == b'_') ≡ false → unescape (c ∷ rest) ≡ c ∷ unescape rest
unfolding unescape
unescape-plain c [] h = refl
unescape-plain c (a ∷ []) h = refl
unescape-plain c (a ∷ b ∷ rest) h = rw h refl

digits :
    (n : ℕ) → n < 256 → hex_value (hex_digit (n / 16)) * 16 + hex_value (hex_digit (n % 16)) ≡ n
digits n small =
    ap₂ (λ a b. a * 16 + b) (hex_value-hex_digit (n / 16) (omega arith))
      (hex_value-hex_digit (n % 16) (omega arith))
    ∙ omega arith

-- All characters are below 256.
abbrev pub IsLatin : Bytes → Type 0
IsLatin [] = Unit
IsLatin (c ∷ rest) = (c < 256) × IsLatin rest

unescape-escape :
    (is_letter_or_number : ℕ → Bool) (unit : Bytes)
    → is_letter_or_number b'_' ≡ false
    → IsLatin unit
    → unescape (escape is_letter_or_number unit) ≡ unit
unfolding escape unescape
unescape-escape is_letter_or_number [] h latin = refl
unescape-escape is_letter_or_number (ch ∷ rest) h latin =
    let again = unescape-escape is_letter_or_number rest h latin.1 in
    elim (Bool-cases (is_letter_or_number ch)) [
      | inl plain ↦
          rw plain
            (unescape-plain ch (escape is_letter_or_number rest) (ground arith) ∙ ap (◌∷◌ ch) again)
      | inr special ↦
          rw special (rw (escape_code_two ch latin.0) (ap₂ ◌∷◌ (digits ch latin.0) again))
    ]

-- As long as all characters are below 256 and "_" is no letter, two different units never have the
-- same path.
pub systemd_unit_object_path_injective :
    (is_letter_or_number : ℕ → Bool) (unit other : Bytes)
    → is_letter_or_number b'_' ≡ false
    → IsLatin unit
    → IsLatin other
    → systemd_unit_object_path is_letter_or_number unit
      ≡ systemd_unit_object_path is_letter_or_number other
    → unit ≡ other
unfolding systemd_unit_object_path
systemd_unit_object_path_injective is_letter_or_number unit other h latin latin' e =
    sym (unescape-escape is_letter_or_number unit h latin)
    ∙ ap unescape (
        append_cancel (bytes "/org/freedesktop/systemd1/unit/") (escape is_letter_or_number unit)
          (escape is_letter_or_number other) e)
    ∙ unescape-escape is_letter_or_number other h latin'
