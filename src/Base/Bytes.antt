-- ===== src/Base/Bytes.antt =====
-- C strings as lists of bytes without the final NUL, and the tests on them.
use Prim.Native.Char.{code}
use Prim.Native.String.{String}
use Prim.Native.Nat.{ℕ, ◌-◌, ◌<◌}
use mathlib.Core.Path.{◌≡◌, refl, ap}
use mathlib.Core.Logic.{◌≢◌, ◌↔◌}
use mathlib.Core.Bool.{Bool, true, false, ◌&&◌}
use mathlib.Core.List.{List, [], ◌∷◌, ◌++◌}
use native.Mathlib.Omega.{arith}
use okay_hermes_realtime.Base.Tests.{◌==◌}
use okay_hermes_realtime.Base.Lists.{length, take, take_all, length-append}

abbrev pub Bytes : Type 0
Bytes = List ℕ

-- The bytes of an ASCII literal.
abbrev pub bytes : String → Bytes
bytes String.[] = []
bytes (String.◌∷◌ c s) = code c ∷ bytes s

-- `strcmp(a, b) == 0`
unfoldable pub bytes_eq : Bytes → Bytes → Bool
bytes_eq [] [] = true
bytes_eq [] (b ∷ bs) = false
bytes_eq (a ∷ as') [] = false
bytes_eq (a ∷ as') (b ∷ bs) = a == b && bytes_eq as' bs

pub bytes_eq_iff : (a b : Bytes) → (bytes_eq a b ≡ true) ↔ (a ≡ b)
unfolding bytes_eq
bytes_eq_iff [] [] = (λ _. refl, λ _. refl)
bytes_eq_iff [] (b ∷ bs) = (λ h. cc, λ h. cc)
bytes_eq_iff (a ∷ as') [] = (λ h. cc, λ h. cc)
bytes_eq_iff (a ∷ as') (b ∷ bs) = ground (arith, bytes_eq_iff as' bs)

pub bytes_eq_refl : (a : Bytes) → bytes_eq a a ≡ true
bytes_eq_refl a = (bytes_eq_iff a a).1 refl

-- A name with something appended is another name.
pub append-ne : (a b : Bytes) → 0 < length b → a ++ b ≢ a
append-ne a b h e = omega (arith, length-append a b, ap length e)

pub bytes_eq-append : (a b : Bytes) → 0 < length b → bytes_eq (a ++ b) a ≡ false
bytes_eq-append a b h = ground (arith, bytes_eq_iff (a ++ b) a, append-ne a b h)

-- `snprintf(out, size, …)` where the whole text is `text`: what it leaves in `out`. It returns
-- `length text`.
abbrev pub snprintf : ℕ → Bytes → Bytes
snprintf size text = take (size - 1) text

pub snprintf_fits : (size : ℕ) (text : Bytes) → length text < size → snprintf size text ≡ text
snprintf_fits size text h = take_all (size - 1) text (omega arith)

-- What follows a common start is determined by the whole.
pub append_cancel : (a b c : Bytes) → a ++ b ≡ a ++ c → b ≡ c
append_cancel [] b c e = e
append_cancel (x ∷ a) b c e = append_cancel a b c (cc)
