-- ===== src/Tests.antt =====
-- Concrete numbers, options and systems, for the tests and for the examples of each theorem.
mod Capture
mod Host
mod Listening
mod Activations
mod Program
mod Watching
mod Sessions
use okay_hermes_realtime.Base.{
  ℕ, zero, suc, ◌+◌, ◌-◌, ◌*◌, ◌/◌, ◌≤◌, ◌≡◌, refl, Bool, true, false, not, none, some, List, [],
  ◌∷◌, ltb, leb, ◌==◌, arith, if◌then◌else◌,
}
use okay_hermes_realtime.Base.Int.{ℤ, pos, negsuc, pos_part, neg_part, sub_ℕ, ltb_ℤ}
use okay_hermes_realtime.Base.Bytes.{Bytes, bytes, bytes_eq}
use okay_hermes_realtime.Float.{Float, Double}
use okay_hermes_realtime.Posix.{Replies, accept, advances_within, Os}
use okay_hermes_realtime.Numbers.{Converted, strtoul}
use okay_hermes_realtime.Options.{Environment, ListenerOptions}
use okay_hermes_realtime.Wav.Format.{IsRounding}

-- Whole numbers as a `float`.
abbrev neg_ℤ : ℤ → ℤ
neg_ℤ i = sub_ℕ (neg_part i) (pos_part i)

abbrev add_ℤ : ℤ → ℤ → ℤ
add_ℤ i j = sub_ℕ (pos_part i + pos_part j) (neg_part i + neg_part j)

abbrev mul_ℤ : ℤ → ℤ → ℤ
mul_ℤ i j =
    sub_ℕ (pos_part i * pos_part j + neg_part i * neg_part j)
      (pos_part i * neg_part j + neg_part i * pos_part j)

-- Rounding towards 0, for a positive divisor.
abbrev div_ℤ : ℤ → ℤ → ℤ
div_ℤ i j = sub_ℕ (pos_part i / pos_part j) (neg_part i / pos_part j)

abbrev pub whole : Float
whole = record {
  Value = ℤ;
  of_unsigned = pos;
  neg = neg_ℤ;
  add = add_ℤ;
  mul = mul_ℤ;
  div = div_ℤ;
  lt = ltb_ℤ;
  le = λ i j. not (ltb_ℤ j i);
  is_finite = λ i. true;
  fmin = λ i j. if ltb_ℤ j i then j else i;
  fmax = λ i j. if ltb_ℤ i j then j else i;
  lrint = λ i. i;
  fabs = λ i. pos (pos_part i + neg_part i);
}

-- Thousandths as a `double`.
abbrev pub thousandths : Double
thousandths = record {
  Value = ℕ;
  of_unsigned = λ n. n * 1000;
  add = ◌+◌;
  sub = ◌-◌;
  div = λ a b. a * 1000 / b;
  lt = ltb;
  le = leb;
  eq = ◌==◌;
  is_finite = λ a. true;
}

whole-rounds_within :
    (x : ℤ) (k : ℕ)
    → not (ltb_ℤ x (negsuc 0)) ≡ true
    → not (ltb_ℤ (pos 1) x) ≡ true
    → (neg_part (mul_ℤ x (pos k)) ≤ k) × (pos_part (mul_ℤ x (pos k)) ≤ k)
whole-rounds_within (pos zero) k lo hi = ground arith
whole-rounds_within (pos (suc zero)) k lo hi = ground arith
whole-rounds_within (pos (suc (suc n))) k lo hi = ground arith
whole-rounds_within (negsuc zero) k lo hi = ground arith
whole-rounds_within (negsuc (suc n)) k lo hi = ground arith

whole-rounds_down : (x : ℤ) (k : ℕ) → ltb_ℤ x (pos 0) ≡ true → pos_part (mul_ℤ x (pos k)) ≡ 0
whole-rounds_down (pos n) k h = ground arith
whole-rounds_down (negsuc n) k h = ground arith

whole-rounds_up : (x : ℤ) (k : ℕ) → ltb_ℤ x (pos 0) ≡ false → neg_part (mul_ℤ x (pos k)) ≡ 0
whole-rounds_up (pos n) k h = ground arith
whole-rounds_up (negsuc n) k h = ground arith

pub whole-IsRounding : IsRounding whole
whole-IsRounding = record {
  clamps = λ s. ground arith;
  rounds_within = λ x k small lo hi. whole-rounds_within x k lo hi;
  rounds_down = λ x k small lo h. whole-rounds_down x k h;
  rounds_up = λ x k small lo hi h. whole-rounds_up x k h;
}

-- A file system with one old status file.
abbrev pub status_path : Bytes
status_path = bytes "/s/a/st"

abbrev pub host : Os
host = record {
  files = λ path. if bytes_eq path status_path then some (bytes "old") else none;
  directories = [];
  is_open = λ fd. fd == 0;
  next_fd = 3;
  stray_closes = 0;
  calls = 0;
}

pub good-advances : (t : ℕ) → advances_within (λ n. accept 2) 0 t ≡ true
unfolding advances_within
good-advances t = refl

-- Every call succeeds, and writes take two bytes at a time.
abbrev pub good : Replies
good = record { answer = λ n. accept 2; patience = 0; advances = good-advances }
