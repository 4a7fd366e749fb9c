-- ===== src/Wav/Format.antt =====
-- The file that `write_activation_wav` composes can be read back by the rules of the WAVE format.
use okay_hermes_realtime.Base.{
  ℕ, ◌+◌, ◌-◌, ◌*◌, ◌/◌, ◌%◌, ◌^◌, ◌≤◌, ◌<◌, ◌≡◌, refl, ap₂, Bool-cases, inl, inr, Bool, true,
  false, ◌&&◌, Option, none, some, List, [], ◌∷◌, map, arith, ltb, ◌==◌, if◌then◌else◌, length,
}
use okay_hermes_realtime.Base.Int.{ℤ, pos, negsuc, pos_part, neg_part, ◌≤ℤ◌}
use okay_hermes_realtime.Base.Bytes.{Bytes, bytes}
use okay_hermes_realtime.Float.{Float}
use okay_hermes_realtime.Resample.{unsigned_mod}
use okay_hermes_realtime.Wav.{
  put_u16_le, wav_header, int16_of, bounded, quantize, pcm_bytes, wav_bytes,
}

abbrev pub u16_at : ℕ → ℕ → ℕ
u16_at a b = a + 256 * b

abbrev pub u32_at : ℕ → ℕ → ℕ → ℕ → ℕ
u32_at a b c d = a + 256 * b + 2 ^ 16 * c + 2 ^ 24 * d

-- The samples of a 16-bit data chunk, as signed numbers.
abbrev pub signed16 : ℕ → ℤ
signed16 w = if ltb w (2 ^ 15) then pos w else negsuc (2 ^ 16 - 1 - w)

unfoldable pub read_samples : Bytes → List ℤ
read_samples [] = []
read_samples (a ∷ []) = []
read_samples (a ∷ b ∷ rest) = signed16 (u16_at a b) ∷ read_samples rest

pub put_u32_le-u32_at :
    (v : ℕ)
    → v < unsigned_mod
    → u32_at (v % 256) (v / 256 % 256) (v / 2 ^ 16 % 256) (v / 2 ^ 24 % 256) ≡ v
put_u32_le-u32_at v h = omega arith

int16_of-signed16 :
    (q : ℤ)
    → negsuc (2 ^ 15 - 1) ≤ℤ q
    → q ≤ℤ pos (2 ^ 15 - 1)
    → signed16 (u16_at (int16_of q % 256) (int16_of q / 256 % 256)) ≡ q
unfolding int16_of
int16_of-signed16 q lo hi = ground arith

-- A reader of the format, field by field.
infixl 5 ◌>>=◌
abbrev ◌>>=◌ : {A B : Type 0} → Option A → (A → Option B) → Option B
none >>= f = none
some a >>= f = f a

abbrev expect : Bytes → Bytes → Option Bytes
expect [] text = some text
expect (t ∷ tag) [] = none
expect (t ∷ tag) (c ∷ text) = let more = expect tag text in if t == c then more else none

abbrev read_u16 : Bytes → Option (ℕ × Bytes)
read_u16 (a ∷ b ∷ rest) = some (u16_at a b, rest)
read_u16 _ = none

abbrev read_u32 : Bytes → Option (ℕ × Bytes)
read_u32 (a ∷ b ∷ c ∷ d ∷ rest) = some (u32_at a b c d, rest)
read_u32 _ = none

-- A field with a fixed value.
abbrev accept_if : Bool → Bytes → Option Bytes
accept_if true rest = some rest
accept_if false rest = none

pub record WavFile : Type 0 where
  pub channels : ℕ
  pub rate : ℕ
  pub bits : ℕ
  pub samples : List ℤ

-- A RIFF file of one PCM `fmt ` chunk and one `data` chunk, whose sizes are those of the file, and
-- whose byte rate and block size are those of 16-bit samples.
unfoldable pub read_wav : Bytes → Option WavFile
read_wav text = do
  chunk ← expect (bytes "RIFF") text
  (riff_size, body) ← read_u32 chunk
  sized ← accept_if (riff_size == length body) body
  fmt ← expect (bytes "WAVEfmt ") sized
  (fmt_size, fmt1) ← read_u32 fmt
  (coding, fmt2) ← read_u16 fmt1
  (channels, fmt3) ← read_u16 fmt2
  (rate, fmt4) ← read_u32 fmt3
  (byte_rate, fmt5) ← read_u32 fmt4
  (block, fmt6) ← read_u16 fmt5
  (bits, fmt7) ← read_u16 fmt6
  pcm ←
      accept_if
        (fmt_size == 16
          && (coding == 1 && (byte_rate == rate * channels * 2 && block == channels * 2)))
        fmt7
  data_chunk ← expect (bytes "data") pcm
  (data_size, content) ← read_u32 data_chunk
  checked ← accept_if (data_size == length content) content
  some (record { channels = channels; rate = rate; bits = bits; samples = read_samples checked })

-- What the conversion of a bounded sample needs of the C library: `fmaxf` and `fminf` bound their
-- result, and `lrintf` of a value between -1 and 1 times a whole number `k` up to 2 ^ 15, which a
-- float represents exactly, lies between -k and k, not above 0 for a negative value.
pub record IsRounding (F : Float) : Type 0 where
  pub clamps :
      (s : F.Value)
      → (F.le (F.neg (F.of_unsigned 1)) (bounded F s) ≡ true)
        × (F.le (bounded F s) (F.of_unsigned 1) ≡ true)
  pub rounds_within :
      (x : F.Value) (k : ℕ)
      → k ≤ 2 ^ 15
      → F.le (F.neg (F.of_unsigned 1)) x ≡ true
      → F.le x (F.of_unsigned 1) ≡ true
      → (neg_part (F.lrint (F.mul x (F.of_unsigned k))) ≤ k)
        × (pos_part (F.lrint (F.mul x (F.of_unsigned k))) ≤ k)
  pub rounds_down :
      (x : F.Value) (k : ℕ)
      → k ≤ 2 ^ 15
      → F.le (F.neg (F.of_unsigned 1)) x ≡ true
      → F.lt x (F.of_unsigned 0) ≡ true
      → pos_part (F.lrint (F.mul x (F.of_unsigned k))) ≡ 0
  pub rounds_up :
      (x : F.Value) (k : ℕ)
      → k ≤ 2 ^ 15
      → F.le (F.neg (F.of_unsigned 1)) x ≡ true
      → F.le x (F.of_unsigned 1) ≡ true
      → F.lt x (F.of_unsigned 0) ≡ false
      → neg_part (F.lrint (F.mul x (F.of_unsigned k))) ≡ 0

module _ (F : Float) (r : IsRounding F) where
  -- No sample overflows its 16 bits.
  quantize-range :
      (s : F.Value) → (negsuc (2 ^ 15 - 1) ≤ℤ quantize F s) × (quantize F s ≤ℤ pos (2 ^ 15 - 1))
  unfolding quantize
  quantize-range s = elim (Bool-cases (F.lt (bounded F s) (F.of_unsigned 0))) [
    | inl below ↦
        rw (below, quantize)
          (omega (
            arith,
            (r.rounds_within (bounded F s) 32768 (omega arith) (r.clamps s).0 (r.clamps s).1).0,
            r.rounds_down (bounded F s) 32768 (omega arith) (r.clamps s).0 below,
          ))
    | inr above ↦
        rw (above, quantize)
          (omega (
            arith,
            (r.rounds_within (bounded F s) 32767 (omega arith) (r.clamps s).0 (r.clamps s).1).1,
            r.rounds_up (bounded F s) 32767 (omega arith) (r.clamps s).0 (r.clamps s).1 above,
          ))
  ]

  read_samples-pcm_bytes :
      (samples : List F.Value) → read_samples (pcm_bytes F samples) ≡ map (quantize F) samples
  unfolding read_samples pcm_bytes put_u16_le
  read_samples-pcm_bytes [] = refl
  read_samples-pcm_bytes (s ∷ samples) =
      let (lo, hi) = quantize-range s in
      ap₂ ◌∷◌ (int16_of-signed16 (quantize F s) lo hi) (read_samples-pcm_bytes samples)

  length-pcm_bytes : (samples : List F.Value) → length (pcm_bytes F samples) ≡ length samples * 2
  unfolding pcm_bytes put_u16_le
  length-pcm_bytes [] = refl
  length-pcm_bytes (s ∷ samples) = omega (arith, length-pcm_bytes samples)

  -- The bytes that `write_activation_wav` writes are a mono file of 16-bit samples at 16000 Hz
  -- with exactly the given samples, each bounded to [-1, 1] and scaled to 16 bits, as long as the
  -- size of the file fits its header and the conversions of the C library bound and round as
  -- `IsRounding` says.
  pub read_wav-wav_bytes :
      (samples : List F.Value)
      → 36 + length samples * 2 < unsigned_mod
      → read_wav (wav_bytes F samples)
        ≡ some
            (record { channels = 1; rate = 16000; bits = 16; samples = map (quantize F) samples })
  unfolding read_wav wav_header
  read_wav-wav_bytes samples small = ground (
    arith,
    length-pcm_bytes samples,
    read_samples-pcm_bytes samples,
    put_u32_le-u32_at (36 + length samples * 2) small,
    put_u32_le-u32_at (length samples * 2),
  )
