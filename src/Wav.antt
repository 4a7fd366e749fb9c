-- ===== src/Wav.antt =====
-- `put_u16_le`, `put_u32_le` and `write_activation_wav` of
-- native/okay-hermes-realtime-wake-listener.c. The file is opened, written and renamed as in
-- `Posix`; an int16_t lies in memory in little-endian order.
pub mod Format
pub mod Replace
use okay_hermes_realtime.Base.{
  ℕ, ◌+◌, ◌-◌, ◌*◌, ◌/◌, ◌%◌, ◌^◌, Bool, true, false, not, ◌||◌, Option, none, some, List, [], ◌∷◌,
  ◌++◌, ltb, ◌==◌, if◌then◌else◌, length,
}
use okay_hermes_realtime.Base.Int.{ℤ, pos, negsuc}
use okay_hermes_realtime.Base.Bytes.{Bytes, bytes, snprintf}
use okay_hermes_realtime.Float.{Float}
use okay_hermes_realtime.Resample.{model_rate, unsigned_mod}
use okay_hermes_realtime.Posix.{
  Replies, Os, Io, pure, ignore, ◌>>=◌, ◌>>◌, ◌&&>◌, call, open_file, close, unlink, rename,
}
use okay_hermes_realtime.Posix.Write.{write_all_to}
use okay_hermes_realtime.Numbers.{uint32_max}
use okay_hermes_realtime.Storage.{ensure_parent_dir, status_tmp}

unfoldable pub put_u16_le : ℕ → Bytes
put_u16_le value = value % 256 ∷ value / 256 % 256 ∷ []

unfoldable pub put_u32_le : ℕ → Bytes
put_u32_le value =
    value % 256 ∷ value / 256 % 256 ∷ value / 2 ^ 16 % 256 ∷ value / 2 ^ 24 % 256 ∷ []

-- The 44 bytes of the header for `data_size` bytes of samples.
unfoldable pub wav_header : ℕ → Bytes
unfolding put_u16_le put_u32_le
wav_header data_size =
    bytes "RIFF"
    ++ (put_u32_le ((36 + data_size) % unsigned_mod)
        ++ (bytes "WAVEfmt "
            ++ (put_u32_le 16
                ++ (put_u16_le 1
                    ++ (put_u16_le 1
                        ++ (put_u32_le model_rate
                            ++ (put_u32_le (model_rate * 2)
                                ++ (put_u16_le 2
                                    ++ (put_u16_le 16
                                        ++ (bytes "data" ++ put_u32_le data_size))))))))))

-- The bit pattern of an `int16_t` to which a `long` is converted.
unfoldable pub int16_of : ℤ → ℕ
int16_of (pos n) = n % 2 ^ 16
int16_of (negsuc n) = 2 ^ 16 - 1 - n % 2 ^ 16

module _ (F : Float) where
  open F use {Value, of_unsigned, neg, mul, lt, fmin, fmax, lrint}

  abbrev pub bounded : Value → Value
  bounded sample = fmax (neg (of_unsigned 1)) (fmin (of_unsigned 1) sample)

  unfoldable pub quantize : Value → ℤ
  quantize sample =
      let b = bounded sample in
      lrint (mul b (if lt b (of_unsigned 0) then of_unsigned 32768 else of_unsigned 32767))

  -- The array `pcm` as bytes.
  unfoldable pub pcm_bytes : List Value → Bytes
  pcm_bytes [] = []
  pcm_bytes (sample ∷ samples) = put_u16_le (int16_of (quantize sample)) ++ pcm_bytes samples

  abbrev pub wav_bytes : List Value → Bytes
  wav_bytes samples = wav_header (length samples * 2) ++ pcm_bytes samples

module _ (replies : Replies) where
  -- Writing both parts, `fsync` and `close`, up to the first failure.
  unfoldable pub write_parts : Bytes → Bytes → Bytes → ℕ → Io Bool
  write_parts temporary header pcm fd =
      write_all_to replies temporary header
      &&> (write_all_to replies temporary pcm &&> (call replies &&> close replies fd))

  -- Removing the temporary file of a failed attempt.
  abbrev pub give_up : Bytes → Io Bool
  give_up temporary = do unlink replies temporary; pure false

  -- What follows `open`, by what it returned.
  unfoldable pub write_opened : Bytes → Bytes → Bytes → Bytes → Option ℕ → Io Bool
  write_opened path temporary header pcm none = give_up temporary
  write_opened path temporary header pcm (some fd) = do
    written ← write_parts temporary header pcm fd
    if written
        then (do
          renamed ← rename replies temporary path
          if renamed then pure true else give_up temporary)
        else (do ignore (close replies fd); give_up temporary)

  unfoldable pub replace_file : Bytes → Bytes → Bytes → Bytes → Io Bool
  replace_file path temporary header pcm = do
    fd ← open_file replies temporary
    write_opened path temporary header pcm fd

  -- `write_activation_wav(path, samples, sample_count)`; `none` is NULL. The name of the temporary
  -- file is cut to its buffer of 8192 bytes.
  unfoldable pub write_activation_wav :
      (F : Float) → Bytes → Option Bytes → Option (List F.Value) → Io Bool
  write_activation_wav F pid none samples = pure false
  write_activation_wav F pid (some path) none = pure false
  write_activation_wav F pid (some path) (some samples) =
      if length samples == 0 || ltb (uint32_max / 2) (length samples)
      then pure false
      else (ensure_parent_dir replies (some path)
          &&> (call replies
              &&> replace_file path (snprintf 8192 (status_tmp pid path))
                  (wav_header (length samples * 2)) (pcm_bytes F samples)))
