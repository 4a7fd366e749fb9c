-- ===== src/Activation/Archive.antt =====
-- `archive_activation` of native/okay-hermes-realtime-wake-listener.c.
use okay_hermes_realtime.Base.{
  ℕ, ◌+◌, ◌/◌, ◌%◌, Bool, true, false, ◌&&◌, ◌||◌, Option, none, some, List, [], ◌∷◌, ◌++◌, leb,
  if◌then◌else◌, length,
}
use okay_hermes_realtime.Base.Bytes.{Bytes, bytes}
use okay_hermes_realtime.Float.{Float, Double}
use okay_hermes_realtime.Resample.{model_rate, unsigned_mod}
use okay_hermes_realtime.Numbers.Decimal.{decimal}
use okay_hermes_realtime.Posix.{
  Replies, Os, Io, pure, ◌>>=◌, ◌>>◌, ◌&&>◌, open_file, close, unlink, rename,
}
use okay_hermes_realtime.Storage.{newline, print_and_sync}
use okay_hermes_realtime.Wav.{write_activation_wav}
use okay_hermes_realtime.Activation.{Printf}

-- The start of the names of the files of one activation; `milliseconds` is below 1000.
unfoldable pub stem_of : Bytes → Bytes → ℕ → Bytes → ℕ → Bool → Bytes
stem_of directory timestamp milliseconds pid sequence self_test =
    directory
    ++ (bytes "/activation_"
        ++ (timestamp
            ++ (bytes "_"
                ++ (three_digits milliseconds
                    ++ (bytes "_"
                        ++ (pid
                            ++ (bytes "_"
                                ++ (decimal sequence
                                    ++ (if self_test then bytes "_selftest" else [])))))))))
  where
    -- "%03ld"
    three_digits : ℕ → Bytes
    three_digits n = (b'0' + n / 100) ∷ (b'0' + n / 10 % 10) ∷ (b'0' + n % 10) ∷ []

module _ {F : Float} {D : Double} (p : Printf F D) where
  unfoldable pub metadata_text : F.Value → ℕ → Bool → Bytes
  metadata_text probability sample_count self_test =
      bytes "{\"probability\":"
      ++ (p.float_9g probability
          ++ (bytes ",\"sample_rate\":"
              ++ (decimal model_rate
                  ++ (bytes ",\"sample_count\":"
                      ++ (decimal sample_count
                          ++ (bytes ",\"duration_seconds\":"
                              ++ (p.seconds_1f sample_count
                                  ++ (bytes ",\"native_listener\":true,\"self_test\":"
                                      ++ ((if self_test then bytes "true" else bytes "false")
                                          ++ (bytes "}" ++ (newline ∷ [])))))))))))

-- The four names that are made of the stem.
abbrev pub wav_path : Bytes → Bytes
wav_path stem = stem ++ bytes ".wav"

abbrev pub metadata_path : Bytes → Bytes
metadata_path stem = stem ++ bytes ".json"

abbrev pub metadata_tmp : Bytes → Bytes
metadata_tmp stem = stem ++ bytes ".json.tmp"

-- What has to fit its buffer, in the order of the tests.
abbrev pub is_too_long : Bytes → Bool
is_too_long stem =
    leb 4096 (length stem)
    || leb 8192 (length (wav_path stem))
    || leb 8192 (length (metadata_path stem))
    || leb 8192 (length (metadata_tmp stem))

module _ (replies : Replies) where
  -- The label `metadata_failure`, with the stream closed.
  unfoldable pub metadata_failure : Bytes → Io Bool
  unfolding unlink
  metadata_failure stem = do
    unlink replies (metadata_tmp stem)
    unlink replies (wav_path stem)
    pure false

  -- What follows `fopen`, by what it returned.
  unfoldable pub write_metadata : Bytes → Bytes → Option ℕ → Io Bool
  unfolding print_and_sync close rename metadata_failure
  write_metadata stem text none = metadata_failure stem
  write_metadata stem text (some fd) = do
    written ← print_and_sync replies (metadata_tmp stem) text
    closed ← close replies fd
    if written && closed
        then (do
          moved ← rename replies (metadata_tmp stem) (metadata_path stem)
          if moved then pure true else metadata_failure stem)
        else metadata_failure stem

  -- From `fopen` on.
  unfoldable pub add_metadata : Bytes → Bytes → Io Bool
  add_metadata stem text = do
    fd ← open_file replies (metadata_tmp stem)
    write_metadata stem text fd

  -- Both files of one activation.
  unfoldable pub archive_as : (F : Float) → Bytes → Bytes → Bytes → Option (List F.Value) → Io Bool
  archive_as F pid stem text samples =
      if is_too_long stem
      then pure false
      else (write_activation_wav replies F pid (some (wav_path stem)) samples
          &&> add_metadata stem text)

  -- `archive_activation(directory, samples, sample_count, probability, self_test)`: its status and
  -- the sequence number after it. `clock` is the time in the two parts that name the files, `none`
  -- if `clock_gettime`, `gmtime_r` or `strftime` fails.
  unfoldable pub archive_activation :
      {F : Float} {D : Double}
      → Printf F D
      → Option Bytes
      → Bytes
      → Option (Bytes × ℕ)
      → List F.Value
      → F.Value
      → Bool
      → ℕ
      → Os
      → (Bool × ℕ) × Os
  archive_activation p none pid clock samples probability self_test sequence os =
      ((true, sequence), os)
  archive_activation p (some []) pid clock samples probability self_test sequence os =
      ((true, sequence), os)
  archive_activation p (some (c ∷ cs)) pid none samples probability self_test sequence os =
      ((false, sequence), os)
  archive_activation {F} p (some (c ∷ cs)) pid (some (timestamp, milliseconds)) samples probability
        self_test sequence os =
      let stem = stem_of (c ∷ cs) timestamp milliseconds pid sequence self_test in
      let text = metadata_text p probability (length samples) self_test in
      let (done, os') = archive_as F pid stem text (some samples) os in
      ((done, (sequence + 1) % unsigned_mod), os')
