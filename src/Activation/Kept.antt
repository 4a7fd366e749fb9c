-- ===== src/Activation/Kept.antt =====
-- What `archive_activation` leaves behind, whatever calls of the system fail.
use okay_hermes_realtime.Base.{
  ℕ, ◌<◌, ◌≤◌, ◌≡◌, refl, sym, ◌∙◌, ◌≢◌, Bool, true, false, some, List, ◌∷◌, ◌++◌, arith,
  leb-false→lt, length, length-append, Bool-cases, inl, inr,
}
use okay_hermes_realtime.Base.Bytes.{Bytes, bytes}
use okay_hermes_realtime.Float.{Float, Double}
use okay_hermes_realtime.Posix.{Replies, Os}
use okay_hermes_realtime.Storage.{status_tmp}
use okay_hermes_realtime.Wav.{write_activation_wav, wav_bytes}
use okay_hermes_realtime.Wav.Replace.{write_activation_wav-Reports}
use okay_hermes_realtime.Activation.{Printf}
use okay_hermes_realtime.Activation.Metadata.{wav-metadata, wav_tmp-metadata, add_metadata-Adds}
use okay_hermes_realtime.Activation.Archive.{
  wav_path, metadata_path, metadata_tmp, is_too_long, archive_as, archive_activation, stem_of,
  metadata_text,
}

-- The files of one activation, as `done` says: both of them are whole, or there is no new metadata.
pub record Archived (stem pid wav text : Bytes) (done : Bool) (before after : Os) : Type 0 where
  pub recording : done ≡ true → after.files (wav_path stem) ≡ some wav
  pub metadata : done ≡ true → after.files (metadata_path stem) ≡ some text
  pub no_metadata :
      done ≡ false → after.files (metadata_path stem) ≡ before.files (metadata_path stem)
  pub others :
      (other : Bytes)
      → other ≢ wav_path stem
      → other ≢ status_tmp pid (wav_path stem)
      → other ≢ metadata_path stem
      → other ≢ metadata_tmp stem
      → after.files other ≡ before.files other

status_tmp_fits :
    (pid stem : Bytes)
    → length pid ≤ 20
    → is_too_long stem ≡ false
    → length (status_tmp pid (wav_path stem)) < 8192
status_tmp_fits pid stem short fits = omega (
  arith,
  length-append (wav_path stem) (bytes ".tmp." ++ pid),
  length-append stem (bytes ".wav"),
  leb-false→lt 4096 (length stem) (ground arith),
)

module _ (replies : Replies) where
  archive_as-Archived :
      (F : Float) (pid stem text : Bytes) (samples : List F.Value) (os : Os)
      → length pid ≤ 20
      → let (done, os') = archive_as replies F pid stem text (some samples) os in
        Archived stem pid (wav_bytes F samples) text done os os'
  unfolding archive_as
  archive_as-Archived F pid stem text samples os short = elim (Bool-cases (is_too_long stem)) [
    | inl long ↦ rw long (record {
      recording = λ d. absurd (cc);
      metadata = λ d. absurd (cc);
      no_metadata = λ d. refl;
      others = λ other w wt m mt. refl;
    })
    | inr fits ↦
        let r =
          write_activation_wav-Reports replies F pid (wav_path stem) samples os
            (status_tmp_fits pid stem short fits) in
        let os1 = (write_activation_wav replies F pid (some (wav_path stem)) (some samples) os).1 in
        let a = add_metadata-Adds replies stem text os1 in
        let kept =
          r.others (metadata_path stem) (λ e. wav-metadata stem (sym e))
            (wav_tmp-metadata stem pid) in
        rw fits
          (elim (Bool-cases
            (write_activation_wav replies F pid (some (wav_path stem)) (some samples) os).0) [
              | inl recorded ↦ rw recorded (record {
                recording = λ d. a.wav_kept d ∙ r.new recorded;
                metadata = a.text_kept;
                no_metadata = λ d. a.metadata_old d ∙ kept;
                others = λ other w wt m mt. a.others other w m mt ∙ r.others other w wt;
              })
              | inr failed ↦ rw failed (record {
                recording = λ d. absurd (cc);
                metadata = λ d. absurd (cc);
                no_metadata = λ d. kept;
                others = λ other w wt m mt. r.others other w wt;
              })
            ])
  ]

  -- `archive_activation` into a directory, for any time and whatever calls fail: after success the
  -- recording is the whole WAV file of the samples and beside it stands its whole metadata; after
  -- a failure the metadata file is as it was. No other file is touched, beside the two temporary
  -- ones. The process id has at most 20 characters.
  pub archive_activation-Archived :
      {F : Float} {D : Double} (p : Printf F D) (c : ℕ) (cs pid timestamp : Bytes)
      (milliseconds : ℕ) (samples : List F.Value) (probability : F.Value) (self_test : Bool)
      (sequence : ℕ) (os : Os)
      → length pid ≤ 20
      → let ((done, next), os') =
          archive_activation replies p
            (some (c ∷ cs))
            pid
            (some (timestamp, milliseconds))
            samples
            probability
            self_test
            sequence
            os in
        Archived
          (stem_of (c ∷ cs) timestamp milliseconds pid sequence self_test)
          pid
          (wav_bytes F samples)
          (metadata_text p probability (length samples) self_test)
          done
          os
          os'
  unfolding archive_activation
  archive_activation-Archived {F} p c cs pid timestamp milliseconds samples probability self_test
        sequence os short =
      archive_as-Archived F pid (stem_of (c ∷ cs) timestamp milliseconds pid sequence self_test)
        (metadata_text p probability (length samples) self_test) samples os short
