-- ===== src/Descriptors/Archive.antt =====
-- `archive_activation` closes what it opens.
use okay_hermes_realtime.Base.{
  ℕ, ◌≡◌, refl, ap, ◌∙◌, Bool, true, false, ◌&&◌, Option, none, some, List, [], ◌∷◌, if◌then◌else◌,
  Bool-cases, inl, inr, length,
}
use okay_hermes_realtime.Base.Bytes.{Bytes}
use okay_hermes_realtime.Float.{Float, Double}
use okay_hermes_realtime.Posix.{Replies, Os, pure, ◌>>=◌, close, unlink, rename}
use okay_hermes_realtime.Posix.Balance.{
  Same, Balanced, IsFresh, Same-trans, unlink-Same, rename-Same, close_open, Closes,
  open_file-Balanced, unchanged, and_Balanced,
}
use okay_hermes_realtime.Storage.{print_and_sync}
use okay_hermes_realtime.Wav.{write_activation_wav}
use okay_hermes_realtime.Activation.{Printf}
use okay_hermes_realtime.Activation.Archive.{
  stem_of, metadata_text, is_too_long, wav_path, metadata_path, metadata_tmp, metadata_failure,
  write_metadata, add_metadata, archive_as, archive_activation,
}
use okay_hermes_realtime.Descriptors.Files.{print_and_sync-Same, Closes-after, Closes-before}
use okay_hermes_realtime.Descriptors.Wav.{write_activation_wav-Balanced}

module _ (replies : Replies) where
  metadata_failure-Same : (stem : Bytes) (os : Os) → Same os (metadata_failure replies stem os).1
  unfolding metadata_failure
  metadata_failure-Same stem os =
      let os1 = (unlink replies (metadata_tmp stem) os).1 in
      Same-trans os os1 _ (unlink-Same replies (metadata_tmp stem) os)
        (unlink-Same replies (wav_path stem) os1)

  moved-Same :
      (stem : Bytes) (moved : Bool) (os : Os)
      → Same os ((if moved then pure true else metadata_failure replies stem) os).1
  moved-Same stem true os = record { is_open = refl; next_fd = refl }
  moved-Same stem false os = metadata_failure-Same stem os

  written-Same :
      (stem : Bytes) (written : Bool) (os : Os)
      → Same os
          ((if written
              then (do
                moved ← rename replies (metadata_tmp stem) (metadata_path stem)
                if moved then pure true else metadata_failure replies stem)
              else metadata_failure replies stem)
            os).1
  written-Same stem false os = metadata_failure-Same stem os
  written-Same stem true os =
      let m = rename replies (metadata_tmp stem) (metadata_path stem) os in
      Same-trans os m.1 _ (rename-Same replies (metadata_tmp stem) (metadata_path stem) os)
        (moved-Same stem m.0 m.1)

  write_metadata-Closes :
      (stem text : Bytes) (fd : ℕ) (os : Os)
      → os.is_open fd ≡ true
      → Closes replies fd os (write_metadata replies stem text (some fd) os).1
  unfolding write_metadata
  write_metadata-Closes stem text fd os opened =
      let p = print_and_sync replies (metadata_tmp stem) text os in
      let s = print_and_sync-Same replies (metadata_tmp stem) text os in
      let c = close replies fd p.1 in
      let last = (write_metadata replies stem text (some fd) os).1 in
      Closes-before replies fd os p.1 last s (
        Closes-after replies fd p.1 c.1 last
          (close_open replies fd p.1 (ap (λ g. g fd) s.is_open ∙ opened))
          (written-Same stem (p.0 && c.0) c.1))

  add_metadata-Balanced :
      (stem text : Bytes) (os : Os) → IsFresh os → Balanced os (add_metadata replies stem text os).1
  unfolding add_metadata write_metadata
  add_metadata-Balanced stem text os fresh =
      open_file-Balanced replies (metadata_tmp stem) (write_metadata replies stem text) os fresh
        (λ os'. metadata_failure-Same stem os')
        (λ fd os' opened. write_metadata-Closes stem text fd os' opened)

  archive_as-Balanced :
      (F : Float) (pid stem text : Bytes) (samples : Option (List F.Value)) (os : Os)
      → IsFresh os
      → Balanced os (archive_as replies F pid stem text samples os).1
  unfolding archive_as
  archive_as-Balanced F pid stem text samples os fresh = elim (Bool-cases (is_too_long stem)) [
    | inl long ↦ rw long (unchanged os)
    | inr fits ↦ rw fits (
        and_Balanced (write_activation_wav replies F pid (some (wav_path stem)) samples)
          (add_metadata replies stem text) os fresh
          (λ a f. write_activation_wav-Balanced replies F pid (some (wav_path stem)) samples a f)
          (λ a f. add_metadata-Balanced stem text a f))
  ]

  pub archive_activation-Balanced :
      {F : Float} {D : Double} (p : Printf F D) (directory : Option Bytes) (pid : Bytes)
      (clock : Option (Bytes × ℕ)) (samples : List F.Value) (probability : F.Value)
      (self_test : Bool) (sequence : ℕ) (os : Os)
      → IsFresh os
      → Balanced os
          (archive_activation replies p directory pid clock samples probability self_test sequence
            os).1
  unfolding archive_activation
  archive_activation-Balanced p none pid clock samples probability self_test sequence os fresh =
      unchanged os
  archive_activation-Balanced p (some []) pid clock samples probability self_test sequence os
        fresh =
      unchanged os
  archive_activation-Balanced p (some (c ∷ cs)) pid none samples probability self_test sequence os
        fresh =
      unchanged os
  archive_activation-Balanced {F} p (some (c ∷ cs)) pid (some (timestamp, ms)) samples probability
        self_test sequence os fresh =
      archive_as-Balanced F pid (stem_of (c ∷ cs) timestamp ms pid sequence self_test)
        (metadata_text p probability (length samples) self_test) (some samples) os fresh
