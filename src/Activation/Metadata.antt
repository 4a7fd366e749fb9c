-- ===== src/Activation/Metadata.antt =====
-- What the metadata of `archive_activation` leaves behind, whatever calls of the system fail.
use okay_hermes_realtime.Base.{
  ℕ, ◌≡◌, refl, sym, ap, ◌∙◌, ◌≢◌, Bool, true, false, none, some, [], ◌++◌, arith, Option-cases,
  inl, inr, append_assoc,
}
use okay_hermes_realtime.Base.Bytes.{Bytes, bytes, bytes_eq_iff, bytes_eq_refl, append_cancel}
use okay_hermes_realtime.Posix.{Replies, Os, open_file}
use okay_hermes_realtime.Posix.Files.{open_file-some, open_file-none}
use okay_hermes_realtime.Storage.{status_tmp}
use okay_hermes_realtime.Activation.Archive.{
  wav_path, metadata_path, metadata_tmp, metadata_failure, write_metadata, add_metadata,
}

-- The metadata file holds `text` and the recording is as it was, if `done`; otherwise the metadata
-- file is as it was. No other file is touched.
pub record Adds (stem text : Bytes) (done : Bool) (before after : Os) : Type 0 where
  pub text_kept : done ≡ true → after.files (metadata_path stem) ≡ some text
  pub wav_kept : done ≡ true → after.files (wav_path stem) ≡ before.files (wav_path stem)
  pub metadata_old :
      done ≡ false → after.files (metadata_path stem) ≡ before.files (metadata_path stem)
  pub others :
      (other : Bytes)
      → other ≢ wav_path stem
      → other ≢ metadata_path stem
      → other ≢ metadata_tmp stem
      → after.files other ≡ before.files other

pub wav-metadata : (stem : Bytes) → wav_path stem ≢ metadata_path stem
wav-metadata stem e = let f : bytes ".wav" ≡ bytes ".json" = append_cancel stem _ _ e in (cc)

wav-tmp : (stem : Bytes) → wav_path stem ≢ metadata_tmp stem
wav-tmp stem e = let f : bytes ".wav" ≡ bytes ".json.tmp" = append_cancel stem _ _ e in (cc)

pub wav_tmp-metadata : (stem pid : Bytes) → metadata_path stem ≢ status_tmp pid (wav_path stem)
wav_tmp-metadata stem pid e =
    let f : bytes ".json" ≡ bytes ".wav" ++ (bytes ".tmp." ++ pid) =
      append_cancel stem _ _ (e ∙ append_assoc stem (bytes ".wav") (bytes ".tmp." ++ pid)) in
    (cc)

pub metadata-tmp : (stem : Bytes) → metadata_path stem ≢ metadata_tmp stem
metadata-tmp stem e = let f : bytes ".json" ≡ bytes ".json.tmp" = append_cancel stem _ _ e in (cc)

module _ (replies : Replies) (stem text : Bytes) where
  metadata_failure-files :
      (os : Os) (other : Bytes)
      → other ≢ wav_path stem
      → other ≢ metadata_tmp stem
      → (metadata_failure replies stem os).1.files other ≡ os.files other
  unfolding metadata_failure
  metadata_failure-files os other w t =
      ground (arith, bytes_eq_iff (wav_path stem) other, bytes_eq_iff (metadata_tmp stem) other)

  module _ (fd : ℕ) (os : Os) (fresh : os.files (metadata_tmp stem) ≡ some []) where
    write_metadata-text :
        let (done, os') = write_metadata replies stem text (some fd) os in
        (done ≡ true → os'.files (metadata_path stem) ≡ some text)
        × (done ≡ true → os'.files (wav_path stem) ≡ os.files (wav_path stem))
        × (done ≡ false → os'.files (metadata_path stem) ≡ os.files (metadata_path stem))
    unfolding write_metadata metadata_failure
    write_metadata-text = ground (
      arith,
      bytes_eq_refl (metadata_path stem),
      bytes_eq_refl (metadata_tmp stem),
      bytes_eq_iff (metadata_path stem) (wav_path stem),
      bytes_eq_iff (metadata_tmp stem) (wav_path stem),
      bytes_eq_iff (metadata_tmp stem) (metadata_path stem),
      bytes_eq_iff (wav_path stem) (metadata_path stem),
      wav-metadata stem,
      wav-tmp stem,
      metadata-tmp stem,
    )

    write_metadata-others :
        (other : Bytes)
        → other ≢ wav_path stem
        → other ≢ metadata_path stem
        → other ≢ metadata_tmp stem
        → (write_metadata replies stem text (some fd) os).1.files other ≡ os.files other
    unfolding write_metadata metadata_failure
    write_metadata-others other w m t = ground (
      arith,
      bytes_eq_iff (wav_path stem) other,
      bytes_eq_iff (metadata_path stem) other,
      bytes_eq_iff (metadata_tmp stem) other,
    )

  write_metadata-none :
      (os1 : Os) → write_metadata replies stem text none os1 ≡ metadata_failure replies stem os1
  unfolding write_metadata
  write_metadata-none os1 = refl

  failure-false : (os1 : Os) → (metadata_failure replies stem os1).0 ≡ true → ⊥
  unfolding metadata_failure
  failure-false os1 d = cc

  unopened :
      (os : Os) (other : Bytes)
      → other ≢ metadata_tmp stem
      → (fd : ℕ) → (open_file replies (metadata_tmp stem) os).0 ≡ some fd
      → (open_file replies (metadata_tmp stem) os).1.files other ≡ os.files other
  unopened os other t fd found =
      let (number, files, opens, strays) = open_file-some replies (metadata_tmp stem) os fd found in
      files other ∙ ground (arith, bytes_eq_iff (metadata_tmp stem) other)

  pub add_metadata-Adds :
      (os : Os) → let (done, os') = add_metadata replies stem text os in Adds stem text done os os'
  unfolding add_metadata
  add_metadata-Adds os = elim (Option-cases (open_file replies (metadata_tmp stem) os).0) [
    | inl missing ↦
        let same = open_file-none replies (metadata_tmp stem) os missing in
        let os1 = (open_file replies (metadata_tmp stem) os).1 in
        rw (missing, write_metadata-none os1)
          (record {
            text_kept = λ d. absurd (failure-false os1 d);
            wav_kept = λ d. absurd (failure-false os1 d);
            metadata_old = λ d.
                metadata_failure-files os1 (metadata_path stem) (λ e. wav-metadata stem (sym e))
                  (metadata-tmp stem)
                ∙ ap (λ o. o.files (metadata_path stem)) same;
            others =
                λ other w m t. metadata_failure-files os1 other w t ∙ ap (λ o. o.files other) same;
          })
    | inr (fd, found) ↦
        let (number, files, opens, strays) =
          open_file-some replies (metadata_tmp stem) os fd found in
        let os1 = (open_file replies (metadata_tmp stem) os).1 in
        let fresh = files (metadata_tmp stem) ∙ ground (arith, bytes_eq_refl (metadata_tmp stem)) in
        let (text_kept, wav_kept, old) = write_metadata-text fd os1 fresh in
        rw found (record {
          text_kept = text_kept;
          wav_kept = λ d. wav_kept d ∙ unopened os (wav_path stem) (wav-tmp stem) fd found;
          metadata_old = λ d. old d ∙ unopened os (metadata_path stem) (metadata-tmp stem) fd found;
          others = λ other w m t.
              write_metadata-others fd os1 fresh other w m t ∙ unopened os other t fd found;
        })
  ]
