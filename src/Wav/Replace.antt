-- ===== src/Wav/Replace.antt =====
-- What `write_activation_wav` leaves behind, whatever calls of the system fail.
use okay_hermes_realtime.Base.{
  ℕ, ◌*◌, ◌<◌, ◌≡◌, refl, sym, ap, ◌∙◌, ◌≢◌, ◌/◌, ltb, Bool, true, false, ◌||◌, none, some, List,
  [], ◌++◌, arith, ◌==◌, length, Bool-cases, Option-cases, inl, inr,
}
use okay_hermes_realtime.Base.Bytes.{
  Bytes, bytes, bytes_eq_iff, bytes_eq_refl, append-ne, snprintf_fits,
}
use okay_hermes_realtime.Float.{Float}
use okay_hermes_realtime.Posix.{Replies, Os, call, close, unlink, rename, Io, open_file, ◌&&>◌}
use okay_hermes_realtime.Posix.Write.{write_all_to}
use okay_hermes_realtime.Posix.Files.{write_all_to_lem, open_file-some, open_file-none}
use okay_hermes_realtime.Storage.Parents.{ensure_parent_dir-MakesOnly}
use okay_hermes_realtime.Numbers.{uint32_max}
use okay_hermes_realtime.Storage.{ensure_parent_dir, status_tmp}
use okay_hermes_realtime.Wav.{
  write_parts, give_up, write_opened, replace_file, write_activation_wav, wav_header, pcm_bytes,
  wav_bytes,
}

module _ (replies : Replies) where
  -- `fsync` and `close` leave the files.
  sync_close-files :
      (fd : ℕ) (os : Os) → ((call replies &&> close replies fd) os).1.files ≡ os.files
  unfolding call close
  sync_close-files fd os = ground arith

  -- The parts written to a fresh temporary file.
  write_parts_lem :
      (tmp header pcm : Bytes) (fd : ℕ) (os : Os)
      → os.files tmp ≡ some []
      → let (done, os') = write_parts replies tmp header pcm fd os in
        ((other : Bytes) → other ≢ tmp → os'.files other ≡ os.files other)
        × (done ≡ true → os'.files tmp ≡ some (header ++ pcm))
  unfolding write_parts
  write_parts_lem tmp header pcm fd os fresh =
      let (only1, full1, some1) = write_all_to_lem replies tmp header [] os fresh in
      let (done1, os1) = write_all_to replies tmp header os in
      let (content, held) = some1 in
      let (only2, full2, some2) = write_all_to_lem replies tmp pcm content os1 held in
      let (done2, os2) = write_all_to replies tmp pcm os1 in
      let last = sync_close-files fd os2 in
      elim (Bool-cases done1) [
        | inr part ↦ rw part (λ other ne. only1.others other ne, λ d. absurd (cc))
        | inl all1 ↦ rw all1 (elim (Bool-cases done2) [
          | inr part ↦
              rw part
                ((λ other ne. only2.others other ne ∙ only1.others other ne), λ d. absurd (cc))
          | inl all2 ↦ rw all2 (
            (λ other ne. ap (λ g. g other) last ∙ only2.others other ne ∙ only1.others other ne),
            λ d.
                ap (λ g. g tmp) last
                ∙ full2 all2
                ∙ (let same : some content ≡ some header = sym held ∙ full1 all1 in cc),
          )
        ])
      ]

-- The file at `path` is replaced by `text`, or is as before, as `done` says; no file beside it and
-- the temporary one is touched.
pub record Reports (path tmp text : Bytes) (done : Bool) (before after : Os) : Type 0 where
  pub new : done ≡ true → after.files path ≡ some text
  pub old : done ≡ false → after.files path ≡ before.files path
  pub others : (other : Bytes) → other ≢ path → other ≢ tmp → after.files other ≡ before.files other

module _ (replies : Replies) (path tmp header pcm : Bytes) (apart : tmp ≢ path) where
  -- The calls behind the parts, from any state in which they have been written.
  rename_step :
      (os : Os)
      → os.files tmp ≡ some (header ++ pcm)
      → let (done, os') = rename replies tmp path os in
        let os'' = (give_up replies tmp os').1 in
        (done ≡ true
          → (os'.files path ≡ some (header ++ pcm))
            × ((other : Bytes) → other ≢ path → other ≢ tmp → os'.files other ≡ os.files other))
        × (done ≡ false
            → (os''.files path ≡ os.files path)
              × ((other : Bytes) → other ≢ tmp → os''.files other ≡ os.files other))
  unfolding rename unlink
  rename_step os full = (
    (λ d. (
      ground (arith, bytes_eq_refl path),
      λ other p t. ground (arith, bytes_eq_iff path other, bytes_eq_iff tmp other),
    )),
    (λ d.
        (ground (arith, bytes_eq_iff tmp path), λ other t. ground (arith, bytes_eq_iff tmp other))),
  )

  close-give_up :
      (fd : ℕ) (os : Os) (other : Bytes)
      → other ≢ tmp
      → (give_up replies tmp (close replies fd os).1).1.files other ≡ os.files other
  unfolding close unlink
  close-give_up fd os other t = ground (arith, bytes_eq_iff tmp other)

  write_opened-Reports :
      (fd : ℕ) (os : Os)
      → os.files tmp ≡ some []
      → let (done, os') = write_opened replies path tmp header pcm (some fd) os in
        Reports path tmp (header ++ pcm) done os os'
  unfolding write_opened
  write_opened-Reports fd os fresh =
      let (kept, full) = write_parts_lem replies tmp header pcm fd os fresh in
      let os1 = (write_parts replies tmp header pcm fd os).1 in
      elim (Bool-cases (write_parts replies tmp header pcm fd os).0) [
        | inr failed ↦ rw failed (record {
          new = λ d. absurd (cc);
          old =
              λ d. close-give_up fd os1 path (λ e. apart (sym e)) ∙ kept path (λ e. apart (sym e));
          others = λ other p t. close-give_up fd os1 other t ∙ kept other t;
        })
        | inl written ↦
            let (renamed, refused) = rename_step os1 (full written) in
            rw written (elim (Bool-cases (rename replies tmp path os1).0) [
              | inl moved ↦ rw moved (record {
                new = λ d. (renamed moved).0;
                old = λ d. absurd (cc);
                others = λ other p t. (renamed moved).1 other p t ∙ kept other t;
              })
              | inr stuck ↦ rw stuck (record {
                new = λ d. absurd (cc);
                old = λ d. (refused stuck).0 ∙ kept path (λ e. apart (sym e));
                others = λ other p t. (refused stuck).1 other t ∙ kept other t;
              })
            ])
      ]

module _ (path tmp text : Bytes) where
  -- An operation before, which leaves the files and stops the rest if it fails.
  Reports-before :
      (first rest : Io Bool) (os : Os)
      → (first os).1.files ≡ os.files
      → ((os' : Os) → Reports path tmp text (rest os').0 os' (rest os').1)
      → let (done, os') = (first &&> rest) os in Reports path tmp text done os os'
  Reports-before first rest os quiet go = elim (Bool-cases (first os).0) [
    | inl done ↦ rw done (
        let r = go (first os).1 in
        record {
          new = r.new;
          old = λ d. r.old d ∙ ap (λ g. g path) quiet;
          others = λ other p t. r.others other p t ∙ ap (λ g. g other) quiet;
        })
    | inr failed ↦ rw failed (record {
      new = λ d. absurd (cc);
      old = λ d. ap (λ g. g path) quiet;
      others = λ other p t. ap (λ g. g other) quiet;
    })
  ]

module _ (replies : Replies) where
  call-files : (os : Os) → (call replies os).1.files ≡ os.files
  unfolding call
  call-files os = refl

  give_up-files :
      (tmp : Bytes) (os : Os) (other : Bytes)
      → other ≢ tmp
      → (give_up replies tmp os).1.files other ≡ os.files other
  unfolding unlink
  give_up-files tmp os other t = ground (arith, bytes_eq_iff tmp other)

  write_opened-none :
      (path tmp header pcm : Bytes) (os : Os)
      → write_opened replies path tmp header pcm none os ≡ give_up replies tmp os
  unfolding write_opened
  write_opened-none path tmp header pcm os = refl

  replace_file-Reports :
      (path tmp header pcm : Bytes) (os : Os)
      → tmp ≢ path
      → let (done, os') = replace_file replies path tmp header pcm os in
        Reports path tmp (header ++ pcm) done os os'
  unfolding replace_file
  replace_file-Reports path tmp header pcm os apart =
      elim (Option-cases (open_file replies tmp os).0) [
        | inl missing ↦
            rw (missing, write_opened-none path tmp header pcm (open_file replies tmp os).1)
              (record {
                new = λ d. absurd (cc);
                old = λ d.
                    give_up-files tmp _ path (λ e. apart (sym e))
                    ∙ ap (λ o. o.files path) (open_file-none replies tmp os missing);
                others = λ other p t.
                    give_up-files tmp _ other t
                    ∙ ap (λ o. o.files other) (open_file-none replies tmp os missing);
              })
        | inr (fd, found) ↦
            let (number, files, opens, strays) = open_file-some replies tmp os fd found in
            let r =
              write_opened-Reports replies path tmp header pcm apart fd (open_file replies tmp os).1
                (files tmp ∙ ground (arith, bytes_eq_refl tmp)) in
            rw found (record {
              new = r.new;
              old = λ d. r.old d ∙ files path ∙ ground (arith, bytes_eq_iff tmp path);
              others = λ other p t.
                  r.others other p t ∙ files other ∙ ground (arith, bytes_eq_iff tmp other);
            })
      ]

  -- `write_activation_wav`, whatever calls fail: after it reports success the whole WAV file is
  -- in place, and after a failure the file at the path is as it was; no file beside it and its
  -- temporary is touched. The name of the temporary file has to fit its buffer.
  pub write_activation_wav-Reports :
      (F : Float) (pid path : Bytes) (samples : List F.Value) (os : Os)
      → length (status_tmp pid path) < 8192
      → let (done, os') = write_activation_wav replies F pid (some path) (some samples) os in
        Reports path (status_tmp pid path) (wav_bytes F samples) done os os'
  unfolding write_activation_wav
  write_activation_wav-Reports F pid path samples os fits =
      elim (Bool-cases (length samples == 0 || ltb (uint32_max / 2) (length samples))) [
        | inl refused ↦
            rw refused
              (record { new = λ d. absurd (cc); old = λ d. refl; others = λ other p t. refl })
        | inr accepted ↦
            rw (accepted, snprintf_fits 8192 (status_tmp pid path) fits)
              (Reports-before path (status_tmp pid path) (wav_bytes F samples)
                (ensure_parent_dir replies (some path)) _ os
                (ensure_parent_dir-MakesOnly replies (some path) os).files
                (λ os1.
                  Reports-before path (status_tmp pid path) (wav_bytes F samples) (call replies) _
                    os1 (call-files os1)
                    (λ os2.
                      replace_file-Reports path (status_tmp pid path)
                        (wav_header (length samples * 2)) (pcm_bytes F samples) os2
                        (append-ne path (bytes ".tmp." ++ pid) (omega arith)))))
      ]
