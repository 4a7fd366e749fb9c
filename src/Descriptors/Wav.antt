-- ===== src/Descriptors/Wav.antt =====
-- `write_activation_wav` closes what it opens, also where it closes twice.
use okay_hermes_realtime.Numbers.{uint32_max}
use okay_hermes_realtime.Base.{
  ℕ, ◌≡◌, refl, ap, ◌∙◌, Bool, true, false, ◌||◌, Option, none, some, List, arith, ◌==◌,
  if◌then◌else◌, Bool-cases, inl, inr, length, ltb, ◌⊎◌, ◌*◌, ◌/◌,
}
use okay_hermes_realtime.Base.Bytes.{Bytes, snprintf}
use okay_hermes_realtime.Float.{Float}
use okay_hermes_realtime.Posix.{Replies, Os, Io, pure, ◌>>=◌, ◌&&>◌, call, close, unlink, rename}
use okay_hermes_realtime.Posix.Write.{write_all_to}
use okay_hermes_realtime.Posix.Balance.{
  Same, Balanced, IsFresh, Same-trans, Same-Balanced, call-Same, unlink-Same, rename-Same,
  write_all_to-Same, close_open, close-Same, Closes, open_file-Balanced, unchanged, and_Balanced,
}
use okay_hermes_realtime.Storage.{status_tmp, ensure_parent_dir}
use okay_hermes_realtime.Wav.{
  wav_header, pcm_bytes, write_parts, write_opened, replace_file, write_activation_wav, give_up,
}
use okay_hermes_realtime.Descriptors.Files.{ensure_parent_dir-Same, Closes-after, Closes-before}

module _ (replies : Replies) where
  -- Steps that fail with the descriptor still open, or that have closed it.
  abbrev Ends : ℕ → Io Bool → Type 0
  Ends fd m =
      (os : Os)
      → os.is_open fd ≡ true
      → (((m os).0 ≡ false) × Same os (m os).1) ⊎ Closes replies fd os (m os).1

  and_Ends :
      (fd : ℕ) (m k : Io Bool) → ((os : Os) → Same os (m os).1) → Ends fd k → Ends fd (m &&> k)
  and_Ends fd m k a b os opened = elim (Bool-cases (m os).0) [
    | inl done ↦ rw done (elim (b (m os).1 (ap (λ g. g fd) (a os).is_open ∙ opened)) [
      | inl (failed, s) ↦ inl (failed, Same-trans os (m os).1 (k (m os).1).1 (a os) s)
      | inr c ↦ inr (Closes-before replies fd os (m os).1 (k (m os).1).1 (a os) c)
    ])
    | inr failed ↦ rw failed (inl (refl, a os))
  ]

  write_parts-Ends :
      (tmp header pcm : Bytes) (fd : ℕ) → Ends fd (write_parts replies tmp header pcm fd)
  unfolding write_parts
  write_parts-Ends tmp header pcm fd =
      and_Ends fd (write_all_to replies tmp header)
        (write_all_to replies tmp pcm &&> (call replies &&> close replies fd))
        (write_all_to-Same replies tmp header)
        (and_Ends fd (write_all_to replies tmp pcm) (call replies &&> close replies fd)
          (write_all_to-Same replies tmp pcm)
          (and_Ends fd (call replies) (close replies fd) (call-Same replies)
            (λ os opened. inr (close_open replies fd os opened))))

  renamed-Same :
      (path tmp : Bytes) (os : Os)
      → Same os
          ((do
            renamed ← rename replies tmp path
            if renamed then pure true else give_up replies tmp)
            os).1
  renamed-Same path tmp os = elim (Bool-cases (rename replies tmp path os).0) [
    | inl done ↦ rw done (rename-Same replies tmp path os)
    | inr failed ↦ rw failed (
        Same-trans os (rename replies tmp path os).1 _ (rename-Same replies tmp path os)
          (unlink-Same replies tmp (rename replies tmp path os).1))
  ]

  closed_already :
      (fd : ℕ) (tmp : Bytes) (a b : Os)
      → Closes replies fd a b
      → Closes replies fd a (unlink replies tmp (close replies fd b).1).1
  closed_already fd tmp a b c =
      let shut : b.is_open fd ≡ false = c.0 fd ∙ ground arith in
      Closes-after replies fd a b _ c (
        Same-trans b (close replies fd b).1 _ (close-Same replies fd b shut)
          (unlink-Same replies tmp (close replies fd b).1))

  write_opened-Closes :
      (path tmp header pcm : Bytes) (fd : ℕ) (os : Os)
      → os.is_open fd ≡ true
      → Closes replies fd os (write_opened replies path tmp header pcm (some fd) os).1
  unfolding write_opened
  write_opened-Closes path tmp header pcm fd os opened =
      let os1 = (write_parts replies tmp header pcm fd os).1 in
      elim (write_parts-Ends tmp header pcm fd os opened) [
        | inl (failed, s) ↦ rw failed (
            Closes-before replies fd os os1 (unlink replies tmp (close replies fd os1).1).1 s (
              Closes-after replies fd os1 (close replies fd os1).1 _
                (close_open replies fd os1 (ap (λ g. g fd) s.is_open ∙ opened))
                (unlink-Same replies tmp (close replies fd os1).1)))
        | inr c ↦ elim (Bool-cases (write_parts replies tmp header pcm fd os).0) [
          | inl done ↦ rw done (Closes-after replies fd os os1 _ c (renamed-Same path tmp os1))
          | inr failed ↦ rw failed (closed_already fd tmp os os1 c)
        ]
      ]

  replace_file-Balanced :
      (path tmp header pcm : Bytes) (os : Os)
      → IsFresh os
      → Balanced os (replace_file replies path tmp header pcm os).1
  unfolding replace_file write_opened
  replace_file-Balanced path tmp header pcm os fresh =
      open_file-Balanced replies tmp (write_opened replies path tmp header pcm) os fresh
        (λ os'. unlink-Same replies tmp os')
        (λ fd os' opened. write_opened-Closes path tmp header pcm fd os' opened)

  pub write_activation_wav-Balanced :
      (F : Float) (pid : Bytes) (path : Option Bytes) (samples : Option (List F.Value)) (os : Os)
      → IsFresh os
      → Balanced os (write_activation_wav replies F pid path samples os).1
  unfolding write_activation_wav
  write_activation_wav-Balanced F pid none samples os fresh = unchanged os
  write_activation_wav-Balanced F pid (some path) none os fresh = unchanged os
  write_activation_wav-Balanced F pid (some path) (some samples) os fresh =
      let header = wav_header (length samples * 2) in
      let tmp = snprintf 8192 (status_tmp pid path) in
      elim (Bool-cases (length samples == 0 || ltb (uint32_max / 2) (length samples))) [
        | inl refused ↦ rw refused (unchanged os)
        | inr accepted ↦ rw accepted (
            and_Balanced (ensure_parent_dir replies (some path))
              (call replies &&> replace_file replies path tmp header (pcm_bytes F samples)) os fresh
              (λ a f. Same-Balanced a _ (ensure_parent_dir-Same replies (some path) a))
              (λ a f.
                and_Balanced (call replies)
                  (replace_file replies path tmp header (pcm_bytes F samples)) a f
                  (λ b g. Same-Balanced b _ (call-Same replies b))
                  (λ b g. replace_file-Balanced path tmp header (pcm_bytes F samples) b g)))
      ]
