-- ===== src/SelfTest/Report.antt =====
-- What the self-test reports and what it leaves in the archive.
use okay_hermes_realtime.Base.{
  ℕ, ◌+◌, ◌≤◌, ◌<◌, ◌≡◌, refl, ◌∙◌, sym, ap, Bool, true, false, ◌&&◌, some, List, [], ◌∷◌, ◌++◌,
  arith, leb, length, take, take-length, Bool-cases, inl, inr, length-append,
}
use okay_hermes_realtime.Base.Bytes.{Bytes, bytes}
use okay_hermes_realtime.Float.{Float, Double}
use okay_hermes_realtime.Resample.{model_samples}
use okay_hermes_realtime.Posix.{Replies, Os}
use okay_hermes_realtime.Posix.Write.{write_all, write_all-Outcome}
use okay_hermes_realtime.Storage.{newline}
use okay_hermes_realtime.Wav.{wav_bytes}
use okay_hermes_realtime.Activation.{Printf, Sent, received}
use okay_hermes_realtime.Activation.Archive.{
  archive_activation, stem_of, metadata_text, wav_path, metadata_path,
}
use okay_hermes_realtime.Activation.Kept.{Archived, archive_activation-Archived}
use okay_hermes_realtime.SelfTest.{
  mean_of, archive_window, self_test_payload, self_test_archive, self_test_report, self_test_output,
}
use okay_hermes_realtime.SelfTest.Frames.{latest_frames, self_test_sample-mean_of}

-- The self-test succeeds exactly if the archive and the write do. Success sends the whole payload and
-- leaves both files of the archive; a failure sends less.
pub record SelfTested (payload stem wav text : Bytes) (archived complete : Bool) (sent : Sent)
    (after : Os) : Type 0 where
  pub exact : sent.done ≡ (archived && complete)
  pub whole : sent.done ≡ true → sent.text ≡ payload
  pub recording : sent.done ≡ true → after.files (wav_path stem) ≡ some wav
  pub metadata : sent.done ≡ true → after.files (metadata_path stem) ≡ some text
  pub count : ℕ
  pub part : sent.text ≡ take count payload
  pub short : sent.done ≡ false → count < length payload

module _ (replies : Replies) {F : Float} {D : Double} (p : Printf F D) (c : ℕ)
    (cs pid timestamp : Bytes) (milliseconds sequence : ℕ) where
  abbrev pub stem : Bytes
  stem = stem_of (c ∷ cs) timestamp milliseconds pid sequence true

  abbrev pub window : List F.Value
  window = archive_window F model_samples 0

  abbrev pub archive : Os → (Bool × ℕ) × Os
  archive =
      archive_activation replies p (some (c ∷ cs)) pid (some (timestamp, milliseconds)) window
        (F.of_unsigned 1) true sequence

  abbrev pub window_text : Bytes
  window_text = metadata_text p (F.of_unsigned 1) (length window) true

  -- The write of the payload is complete.
  abbrev pub sends : Bytes → Os → Bool
  sends payload os = (received os (write_all replies payload os.calls)).0

  self_test_report-SelfTested :
      (payload : Bytes) (os : Os)
      → 0 < length payload
      → length payload < 256
      → length pid ≤ 20
      → let (sent, os') =
          self_test_report replies p
            (some (c ∷ cs))
            pid
            (some (timestamp, milliseconds))
            true
            sequence
            payload
            os in
        SelfTested payload stem
          (wav_bytes F window)
          window_text
          (archive os).0.0
          (sends payload (archive os).1)
          sent
          os'
  unfolding self_test_report self_test_archive
  self_test_report-SelfTested payload os there fits short =
      let a : Archived stem pid (wav_bytes F window) window_text (archive os).0.0 os
          (archive os).1 =
        archive_activation-Archived replies p c cs pid timestamp milliseconds window
          (F.of_unsigned 1) true sequence os short in
      let small : leb 256 (length payload) ≡ false = ground arith in
      rw small (elim (Bool-cases (archive os).0.0) [
        | inl archived ↦
            let o = write_all-Outcome replies payload (archive os).1.calls in
            rw (archived, o.returns)
              (record {
                exact = ap (λ r. (received (archive os).1 r).0) (sym o.returns);
                whole = λ d. o.arrived ∙ ap (λ k. take k payload) (o.all d) ∙ take-length payload;
                recording = λ d. a.recording archived;
                metadata = λ d. a.metadata archived;
                count = o.count;
                part = o.arrived;
                short = o.part;
              })
        | inr failed ↦ rw failed (record {
          exact = refl;
          whole = λ d. absurd (cc);
          recording = λ d. absurd (cc);
          metadata = λ d. absurd (cc);
          count = 0;
          part = refl;
          short = λ d. there;
        })
      ])

  length-self_test_payload :
      (sample : F.Value)
      → length (self_test_payload p sample) ≡ length (p.float_9f (F.fabs sample)) + 64
  unfolding self_test_payload
  length-self_test_payload sample =
      omega (arith, length-append (p.float_9f (F.fabs sample)) (bytes "}" ++ (newline ∷ [])))

  -- The self-test with the memory it asks for, a directory of activations, any time and any answers
  -- of the system, when the score prints in at most 180 characters and the process id in at most
  -- 20: it never lacks frames, and its score is that of the last four test frames, each taken twice.
  -- It returns 0 exactly if the test window is archived and the write of the report is complete.
  -- Then the whole report is on the standard output, and the recording of the test window and its
  -- metadata are in the archive. Otherwise a part of the report is, and never the whole of it.
  pub self_test_output-SelfTested :
      (os : Os)
      → length (p.float_9f (F.fabs (mean_of F (latest_frames F)))) ≤ 180
      → length pid ≤ 20
      → let (sent, os') =
          self_test_output replies p
            (some (c ∷ cs))
            pid
            (some (timestamp, milliseconds))
            true
            sequence
            true
            os in
        let payload = self_test_payload p (mean_of F (latest_frames F)) in
        SelfTested payload stem
          (wav_bytes F window)
          window_text
          (archive os).0.0
          (sends payload (archive os).1)
          sent
          os'
  unfolding self_test_output
  self_test_output-SelfTested os prints short =
      let size = length-self_test_payload (mean_of F (latest_frames F)) in
      rw (self_test_sample-mean_of F, self_test_output)
        (self_test_report-SelfTested (self_test_payload p (mean_of F (latest_frames F))) os
          (omega (arith, size)) (omega (arith, size)) short)
