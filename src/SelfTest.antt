-- ===== src/SelfTest.antt =====
-- `self_test_output` of native/okay-hermes-realtime-wake-listener.c, on the program's own functions.
-- Whether `calloc` gives the ring and the archived window their memory is an argument each.
pub mod Frames
pub mod Report
use okay_hermes_realtime.Base.{
  ℕ, zero, suc, ◌+◌, ◌-◌, ◌*◌, ◌/◌, ◌%◌, Bool, true, false, not, Option, none, some, List, [], ◌∷◌,
  ◌++◌, ltb, leb, if◌then◌else◌, length, get_or,
}
use okay_hermes_realtime.Base.Bytes.{Bytes, bytes}
use okay_hermes_realtime.Float.{Float, Double}
use okay_hermes_realtime.Ring.{SampleRing, ring_init, ring_snapshot_latest}
use okay_hermes_realtime.Resample.{
  model_rate, model_seconds, model_samples, mix_and_resample_downmix,
}
use okay_hermes_realtime.Posix.{Replies, Os}
use okay_hermes_realtime.Posix.Write.{write_all}
use okay_hermes_realtime.Storage.{newline}
use okay_hermes_realtime.Activation.{Printf, Sent, received}
use okay_hermes_realtime.Activation.Archive.{archive_activation}

module _ (F : Float) where
  open F use {Value, of_unsigned, neg, add, div}

  -- A literal such as `0.25f`, the quotient nearest to `n / d`.
  abbrev pub ratio : ℕ → ℕ → Value
  ratio n d = div (of_unsigned n) (of_unsigned d)

  abbrev pub deterministic_frames : List Value
  deterministic_frames =
      of_unsigned 0
      ∷ of_unsigned 0
      ∷ ratio 1 2
      ∷ neg (ratio 1 2)
      ∷ of_unsigned 1
      ∷ of_unsigned 1
      ∷ neg (ratio 1 2)
      ∷ ratio 1 2
      ∷ ratio 1 4
      ∷ ratio 3 4
      ∷ neg (of_unsigned 1)
      ∷ neg (of_unsigned 1)
      ∷ ratio 1 10
      ∷ ratio 1 5
      ∷ neg (ratio 1 10)
      ∷ neg (ratio 1 5)
      ∷ []

  -- `(latest[0] + … + latest[7]) / 8.0f`
  abbrev pub mean_of : List Value → Value
  mean_of latest =
      let at = λ (i : ℕ). get_or latest i (of_unsigned 0) in
      div
        (add (add (add (add (add (add (add (at 0) (at 1)) (at 2)) (at 3)) (at 4)) (at 5)) (at 6))
          (at 7))
        (of_unsigned 8)

  abbrev pub no_ring : SampleRing Value
  no_ring = record { samples = none; capacity = 0; write_index = 0; total_written = 0 }

  -- From `ring_init` to `sample`: `none` for the first two failures.
  unfoldable pub self_test_sample : Bool → Option Value
  self_test_sample allocated =
      let (done, ring) = ring_init (of_unsigned 0) allocated (model_rate * model_seconds) no_ring in
      if not done
      then none
      else let (ring', accumulator) =
          mix_and_resample_downmix F (some deterministic_frames) 8 2 (model_rate / 2) ring 0 in
        let latest = ring_snapshot_latest (of_unsigned 0) ring' 8 in
        if ltb (length latest) 8 then none else some (mean_of latest)

  -- `(float)((int)(i % 200U) - 100) / 1000.0f`
  abbrev pub window_sample : ℕ → Value
  window_sample i =
      div
        (if leb 100 (i % 200)
          then of_unsigned (i % 200 - 100)
          else neg (of_unsigned (100 - i % 200)))
        (of_unsigned 1000)

  -- The loop that fills `archive_window`, with the rounds left and `i`.
  unfoldable pub archive_window : ℕ → ℕ → List Value
  archive_window zero i = []
  archive_window (suc n) i = window_sample i ∷ archive_window n (i + 1)

module _ {F : Float} {D : Double} (p : Printf F D) where
  unfoldable pub self_test_payload : F.Value → Bytes
  self_test_payload sample =
      bytes "{\"event\":\"self_test\",\"type\":\"self_test\",\"status\":\"ok\",\"score\":"
      ++ (p.float_9f (F.fabs sample) ++ (bytes "}" ++ (newline ∷ [])))

module _ (replies : Replies) {F : Float} {D : Double} (p : Printf F D)
    (activation_archive_dir : Option Bytes) (pid : Bytes) (clock : Option (Bytes × ℕ))
    (window_allocated : Bool) (sequence : ℕ) where
  -- The branch for a directory of activations: its success and the sequence number after it.
  unfoldable pub self_test_archive : Os → (Bool × ℕ) × Os
  self_test_archive os = elim activation_archive_dir [
    | none ↦ ((true, sequence), os)
    | some directory ↦
        if not window_allocated
        then ((false, sequence), os)
        else archive_activation replies p (some directory) pid clock
            (archive_window F model_samples 0) (F.of_unsigned 1) true sequence os
  ]

  -- From `payload` on.
  unfoldable pub self_test_report : Bytes → Os → Sent × Os
  unfolding self_test_archive
  self_test_report payload os =
      if leb 256 (length payload)
      then (record { done = false; text = [] }, os)
      else let ((archived, sequence'), os') = self_test_archive os in
        if not archived
        then (record { done = false; text = [] }, os')
        else let (complete, sink, os'') = received os' (write_all replies payload os'.calls) in
          (record { done = complete; text = sink }, os'')

  -- `self_test_output(options)`: whether it returns 0 and what it writes to the standard output.
  unfoldable pub self_test_output : Bool → Os → Sent × Os
  unfolding self_test_sample self_test_report
  self_test_output allocated os = elim (self_test_sample F allocated) [
    | none ↦ (record { done = false; text = [] }, os)
    | some sample ↦ self_test_report (self_test_payload p sample) os
  ]
