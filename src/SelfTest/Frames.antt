-- ===== src/SelfTest/Frames.antt =====
-- The self-test never runs short of frames.
use okay_hermes_realtime.Base.{ℕ, ◌*◌, ◌/◌, ◌≡◌, refl, true, some, List, [], ◌∷◌, arith}
use okay_hermes_realtime.Float.{Float}
use okay_hermes_realtime.Ring.{SampleRing, ring_init, ring_snapshot_latest}
use okay_hermes_realtime.Ring.Inv.{ring_init-Holds}
use okay_hermes_realtime.Ring.Snapshot.{ring_snapshot_latest-drop}
use okay_hermes_realtime.Resample.{model_rate, model_seconds, mono_of, mix_and_resample_downmix}
use okay_hermes_realtime.Resample.Count.{resampled}
use okay_hermes_realtime.Resample.Stream.{mix_and_resample_downmix-Appends}
use okay_hermes_realtime.Resample.Capacity.{mix_and_resample_downmix-capacity}
use okay_hermes_realtime.SelfTest.{deterministic_frames, mean_of, no_ring, self_test_sample}

module _ (F : Float) where
  open F use {Value, of_unsigned}

  ring_init-allocated :
      (ring_init (of_unsigned 0) true (model_rate * model_seconds) (no_ring F)).0 ≡ true
  unfolding ring_init
  ring_init-allocated = refl

  -- The ring of the self-test, before and after its frames.
  abbrev empty_ring : SampleRing Value
  empty_ring = (ring_init (of_unsigned 0) true (model_rate * model_seconds) (no_ring F)).1

  capacity_empty_ring : empty_ring.capacity ≡ 48000
  unfolding ring_init
  capacity_empty_ring = refl

  abbrev frame : ℕ → Value
  frame = mono_of F (deterministic_frames F) 2

  -- At half the model's rate each frame comes out twice.
  abbrev pub latest_frames : List Value
  latest_frames = frame 4 ∷ frame 4 ∷ frame 5 ∷ frame 5 ∷ frame 6 ∷ frame 6 ∷ frame 7 ∷ frame 7 ∷ []

  snapshot :
      ring_snapshot_latest
        (of_unsigned 0)
        (mix_and_resample_downmix F
          (some (deterministic_frames F))
          8
          2
          (model_rate / 2)
          empty_ring
          0).0
        8
      ≡ latest_frames
  unfolding resampled
  snapshot =
      let empty =
        ring_init-Holds (of_unsigned 0) true (model_rate * model_seconds) (no_ring F)
          ring_init-allocated in
      let appended =
        mix_and_resample_downmix-Appends F (deterministic_frames F) 8 2 (model_rate / 2) empty_ring
          0 (omega arith) (omega arith) empty in
      ring_snapshot_latest-drop (of_unsigned 0) 8 appended.held
        (omega (
          arith,
          capacity_empty_ring,
          mix_and_resample_downmix-capacity F (deterministic_frames F) 8 2 (model_rate / 2)
              empty_ring 0,
        ))
        (omega arith)

  pub self_test_sample-mean_of : self_test_sample F true ≡ some (mean_of F latest_frames)
  unfolding self_test_sample
  self_test_sample-mean_of = rw (ring_init-allocated, snapshot) refl
