-- ===== src/Resample/Rate.antt =====
-- How many samples `mix_and_resample_downmix` adds to the ring.
use native.Mathlib.Nat.{mod-add-mod}
use okay_hermes_realtime.Base.{
  ℕ, ◌+◌, ◌*◌, ◌/◌, ◌%◌, ◌≤◌, ◌<◌, ◌≡◌, sym, ap, ◌∙◌, some, List, length, length-append, arith,
}
use okay_hermes_realtime.Float.{Float}
use okay_hermes_realtime.Ring.{SampleRing, size_mod}
use okay_hermes_realtime.Ring.Inv.{Holds}
use okay_hermes_realtime.Resample.{
  model_rate, unsigned_mod, channels_or_1, rate_or_model, mix_and_resample_downmix,
}
use okay_hermes_realtime.Resample.Count.{resampled, length-resampled}
use okay_hermes_realtime.Resample.Stream.{
  mono_frames, length-mono_frames, mix_and_resample_downmix-Appends,
}

module _ (F : Float) where
  open F use {Value, of_unsigned}

  -- After `n` frames the ring has counted exactly (accumulator + n * MODEL_RATE) / rate further
  -- samples, rounded down once: over any number of frames no sample is gained or lost. The count is
  -- modulo 2 ^ 64, for a rate up to 2 ^ 32 - 16000 and an accumulator below it.
  pub mix_and_resample_downmix-total_written :
      (samples : List Value) (n channels rate : ℕ) {h : List Value} (ring : SampleRing Value)
      (accumulator : ℕ)
      → rate + model_rate ≤ unsigned_mod
      → accumulator < rate_or_model rate
      → Holds (of_unsigned 0) h ring
      → (mix_and_resample_downmix F (some samples) n channels rate ring accumulator).0.total_written
        ≡ (ring.total_written + (accumulator + n * model_rate) / rate_or_model rate) % size_mod
  mix_and_resample_downmix-total_written samples n channels rate {h} ring accumulator fits small v =
      let out =
        resampled (rate_or_model rate) accumulator
          (mono_frames F samples (channels_or_1 channels) 0 n) in
      let a =
        mix_and_resample_downmix-Appends F samples n channels rate ring accumulator fits small v in
      let grown =
        length-resampled (rate_or_model rate) accumulator
          (mono_frames F samples (channels_or_1 channels) 0 n) (omega arith) small in
      a.held.counted
      ∙ ap (λ k. k % size_mod)
          (length-append h out
            ∙ ap (λ k. length h + k)
                (grown
                  ∙ ap (λ k. (accumulator + k * model_rate) / rate_or_model rate)
                      (length-mono_frames F samples (channels_or_1 channels) 0 n)))
      ∙ sym (mod-add-mod (length h) size_mod ((accumulator + n * model_rate) / rate_or_model rate))
      ∙ ap (λ k. (k + (accumulator + n * model_rate) / rate_or_model rate) % size_mod)
          (sym v.counted)
