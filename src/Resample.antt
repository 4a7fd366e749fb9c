-- ===== src/Resample.antt =====
-- `mix_and_resample_downmix` of native/okay-hermes-realtime-wake-listener.c: the channels of each
-- frame are averaged, and an error accumulator repeats or drops frames to reach MODEL_RATE.
pub mod Stream
pub mod Count
pub mod Rate
pub mod Capacity
use okay_hermes_realtime.Base.{
  ℕ, zero, suc, ◌+◌, ◌-◌, ◌*◌, ◌%◌, ◌^◌, true, false, Option, none, some, List, [], ◌∷◌, leb, ◌==◌,
  if◌then◌else◌, get_or,
}
use okay_hermes_realtime.Float.{Float}
use okay_hermes_realtime.Ring.{SampleRing, size_mod, ring_write}

-- `MODEL_RATE`, `MODEL_SECONDS`, `MODEL_SAMPLES` and `RING_SECONDS`
abbrev pub model_rate : ℕ
model_rate = 16000

abbrev pub model_seconds : ℕ
model_seconds = 3

abbrev pub model_samples : ℕ
model_samples = model_rate * model_seconds

abbrev pub ring_seconds : ℕ
ring_seconds = 4

-- `UINT_MAX + 1`
abbrev pub unsigned_mod : ℕ
unsigned_mod = 2 ^ 32

-- `while (*accumulator >= rate) { ring_write(ring, &mono, 1); *accumulator -= rate; }`, on fuel.
unfoldable pub emit : {A : Type 0} → ℕ → ℕ → A → SampleRing A → ℕ → SampleRing A × ℕ
emit zero rate mono ring accumulator = (ring, accumulator)
emit (suc fuel) rate mono ring accumulator = elim (leb rate accumulator) [
  | true ↦ emit fuel rate mono (ring_write ring (some (mono ∷ []))) (accumulator - rate)
  | false ↦ (ring, accumulator)
]

-- The defaults for a missing channel count and rate.
abbrev pub channels_or_1 : ℕ → ℕ
channels_or_1 channels = if channels == 0 then 1 else channels

abbrev pub rate_or_model : ℕ → ℕ
rate_or_model rate = if rate == 0 then model_rate else rate

module _ (F : Float) where
  open F use {Value, of_unsigned, add, div}

  -- The loop over the channels of one frame, with the rounds left and `ch`. A read past the end
  -- of the buffer would give 0.0f.
  unfoldable pub mix_channels : List Value → ℕ → ℕ → ℕ → ℕ → Value → Value
  mix_channels samples frame channels zero ch mono = mono
  mix_channels samples frame channels (suc n) ch mono =
      mix_channels samples frame channels n (ch + 1)
        (add mono (get_or samples ((frame * channels + ch) % size_mod) (of_unsigned 0)))

  unfoldable pub mono_of : List Value → ℕ → ℕ → Value
  unfolding mix_channels
  mono_of samples channels frame =
      div (mix_channels samples frame channels channels 0 (of_unsigned 0)) (of_unsigned channels)

  -- The loop over the frames, with the rounds left and `frame`. The value of the accumulator is
  -- enough fuel for the inner loop, since `rate` is at least 1.
  unfoldable pub frame_loop :
      List Value → ℕ → ℕ → ℕ → ℕ → SampleRing Value → ℕ → SampleRing Value × ℕ
  unfolding emit mono_of
  frame_loop samples channels rate zero frame ring accumulator = (ring, accumulator)
  frame_loop samples channels rate (suc n) frame ring accumulator =
      let accumulated = (accumulator + model_rate) % unsigned_mod in
      let (ring', rest) = emit accumulated rate (mono_of samples channels frame) ring accumulated in
      frame_loop samples channels rate n (frame + 1) ring' rest

  unfoldable pub mix_and_resample_downmix :
      Option (List Value) → ℕ → ℕ → ℕ → SampleRing Value → ℕ → SampleRing Value × ℕ
  unfolding frame_loop
  mix_and_resample_downmix none frames channels rate ring accumulator = (ring, accumulator)
  mix_and_resample_downmix (some samples) frames channels rate ring accumulator =
      frame_loop samples (channels_or_1 channels) (rate_or_model rate) frames 0 ring accumulator
