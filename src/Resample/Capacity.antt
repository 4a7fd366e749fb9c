-- ===== src/Resample/Capacity.antt =====
-- `mix_and_resample_downmix` never changes the size of the ring.
use okay_hermes_realtime.Base.{
  ℕ, zero, suc, ◌+◌, ◌-◌, ◌%◌, ◌≡◌, refl, ◌∙◌, some, List, [], ◌∷◌, arith, leb, Bool-cases, inl,
  inr,
}
use okay_hermes_realtime.Float.{Float}
use okay_hermes_realtime.Ring.{SampleRing, ring_write}
use okay_hermes_realtime.Resample.{
  model_rate, unsigned_mod, emit, channels_or_1, rate_or_model, mono_of, frame_loop,
  mix_and_resample_downmix,
}

ring_write-capacity :
    {A : Type 0} (ring : SampleRing A) (src : List A)
    → (ring_write ring (some src)).capacity ≡ ring.capacity
unfolding ring_write
ring_write-capacity ring src = ground arith

emit-capacity :
    {A : Type 0} (fuel rate : ℕ) (mono : A) (ring : SampleRing A) (accumulator : ℕ)
    → (emit fuel rate mono ring accumulator).0.capacity ≡ ring.capacity
unfolding emit
emit-capacity zero rate mono ring accumulator = refl
emit-capacity (suc fuel) rate mono ring accumulator = elim (Bool-cases (leb rate accumulator)) [
  | inl more ↦
      rw (more, emit)
        (emit-capacity fuel rate mono (ring_write ring (some (mono ∷ []))) (accumulator - rate)
          ∙ ring_write-capacity ring (mono ∷ []))
  | inr done ↦ rw (done, emit) refl
]

module _ (F : Float) where
  open F use {Value}

  pub frame_loop-capacity :
      (samples : List Value) (channels rate n frame : ℕ) (ring : SampleRing Value) (accumulator : ℕ)
      → (frame_loop F samples channels rate n frame ring accumulator).0.capacity ≡ ring.capacity
  unfolding frame_loop
  frame_loop-capacity samples channels rate zero frame ring accumulator = refl
  frame_loop-capacity samples channels rate (suc n) frame ring accumulator =
      let total = (accumulator + model_rate) % unsigned_mod in
      let mono = mono_of F samples channels frame in
      frame_loop-capacity samples channels rate n (frame + 1) (emit total rate mono ring total).0
        (emit total rate mono ring total).1
      ∙ emit-capacity total rate mono ring total

  pub mix_and_resample_downmix-capacity :
      (samples : List Value) (n channels rate : ℕ) (ring : SampleRing Value) (accumulator : ℕ)
      → (mix_and_resample_downmix F (some samples) n channels rate ring accumulator).0.capacity
        ≡ ring.capacity
  unfolding mix_and_resample_downmix
  mix_and_resample_downmix-capacity samples n channels rate ring accumulator =
      frame_loop-capacity samples (channels_or_1 channels) (rate_or_model rate) n 0 ring accumulator
