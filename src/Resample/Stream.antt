-- ===== src/Resample/Stream.antt =====
-- `mix_and_resample_downmix` writes exactly the resampled stream to the ring.
use native.Mathlib.Nat.{
  mod-lt, mod-eq_of_lt, mod-eq-sub-mod, div-eq-sub-div, div-eq_of_lt, mod-add-mod,
}
use okay_hermes_realtime.Base.{
  ℕ, zero, suc, ◌+◌, ◌-◌, ◌*◌, ◌/◌, ◌%◌, ◌≤◌, ◌<◌, ◌≡◌, refl, sym, ap, ◌∙◌, subst, inl, inr, some,
  List, [], ◌∷◌, ◌++◌, arith, append_assoc, append-nil, leb, leb→le, leb-false→lt, Bool-cases,
  length, replicate,
}
use okay_hermes_realtime.Float.{Float}
use okay_hermes_realtime.Ring.{SampleRing, ring_write}
use okay_hermes_realtime.Ring.Inv.{Holds, ring_write-Holds}
use okay_hermes_realtime.Resample.{
  model_rate, unsigned_mod, emit, mono_of, frame_loop, channels_or_1, rate_or_model,
  mix_and_resample_downmix,
}
use okay_hermes_realtime.Resample.Count.{resampled}

-- A resampling step from a ring that holds `h` appends `out` and leaves `rest` in the accumulator.
pub record Appends {A : Type 0} (d : A) (h out : List A) (rest : ℕ) (result : SampleRing A × ℕ)
    : Type 0 where
  pub held : Holds d (h ++ out) result.0
  pub left : result.1 ≡ rest

module _ {A : Type 0} (d : A) where
  Appends-stop :
      (rate : ℕ) (mono : A) {h : List A} (ring : SampleRing A) (accumulator : ℕ)
      → accumulator < rate
      → Holds d h ring
      → Appends d h (replicate (accumulator / rate) mono) (accumulator % rate) (ring, accumulator)
  Appends-stop rate mono {h} ring accumulator below v =
      rw (div-eq_of_lt below, mod-eq_of_lt below) (record { held = rw append-nil v; left = refl })

  Appends-go :
      (rate : ℕ) (mono : A) {h : List A} (accumulator : ℕ) {result : SampleRing A × ℕ}
      → 0 < rate
      → rate ≤ accumulator
      → Appends d
          (h ++ (mono ∷ []))
          (replicate ((accumulator - rate) / rate) mono)
          ((accumulator - rate) % rate)
          result
      → Appends d h (replicate (accumulator / rate) mono) (accumulator % rate) result
  Appends-go rate mono {h} accumulator {result} pos reached a = record {
    held = rw once_more (rw append_assoc at a.held);
    left = a.left ∙ sym (mod-eq-sub-mod reached);
  }
    where
      once_more : accumulator / rate ≡ suc ((accumulator - rate) / rate)
      once_more = omega (arith, div-eq-sub-div pos reached)

  -- The inner loop writes the frame `accumulator / rate` times and keeps the remainder.
  emit-Appends :
      (fuel rate : ℕ) (mono : A) {h : List A} (ring : SampleRing A) (accumulator : ℕ)
      → 0 < rate
      → accumulator ≤ fuel
      → Holds d h ring
      → Appends d h
          (replicate (accumulator / rate) mono)
          (accumulator % rate)
          (emit fuel rate mono ring accumulator)
  unfolding emit
  emit-Appends zero rate mono ring accumulator pos enough v =
      Appends-stop rate mono ring accumulator (omega arith) v
  emit-Appends (suc fuel) rate mono ring accumulator pos enough v =
      elim (Bool-cases (leb rate accumulator)) [
        | inl again ↦
            rw (again, emit)
              (Appends-go rate mono accumulator pos (leb→le rate accumulator again) (
                emit-Appends fuel rate mono (ring_write ring (some (mono ∷ [])))
                  (accumulator - rate) pos (omega arith) (ring_write-Holds d (mono ∷ []) v)))
        | inr done ↦
            rw (done, emit)
              (Appends-stop rate mono ring accumulator (leb-false→lt rate accumulator done) v)
      ]

module _ (F : Float) where
  open F use {Value, of_unsigned}

  -- The averaged frames from `frame` on.
  abbrev pub mono_frames : List Value → ℕ → ℕ → ℕ → List Value
  mono_frames samples channels frame zero = []
  mono_frames samples channels frame (suc n) =
      mono_of F samples channels frame ∷ mono_frames samples channels (frame + 1) n

  pub length-mono_frames :
      (samples : List Value) (channels frame n : ℕ)
      → length (mono_frames samples channels frame n) ≡ n
  length-mono_frames samples channels frame zero = refl
  length-mono_frames samples channels frame (suc n) =
      ap suc (length-mono_frames samples channels (frame + 1) n)

  -- One round of the loop over the frames, where the accumulator does not wrap.
  frame_loop-suc :
      (samples : List Value) (channels rate n frame : ℕ) (ring : SampleRing Value) (total : ℕ)
      (accumulator : ℕ)
      → total ≡ accumulator + model_rate
      → total < unsigned_mod
      → frame_loop F samples channels rate (suc n) frame ring accumulator ≡ (
          let (ring', rest) = emit total rate (mono_of F samples channels frame) ring total in
          frame_loop F samples channels rate n (frame + 1) ring' rest)
  unfolding frame_loop
  frame_loop-suc samples channels rate n frame ring total accumulator e small =
      rw (← e, mod-eq_of_lt small)

  -- The loop over `n` frames appends the resampled frames, and the accumulator keeps the phase.
  pub frame_loop-Appends :
      (samples : List Value) (channels rate n frame : ℕ) {h : List Value} (ring : SampleRing Value)
      (accumulator : ℕ)
      → 0 < rate
      → rate + model_rate ≤ unsigned_mod
      → accumulator < rate
      → Holds (of_unsigned 0) h ring
      → Appends
          (of_unsigned 0)
          h
          (resampled rate accumulator (mono_frames samples channels frame n))
          ((accumulator + n * model_rate) % rate)
          (frame_loop F samples channels rate n frame ring accumulator)
  unfolding frame_loop resampled
  frame_loop-Appends samples channels rate zero frame {h} ring accumulator pos fits small v =
      record {
        held = rw append-nil v;
        left = sym (
            ap (λ k. k % rate) {x = accumulator + 0 * model_rate} {y = accumulator} (omega arith)
            ∙ mod-eq_of_lt small);
      }
  frame_loop-Appends samples channels rate (suc n) frame {h} ring accumulator pos fits small v =
      let mono = mono_of F samples channels frame in
      let first = emit-Appends (of_unsigned 0) total rate mono ring total pos (omega arith) v in
      let rest =
        frame_loop-Appends samples channels rate n (frame + 1) (emit total rate mono ring total).0
          (emit total rate mono ring total).1 pos fits (rw first.left (mod-lt total pos))
          first.held in
      rw (frame_loop-suc samples channels rate n frame ring total accumulator refl (omega arith))
        (record {
          held =
              subst
                (λ k.
                  Holds (of_unsigned 0)
                    (h
                      ++ (replicate (total / rate) mono
                          ++ resampled rate k (mono_frames samples channels (frame + 1) n)))
                    (frame_loop F samples channels rate n (frame + 1)
                      (emit total rate mono ring total).0 (emit total rate mono ring total).1).0)
                first.left (rw append_assoc at rest.held);
          left =
              rest.left
              ∙ ap (λ k. (k + n * model_rate) % rate) first.left
              ∙ mod-add-mod total rate (n * model_rate)
              ∙ ap (λ k. k % rate) regroup;
        })
    where
      total : ℕ
      total = accumulator + model_rate

      regroup : total + n * model_rate ≡ accumulator + suc n * model_rate
      regroup = omega arith

  -- `mix_and_resample_downmix` on `n` frames, for any rate up to 2 ^ 32 - 16000, an accumulator
  -- below it and a ring that holds the end of a stream: the ring gets exactly the averaged and
  -- resampled frames, in order, and the accumulator keeps the phase.
  pub mix_and_resample_downmix-Appends :
      (samples : List Value) (n channels rate : ℕ) {h : List Value} (ring : SampleRing Value)
      (accumulator : ℕ)
      → rate + model_rate ≤ unsigned_mod
      → accumulator < rate_or_model rate
      → Holds (of_unsigned 0) h ring
      → Appends
          (of_unsigned 0)
          h
          (resampled
            (rate_or_model rate)
            accumulator
            (mono_frames samples (channels_or_1 channels) 0 n))
          ((accumulator + n * model_rate) % rate_or_model rate)
          (mix_and_resample_downmix F (some samples) n channels rate ring accumulator)
  unfolding mix_and_resample_downmix
  mix_and_resample_downmix-Appends samples n channels rate ring accumulator fits small v =
      frame_loop-Appends samples (channels_or_1 channels) (rate_or_model rate) n 0 ring accumulator
        (ground arith) (ground arith) small v
