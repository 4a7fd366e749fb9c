-- ===== src/Stream/Window.antt =====
-- The window that the model gets after any number of callbacks.
use native.Mathlib.Nat.{mod-lt, mod-add-mod}
use okay_hermes_realtime.Base.{
  ℕ, ◌+◌, ◌-◌, ◌*◌, ◌%◌, ◌≤◌, ◌<◌, ◌≡◌, refl, sym, ap, ◌∙◌, List, [], ◌∷◌, ◌++◌, arith, drop, ltb,
  if◌then◌else◌, length, append_assoc, length-append, subst, ap₂,
}
use okay_hermes_realtime.Float.{Float}
use okay_hermes_realtime.Ring.{size_mod, ring_snapshot_latest}
use okay_hermes_realtime.Ring.Inv.{Holds}
use okay_hermes_realtime.Ring.Snapshot.{ring_snapshot_latest-drop}
use okay_hermes_realtime.Resample.{model_rate, model_samples, unsigned_mod, rate_or_model}
use okay_hermes_realtime.Resample.Count.{resampled, resampled-append}
use okay_hermes_realtime.Stream.{Listener, Dequeued, Processed, returned, on_process}
use okay_hermes_realtime.Stream.Pipeline.{
  on_process_all, frames_of, all_frames, Hears, Hears-nothing, on_process-Hears,
}

module _ (F : Float) where
  open F use {Value, of_unsigned}

  stream_append :
      (h xs ys : List Value) (rate rate' accumulator accumulator' : ℕ)
      → accumulator < rate
      → rate' ≡ rate
      → accumulator' ≡ (accumulator + length xs * model_rate) % rate
      → (h ++ resampled rate accumulator xs) ++ resampled rate' accumulator' ys
        ≡ h ++ resampled rate accumulator (xs ++ ys)
  stream_append h xs ys rate rate' accumulator accumulator' small same carried =
      rw (same, carried, resampled-append rate accumulator xs ys small)
        (append_assoc h (resampled rate accumulator xs)
          (resampled rate ((accumulator + length xs * model_rate) % rate) ys))

  accumulator_append :
      (xs ys : List Value) (rate rate' accumulator accumulator' : ℕ)
      → rate' ≡ rate
      → accumulator' ≡ (accumulator + length xs * model_rate) % rate
      → (accumulator' + length ys * model_rate) % rate'
        ≡ (accumulator + length (xs ++ ys) * model_rate) % rate
  accumulator_append xs ys rate rate' accumulator accumulator' same carried =
      rw (same, carried, length-append xs ys)
        (mod-add-mod (accumulator + length xs * model_rate) rate (length ys * model_rate)
          ∙ ap (λ k. k % rate) {x = accumulator + length xs * model_rate + length ys * model_rate}
              {y = accumulator + (length xs + length ys) * model_rate} (omega arith))

  -- One callback after another.
  Hears-append :
      (l l' l'' : Listener F) (h xs ys : List Value)
      → l.resample_accumulator < rate_or_model l.negotiated_rate
      → Hears F l h xs l'
      → Hears F l'
          (h ++ resampled (rate_or_model l.negotiated_rate) l.resample_accumulator xs)
          ys
          l''
      → Hears F l h (xs ++ ys) l''
  Hears-append l l' l'' h xs ys small a b = record {
    held =
        subst (λ g. Holds (of_unsigned 0) g l''.ring)
          (stream_append h xs ys (rate_or_model l.negotiated_rate)
            (rate_or_model l'.negotiated_rate) l.resample_accumulator l'.resample_accumulator small
            (ap rate_or_model a.rate) a.accumulator)
          b.held;
    accumulator =
        b.accumulator
        ∙ accumulator_append xs ys (rate_or_model l.negotiated_rate)
            (rate_or_model l'.negotiated_rate) l.resample_accumulator l'.resample_accumulator
            (ap rate_or_model a.rate) a.accumulator;
    format = b.format ∙ a.format;
    rate = b.rate ∙ a.rate;
    channels = b.channels ∙ a.channels;
    buffers = b.buffers ∙ a.buffers;
    capacity = b.capacity ∙ a.capacity;
  }

  on_process_all-returned :
      (d : Dequeued F) (buffers : List (Dequeued F)) (l l' : Listener F) (result : Processed F)
      → on_process F d l ≡ returned l'
      → on_process_all F buffers l' ≡ result
      → on_process_all F (d ∷ buffers) l ≡ result
  unfolding on_process_all
  on_process_all-returned d buffers l l' result e e' = rw (e, on_process_all) e'

  on_process_all-Hears :
      (buffers : List (Dequeued F)) (l : Listener F) (h : List Value)
      → 0 < l.negotiated_channels
      → rate_or_model l.negotiated_rate + model_rate ≤ unsigned_mod
      → l.resample_accumulator < rate_or_model l.negotiated_rate
      → Holds (of_unsigned 0) h l.ring
      → (l' : Listener F) × (on_process_all F buffers l ≡ returned l')
        × Hears F l h (all_frames F l.format.format l.negotiated_channels buffers) l'
  unfolding on_process_all
  on_process_all-Hears [] l h c fits small v = (l, refl, Hears-nothing F l h small v)
  on_process_all-Hears (d ∷ buffers) l h c fits small v =
      let (l1, e, a) = on_process-Hears F d l h c fits small v in
      let rate = rate_or_model l.negotiated_rate in
      let frames = frames_of F l.format.format l.negotiated_channels d in
      let below : l1.resample_accumulator < rate =
        subst (λ k. k < rate) (sym a.accumulator)
          (mod-lt (l.resample_accumulator + length frames * model_rate) {m = rate} (omega arith)) in
      let (l2, e', b) =
        on_process_all-Hears buffers l1 (h ++ resampled rate l.resample_accumulator frames)
          (omega (arith, a.channels))
          (subst (λ r. rate_or_model r + model_rate ≤ unsigned_mod) (sym a.rate) fits)
          (subst (λ k. l1.resample_accumulator < k) (sym (ap rate_or_model a.rate)) below) a.held in
      (
        l2,
        on_process_all-returned d buffers l l1 (returned l2) e e',
        Hears-append l l1 l2 h frames (all_frames F l.format.format l.negotiated_channels buffers)
            small a
            (subst (λ ys. Hears F l1 (h ++ resampled rate l.resample_accumulator frames) ys l2)
              (ap₂ (λ f n. all_frames F f n buffers) a.format a.channels) b),
      )

  -- The whole way of the audio, for any buffers, also empty and foreign ones, when the stream has
  -- channels and a rate up to 2 ^ 32 - 16000, an accumulator below it, an empty ring of at least
  -- three seconds and less than 2 ^ 64 samples in all: the callbacks return with every buffer given
  -- back, and the window that the worker then takes is the last three seconds of the resampled
  -- frames of all buffers put together, or nothing as long as there are fewer. It does not matter
  -- where the buffers are cut.
  pub on_process_all-window :
      (buffers : List (Dequeued F)) (l : Listener F)
      → 0 < l.negotiated_channels
      → rate_or_model l.negotiated_rate + model_rate ≤ unsigned_mod
      → l.resample_accumulator < rate_or_model l.negotiated_rate
      → Holds (of_unsigned 0) [] l.ring
      → model_samples ≤ l.ring.capacity
      → length (
          resampled
            (rate_or_model l.negotiated_rate)
            l.resample_accumulator
            (all_frames F l.format.format l.negotiated_channels buffers))
        < size_mod
      → let heard =
          resampled
            (rate_or_model l.negotiated_rate)
            l.resample_accumulator
            (all_frames F l.format.format l.negotiated_channels buffers) in
        (l' : Listener F) × (on_process_all F buffers l ≡ returned l')
        × (l'.held_buffers ≡ l.held_buffers)
        × (ring_snapshot_latest (of_unsigned 0) l'.ring model_samples ≡ (
            if ltb (length heard) model_samples
            then []
            else drop (length heard - model_samples) heard))
  on_process_all-window buffers l c fits small v room bounded =
      let (l', e, k) = on_process_all-Hears buffers l [] c fits small v in
      (
        l',
        e,
        k.buffers,
        ring_snapshot_latest-drop (of_unsigned 0) model_samples k.held (omega (arith, k.capacity))
            bounded,
      )
