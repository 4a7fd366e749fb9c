-- ===== src/Stream/Pipeline.antt =====
-- From the buffers that PipeWire hands to `on_process` to the window that the model gets.
use native.Mathlib.Nat.{mod-eq_of_lt, add-zero}
use okay_hermes_realtime.Base.{
  ℕ, ◌+◌, ◌*◌, ◌/◌, ◌%◌, ◌≤◌, ◌<◌, ◌≡◌, refl, sym, ap, ◌∙◌, not, ◌||◌, Option, none, some, List, [],
  ◌∷◌, ◌++◌, arith, drop, ◌==◌, if◌then◌else◌, length, append-nil, Bool-cases, inl, inr,
}
use okay_hermes_realtime.Float.{Float}
use okay_hermes_realtime.Ring.Inv.{Holds}
use okay_hermes_realtime.Resample.{model_rate, unsigned_mod, rate_or_model, frame_loop}
use okay_hermes_realtime.Resample.Count.{resampled}
use okay_hermes_realtime.Resample.Stream.{mono_frames, length-mono_frames, frame_loop-Appends}
use okay_hermes_realtime.Resample.Capacity.{frame_loop-capacity}
use okay_hermes_realtime.Stream.{
  AudioFormat, Listener, Chunk, Dequeued, nothing, without_data, with_data, Processed, returned,
  fault, is_f32, process_data, process_chunk, on_process, take_buffer, queue_buffer,
}

module _ (F : Float) where
  open F use {Value, of_unsigned}

  -- The callback for one buffer after the other, until it faults.
  unfoldable pub on_process_all : List (Dequeued F) → Listener F → Processed F
  on_process_all [] l = returned l
  on_process_all (d ∷ buffers) l = elim (on_process F d l) [
    | returned l' ↦ on_process_all buffers l'
    | fault ↦ fault
  ]

  -- The averaged frames of a buffer, none unless it has float samples and a chunk.
  abbrev pub chunk_frames : AudioFormat → ℕ → Option (List Value) → Option Chunk → List Value
  chunk_frames format channels none chunk = []
  chunk_frames format channels (some content) none = []
  chunk_frames format channels (some content) (some chunk) =
      if chunk.size == 0 || not (is_f32 F format)
      then []
      else mono_frames F (drop chunk.offset content) channels 0 (chunk.size / (4 * channels))

  abbrev pub frames_of : AudioFormat → ℕ → Dequeued F → List Value
  frames_of format channels nothing = []
  frames_of format channels without_data = []
  frames_of format channels (with_data d) = chunk_frames format channels d.content d.chunk

  abbrev pub all_frames : AudioFormat → ℕ → List (Dequeued F) → List Value
  all_frames format channels [] = []
  all_frames format channels (d ∷ buffers) =
      frames_of format channels d ++ all_frames format channels buffers

  -- What the callbacks leave of a listener that has heard `frames`, when its ring held `h` before.
  pub record Hears (l : Listener F) (h frames : List Value) (l' : Listener F) : Type 0 where
    pub held :
        Holds
          (of_unsigned 0)
          (h ++ resampled (rate_or_model l.negotiated_rate) l.resample_accumulator frames)
          l'.ring
    pub accumulator :
        l'.resample_accumulator
        ≡ (l.resample_accumulator + length frames * model_rate) % rate_or_model l.negotiated_rate
    pub format : l'.format.format ≡ l.format.format
    pub rate : l'.negotiated_rate ≡ l.negotiated_rate
    pub channels : l'.negotiated_channels ≡ l.negotiated_channels
    pub buffers : l'.held_buffers ≡ l.held_buffers
    pub capacity : l'.ring.capacity ≡ l.ring.capacity

  pub Hears-nothing :
      (l : Listener F) (h : List Value)
      → l.resample_accumulator < rate_or_model l.negotiated_rate
      → Holds (of_unsigned 0) h l.ring
      → Hears l h [] l
  unfolding resampled
  Hears-nothing l h small v = record {
    held = rw append-nil v;
    accumulator =
        sym (mod-eq_of_lt small)
        ∙ ap (λ k. k % rate_or_model l.negotiated_rate) (sym (add-zero l.resample_accumulator));
    format = refl;
    rate = refl;
    channels = refl;
    buffers = refl;
    capacity = refl;
  }

  -- A buffer that is given back unused.
  Hears-unused :
      (l : Listener F) (h : List Value)
      → l.resample_accumulator < rate_or_model l.negotiated_rate
      → Holds (of_unsigned 0) h l.ring
      → Hears l h [] (queue_buffer F (take_buffer F l))
  Hears-unused l h small v =
      let n = Hears-nothing l h small v in
      record {
        held = n.held;
        accumulator = n.accumulator;
        format = refl;
        rate = refl;
        channels = refl;
        buffers = omega arith;
        capacity = refl;
      }

  chunk_Hears :
      (content : List Value) (chunk : Chunk) (l : Listener F) (h : List Value)
      → 0 < l.negotiated_channels
      → rate_or_model l.negotiated_rate + model_rate ≤ unsigned_mod
      → l.resample_accumulator < rate_or_model l.negotiated_rate
      → Holds (of_unsigned 0) h l.ring
      → (l' : Listener F) × (process_chunk F (take_buffer F l) content chunk ≡ returned l')
        × Hears l h
            (mono_frames F
              (drop chunk.offset content)
              l.negotiated_channels
              0
              (chunk.size / (4 * l.negotiated_channels)))
            l'
  unfolding process_chunk
  chunk_Hears content chunk l h c fits small v =
      let n = chunk.size / (4 * l.negotiated_channels) in
      let samples = drop chunk.offset content in
      let rate = rate_or_model l.negotiated_rate in
      let result =
        frame_loop F samples l.negotiated_channels rate n 0 l.ring l.resample_accumulator in
      let a =
        frame_loop-Appends F samples l.negotiated_channels rate n 0 l.ring l.resample_accumulator
          (omega arith) fits small v in
      (
        record l { ring = result.0; resample_accumulator = result.1 },
        ground arith,
        record {
          held = a.held;
          accumulator =
              a.left
              ∙ ap (λ k. (l.resample_accumulator + k * model_rate) % rate)
                  (sym (length-mono_frames F samples l.negotiated_channels 0 n));
          format = refl;
          rate = refl;
          channels = refl;
          buffers = refl;
          capacity =
              frame_loop-capacity F samples l.negotiated_channels rate n 0 l.ring
                l.resample_accumulator;
        },
      )

  data_Hears :
      (content : Option (List Value)) (chunk : Option Chunk) (l : Listener F) (h : List Value)
      → 0 < l.negotiated_channels
      → rate_or_model l.negotiated_rate + model_rate ≤ unsigned_mod
      → l.resample_accumulator < rate_or_model l.negotiated_rate
      → Holds (of_unsigned 0) h l.ring
      → (l' : Listener F) × (process_data F
            (take_buffer F l)
            (record { content = content; chunk = chunk })
          ≡ returned l')
        × Hears l h (chunk_frames l.format.format l.negotiated_channels content chunk) l'
  unfolding process_data
  data_Hears none chunk l h c fits small v = (_, refl, Hears-unused l h small v)
  data_Hears (some content) none l h c fits small v = (_, refl, Hears-unused l h small v)
  data_Hears (some content) (some chunk) l h c fits small v =
      elim (Bool-cases (chunk.size == 0 || not (is_f32 F l.format.format))) [
        | inl unused ↦ rw unused (_, refl, Hears-unused l h small v)
        | inr used ↦ rw used (chunk_Hears content chunk l h c fits small v)
      ]

  pub on_process-Hears :
      (d : Dequeued F) (l : Listener F) (h : List Value)
      → 0 < l.negotiated_channels
      → rate_or_model l.negotiated_rate + model_rate ≤ unsigned_mod
      → l.resample_accumulator < rate_or_model l.negotiated_rate
      → Holds (of_unsigned 0) h l.ring
      → (l' : Listener F) × (on_process F d l ≡ returned l')
        × Hears l h (frames_of l.format.format l.negotiated_channels d) l'
  unfolding on_process
  on_process-Hears nothing l h c fits small v = (l, refl, Hears-nothing l h small v)
  on_process-Hears without_data l h c fits small v = (_, refl, Hears-unused l h small v)
  on_process-Hears (with_data d) l h c fits small v =
      data_Hears d.content d.chunk l h c fits small v
