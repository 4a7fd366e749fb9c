-- ===== src/Stream/Capture.antt =====
-- What `on_process` does with a buffer, and that the bookkeeping survives every callback.
use native.Mathlib.Nat.{mod-lt}
use okay_hermes_realtime.Base.{◌+◌, ◌*◌, ◌/◌, ◌≤◌, ◌<◌, ◌≡◌, refl, some, List, ◌++◌, arith, drop}
use okay_hermes_realtime.Float.{Float}
use okay_hermes_realtime.Ring.Inv.{Holds}
use okay_hermes_realtime.Resample.{model_rate, unsigned_mod, rate_or_model, frame_loop}
use okay_hermes_realtime.Resample.Count.{resampled}
use okay_hermes_realtime.Resample.Stream.{mono_frames, frame_loop-Appends}
use okay_hermes_realtime.Stream.{
  f32, Listener, Chunk, with_data, returned, fault, process_chunk, process_data, on_process,
}

module _ (F : Float) where
  open F use {Value, of_unsigned}

  -- The function with its guards passed.
  on_process-loop :
      (l : Listener F) (content : List Value) (chunk : Chunk)
      → 0 < l.negotiated_channels
      → 0 < chunk.size
      → l.format.format ≡ f32
      → on_process F (with_data (record { content = some content; chunk = some chunk })) l ≡ (
          let (ring, rest) =
            frame_loop F
              (drop chunk.offset content)
              l.negotiated_channels
              (rate_or_model l.negotiated_rate)
              (chunk.size / (4 * l.negotiated_channels))
              0
              l.ring
              l.resample_accumulator in
          returned (record l { ring = ring; resample_accumulator = rest }))
  unfolding on_process process_data process_chunk
  on_process-loop l content chunk c size f = ground arith

  -- A buffer with float samples and a chunk that is not empty, when the stream negotiated some
  -- channels and a rate that lets the accumulator, below it, not wrap: the ring, which held the
  -- end of a stream, gets the resampled frames of the chunk, all that fit in its size, the
  -- accumulator stays below the rate, and the buffer goes back to the stream.
  pub on_process-samples :
      (l : Listener F) (content h : List Value) (chunk : Chunk)
      → 0 < l.negotiated_channels
      → rate_or_model l.negotiated_rate + model_rate ≤ unsigned_mod
      → l.resample_accumulator < rate_or_model l.negotiated_rate
      → 0 < chunk.size
      → l.format.format ≡ f32
      → Holds (of_unsigned 0) h l.ring
      → (l' : Listener F) × (on_process F
            (with_data (record { content = some content; chunk = some chunk }))
            l
          ≡ returned l')
        × Holds
            (of_unsigned 0)
            (h
              ++ resampled (rate_or_model l.negotiated_rate) l.resample_accumulator (
                  mono_frames F
                    (drop chunk.offset content)
                    l.negotiated_channels
                    0
                    (chunk.size / (4 * l.negotiated_channels))))
            l'.ring
        × (l'.resample_accumulator < rate_or_model l.negotiated_rate)
        × (l'.held_buffers ≡ l.held_buffers)
  on_process-samples l content h chunk c fits small size f v =
      let frames = chunk.size / (4 * l.negotiated_channels) in
      let rate = rate_or_model l.negotiated_rate in
      let (ring, rest) =
        frame_loop F (drop chunk.offset content) l.negotiated_channels rate frames 0 l.ring
          l.resample_accumulator in
      let a =
        frame_loop-Appends F (drop chunk.offset content) l.negotiated_channels rate frames 0 l.ring
          l.resample_accumulator (ground arith) fits small v in
      (
        record l { ring = ring; resample_accumulator = rest },
        on_process-loop l content chunk c size f,
        a.held,
        rw a.left (mod-lt (l.resample_accumulator + frames * model_rate) (ground arith)),
        refl,
      )

  -- With no channels negotiated, a buffer with float samples and a chunk that is not empty makes
  -- the callback divide by zero: the default of one channel comes too late.
  pub on_process-no_channels :
      (l : Listener F) (content : List Value) (chunk : Chunk)
      → l.negotiated_channels ≡ 0
      → 0 < chunk.size
      → l.format.format ≡ f32
      → on_process F (with_data (record { content = some content; chunk = some chunk })) l ≡ fault
  unfolding on_process process_data process_chunk
  on_process-no_channels l content chunk c size f = ground arith
