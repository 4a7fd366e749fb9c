-- ===== src/Stream.antt =====
-- The PipeWire callbacks of native/okay-hermes-realtime-wake-listener.c: `on_process`,
-- `on_stream_param_changed`, `on_state_changed` and `signal_request_stop`, over the fields of
-- `struct listener_data` that they share with the worker and with `main`.
pub mod Capture
pub mod Shutdown
pub mod Pipeline
pub mod Window
use okay_hermes_realtime.Base.{
  ℕ, zero, suc, ◌+◌, ◌-◌, ◌*◌, ◌/◌, Bool, true, false, not, ◌||◌, Option, none, some, List, [], ◌∷◌,
  ◌==◌, if◌then◌else◌, drop,
}
use okay_hermes_realtime.Float.{Float}
use okay_hermes_realtime.Ring.{SampleRing}
use okay_hermes_realtime.Resample.{model_rate, channels_or_1, rate_or_model, frame_loop}

-- `enum spa_audio_format`, as far as it is told apart, and `struct spa_audio_info_raw`.
pub data AudioFormat : Type 0 where
  f32 : AudioFormat
  other_format : AudioFormat

pub record RawInfo : Type 0 where
  pub format : AudioFormat
  pub rate : ℕ
  pub channels : ℕ

-- `struct listener_data`. `quits` counts the calls of `pw_main_loop_quit`; the loop is there
-- (`data->loop` is not NULL) once the callbacks can run.
pub record Listener (F : Float) : Type 0 where
  pub ring : SampleRing F.Value
  pub format : RawInfo
  pub is_raw_audio : Bool
  pub negotiated_rate : ℕ
  pub negotiated_channels : ℕ
  pub resample_accumulator : ℕ
  pub running : Bool
  pub failed : Bool
  pub quits : ℕ
  -- buffers taken from the stream and not given back
  pub held_buffers : ℕ

-- The memory of a dequeued buffer. `content` is `spa_data->data` as samples, `none` for NULL, and
-- the chunk is its `offset` in samples and its `size` in bytes.
pub record Chunk : Type 0 where
  pub offset : ℕ
  pub size : ℕ

pub record SpaData (F : Float) : Type 0 where
  pub content : Option (List F.Value)
  pub chunk : Option Chunk

-- What `pw_stream_dequeue_buffer` gives: nothing, a buffer with no `spa_buffer`, or one with data.
pub data Dequeued (F : Float) : Type 0 where
  nothing : Dequeued F
  without_data : Dequeued F
  with_data : SpaData F → Dequeued F

-- A callback returns, or it divides by zero.
pub data Processed (F : Float) : Type 0 where
  returned : Listener F → Processed F
  fault : Processed F

module _ (F : Float) where
  -- `pw_stream_dequeue_buffer` and `pw_stream_queue_buffer`
  abbrev pub take_buffer : Listener F → Listener F
  take_buffer l = record l { held_buffers = l.held_buffers + 1 }

  abbrev pub queue_buffer : Listener F → Listener F
  queue_buffer l = record l { held_buffers = l.held_buffers - 1 }

  -- Mixing and resampling the chunk. `chunk->size / (sizeof(float) * channels)` comes before the
  -- test for no channels. The loop is that of `mix_and_resample_downmix`.
  unfoldable pub process_chunk : Listener F → List F.Value → Chunk → Processed F
  process_chunk l content chunk =
      if l.negotiated_channels == 0
      then fault
      else (let frames = chunk.size / (4 * l.negotiated_channels) in
          let (ring, rest) =
            frame_loop F (drop chunk.offset content) (channels_or_1 l.negotiated_channels)
              (rate_or_model l.negotiated_rate) frames 0 l.ring l.resample_accumulator in
          returned (queue_buffer (record l { ring = ring; resample_accumulator = rest })))

  abbrev pub is_f32 : AudioFormat → Bool
  is_f32 f32 = true
  is_f32 other_format = false

  unfoldable pub process_data : Listener F → SpaData F → Processed F
  process_data l d = elim d.content [
    | none ↦ returned (queue_buffer l)
    | some content ↦ elim d.chunk [
      | none ↦ returned (queue_buffer l)
      | some chunk ↦
          if chunk.size == 0 || not (is_f32 l.format.format)
          then returned (queue_buffer l)
          else process_chunk l content chunk
    ]
  ]

  -- `on_process(userdata)`
  unfoldable pub on_process : Dequeued F → Listener F → Processed F
  on_process nothing l = returned l
  on_process without_data l = returned (queue_buffer (take_buffer l))
  on_process (with_data d) l = process_data (take_buffer l) d

  -- What `spa_format_parse` and `spa_format_audio_raw_parse` read from a parameter: an error, a
  -- format that is not raw audio, raw audio that cannot be parsed, or raw audio.
  pub data FormatParam : Type 0 where
    unreadable : FormatParam
    not_raw : FormatParam
    raw_unreadable : FormatParam
    raw : RawInfo → FormatParam

  -- `on_stream_param_changed(userdata, id, param)`; `none` is NULL or another `id` than the format.
  unfoldable pub on_stream_param_changed : Option FormatParam → Listener F → Listener F
  on_stream_param_changed none l = l
  on_stream_param_changed (some unreadable) l = l
  on_stream_param_changed (some not_raw) l = record l { is_raw_audio = false }
  on_stream_param_changed (some raw_unreadable) l = record l { is_raw_audio = true }
  on_stream_param_changed (some (raw info)) l = record l {
    is_raw_audio = true;
    format = info;
    resample_accumulator = 0;
    negotiated_rate = info.rate;
    negotiated_channels = info.channels;
  }

-- `enum pw_stream_state`
pub data StreamState : Type 0 where
  error unconnected connecting paused streaming : StreamState

module _ {F : Float} where
  abbrev stop_failed : Listener F → Listener F
  stop_failed l = record l { running = false; failed = true; quits = l.quits + 1 }

  -- The compare-and-exchange of `running`: only the first failure counts.
  abbrev fail_once : Listener F → Listener F
  fail_once l = if l.running then stop_failed l else l

  -- `on_state_changed(userdata, old, state, error)`
  unfoldable pub on_state_changed : StreamState → Listener F → Listener F
  on_state_changed error l = fail_once l
  on_state_changed unconnected l = fail_once l
  on_state_changed connecting l = l
  on_state_changed paused l = l
  on_state_changed streaming l = l

  -- `signal_request_stop(signo)`
  unfoldable pub signal_request_stop : Listener F → Listener F
  signal_request_stop l = record l { running = false; quits = l.quits + 1 }

  -- The first part of `listener_worker`: no memory for the window, or no model.
  unfoldable pub worker_start_failed : Listener F → Listener F
  worker_start_failed l = record l { failed = true; running = false; quits = l.quits + 1 }
