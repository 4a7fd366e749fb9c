-- ===== src/Tests/Capture.antt =====
-- Tests of the capture path: the ring, the resampler, `on_process` and the WAV file.
use okay_hermes_realtime.Stream.Window.{on_process_all-window}
use okay_hermes_realtime.Stream.Pipeline.{on_process_all, all_frames}
use okay_hermes_realtime.Ring.Threads.Store.{IsIntact}
use okay_hermes_realtime.Ring.Concurrent.{at_rest, run-IsIntact, remaining, run-remaining}
use okay_hermes_realtime.Ring.Threads.{
  Turn, call_write, step_writer, call_snapshot, step_reader, run, step, available,
}
use okay_hermes_realtime.Resample.Rate.{mix_and_resample_downmix-total_written}
use okay_hermes_realtime.Base.{
  ℕ, ◌+◌, ◌-◌, ◌*◌, ◌/◌, ◌%◌, ◌<◌, ◌≤◌, ◌≡◌, refl, true, false, some, none, List, [], ◌∷◌, ◌++◌,
  drop, length, ltb, arith, map, if◌then◌else◌, replicate,
}
use okay_hermes_realtime.Base.Int.{ℤ, pos, negsuc}
use okay_hermes_realtime.Ring.{
  SampleRing, ring_init, ring_write, write_loop, snapshot_loop, ring_snapshot_latest, size_mod,
}
use okay_hermes_realtime.Ring.Inv.{Holds, ring_init-Holds, ring_write-Holds}
use okay_hermes_realtime.Ring.Snapshot.{ring_snapshot_latest-drop}
use okay_hermes_realtime.Resample.{model_rate, mix_and_resample_downmix, model_samples}
use okay_hermes_realtime.Resample.Count.{resampled, length-resampled}
use okay_hermes_realtime.Resample.Stream.{Appends, mono_frames, mix_and_resample_downmix-Appends}
use okay_hermes_realtime.Stream.{
  Listener, f32, with_data, returned, fault, on_process, Dequeued, nothing,
}
use okay_hermes_realtime.Stream.Capture.{on_process-no_channels}
use okay_hermes_realtime.Wav.{quantize, wav_bytes}
use okay_hermes_realtime.Wav.Format.{read_wav, read_wav-wav_bytes}
use okay_hermes_realtime.Tests.{whole, whole-IsRounding}

abbrev no_ring : SampleRing ℤ
no_ring = record { samples = none; capacity = 0; write_index = 0; total_written = 0 }

abbrev three : SampleRing ℤ
three = (ring_init (pos 0) true 3 no_ring).1

abbrev four_samples : List ℤ
four_samples = pos 5 ∷ pos 6 ∷ negsuc 0 ∷ pos 8 ∷ []

three_accepted : (ring_init (pos 0) true 3 no_ring).0 ≡ true
unfolding ring_init
three_accepted = refl

three-Holds : Holds (pos 0) [] three
three-Holds = ring_init-Holds (pos 0) true 3 no_ring three_accepted

room_for_two : 2 ≤ (ring_write three (some four_samples)).capacity
unfolding ring_init ring_write
room_for_two = omega arith

-- What the code does on these samples, run.
snapshot-three :
    ring_snapshot_latest (pos 0) (ring_write three (some four_samples)) 3
    ≡ pos 6 ∷ negsuc 0 ∷ pos 8 ∷ []
unfolding ring_init ring_write write_loop ring_snapshot_latest snapshot_loop
snapshot-three = refl

-- The fourth sample overwrites the first.
ring_write-Holds_example : Holds (pos 0) ([] ++ four_samples) (ring_write three (some four_samples))
ring_write-Holds_example = ring_write-Holds (pos 0) four_samples three-Holds

ring_snapshot_latest-drop_example :
    ring_snapshot_latest (pos 0) (ring_write three (some four_samples)) 2
    ≡ (if ltb (length four_samples) 2 then [] else drop (length four_samples - 2) four_samples)
ring_snapshot_latest-drop_example =
    ring_snapshot_latest-drop (pos 0) {h = four_samples} 2 ring_write-Holds_example room_for_two
      (omega arith)

-- Two stereo frames at twice the model's rate.
stereo_resampled :
    Appends
      (pos 0)
      []
      (resampled 32000 16000 (mono_frames whole four_samples 2 0 2))
      ((16000 + 2 * model_rate) % 32000)
      (mix_and_resample_downmix whole (some four_samples) 2 2 32000 three 16000)
stereo_resampled =
    mix_and_resample_downmix-Appends whole four_samples 2 2 32000 three 16000 (omega arith)
      (omega arith) three-Holds

mix_and_resample_downmix-total_written_example :
    (mix_and_resample_downmix whole (some four_samples) 2 2 32000 three 16000).0.total_written
    ≡ (three.total_written + (16000 + 2 * model_rate) / 32000) % size_mod
mix_and_resample_downmix-total_written_example =
    mix_and_resample_downmix-total_written whole four_samples 2 2 32000 three 16000 (omega arith)
      (omega arith) three-Holds

abbrev listening : ℕ → Listener whole
listening channels = record {
  ring = three;
  format = record { format = f32; rate = 48000; channels = channels };
  is_raw_audio = true;
  negotiated_rate = 48000;
  negotiated_channels = channels;
  resample_accumulator = 40000;
  running = true;
  failed = false;
  quits = 0;
  held_buffers = 0;
}

without_channels :
    on_process whole
      (with_data
        (record { content = some four_samples; chunk = some (record { offset = 0; size = 16 }) }))
      (listening 0)
    ≡ fault
without_channels =
    on_process-no_channels whole (listening 0) four_samples (record { offset = 0; size = 16 }) refl
      (omega arith) refl

read_wav-wav_bytes_example :
    read_wav (wav_bytes whole four_samples)
    ≡ some (record {
      channels = 1;
      rate = 16000;
      bits = 16;
      samples = map (quantize whole) four_samples;
    })
read_wav-wav_bytes_example = read_wav-wav_bytes whole whole-IsRounding four_samples (omega arith)

-- The ring `three` with its storage in view.
abbrev three_held : Holds (pos 0) [] three
unfolding ring_init
three_held = record {
  buf = replicate 3 (pos 0);
  here = refl;
  stores = record {
    sized = refl;
    positive = omega arith;
    small = omega arith;
    index = refl;
    recent = λ p lt near. absurd (omega arith);
  };
  counted = refl;
}

-- The writer stores two more samples while the reader copies: the second of them to the cell that
-- the reader has just left.
abbrev race : List (Turn ℤ)
race =
    call_write (pos 5 ∷ pos 6 ∷ [])
    ∷ step_writer
    ∷ step_writer
    ∷ step_writer
    ∷ step_writer
    ∷ call_snapshot
    ∷ step_reader
    ∷ call_write (pos 7 ∷ pos 8 ∷ [])
    ∷ step_writer
    ∷ step_reader
    ∷ step_writer
    ∷ step_reader
    ∷ step_reader
    ∷ []

run-IsIntact_example :
    IsIntact
      (pos 0)
      3
      2
      (run (pos 0) 3 2 race (at_rest three_held.buf [] three)).written
      2
      (pos 5 ∷ pos 6 ∷ [])
    × (length (pos 5 ∷ pos 6 ∷ []) ≡ 2)
unfolding run step ring_init
run-IsIntact_example =
    run-IsIntact (pos 0) [] three 2 race 2 (pos 5 ∷ pos 6 ∷ []) three_held (omega arith) refl

run-remaining_example :
    remaining 2
      (run
        (pos 0)
        3
        2
        (step_reader ∷ step_writer ∷ step_reader ∷ step_reader ∷ step_reader ∷ [])
        (record (at_rest (pos 1 ∷ pos 2 ∷ pos 3 ∷ []) [] three) { reader = available })).reader
    ≡ 2 + 3 - 4
run-remaining_example =
    run-remaining (pos 0) 3 2
      (step_reader ∷ step_writer ∷ step_reader ∷ step_reader ∷ step_reader ∷ [])
      (record (at_rest (pos 1 ∷ pos 2 ∷ pos 3 ∷ []) [] three) { reader = available }) tt

abbrev roomy : SampleRing ℤ
roomy = (ring_init (pos 0) true 64000 no_ring).1

roomy_accepted : (ring_init (pos 0) true 64000 no_ring).0 ≡ true
unfolding ring_init
roomy_accepted = refl

roomy_capacity : roomy.capacity ≡ 64000
unfolding ring_init
roomy_capacity = refl

abbrev at_home : Listener whole
at_home = record (listening 2) { ring = roomy }

-- A stereo frame, an empty answer, and another frame.
abbrev two_buffers : List (Dequeued whole)
two_buffers =
    with_data
      (record { content = some four_samples; chunk = some (record { offset = 0; size = 8 }) })
    ∷ nothing
    ∷ with_data
        (record { content = some four_samples; chunk = some (record { offset = 2; size = 8 }) })
    ∷ []

two_buffers_few : length (resampled 48000 40000 (all_frames whole f32 2 two_buffers)) < size_mod
two_buffers_few = omega (
  arith,
  length-resampled 48000 40000 (all_frames whole f32 2 two_buffers) (omega arith) (omega arith),
)

on_process_all-window_example :
    let heard = resampled 48000 40000 (all_frames whole f32 2 two_buffers) in
    (l' : Listener whole) × (on_process_all whole two_buffers at_home ≡ returned l')
    × (l'.held_buffers ≡ 0)
    × (ring_snapshot_latest (pos 0) l'.ring model_samples ≡ (
        if ltb (length heard) model_samples then [] else drop (length heard - model_samples) heard))
on_process_all-window_example =
    on_process_all-window whole two_buffers at_home (omega arith) (omega arith) (omega arith)
      (ring_init-Holds (pos 0) true 64000 no_ring roomy_accepted) (omega (arith, roomy_capacity))
      two_buffers_few
