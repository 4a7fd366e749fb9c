-- ===== src/Tests/Listening.antt =====
-- Tests of the worker, the model and the end of the program.
use okay_hermes_realtime.Base.{
  ℕ, ◌+◌, ◌%◌, ◌≡◌, refl, Bool, true, false, not, ◌&&◌, none, some, List, [], ◌∷◌, ltb, ◌==◌, arith,
  if◌then◌else◌,
}
use okay_hermes_realtime.Base.Int.{pos}
use okay_hermes_realtime.Options.{ListenerOptions}
use okay_hermes_realtime.Worker.{detect, Tick, worker_loop, initial}
use okay_hermes_realtime.Worker.Detect.{hits_after, streak, detect-due}
use okay_hermes_realtime.Worker.Health.{read_effects, worker_loop-read}
use okay_hermes_realtime.Stream.{Listener, f32, unconnected, paused}
use okay_hermes_realtime.Stream.Shutdown.{
  Event, signal, state_changed, handle_all, should_fail, handle_all-should_fail,
}
use okay_hermes_realtime.Model.{
  Ort, zeroed, nothing_live, init_calls, check_all, ort_status_check, wake_model_init,
  wake_model_destroy, run_model, new_status,
}
use okay_hermes_realtime.Model.Resources.{fresh, wake_model_destroy-init}
use okay_hermes_realtime.Model.Inference.{is_ready, run_model-objects, run_model-score}
use okay_hermes_realtime.Tests.{whole, thousandths}

abbrev two_windows : ListenerOptions whole
two_windows = record {
  model_path = none;
  capture_health_path = none;
  activation_archive_dir = none;
  handler_argv = none;
  handler_argc = 0;
  threshold = pos 1;
  consecutive_windows = 2;
  inference_interval_ms = 250;
  self_test = false;
}

-- The last but one score is a hit, and so is the new one.
detect-due_example :
    (detect two_windows (hits_after whole two_windows (pos 1 ∷ pos 0 ∷ pos 3 ∷ [])) (pos 2)).1
    ≡ (true && streak whole two_windows (pos 2 ∷ pos 1 ∷ pos 0 ∷ pos 3 ∷ []) % 2 == 0)
detect-due_example =
    detect-due whole two_windows (omega arith) (omega arith) (pos 2) (pos 1 ∷ pos 0 ∷ pos 3 ∷ [])

abbrev tick : ℕ → ℕ → Tick whole thousandths
tick now total = record {
  now = now;
  ring = record { samples = some []; capacity = 64000; write_index = 0; total_written = total };
  run_model = λ window. none;
  archived = true;
  delivered = true;
}

-- Samples, then none for longer than the time-out, then samples again.
abbrev ticks : List (Tick whole thousandths)
ticks = tick 1000 160 ∷ tick 12000 160 ∷ tick 12500 160 ∷ tick 13000 320 ∷ []

worker_loop-read_example :
    let (effects, s') =
      worker_loop whole thousandths two_windows ticks (initial whole thousandths 0) in
    read_effects false effects ≡ some s'.wrote_unhealthy
worker_loop-read_example =
    worker_loop-read whole thousandths two_windows ticks (initial whole thousandths 0)

abbrev started : Listener whole
started = record {
  ring = record { samples = none; capacity = 0; write_index = 0; total_written = 0 };
  format = record { format = f32; rate = 48000; channels = 2 };
  is_raw_audio = true;
  negotiated_rate = 48000;
  negotiated_channels = 2;
  resample_accumulator = 0;
  running = true;
  failed = false;
  quits = 0;
  held_buffers = 0;
}

abbrev stopped_cleanly : List Event
stopped_cleanly = state_changed paused ∷ signal ∷ state_changed unconnected ∷ []

stopped_cleanly_succeeds : should_fail stopped_cleanly ≡ false
unfolding should_fail
stopped_cleanly_succeeds = refl

handle_all-should_fail_example :
    (handle_all stopped_cleanly started).failed ≡ should_fail stopped_cleanly
handle_all-should_fail_example = handle_all-should_fail stopped_cleanly started refl refl

-- The ninth call and all behind it fail.
abbrev eight : ℕ → Bool
eight n = ltb n 8

-- The thirteenth call and all behind it fail; the thirteenth releases its name all the same.
abbrev twelve : ℕ → Bool
twelve n = ltb n 12

abbrev lets_go : ℕ → Bool
lets_go n = n == 12

wake_model_destroy-init_example :
    (wake_model_destroy twelve lets_go
      (wake_model_init twelve true true (record { objects = fresh; calls = 0 })).1).objects
    ≡ record { model = zeroed; live = record nothing_live { names = 1 } }
unfolding wake_model_init check_all init_calls ort_status_check
wake_model_destroy-init_example = wake_model_destroy-init twelve lets_go true true 0

abbrev loaded : Ort
loaded = record {
  objects = record {
    model = record {
      ort = true;
      env = true;
      session_options = true;
      session = true;
      memory_info = true;
      allocator = true;
      input_name = true;
      output_name = true;
    };
    live = record {
      envs = 1;
      session_options = 1;
      sessions = 1;
      memory_infos = 1;
      names = 2;
      values = 0;
      statuses = 0;
      stray_releases = 0;
    };
  };
  calls = 0;
}

run_model-objects_example : (run_model eight (pos 0) true (some (pos 7)) loaded).1.objects ≡ (
    if is_ready eight (pos 0) true loaded && not (eight 0)
    then new_status loaded.objects
    else loaded.objects)
run_model-objects_example = run_model-objects eight (pos 0) true (some (pos 7)) loaded

first_output_scored : (run_model eight (pos 0) true (some (pos 7)) loaded).0 ≡ (
    if is_ready eight (pos 0) true loaded && eight 0 && eight (0 + 1) && eight (0 + 2)
    then some (pos 7)
    else none)
first_output_scored = run_model-score eight (pos 0) true (some (pos 7)) loaded
