-- ===== src/Tests/Activations.antt =====
-- Tests of what happens on an activation.
use okay_hermes_realtime.Descriptors.Run.{listener_worker_live-Balanced}
use okay_hermes_realtime.Posix.Balance.{Balanced, IsFresh}
use okay_hermes_realtime.Worker.Refinement.{answered_all, listener_worker_live-perform_all}
use okay_hermes_realtime.Worker.Live.{World, Host, listener_worker_live, perform_all, write_status}
use okay_hermes_realtime.Options.{ListenerOptions}
use okay_hermes_realtime.Worker.{Tick, listener_worker, initial}
use okay_hermes_realtime.SelfTest.Report.{
  SelfTested, stem, window, window_text, archive, sends, self_test_output-SelfTested,
}
use okay_hermes_realtime.SelfTest.Frames.{latest_frames}
use okay_hermes_realtime.SelfTest.{self_test_output, self_test_payload, mean_of}
use okay_hermes_realtime.Base.{
  ℕ, ◌<◌, ◌≡◌, refl, true, false, some, List, [], ◌∷◌, arith, length, take, ltb, if◌then◌else◌,
  none,
}
use okay_hermes_realtime.Base.Int.{ℤ, pos, negsuc}
use okay_hermes_realtime.Base.Bytes.{bytes}
use okay_hermes_realtime.Posix.{Reply, Replies, accept, refuse, advances_within}
use okay_hermes_realtime.Storage.{status_tmp}
use okay_hermes_realtime.Wav.{wav_bytes, write_activation_wav}
use okay_hermes_realtime.Wav.Replace.{Reports, write_activation_wav-Reports}
use okay_hermes_realtime.Activation.{
  Printf, payload_text, activation_payload, Process, run_handler, write_activation,
}
use okay_hermes_realtime.Activation.Handler.{Delivers, run_handler-Delivers}
use okay_hermes_realtime.Activation.Archive.{archive_activation, stem_of, metadata_text}
use okay_hermes_realtime.Activation.Kept.{Archived, archive_activation-Archived}
use okay_hermes_realtime.Activation.Payload.{write_activation-payload_text}
use okay_hermes_realtime.Tests.{whole, thousandths, good, host}

abbrev samples : List ℤ
samples = pos 0 ∷ pos 1 ∷ negsuc 0 ∷ []

abbrev printf : Printf whole thousandths
printf = record {
  float_9f = λ x. bytes "1.000000000";
  double_9f = λ x. bytes "12.500000000";
  float_9g = λ x. bytes "1";
  seconds_1f = λ n. bytes "0.0";
}

-- The twelfth and every later call fails.
abbrev twelfth_fails : ℕ → Reply
twelfth_fails n = if ltb n 11 then accept 2 else refuse

twelfth_fails-advances : (t : ℕ) → advances_within twelfth_fails 0 t ≡ true
unfolding advances_within
twelfth_fails-advances t = ground arith

abbrev failing_late : Replies
failing_late = record { answer = twelfth_fails; patience = 0; advances = twelfth_fails-advances }

write_activation_wav-Reports_example :
    let (done, os') =
      write_activation_wav good whole (bytes "42") (some (bytes "/a/b.wav")) (some samples) host in
    Reports
      (bytes "/a/b.wav")
      (status_tmp (bytes "42") (bytes "/a/b.wav"))
      (wav_bytes whole samples)
      done
      host
      os'
write_activation_wav-Reports_example =
    write_activation_wav-Reports good whole (bytes "42") (bytes "/a/b.wav") samples host
      (omega arith)

archive_activation-Archived_example :
    let ((done, next), os') =
      archive_activation failing_late printf
        (some (bytes "/arch"))
        (bytes "42")
        (some (bytes "20260101_120000", 7))
        samples
        (pos 1)
        false
        3
        host in
    Archived
      (stem_of (bytes "/arch") (bytes "20260101_120000") 7 (bytes "42") 3 false)
      (bytes "42")
      (wav_bytes whole samples)
      (metadata_text printf (pos 1) 3 false)
      done
      host
      os'
archive_activation-Archived_example =
    archive_activation-Archived failing_late printf b'/' (bytes "arch") (bytes "42")
      (bytes "20260101_120000") 7 samples (pos 1) false 3 host (omega arith)

abbrev parent : Process
parent = record { os = host; children = 0 }

run_handler-Delivers_example :
    let (sent, p') =
      run_handler good 1 (some (bytes "say" ∷ [])) (some (bytes "{}")) (some 0) parent in
    Delivers (bytes "{}") (some 0) parent sent p'
run_handler-Delivers_example =
    run_handler-Delivers good 1 (some (bytes "say" ∷ [])) (bytes "{}") (some 0) parent refl refl

write_activation-payload_text_example :
    let payload = payload_text whole thousandths printf (pos 1) (bytes "activation") 12500 true in
    let sent =
      (write_activation failing_late
        (activation_payload whole thousandths printf (pos 1) 12500)
        host).0 in
    (count : ℕ) × (sent.text ≡ take count payload)
    × (sent.done ≡ true → count ≡ length payload)
    × (sent.done ≡ false → count < length payload)
write_activation-payload_text_example =
    write_activation-payload_text whole thousandths printf failing_late (pos 1) 12500 host refl refl
      refl refl (omega arith)

self_test_output-SelfTested_example :
    let (sent, os') =
      self_test_output good printf
        (some (bytes "/arch"))
        (bytes "42")
        (some (bytes "20260101_120000", 7))
        true
        0
        true
        host in
    let payload = self_test_payload printf (mean_of whole (latest_frames whole)) in
    SelfTested payload
      (stem good printf b'/' (bytes "arch") (bytes "42") (bytes "20260101_120000") 7 0)
      (wav_bytes whole
        (window good printf b'/' (bytes "arch") (bytes "42") (bytes "20260101_120000") 7 0))
      (window_text good printf b'/' (bytes "arch") (bytes "42") (bytes "20260101_120000") 7 0)
      (archive good printf b'/' (bytes "arch") (bytes "42") (bytes "20260101_120000") 7 0 host).0.0
      (sends good printf b'/'
        (bytes "arch")
        (bytes "42")
        (bytes "20260101_120000")
        7
        0
        payload
        (archive good printf b'/' (bytes "arch") (bytes "42") (bytes "20260101_120000") 7 0 host).1)
      sent
      os'
self_test_output-SelfTested_example =
    self_test_output-SelfTested good printf b'/' (bytes "arch") (bytes "42")
      (bytes "20260101_120000") 7 0 host (omega arith) (omega arith)

abbrev one_window : ListenerOptions whole
one_window = record {
  model_path = none;
  capture_health_path = none;
  activation_archive_dir = some (bytes "/arch");
  handler_argv = none;
  handler_argc = 0;
  threshold = pos 1;
  consecutive_windows = 1;
  inference_interval_ms = 250;
  self_test = false;
}

abbrev scored : Tick whole thousandths
scored = record {
  now = 1000;
  ring = record { samples = some []; capacity = 64000; write_index = 0; total_written = 48000 };
  run_model = λ window. some (pos 1);
  archived = false;
  delivered = false;
}

abbrev world : World whole thousandths
world = record {
  replies = failing_late;
  printf = printf;
  pid = bytes "42";
  clock = λ calls. some (12, 500000000);
  archive_clock = λ calls. some (bytes "20260101_120000", 7);
  exit_code = λ calls. some 0;
}

abbrev quiet : Host
quiet = record { process = parent; sequence = 0; output = []; handled = [] }

worker_performed :
    listener_worker_live whole thousandths world
      (bytes "/run/health")
      one_window
      0
      (scored ∷ [])
      quiet
    ≡ perform_all whole thousandths world
        (bytes "/run/health")
        one_window
        (listener_worker whole thousandths one_window 0 (
          answered_all whole thousandths world
            (bytes "/run/health")
            one_window
            (scored ∷ [])
            (initial whole thousandths 0)
            (write_status whole thousandths world
              (bytes "/run/health")
              one_window
              (bytes "starting")
              quiet)))
        quiet
worker_performed =
    listener_worker_live-perform_all whole thousandths world (bytes "/run/health") one_window 0
      (scored ∷ []) quiet

host-IsFresh : IsFresh host
host-IsFresh fd le = ground arith

listener_worker_live-Balanced_example :
    Balanced host
      (listener_worker_live whole thousandths world
        (bytes "/run/health")
        one_window
        0
        (scored ∷ scored ∷ [])
        quiet).process.os
listener_worker_live-Balanced_example =
    listener_worker_live-Balanced whole thousandths world (bytes "/run/health") one_window 0
      (scored ∷ scored ∷ []) quiet host-IsFresh
