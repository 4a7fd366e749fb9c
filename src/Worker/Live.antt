-- ===== src/Worker/Live.antt =====
-- The rounds of `listener_worker` as they act on the system: each call is made where the code makes
-- it, and the code branches on what the call returns. What the clocks and a handler's exit status
-- answer depends on the number of system calls made so far.
use okay_hermes_realtime.Base.{
  ℕ, Bool, true, false, not, ◌&&◌, Option, none, some, List, [], ◌∷◌, ◌++◌, ◌==◌, if◌then◌else◌,
  length,
}
use okay_hermes_realtime.Base.Bytes.{Bytes, bytes}
use okay_hermes_realtime.Float.{Float, Double}
use okay_hermes_realtime.Ring.{ring_snapshot_latest}
use okay_hermes_realtime.Resample.{model_samples}
use okay_hermes_realtime.Options.{ListenerOptions}
use okay_hermes_realtime.Posix.{Replies, Os}
use okay_hermes_realtime.Storage.{write_capture_status}
use okay_hermes_realtime.Activation.{
  Printf, Process, activation_payload, write_activation, run_handler,
}
use okay_hermes_realtime.Activation.Archive.{archive_activation}
use okay_hermes_realtime.Worker.{
  Effect, status, archive, activation, archive_message, WorkerState, Tick, seconds, detect,
  inference_due, initial,
}

-- `monotonic_seconds()`, by what `clock_gettime` gave; `none` is a failure.
abbrev pub monotonic_seconds : (D : Double) → Option (ℕ × ℕ) → D.Value
monotonic_seconds D none = D.of_unsigned 0
monotonic_seconds D (some (tv_sec, tv_nsec)) =
    D.add (D.of_unsigned tv_sec) (D.div (D.of_unsigned tv_nsec) (D.of_unsigned 1000000000))

-- What answers the calls.
pub record World (F : Float) (D : Double) : Type 0 where
  pub replies : Replies
  pub printf : Printf F D
  pub pid : Bytes
  pub clock : ℕ → Option (ℕ × ℕ)
  pub archive_clock : ℕ → Option (Bytes × ℕ)
  pub exit_code : ℕ → Option ℕ

-- What the thread acts on: the process, the sequence number of the archive, what has arrived on the
-- standard output and at each handler.
pub record Host : Type 0 where
  pub process : Process
  pub sequence : ℕ
  pub output : Bytes
  pub handled : List Bytes

module _ (F : Float) (D : Double) (w : World F D) (path : Bytes) (o : ListenerOptions F) where
  abbrev pub payload_at : F.Value → Os → Option Bytes
  payload_at probability os =
      activation_payload F D w.printf probability (monotonic_seconds D (w.clock os.calls))

  -- `write_capture_status(data, text)`
  unfoldable pub write_status : Bytes → Host → Host
  write_status text h = record h {
    process = record h.process {
      os = (write_capture_status w.replies w.pid path (some text) h.process.os).1;
    };
  }

  -- `archive_activation(data->options.activation_archive_dir, model_window, …, false)`
  unfoldable pub archive_window : List F.Value → F.Value → Host → Bool × Host
  archive_window window probability h =
      let ((done, sequence), os) =
        archive_activation w.replies w.printf o.activation_archive_dir w.pid
          (w.archive_clock h.process.os.calls) window probability false h.sequence h.process.os in
      (done, record h { process = record h.process { os = os }; sequence = sequence })

  -- `write_activation(data, probability)`
  unfoldable pub send_activation : F.Value → Host → Bool × Host
  send_activation probability h =
      let (sent, os) =
        write_activation w.replies (payload_at probability h.process.os) h.process.os in
      (
        sent.done,
        record h { process = record h.process { os = os }; output = h.output ++ sent.text },
      )

  -- `run_handler(data, probability)`
  unfoldable pub call_handler : F.Value → Host → Bool × Host
  call_handler probability h =
      let (sent, process) =
        run_handler w.replies o.handler_argc o.handler_argv (payload_at probability h.process.os)
          (w.exit_code h.process.os.calls) h.process in
      (sent.done, record h { process = process; handled = h.handled ++ (sent.text ∷ []) })

  -- The body of `if (consecutive_hits >= …)`
  unfoldable pub report_live : List F.Value → F.Value → Host → Host
  report_live window probability h =
      let (archived, h1) = archive_window window probability h in
      let (delivered, h2) =
        if o.handler_argc == 0
        then send_activation probability h1
        else call_handler probability h1 in
      if delivered then h2 else write_status (bytes "handler_failed") h2

  -- The two branches on `total`
  unfoldable pub health_live : ℕ → D.Value → WorkerState F D → Host → WorkerState F D × Host
  health_live total now s h =
      if not (total == s.last_health_total)
      then (
        record s {
          last_health_total = total;
          wrote_unhealthy = false;
          last_capture_sample_at = now;
        },
        write_status (bytes "healthy") h,
      )
      else if not s.wrote_unhealthy && D.le (seconds F D 10) (D.sub now s.last_capture_sample_at)
      then (record s { wrote_unhealthy = true }, write_status (bytes "unhealthy") h)
      else (s, h)

  -- What follows `run_model(…) == 0`
  unfoldable pub score_live :
      List F.Value → F.Value → WorkerState F D → Host → WorkerState F D × Host
  score_live window probability s h =
      let (hits, due) = detect o s.consecutive_hits probability in
      (record s { consecutive_hits = hits }, if due then report_live window probability h else h)

  abbrev pub answer_live :
      List F.Value → Option F.Value → WorkerState F D → Host → WorkerState F D × Host
  answer_live window none s h = (s, h)
  answer_live window (some probability) s h = score_live window probability s h

  -- The block for a due inference
  unfoldable pub inference_live : Tick F D → WorkerState F D → Host → WorkerState F D × Host
  inference_live t s h =
      if inference_due F D o t s
      then (let window = ring_snapshot_latest (F.of_unsigned 0) t.ring model_samples in
          let (s', h') =
            if length window == model_samples
            then answer_live window (t.run_model window) s h
            else (s, h) in
          (record s' { last_inference_at = t.now }, h'))
      else (s, h)

  -- One round, without the sleep
  unfoldable pub round_live : Tick F D → WorkerState F D → Host → WorkerState F D × Host
  round_live t s h =
      let (s', h') = health_live t.ring.total_written t.now s h in inference_live t s' h'

  unfoldable pub loop_live : List (Tick F D) → WorkerState F D → Host → WorkerState F D × Host
  loop_live [] s h = (s, h)
  loop_live (t ∷ ticks) s h = let (s1, h1) = round_live t s h in loop_live ticks s1 h1

  -- From the first status to the last
  unfoldable pub listener_worker_live : D.Value → List (Tick F D) → Host → Host
  listener_worker_live started ticks h =
      write_status (bytes "stopped")
        (loop_live ticks (initial F D started) (write_status (bytes "starting") h)).1

  -- Carrying out one effect of `Worker`.
  unfoldable pub perform : Effect F → Host → Host
  perform (status text) h = write_status text h
  perform (archive window probability) h = (archive_window window probability h).1
  perform (activation probability) h = (send_activation probability h).1
  perform (Effect.run_handler probability) h = (call_handler probability h).1
  perform archive_message h = h

  unfoldable pub perform_all : List (Effect F) → Host → Host
  perform_all [] h = h
  perform_all (e ∷ effects) h = perform_all effects (perform e h)
