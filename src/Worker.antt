-- ===== src/Worker.antt =====
-- `listener_worker` of native/okay-hermes-realtime-wake-listener.c, the thread that watches the
-- capture, scores the latest window and reports activations.
pub mod Detect
pub mod Health
pub mod Sleep
pub mod Live
pub mod Refinement
use okay_hermes_realtime.Base.{
  ℕ, ◌+◌, ◌*◌, ◌%◌, Bool, true, false, not, ◌&&◌, ◌||◌, Option, none, some, List, [], ◌∷◌, ◌++◌,
  ltb, leb, ◌==◌, if◌then◌else◌, length,
}
use okay_hermes_realtime.Base.Bytes.{Bytes, bytes}
use okay_hermes_realtime.Float.{Float, Double}
use okay_hermes_realtime.Ring.{SampleRing, ring_snapshot_latest}
use okay_hermes_realtime.Resample.{model_samples, unsigned_mod}
use okay_hermes_realtime.Options.{ListenerOptions}

-- What the thread does to the outside: a status written, a window archived, an activation on the
-- standard output or through the handler, a message on stderr.
pub data Effect (F : Float) : Type 0 where
  status : Bytes → Effect F
  archive : List F.Value → F.Value → Effect F
  activation : F.Value → Effect F
  run_handler : F.Value → Effect F
  archive_message : Effect F

-- The hit counter after one score and whether an activation is due; the counter is an
-- `unsigned int`.
unfoldable pub detect : {F : Float} → ListenerOptions F → ℕ → F.Value → ℕ × Bool
detect {F} o consecutive_hits probability =
    let hits = if F.le o.threshold probability then (consecutive_hits + 1) % unsigned_mod else 0 in
    if leb o.consecutive_windows hits then (0, true) else (hits, false)

module _ (F : Float) (D : Double) where
  -- The local variables of the thread.
  pub record WorkerState : Type 0 where
    pub last_health_total : ℕ
    pub consecutive_hits : ℕ
    pub last_inference_at : D.Value
    pub last_capture_sample_at : D.Value
    pub wrote_unhealthy : Bool

  -- What one round of the loop meets: the clock, the ring, the answers of `run_model` and whether
  -- archiving and delivering an activation succeed.
  pub record Tick : Type 0 where
    pub now : D.Value
    pub ring : SampleRing F.Value
    pub run_model : List F.Value → Option F.Value
    pub archived : Bool
    pub delivered : Bool

  abbrev pub seconds : ℕ → D.Value
  seconds = D.of_unsigned

  -- `(double)inference_interval_ms / 1000.0`
  abbrev pub interval_of : ListenerOptions F → D.Value
  interval_of o = D.div (seconds o.inference_interval_ms) (seconds 1000)

  -- The capture health, from the count of samples: CAPTURE_HEALTH_TIMEOUT_SECONDS is 10.
  unfoldable pub health_step : ℕ → D.Value → WorkerState → List (Effect F) × WorkerState
  health_step total now s =
      if not (total == s.last_health_total)
      then (
        status (bytes "healthy") ∷ [],
        record s {
          last_health_total = total;
          wrote_unhealthy = false;
          last_capture_sample_at = now;
        },
      )
      else if not s.wrote_unhealthy && D.le (seconds 10) (D.sub now s.last_capture_sample_at)
      then (status (bytes "unhealthy") ∷ [], record s { wrote_unhealthy = true })
      else ([], s)

  -- Archiving and reporting an activation.
  unfoldable pub report : ListenerOptions F → Tick → List F.Value → F.Value → List (Effect F)
  report o t window probability =
      archive window probability
      ∷ ((if t.archived then [] else archive_message ∷ [])
          ++ ((if o.handler_argc == 0 then activation probability else run_handler probability)
              ∷ (if t.delivered then [] else status (bytes "handler_failed") ∷ [])))

  -- A window that was scored.
  unfoldable pub score_step :
      ListenerOptions F
      → Tick
      → List F.Value
      → F.Value
      → WorkerState
      → List (Effect F) × WorkerState
  score_step o t window probability s =
      let (hits, due) = detect o s.consecutive_hits probability in
      (if due then report o t window probability else [], record s { consecutive_hits = hits })

  -- The window is scored if it is complete and the model answers.
  unfoldable pub window_step :
      ListenerOptions F → Tick → List F.Value → WorkerState → List (Effect F) × WorkerState
  window_step o t window s =
      if length window == model_samples
      then (elim (t.run_model window) [
        | none ↦ ([], s)
        | some probability ↦ score_step o t window probability s
      ])
      else ([], s)

  -- An inference is due when a window is there and the interval has passed.
  unfoldable pub inference_due : ListenerOptions F → Tick → WorkerState → Bool
  inference_due o t s =
      leb model_samples t.ring.total_written
      && (D.eq s.last_inference_at (seconds 0)
          || D.le (interval_of o) (D.sub t.now s.last_inference_at))

  unfoldable pub inference_step :
      ListenerOptions F → Tick → WorkerState → List (Effect F) × WorkerState
  inference_step o t s =
      if inference_due o t s
      then (let (effects, s') =
            window_step o t (ring_snapshot_latest (F.of_unsigned 0) t.ring model_samples) s in
          (effects, record s' { last_inference_at = t.now }))
      else ([], s)

  -- One round of `while (atomic_load(&data->running))`, without the sleep.
  unfoldable pub round : ListenerOptions F → Tick → WorkerState → List (Effect F) × WorkerState
  round o t s =
      let (health, s') = health_step t.ring.total_written t.now s in
      let (inference, s'') = inference_step o t s' in (health ++ inference, s'')

  -- The loop, over the rounds for which `running` was still set.
  unfoldable pub worker_loop :
      ListenerOptions F → List Tick → WorkerState → List (Effect F) × WorkerState
  worker_loop o [] s = ([], s)
  worker_loop o (t ∷ ticks) s =
      let (first, s') = round o t s in
      let (more, s'') = worker_loop o ticks s' in (first ++ more, s'')

  abbrev pub initial : D.Value → WorkerState
  initial started = record {
    last_health_total = 0;
    consecutive_hits = 0;
    last_inference_at = seconds 0;
    last_capture_sample_at = started;
    wrote_unhealthy = false;
  }

  -- `listener_worker` once its buffer is allocated and its model is loaded; what it does when that
  -- fails is in `Stream`.
  unfoldable pub listener_worker : ListenerOptions F → D.Value → List Tick → List (Effect F)
  listener_worker o started ticks =
      status (bytes "starting")
      ∷ ((worker_loop o ticks (initial started)).0 ++ (status (bytes "stopped") ∷ []))
