-- ===== src/Worker/Health.antt =====
-- The health statuses that a run of the worker writes.
use okay_hermes_realtime.Base.{
  ℕ, ◌≡◌, refl, sym, ap, ◌∙◌, Bool, true, false, Option, none, some, List, [], ◌∷◌, ◌++◌, arith,
  if◌then◌else◌, Option-cases, inl, inr,
}
use okay_hermes_realtime.Base.Bytes.{Bytes, bytes, bytes_eq}
use okay_hermes_realtime.Float.{Float, Double}
use okay_hermes_realtime.Ring.{ring_snapshot_latest}
use okay_hermes_realtime.Resample.{model_samples}
use okay_hermes_realtime.Options.{ListenerOptions}
use okay_hermes_realtime.Worker.{
  Effect, status, archive, activation, run_handler, archive_message, WorkerState, Tick, health_step,
  report, score_step, window_step, inference_step, round, worker_loop,
}

-- A reader of the status file who knows whether the last health was "unhealthy", and who refuses
-- (`none`) to be told so twice in a row. Other statuses are passed over.
unfoldable pub read_status : Bool → Bytes → Option Bool
read_status was_unhealthy text =
    if bytes_eq text (bytes "healthy")
    then some false
    else if bytes_eq text (bytes "unhealthy")
    then (if was_unhealthy then none else some true)
    else some was_unhealthy

module _ {F : Float} where
  unfoldable pub read_effect : Bool → Effect F → Option Bool
  read_effect b (status text) = read_status b text
  read_effect b (archive window p) = some b
  read_effect b (activation p) = some b
  read_effect b (run_handler p) = some b
  read_effect b archive_message = some b

  unfoldable pub read_effects : Bool → List (Effect F) → Option Bool
  read_effects b [] = some b
  read_effects b (e ∷ effects) = elim (read_effect b e) [
    | none ↦ none
    | some b' ↦ read_effects b' effects
  ]

  read_effects-append :
      (b c : Bool) (xs ys : List (Effect F))
      → read_effects b xs ≡ some c
      → read_effects b (xs ++ ys) ≡ read_effects c ys
  unfolding read_effects
  read_effects-append b c [] ys h = ground arith
  read_effects-append b c (e ∷ xs) ys h = elim (Option-cases (read_effect b e)) [
    | inl refused ↦ ground arith
    | inr (b', read) ↦ ground (arith, read_effects-append b' c xs ys)
  ]

module _ (F : Float) (D : Double) (o : ListenerOptions F) where
  report-read :
      (t : Tick F D) (window : List F.Value) (p : F.Value) (b : Bool)
      → read_effects b (report F D o t window p) ≡ some b
  unfolding report read_effects read_effect read_status bytes_eq
  report-read t window p b = ground arith

  -- What scoring does to the reader and to the flag.
  abbrev Passes : List (Effect F) × WorkerState F D → WorkerState F D → Bool → Type 0
  Passes (effects, s') s b =
      (read_effects b effects ≡ some b) × (s'.wrote_unhealthy ≡ s.wrote_unhealthy)

  score_step-Passes :
      (t : Tick F D) (window : List F.Value) (p : F.Value) (s : WorkerState F D) (b : Bool)
      → Passes (score_step F D o t window p s) s b
  unfolding score_step read_effects
  score_step-Passes t window p s b = ground (arith, report-read t window p b)

  window_step-Passes :
      (t : Tick F D) (window : List F.Value) (s : WorkerState F D) (b : Bool)
      → Passes (window_step F D o t window s) s b
  unfolding window_step read_effects
  window_step-Passes t window s b = elim (Option-cases (t.run_model window)) [
    | inl failed ↦ ground arith
    | inr (p, scored) ↦ ground (arith, score_step-Passes t window p s b)
  ]

  -- Scoring writes no health status and leaves the flag alone.
  inference_step-Passes :
      (t : Tick F D) (s : WorkerState F D) (b : Bool) → Passes (inference_step F D o t s) s b
  unfolding inference_step read_effects
  inference_step-Passes t s b = ground (
    arith,
    window_step-Passes t (ring_snapshot_latest (F.of_unsigned 0) t.ring model_samples) s b,
  )

  health_step-read :
      (total : ℕ) (now : D.Value) (s : WorkerState F D)
      → let (effects, s') = health_step F D total now s in
        read_effects s.wrote_unhealthy effects ≡ some s'.wrote_unhealthy
  unfolding health_step read_effects read_effect read_status bytes_eq
  health_step-read total now s = ground arith

  round-read :
      (t : Tick F D) (s : WorkerState F D)
      → let (effects, s') = round F D o t s in
        read_effects s.wrote_unhealthy effects ≡ some s'.wrote_unhealthy
  unfolding round
  round-read t s =
      let (health, s') = health_step F D t.ring.total_written t.now s in
      let (read, kept) = inference_step-Passes t s' s'.wrote_unhealthy in
      read_effects-append s.wrote_unhealthy s'.wrote_unhealthy health (inference_step F D o t s').0
        (health_step-read t.ring.total_written t.now s)
      ∙ read
      ∙ ap some (sym kept)

  -- Over any run of the worker, a reader of the status file who knows `wrote_unhealthy` at the
  -- start is never told "unhealthy" twice without a "healthy" in between, and at the end
  -- `wrote_unhealthy` says whether the last health that it was told is "unhealthy".
  pub worker_loop-read :
      (ticks : List (Tick F D)) (s : WorkerState F D)
      → let (effects, s') = worker_loop F D o ticks s in
        read_effects s.wrote_unhealthy effects ≡ some s'.wrote_unhealthy
  unfolding worker_loop read_effects
  worker_loop-read [] s = refl
  worker_loop-read (t ∷ ticks) s =
      let (first, s') = round F D o t s in
      read_effects-append s.wrote_unhealthy s'.wrote_unhealthy first (worker_loop F D o ticks s').0
        (round-read t s)
      ∙ worker_loop-read ticks s'
