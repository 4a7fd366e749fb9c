-- ===== src/Worker/Refinement.antt =====
-- The worker on the system carries out the effects of the worker without it.
use okay_hermes_realtime.Base.{
  ℕ, ◌≡◌, refl, sym, ◌∙◌, ap, Bool, true, Option, none, some, List, [], ◌∷◌, ◌++◌, ◌==◌,
  if◌then◌else◌, length, Bool-cases, inl, inr, arith, subst,
}
use okay_hermes_realtime.Base.Bytes.{Bytes, bytes}
use okay_hermes_realtime.Float.{Float, Double}
use okay_hermes_realtime.Ring.{ring_snapshot_latest}
use okay_hermes_realtime.Resample.{model_samples}
use okay_hermes_realtime.Options.{ListenerOptions}
use okay_hermes_realtime.Worker.{
  Effect, status, WorkerState, Tick, detect, report, score_step, window_step, health_step,
  inference_due, inference_step, round, worker_loop, initial, listener_worker,
}
use okay_hermes_realtime.Worker.Live.{
  World, Host, write_status, archive_window, send_activation, call_handler, report_live,
  health_live, score_live, answer_live, round_live, loop_live, listener_worker_live, perform,
  perform_all, inference_live,
}

-- A tick with the success of archiving and of delivering, as it turned out.
abbrev pub answered : {F : Float} {D : Double} → Tick F D → Bool × Bool → Tick F D
answered t (archived, delivered) = record t { archived = archived; delivered = delivered }

module _ (F : Float) (D : Double) (w : World F D) (path : Bytes) (o : ListenerOptions F) where
  perform_all-append :
      (xs ys : List (Effect F)) (h : Host)
      → perform_all F D w path o (xs ++ ys) h
        ≡ perform_all F D w path o ys (perform_all F D w path o xs h)
  unfolding perform_all
  perform_all-append [] ys h = refl
  perform_all-append (e ∷ xs) ys h = perform_all-append xs ys (perform F D w path o e h)

  -- What archiving and delivering return for this window and this host.
  unfoldable pub outcomes : List F.Value → Option F.Value → Host → Bool × Bool
  outcomes window none h = (true, true)
  outcomes window (some probability) h =
      let (archived, h1) = archive_window F D w path o window probability h in
      let (delivered, h2) =
        if o.handler_argc == 0
        then send_activation F D w path o probability h1
        else call_handler F D w path o probability h1 in
      (archived, delivered)

  abbrev pub outcomes_of : Tick F D → Host → Bool × Bool
  outcomes_of t h =
      let window = ring_snapshot_latest (F.of_unsigned 0) t.ring model_samples in
      outcomes window (t.run_model window) h

  -- The ticks of a run with the outcomes of each, as the run meets them.
  unfoldable pub answered_all : List (Tick F D) → WorkerState F D → Host → List (Tick F D)
  unfolding outcomes
  answered_all [] s h = []
  answered_all (t ∷ ticks) s h =
      let (s1, h1) = health_live F D w path o t.ring.total_written t.now s h in
      let (s2, h2) = round_live F D w path o t s h in
      answered t (outcomes_of t h1) ∷ answered_all ticks s2 h2

  report-live :
      (t : Tick F D) (window : List F.Value) (probability : F.Value) (h : Host)
      → perform_all F D w path o
          (report F D o (answered t (outcomes window (some probability) h)) window probability)
          h
        ≡ report_live F D w path o window probability h
  unfolding perform_all perform report report_live outcomes
  report-live t window probability h = ground arith

  -- The live result is the new state with the effects carried out.
  abbrev CarriesOut : List (Effect F) × WorkerState F D → Host → WorkerState F D × Host → Type 0
  CarriesOut (effects, s') h live = live ≡ (s', perform_all F D w path o effects h)

  score-live :
      (t : Tick F D) (window : List F.Value) (probability : F.Value) (s : WorkerState F D)
      (h : Host)
      → CarriesOut
          (score_step F D o
            (answered t (outcomes window (some probability) h))
            window
            probability
            s)
          h
          (score_live F D w path o window probability s h)
  unfolding score_step score_live perform_all
  score-live t window probability s h =
      elim (Bool-cases (detect o s.consecutive_hits probability).1) [
        | inl due ↦ rw (due, report-live t window probability h) refl
        | inr few ↦ rw few refl
      ]

  answer-live :
      (t : Tick F D) (window : List F.Value) (answer : Option F.Value) (s : WorkerState F D)
      (h : Host) (f : Bool × Bool)
      → f ≡ outcomes window answer h
      → CarriesOut
          (elim answer [
            | none ↦ ([], s)
            | some probability ↦ score_step F D o (answered t f) window probability s
          ])
          h
          (answer_live F D w path o window answer s h)
  unfolding perform_all
  answer-live t window none s h f e = refl
  answer-live t window (some probability) s h f e =
      subst
        (λ g.
          CarriesOut (score_step F D o (answered t g) window probability s) h
            (score_live F D w path o window probability s h))
        (sym e) (score-live t window probability s h)

  health-live :
      (total : ℕ) (now : D.Value) (s : WorkerState F D) (h : Host)
      → CarriesOut (health_step F D total now s) h (health_live F D w path o total now s h)
  unfolding health_step health_live perform_all perform
  health-live total now s h = ground arith

  inference_due-answered :
      (t : Tick F D) (f : Bool × Bool) (s : WorkerState F D)
      → inference_due F D o (answered t f) s ≡ inference_due F D o t s
  unfolding inference_due
  inference_due-answered t f s = refl

  inference-live :
      (t : Tick F D) (s : WorkerState F D) (h : Host) (f : Bool × Bool)
      → f ≡ outcomes_of t h
      → CarriesOut (inference_step F D o (answered t f) s) h (inference_live F D w path o t s h)
  unfolding inference_live inference_step window_step perform_all
  inference-live t s h f e =
      let window = ring_snapshot_latest (F.of_unsigned 0) t.ring model_samples in
      elim (Bool-cases (inference_due F D o t s)) [
        | inl due ↦ elim (Bool-cases (length window == model_samples)) [
          | inl full ↦
              rw (inference_due-answered t f s, due, full)
                (ap (λ r. (record r.0 { last_inference_at = t.now }, r.1))
                  (answer-live t window (t.run_model window) s h f e))
          | inr short ↦ rw (inference_due-answered t f s, due, short) refl
        ]
        | inr early ↦ rw (inference_due-answered t f s, early) refl
      ]

  -- One round; its outcomes are those after the status of its first half.
  round-live :
      (t : Tick F D) (s : WorkerState F D) (h : Host)
      → CarriesOut
          (round F D o
            (answered t (outcomes_of t (health_live F D w path o t.ring.total_written t.now s h).1))
            s)
          h
          (round_live F D w path o t s h)
  unfolding round round_live
  round-live t s h =
      let health = health_step F D t.ring.total_written t.now s in
      let first = health-live t.ring.total_written t.now s h in
      let h' = perform_all F D w path o health.0 h in
      let f = outcomes_of t (health_live F D w path o t.ring.total_written t.now s h).1 in
      let inference = inference_step F D o (answered t f) health.1 in
      ap (λ (r : WorkerState F D × Host). inference_live F D w path o t r.0 r.1) first
      ∙ inference-live t health.1 h' f
          (ap (λ (r : WorkerState F D × Host). outcomes_of t r.1) first)
      ∙ ap (λ k. (inference.1, k)) (sym (perform_all-append health.0 inference.0 h))

  loop-live :
      (ticks : List (Tick F D)) (s : WorkerState F D) (h : Host)
      → CarriesOut
          (worker_loop F D o (answered_all ticks s h) s)
          h
          (loop_live F D w path o ticks s h)
  unfolding worker_loop loop_live perform_all answered_all
  loop-live [] s h = refl
  loop-live (t ∷ ticks) s h =
      let live = round_live F D w path o t s h in
      let f = outcomes_of t (health_live F D w path o t.ring.total_written t.now s h).1 in
      let first = round F D o (answered t f) s in
      let later = answered_all ticks live.0 live.1 in
      let more = worker_loop F D o later first.1 in
      loop-live ticks live.0 live.1
      ∙ ap
          (λ (r : WorkerState F D × Host).
            let (effects, s') = worker_loop F D o later r.0 in
            (s', perform_all F D w path o effects r.1))
          (round-live t s h)
      ∙ ap (λ k. (more.1, k)) (sym (perform_all-append first.0 more.0 h))

  -- For any number of rounds, any host and any answers of the system: what the worker does to the
  -- host, by branching on what each call returns, is exactly carrying out in order the effects that
  -- `Worker.listener_worker` lists, when it is told for each round what archiving and delivering
  -- return at the host that the run has reached by then.
  pub listener_worker_live-perform_all :
      (started : D.Value) (ticks : List (Tick F D)) (h : Host)
      → listener_worker_live F D w path o started ticks h
        ≡ perform_all F D w path o
            (listener_worker F D o started (
              answered_all ticks
                (initial F D started)
                (write_status F D w path o (bytes "starting") h)))
            h
  unfolding listener_worker_live listener_worker perform_all perform
  listener_worker_live-perform_all started ticks h =
      let h' = write_status F D w path o (bytes "starting") h in
      let ticks' = answered_all ticks (initial F D started) h' in
      ap (λ (r : WorkerState F D × Host). write_status F D w path o (bytes "stopped") r.1)
        (loop-live ticks (initial F D started) h')
      ∙ sym (
          perform_all-append (worker_loop F D o ticks' (initial F D started)).0
            (status (bytes "stopped") ∷ []) h')
