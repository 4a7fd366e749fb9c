-- ===== src/Session/Coordinator/Completion.antt =====
-- A teardown that has started ends its session: `TeardownCoordinator._run` of
-- src/realtime_action_spike/runtime/teardown.py with the hooks of
-- src/realtime_action_spike/runtime/controller.py.
use okay_hermes_realtime.Base.{
  ℕ, ◌+◌, ◌≡◌, ◌⊎◌, ◌≤◌, ◌<◌, refl, ap, ◌∙◌, Bool, true, false, Option, none, some, List, [], ◌∷◌,
  ◌++◌, arith, Bool-cases, inl, inr, take,
}
use okay_hermes_realtime.Session.Coordinator.{
  HookName, mark_stopping, request_browser_stop, close_browser, release_profile_lock, persist_trace,
  finalize, Step, Kind, Answer, returns, times_out, raises, Task, Report, Wait, bind_option, ◌>>=◌,
  call, fail, answered, run_step, wait_for_ack, run_first_steps, finish, finish_task, run_task,
}

abbrev pub first_hooks : List HookName
first_hooks =
    mark_stopping ∷ request_browser_stop ∷ close_browser ∷ release_profile_lock ∷ persist_trace ∷ []

answered-calls :
    (name : HookName) (a : Answer) (t : Task)
    → (answered name a t ≡ (some true, t))
      ⊎ ((f : Task) × (answered name a t ≡ (some false, f)) × (f.calls ≡ t.calls))
answered-calls name returns t = inl refl
answered-calls name times_out t = inr (_, refl, refl)
answered-calls name raises t = inr (_, refl, refl)

-- The task has called the first `k` hooks, or it was cancelled after some of them.
abbrev Reaches {ℓ} : {A : Type ℓ} → ℕ → Option A → Task → Type 0
Reaches k (some a) t = t.calls ≡ take k first_hooks
Reaches k none t = (j : ℕ) × (j ≤ 5) × (t.calls ≡ take j first_hooks)

reached :
    {A : Type 0} (k : ℕ) (o : Option A) (t : Task)
    → k ≤ 5
    → t.calls ≡ take k first_hooks
    → Reaches k o t
reached k (some a) t h e = e
reached k none t h e = (k, h, e)

bind_option-Reaches :
    {A B : Type 0} (k l : ℕ) (f : A → Wait B) (o : Option A) (t : Task)
    → Reaches k o t
    → ((a : A) → t.calls ≡ take k first_hooks → Reaches l (f a t).0 (f a t).1)
    → Reaches l (bind_option f o t).0 (bind_option f o t).1
bind_option-Reaches k l f (some a) t h rest = rest a h
bind_option-Reaches k l f none t h rest = h

module _ (answers : HookName → Answer) (cancels : HookName → Bool)
    (acknowledged ack_cancelled : Bool) where
  run_step-calls :
      (name : HookName) (t : Task)
      → (run_step answers cancels acknowledged ack_cancelled name t).1.calls
        ≡ t.calls ++ (name ∷ [])
  unfolding run_step
  run_step-calls name t = ground (arith, answered-calls name (answers name) (call name t))

  wait_for_ack-calls :
      (requested : Bool) (t : Task)
      → (wait_for_ack answers cancels acknowledged ack_cancelled requested t).1.calls ≡ t.calls
  unfolding wait_for_ack
  wait_for_ack-calls false t = refl
  wait_for_ack-calls true t = ground arith

  -- A step, and then the rest.
  step-Reaches :
      {B : Type 0} (k l : ℕ) (name : HookName) (f : Bool → Wait B) (t : Task)
      → k < 5
      → take k first_hooks ++ (name ∷ []) ≡ take (k + 1) first_hooks
      → t.calls ≡ take k first_hooks
      → ((a : Bool) (t' : Task)
          → t'.calls ≡ take (k + 1) first_hooks
          → Reaches l (f a t').0 (f a t').1)
      → let r = (run_step answers cancels acknowledged ack_cancelled name >>= f) t in
        Reaches l r.0 r.1
  step-Reaches k l name f t small next before rest =
      let m = run_step answers cancels acknowledged ack_cancelled name t in
      let after : m.1.calls ≡ take (k + 1) first_hooks =
        run_step-calls name t ∙ ap (λ c. c ++ (name ∷ [])) before ∙ next in
      bind_option-Reaches (k + 1) l f m.0 m.1 (reached (k + 1) m.0 m.1 (omega arith) after)
        (λ a h. rest a m.1 h)

  wait-Reaches :
      {B : Type 0} (k l : ℕ) (requested : Bool) (f : Bool → Wait B) (t : Task)
      → k ≤ 5
      → t.calls ≡ take k first_hooks
      → ((a : Bool) (t' : Task) → t'.calls ≡ take k first_hooks → Reaches l (f a t').0 (f a t').1)
      → let r = (wait_for_ack answers cancels acknowledged ack_cancelled requested >>= f) t in
        Reaches l r.0 r.1
  wait-Reaches k l requested f t small before rest =
      let m = wait_for_ack answers cancels acknowledged ack_cancelled requested t in
      let after : m.1.calls ≡ take k first_hooks = wait_for_ack-calls requested t ∙ before in
      bind_option-Reaches k l f m.0 m.1 (reached k m.0 m.1 small after) (λ a h. rest a m.1 h)

  abbrev fresh : Task
  fresh = record { calls = []; failures = [] }

  run_first_steps-Reaches :
      let r = run_first_steps answers cancels acknowledged ack_cancelled fresh in Reaches 5 r.0 r.1
  unfolding run_first_steps
  run_first_steps-Reaches =
      step-Reaches 0 5 mark_stopping _ fresh (omega arith) refl refl λ a t1 h1.
        step-Reaches 1 5 request_browser_stop _ t1 (omega arith) refl h1 λ requested t2 h2.
          wait-Reaches 2 5 requested _ t2 (omega arith) h2 λ acked t3 h3.
            step-Reaches 2 5 close_browser _ t3 (omega arith) refl h3 λ b t4 h4.
              step-Reaches 3 5 release_profile_lock _ t4 (omega arith) refl h4
                λ c t5 h5. step-Reaches 4 5 persist_trace _ t5 (omega arith) refl h5 λ d t6 h6. h6

  finish-calls :
      (t : Task)
      → (finish answers cancels acknowledged ack_cancelled t).calls ≡ t.calls ++ (finalize ∷ [])
  finish-calls t = ground (arith, answered-calls finalize (answers finalize) (call finalize t))

  finish_task-calls :
      (o : Option Bool) (t : Task)
      → (finish_task answers cancels acknowledged ack_cancelled o t).1.calls
        ≡ t.calls ++ (finalize ∷ [])
  unfolding finish_task
  finish_task-calls none t = finish-calls (fail Step.teardown_cancelled Kind.error t)
  finish_task-calls (some acked) t = elim (Bool-cases (cancels finalize)) [
    | inl cancelled ↦
        let cancelled_task = fail Step.teardown_cancelled Kind.error (call finalize t) in
        rw cancelled (ground (arith, answered-calls finalize (answers finalize) cancelled_task))
    | inr goes_on ↦ rw goes_on (finish-calls t)
  ]

  Reaches-take :
      (o : Option Bool) (t : Task)
      → Reaches 5 o t
      → (j : ℕ) × (j ≤ 5) × (t.calls ≡ take j first_hooks)
  Reaches-take none t h = h
  Reaches-take (some b) t h = (5, omega arith, h)

  finish_task_whole :
      (o : Option Bool) (t : Task) {report : Report}
      → Reaches 5 o t
      → (finish_task answers cancels acknowledged ack_cancelled o t).0 ≡ some report
      → t.calls ≡ first_hooks
  unfolding finish_task
  finish_task_whole none t h e = cc
  finish_task_whole (some b) t h e = h

  -- `TeardownCoordinator._run`, whatever its hooks come to, whether the page answers, and wherever
  -- its task is cancelled: it calls the first five hooks in order, up to where it is cancelled, and
  -- then `finalize`, once. If it returns a report it has called all of them.
  pub run_task-calls :
      let (report, t) = run_task answers cancels acknowledged ack_cancelled in
      ((j : ℕ) × (j ≤ 5) × (t.calls ≡ take j first_hooks ++ (finalize ∷ [])))
      × ((r : Report) → report ≡ some r → t.calls ≡ first_hooks ++ (finalize ∷ []))
  unfolding run_task
  run_task-calls =
      let (o, t) = run_first_steps answers cancels acknowledged ack_cancelled fresh in
      let h = run_first_steps-Reaches in
      let (j, small, e) = Reaches-take o t h in
      let whole = finish_task-calls o t in
      (
        (j, small, whole ∙ ap (λ c. c ++ (finalize ∷ [])) e),
        λ r f. whole ∙ ap (λ c. c ++ (finalize ∷ [])) (finish_task_whole o t h f),
      )
