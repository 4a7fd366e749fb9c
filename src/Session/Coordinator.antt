-- ===== src/Session/Coordinator.antt =====
-- `TeardownCoordinator._run` of src/realtime_action_spike/runtime/teardown.py: the hooks that it
-- calls, in order, whatever they come to. Cancelling the task raises CancelledError where it waits.
pub mod Completion
use okay_hermes_realtime.Base.{
  Bool, true, false, Option, none, some, List, [], ◌∷◌, ◌++◌, if◌then◌else◌,
}

pub data HookName : Type 0 where
  mark_stopping request_browser_stop close_browser release_profile_lock persist_trace : HookName
  finalize : HookName

pub data Step : Type 0 where
  hook : HookName → Step
  browser_ack teardown_cancelled : Step

pub data Kind : Type 0 where
  error timeout : Kind

pub record TeardownStepFailure : Type 0 where
  pub step : Step
  pub kind : Kind

-- How the wait for a hook ends, if the task is not cancelled there.
pub data Answer : Type 0 where
  returns times_out raises : Answer

-- What has happened in the task.
pub record Task : Type 0 where
  pub calls : List HookName
  pub failures : List TeardownStepFailure

-- What the task comes to: its report, `none` if it raises CancelledError.
pub record Report : Type 0 where
  pub browser_acknowledged : Bool
  pub failures : List TeardownStepFailure

-- Code that may be cancelled: `none` is CancelledError.
abbrev pub Wait : Type 0 → Type 0
Wait A = Task → Option A × Task

abbrev pub pure : {A : Type 0} → A → Wait A
pure a t = (some a, t)

abbrev pub bind_option : {A B : Type 0} → (A → Wait B) → Option A → Wait B
bind_option f none t = (none, t)
bind_option f (some a) t = f a t

infixl 5 ◌>>=◌ ◌>>◌
abbrev pub ◌>>=◌ : {A B : Type 0} → Wait A → (A → Wait B) → Wait B
◌>>=◌ m f t = let (r, t') = m t in bind_option f r t'

abbrev pub ◌>>◌ : {A B : Type 0} → Wait A → Wait B → Wait B
m >> k = m >>= λ _. k

abbrev pub fail : Step → Kind → Task → Task
fail step kind t = record t { failures = t.failures ++ (record { step = step; kind = kind } ∷ []) }

abbrev pub call : HookName → Task → Task
call name t = record t { calls = t.calls ++ (name ∷ []) }

-- The `except` clauses of `_run_step`
abbrev pub answered : HookName → Answer → Wait Bool
answered name returns t = (some true, t)
answered name times_out t = (some false, fail (hook name) timeout t)
answered name raises t = (some false, fail (hook name) error t)

-- `answers` and `cancels` tell for each hook how its wait ends and whether the task is cancelled
-- there; `acknowledged` and `ack_cancelled` likewise for the wait for the page.
module _ (answers : HookName → Answer) (cancels : HookName → Bool)
    (acknowledged ack_cancelled : Bool) where
  -- `_run_step`
  unfoldable pub run_step : HookName → Wait Bool
  run_step name t =
      if cancels name then (none, call name t) else answered name (answers name) (call name t)

  -- The wait for `_browser_acknowledged`, if the page was asked to stop
  unfoldable pub wait_for_ack : Bool → Wait Bool
  wait_for_ack false t = (some false, t)
  wait_for_ack true t =
      if ack_cancelled
      then (none, t)
      else if acknowledged
      then (some true, t)
      else (some false, fail browser_ack timeout t)

  -- The steps before the last one.
  unfoldable pub run_first_steps : Wait Bool
  unfolding run_step wait_for_ack
  run_first_steps = do
    run_step mark_stopping
    browser_stop_requested ← run_step request_browser_stop
    browser_acknowledged ← wait_for_ack browser_stop_requested
    run_step close_browser
    run_step release_profile_lock
    run_step persist_trace
    pure browser_acknowledged

  -- The task of `finalize`, which goes on if the task that waits for it is cancelled.
  abbrev pub finish : Task → Task
  finish t = (answered finalize (answers finalize) (call finalize t)).1

  -- From the last step on: a task that was cancelled before calls `finalize` too.
  unfoldable pub finish_task : Option Bool → Task → Option Report × Task
  finish_task none t = (none, finish (fail teardown_cancelled error t))
  finish_task (some browser_acknowledged) t =
      if cancels finalize
      then (
        none,
        (answered finalize (answers finalize) (fail teardown_cancelled error (call finalize t))).1,
      )
      else (
        some (record {
          browser_acknowledged = browser_acknowledged;
          failures = (finish t).failures;
        }),
        finish t,
      )

  -- `_run`
  unfoldable pub run_task : Option Report × Task
  unfolding run_first_steps finish_task
  run_task =
      let (browser_acknowledged, t) = run_first_steps (record { calls = []; failures = [] }) in
      finish_task browser_acknowledged t
