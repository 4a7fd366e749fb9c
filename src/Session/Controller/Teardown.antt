-- ===== src/Session/Controller/Teardown.antt =====
-- The steps of a teardown: the hooks that `_build_teardown_coordinator` of
-- src/realtime_action_spike/runtime/controller.py makes, and `TeardownCoordinator._run` of
-- src/realtime_action_spike/runtime/teardown.py, which runs them.
use okay_hermes_realtime.Base.{
  ℕ, Bool, false, none, some, List, [], ◌∷◌, ◌++◌, drop, if◌then◌else◌, Option,
}
use okay_hermes_realtime.Session.State.{SessionPhase}
use okay_hermes_realtime.Session.Data.{
  SessionOutcome, completed, cancelled, timed_out, TeardownRequest, Outbound, stop_message,
  key_error, Procedure, pure, gets, raise, ◌>>=◌, ◌>>◌, modify, when, assign, update_session,
}
use okay_hermes_realtime.Session.Controller.{
  id_of, is_key, is_full, require_active_session, transition, notify_status, begin_teardown_locked,
  resolve_terminal_result,
}

-- `request_browser_stop`, on the queue of the session
abbrev pub put_stop : TeardownRequest → List Outbound → List Outbound
put_stop request queue =
    (if is_full queue then drop 1 queue else queue) ++ (stop_message request.reason ∷ [])

abbrev pub stop_to : ℕ → TeardownRequest → Option (List Outbound) → Procedure (Unit {0})
stop_to session_id request none = raise key_error
stop_to session_id request (some queue) = modify (λ c. record c {
  outbound_messages = assign session_id (some (put_stop request queue)) c.outbound_messages;
})

-- `request_browser_stop`
unfoldable pub request_browser_stop : ℕ → TeardownRequest → Procedure (Unit {0})
unfolding require_active_session
request_browser_stop session request = do
  session_id ← gets (id_of session)
  require_active_session session_id
  queue ← gets (λ c. c.outbound_messages session_id)
  stop_to session_id request queue

-- `close_browser`, under the lock: whether there was a browser to close.
unfoldable pub close_browser : ℕ → Procedure Bool
close_browser session = do
  has_browser ← gets (λ c. (c.sessions session).has_browser)
  modify (update_session session (λ s. record s { has_browser = false }))
  pure has_browser

-- The phase that `finalize` ends in.
unfoldable pub terminal_phase : SessionOutcome → SessionPhase
terminal_phase SessionOutcome.failed = SessionPhase.failed
terminal_phase completed = SessionPhase.closed
terminal_phase cancelled = SessionPhase.closed
terminal_phase timed_out = SessionPhase.closed

module _ (observer_raises : ℕ → Bool) where
  -- `mark_stopping`
  unfoldable pub mark_stopping : ℕ → TeardownRequest → Procedure (Unit {0})
  unfolding begin_teardown_locked
  mark_stopping session request = do begin_teardown_locked observer_raises session request; pure tt

  -- `finalize`
  unfoldable pub finalize : ℕ → TeardownRequest → Procedure (Unit {0})
  unfolding transition notify_status resolve_terminal_result
  finalize session request = do
    is_active ← gets (λ c. is_key session c.active_session)
    when is_active (do
      transition session (terminal_phase request.outcome)
      modify (λ c. record c { active_session = none })
      notify_status observer_raises
      modify (λ c.
          record (update_session session (λ s. record s { has_startup_deadline = false }) c) {
            last_closed_session_id = some (id_of session c);
            outbound_messages = assign (id_of session c) none c.outbound_messages;
          })
      modify (resolve_terminal_result session request.outcome request.error))
