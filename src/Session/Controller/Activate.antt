-- ===== src/Session/Controller/Activate.antt =====
-- `activate` of src/realtime_action_spike/runtime/controller.py. A launch of the browser succeeds or
-- raises; the clock and the factories of identifiers are arguments.
use okay_hermes_realtime.Base.{ℕ, ◌+◌, Bool, true, false, Option, none, some, []}
use okay_hermes_realtime.Base.Bytes.{Bytes, bytes}
use okay_hermes_realtime.Session.State.{SessionPhase, new_state, transition_to}
use okay_hermes_realtime.Session.Tokens.{issue, invalidate}
use okay_hermes_realtime.Session.Data.{
  SessionOutcome, TerminalSessionResult, WakeSession, Procedure, pure, gets, ◌>>=◌, ◌>>◌, modify,
  assign, update_session,
}
use okay_hermes_realtime.Session.Controller.{notify_status, set_result, transition}

-- A session as `activate` makes it, after `state.transition_to(LAUNCHING)`.
unfoldable pub new_session : ℕ → ℕ → WakeSession
unfolding transition_to
new_session session_id token = record {
  session_id = session_id;
  token = token;
  state = (transition_to SessionPhase.launching new_state).1;
  has_browser = false;
  teardown = none;
  acknowledged = false;
  teardown_marked = false;
  stop_reason = none;
  resolved_result = none;
  has_startup_deadline = false;
}

-- The text of the error of a launch that raised.
unfoldable pub activation_failed : Bytes
activation_failed = bytes "activation failed"

pub data ActivationResult : Type 0 where
  busy : ActivationResult
  opened failed_to_open : (session_id token : ℕ) → ActivationResult

module _ (observer_raises : ℕ → Bool) where
  -- The start of `activate`, up to the launch.
  unfoldable pub open_session : ℕ → ℕ → ℕ → Procedure ℕ
  unfolding notify_status new_session
  open_session session_id token now = do
    n ← gets (λ c. c.allocated)
    modify (λ c. record c {
      token_store = issue token now session_id c.token_store;
      sessions = assign n (new_session session_id token) c.sessions;
      allocated = c.allocated + 1;
      active_session = some n;
    })
    notify_status observer_raises
    modify (λ c. record c {
      terminal_futures = assign session_id (some n) c.terminal_futures;
      outbound_messages = assign session_id (some []) c.outbound_messages;
      last_closed_session_id = none;
    })
    pure n

  -- The end of `activate`, if the launch raised.
  unfoldable pub abandon_session : ℕ → ℕ → ℕ → Procedure ActivationResult
  unfolding transition notify_status
  abandon_session n session_id token = do
    let result : TerminalSessionResult = record {
      session_id = session_id;
      outcome = SessionOutcome.failed;
      error = some activation_failed;
    }
    modify (λ c.
        record (update_session n
          (λ s. record s { has_browser = false; resolved_result = some result }) c) {
            active_session = none;
            outbound_messages = assign session_id none c.outbound_messages;
          })
    transition n SessionPhase.failed
    notify_status observer_raises
    modify (λ c. record (set_result (some n) result c) {
      terminal_futures = assign session_id none c.terminal_futures;
      terminal_results = assign session_id (some result) c.terminal_results;
      token_store = invalidate token c.token_store;
    })
    pure (failed_to_open session_id token)

  -- What follows the launch, by whether it returned.
  unfoldable pub launch_ended : ℕ → ℕ → ℕ → Bool → Procedure ActivationResult
  unfolding abandon_session
  launch_ended n session_id token false = abandon_session n session_id token
  launch_ended n session_id token true = do
    modify (update_session n (λ s. record s { has_browser = true; has_startup_deadline = true }))
    pure (opened session_id token)

  abbrev pub activate_from : ℕ → ℕ → ℕ → Bool → Option ℕ → Procedure ActivationResult
  activate_from session_id token now launched none = do
    n ← open_session session_id token now
    launch_ended n session_id token launched
  activate_from session_id token now launched (some n) = pure busy

  -- `activate(launch_base_url)`; `launched` tells whether `launch` returns.
  unfoldable pub activate : ℕ → ℕ → ℕ → Bool → Procedure ActivationResult
  unfolding open_session launch_ended
  activate session_id token now launched c =
      activate_from session_id token now launched c.active_session c
