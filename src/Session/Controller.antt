-- ===== src/Session/Controller.antt =====
-- `VoiceSessionController` of src/realtime_action_spike/runtime/controller.py: what its methods do
-- under the lock. The observer of the status may raise. A launch of the browser succeeds or
-- raises, the clock and the factories of identifiers are arguments.
pub mod Activate
pub mod Messages
pub mod Teardown
use okay_hermes_realtime.Base.{
  ℕ, ◌+◌, Bool, true, false, not, ◌&&◌, ◌||◌, Option, none, some, List, ◌==◌, leb, length,
  if◌then◌else◌,
}
use okay_hermes_realtime.Base.Bytes.{Bytes}
use okay_hermes_realtime.Session.State.{SessionPhase, phase_eq, transition_to}
use okay_hermes_realtime.Session.Tokens.{invalidate}
use okay_hermes_realtime.Session.Data.{
  SessionOutcome, completed, cancelled, timed_out, StopReason, button, model_request,
  transport_failure, native_cancel, timeout, ControlState, TeardownRequest, TerminalSessionResult,
  Outbound, VoiceSessionController, stale_control_message, session_transition_error, observer_error,
  ok, err, Procedure, pure, gets, ◌>>=◌, ◌>>◌, modify, when, assign, update_session,
}

-- `status`, by the phase of the active session
unfoldable pub status_of : SessionPhase → ControlState
status_of SessionPhase.launching = ControlState.launching
status_of SessionPhase.connecting = ControlState.connecting
status_of SessionPhase.live = ControlState.live
status_of SessionPhase.stopping = ControlState.stopping
status_of SessionPhase.idle = ControlState.idle
status_of SessionPhase.closed = ControlState.idle
status_of SessionPhase.failed = ControlState.idle

abbrev pub phase_of : ℕ → VoiceSessionController → SessionPhase
phase_of n c = (c.sessions n).state.phase

abbrev pub id_of : ℕ → VoiceSessionController → ℕ
id_of n c = (c.sessions n).session_id

abbrev pub status_with : Option ℕ → VoiceSessionController → ControlState
status_with none c = ControlState.idle
status_with (some n) c = status_of (phase_of n c)

abbrev pub status : VoiceSessionController → ControlState
status c = status_with c.active_session c

unfoldable pub state_eq : ControlState → ControlState → Bool
state_eq ControlState.idle ControlState.idle = true
state_eq ControlState.launching ControlState.launching = true
state_eq ControlState.connecting ControlState.connecting = true
state_eq ControlState.live ControlState.live = true
state_eq ControlState.stopping ControlState.stopping = true
state_eq _ _ = false

-- `status == self._last_notified_status`
abbrev pub was_notified : ControlState → Option ControlState → Bool
was_notified s none = false
was_notified s (some last) = state_eq s last

-- `phase in {LAUNCHING, CONNECTING}`
abbrev pub is_starting : SessionPhase → Bool
is_starting phase = phase_eq phase SessionPhase.launching || phase_eq phase SessionPhase.connecting

abbrev pub is_key : ℕ → Option ℕ → Bool
is_key key none = false
is_key key (some other) = other == key

-- `_require_active_session`, from the active session on
abbrev pub require_from : ℕ → Option ℕ → Procedure ℕ
require_from session_id none c = (err stale_control_message, c)
require_from session_id (some n) c =
    if id_of n c == session_id then (ok n, c) else (err stale_control_message, c)

unfoldable pub require_active_session : ℕ → Procedure ℕ
require_active_session session_id c = require_from session_id c.active_session c

-- `session_is_active`, from the active session on
abbrev pub is_active_from : ℕ → Option ℕ → VoiceSessionController → Bool
is_active_from session_id none c = false
is_active_from session_id (some n) c =
    id_of n c == session_id
    && (is_starting (phase_of n c) || phase_eq (phase_of n c) SessionPhase.live)

abbrev pub session_is_active : ℕ → VoiceSessionController → Bool
session_is_active session_id c = is_active_from session_id c.active_session c

-- `_transition`
unfoldable pub transition : ℕ → SessionPhase → Procedure (Unit {0})
transition n phase c =
    let (done, state) = transition_to phase (c.sessions n).state in
    if done
    then (ok tt, update_session n (λ s. record s { state = state }) c)
    else if phase_eq (phase_of n c) phase
    then (ok tt, c)
    else (err session_transition_error, c)

-- `_outcome_for_stop_reason`
unfoldable pub outcome_for_stop_reason : StopReason → SessionOutcome
outcome_for_stop_reason transport_failure = SessionOutcome.failed
outcome_for_stop_reason timeout = timed_out
outcome_for_stop_reason native_cancel = cancelled
outcome_for_stop_reason button = completed
outcome_for_stop_reason model_request = completed

-- `if not future.done(): future.set_result(result)`
abbrev pub settled :
    TerminalSessionResult → Option TerminalSessionResult → Option TerminalSessionResult
settled result none = some result
settled result (some earlier) = some earlier

abbrev pub set_result :
    Option ℕ → TerminalSessionResult → VoiceSessionController → VoiceSessionController
set_result none result c = c
set_result (some n) result c = record c {
  future_results = assign n (settled result (c.future_results n)) c.future_results;
}

-- `_resolve_terminal_result`, where there is no result yet
abbrev pub store_result :
    ℕ → TerminalSessionResult → VoiceSessionController → VoiceSessionController
store_result n result c =
    let id = id_of n c in
    let c1 = update_session n (λ s. record s { resolved_result = some result }) c in
    let c2 = set_result (c.terminal_futures id) result c1 in
    record c2 {
      terminal_results = assign id (some result) c2.terminal_results;
      terminal_futures = assign id none c2.terminal_futures;
      token_store = invalidate (c.sessions n).token c2.token_store;
    }

-- `_resolve_terminal_result`
unfoldable pub resolve_terminal_result :
    ℕ → SessionOutcome → Option Bytes → VoiceSessionController → VoiceSessionController
resolve_terminal_result n outcome error c = elim ((c.sessions n).resolved_result) [
  | none ↦ store_result n (record { session_id = id_of n c; outcome = outcome; error = error }) c
  | some result ↦ c
]

-- `if active.stop_reason is None: active.stop_reason = request.reason`, and likewise for the task.
abbrev pub first {ℓ} : {A : Type ℓ} → A → Option A → Option A
first a none = some a
first a (some earlier) = some earlier

-- A message of the page, after `parse_loopback_message`.
pub data Message : Type 0 where
  page_ready page_started timing teardown_complete : Message
  stop : StopReason → Message

-- What `process_control_message` comes to: nothing, the answer to a page whose session has ended, or
-- the wait for the task of the session's teardown.
pub data Reply : Type 0 where
  nothing : Reply
  session_closed : SessionOutcome → Reply
  waits_for : ℕ → Reply

abbrev pub outcome_of : Option TerminalSessionResult → SessionOutcome
outcome_of none = completed
outcome_of (some result) = result.outcome

abbrev pub reason_of : Option StopReason → StopReason
reason_of none = button
reason_of (some reason) = reason

abbrev pub is_full : List Outbound → Bool
is_full queue = leb 64 (length queue)

-- `observer_raises` tells for each call of the observer whether it raises.
module _ (observer_raises : ℕ → Bool) where
  -- `_notify_status`
  unfoldable pub notify_status : Procedure (Unit {0})
  notify_status c = if was_notified (status c) c.last_notified_status then (ok tt, c) else (
    if observer_raises c.notifications then err observer_error else ok tt,
    record c { last_notified_status = some (status c); notifications = c.notifications + 1 },
  )

  -- `_begin_teardown_locked`; the coordinator that it returns is that of the session.
  unfoldable pub begin_teardown_locked : ℕ → TeardownRequest → Procedure ℕ
  unfolding require_active_session transition notify_status
  begin_teardown_locked session request = do
    session_id ← gets (id_of session)
    active ← require_active_session session_id
    is_stopping ← gets (λ c. phase_eq (phase_of active c) SessionPhase.stopping)
    when (not is_stopping) (transition active SessionPhase.stopping >> notify_status)
    modify (
        update_session active (λ s. record s {
          stop_reason = first request.reason s.stop_reason;
          teardown_marked = true;
          teardown = first request s.teardown;
        }))
    pure active
