-- ===== src/Session/Controller/Messages.antt =====
-- The other methods of `VoiceSessionController` of
-- src/realtime_action_spike/runtime/controller.py, up to where they wait for a teardown.
use okay_hermes_realtime.Base.{
  ℕ, Bool, true, false, not, ◌&&◌, ◌||◌, Option, none, some, [], ◌∷◌, ◌++◌, ◌==◌, if◌then◌else◌,
  List,
}
use okay_hermes_realtime.Base.Bytes.{Bytes, bytes}
use okay_hermes_realtime.Session.State.{SessionPhase}
use okay_hermes_realtime.Session.Tokens.{consume}
use okay_hermes_realtime.Session.Data.{
  SessionOutcome, completed, timed_out, cancelled, StopReason, transport_failure, native_cancel,
  timeout, TeardownRequest, TerminalSessionResult, WakeSession, Outbound, task_event,
  stale_control_message, value_error, key_error, ok, err, Procedure, pure, gets, raise, ◌>>=◌, ◌>>◌,
  modify, assign, update_session, VoiceSessionController,
}
use okay_hermes_realtime.Session.Controller.{
  phase_of, id_of, is_starting, is_key, session_is_active, is_full, require_active_session,
  transition, outcome_for_stop_reason, reason_of, outcome_of, Message, page_ready, page_started,
  timing, teardown_complete, stop, Reply, nothing, session_closed, waits_for, notify_status,
  begin_teardown_locked,
}

-- `consume_activation_token`, from the session that the token is for on
abbrev pub page_of : Option ℕ → Option ℕ → VoiceSessionController → Option ℕ
page_of none active c = none
page_of (some local_session_id) none c = none
page_of (some local_session_id) (some n) c =
    if id_of n c == local_session_id then some local_session_id else none

unfoldable pub consume_activation_token : ℕ → ℕ → Procedure (Option ℕ)
consume_activation_token token now c =
    let (found, store) = consume token now c.token_store in
    (ok (page_of found c.active_session c), record c { token_store = store })

-- `queue is None or queue.full()`, and `put_nowait`
abbrev pub publish_to : ℕ → ℕ → Option (List Outbound) → Procedure Bool
publish_to session_id event none c = (ok false, c)
publish_to session_id event (some queue) c = if is_full queue then (ok false, c) else (
  ok true,
  record c {
    outbound_messages =
        assign session_id (some (queue ++ (task_event event ∷ []))) c.outbound_messages;
  },
)

-- `publish_task_event(session_id, message)`, for the session that the message names
unfoldable pub publish_task_event : ℕ → ℕ → ℕ → Procedure Bool
publish_task_event session_id message_session_id event c =
    if not (message_session_id == session_id) || not (session_is_active session_id c)
    then (ok false, c)
    else publish_to session_id event (c.outbound_messages session_id) c

-- `queue.get()`, where `none` is an empty queue
abbrev pub take_from : ℕ → Option (List Outbound) → Procedure (Option Outbound)
take_from session_id none = raise key_error
take_from session_id (some []) = pure none
take_from session_id (some (message ∷ rest)) = do
  modify (λ c. record c { outbound_messages = assign session_id (some rest) c.outbound_messages })
  pure (some message)

-- `wait_for_outbound_message`: the next message, `none` while there is none.
unfoldable pub wait_for_outbound_message : ℕ → Procedure (Option Outbound)
unfolding require_active_session
wait_for_outbound_message session_id = do
  require_active_session session_id
  queue ← gets (λ c. c.outbound_messages session_id)
  take_from session_id queue

-- `wait_for_terminal_result`: the result, `none` while the future is pending.
unfoldable pub wait_for_terminal_result : ℕ → Procedure (Option TerminalSessionResult)
wait_for_terminal_result session_id c = elim (c.terminal_results session_id) [
  | some result ↦ (ok (some result), c)
  | none ↦ elim (c.terminal_futures session_id) [
    | none ↦ (err value_error, c)
    | some future ↦ (ok (c.future_results future), c)
  ]
]

-- The reason that `close_active_session` gives.
unfoldable pub reason_of_close : SessionOutcome → StopReason
reason_of_close SessionOutcome.failed = transport_failure
reason_of_close completed = native_cancel
reason_of_close cancelled = native_cancel
reason_of_close timed_out = native_cancel

unfoldable pub startup_timed_out : Bytes
startup_timed_out = bytes "browser startup timed out"

-- The request of the startup deadline.
abbrev pub expiry : TeardownRequest
expiry = record { outcome = timed_out; reason = timeout; error = some startup_timed_out }

-- The request that a reason of the page makes.
abbrev pub request_for : StopReason → TeardownRequest
request_for reason = record {
  outcome = outcome_for_stop_reason reason;
  reason = reason;
  error = none;
}

module _ (observer_raises : ℕ → Bool) where
  -- `request_teardown`
  unfoldable pub request_teardown : ℕ → TeardownRequest → Procedure ℕ
  unfolding require_active_session begin_teardown_locked
  request_teardown session_id request = do
    session ← require_active_session session_id
    begin_teardown_locked observer_raises session request

  -- What follows the test in `_expire_browser_startup`.
  abbrev pub expire_due : ℕ → Bool → Procedure (Option ℕ)
  expire_due session false = pure none
  expire_due session true = do
    n ← begin_teardown_locked observer_raises session expiry
    pure (some n)

  -- `_expire_browser_startup(session)`: `none` if it returns without a teardown.
  unfoldable pub expire_browser_startup : ℕ → Procedure (Option ℕ)
  unfolding begin_teardown_locked
  expire_browser_startup session = do
    is_due ← gets (λ c. is_key session c.active_session && is_starting (phase_of session c))
    expire_due session is_due

  -- `_transition`, the fields of the session that go with the new phase, and `_notify_status`
  unfoldable pub enter : ℕ → SessionPhase → (WakeSession → WakeSession) → Procedure (Unit {0})
  unfolding transition notify_status
  enter active phase fields = do
    transition active phase
    modify (update_session active fields)
    notify_status observer_raises

  -- The messages of the page for the active session, as `process_control_message` takes them.
  unfoldable pub handle_message : ℕ → Message → Procedure Reply
  unfolding enter begin_teardown_locked
  handle_message active page_ready = do enter active SessionPhase.connecting (λ s. s); pure nothing
  handle_message active page_started = do
    enter active SessionPhase.live (λ s. record s { has_startup_deadline = false })
    pure nothing
  handle_message active timing = pure nothing
  handle_message active (stop reason) = do
    begin_teardown_locked observer_raises active (request_for reason)
    pure nothing
  handle_message active teardown_complete = do
    reason ← gets (λ c. reason_of (c.sessions active).stop_reason)
    n ← begin_teardown_locked observer_raises active (request_for reason)
    modify (update_session n (λ s. record s { acknowledged = true }))
    pure (waits_for n)

  -- `active is None`
  unfoldable pub answer_late : ℕ → Message → Procedure Reply
  answer_late session_id teardown_complete c =
      if is_key session_id c.last_closed_session_id
      then (ok (session_closed (outcome_of (c.terminal_results session_id))), c)
      else (err stale_control_message, c)
  answer_late session_id page_ready c = (err stale_control_message, c)
  answer_late session_id page_started c = (err stale_control_message, c)
  answer_late session_id timing c = (err stale_control_message, c)
  answer_late session_id (stop reason) c = (err stale_control_message, c)

  abbrev pub process_from : ℕ → Message → Option ℕ → Procedure Reply
  process_from session_id message none c = answer_late session_id message c
  process_from session_id message (some active) c =
      if id_of active c == session_id
      then handle_message active message c
      else (err stale_control_message, c)

  -- `process_control_message`, with the message parsed
  unfoldable pub process_control_message : ℕ → Message → Procedure Reply
  unfolding handle_message answer_late
  process_control_message session_id message c = process_from session_id message c.active_session c

  abbrev pub close_from : SessionOutcome → Option Bytes → Option ℕ → Procedure (Option ℕ)
  close_from outcome error none = pure none
  close_from outcome error (some n) = do
    session_id ← gets (id_of n)
    session ←
        request_teardown session_id
          (record { outcome = outcome; reason = reason_of_close outcome; error = error })
    pure (some session)

  -- `close_active_session`, if nothing happens between its two uses of the lock (otherwise it is a
  -- later `request_teardown`): `none` without an active session.
  unfoldable pub close_active_session : SessionOutcome → Option Bytes → Procedure (Option ℕ)
  unfolding request_teardown
  close_active_session outcome error c = close_from outcome error c.active_session c
