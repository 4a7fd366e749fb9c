-- ===== src/Session/Lifecycle.antt =====
-- `VoiceSessionController` of src/realtime_action_spike/runtime/controller.py over any sequence of
-- calls: what runs under the lock is one take_event, so these are all interleavings of its callers, of
-- the startup deadlines and of the tasks of the teardowns.
pub mod Outcome
pub mod Slot
pub mod Liveness
use okay_hermes_realtime.Base.{ℕ, Bool, Option, none, some, List, [], ◌∷◌}
use okay_hermes_realtime.Base.Bytes.{Bytes}
use okay_hermes_realtime.Session.Tokens.{new_store}
use okay_hermes_realtime.Session.Data.{
  SessionOutcome, TeardownRequest, WakeSession, VoiceSessionController,
}
use okay_hermes_realtime.Session.Controller.{Message}
use okay_hermes_realtime.Session.Controller.Activate.{activate}
use okay_hermes_realtime.Session.Controller.Messages.{
  consume_activation_token, publish_task_event, wait_for_outbound_message, request_teardown,
  expire_browser_startup, process_control_message, close_active_session,
}
use okay_hermes_realtime.Session.Controller.Teardown.{
  mark_stopping, request_browser_stop, close_browser, finalize,
}

-- The hooks of a teardown that work under the lock.
pub data Hook : Type 0 where
  marks_stopping requests_browser_stop closes_browser finalizes : Hook

-- A call that takes the lock. A hook is called by the task of a session's teardown, with the
-- request that the task was started with.
pub data Event : Type 0 where
  activates : (session_id token now : ℕ) (launched : Bool) → Event
  consumes : (token now : ℕ) → Event
  publishes : (session_id message_session_id event : ℕ) → Event
  takes : (session_id : ℕ) → Event
  requests : (session_id : ℕ) (request : TeardownRequest) → Event
  expires : (session : ℕ) → Event
  receives : (session_id : ℕ) (message : Message) → Event
  closes : (outcome : SessionOutcome) (error : Option Bytes) → Event
  hooks : (session : ℕ) (hook : Hook) → Event

-- A controller that was just made. What its dictionary of sessions holds is never looked at.
abbrev pub new_controller : ℕ → (ℕ → WakeSession) → VoiceSessionController
new_controller token_ttl sessions = record {
  sessions = sessions;
  allocated = 0;
  active_session = none;
  last_closed_session_id = none;
  terminal_futures = λ _. none;
  future_results = λ _. none;
  terminal_results = λ _. none;
  outbound_messages = λ _. none;
  token_store = new_store token_ttl;
  last_notified_status = none;
  notifications = 0;
}

module _ (observer_raises : ℕ → Bool) where
  unfoldable pub call_hook :
      ℕ → Hook → Option TeardownRequest → VoiceSessionController → VoiceSessionController
  unfolding mark_stopping request_browser_stop close_browser finalize
  call_hook session hook none c = c
  call_hook session marks_stopping (some request) c =
      (mark_stopping observer_raises session request c).1
  call_hook session requests_browser_stop (some request) c =
      (request_browser_stop session request c).1
  call_hook session closes_browser (some request) c = (close_browser session c).1
  call_hook session finalizes (some request) c = (finalize observer_raises session request c).1

  unfoldable pub take_event : Event → VoiceSessionController → VoiceSessionController
  unfolding activate consume_activation_token publish_task_event wait_for_outbound_message
      request_teardown expire_browser_startup process_control_message close_active_session call_hook
  take_event (activates session_id token now launched) c =
      (activate observer_raises session_id token now launched c).1
  take_event (consumes token now) c = (consume_activation_token token now c).1
  take_event (publishes session_id message_session_id event) c =
      (publish_task_event session_id message_session_id event c).1
  take_event (takes session_id) c = (wait_for_outbound_message session_id c).1
  take_event (requests session_id request) c =
      (request_teardown observer_raises session_id request c).1
  take_event (expires session) c = (expire_browser_startup observer_raises session c).1
  take_event (receives session_id message) c =
      (process_control_message observer_raises session_id message c).1
  take_event (closes outcome error) c = (close_active_session observer_raises outcome error c).1
  take_event (hooks session hook) c = call_hook session hook (c.sessions session).teardown c

  unfoldable pub run_events : List Event → VoiceSessionController → VoiceSessionController
  unfolding take_event
  run_events [] c = c
  run_events (event ∷ events) c = run_events events (take_event event c)
