-- ===== src/Session/Data.antt =====
-- The state of `VoiceSessionController` of src/realtime_action_spike/runtime/controller.py, and its
-- methods as actions: a method may raise, and what it has changed before stays changed. Objects are
-- numbers, so that `is` compares numbers; session identifiers and tokens are only compared, so they
-- are numbers too. Traces and interruption timelines are left out.
use okay_hermes_realtime.Base.{ℕ, Bool, Option, List, ◌==◌, if◌then◌else◌}
use okay_hermes_realtime.Base.Bytes.{Bytes}
use okay_hermes_realtime.Session.State.{SessionState}
use okay_hermes_realtime.Session.Tokens.{LaunchTokenStore}

pub data SessionOutcome : Type 0 where
  completed failed cancelled timed_out : SessionOutcome

pub data StopReason : Type 0 where
  button model_request transport_failure native_cancel timeout : StopReason

pub data ControlState : Type 0 where
  idle launching connecting live stopping : ControlState

pub record TeardownRequest : Type 0 where
  pub outcome : SessionOutcome
  pub reason : StopReason
  pub error : Option Bytes

pub record TerminalSessionResult : Type 0 where
  pub session_id : ℕ
  pub outcome : SessionOutcome
  pub error : Option Bytes

-- `_WakeSession` with its `TeardownCoordinator`: `teardown` is the request that its task was started
-- with, `acknowledged` its event.
pub record WakeSession : Type 0 where
  pub session_id : ℕ
  pub token : ℕ
  pub state : SessionState
  pub has_browser : Bool
  pub teardown : Option TeardownRequest
  pub acknowledged : Bool
  pub teardown_marked : Bool
  pub stop_reason : Option StopReason
  pub resolved_result : Option TerminalSessionResult
  pub has_startup_deadline : Bool

-- What the controller sends to the page: `StopMessage` and `TaskEventMessage`, by its number.
pub data Outbound : Type 0 where
  stop_message : StopReason → Outbound
  task_event : ℕ → Outbound

-- The fields, with the sessions that were made (the first `allocated` numbers) and the results of
-- their futures. A future is known by the number of its session. `notifications` counts the calls
-- of the observer.
pub record VoiceSessionController : Type 0 where
  pub sessions : ℕ → WakeSession
  pub allocated : ℕ
  pub active_session : Option ℕ
  pub last_closed_session_id : Option ℕ
  pub terminal_futures : ℕ → Option ℕ
  pub future_results : ℕ → Option TerminalSessionResult
  pub terminal_results : ℕ → Option TerminalSessionResult
  pub outbound_messages : ℕ → Option (List Outbound)
  pub token_store : LaunchTokenStore
  pub last_notified_status : Option ControlState
  pub notifications : ℕ

pub data Error : Type 0 where
  stale_control_message session_transition_error observer_error key_error value_error : Error

pub data Result (A : Type 0) : Type 0 where
  ok : A → Result A
  err : Error → Result A

abbrev pub Procedure : Type 0 → Type 0
Procedure A = VoiceSessionController → Result A × VoiceSessionController

module _ {A : Type 0} where
  abbrev pub pure : A → Procedure A
  pure a c = (ok a, c)

  abbrev pub raise : Error → Procedure A
  raise e c = (err e, c)

  abbrev pub gets : (VoiceSessionController → A) → Procedure A
  gets f c = (ok (f c), c)

  -- What follows a call, if it returned.
  abbrev pub bind_result : {B : Type 0} → (A → Procedure B) → Result A → Procedure B
  bind_result f (ok a) c = f a c
  bind_result f (err e) c = (err e, c)

infixl 5 ◌>>=◌ ◌>>◌
abbrev pub ◌>>=◌ : {A B : Type 0} → Procedure A → (A → Procedure B) → Procedure B
◌>>=◌ m f c = let (r, c') = m c in bind_result f r c'

abbrev pub ◌>>◌ : {A B : Type 0} → Procedure A → Procedure B → Procedure B
m >> k = m >>= λ _. k

abbrev pub modify : (VoiceSessionController → VoiceSessionController) → Procedure (Unit {0})
modify f c = (ok tt, f c)

abbrev pub when : Bool → Procedure (Unit {0}) → Procedure (Unit {0})
when test m = if test then m else pure tt

-- `dictionary[key] = value`, and `pop` with `none`
abbrev pub assign {ℓ} : {A : Type ℓ} → ℕ → A → (ℕ → A) → ℕ → A
assign key value dictionary other = if other == key then value else dictionary other

abbrev pub update_session :
    ℕ → (WakeSession → WakeSession) → VoiceSessionController → VoiceSessionController
update_session n f c = record c { sessions = assign n (f (c.sessions n)) c.sessions }
