-- ===== src/Session/Invariant.antt =====
-- What holds of `VoiceSessionController` (src/realtime_action_spike/runtime/controller.py) between
-- two of its methods, as long as the observer of the status never raises.
pub mod Renewal
pub mod Ending
pub mod Start
pub mod Steps
use okay_hermes_realtime.Base.{
  ℕ, ◌≡◌, ◌≢◌, ◌≤◌, ◌<◌, ap, Bool, true, false, not, Option, none, some,
}
use okay_hermes_realtime.Session.State.{
  SessionPhase, idle, launching, connecting, live, stopping, closed, failed, phase_eq, post_init,
}
use okay_hermes_realtime.Session.Data.{
  SessionOutcome, TeardownRequest, TerminalSessionResult, WakeSession, ControlState,
  VoiceSessionController,
}
use okay_hermes_realtime.Session.Controller.{status, status_with, status_of, phase_of}

-- `phase` is that of an active session.
abbrev pub is_open : SessionPhase → Bool
is_open launching = true
is_open connecting = true
is_open live = true
is_open stopping = true
is_open idle = false
is_open closed = false
is_open failed = false

abbrev pub is_stopping : SessionPhase → Bool
is_stopping phase = phase_eq phase stopping

abbrev pub is_none {ℓ} : {A : Type ℓ} → Option A → Bool
is_none none = true
is_none (some a) = false

-- The active session: nobody has a result yet, its future is known, there is a queue to its page,
-- and its teardown has started exactly if it is stopping.
pub record Running (n : ℕ) (s : WakeSession) (c : VoiceSessionController) : Type 0 where
  pub made : n < c.allocated
  pub phase : is_open s.state.phase ≡ true
  pub recorded : post_init s.state ≡ true
  pub unresolved : s.resolved_result ≡ none
  pub pending : c.future_results n ≡ none
  pub known : c.terminal_futures s.session_id ≡ some n
  pub queued : is_none (c.outbound_messages s.session_id) ≡ false
  pub tearing : is_none s.teardown ≡ not (is_stopping s.state.phase)

abbrev pub AgreesWith : Option TeardownRequest → TerminalSessionResult → Type 0
AgreesWith none result = result.outcome ≡ SessionOutcome.failed
AgreesWith (some request) result =
    (result.outcome ≡ request.outcome) × (result.error ≡ request.error)

abbrev pub EndsAs : Option TeardownRequest → Option TerminalSessionResult → Type 0
EndsAs teardown none = ⊥
EndsAs teardown (some result) = AgreesWith teardown result

-- A session that was active: it has one result, which its future got too: that of the request that
-- started its teardown, or a failure of its launch.
pub record Ended (s : WakeSession) (future : Option TerminalSessionResult) : Type 0 where
  pub phase : is_open s.state.phase ≡ false
  pub recorded : post_init s.state ≡ true
  pub delivered : future ≡ s.resolved_result
  pub outcome : EndsAs s.teardown s.resolved_result

pub record Inv (c : VoiceSessionController) : Type 0 where
  pub running : (n : ℕ) → c.active_session ≡ some n → Running n (c.sessions n) c
  pub ended :
      (n : ℕ)
      → n < c.allocated
      → c.active_session ≢ some n
      → Ended (c.sessions n) (c.future_results n)
  pub unborn : (n : ℕ) → c.allocated ≤ n → c.future_results n ≡ none
  pub told : (s : ControlState) → c.last_notified_status ≡ some s → s ≡ status c

pub status-eq :
    (a : ℕ) (c : VoiceSessionController)
    → c.active_session ≡ some a
    → status c ≡ status_of (phase_of a c)
status-eq a c e = ap (λ o. status_with o c) e
