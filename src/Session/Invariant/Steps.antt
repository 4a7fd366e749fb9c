-- ===== src/Session/Invariant/Steps.antt =====
-- What `_notify_status`, `_require_active_session` and `_transition` of
-- src/realtime_action_spike/runtime/controller.py come to.
use okay_hermes_realtime.Base.{
  ℕ, ◌+◌, ◌≡◌, ◌⊎◌, refl, ap, Bool, true, false, Option, none, some, ◌==◌, arith, Bool-cases, inl,
  inr,
}
use okay_hermes_realtime.Session.State.{SessionPhase, allowed, transition_to}
use okay_hermes_realtime.Session.Data.{
  stale_control_message, ControlState, VoiceSessionController, Result, ok, err, update_session,
}
use okay_hermes_realtime.Session.Controller.{
  status, was_notified, state_eq, require_from, id_of, phase_of, state_eq, notify_status,
  require_active_session, transition,
}

pub was_notified→eq :
    (t : ControlState) (last : Option ControlState) → was_notified t last ≡ true → last ≡ some t
unfolding state_eq
was_notified→eq t none h = cc
was_notified→eq t (some u) h = ground arith

pub require-cases :
    (session_id : ℕ) (c : VoiceSessionController)
    → (require_active_session session_id c ≡ (err stale_control_message, c))
      ⊎ ((a : ℕ) × (c.active_session ≡ some a)
          × (id_of a c ≡ session_id)
          × (require_active_session session_id c ≡ (ok a, c)))
unfolding require_active_session
require-cases session_id c = go c.active_session refl
  where
    go :
        (o : Option ℕ)
        → c.active_session ≡ o
        → (require_from session_id o c ≡ (err stale_control_message, c))
          ⊎ ((a : ℕ) × (c.active_session ≡ some a)
              × (id_of a c ≡ session_id)
              × (require_from session_id o c ≡ (ok a, c)))
    go none e = inl refl
    go (some a) e = elim (Bool-cases (id_of a c == session_id)) [
      | inl same ↦ inr (a, e, ground arith, ground arith)
      | inr other ↦ inl (ground arith)
    ]

-- A transition that is allowed, other than from a phase to itself.
pub transition_lem :
    (n : ℕ) (next : SessionPhase) (c : VoiceSessionController)
    → allowed (phase_of n c) next ≡ true
    → transition n next c
      ≡ (ok tt, update_session n (λ s. record s { state = (transition_to next s.state).1 }) c)
unfolding transition transition_to
transition_lem n next c h = ground arith

module _ (observer_raises : ℕ → Bool) (quiet : (k : ℕ) → observer_raises k ≡ false) where
  -- The observer has the status then, and nothing but that has changed.
  pub notify_status_told :
      (c : VoiceSessionController)
      → (k : ℕ) × (notify_status observer_raises c
          ≡ (ok tt, record c { last_notified_status = some (status c); notifications = k }))
  unfolding notify_status
  notify_status_told c = elim (Bool-cases (was_notified (status c) c.last_notified_status)) [
    | inl same ↦ (
      c.notifications,
      rw same (
          ap {B = Result (Unit {0}) × VoiceSessionController}
            (λ l. (ok tt, record c { last_notified_status = l })) (was_notified→eq _ _ same)),
    )
    | inr other ↦ (c.notifications + 1, rw (other, quiet c.notifications) refl)
  ]
