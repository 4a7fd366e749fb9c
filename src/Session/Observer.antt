-- ===== src/Session/Observer.antt =====
-- What happens in src/realtime_action_spike/runtime/controller.py when the observer of the status
-- raises, as `_publish_controller_status` of src/realtime_action_spike/service.py does when it
-- cannot write its file.
use okay_hermes_realtime.Base.{ℕ, ◌≡◌, refl, ap, ◌∙◌, Bool, true, false, none, some, arith, ◌+◌}
use okay_hermes_realtime.Session.State.{stopping, phase_eq, allowed, transition_to}
use okay_hermes_realtime.Session.Tokens.{issue}
use okay_hermes_realtime.Session.Data.{
  TeardownRequest, ControlState, VoiceSessionController, ok, err, observer_error, assign,
  update_session,
}
use okay_hermes_realtime.Session.Controller.{
  status, status_of, was_notified, is_key, id_of, phase_of, notify_status,
}
use okay_hermes_realtime.Session.Controller.Activate.{
  new_session, open_session, activate_from, activate, busy,
}
use okay_hermes_realtime.Session.Controller.Teardown.{terminal_phase, finalize}
use okay_hermes_realtime.Session.Invariant.{Running}
use okay_hermes_realtime.Session.Invariant.Steps.{transition_lem}
use okay_hermes_realtime.Session.Moves.Finish.{stopping-terminal_phase}

module _ (observer_raises : ℕ → Bool) where
  notify_status_raises :
      (c : VoiceSessionController)
      → observer_raises c.notifications ≡ true
      → was_notified (status c) c.last_notified_status ≡ false
      → notify_status observer_raises c ≡ (
        err observer_error,
        record c { last_notified_status = some (status c); notifications = c.notifications + 1 },
      )
  unfolding notify_status
  notify_status_raises c raises new = rw (new, raises) refl

  activate_busy :
      (session_id token now : ℕ) (launched : Bool) (n : ℕ) (c : VoiceSessionController)
      → c.active_session ≡ some n
      → activate observer_raises session_id token now launched c ≡ (ok busy, c)
  unfolding activate
  activate_busy session_id token now launched n c e =
      ap (λ o. activate_from observer_raises session_id token now launched o c) e

  -- The state in which `activate` raises.
  abbrev left_open : ℕ → ℕ → ℕ → VoiceSessionController → VoiceSessionController
  left_open session_id token now c = record c {
    token_store = issue token now session_id c.token_store;
    sessions = assign c.allocated (new_session session_id token) c.sessions;
    allocated = c.allocated + 1;
    active_session = some c.allocated;
    last_notified_status = some ControlState.launching;
    notifications = c.notifications + 1;
  }

  activate_raises :
      (session_id token now : ℕ) (launched : Bool) (c : VoiceSessionController)
      → c.active_session ≡ none
      → observer_raises c.notifications ≡ true
      → was_notified ControlState.launching c.last_notified_status ≡ false
      → activate observer_raises session_id token now launched c
        ≡ (err observer_error, left_open session_id token now c)
  unfolding activate open_session new_session allowed phase_eq status_of
  activate_raises session_id token now launched c e raises new =
      let c1 : VoiceSessionController = record c {
        token_store = issue token now session_id c.token_store;
        sessions = assign c.allocated (new_session session_id token) c.sessions;
        allocated = c.allocated + 1;
        active_session = some c.allocated;
      } in
      let starts : status c1 ≡ ControlState.launching = ground arith in
      let told =
        notify_status_raises c1 raises
          (ap (λ s. was_notified s c.last_notified_status) starts ∙ new) in
      ap (λ o. activate_from observer_raises session_id token now launched o c) e
      ∙ rw (told, starts) refl

  -- `activate` without an active session, where the observer was not told of a launch before and
  -- raises now: the call raises with the new session active, no browser, no startup deadline and no
  -- future for its result, and every later `activate` answers that the controller is busy and
  -- changes nothing.
  pub activate_stuck :
      (session_id token now : ℕ) (launched : Bool) (c : VoiceSessionController)
      → c.active_session ≡ none
      → observer_raises c.notifications ≡ true
      → was_notified ControlState.launching c.last_notified_status ≡ false
      → let (r, c') = activate observer_raises session_id token now launched c in
        (r ≡ err observer_error)
        × (c'.active_session ≡ some c.allocated)
        × ((c'.sessions c.allocated).has_browser ≡ false)
        × ((c'.sessions c.allocated).has_startup_deadline ≡ false)
        × (c'.terminal_futures ≡ c.terminal_futures)
        × ((session_id' token' now' : ℕ) (launched' : Bool)
            → activate observer_raises session_id' token' now' launched' c' ≡ (ok busy, c'))
  unfolding new_session
  activate_stuck session_id token now launched c e raises new =
      rw (activate_raises session_id token now launched c e raises new) (
        refl,
        refl,
        ground arith,
        ground arith,
        refl,
        λ session_id' token' now' launched'.
            activate_busy session_id' token' now' launched' c.allocated
              (left_open session_id token now c) refl,
      )

  -- `finalize` of the active session, where the observer was not told that the controller is idle
  -- and raises now: the session is no longer active, but it has no result and its future stays
  -- pending, and calling `finalize` again changes nothing.
  pub finalize_unresolved :
      (n : ℕ) (request : TeardownRequest) (c : VoiceSessionController)
      → c.active_session ≡ some n
      → Running n (c.sessions n) c
      → phase_of n c ≡ stopping
      → observer_raises c.notifications ≡ true
      → was_notified ControlState.idle c.last_notified_status ≡ false
      → let (r, c') = finalize observer_raises n request c in
        (r ≡ err observer_error)
        × (c'.active_session ≡ none)
        × ((c'.sessions n).resolved_result ≡ none)
        × (c'.terminal_futures (id_of n c) ≡ some n)
        × (c'.future_results n ≡ none)
        × ((finalize observer_raises n request c').1 ≡ c')
  unfolding finalize
  finalize_unresolved n request c e v torn raises new =
      let next = terminal_phase request.outcome in
      let allows : allowed (phase_of n c) next ≡ true =
        ap (λ p. allowed p next) torn ∙ stopping-terminal_phase request.outcome in
      let c1 : VoiceSessionController =
        record (update_session n (λ s. record s { state = (transition_to next s.state).1 }) c) {
          active_session = none;
        } in
      let told = notify_status_raises c1 raises new in
      let active : is_key n c.active_session ≡ true = ap (is_key n) e ∙ ground arith in
      rw (active, transition_lem n next c allows, told)
        (refl, refl, ground arith, v.known, v.pending, refl)
