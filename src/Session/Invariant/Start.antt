-- ===== src/Session/Invariant/Start.antt =====
-- What `activate` of src/realtime_action_spike/runtime/controller.py does before the launch of the
-- browser, and after one that raised.
use okay_hermes_realtime.Base.{
  ℕ, ◌+◌, ◌≡◌, ◌≢◌, refl, sym, ap, subst, ◌∙◌, Bool, true, false, Option, none, some, arith,
}
use okay_hermes_realtime.Session.State.{
  SessionPhase, phase_eq, post_init, allowed, transition_to, continues,
}
use okay_hermes_realtime.Session.Tokens.{issue}
use okay_hermes_realtime.Session.Data.{
  SessionOutcome, TerminalSessionResult, WakeSession, ControlState, VoiceSessionController, ok,
  assign, update_session,
}
use okay_hermes_realtime.Session.Controller.{status_of, phase_of}
use okay_hermes_realtime.Session.Controller.Activate.{
  new_session, open_session, abandon_session, activation_failed,
}
use okay_hermes_realtime.Session.Invariant.{is_none, Running, Ended, Inv, status-eq}
use okay_hermes_realtime.Session.Invariant.Ending.{Ends}
use okay_hermes_realtime.Session.Invariant.Steps.{transition_lem, notify_status_told}

pub record Opens (session_id token : ℕ) (c c' : VoiceSessionController) : Type 0 where
  pub sessions :
      (m : ℕ) → c'.sessions m ≡ assign c.allocated (new_session session_id token) c.sessions m
  pub allocated : c'.allocated ≡ c.allocated + 1
  pub active : c'.active_session ≡ some c.allocated
  pub results : c'.future_results ≡ c.future_results
  pub known : c'.terminal_futures session_id ≡ some c.allocated
  pub queued : is_none (c'.outbound_messages session_id) ≡ false
  pub told : c'.last_notified_status ≡ some ControlState.launching

new_session-Running :
    (session_id token : ℕ) (c c' : VoiceSessionController)
    → Opens session_id token c c'
    → c.future_results c.allocated ≡ none
    → Running c.allocated (new_session session_id token) c'
unfolding new_session post_init allowed phase_eq continues
new_session-Running session_id token c c' o unborn = record {
  made = omega (arith, o.allocated);
  phase = refl;
  recorded = refl;
  unresolved = refl;
  pending = ap (λ g. g c.allocated) o.results ∙ unborn;
  known = o.known;
  queued = o.queued;
  tearing = refl;
}

pub opened-Inv :
    (session_id token : ℕ) (c c' : VoiceSessionController)
    → Opens session_id token c c'
    → c.active_session ≡ none
    → Inv c
    → Inv c'
unfolding new_session allowed phase_eq status_of
opened-Inv session_id token c c' o e v = record {
  running = λ m g.
      let here : c.allocated ≡ m = cc (o.active) in
      subst (λ k. Running k (c'.sessions k) c') here
        (subst (λ s. Running c.allocated s c') {x = new_session session_id token}
          {y = c'.sessions c.allocated} (ground (arith, o.sessions c.allocated))
          (new_session-Running session_id token c c' o (v.unborn c.allocated (omega arith))));
  ended = λ m l g.
      let apart : m ≢ c.allocated = λ (h : m ≡ c.allocated). g (o.active ∙ ap some (sym h)) in
      subst (λ (p : WakeSession × Option TerminalSessionResult). Ended p.0 p.1)
        {x = (c.sessions m, c.future_results m)} {y = (c'.sessions m, c'.future_results m)}
        (ground (arith, o.sessions m, ap (λ g. g m) o.results, apart))
        (v.ended m (omega (arith, o.allocated, apart)) (λ h. cc));
  unborn = λ m l. ap (λ g. g m) o.results ∙ v.unborn m (omega (arith, o.allocated));
  told = λ s g.
      let launching_told : ControlState.launching ≡ s = cc (o.told) in
      sym launching_told
      ∙ sym (
          status-eq c.allocated c' o.active
          ∙ ap (λ (s : WakeSession). status_of s.state.phase) (o.sessions c.allocated)
          ∙ ground arith);
}

-- The session after a launch that raised.
abbrev pub abandoned : TerminalSessionResult → WakeSession → WakeSession
abandoned result s = record s {
  state = (transition_to SessionPhase.failed s.state).1;
  has_browser = false;
  resolved_result = some result;
}

abbrev pub failure_of : ℕ → TerminalSessionResult
failure_of session_id = record {
  session_id = session_id;
  outcome = SessionOutcome.failed;
  error = some activation_failed;
}

pub abandoned-Ended :
    (session_id token : ℕ) (result : TerminalSessionResult)
    → result.outcome ≡ SessionOutcome.failed
    → Ended (abandoned result (new_session session_id token)) (some result)
unfolding new_session transition_to post_init allowed phase_eq continues
abandoned-Ended session_id token result o = record {
  phase = refl;
  recorded = refl;
  delivered = refl;
  outcome = o;
}

module _ (observer_raises : ℕ → Bool) (quiet : (k : ℕ) → observer_raises k ≡ false) where
  pub open_session-Opens :
      (session_id token now : ℕ) (c : VoiceSessionController)
      → (open_session observer_raises session_id token now c).0 ≡ ok c.allocated
        × Opens session_id token c (open_session observer_raises session_id token now c).1
  unfolding open_session new_session allowed phase_eq status_of
  open_session-Opens session_id token now c =
      let c1 : VoiceSessionController = record c {
        token_store = issue token now session_id c.token_store;
        sessions = assign c.allocated (new_session session_id token) c.sessions;
        allocated = c.allocated + 1;
        active_session = some c.allocated;
      } in
      let (k, told) = notify_status_told observer_raises quiet c1 in
      rw told (
        refl,
        record {
          sessions = λ m. refl;
          allocated = refl;
          active = refl;
          results = refl;
          known = ground arith;
          queued = ground arith;
          told = ground arith;
        },
      )

  pub abandon_session-Ends :
      (n session_id token : ℕ) (s : WakeSession) (c : VoiceSessionController)
      → c.sessions n ≡ s
      → allowed s.state.phase SessionPhase.failed ≡ true
      → c.future_results n ≡ none
      → Ends n
          (abandoned (failure_of session_id) s)
          (failure_of session_id)
          c
          (abandon_session observer_raises n session_id token c).1
  unfolding abandon_session
  abandon_session-Ends n session_id token s c here allows unborn =
      let result = failure_of session_id in
      let c0 : VoiceSessionController =
        record (update_session n
          (λ s. record s { has_browser = false; resolved_result = some result }) c) {
            active_session = none;
            outbound_messages = assign session_id none c.outbound_messages;
          } in
      let allows0 : allowed (phase_of n c0) SessionPhase.failed ≡ true = ground arith in
      let c1 =
        update_session n (λ s. record s { state = (transition_to SessionPhase.failed s.state).1 })
          c0 in
      let (k, told) = notify_status_told observer_raises quiet c1 in
      rw (transition_lem n SessionPhase.failed c0 allows0, told)
        (record {
          sessions = λ m. ground arith;
          allocated = refl;
          active = refl;
          results = λ m. ground arith;
          told = refl;
        })
