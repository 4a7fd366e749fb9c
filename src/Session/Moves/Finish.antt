-- ===== src/Session/Moves/Finish.antt =====
-- `finalize` of src/realtime_action_spike/runtime/controller.py ends the session.
use okay_hermes_realtime.Base.{
  ℕ, ◌≡◌, refl, ap, ◌∙◌, Bool, true, false, none, some, arith, Bool-cases, inl, inr, ◌≢◌,
}
use okay_hermes_realtime.Session.State.{
  stopping, phase_eq, allowed, transition_to, transition_to-post_init,
}
use okay_hermes_realtime.Session.Data.{
  SessionOutcome, TeardownRequest, TerminalSessionResult, WakeSession, VoiceSessionController,
  update_session,
}
use okay_hermes_realtime.Session.Controller.{phase_of, is_key, resolve_terminal_result}
use okay_hermes_realtime.Session.Controller.Teardown.{terminal_phase, finalize}
use okay_hermes_realtime.Session.Invariant.{Running, Ended, Inv}
use okay_hermes_realtime.Session.Invariant.Ending.{Ends}
use okay_hermes_realtime.Session.Moves.{Later, Move, ends, unchanged}
use okay_hermes_realtime.Session.Invariant.Steps.{transition_lem, notify_status_told}

abbrev pub result_of : WakeSession → TeardownRequest → TerminalSessionResult
result_of s request = record {
  session_id = s.session_id;
  outcome = request.outcome;
  error = request.error;
}

-- A session after `finalize`.
abbrev pub finished : TeardownRequest → WakeSession → WakeSession
finished request s = record s {
  state = (transition_to (terminal_phase request.outcome) s.state).1;
  has_startup_deadline = false;
  resolved_result = some (result_of s request);
}

pub stopping-terminal_phase : (o : SessionOutcome) → allowed stopping (terminal_phase o) ≡ true
unfolding terminal_phase allowed
stopping-terminal_phase o = ground arith

module _ (observer_raises : ℕ → Bool) (quiet : (k : ℕ) → observer_raises k ≡ false) where
  pub finalize-Ends :
      (n : ℕ) (request : TeardownRequest) (c : VoiceSessionController)
      → c.active_session ≡ some n
      → Running n (c.sessions n) c
      → phase_of n c ≡ stopping
      → Ends n
          (finished request (c.sessions n))
          (result_of (c.sessions n) request)
          c
          (finalize observer_raises n request c).1
  unfolding finalize resolve_terminal_result
  finalize-Ends n request c e v torn =
      let next = terminal_phase request.outcome in
      let allows : allowed (phase_of n c) next ≡ true =
        ap (λ p. allowed p next) torn ∙ stopping-terminal_phase request.outcome in
      let c1 : VoiceSessionController =
        record (update_session n (λ s. record s { state = (transition_to next s.state).1 }) c) {
          active_session = none;
        } in
      let (k, told) = notify_status_told observer_raises quiet c1 in
      let active : is_key n c.active_session ≡ true = ap (is_key n) e ∙ ground arith in
      rw (active, transition_lem n next c allows, told)
        (record {
          sessions = λ m. ground arith;
          allocated = ground arith;
          active = ground arith;
          results = λ m. ground arith;
          told = ground arith;
        })

finished-Ended :
    (n : ℕ) (request : TeardownRequest) (s : WakeSession) (c : VoiceSessionController)
    → Running n s c
    → s.state.phase ≡ stopping
    → s.teardown ≡ some request
    → Ended (finished request s) (some (result_of s request))
unfolding transition_to terminal_phase allowed phase_eq
finished-Ended n request s c v torn started = record {
  phase = ground arith;
  recorded = ground (
    arith,
    transition_to-post_init (terminal_phase request.outcome) s.state.phase s.state.history,
  );
  delivered = refl;
  outcome = rw started (refl, refl);
}

-- A teardown that has started has made the session stop.
pub started-stopping :
    (n : ℕ) (request : TeardownRequest) (s : WakeSession) (c : VoiceSessionController)
    → Running n s c
    → s.teardown ≡ some request
    → s.state.phase ≡ stopping
unfolding phase_eq
started-stopping n request s c v started = ground (arith, v.tearing)

finished-Later :
    (request : TeardownRequest) (s : WakeSession)
    → s.resolved_result ≡ none
    → Later s (finished request s)
finished-Later request s unresolved = record {
  id = refl;
  teardown = λ q e. e;
  resolved = λ r e. absurd (cc);
}

module _ (observer_raises : ℕ → Bool) (quiet : (k : ℕ) → observer_raises k ≡ false) where
  pub finalize-Move :
      (n : ℕ) (request : TeardownRequest) (c : VoiceSessionController)
      → (c.sessions n).teardown ≡ some request
      → Inv c
      → Move c (finalize observer_raises n request c).1
  unfolding finalize
  finalize-Move n request c started v = elim (Bool-cases (is_key n c.active_session)) [
    | inr other ↦ rw other (unchanged c)
    | inl active ↦
        let e : c.active_session ≡ some n = ground arith in
        let run = v.running n e in
        let torn = started-stopping n request (c.sessions n) c run started in
        ends n (finished request (c.sessions n)) (result_of (c.sessions n) request) e
          (finalize-Ends observer_raises quiet n request c e run torn)
          (finished-Ended n request (c.sessions n) c run torn started)
          (finished-Later request (c.sessions n) run.unresolved)
  ]

  pub finalize_inactive :
      (n : ℕ) (request : TeardownRequest) (c : VoiceSessionController)
      → (c.sessions n).teardown ≡ some request
      → Inv c
      → (finalize observer_raises n request c).1.active_session ≢ some n
  unfolding finalize
  finalize_inactive n request c started v = elim (Bool-cases (is_key n c.active_session)) [
    | inr other ↦ rw other (λ e. absurd (ground arith))
    | inl active ↦
        let e : c.active_session ≡ some n = ground arith in
        let run = v.running n e in
        let torn = started-stopping n request (c.sessions n) c run started in
        let f = finalize-Ends observer_raises quiet n request c e run torn in λ h. cc (f.active)
  ]
