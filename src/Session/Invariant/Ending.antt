-- ===== src/Session/Invariant/Ending.antt =====
-- Steps of `VoiceSessionController` (src/realtime_action_spike/runtime/controller.py) that end the
-- active session.
use okay_hermes_realtime.Base.{
  ℕ, ◌≡◌, ◌≢◌, sym, ap, subst, ◌∙◌, Option, none, some, arith, ℕ_discrete,
}
use okay_hermes_realtime.Session.Data.{
  TerminalSessionResult, WakeSession, ControlState, VoiceSessionController, assign,
}
use okay_hermes_realtime.Session.Controller.{status_with}
use okay_hermes_realtime.Session.Invariant.{Ended, Inv}

-- Session `n` ends as `s`, with its result in its future too, and the observer is told.
pub record Ends (n : ℕ) (s : WakeSession) (result : TerminalSessionResult)
    (c c' : VoiceSessionController) : Type 0 where
  pub sessions : (m : ℕ) → c'.sessions m ≡ assign n s c.sessions m
  pub allocated : c'.allocated ≡ c.allocated
  pub active : c'.active_session ≡ none
  pub results : (m : ℕ) → c'.future_results m ≡ assign n (some result) c.future_results m
  pub told : c'.last_notified_status ≡ some ControlState.idle

module _ (n : ℕ) (s : WakeSession) (result : TerminalSessionResult) (c c' : VoiceSessionController)
    (f : Ends n s result c c') where
  here : (m : ℕ) → m ≡ n → Ended s (some result) → Ended (c'.sessions m) (c'.future_results m)
  here m same =
      subst (λ (p : WakeSession × Option TerminalSessionResult). Ended p.0 p.1)
        {x = (s, some result)} {y = (c'.sessions m, c'.future_results m)}
        (ground (arith, f.sessions m, f.results m))

  elsewhere :
      (m : ℕ)
      → m ≢ n
      → Ended (c.sessions m) (c.future_results m)
      → Ended (c'.sessions m) (c'.future_results m)
  elsewhere m apart =
      subst (λ (p : WakeSession × Option TerminalSessionResult). Ended p.0 p.1)
        {x = (c.sessions m, c.future_results m)} {y = (c'.sessions m, c'.future_results m)}
        (ground (arith, f.sessions m, f.results m))

  pub ends-Inv : c.active_session ≡ some n → Ended s (some result) → Inv c → Inv c'
  ends-Inv e over v = record {
    running = λ m g. absurd (cc (f.active));
    ended = λ m l g. elim (ℕ_discrete m n) [
      | yes same ↦ here m same over
      | no apart ↦
          elsewhere m apart
            (v.ended m (omega (arith, f.allocated)) (λ (h : c.active_session ≡ some m). apart (cc)))
    ];
    unborn = λ m l. f.results m ∙ ground (arith, v.unborn m, (v.running n e).made, f.allocated);
    told = λ t g.
        let idle_told : ControlState.idle ≡ t = cc (f.told) in
        sym idle_told ∙ sym (ap (λ o. status_with o c') f.active);
  }
