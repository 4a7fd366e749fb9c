-- ===== src/Session/Invariant/Renewal.antt =====
-- Steps of `VoiceSessionController` (src/realtime_action_spike/runtime/controller.py) after which
-- the active session is still the active one.
use okay_hermes_realtime.Base.{
  ℕ, ◌≡◌, ◌≢◌, refl, sym, ap, subst, ◌∙◌, true, false, not, none, some, arith,
}
use okay_hermes_realtime.Session.State.{post_init}
use okay_hermes_realtime.Session.Data.{WakeSession, ControlState, VoiceSessionController, assign}
use okay_hermes_realtime.Session.Controller.{status, status_of}
use okay_hermes_realtime.Session.Invariant.{is_open, is_stopping, is_none, Running, Ended, Inv}

-- A step that changes nothing of the sessions but the active one, which stays active.
pub record Renews (a : ℕ) (s : WakeSession) (c c' : VoiceSessionController) : Type 0 where
  pub sessions : (m : ℕ) → c'.sessions m ≡ assign a s c.sessions m
  pub allocated : c'.allocated ≡ c.allocated
  pub active : c'.active_session ≡ some a
  pub futures : c'.terminal_futures ≡ c.terminal_futures
  pub results : c'.future_results ≡ c.future_results
  pub queued :
      (key : ℕ)
      → is_none (c.outbound_messages key) ≡ false
      → is_none (c'.outbound_messages key) ≡ false
  pub told : (t : ControlState) → c'.last_notified_status ≡ some t → t ≡ status_of s.state.phase

-- What `Running` says of the session alone.
pub record Continues (old s : WakeSession) : Type 0 where
  pub same_id : s.session_id ≡ old.session_id
  pub phase : is_open s.state.phase ≡ true
  pub recorded : post_init s.state ≡ true
  pub unresolved : s.resolved_result ≡ none
  pub tearing : is_none s.teardown ≡ not (is_stopping s.state.phase)

module _ (a : ℕ) (s : WakeSession) (c c' : VoiceSessionController) (r : Renews a s c c') where
  pub sessions-active : c'.sessions a ≡ s
  sessions-active = r.sessions a ∙ ground arith

  sessions_other : (m : ℕ) → m ≢ a → c'.sessions m ≡ c.sessions m
  sessions_other m h = r.sessions m ∙ ground arith

  status-active : status c' ≡ status_of s.state.phase
  status-active = rw (r.active, sessions-active) refl

  renewed-Running : Running a (c.sessions a) c → Continues (c.sessions a) s → Running a s c'
  renewed-Running v k = record {
    made = omega (arith, v.made, r.allocated);
    phase = k.phase;
    recorded = k.recorded;
    unresolved = k.unresolved;
    pending = ap (λ f. f a) r.results ∙ v.pending;
    known = ap (λ f. f s.session_id) r.futures ∙ ap c.terminal_futures k.same_id ∙ v.known;
    queued =
        r.queued s.session_id (ap (λ key. is_none (c.outbound_messages key)) k.same_id ∙ v.queued);
    tearing = k.tearing;
  }

  pub renewed-Inv : c.active_session ≡ some a → Continues (c.sessions a) s → Inv c → Inv c'
  renewed-Inv e k v = record {
    running = λ n f.
        subst (λ m. Running m (c'.sessions m) c') {x = a} {y = n} (cc)
          (subst (λ t. Running a t c') (sym sessions-active) (renewed-Running (v.running a e) k));
    ended = λ n l f.
        let apart : n ≢ a = λ (same : n ≡ a). f (r.active ∙ ap some (sym same)) in
        let old =
          v.ended n (omega (arith, r.allocated)) (λ (g : c.active_session ≡ some n). apart (cc)) in
        subst (λ t. Ended t (c'.future_results n)) (sym (sessions_other n apart))
          (subst (λ o. Ended (c.sessions n) o) (sym (ap (λ g. g n) r.results)) old);
    unborn = λ n l. ap (λ g. g n) r.results ∙ v.unborn n (omega (arith, r.allocated));
    told = λ t f. r.told t f ∙ sym status-active;
  }
