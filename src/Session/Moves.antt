-- ===== src/Session/Moves.antt =====
-- The kinds of change that a step of `VoiceSessionController`
-- (src/realtime_action_spike/runtime/controller.py) can make, and what all of them keep.
pub mod Begin
pub mod Entering
pub mod Control
pub mod Progress
pub mod Queues
pub mod Keeping
pub mod Finish
pub mod Turnover
use okay_hermes_realtime.Base.{
  ℕ, ◌≡◌, ◌⊎◌, refl, sym, ap, subst, ◌∙◌, false, not, Option, none, some, arith, inl, inr,
}
use okay_hermes_realtime.Session.State.{SessionState, post_init}
use okay_hermes_realtime.Session.Data.{
  TeardownRequest, TerminalSessionResult, WakeSession, VoiceSessionController,
}
use okay_hermes_realtime.Session.Controller.{status, status_with, status_of}
use okay_hermes_realtime.Session.Invariant.{
  is_open, is_stopping, is_none, Running, EndsAs, Ended, Inv,
}
use okay_hermes_realtime.Session.Invariant.Renewal.{Renews, Continues, renewed-Inv}
use okay_hermes_realtime.Session.Invariant.Ending.{Ends, ends-Inv}
use okay_hermes_realtime.Session.Invariant.Start.{Opens, opened-Inv}

-- Nothing is changed of a session that the invariant is about.
pub record Same (s s' : WakeSession) : Type 0 where
  pub id : s'.session_id ≡ s.session_id
  pub state : s'.state ≡ s.state
  pub resolved : s'.resolved_result ≡ s.resolved_result
  pub teardown : s'.teardown ≡ s.teardown

pub record Touches (c c' : VoiceSessionController) : Type 0 where
  pub sessions : (m : ℕ) → Same (c.sessions m) (c'.sessions m)
  pub allocated : c'.allocated ≡ c.allocated
  pub active : c'.active_session ≡ c.active_session
  pub futures : c'.terminal_futures ≡ c.terminal_futures
  pub results : c'.future_results ≡ c.future_results
  pub queued :
      (key : ℕ)
      → is_none (c.outbound_messages key) ≡ false
      → is_none (c'.outbound_messages key) ≡ false
  pub told :
      (c'.last_notified_status ≡ c.last_notified_status)
      ⊎ (c'.last_notified_status ≡ some (status c))

-- What stays of a session for good: who it is, the request that started its teardown, its result.
pub record Later (s s' : WakeSession) : Type 0 where
  pub id : s'.session_id ≡ s.session_id
  pub teardown : (q : TeardownRequest) → s.teardown ≡ some q → s'.teardown ≡ some q
  pub resolved :
      (r : TerminalSessionResult) → s.resolved_result ≡ some r → s'.resolved_result ≡ some r

pub data Move : VoiceSessionController → VoiceSessionController → Type 0 where
  touches : {c c' : VoiceSessionController} → Touches c c' → Move c c'
  renews :
      {c c' : VoiceSessionController} (a : ℕ) (s : WakeSession)
      → c.active_session ≡ some a
      → Renews a s c c'
      → Continues (c.sessions a) s
      → Later (c.sessions a) s
      → Move c c'
  opens :
      {c c' : VoiceSessionController} (session_id token : ℕ)
      → c.active_session ≡ none
      → Opens session_id token c c'
      → Move c c'
  ends :
      {c c' : VoiceSessionController} (n : ℕ) (s : WakeSession) (result : TerminalSessionResult)
      → c.active_session ≡ some n
      → Ends n s result c c'
      → Ended s (some result)
      → Later (c.sessions n) s
      → Move c c'
  follows : {c middle c' : VoiceSessionController} → Move c middle → Move middle c' → Move c c'

pub unchanged : (c : VoiceSessionController) → Move c c
unchanged c = touches (record {
  sessions = λ m. record { id = refl; state = refl; resolved = refl; teardown = refl };
  allocated = refl;
  active = refl;
  futures = refl;
  results = refl;
  queued = λ key h. h;
  told = inl refl;
})

module _ (c c' : VoiceSessionController) (t : Touches c c') where
  Touches-Running : (n : ℕ) → Running n (c.sessions n) c → Running n (c'.sessions n) c'
  Touches-Running n v =
      let same = t.sessions n in
      let phases = ap (λ (s : SessionState). s.phase) same.state in
      record {
        made = omega (arith, v.made, t.allocated);
        phase = ap is_open phases ∙ v.phase;
        recorded = ap post_init same.state ∙ v.recorded;
        unresolved = same.resolved ∙ v.unresolved;
        pending = ap (λ f. f n) t.results ∙ v.pending;
        known =
            ap (λ f. f (c'.sessions n).session_id) t.futures
            ∙ ap c.terminal_futures same.id
            ∙ v.known;
        queued =
            t.queued (c'.sessions n).session_id
              (ap (λ key. is_none (c.outbound_messages key)) same.id ∙ v.queued);
        tearing = ap is_none same.teardown ∙ v.tearing ∙ sym (ap (λ p. not (is_stopping p)) phases);
      }

  Touches-Ended :
      (n : ℕ)
      → Ended (c.sessions n) (c.future_results n)
      → Ended (c'.sessions n) (c'.future_results n)
  Touches-Ended n v =
      let same = t.sessions n in
      record {
        phase = ap (λ (s : SessionState). is_open s.phase) same.state ∙ v.phase;
        recorded = ap post_init same.state ∙ v.recorded;
        delivered = ap (λ f. f n) t.results ∙ v.delivered ∙ sym same.resolved;
        outcome =
            subst (λ (p : Option TeardownRequest × Option TerminalSessionResult). EndsAs p.0 p.1)
              {x = ((c.sessions n).teardown, (c.sessions n).resolved_result)}
              {y = ((c'.sessions n).teardown, (c'.sessions n).resolved_result)}
              (cc (same.teardown, same.resolved)) v.outcome;
      }

  status_same : status c' ≡ status c
  status_same = ap (λ o. status_with o c') t.active ∙ go c.active_session
    where
      go : (o : Option ℕ) → status_with o c' ≡ status_with o c
      go none = refl
      go (some n) = ap (λ (s : SessionState). status_of s.phase) (t.sessions n).state

  Touches-Inv : Inv c → Inv c'
  Touches-Inv v = record {
    running = λ n e. Touches-Running n (v.running n (sym t.active ∙ e));
    ended =
        λ n l e. Touches-Ended n (v.ended n (omega (arith, t.allocated)) (λ f. e (t.active ∙ f)));
    unborn = λ n l. ap (λ f. f n) t.results ∙ v.unborn n (omega (arith, t.allocated));
    told = λ s e. elim t.told [
      | inl same ↦ v.told s (sym same ∙ e) ∙ sym status_same
      | inr now ↦ (let eq : status c ≡ s = cc in sym eq) ∙ sym status_same
    ];
  }

pub Move-Inv : {c c' : VoiceSessionController} → Move c c' → Inv c → Inv c'
Move-Inv {c} {c'} (touches t) v = Touches-Inv c c' t v
Move-Inv {c} {c'} (renews a s e r k later) v = renewed-Inv a s c c' r e k v
Move-Inv {c} {c'} (opens session_id token e o) v = opened-Inv session_id token c c' o e v
Move-Inv {c} {c'} (ends n s result e f over later) v = ends-Inv n s result c c' f e over v
Move-Inv (follows first second) v = Move-Inv second (Move-Inv first v)
