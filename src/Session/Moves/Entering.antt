-- ===== src/Session/Moves/Entering.antt =====
-- The moves of a session to a later phase on the way to the conversation, in
-- src/realtime_action_spike/runtime/controller.py.
use okay_hermes_realtime.Base.{
  ℕ, ◌≡◌, ◌≢◌, ◌⊎◌, refl, sym, ap, ◌∙◌, Bool, true, false, not, some, arith, inl, inr,
}
use okay_hermes_realtime.Session.State.{
  SessionPhase, SessionState, stopping, phase_eq, post_init, allowed, transition_to,
  transition_to-post_init,
}
use okay_hermes_realtime.Session.Data.{
  WakeSession, VoiceSessionController, ok, err, update_session, session_transition_error,
}
use okay_hermes_realtime.Session.Controller.{status, phase_of, notify_status, transition}
use okay_hermes_realtime.Session.Controller.Messages.{enter}
use okay_hermes_realtime.Session.Invariant.{is_open, is_stopping, is_none, Running, Inv, status-eq}
use okay_hermes_realtime.Session.Invariant.Renewal.{Renews, Continues}
use okay_hermes_realtime.Session.Moves.{Move, Same, touches, renews, follows, unchanged}
use okay_hermes_realtime.Session.Invariant.Steps.{transition_lem, notify_status_told}
use okay_hermes_realtime.Session.Moves.Progress.{Same-refl, updates}

-- `_transition` makes the change, finds it made, or raises.
transition-cases :
    (n : ℕ) (next : SessionPhase) (c : VoiceSessionController)
    → (allowed (phase_of n c) next ≡ true)
      ⊎ ((transition n next c ≡ (ok tt, c))
          ⊎ (transition n next c ≡ (err session_transition_error, c)))
unfolding transition transition_to
transition-cases n next c = ground arith

abbrev moved : SessionPhase → WakeSession → WakeSession
moved next s = record s { state = (transition_to next s.state).1 }

moved-Continues :
    (n : ℕ) (next : SessionPhase) (s : WakeSession) (c : VoiceSessionController)
    → Running n s c
    → allowed s.state.phase next ≡ true
    → is_open next ≡ true
    → next ≢ stopping
    → Continues s (moved next s)
unfolding transition_to allowed phase_eq
moved-Continues n next s c v allows opens other = record {
  same_id = refl;
  phase = ground arith;
  recorded = ground (arith, transition_to-post_init next s.state.phase s.state.history);
  unresolved = v.unresolved;
  tearing = ground (arith, v.tearing);
}

Continues-Same : {old s s' : WakeSession} → Continues old s → Same s s' → Continues old s'
Continues-Same k same = record {
  same_id = same.id ∙ k.same_id;
  phase = ap (λ (t : SessionState). is_open t.phase) same.state ∙ k.phase;
  recorded = ap post_init same.state ∙ k.recorded;
  unresolved = same.resolved ∙ k.unresolved;
  tearing =
      ap is_none same.teardown
      ∙ k.tearing
      ∙ sym (ap (λ (t : SessionState). not (is_stopping t.phase)) same.state);
}

module _ (observer_raises : ℕ → Bool) (quiet : (k : ℕ) → observer_raises k ≡ false) where
  notify_status-Move : (c : VoiceSessionController) → Move c (notify_status observer_raises c).1
  notify_status-Move c =
      let (k, told) = notify_status_told observer_raises quiet c in
      rw told (
        touches (record {
          sessions = λ m. Same-refl (c.sessions m);
          allocated = refl;
          active = refl;
          futures = refl;
          results = refl;
          queued = λ key h. h;
          told = inr refl;
        }))

  moved-Renews :
      (n : ℕ) (next : SessionPhase) (f : WakeSession → WakeSession) (c : VoiceSessionController)
      (k : ℕ)
      → c.active_session ≡ some n
      → Same (moved next (c.sessions n)) (f (moved next (c.sessions n)))
      → let c2 = update_session n f (update_session n (moved next) c) in
        Renews n
          (f (moved next (c.sessions n)))
          c
          (record c2 { last_notified_status = some (status c2); notifications = k })
  moved-Renews n next f c k e same =
      let c2 = update_session n f (update_session n (moved next) c) in
      record {
        sessions = λ m. ground arith;
        allocated = refl;
        active = e;
        futures = refl;
        results = refl;
        queued = λ key h. h;
        told = λ t g. let now : status c2 ≡ t = cc in sym now ∙ status-eq n c2 e ∙ ground arith;
      }

  pub enter-Move :
      (n : ℕ) (next : SessionPhase) (f : WakeSession → WakeSession) (c : VoiceSessionController)
      → c.active_session ≡ some n
      → is_open next ≡ true
      → next ≢ stopping
      → ((s : WakeSession) → Same s (f s))
      → Inv c
      → Move c (enter observer_raises n next f c).1
  unfolding enter
  enter-Move n next f c e opens other same v = elim (transition-cases n next c) [
    | inl allows ↦
        let s = moved next (c.sessions n) in
        let c2 = update_session n f (update_session n (moved next) c) in
        let (k, told) = notify_status_told observer_raises quiet c2 in
        rw (transition_lem n next c allows, told)
          (renews n (f s) e (moved-Renews n next f c k e (same s))
            (Continues-Same
              (moved-Continues n next (c.sessions n) c (v.running n e) allows opens other) (same s))
            (record {
              id = (same s).id;
              teardown = λ q h. (same s).teardown ∙ h;
              resolved = λ r h. (same s).resolved ∙ h;
            }))
    | inr (inl stays) ↦
        rw stays (follows (updates n f c (same (c.sessions n))) (notify_status-Move _))
    | inr (inr raises) ↦ rw raises (unchanged c)
  ]
