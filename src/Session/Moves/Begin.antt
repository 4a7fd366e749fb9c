-- ===== src/Session/Moves/Begin.antt =====
-- The moves that `_begin_teardown_locked` of src/realtime_action_spike/runtime/controller.py makes.
use okay_hermes_realtime.Base.{
  ℕ, ◌≡◌, refl, sym, ap, ◌∙◌, Bool, true, false, some, if◌then◌else◌, arith, Bool-cases, inl, inr,
}
use okay_hermes_realtime.Session.State.{
  SessionPhase, stopping, phase_eq, allowed, transition_to, transition_to-post_init,
}
use okay_hermes_realtime.Session.Data.{
  TeardownRequest, WakeSession, VoiceSessionController, ok, update_session,
}
use okay_hermes_realtime.Session.Controller.{
  status, id_of, phase_of, first, begin_teardown_locked, require_active_session,
}
use okay_hermes_realtime.Session.Invariant.{is_open, Running, Inv, status-eq}
use okay_hermes_realtime.Session.Invariant.Steps.{require-cases, transition_lem, notify_status_told}
use okay_hermes_realtime.Session.Moves.{Later, Move, renews, unchanged}
use okay_hermes_realtime.Session.Invariant.Renewal.{Renews, Continues}

open-stopping : (phase : SessionPhase) → is_open phase ≡ true → allowed phase stopping ≡ true
unfolding allowed
open-stopping phase h = ground arith

-- The active session after `_begin_teardown_locked`.
abbrev pub torn : TeardownRequest → WakeSession → WakeSession
torn request s = record s {
  state = if phase_eq s.state.phase stopping then s.state else (transition_to stopping s.state).1;
  stop_reason = first request.reason s.stop_reason;
  teardown_marked = true;
  teardown = first request s.teardown;
}

torn-Continues :
    (request : TeardownRequest) (n : ℕ) (s : WakeSession) (c : VoiceSessionController)
    → Running n s c
    → Continues s (torn request s)
unfolding transition_to allowed phase_eq
torn-Continues request n s c v = record {
  same_id = refl;
  phase = ground arith;
  recorded = ground (arith, transition_to-post_init stopping s.state.phase s.state.history);
  unresolved = v.unresolved;
  tearing = ground arith;
}

torn-Later : (request : TeardownRequest) (s : WakeSession) → Later s (torn request s)
torn-Later request s = record {
  id = refl;
  teardown = λ q e. ap (first request) e;
  resolved = λ r e. e;
}

module _ (observer_raises : ℕ → Bool) (quiet : (k : ℕ) → observer_raises k ≡ false) where
  pub begin_teardown_locked-Renews :
      (session a : ℕ) (request : TeardownRequest) (c : VoiceSessionController)
      → c.active_session ≡ some a
      → require_active_session (id_of session c) c ≡ (ok a, c)
      → Inv c
      → Renews a
          (torn request (c.sessions a))
          c
          (begin_teardown_locked observer_raises session request c).1
  unfolding begin_teardown_locked
  begin_teardown_locked-Renews session a request c e found v =
      rw found (elim (Bool-cases (phase_eq (phase_of a c) stopping)) [
        | inl already ↦ rw already (record {
          sessions = λ m. ground arith;
          allocated = refl;
          active = e;
          futures = refl;
          results = refl;
          queued = λ key h. h;
          told = λ t f. v.told t f ∙ status-eq a c e;
        })
        | inr fresh ↦
            let c1 =
              update_session a (λ s. record s { state = (transition_to stopping s.state).1 }) c in
            let (k, told) = notify_status_told observer_raises quiet c1 in
            rw (fresh, transition_lem a stopping c (open-stopping _ (v.running a e).phase), told)
              (record {
                sessions = λ m. ground arith;
                allocated = refl;
                active = e;
                futures = refl;
                results = refl;
                queued = λ key h. h;
                told = λ t f.
                    let now : status c1 ≡ t = cc in sym now ∙ status-eq a c1 e ∙ ground arith;
              })
      ])

  pub begin_teardown_locked-Move :
      (session : ℕ) (request : TeardownRequest) (c : VoiceSessionController)
      → Inv c
      → Move c (begin_teardown_locked observer_raises session request c).1
  unfolding begin_teardown_locked
  begin_teardown_locked-Move session request c v = elim (require-cases (id_of session c) c) [
    | inl stale ↦ rw stale (unchanged c)
    | inr (a, e, same, found) ↦
        renews a (torn request (c.sessions a)) e
          (begin_teardown_locked-Renews session a request c e found v)
          (torn-Continues request a (c.sessions a) c (v.running a e))
          (torn-Later request (c.sessions a))
  ]
