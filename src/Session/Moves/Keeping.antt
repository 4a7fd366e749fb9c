-- ===== src/Session/Moves/Keeping.antt =====
-- What every move of `VoiceSessionController` (src/realtime_action_spike/runtime/controller.py)
-- keeps of a session.
use okay_hermes_realtime.Base.{ℕ, ◌≡◌, ◌≤◌, ◌<◌, sym, ap, subst, ◌∙◌, arith, ℕ_discrete}
use okay_hermes_realtime.Session.Data.{WakeSession, VoiceSessionController, assign}
use okay_hermes_realtime.Session.Controller.Activate.{new_session}
use okay_hermes_realtime.Session.Moves.{Later, Move, touches, renews, opens, ends, follows}

Later-refl : {s s' : WakeSession} → s' ≡ s → Later s s'
Later-refl same = record {
  id = ap (λ (t : WakeSession). t.session_id) same;
  teardown = λ q e. ap (λ (t : WakeSession). t.teardown) same ∙ e;
  resolved = λ r e. ap (λ (t : WakeSession). t.resolved_result) same ∙ e;
}

Later-trans : {s s' s'' : WakeSession} → Later s s' → Later s' s'' → Later s s''
Later-trans f g = record {
  id = g.id ∙ f.id;
  teardown = λ q e. g.teardown q (f.teardown q e);
  resolved = λ r e. g.resolved r (f.resolved r e);
}

-- A session of which another object is changed, or itself in a way that is later.
assigned-Later :
    (m n : ℕ) (s : WakeSession) (sessions : ℕ → WakeSession) (s' : WakeSession)
    → s' ≡ assign n s sessions m
    → (m ≡ n → Later (sessions n) s)
    → Later (sessions m) s'
assigned-Later m n s sessions s' e here = elim (ℕ_discrete m n) [
  | yes same ↦
      subst (λ k. Later (sessions k) s') (sym same)
        (subst (Later (sessions n)) (ground arith) (here same))
  | no apart ↦ Later-refl (ground arith)
]

-- The sessions never become fewer.
pub Move-allocated : {c c' : VoiceSessionController} → Move c c' → c.allocated ≤ c'.allocated
Move-allocated (touches t) = omega (arith, t.allocated)
Move-allocated (renews a s e r k later) = omega (arith, r.allocated)
Move-allocated (opens session_id token e o) = omega (arith, o.allocated)
Move-allocated (ends n s result e f over later) = omega (arith, f.allocated)
Move-allocated (follows first second) = omega (arith, Move-allocated first, Move-allocated second)

pub Move-Later :
    {c c' : VoiceSessionController} (n : ℕ)
    → Move c c'
    → n < c.allocated
    → Later (c.sessions n) (c'.sessions n)
Move-Later n (touches t) made = record {
  id = (t.sessions n).id;
  teardown = λ q e. (t.sessions n).teardown ∙ e;
  resolved = λ r e. (t.sessions n).resolved ∙ e;
}
Move-Later {c} n (renews a s e r k later) made =
    assigned-Later n a s c.sessions _ (r.sessions n) (λ same. later)
Move-Later {c} n (opens session_id token e o) made =
    assigned-Later n c.allocated (new_session session_id token) c.sessions _ (o.sessions n)
      (λ same. absurd (omega arith))
Move-Later {c} n (ends m s result e f over later) made =
    assigned-Later n m s c.sessions _ (f.sessions n) (λ same. later)
Move-Later n (follows first second) made =
    Later-trans (Move-Later n first made)
      (Move-Later n second (omega (arith, Move-allocated first)))
