-- ===== src/Session/Moves/Progress.antt =====
-- The moves that the methods of src/realtime_action_spike/runtime/controller.py make which end no
-- session.
use okay_hermes_realtime.Base.{
  ℕ, ◌≡◌, refl, sym, ap, subst, Bool, true, false, Option, List, if◌then◌else◌, arith, inl, inr,
  ℕ_discrete,
}
use okay_hermes_realtime.Session.Tokens.{LaunchTokenStore}
use okay_hermes_realtime.Session.Data.{
  WakeSession, VoiceSessionController, Outbound, Result, ok, err, Procedure, assign, update_session,
  bind_result, ◌>>=◌,
}
use okay_hermes_realtime.Session.Controller.{require_active_session}
use okay_hermes_realtime.Session.Invariant.{is_none}
use okay_hermes_realtime.Session.Moves.{Move, Same, touches, follows, unchanged}
use okay_hermes_realtime.Session.Invariant.Steps.{require-cases}

pub Same-refl : (s : WakeSession) → Same s s
Same-refl s = record { id = refl; state = refl; resolved = refl; teardown = refl }

-- A step that only stores tokens and messages.
pub stores :
    (store : LaunchTokenStore) (outbound : ℕ → Option (List Outbound)) (c : VoiceSessionController)
    → ((key : ℕ) → is_none (c.outbound_messages key) ≡ false → is_none (outbound key) ≡ false)
    → Move c (record c { token_store = store; outbound_messages = outbound })
stores store outbound c queued = touches (record {
  sessions = λ m. Same-refl (c.sessions m);
  allocated = refl;
  active = refl;
  futures = refl;
  results = refl;
  queued = queued;
  told = inl refl;
})

-- An update of a session that the invariant is not about.
pub updates :
    (n : ℕ) (f : WakeSession → WakeSession) (c : VoiceSessionController)
    → Same (c.sessions n) (f (c.sessions n))
    → Move c (update_session n f c)
updates n f c same = touches (record {
  sessions = λ m. elim (ℕ_discrete m n) [
    | yes here ↦
        subst (λ k. Same (c.sessions k) (assign n (f (c.sessions n)) c.sessions k)) (sym here)
          (subst (Same (c.sessions n)) (ground arith) same)
    | no apart ↦ subst (Same (c.sessions m)) (ground arith) (Same-refl (c.sessions m))
  ];
  allocated = refl;
  active = refl;
  futures = refl;
  results = refl;
  queued = λ key h. h;
  told = inl refl;
})

pub if-Move :
    {A : Type 0} (test : Bool) (x y : Result A × VoiceSessionController)
    (c : VoiceSessionController)
    → Move c x.1
    → Move c y.1
    → Move c (if test then x else y).1
if-Move true x y c p q = p
if-Move false x y c p q = q

bind_result-Move :
    {A B : Type 0} (f : A → Procedure B) (r : Result A) (c : VoiceSessionController)
    → ((a : A) → Move c (f a c).1)
    → Move c (bind_result f r c).1
bind_result-Move f (ok a) c h = h a
bind_result-Move f (err e) c h = unchanged c

pub >>=-Move :
    {A B : Type 0} (m : Procedure A) (f : A → Procedure B) (c : VoiceSessionController)
    → Move c (m c).1
    → ((a : A) → Move (m c).1 (f a (m c).1).1)
    → Move c ((m >>= f) c).1
>>=-Move m f c first rest = follows first (bind_result-Move f (m c).0 (m c).1 rest)

require-Move :
    (session_id : ℕ) (c : VoiceSessionController) → (require_active_session session_id c).1 ≡ c
require-Move session_id c = elim (require-cases session_id c) [
  | inl stale ↦ ap (λ (r : Result ℕ × VoiceSessionController). r.1) stale
  | inr (a, e, same, found) ↦ ap (λ (r : Result ℕ × VoiceSessionController). r.1) found
]

-- What follows a `_require_active_session` that leaves the state alone.
pub required-Move :
    {B : Type 0} (session_id : ℕ) (f : ℕ → Procedure B) (c : VoiceSessionController)
    → ((a : ℕ) → Move c (f a c).1)
    → Move c ((require_active_session session_id >>= f) c).1
required-Move session_id f c rest =
    >>=-Move (require_active_session session_id) f c
      (subst (Move c) (sym (require-Move session_id c)) (unchanged c))
      (λ a. subst (λ d. Move d (f a d).1) (sym (require-Move session_id c)) (rest a))
