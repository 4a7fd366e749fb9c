-- ===== src/Session/Startup.antt =====
-- The startup deadline and the launch tokens of src/realtime_action_spike/runtime/controller.py.
use okay_hermes_realtime.Base.{
  ℕ, ◌≡◌, refl, ap, ◌∙◌, Bool, true, false, ◌&&◌, Option, none, some, arith,
}
use okay_hermes_realtime.Session.State.{phase_eq, stopping, allowed, transition_to}
use okay_hermes_realtime.Session.Tokens.{LaunchTokenStore, consume, validate}
use okay_hermes_realtime.Session.Data.{
  WakeSession, VoiceSessionController, Result, ok, err, bind_result, pure,
}
use okay_hermes_realtime.Session.Controller.{
  is_key, is_starting, id_of, phase_of, require_active_session, require_from,
}
use okay_hermes_realtime.Session.Controller.Messages.{
  expiry, expire_browser_startup, consume_activation_token, page_of,
}
use okay_hermes_realtime.Session.Invariant.{Running, Inv}
use okay_hermes_realtime.Session.Invariant.Renewal.{sessions-active}
use okay_hermes_realtime.Session.Moves.Begin.{torn, begin_teardown_locked-Renews}

page_of-some :
    (found active : Option ℕ) (c : VoiceSessionController) {id : ℕ}
    → page_of found active c ≡ some id
    → (found ≡ some id) × ((n : ℕ) × (active ≡ some n) × (id_of n c ≡ id))
page_of-some none active c e = absurd (cc)
page_of-some (some local_session_id) none c e = absurd (cc)
page_of-some (some local_session_id) (some n) c e = (ground arith, (n, refl, ground arith))

consume_once :
    (token now later : ℕ) (s : LaunchTokenStore) {id : ℕ}
    → (consume token now s).0 ≡ some id
    → (consume token later (consume token now s).1).0 ≡ none
unfolding consume validate
consume_once token now later s e = ground arith

-- `consume_activation_token` that gives an identifier gives that of the active session, and the
-- same token gives none from then on, at any time, until it is issued again.
pub consume_activation_token_once :
    (token now : ℕ) (c : VoiceSessionController) {id : ℕ}
    → (consume_activation_token token now c).0 ≡ ok (some id)
    → let c' = (consume_activation_token token now c).1 in
      ((n : ℕ) × (c.active_session ≡ some n) × (id_of n c ≡ id))
      × ((later : ℕ) → (consume_activation_token token later c').0 ≡ ok none)
unfolding consume_activation_token
consume_activation_token_once token now c {id} e =
    let given : page_of (consume token now c.token_store).0 c.active_session c ≡ some id = cc in
    let (found, page) = page_of-some _ c.active_session c given in
    (page, λ later. rw (consume_once token now later c.token_store found) refl)

require-active :
    (n : ℕ) (c : VoiceSessionController)
    → c.active_session ≡ some n
    → require_active_session (id_of n c) c ≡ (ok n, c)
unfolding require_active_session
require-active n c e = ap (λ o. require_from (id_of n c) o c) e ∙ ground arith

bind_result-pure :
    {A B : Type 0} (f : A → B) (r : Result A) (c : VoiceSessionController)
    → (bind_result (λ a. pure (f a)) r c).1 ≡ c
bind_result-pure f (ok a) c = refl
bind_result-pure f (err e) c = refl

starting-torn :
    (n : ℕ) (s : WakeSession) (c : VoiceSessionController)
    → Running n s c
    → is_starting s.state.phase ≡ true
    → let s' = torn expiry s in (s'.state.phase ≡ stopping) × (s'.teardown ≡ some expiry)
unfolding transition_to allowed phase_eq
starting-torn n s c v starting = (ground arith, ground (arith, v.tearing))

module _ (observer_raises : ℕ → Bool) (quiet : (k : ℕ) → observer_raises k ≡ false) where
  -- `_expire_browser_startup` of a session, in a state that the invariant holds of: if the session
  -- is active and its page has not started, it stops, and its teardown starts as a time-out;
  -- otherwise nothing changes.
  pub expire_browser_startup-is_starting :
      (n : ℕ) (c : VoiceSessionController)
      → Inv c
      → let (r, c') = expire_browser_startup observer_raises n c in
        (c.active_session ≡ some n
          → is_starting (phase_of n c) ≡ true
          → (phase_of n c' ≡ stopping) × ((c'.sessions n).teardown ≡ some expiry))
        × ((is_key n c.active_session && is_starting (phase_of n c)) ≡ false
            → (r ≡ ok none) × (c' ≡ c))
  unfolding expire_browser_startup phase_eq
  expire_browser_startup-is_starting n c v = (
    λ e starting.
        let due : (is_key n c.active_session && is_starting (phase_of n c)) ≡ true =
          ap (λ o. is_key n o && is_starting (phase_of n c)) e ∙ ground arith in
        let r =
          begin_teardown_locked-Renews observer_raises quiet n n expiry c e (require-active n c e)
            v in
        let stops = starting-torn n (c.sessions n) c (v.running n e) starting in
        rw (due, bind_result-pure (λ (m : ℕ). some m))
          (
            ap (λ (s : WakeSession). s.state.phase) (sessions-active n _ c _ r) ∙ stops.0,
            ap (λ (s : WakeSession). s.teardown) (sessions-active n _ c _ r) ∙ stops.1,
          ),
    λ other. rw other (refl, refl),
  )
