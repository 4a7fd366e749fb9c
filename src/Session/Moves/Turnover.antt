-- ===== src/Session/Moves/Turnover.antt =====
-- The moves that `activate` of src/realtime_action_spike/runtime/controller.py makes.
use okay_hermes_realtime.Base.{
  ℕ, ◌≡◌, refl, sym, ap, ◌∙◌, Bool, true, false, Option, none, some, arith,
}
use okay_hermes_realtime.Session.State.{phase_eq, allowed}
use okay_hermes_realtime.Session.Data.{WakeSession, VoiceSessionController}
use okay_hermes_realtime.Session.Controller.Activate.{
  new_session, launch_ended, activate_from, activate,
}
use okay_hermes_realtime.Session.Invariant.{Inv}
use okay_hermes_realtime.Session.Invariant.Start.{
  Opens, open_session-Opens, abandoned, failure_of, abandoned-Ended, abandon_session-Ends,
}
use okay_hermes_realtime.Session.Moves.{Move, opens, ends, follows, unchanged}
use okay_hermes_realtime.Session.Moves.Progress.{updates}

module _ (observer_raises : ℕ → Bool) (quiet : (k : ℕ) → observer_raises k ≡ false) where
  launch_ended-Move :
      (session_id token : ℕ) (launched : Bool) (c c' : VoiceSessionController)
      → Opens session_id token c c'
      → Inv c
      → Move c' (launch_ended observer_raises c.allocated session_id token launched c').1
  unfolding launch_ended new_session allowed phase_eq
  launch_ended-Move session_id token true c c' o v =
      updates c.allocated (λ s. record s { has_browser = true; has_startup_deadline = true }) c'
        (record { id = refl; state = refl; resolved = refl; teardown = refl })
  launch_ended-Move session_id token false c c' o v =
      let result = failure_of session_id in
      let s = new_session session_id token in
      let here : c'.sessions c.allocated ≡ s = o.sessions c.allocated ∙ ground arith in
      let pending = ap (λ g. g c.allocated) o.results ∙ v.unborn c.allocated (omega arith) in
      ends c.allocated (abandoned result s) result o.active
        (abandon_session-Ends observer_raises quiet c.allocated session_id token s c' here refl
          pending)
        (abandoned-Ended session_id token result refl)
        (record {
          id = ap (λ (t : WakeSession). t.session_id) (sym here);
          teardown = λ q e. ap (λ (t : WakeSession). t.teardown) (sym here) ∙ e;
          resolved =
              λ r e. let fresh = ap (λ (t : WakeSession). t.resolved_result) here in absurd (cc);
        })

  pub activate-Move :
      (session_id token now : ℕ) (launched : Bool) (c : VoiceSessionController)
      → Inv c
      → Move c (activate observer_raises session_id token now launched c).1
  unfolding activate
  activate-Move session_id token now launched c v = go c.active_session refl
    where
      go :
          (o : Option ℕ)
          → c.active_session ≡ o
          → Move c (activate_from observer_raises session_id token now launched o c).1
      go (some n) e = unchanged c
      go none e =
          let (returned, o) = open_session-Opens observer_raises quiet session_id token now c in
          rw returned (
            follows (opens session_id token e o)
              (launch_ended-Move session_id token launched c _ o v))
