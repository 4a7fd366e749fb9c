-- ===== src/Session/Moves/Control.antt =====
-- The moves that the requests for a teardown and the messages of the page make, in
-- src/realtime_action_spike/runtime/controller.py.
use okay_hermes_realtime.Base.{ℕ, ◌≡◌, refl, Bool, true, false, Option, none, some}
use okay_hermes_realtime.Base.Bytes.{Bytes}
use okay_hermes_realtime.Session.State.{connecting, live}
use okay_hermes_realtime.Session.Data.{
  SessionOutcome, TeardownRequest, WakeSession, VoiceSessionController, Procedure, ◌>>=◌,
}
use okay_hermes_realtime.Session.Controller.{
  id_of, begin_teardown_locked, reason_of, Message, page_ready, page_started, timing,
  teardown_complete, stop,
}
use okay_hermes_realtime.Session.Controller.Messages.{
  request_teardown, expire_due, expiry, request_for, expire_browser_startup,
  process_control_message, process_from, handle_message, enter, answer_late, close_active_session,
  close_from,
}
use okay_hermes_realtime.Session.Controller.Teardown.{mark_stopping}
use okay_hermes_realtime.Session.Invariant.{Inv}
use okay_hermes_realtime.Session.Moves.{Move, unchanged}
use okay_hermes_realtime.Session.Moves.Begin.{begin_teardown_locked-Move}
use okay_hermes_realtime.Session.Moves.Entering.{enter-Move}
use okay_hermes_realtime.Session.Moves.Progress.{
  Same-refl, >>=-Move, required-Move, updates, if-Move,
}

module _ (observer_raises : ℕ → Bool) (quiet : (k : ℕ) → observer_raises k ≡ false) where
  -- What follows the start of a teardown, in the methods that start one.
  begin-Move :
      {A : Type 0} (session : ℕ) (request : TeardownRequest) (f : ℕ → Procedure A)
      (c : VoiceSessionController)
      → ((n : ℕ) (d : VoiceSessionController) → Move d (f n d).1)
      → Inv c
      → Move c ((begin_teardown_locked observer_raises session request >>= f) c).1
  begin-Move session request f c rest v =
      >>=-Move (begin_teardown_locked observer_raises session request) f c
        (begin_teardown_locked-Move observer_raises quiet session request c v) (λ n. rest n _)

  pub request_teardown-Move :
      (session_id : ℕ) (request : TeardownRequest) (c : VoiceSessionController)
      → Inv c
      → Move c (request_teardown observer_raises session_id request c).1
  unfolding request_teardown
  request_teardown-Move session_id request c v =
      required-Move session_id _ c
        (λ a. begin_teardown_locked-Move observer_raises quiet a request c v)

  pub mark_stopping-Move :
      (session : ℕ) (request : TeardownRequest) (c : VoiceSessionController)
      → Inv c
      → Move c (mark_stopping observer_raises session request c).1
  unfolding mark_stopping
  mark_stopping-Move session request c v = begin-Move session request _ c (λ n d. unchanged d) v

  expire_due-Move :
      (session : ℕ) (due : Bool) (c : VoiceSessionController)
      → Inv c
      → Move c (expire_due observer_raises session due c).1
  expire_due-Move session false c v = unchanged c
  expire_due-Move session true c v = begin-Move session expiry _ c (λ n d. unchanged d) v

  pub expire_browser_startup-Move :
      (session : ℕ) (c : VoiceSessionController)
      → Inv c
      → Move c (expire_browser_startup observer_raises session c).1
  unfolding expire_browser_startup
  expire_browser_startup-Move session c v = expire_due-Move session _ c v

  pub close_active_session-Move :
      (outcome : SessionOutcome) (error : Option Bytes) (c : VoiceSessionController)
      → Inv c
      → Move c (close_active_session observer_raises outcome error c).1
  unfolding close_active_session
  close_active_session-Move outcome error c v = go c.active_session
    where
      go : (o : Option ℕ) → Move c (close_from observer_raises outcome error o c).1
      go none = unchanged c
      go (some n) =
          >>=-Move (request_teardown observer_raises (id_of n c) _) _ c
            (request_teardown-Move (id_of n c) _ c v) (λ m. unchanged _)

  handle_message-Move :
      (n : ℕ) (message : Message) (c : VoiceSessionController)
      → c.active_session ≡ some n
      → Inv c
      → Move c (handle_message observer_raises n message c).1
  unfolding handle_message
  handle_message-Move n page_ready c e v =
      >>=-Move (enter observer_raises n connecting (λ s. s)) _ c
        (enter-Move observer_raises quiet n connecting (λ s. s) c e refl (λ h. cc) Same-refl v)
        (λ m. unchanged _)
  handle_message-Move n page_started c e v =
      let quit = λ (s : WakeSession). record s { has_startup_deadline = false } in
      >>=-Move (enter observer_raises n live quit) _ c
        (enter-Move observer_raises quiet n live quit c e refl (λ h. cc)
          (λ s. record { id = refl; state = refl; resolved = refl; teardown = refl }) v)
        (λ m. unchanged _)
  handle_message-Move n timing c e v = unchanged c
  handle_message-Move n (stop reason) c e v =
      begin-Move n (request_for reason) _ c (λ m d. unchanged d) v
  handle_message-Move n teardown_complete c e v =
      begin-Move n (request_for (reason_of (c.sessions n).stop_reason)) _ c
        (λ m d.
          updates m (λ s. record s { acknowledged = true }) d
            (record { id = refl; state = refl; resolved = refl; teardown = refl }))
        v

  answer_late-Move :
      (session_id : ℕ) (message : Message) (c : VoiceSessionController)
      → Move c (answer_late observer_raises session_id message c).1
  unfolding answer_late
  answer_late-Move session_id teardown_complete c = if-Move _ _ _ c (unchanged c) (unchanged c)
  answer_late-Move session_id page_ready c = unchanged c
  answer_late-Move session_id page_started c = unchanged c
  answer_late-Move session_id timing c = unchanged c
  answer_late-Move session_id (stop reason) c = unchanged c

  pub process_control_message-Move :
      (session_id : ℕ) (message : Message) (c : VoiceSessionController)
      → Inv c
      → Move c (process_control_message observer_raises session_id message c).1
  unfolding process_control_message
  process_control_message-Move session_id message c v = go c.active_session refl
    where
      go :
          (o : Option ℕ)
          → c.active_session ≡ o
          → Move c (process_from observer_raises session_id message o c).1
      go none e = answer_late-Move session_id message c
      go (some n) e = if-Move _ _ _ c (handle_message-Move n message c e v) (unchanged c)
