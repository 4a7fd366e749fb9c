-- ===== src/Session/Lifecycle/Outcome.antt =====
-- How sessions end, over all calls of `VoiceSessionController` of
-- src/realtime_action_spike/runtime/controller.py.
use okay_hermes_realtime.Base.{
  ℕ, ◌≡◌, ◌≢◌, ◌<◌, refl, subst, ◌∙◌, Bool, false, Option, none, some, List, [], ◌∷◌, arith,
  Bool-cases, inl, inr,
}
use okay_hermes_realtime.Session.Data.{
  TeardownRequest, TerminalSessionResult, WakeSession, VoiceSessionController,
}
use okay_hermes_realtime.Session.Controller.{is_key}
use okay_hermes_realtime.Session.Invariant.{EndsAs, Inv}
use okay_hermes_realtime.Session.Moves.{Move, unchanged, Move-Inv, follows}
use okay_hermes_realtime.Session.Moves.Keeping.{Move-Later, Move-allocated}
use okay_hermes_realtime.Session.Moves.Queues.{
  consume_activation_token-Move, publish_task_event-Move, wait_for_outbound_message-Move,
  request_browser_stop-Move, close_browser-Move,
}
use okay_hermes_realtime.Session.Moves.Control.{
  request_teardown-Move, mark_stopping-Move, expire_browser_startup-Move, close_active_session-Move,
  process_control_message-Move,
}
use okay_hermes_realtime.Session.Moves.Finish.{finalize-Move}
use okay_hermes_realtime.Session.Moves.Turnover.{activate-Move}
use okay_hermes_realtime.Session.Lifecycle.{
  Hook, marks_stopping, requests_browser_stop, closes_browser, finalizes, Event, activates,
  consumes, publishes, takes, requests, expires, receives, closes, hooks, new_controller, call_hook,
  take_event, run_events,
}

module _ (observer_raises : ℕ → Bool) (quiet : (k : ℕ) → observer_raises k ≡ false) where
  call_hook-Move :
      (n : ℕ) (hook : Hook) (started : Option TeardownRequest) (c : VoiceSessionController)
      → (c.sessions n).teardown ≡ started
      → Inv c
      → Move c (call_hook observer_raises n hook started c)
  unfolding call_hook
  call_hook-Move n hook none c e v = unchanged c
  call_hook-Move n marks_stopping (some request) c e v =
      mark_stopping-Move observer_raises quiet n request c v
  call_hook-Move n requests_browser_stop (some request) c e v =
      request_browser_stop-Move n request c
  call_hook-Move n closes_browser (some request) c e v = close_browser-Move n c
  call_hook-Move n finalizes (some request) c e v =
      finalize-Move observer_raises quiet n request c e v

  pub take_event-Move :
      (event : Event) (c : VoiceSessionController)
      → Inv c
      → Move c (take_event observer_raises event c)
  unfolding take_event
  take_event-Move (activates session_id token now launched) c v =
      activate-Move observer_raises quiet session_id token now launched c v
  take_event-Move (consumes token now) c v = consume_activation_token-Move token now c
  take_event-Move (publishes session_id message_session_id event) c v =
      publish_task_event-Move session_id message_session_id event c
  take_event-Move (takes session_id) c v = wait_for_outbound_message-Move session_id c
  take_event-Move (requests session_id request) c v =
      request_teardown-Move observer_raises quiet session_id request c v
  take_event-Move (expires session) c v =
      expire_browser_startup-Move observer_raises quiet session c v
  take_event-Move (receives session_id message) c v =
      process_control_message-Move observer_raises quiet session_id message c v
  take_event-Move (closes outcome error) c v =
      close_active_session-Move observer_raises quiet outcome error c v
  take_event-Move (hooks session hook) c v = call_hook-Move session hook _ c refl v

  pub run_events-Move :
      (events : List Event) (c : VoiceSessionController)
      → Inv c
      → Move c (run_events observer_raises events c)
  unfolding run_events
  run_events-Move [] c v = unchanged c
  run_events-Move (event ∷ events) c v =
      let first = take_event-Move event c v in
      follows first (run_events-Move events (take_event observer_raises event c) (Move-Inv first v))

  pub run_events-Inv :
      (token_ttl : ℕ) (sessions : ℕ → WakeSession) (events : List Event)
      → Inv (run_events observer_raises events (new_controller token_ttl sessions))
  run_events-Inv token_ttl sessions events =
      let new = new_controller token_ttl sessions in
      let started : Inv new = record {
        running = λ n e. absurd (cc);
        ended = λ n l e. absurd (omega arith);
        unborn = λ n l. refl;
        told = λ s e. absurd (cc);
      } in
      Move-Inv (run_events-Move events new started) started

-- The session still runs without a result, or has ended with that of the request, which its future
-- got too.
pub data Follows (n : ℕ) (request : TeardownRequest) (c : VoiceSessionController) : Type 0 where
  stops :
      c.active_session ≡ some n
      → (c.sessions n).resolved_result ≡ none
      → c.future_results n ≡ none
      → Follows n request c
  ended :
      (result : TerminalSessionResult)
      → c.active_session ≢ some n
      → (c.sessions n).resolved_result ≡ some result
      → c.future_results n ≡ some result
      → result.outcome ≡ request.outcome
      → result.error ≡ request.error
      → Follows n request c

EndsAs-some :
    (request : TeardownRequest) (o : Option TerminalSessionResult)
    → EndsAs (some request) o
    → (r : TerminalSessionResult) × (o ≡ some r)
      × (r.outcome ≡ request.outcome)
      × (r.error ≡ request.error)
EndsAs-some request none h = absurd h
EndsAs-some request (some r) h = (r, refl, h.0, h.1)

Inv-ended :
    (n : ℕ) (request : TeardownRequest) (c : VoiceSessionController)
    → n < c.allocated
    → (c.sessions n).teardown ≡ some request
    → c.active_session ≢ some n
    → Inv c
    → Follows n request c
Inv-ended n request c made started over v =
    let e = v.ended n made over in
    let (r, resolved, outcome, error) =
      EndsAs-some request (c.sessions n).resolved_result
        (subst (λ t. EndsAs t (c.sessions n).resolved_result) started e.outcome) in
    ended r over resolved (e.delivered ∙ resolved) outcome error

pub Inv-Follows :
    (n : ℕ) (request : TeardownRequest) (c : VoiceSessionController)
    → n < c.allocated
    → (c.sessions n).teardown ≡ some request
    → Inv c
    → Follows n request c
Inv-Follows n request c made started v = elim (Bool-cases (is_key n c.active_session)) [
  | inl active ↦
      let e : c.active_session ≡ some n = ground arith in
      let run = v.running n e in stops e run.unresolved run.pending
  | inr other ↦ Inv-ended n request c made started (λ e. absurd (ground arith)) v
]

module _ (observer_raises : ℕ → Bool) (quiet : (k : ℕ) → observer_raises k ≡ false) where
  -- A session whose teardown has started, after any further calls: the request is still the one
  -- that started the teardown, and the session still stops without a result or has ended with the
  -- outcome and the error of that request, in its result and in its future alike. So of several
  -- requests the first one wins. This holds if the observer of the status never raises.
  pub run_events-Follows :
      (token_ttl : ℕ) (sessions : ℕ → WakeSession) (earlier later : List Event) (n : ℕ)
      (request : TeardownRequest)
      → let c = run_events observer_raises earlier (new_controller token_ttl sessions) in
        let c' = run_events observer_raises later c in
        n < c.allocated
        → (c.sessions n).teardown ≡ some request
        → ((c'.sessions n).teardown ≡ some request) × Follows n request c'
  run_events-Follows token_ttl sessions earlier later n request made started =
      let c = run_events observer_raises earlier (new_controller token_ttl sessions) in
      let c' = run_events observer_raises later c in
      let v = run_events-Inv observer_raises quiet token_ttl sessions earlier in
      let moves = run_events-Move observer_raises quiet later c v in
      let same = (Move-Later n moves made).teardown request started in
      (
        same,
        Inv-Follows n request c' (omega (arith, made, Move-allocated moves)) same
            (Move-Inv moves v),
      )
