-- ===== src/Session/Lifecycle/Liveness.antt =====
-- A teardown that has started ends its session: the task of
-- src/realtime_action_spike/runtime/teardown.py among the other callers of the controller in
-- src/realtime_action_spike/runtime/controller.py.
use okay_hermes_realtime.Base.{
  ℕ, ◌≡◌, ◌≢◌, ◌<◌, refl, sym, ap, subst, ◌∙◌, Bool, false, Option, none, some, List, [], ◌∷◌, ◌++◌,
  arith, take, append_assoc, true, if◌then◌else◌,
}
use okay_hermes_realtime.Session.Data.{
  TeardownRequest, TerminalSessionResult, WakeSession, VoiceSessionController,
}
use okay_hermes_realtime.Session.Invariant.{Inv}
use okay_hermes_realtime.Session.Moves.{Move, Move-Inv}
use okay_hermes_realtime.Session.Moves.Keeping.{Move-Later, Move-allocated}
use okay_hermes_realtime.Session.Moves.Finish.{finalize_inactive}
use okay_hermes_realtime.Session.Lifecycle.{
  Event, hooks, marks_stopping, requests_browser_stop, closes_browser, finalizes, new_controller,
  call_hook, take_event, run_events,
}
use okay_hermes_realtime.Session.Lifecycle.Outcome.{
  take_event-Move, run_events-Move, run_events-Inv, Follows, stops, ended, Inv-Follows,
}
use okay_hermes_realtime.Session.Coordinator.{HookName, Answer, run_task}
use okay_hermes_realtime.Session.Coordinator.Completion.{first_hooks, run_task-calls}

-- What a hook of session `n` does under the lock.
unfoldable pub event_of : ℕ → HookName → List Event
event_of n HookName.mark_stopping = hooks n marks_stopping ∷ []
event_of n HookName.request_browser_stop = hooks n requests_browser_stop ∷ []
event_of n HookName.close_browser = hooks n closes_browser ∷ []
event_of n HookName.release_profile_lock = []
event_of n HookName.persist_trace = []
event_of n HookName.finalize = hooks n finalizes ∷ []

-- A hook gets the lock, or its time is over before that.
abbrev pub events_of : (HookName → Bool) → ℕ → HookName → List Event
events_of locks n name = if locks name then event_of n name else []

module _ (locks : HookName → Bool) where
  -- The hooks in order, with what others call before each of them.
  unfoldable pub interleave : ℕ → (HookName → List Event) → List HookName → List Event
  interleave n others [] = []
  interleave n others (name ∷ names) =
      others name ++ (events_of locks n name ++ interleave n others names)

  interleave-append :
      (n : ℕ) (others : HookName → List Event) (names more : List HookName)
      → interleave n others (names ++ more) ≡ interleave n others names ++ interleave n others more
  unfolding interleave
  interleave-append n others [] more = refl
  interleave-append n others (name ∷ names) more = rw (interleave-append n others names more) (
      ap (λ e. others name ++ e) (sym (append_assoc (events_of locks n name) _ _))
      ∙ sym (append_assoc (others name) _ _))

  -- The last hook, which gets the lock.
  interleave-finalize :
      (n : ℕ) (others : HookName → List Event)
      → locks HookName.finalize ≡ true
      → interleave n others (HookName.finalize ∷ [])
        ≡ others HookName.finalize ++ (hooks n finalizes ∷ [])
  unfolding interleave event_of
  interleave-finalize n others e = rw e refl

-- The session has ended with the outcome and the error of the request, in its result and in its
-- future.
pub record EndedBy (n : ℕ) (request : TeardownRequest) (c : VoiceSessionController) : Type 0 where
  pub result : TerminalSessionResult
  pub inactive : c.active_session ≢ some n
  pub resolved : (c.sessions n).resolved_result ≡ some result
  pub delivered : c.future_results n ≡ some result
  pub outcome : result.outcome ≡ request.outcome
  pub error : result.error ≡ request.error

Follows-EndedBy :
    (n : ℕ) (request : TeardownRequest) (c : VoiceSessionController)
    → c.active_session ≢ some n
    → Follows n request c
    → EndedBy n request c
Follows-EndedBy n request c apart (stops e unresolved pending) = absurd (apart e)
Follows-EndedBy n request c apart (ended r over resolved delivered outcome error) = record {
  result = r;
  inactive = over;
  resolved = resolved;
  delivered = delivered;
  outcome = outcome;
  error = error;
}

module _ (observer_raises : ℕ → Bool) (quiet : (k : ℕ) → observer_raises k ≡ false) where
  run_events-append :
      (events more : List Event) (c : VoiceSessionController)
      → run_events observer_raises (events ++ more) c
        ≡ run_events observer_raises more (run_events observer_raises events c)
  unfolding run_events
  run_events-append [] more c = refl
  run_events-append (event ∷ events) more c =
      run_events-append events more (take_event observer_raises event c)

  call_hook_inactive :
      (n : ℕ) (request : TeardownRequest) (started : Option TeardownRequest)
      (c : VoiceSessionController)
      → (c.sessions n).teardown ≡ started
      → started ≡ some request
      → Inv c
      → (call_hook observer_raises n finalizes started c).active_session ≢ some n
  unfolding call_hook
  call_hook_inactive n request none c e f v = absurd (cc)
  call_hook_inactive n request (some other) c e f v =
      finalize_inactive observer_raises quiet n other c e v

  -- `finalize`, called for a session whose teardown has started.
  finalizes-EndedBy :
      (n : ℕ) (request : TeardownRequest) (c : VoiceSessionController)
      → n < c.allocated
      → (c.sessions n).teardown ≡ some request
      → Inv c
      → EndedBy n request (run_events observer_raises (hooks n finalizes ∷ []) c)
  unfolding run_events take_event
  finalizes-EndedBy n request c made started v =
      let c' = take_event observer_raises (hooks n finalizes) c in
      let move : Move c c' = take_event-Move observer_raises quiet (hooks n finalizes) c v in
      Follows-EndedBy n request c' (call_hook_inactive n request _ c refl started v) (
        Inv-Follows n request c' (omega (arith, made, Move-allocated move))
          ((Move-Later n move made).teardown request started) (Move-Inv move v))

  -- The same, after any other calls.
  later-EndedBy :
      (n : ℕ) (request : TeardownRequest) (events : List Event) (c : VoiceSessionController)
      → n < c.allocated
      → (c.sessions n).teardown ≡ some request
      → Inv c
      → EndedBy n request (run_events observer_raises (events ++ (hooks n finalizes ∷ [])) c)
  later-EndedBy n request events c made started v =
      let c' = run_events observer_raises events c in
      let move : Move c c' = run_events-Move observer_raises quiet events c v in
      subst (EndedBy n request) (sym (run_events-append events (hooks n finalizes ∷ []) c)) (
        finalizes-EndedBy n request c' (omega (arith, made, Move-allocated move))
          ((Move-Later n move made).teardown request started) (Move-Inv move v))

  -- A session whose teardown has started, in any state of the controller: when its task has run_events,
  -- whatever hooks fail or time out, whether the page answers, wherever the task is cancelled and
  -- whatever calls others make in between, the session is not active, and its result and its future
  -- have the outcome and the error of the request that started the teardown. This holds if
  -- `finalize` gets the lock in its time and the observer of the status never raises.
  pub run_task-EndedBy :
      (token_ttl : ℕ) (sessions : ℕ → WakeSession) (earlier : List Event) (n : ℕ)
      (request : TeardownRequest) (answers : HookName → Answer) (cancels : HookName → Bool)
      (acknowledged ack_cancelled : Bool) (locks : HookName → Bool) (others : HookName → List Event)
      → let c = run_events observer_raises earlier (new_controller token_ttl sessions) in
        let calls = (run_task answers cancels acknowledged ack_cancelled).1.calls in
        n < c.allocated
        → (c.sessions n).teardown ≡ some request
        → locks HookName.finalize ≡ true
        → EndedBy n request (run_events observer_raises (interleave locks n others calls) c)
  run_task-EndedBy token_ttl sessions earlier n request answers cancels acknowledged ack_cancelled
        locks others made started locked =
      let c = run_events observer_raises earlier (new_controller token_ttl sessions) in
      let (j, small, e) = (run_task-calls answers cancels acknowledged ack_cancelled).0 in
      let before = interleave locks n others (take j first_hooks) in
      let path =
        ap (interleave locks n others) e
        ∙ interleave-append locks n others (take j first_hooks) (HookName.finalize ∷ [])
        ∙ ap (λ l. before ++ l) (interleave-finalize locks n others locked)
        ∙ sym (append_assoc before (others HookName.finalize) (hooks n finalizes ∷ [])) in
      subst (λ events. EndedBy n request (run_events observer_raises events c)) (sym path)
        (later-EndedBy n request (before ++ others HookName.finalize) c made started
          (run_events-Inv observer_raises quiet token_ttl sessions earlier))
