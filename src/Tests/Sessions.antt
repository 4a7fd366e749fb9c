-- ===== src/Tests/Sessions.antt =====
-- Tests of a voice session, and of the handler that opens one.
use okay_hermes_realtime.Base.{
  ℕ, ◌≤◌, ◌≡◌, refl, Bool, true, false, none, some, List, [], ◌∷◌, arith, ◌==◌, if◌then◌else◌,
}
use okay_hermes_realtime.Base.Bytes.{bytes}
use okay_hermes_realtime.Activation.{Process, run_handler, start_child, pipe2, feed_child}
use okay_hermes_realtime.Posix.Write.{write_all}
use okay_hermes_realtime.Activation.Child.{Table, Starts, run_child, run_child-Starts}
use okay_hermes_realtime.Session.State.{allowed, phase_eq, transition_to}
use okay_hermes_realtime.Session.Tokens.{new_store, consume, issue}
use okay_hermes_realtime.Session.Tokens.Consumption.{
  Call, issues, consumes, issued, run_calls, run_calls-le-issued,
}
use okay_hermes_realtime.Session.Data.{
  TerminalSessionResult, WakeSession, button, SessionOutcome, completed, err, observer_error,
}
use okay_hermes_realtime.Session.Controller.{page_started, stop, state_eq, status_of}
use okay_hermes_realtime.Session.Controller.Activate.{activate, new_session, opened}
use okay_hermes_realtime.Session.Controller.Messages.{request_for}
use okay_hermes_realtime.Session.Lifecycle.{
  Event, activates, receives, closes, hooks, marks_stopping, finalizes, new_controller, run_events,
}
use okay_hermes_realtime.Session.Lifecycle.Outcome.{Follows, run_events-Follows}
use okay_hermes_realtime.Session.Coordinator.{HookName, close_browser, Answer, raises, run_task}
use okay_hermes_realtime.Session.Lifecycle.Liveness.{EndedBy, interleave, run_task-EndedBy}
use okay_hermes_realtime.Session.Observer.{activate_stuck}
use okay_hermes_realtime.Session.Lifecycle.Slot.{Handovers, slot, run_events-Handovers}
use okay_hermes_realtime.Session.Handler.{exit_status, handle_client, run_handler-completed}
use okay_hermes_realtime.Tests.{good, host}

-- Standard streams, and the pipe at 3 and 4.
abbrev table : Table
table fd =
    if fd == 3
    then some (record { file = 9; close_on_exec = true })
    else if fd == 4
    then some (record { file = 10; close_on_exec = true })
    else if fd == 0
    then some (record { file = 0; close_on_exec = false })
    else none

run_child-Starts_example : Starts 3 4 9 table (run_child true true 3 4 table)
run_child-Starts_example = run_child-Starts true true 3 4 9 table refl (omega arith)

-- A token that is issued once, is consumed once.
abbrev token_calls : List Call
token_calls = issues 5 0 7 ∷ consumes 5 10 ∷ consumes 5 11 ∷ []

consumed_once : (run_calls 5 token_calls (new_store 15)).0 ≡ 1
unfolding run_calls consume issue
consumed_once = refl

run_calls-le-issued_example : (run_calls 5 token_calls (new_store 15)).0 ≤ issued 5 token_calls
run_calls-le-issued_example = run_calls-le-issued 15 5 token_calls

abbrev calm : ℕ → Bool
calm k = false

abbrev unused_sessions : ℕ → WakeSession
unfolding new_session
unused_sessions n = new_session 0 0

-- A session that is opened, talks and is stopped by its button.
abbrev conversation : List Event
conversation = activates 7 70 100 true ∷ receives 7 page_started ∷ receives 7 (stop button) ∷ []

-- Another wish to stop, the hooks, and the next activation.
abbrev aftermath : List Event
aftermath =
    closes SessionOutcome.failed none
    ∷ hooks 0 marks_stopping
    ∷ hooks 0 finalizes
    ∷ activates 8 80 200 false
    ∷ []

run_events-Follows_example :
    let c = run_events calm conversation (new_controller 15 unused_sessions) in
    let c' = run_events calm aftermath c in
    ((c'.sessions 0).teardown ≡ some (request_for button)) × Follows 0 (request_for button) c'
unfolding run_events allowed phase_eq transition_to state_eq status_of
run_events-Follows_example =
    run_events-Follows calm (λ k. refl) 15 unused_sessions conversation aftermath 0
      (request_for button) (omega arith) refl

-- Every hook raises, and the task is cancelled while it closes the browser.
abbrev broken : HookName → Answer
broken name = raises

abbrev cancelled_late : HookName → Bool
cancelled_late close_browser = true
cancelled_late _ = false

-- Only the last hook gets the lock.
abbrev last_only : HookName → Bool
last_only HookName.finalize = true
last_only _ = false

abbrev busy_controller : HookName → List Event
busy_controller name = activates 9 90 300 true ∷ []

run_task-EndedBy_example : EndedBy 0 (request_for button) (
    run_events calm
      (interleave last_only 0 busy_controller (run_task broken cancelled_late false false).1.calls)
      (run_events calm conversation (new_controller 15 unused_sessions)))
unfolding run_events allowed phase_eq transition_to state_eq status_of
run_task-EndedBy_example =
    run_task-EndedBy calm (λ k. refl) 15 unused_sessions conversation 0 (request_for button) broken
      cancelled_late false false last_only busy_controller (omega arith) refl refl

activate_stuck_example :
    (activate (λ k. true) 7 70 100 true (new_controller 15 unused_sessions)).0 ≡ err observer_error
activate_stuck_example =
    (activate_stuck (λ k. true) 7 70 100 true (new_controller 15 unused_sessions) refl refl refl).0

abbrev listener : Process
listener = record { os = host; children = 0 }

abbrev finished_session : TerminalSessionResult
finished_session = record { session_id = 7; outcome = completed; error = none }

run_handler-completed_example :
    let exit_code =
      some (exit_status (some (handle_client (opened 7 70) (some finished_session)))) in
    let sent =
      (run_handler good 1 (some (bytes "/h" ∷ [])) (some (bytes "hi")) exit_code listener).0 in
    (sent.text ≡ bytes "hi")
    × ((r : TerminalSessionResult) × (some finished_session ≡ some r) × (r.outcome ≡ completed))
unfolding run_handler start_child pipe2 feed_child write_all exit_status handle_client
run_handler-completed_example =
    run_handler-completed good 1 (some (bytes "/h" ∷ [])) (bytes "hi") listener (opened 7 70)
      (some finished_session) refl refl refl

run_events-Handovers_example :
    let c = run_events calm conversation (new_controller 15 unused_sessions) in
    Handovers (slot c) (slot (run_events calm aftermath c))
run_events-Handovers_example =
    run_events-Handovers calm (λ k. refl) 15 unused_sessions conversation aftermath
