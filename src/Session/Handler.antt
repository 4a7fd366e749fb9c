-- ===== src/Session/Handler.antt =====
-- The way back from a session to the listener: the answer of
-- src/realtime_action_spike/runtime/activation_socket.py and the exit status of
-- src/realtime_action_spike/activation_handler.py, which is the handler that `run_handler` of
-- native/okay-hermes-realtime-wake-listener.c starts.
use okay_hermes_realtime.Base.{ℕ, ◌+◌, ◌≡◌, refl, true, false, Option, none, some, List, arith}
use okay_hermes_realtime.Base.Bytes.{Bytes}
use okay_hermes_realtime.Posix.{Replies}
use okay_hermes_realtime.Activation.{Process, run_handler}
use okay_hermes_realtime.Activation.Handler.{run_handler-Delivers}
use okay_hermes_realtime.Session.Data.{
  SessionOutcome, completed, failed, cancelled, timed_out, TerminalSessionResult,
}
use okay_hermes_realtime.Session.Controller.Activate.{
  ActivationResult, busy, opened, failed_to_open,
}

-- The `outcome` of a response.
pub data Response : Type 0 where
  response_completed response_busy response_cancelled response_failed : Response

abbrev pub response_for : SessionOutcome → Response
response_for completed = response_completed
response_for cancelled = response_cancelled
response_for failed = response_failed
response_for timed_out = response_failed

-- `_handle_client`, from the result of `activate` on; the terminal result is `none` if the wait for
-- it raises.
unfoldable pub handle_client : ActivationResult → Option TerminalSessionResult → Response
handle_client busy result = response_busy
handle_client (failed_to_open session_id token) result = response_failed
handle_client (opened session_id token) none = response_failed
handle_client (opened session_id token) (some result) = response_for result.outcome

-- The exit status of `main` in the handler, by the response; `none` if its request raises or the
-- payload is refused.
unfoldable pub exit_status : Option Response → ℕ
exit_status none = 1
exit_status (some response_completed) = 0
exit_status (some response_busy) = 2
exit_status (some response_cancelled) = 3
exit_status (some response_failed) = 1

exit_status-completed :
    (activation : ActivationResult) (result : Option TerminalSessionResult)
    → exit_status (some (handle_client activation result)) ≡ 0
    → (r : TerminalSessionResult) × (result ≡ some r) × (r.outcome ≡ completed)
unfolding exit_status handle_client
exit_status-completed busy result e = absurd (omega arith)
exit_status-completed (failed_to_open session_id token) result e = absurd (omega arith)
exit_status-completed (opened session_id token) none e = absurd (omega arith)
exit_status-completed (opened session_id token) (some r) e = (r, refl, ground arith)

-- `run_handler` with the handler of the repository, which is told how the session ended: if it
-- succeeds then the whole payload arrived and there is a terminal result, which is that the session
-- was completed. A controller that is busy, a launch that failed and a session that was cancelled,
-- failed or timed out all make it fail. This holds with the next two descriptors free.
pub run_handler-completed :
    (replies : Replies) (handler_argc : ℕ) (argv : Option (List Bytes)) (payload : Bytes)
    (p : Process) (activation : ActivationResult) (result : Option TerminalSessionResult)
    → p.os.is_open p.os.next_fd ≡ false
    → p.os.is_open (p.os.next_fd + 1) ≡ false
    → let exit_code = some (exit_status (some (handle_client activation result))) in
      let sent = (run_handler replies handler_argc argv (some payload) exit_code p).0 in
      sent.done ≡ true
      → (sent.text ≡ payload)
        × ((r : TerminalSessionResult) × (result ≡ some r) × (r.outcome ≡ completed))
run_handler-completed replies handler_argc argv payload p activation result reading writing done =
    let exit_code = some (exit_status (some (handle_client activation result))) in
    let d = run_handler-Delivers replies handler_argc argv payload exit_code p reading writing in
    (d.text done, exit_status-completed activation result (ground (arith, d.exited done)))
