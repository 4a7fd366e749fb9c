-- ===== src/Session/Moves/Queues.antt =====
-- The moves of the methods of src/realtime_action_spike/runtime/controller.py that change only the
-- tokens, the queues to the page or the handle of the browser.
use okay_hermes_realtime.Base.{ℕ, ◌≡◌, refl, false, Option, none, some, List, [], ◌∷◌, arith}
use okay_hermes_realtime.Session.Data.{TeardownRequest, VoiceSessionController, Outbound, assign}
use okay_hermes_realtime.Session.Controller.{id_of, is_full}
use okay_hermes_realtime.Session.Controller.Messages.{
  consume_activation_token, publish_task_event, publish_to, take_from, wait_for_outbound_message,
}
use okay_hermes_realtime.Session.Controller.Teardown.{request_browser_stop, close_browser, stop_to}
use okay_hermes_realtime.Session.Invariant.{is_none}
use okay_hermes_realtime.Session.Moves.{Move, unchanged}
use okay_hermes_realtime.Session.Moves.Progress.{if-Move, required-Move, stores, updates}

pub consume_activation_token-Move :
    (token now : ℕ) (c : VoiceSessionController) → Move c (consume_activation_token token now c).1
unfolding consume_activation_token
consume_activation_token-Move token now c = stores _ c.outbound_messages c (λ key h. h)

-- A queue that was there gets other messages.
requeued :
    (id : ℕ) (queue : List Outbound) (outbound : ℕ → Option (List Outbound)) (key : ℕ)
    → is_none (outbound key) ≡ false
    → is_none (assign id (some queue) outbound key) ≡ false
requeued id queue outbound key h = ground arith

publish_to-Move :
    (session_id event : ℕ) (queue : Option (List Outbound)) (c : VoiceSessionController)
    → Move c (publish_to session_id event queue c).1
publish_to-Move session_id event none c = unchanged c
publish_to-Move session_id event (some queue) c =
    if-Move (is_full queue) _ _ c (unchanged c)
      (stores c.token_store _ c (requeued session_id _ c.outbound_messages))

pub publish_task_event-Move :
    (session_id message_session_id event : ℕ) (c : VoiceSessionController)
    → Move c (publish_task_event session_id message_session_id event c).1
unfolding publish_task_event
publish_task_event-Move session_id message_session_id event c =
    if-Move _ _ _ c (unchanged c)
      (publish_to-Move session_id event (c.outbound_messages session_id) c)

take_from-Move :
    (session_id : ℕ) (queue : Option (List Outbound)) (c : VoiceSessionController)
    → Move c (take_from session_id queue c).1
take_from-Move session_id none c = unchanged c
take_from-Move session_id (some []) c = unchanged c
take_from-Move session_id (some (message ∷ rest)) c =
    stores c.token_store _ c (requeued session_id rest c.outbound_messages)

pub wait_for_outbound_message-Move :
    (session_id : ℕ) (c : VoiceSessionController)
    → Move c (wait_for_outbound_message session_id c).1
unfolding wait_for_outbound_message
wait_for_outbound_message-Move session_id c =
    required-Move session_id _ c (λ a. take_from-Move session_id (c.outbound_messages session_id) c)

stop_to-Move :
    (session_id : ℕ) (request : TeardownRequest) (queue : Option (List Outbound))
    (c : VoiceSessionController)
    → Move c (stop_to session_id request queue c).1
stop_to-Move session_id request none c = unchanged c
stop_to-Move session_id request (some queue) c =
    stores c.token_store _ c (requeued session_id _ c.outbound_messages)

pub request_browser_stop-Move :
    (session : ℕ) (request : TeardownRequest) (c : VoiceSessionController)
    → Move c (request_browser_stop session request c).1
unfolding request_browser_stop
request_browser_stop-Move session request c =
    required-Move (id_of session c) _ c
      (λ a. stop_to-Move (id_of session c) request (c.outbound_messages (id_of session c)) c)

pub close_browser-Move :
    (session : ℕ) (c : VoiceSessionController) → Move c (close_browser session c).1
unfolding close_browser
close_browser-Move session c =
    updates session (λ s. record s { has_browser = false }) c
      (record { id = refl; state = refl; resolved = refl; teardown = refl })
