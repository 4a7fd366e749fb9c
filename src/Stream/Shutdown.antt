-- ===== src/Stream/Shutdown.antt =====
-- The exit status, from the order in which the listener is stopped.
use okay_hermes_realtime.Base.{
  ◌≡◌, ◌↔◌, Bool, true, false, ◌||◌, List, [], ◌∷◌, arith, if◌then◌else◌,
}
use okay_hermes_realtime.Float.{Float}
use okay_hermes_realtime.Stream.{
  Listener, StreamState, error, unconnected, on_state_changed, signal_request_stop,
  worker_start_failed,
}

-- What can stop the listener: a signal, the stream, or the worker at its start.
pub data Event : Type 0 where
  signal : Event
  state_changed : StreamState → Event
  worker_failed : Event

module _ {F : Float} where
  unfoldable pub handle : Event → Listener F → Listener F
  unfolding on_state_changed signal_request_stop worker_start_failed
  handle signal l = signal_request_stop l
  handle (state_changed state) l = on_state_changed state l
  handle worker_failed l = worker_start_failed l

  unfoldable pub handle_all : List Event → Listener F → Listener F
  handle_all [] l = l
  handle_all (e ∷ events) l = handle_all events (handle e l)

abbrev is_bad : StreamState → Bool
is_bad error = true
is_bad unconnected = true
is_bad _ = false

abbrev has_worker_failed : List Event → Bool
has_worker_failed [] = false
has_worker_failed (worker_failed ∷ events) = true
has_worker_failed (signal ∷ events) = has_worker_failed events
has_worker_failed (state_changed state ∷ events) = has_worker_failed events

-- Whether a run with these events has to count as failed: the worker could not start, or the
-- stream broke before anything else asked the listener to stop.
unfoldable pub should_fail : List Event → Bool
should_fail [] = false
should_fail (signal ∷ events) = has_worker_failed events
should_fail (worker_failed ∷ events) = true
should_fail (state_changed state ∷ events) =
    let later = should_fail events in if is_bad state then true else later

module _ {F : Float} where
  handle_all-stopped :
      (events : List Event) (l : Listener F)
      → l.running ≡ false
      → (handle_all events l).failed ≡ (l.failed || has_worker_failed events)
  unfolding handle_all handle
  handle_all-stopped [] l h = ground arith
  handle_all-stopped (signal ∷ events) l h =
      ground (arith, handle_all-stopped events (signal_request_stop l))
  handle_all-stopped (worker_failed ∷ events) l h =
      ground (arith, handle_all-stopped events (worker_start_failed l))
  handle_all-stopped (state_changed state ∷ events) l h =
      ground (arith, handle_all-stopped events (on_state_changed state l))

  -- Started with `running` set and `failed` clear, the listener ends failed exactly if the worker
  -- could not start, or if the stream broke before any signal came. A stream that is torn down
  -- after a signal does not turn a clean stop into a failure.
  pub handle_all-should_fail :
      (events : List Event) (l : Listener F)
      → l.running ≡ true
      → l.failed ≡ false
      → (handle_all events l).failed ≡ should_fail events
  unfolding handle_all handle should_fail
  handle_all-should_fail [] l r f = f
  handle_all-should_fail (signal ∷ events) l r f =
      ground (arith, handle_all-stopped events (signal_request_stop l))
  handle_all-should_fail (worker_failed ∷ events) l r f =
      ground (arith, handle_all-stopped events (worker_start_failed l))
  handle_all-should_fail (state_changed state ∷ events) l r f = ground (
    arith,
    handle_all-stopped events (on_state_changed state l),
    handle_all-should_fail events (on_state_changed state l),
  )

  -- It still runs exactly if no quit was asked for.
  abbrev pub RunsUntilQuit : Listener F → Type 0
  RunsUntilQuit l = (l.running ≡ true) ↔ (l.quits ≡ 0)

  handle-RunsUntilQuit : (e : Event) (l : Listener F) → RunsUntilQuit l → RunsUntilQuit (handle e l)
  unfolding handle
  handle-RunsUntilQuit signal l h = (λ r. cc, λ q. absurd (omega arith))
  handle-RunsUntilQuit worker_failed l h = (λ r. cc, λ q. absurd (omega arith))
  handle-RunsUntilQuit (state_changed state) l h =
      (λ r. ground (arith, h.0), λ q. ground (arith, h.1))

  -- If the listener runs exactly as long as no quit was asked for, so it does after any events:
  -- each event that stops it also asks the main loop to quit, none stops it without, and none
  -- starts it again.
  pub handle_all-RunsUntilQuit :
      (events : List Event) (l : Listener F) → RunsUntilQuit l → RunsUntilQuit (handle_all events l)
  unfolding handle_all
  handle_all-RunsUntilQuit [] l h = h
  handle_all-RunsUntilQuit (e ∷ events) l h =
      handle_all-RunsUntilQuit events (handle e l) (handle-RunsUntilQuit e l h)
