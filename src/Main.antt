-- ===== src/Main.antt =====
-- `main` of native/okay-hermes-realtime-wake-listener.c with `install_signal_handlers`: what is
-- acquired and released, in order, and the exit status. The result of `self_test_output` is an
-- argument.
pub mod Cleanup
use okay_hermes_realtime.Base.{ℕ, Bool, true, false, not, ◌&&◌, List, [], ◌∷◌, ◌++◌, if◌then◌else◌}
use okay_hermes_realtime.Float.{Float}
use okay_hermes_realtime.Options.{ListenerOptions, Parsed, help_shown, invalid, parsed}

-- What `main` holds: PipeWire between `pw_init` and `pw_deinit`, the main loop, the storage of the
-- ring, the stream, and the worker thread between `pthread_create` and `pthread_join`.
pub data Resource : Type 0 where
  pipewire loop ring stream worker : Resource

pub data Action : Type 0 where
  acquire : Resource → Action
  release : Resource → Action
  -- `pw_main_loop_run`, during which the callbacks and the worker run
  run_loop : Action
  clear_status : Action
  destroy_model : Action
  destroy_options : Action

-- Which steps succeed, and whether a callback or the worker has set `failed` at the end.
pub record Steps : Type 0 where
  pub path_copied : Bool
  pub sigint : Bool
  pub sigterm : Bool
  pub loop : Bool
  pub ring : Bool
  pub properties : Bool
  pub stream : Bool
  pub connected : Bool
  pub worker : Bool
  pub failed : Bool

-- `install_signal_handlers() >= 0`
unfoldable pub install_signal_handlers : Steps → Bool
install_signal_handlers s = if s.sigint then s.sigterm else false

-- The labels of the clean-up, each with those behind it.
abbrev cleanup : List Action
cleanup = clear_status ∷ destroy_model ∷ destroy_options ∷ release pipewire ∷ []

abbrev cleanup_loop : List Action
cleanup_loop = release loop ∷ cleanup

abbrev cleanup_ring : List Action
cleanup_ring = release ring ∷ cleanup_loop

abbrev cleanup_stream : List Action
cleanup_stream = release stream ∷ cleanup_ring

-- From `pw_stream_connect` on, with the stream there.
unfoldable pub connect_and_run : Steps → ℕ × List Action
connect_and_run s =
    if not s.connected
    then (1, cleanup_stream)
    else if not s.worker
    then (1, cleanup_stream)
    else (if s.failed then 1 else 0, acquire worker ∷ run_loop ∷ release worker ∷ cleanup_stream)

-- From `stream_properties` on, with the ring there.
unfoldable pub open_stream : Steps → ℕ × List Action
open_stream s =
    if not s.properties
    then (1, cleanup_ring)
    else if not s.stream
    then (1, cleanup_ring)
    else (let (status, actions) = connect_and_run s in (status, acquire stream ∷ actions))

-- From `install_signal_handlers` on.
unfoldable pub start_loop : Steps → ℕ × List Action
start_loop s =
    if not (install_signal_handlers s)
    then (1, cleanup)
    else if not s.loop
    then (1, cleanup)
    else if not s.ring
    then (1, acquire loop ∷ cleanup_loop)
    else (let (status, actions) = open_stream s in (status, acquire loop ∷ acquire ring ∷ actions))

-- From `pw_init` on.
unfoldable pub listen : Steps → ℕ × List Action
listen s = let (status, actions) = start_loop s in (status, acquire pipewire ∷ actions)

-- `main`, from what `parse_options` gives; `self_test_ok` is the result of `self_test_output`.
unfoldable pub main : {F : Float} → Parsed F → Bool → Steps → ℕ × List Action
main help_shown self_test_ok s = (0, destroy_options ∷ [])
main invalid self_test_ok s = (2, destroy_options ∷ [])
main (parsed o) self_test_ok s =
    if o.self_test
    then (if self_test_ok then 0 else 1, destroy_options ∷ [])
    else if not s.path_copied
    then (1, destroy_options ∷ [])
    else listen s
