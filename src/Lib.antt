-- ===== src/Lib.antt =====
-- The wake listener of okay-hermes-realtime, its tray and the voice session that it opens, verified.
--
-- The listener is native/okay-hermes-realtime-wake-listener.c. PipeWire calls `on_process` with
-- captured audio, which is averaged to one channel, resampled to 16 kHz and written to a ring. A
-- worker thread takes the last three seconds out of the ring, scores them with an ONNX model and,
-- after enough hits in a row, archives the window and reports an activation. It also keeps a
-- status file for the health of the capture. Signals and stream states stop the program. The
-- activation goes to a handler, which asks the controller of the runtime for a voice session and
-- exits with how that ended; a tray shows the state of both services and starts and stops them.
--
-- Files and the functions that they model:
--   Ring        `struct sample_ring`, `ring_init`, `ring_destroy`, `ring_write`,
--               `ring_snapshot_latest`. Ring/Inv relates a ring to the stream that was written to
--               it, Ring/Snapshot reads the stream back. Ring/Threads cuts `ring_write` and
--               `ring_snapshot_latest` into the accesses of two threads; Ring/Concurrent is about
--               every schedule of them.
--   Resample    `mix_and_resample_downmix`; Resample/Stream and Resample/Count specify its output.
--   Stream      `on_process`, `on_stream_param_changed`, `on_state_changed`,
--               `signal_request_stop` and the failing starts of `listener_worker`, as functions on
--               `struct listener_data`; Stream/Capture, Stream/Pipeline, Stream/Window and
--               Stream/Shutdown say what they do.
--   Worker      `listener_worker`, one function for each part of a round of its loop, with what it
--               does to the outside as a list of effects; Worker/Sleep has
--               `sleep_worker_until_next_deadline`. Worker/Live is the same thread acting on the
--               system, with `monotonic_seconds`; Worker/Refinement relates the two.
--   Model       `struct wake_model`, `wake_model_init`, `wake_model_destroy`, `ort_status_check`,
--               `run_model`.
--   Numbers     `parse_unsigned`, `parse_float`, with `strtoul` for a 64-bit `unsigned long`.
--   Options     `parse_options`, `validate_existing_file`, `listener_options_destroy`.
--   Posix       the system calls, of which any may fail, and `write_all` (Posix/Write).
--   Storage     `ensure_parent_dir`, `write_capture_status`, `clear_capture_status`. Storage/Status
--               is about failing calls, Storage/Working about a system where none fails.
--   Wav         `write_activation_wav`, `put_u16_le`, `put_u32_le`; Wav/Format reads the file back,
--               Wav/Replace tells what is left of it when calls fail.
--   Activation  `build_activation_payload`, `write_activation`, `run_handler`, and in
--               Activation/Archive `archive_activation`; Activation/Metadata, Activation/Kept,
--               Activation/Handler and Activation/Payload are about what they leave behind and what
--               the reader gets. Activation/Child is the child that `run_handler` forks, up to its
--               `execv`.
--   SelfTest    `self_test_output`; SelfTest/Frames and SelfTest/Report say what it finds and sends.
--   Main        `main` and `install_signal_handlers`, as the order in which resources are acquired
--               and released, with the exit status; Main/Cleanup is about that order.
--   Tray        native/realtime-tray/tray_state.h: the state that the tray shows and the object
--               path of a unit. The rest is `TrayController` of native/realtime-tray/main.cpp:
--               Tray/Controller has the menu and the commands to systemd, Tray/Watchers the signals
--               of systemd, Tray/Files the status files and the audio server, Tray/Application the
--               handlers that go over several of these. Tray/Commands, Tray/Connections,
--               Tray/Retry, Tray/Reading and Tray/Running are about them.
--   Session     what an activation starts, in src/realtime_action_spike: Session/State the phases of
--               runtime/session_state.py, Session/Tokens the launch tokens of runtime/tokens.py,
--               Session/Controller and its children the methods of `VoiceSessionController` in
--               runtime/controller.py (Activate, Messages, and in Teardown the hooks of a
--               teardown) on the state of Session/Data, Session/Coordinator the task of
--               runtime/teardown.py, and Session/Handler the way of the outcome back to the
--               listener, through runtime/activation_socket.py and activation_handler.py.
--               Session/Lifecycle has all calls of the controller as events. Session/Invariant,
--               Session/Moves and Session/Lifecycle/Outcome are about any sequence of them,
--               Session/Lifecycle/Slot about what others see of it, Session/Lifecycle/Liveness
--               about the teardown among them, Session/Startup about the startup deadline and
--               the tokens, Session/Observer about an observer that raises.
--   Descriptors what the operations of Storage, Wav, Activation and Worker leave open.
--   Float       the operations on `float` and `double` that the program uses, as parameters.
--   Base        Booleans, lists, bytes and integers that the other files share.
--   Tests       concrete inputs and runs.
--
-- The parts meet as in the source: `on_process` writes to the ring that `round` takes a snapshot
-- of, `round` calls the detector and emits the effects that `Worker/Live` carries out with
-- `Storage` and `Activation`, the handler that `Activation` starts reports how the session of
-- `Session` ended, the tray reads the status file that `Storage` writes, and `Options` gives the
-- threshold and the counts that the worker uses.
--
-- Bounds and fuel. `unsigned int` and `size_t` computations keep their wrap-around (2 ^ 32 and 2 ^
-- 64). The inner loop of the resampler runs on fuel, with the value of the accumulator as fuel:
-- each round takes away at least 1. `write_all` makes a `write` again that is interrupted or takes
-- nothing. It is assumed that the system does not answer so for ever: a `Replies` of `Posix` comes
-- with a bound on how often in a row, and `write_all` runs on that many calls and one more for each
-- byte. Printing a number has twenty digits as fuel, enough below 2 ^ 64. All other loops are
-- structural.
--
-- What the C library, the system, PipeWire and ONNX Runtime do is a parameter: the numbers of
-- `Float`, the answers of the system in `Posix` and of ONNX Runtime in `Model`, there also whether
-- a failing `AllocatorFree` has released its object, and the environment of `Options`. So are the
-- session bus, Qt and PulseAudio in `Tray`. In the file system whatever is no directory counts as a
-- file. Between the two threads an access to an atomic or to a sample is one step, and all threads
-- see the steps in the same order. Messages on stderr are left out.
-- What runs under the lock of `VoiceSessionController` is one step, since it never waits there, and
-- the clock, the factories of identifiers and the launcher of the browser are arguments.
-- Not modelled: signals to the listener other than those that it handles, so that a write to a
-- pipe without a reader fails as with SIGPIPE ignored; `stream_properties` beyond its success, the
-- drawing of the tray's icon and the start of its Qt application; of the voice session, the traces,
-- the timelines of interruptions, the tasks that are kept only to be referred to, and what its
-- sockets and messages look like; and the rest of the repository in other languages.
pub mod Base
pub mod Float
pub mod Ring
pub mod Resample
pub mod SelfTest
pub mod Session
pub mod Descriptors
pub mod Posix
pub mod Storage
pub mod Numbers
pub mod Options
pub mod Worker
pub mod Stream
pub mod Model
pub mod Wav
pub mod Tray
pub mod Activation
pub mod Main
mod Tests
