-- ===== src/Tray/Files.antt =====
-- What `TrayController` of native/realtime-tray/main.cpp reads: the status files, which it also
-- watches, and the audio server. Reading in text mode and as UTF-8, `trimmed`, the calls of
-- `QFileSystemWatcher::addPath` and PulseAudioQt are Qt's and parameters.
use okay_hermes_realtime.Base.{
  ℕ, Bool, true, false, not, ◌&&◌, Option, none, some, List, [], ◌∷◌, ◌++◌, ◌==◌, if◌then◌else◌,
  take,
}
use okay_hermes_realtime.Base.Bytes.{Bytes, bytes, bytes_eq}
use okay_hermes_realtime.Tray.{
  CaptureHealth, ControllerHealth, capture_health_from_status_text,
  controller_health_from_status_text,
}
use okay_hermes_realtime.Tray.Watchers.{contains}

-- `stateRootPath`, `captureHealthPath` and `controllerHealthPath`, in the directory `home`.
abbrev pub state_root_path : Bytes → Bytes
state_root_path home = home ++ bytes "/.local/state/okay-hermes-realtime"

abbrev pub capture_health_path : Bytes → Bytes
capture_health_path home = state_root_path home ++ bytes "/capture-health"

abbrev pub controller_health_path : Bytes → Bytes
controller_health_path home = state_root_path home ++ bytes "/controller-health"

-- `readStatusFile(path)`, by what the file holds.
abbrev pub text_of : (Bytes → Bytes) → Option Bytes → Bytes
text_of from_utf8 none = []
text_of from_utf8 (some content) = from_utf8 (take 128 content)

module _ (from_utf8 trimmed : Bytes → Bytes) (files : Bytes → Option Bytes) where
  abbrev pub read_status_file : Bytes → Bytes
  read_status_file path = text_of from_utf8 (files path)

  -- `captureHealth` and `controllerHealth`
  abbrev pub capture_health : Bytes → CaptureHealth
  capture_health home =
      capture_health_from_status_text trimmed (read_status_file (capture_health_path home))

  abbrev pub controller_health : Bytes → ControllerHealth
  controller_health home =
      controller_health_from_status_text trimmed (read_status_file (controller_health_path home))

-- A `QFileSystemWatcher`.
pub record FileWatcher : Type 0 where
  pub directories : List Bytes
  pub files : List Bytes

-- `addPath` adds the path if the watcher accepts it.
abbrev pub add_path : (Bytes → Bool) → Bytes → List Bytes → List Bytes
add_path accepts path paths = if accepts path then paths ++ (path ∷ []) else paths

module _ (accepts is_there : Bytes → Bool) where
  -- `addWatch(watcher, directory, file)`
  unfoldable pub add_watch : Bytes → Bytes → FileWatcher → FileWatcher
  add_watch directory file watcher = record {
    directories =
        if not (contains watcher.directories directory)
        then add_path accepts directory watcher.directories
        else watcher.directories;
    files =
        if is_there file && not (contains watcher.files file)
        then add_path accepts file watcher.files
        else watcher.files;
  }

  -- `setupStateWatchers`, once the directory is made
  unfoldable pub setup_state_watchers :
      Bytes → FileWatcher × FileWatcher → FileWatcher × FileWatcher
  unfolding add_watch
  setup_state_watchers home (capture, controller) = (
    add_watch (state_root_path home) (capture_health_path home) capture,
    add_watch (state_root_path home) (controller_health_path home) controller,
  )

-- The default source of the server, as `pulseProperties` and `isVirtualDevice` tell it.
pub record Source : Type 0 where
  pub media_class : Bytes
  pub device_class : Bytes
  pub is_virtual_device : Bool

-- `PulseAudioQt::Context::instance()`: whether it is ready, its server, by number, and the default
-- source of that.
pub record Context : Type 0 where
  pub is_ready : Bool
  pub server : Option ℕ
  pub default_source : Option Source

abbrev pub is_microphone : Option Source → Bool
is_microphone none = false
is_microphone (some source) =
    bytes_eq source.media_class (bytes "Audio/Source")
    && not (bytes_eq source.device_class (bytes "monitor"))
    && not source.is_virtual_device

-- `microphoneAvailable`; `none` is no context
unfoldable pub microphone_available : Option Context → Bool
unfolding bytes_eq
microphone_available none = false
microphone_available (some context) = elim context.server [
  | none ↦ false
  | some server ↦ if not context.is_ready then false else is_microphone context.default_source
]

-- `watchedAudioServer` and the servers of its two connections.
pub record Audio : Type 0 where
  pub watched_audio_server : Option ℕ
  pub default_source_connection : Option ℕ
  pub server_updated_connection : Option ℕ

abbrev pub server_of : Option Context → Option ℕ
server_of none = none
server_of (some context) = if context.is_ready then context.server else none

abbrev pub is_same : Option ℕ → Option ℕ → Bool
is_same none none = true
is_same none (some b) = false
is_same (some a) none = false
is_same (some a) (some b) = a == b

-- `reconnectAudioServerSignals`
unfoldable pub reconnect_audio_server_signals : Option Context → Audio → Audio
reconnect_audio_server_signals context s =
    let server = server_of context in
    if is_same server s.watched_audio_server then s else record {
      watched_audio_server = server;
      default_source_connection = server;
      server_updated_connection = server;
    }
