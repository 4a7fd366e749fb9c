-- ===== src/Tray/Application.antt =====
-- The handlers of `TrayController` of native/realtime-tray/main.cpp that go over several of its
-- parts, and its constructor.
use okay_hermes_realtime.Base.{ℕ, Bool, true, false, Option, none, some, []}
use okay_hermes_realtime.Base.Bytes.{Bytes}
use okay_hermes_realtime.Tray.Controller.{Controller, Inputs, refresh_state, set_switching_state}
use okay_hermes_realtime.Tray.Watchers.{
  Signal, Watchers, setup_systemd_watchers, systemd_state_changed,
}
use okay_hermes_realtime.Tray.Files.{
  capture_health, controller_health, FileWatcher, setup_state_watchers, Context,
  microphone_available, Audio, reconnect_audio_server_signals,
}

-- What the tray finds around it when a handler runs: Qt's texts, the home directory, the files,
-- which paths can be watched, the audio context and the session bus.
pub record Desktop : Type 0 where
  pub from_utf8 : Bytes → Bytes
  pub trimmed : Bytes → Bytes
  pub is_letter_or_number : ℕ → Bool
  pub home : Bytes
  pub files : Bytes → Option Bytes
  pub can_watch : Bytes → Bool
  pub context : Option Context
  pub accepts : Signal → Bool

pub record Application : Type 0 where
  pub menu : Controller
  pub systemd : Watchers
  pub state_watchers : FileWatcher × FileWatcher
  pub audio : Audio

abbrev pub is_some : Option Bytes → Bool
is_some none = false
is_some (some content) = true

abbrev pub inputs : Desktop → Inputs
inputs d = record {
  microphone = microphone_available d.context;
  capture = capture_health d.from_utf8 d.trimmed d.files d.home;
  controller = controller_health d.from_utf8 d.trimmed d.files d.home;
}

-- `refreshState`
abbrev pub refresh : Desktop → Application → Application
refresh d a = record a { menu = refresh_state (inputs d) a.menu }

abbrev pub watch_files : Desktop → Application → Application
watch_files d a = record a {
  state_watchers =
      setup_state_watchers d.can_watch (λ path. is_some (d.files path)) d.home a.state_watchers;
}

-- `captureHealthChanged` and `controllerHealthChanged`
unfoldable pub health_changed : Desktop → Application → Application
health_changed d a = refresh d (watch_files d a)

-- `audioStateChanged`
unfoldable pub audio_state_changed : Desktop → Application → Application
audio_state_changed d a = refresh d a

-- The handler of `PulseAudioQt::Context::stateChanged`
unfoldable pub context_state_changed : Desktop → Application → Application
unfolding audio_state_changed
context_state_changed d a =
    audio_state_changed d (record a { audio = reconnect_audio_server_signals d.context a.audio })

-- `systemdJobRemoved`, `systemdUnitChanged` and `systemdPropertiesChanged`
unfoldable pub systemd_changed : Desktop → Application → Application
systemd_changed d a = record a {
  systemd = systemd_state_changed d.is_letter_or_number d.accepts a.systemd;
}

-- The members before the body of the constructor. The menu's actions are enabled.
abbrev pub members : Application
members = record {
  menu = record {
    controller_active = false;
    wakeword_active = false;
    command_in_flight = false;
    open_request_in_flight = false;
    turn_on = true;
    turn_off = true;
    open_voice_page = true;
    spinning = false;
    spinner_frame = 0;
    pending = none;
    calls = [];
    warnings = 0;
  };
  systemd = record {
    job_removed_signal_connected = false;
    unit_new_signal_connected = false;
    unit_removed_signal_connected = false;
    unit_signal_paths = [];
    retry_timer_active = false;
    connections = [];
  };
  state_watchers =
      (record { directories = []; files = [] }, record { directories = []; files = [] });
  audio = record {
    watched_audio_server = none;
    default_source_connection = none;
    server_updated_connection = none;
  };
}

-- The constructor, up to `refreshState` 150 ms later: the watchers, and the menu while it waits.
unfoldable pub construct : Desktop → Application
construct d =
    let watching = watch_files d members in
    record watching {
      audio = reconnect_audio_server_signals d.context watching.audio;
      systemd = setup_systemd_watchers d.is_letter_or_number d.accepts watching.systemd;
      menu = set_switching_state watching.menu;
    }
