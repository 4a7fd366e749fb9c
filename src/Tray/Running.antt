-- ===== src/Tray/Running.antt =====
-- What holds of the whole tray, whatever happens around it.
use okay_hermes_realtime.Base.{◌≡◌, List, [], ◌∷◌}
use okay_hermes_realtime.Tray.Files.{Audio}
use okay_hermes_realtime.Tray.Application.{
  Desktop, Application, health_changed, audio_state_changed, context_state_changed, systemd_changed,
}

-- Both connections are to the watched server, and to none when none is watched.
pub record IsFollowing (a : Audio) : Type 0 where
  pub default_source : a.default_source_connection ≡ a.watched_audio_server
  pub updated : a.server_updated_connection ≡ a.watched_audio_server

-- What happens to the tray, with what it finds then.
pub data Event : Type 0 where
  health : Desktop → Event
  audio : Desktop → Event
  context : Desktop → Event
  systemd : Desktop → Event

unfoldable pub handle : Event → Application → Application
handle (health d) a = health_changed d a
handle (audio d) a = audio_state_changed d a
handle (context d) a = context_state_changed d a
handle (systemd d) a = systemd_changed d a

unfoldable pub handle_all : List Event → Application → Application
handle_all [] a = a
handle_all (e ∷ events) a = handle_all events (handle e a)
