-- ===== src/Tests/Program.antt =====
-- Tests of the end of the program and of the tray.
use okay_hermes_realtime.Tray.Commands.{
  Event, status_changed, turn_on_clicked, command_answered, turn_off_clicked, unit_answered,
  IsConsistent, handle_all, handle_all-IsConsistent,
}
use okay_hermes_realtime.Tray.Controller.{Controller, Inputs, controller_unit}
use okay_hermes_realtime.Base.{
  ℕ, ◌≡◌, refl, ◌↔◌, Bool, true, false, ◌&&◌, ◌||◌, some, [], leb, none, List, ◌∷◌,
}
use okay_hermes_realtime.Base.Bytes.{bytes}
use okay_hermes_realtime.Options.{parsed}
use okay_hermes_realtime.Main.{Steps, main}
use okay_hermes_realtime.Main.Cleanup.{held_after, count_options, main-held_after, main_status}
use okay_hermes_realtime.Tray.{
  CaptureHealth, ControllerHealth, state_from_inputs, is_ready, is_active, systemd_unit_object_path,
  escape, escape_code, hex_from,
}
use okay_hermes_realtime.Tray.State.{is_listening, state_from_inputs-is_listening}
use okay_hermes_realtime.Tests.Host.{with_model}

-- The stream cannot be connected.
abbrev unconnected_steps : Steps
unconnected_steps = record {
  path_copied = true;
  sigint = true;
  sigterm = true;
  loop = true;
  ring = true;
  properties = true;
  stream = true;
  connected = false;
  worker = true;
  failed = false;
}

main-held_after_example :
    let actions = (main (parsed with_model) true unconnected_steps).1 in
    (held_after [] actions ≡ some []) × (count_options actions ≡ 1)
main-held_after_example = main-held_after (parsed with_model) true unconnected_steps

unconnected_exit_status : (main (parsed with_model) true unconnected_steps).0 ≡ 1
unconnected_exit_status = main_status (parsed with_model) true unconnected_steps

listening_shown :
    (is_listening (state_from_inputs true CaptureHealth.healthy false false ControllerHealth.ready)
      ≡ true)
    ↔ ((true ≡ true)
        × (CaptureHealth.healthy ≡ CaptureHealth.healthy)
        × (is_ready ControllerHealth.ready || is_active ControllerHealth.ready ≡ true)
        × (false ≡ false))
listening_shown =
    state_from_inputs-is_listening true false false CaptureHealth.healthy ControllerHealth.ready

-- The letters and digits of ASCII.
abbrev is_alphanumeric : ℕ → Bool
is_alphanumeric c =
    (leb b'0' c && leb c b'9') || (leb b'A' c && leb c b'Z') || (leb b'a' c && leb c b'z')

path_of_unit :
    systemd_unit_object_path is_alphanumeric (bytes "a-b.service")
    ≡ bytes "/org/freedesktop/systemd1/unit/a_2db_2eservice"
unfolding systemd_unit_object_path escape escape_code hex_from
path_of_unit = refl

-- The tray as it starts.
abbrev at_start : Controller
at_start = record {
  controller_active = false;
  wakeword_active = false;
  command_in_flight = false;
  open_request_in_flight = false;
  turn_on = false;
  turn_off = false;
  open_voice_page = false;
  spinning = true;
  spinner_frame = 0;
  pending = none;
  calls = [];
  warnings = 0;
}

abbrev ready : Inputs
ready = record {
  microphone = true;
  capture = CaptureHealth.healthy;
  controller = ControllerHealth.ready;
}

-- Started, stopped meanwhile, and the second command refused.
abbrev clicks : List Event
clicks =
    status_changed ready
    ∷ turn_on_clicked ready
    ∷ command_answered true
    ∷ turn_off_clicked
    ∷ unit_answered ready controller_unit true
    ∷ command_answered false
    ∷ []

handle_all-IsConsistent_example : IsConsistent (handle_all clicks at_start)
handle_all-IsConsistent_example =
    handle_all-IsConsistent clicks at_start
      (record { waits = refl; blocked = λ b. (refl, refl); exclusive = refl })
