-- ===== src/Tray/Controller.antt =====
-- `TrayController` of native/realtime-tray/main.cpp: the menu and the commands to systemd. Each
-- handler is a step on the fields that it uses; answers of D-Bus and of the network arrive as
-- events.
use okay_hermes_realtime.Base.{
  ℕ, ◌+◌, Bool, true, false, not, ◌||◌, Option, none, some, List, [], ◌∷◌, ◌++◌, if◌then◌else◌,
}
use okay_hermes_realtime.Tray.{DaemonState, CaptureHealth, ControllerHealth, state_from_inputs}

pub data UnitName : Type 0 where
  controller_unit wakeword_unit : UnitName

pub data Method : Type 0 where
  start_unit stop_unit : Method

-- `pending` is the command that waits for its answer, with the units that follow; `calls` are the
-- commands sent so far, and `warnings` counts the messages.
pub record Controller : Type 0 where
  pub controller_active : Bool
  pub wakeword_active : Bool
  pub command_in_flight : Bool
  pub open_request_in_flight : Bool
  pub turn_on : Bool
  pub turn_off : Bool
  pub open_voice_page : Bool
  pub spinning : Bool
  pub spinner_frame : ℕ
  pub pending : Option (Method × List UnitName)
  pub calls : List (Method × UnitName)
  pub warnings : ℕ

-- What the controller reads when it refreshes: the microphone and the two status files.
pub record Inputs : Type 0 where
  pub microphone : Bool
  pub capture : CaptureHealth
  pub controller : ControllerHealth

abbrev pub any_controlled_unit_active : Controller → Bool
any_controlled_unit_active s = s.controller_active || s.wakeword_active

abbrev pub daemon_state : Inputs → Controller → DaemonState
daemon_state i s =
    state_from_inputs i.microphone i.capture s.controller_active s.wakeword_active i.controller

-- The cases of `refreshState`.
unfoldable pub show_state : Inputs → DaemonState → Controller → Controller
show_state i DaemonState.no_microphone s = record s {
  spinning = false;
  turn_on = false;
  turn_off = any_controlled_unit_active s;
  open_voice_page = s.controller_active;
}
show_state i DaemonState.error s = record s {
  spinning = false;
  turn_on = false;
  turn_off = any_controlled_unit_active s;
  open_voice_page = s.controller_active;
}
show_state i DaemonState.starting s = record s {
  turn_on = false;
  turn_off = false;
  open_voice_page = s.controller_active;
  spinning = true;
}
show_state i DaemonState.conversation_active s = record s {
  spinning = false;
  turn_on = false;
  turn_off = true;
  open_voice_page = false;
}
show_state i DaemonState.on s = record s {
  spinning = false;
  turn_on = false;
  turn_off = true;
  open_voice_page = true;
}
show_state i DaemonState.off s = record s {
  spinning = false;
  turn_on = i.microphone;
  turn_off = false;
  open_voice_page = false;
}

-- `refreshState`
unfoldable pub refresh_state : Inputs → Controller → Controller
refresh_state i s = if s.command_in_flight then s else show_state i (daemon_state i s) s

-- `setSwitchingState`
abbrev pub set_switching_state : Controller → Controller
set_switching_state s = record s {
  spinner_frame = 0;
  turn_on = false;
  turn_off = false;
  open_voice_page = false;
  spinning = true;
}

-- `runSystemdCommandAt`, with the units from `index` on.
unfoldable pub run_systemd_command_at : Method → List UnitName → Controller → Controller
run_systemd_command_at method [] s = record s { command_in_flight = false; pending = none }
run_systemd_command_at method (unit ∷ units) s = record s {
  pending = some (method, units);
  calls = s.calls ++ ((method, unit) ∷ []);
}

-- `runSystemdCommandsAsync`
unfoldable pub run_systemd_commands_async : Method → List UnitName → Controller → Controller
run_systemd_commands_async method units s =
    if s.command_in_flight
    then s
    else run_systemd_command_at method units (record s { command_in_flight = true })

-- What follows the answer to a command.
unfoldable pub command_finished : Bool → Controller → Controller
command_finished valid s = elim s.pending [
  | none ↦ s
  | some (method, units) ↦
      if valid
      then run_systemd_command_at method units s
      else record s { warnings = s.warnings + 1; command_in_flight = false; pending = none }
]

-- `startServices`
unfoldable pub start_services : Inputs → Controller → Controller
start_services i s =
    if not i.microphone
    then refresh_state i s
    else run_systemd_commands_async start_unit (controller_unit ∷ wakeword_unit ∷ [])
        (set_switching_state s)

-- `stopServices`
unfoldable pub stop_services : Controller → Controller
stop_services s =
    run_systemd_commands_async stop_unit (wakeword_unit ∷ controller_unit ∷ [])
      (set_switching_state s)

-- `openVoicePage`, and what follows the answer to its request.
unfoldable pub open_voice_page_clicked : Controller → Controller
open_voice_page_clicked s =
    if not s.controller_active || s.open_request_in_flight
    then s
    else record s { open_request_in_flight = true; open_voice_page = false }

unfoldable pub open_finished : Inputs → Bool → Controller → Controller
open_finished i ok s = refresh_state i (record s {
  warnings = if ok then s.warnings else s.warnings + 1;
  open_request_in_flight = false;
})

-- `setCachedUnitActive`
unfoldable pub set_cached_unit_active : UnitName → Bool → Controller → Controller
set_cached_unit_active controller_unit active s = record s { controller_active = active }
set_cached_unit_active wakeword_unit active s = record s { wakeword_active = active }

-- The answers of `requestUnitState` and `requestUnitActiveState`.
unfoldable pub unit_state_finished : Inputs → UnitName → Bool → Controller → Controller
unit_state_finished i unit active s = refresh_state i (set_cached_unit_active unit active s)

-- `advanceSpinner`
abbrev pub advance_spinner : Controller → Controller
advance_spinner s = record s { spinner_frame = s.spinner_frame + 1 }
