-- ===== src/Tray.antt =====
-- native/realtime-tray/tray_state.h: the state that the tray shows. A text is a list of UTF-16
-- code units, as QString holds it; Qt's `trimmed` and `isLetterOrNumber` are parameters.
pub mod State
pub mod Path
pub mod Controller
pub mod Commands
pub mod Watchers
pub mod Connections
pub mod Once
pub mod Retry
pub mod Files
pub mod Reading
pub mod Application
pub mod Running
use okay_hermes_realtime.Base.{
  ℕ, suc, zero, ◌+◌, ◌-◌, ◌/◌, ◌%◌, ◌≡◌, Bool, true, false, not, ◌&&◌, ◌||◌, List, [], ◌∷◌, ◌++◌,
  ltb, ◌==◌, if◌then◌else◌,
}
use okay_hermes_realtime.Base.Bytes.{Bytes, bytes, bytes_eq}

pub data DaemonState : Type 0 where
  off starting on conversation_active no_microphone error : DaemonState

pub data CaptureHealth : Type 0 where
  unknown healthy unhealthy : CaptureHealth

pub data ControllerHealth : Type 0 where
  unknown ready conversation_active error : ControllerHealth

-- `captureHealthFromStatusText`
unfoldable pub capture_health_from_status_text : (Bytes → Bytes) → Bytes → CaptureHealth
unfolding bytes_eq
capture_health_from_status_text trimmed text =
    let status = trimmed text in
    if bytes_eq status (bytes "healthy")
    then CaptureHealth.healthy
    else if bytes_eq status (bytes "unhealthy")
    then CaptureHealth.unhealthy
    else CaptureHealth.unknown

-- `controllerHealthFromStatusText`
unfoldable pub controller_health_from_status_text : (Bytes → Bytes) → Bytes → ControllerHealth
unfolding bytes_eq
controller_health_from_status_text trimmed text =
    let status = trimmed text in
    if bytes_eq status (bytes "ready")
    then ControllerHealth.ready
    else if bytes_eq status (bytes "conversation-active")
    then ControllerHealth.conversation_active
    else if bytes_eq status (bytes "error")
    then ControllerHealth.error
    else ControllerHealth.unknown

-- `==` on the two enumerations, as far as it is used.
abbrev pub is_healthy : CaptureHealth → Bool
is_healthy CaptureHealth.healthy = true
is_healthy _ = false

abbrev pub is_unhealthy : CaptureHealth → Bool
is_unhealthy CaptureHealth.unhealthy = true
is_unhealthy _ = false

abbrev pub is_ready : ControllerHealth → Bool
is_ready ControllerHealth.ready = true
is_ready _ = false

abbrev pub is_active : ControllerHealth → Bool
is_active ControllerHealth.conversation_active = true
is_active _ = false

abbrev pub is_error : ControllerHealth → Bool
is_error ControllerHealth.error = true
is_error _ = false

-- `stateFromInputs`
unfoldable pub state_from_inputs :
    Bool → CaptureHealth → Bool → Bool → ControllerHealth → DaemonState
state_from_inputs microphone_available capture controller_active wakeword_active controller =
    if not microphone_available
    then DaemonState.no_microphone
    else if (wakeword_active && is_unhealthy capture) || is_error controller
    then DaemonState.error
    else (let coherent_runtime_mode =
          (controller_active && wakeword_active)
          || (not controller_active && not wakeword_active) in
        if coherent_runtime_mode && is_healthy capture && is_active controller
        then DaemonState.conversation_active
        else if coherent_runtime_mode && is_healthy capture && is_ready controller
        then DaemonState.on
        else if not controller_active && not wakeword_active
        then DaemonState.off
        else if controller_active && not wakeword_active
        then DaemonState.no_microphone
        else DaemonState.starting)

-- A digit of `arg(n, 2, 16, '0')`.
abbrev pub hex_digit : ℕ → ℕ
hex_digit d = if ltb d 10 then b'0' + d else b'a' + (d - 10)

-- At least two hexadecimal digits, with rounds as fuel; four digits hold a code unit.
unfoldable pub hex_from : ℕ → ℕ → Bytes → Bytes
hex_from zero n more = hex_digit (n % 16) ∷ more
hex_from (suc fuel) n more =
    let rest = hex_from fuel (n / 16) (hex_digit (n % 16) ∷ more) in
    if ltb n 16 then hex_digit (n % 16) ∷ more else rest

unfoldable pub escape_code : ℕ → Bytes
escape_code n = if ltb n 16 then b'_' ∷ b'0' ∷ hex_from 3 n [] else b'_' ∷ hex_from 3 n []

unfoldable pub escape : (ℕ → Bool) → Bytes → Bytes
escape is_letter_or_number [] = []
escape is_letter_or_number (ch ∷ rest) =
    (if is_letter_or_number ch then ch ∷ [] else escape_code ch) ++ escape is_letter_or_number rest

-- `systemdUnitObjectPath`
unfoldable pub systemd_unit_object_path : (ℕ → Bool) → Bytes → Bytes
systemd_unit_object_path is_letter_or_number unit =
    bytes "/org/freedesktop/systemd1/unit/" ++ escape is_letter_or_number unit
