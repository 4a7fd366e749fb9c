-- ===== src/Tray/Watchers.antt =====
-- What `TrayController` of native/realtime-tray/main.cpp subscribes to: the signals of systemd on the
-- session bus with the timer for another try, the status files, and the audio server. The bus
-- answers each `connect`; `is_letter_or_number` is Qt's.
use okay_hermes_realtime.Base.{
  ℕ, Bool, true, false, not, ◌&&◌, ◌||◌, List, [], ◌∷◌, ◌++◌, if◌then◌else◌,
}
use okay_hermes_realtime.Base.Bytes.{Bytes, bytes, bytes_eq}
use okay_hermes_realtime.Tray.{systemd_unit_object_path}

-- The signals of the manager, and `PropertiesChanged` at the path of a unit.
pub data Signal : Type 0 where
  job_removed unit_new unit_removed : Signal
  properties_changed : Bytes → Signal

-- The fields for systemd. `connections` lists the calls of `connect` that succeeded; the code keeps
-- it in the bus only.
pub record Watchers : Type 0 where
  pub job_removed_signal_connected : Bool
  pub unit_new_signal_connected : Bool
  pub unit_removed_signal_connected : Bool
  pub unit_signal_paths : List Bytes
  pub retry_timer_active : Bool
  pub connections : List Signal

-- `kControllerUnit` and `kWakewordUnit`
abbrev pub controller_service : Bytes
controller_service = bytes "okay-hermes-realtime-controller.service"

abbrev pub wakeword_service : Bytes
wakeword_service = bytes "okay-hermes-realtime-wakeword.service"

-- `QStringList::contains`
unfoldable pub contains : List Bytes → Bytes → Bool
contains [] path = false
contains (p ∷ paths) path = bytes_eq path p || contains paths path

-- `scheduleSystemdWatcherRetry`
abbrev pub schedule_systemd_watcher_retry : Watchers → Watchers
schedule_systemd_watcher_retry s =
    if not s.retry_timer_active then record s { retry_timer_active = true } else s

-- What follows the answer to "Subscribe".
unfoldable pub subscribe_finished : Bool → Watchers → Watchers
subscribe_finished valid s = if not valid then schedule_systemd_watcher_retry s else s

abbrev pub connect : Signal → Watchers → Watchers
connect signal s = record s { connections = s.connections ++ (signal ∷ []) }

module _ (is_letter_or_number : ℕ → Bool) (accepts : Signal → Bool) where
  -- The three blocks `if (!…Connected) …Connected = bus.connect(…)`
  unfoldable pub connect_job_removed : Watchers → Watchers
  connect_job_removed s =
      if s.job_removed_signal_connected
      then s
      else if accepts job_removed
      then connect job_removed (record s { job_removed_signal_connected = true })
      else s

  unfoldable pub connect_unit_new : Watchers → Watchers
  connect_unit_new s =
      if s.unit_new_signal_connected
      then s
      else if accepts unit_new
      then connect unit_new (record s { unit_new_signal_connected = true })
      else s

  unfoldable pub connect_unit_removed : Watchers → Watchers
  connect_unit_removed s =
      if s.unit_removed_signal_connected
      then s
      else if accepts unit_removed
      then connect unit_removed (record s { unit_removed_signal_connected = true })
      else s

  abbrev pub connect_manager : Watchers → Watchers
  connect_manager s = connect_unit_removed (connect_unit_new (connect_job_removed s))

  -- `connectUnitSignals(unit)`, by the path
  unfoldable pub connect_path : Bytes → Watchers → Bool × Watchers
  connect_path path s =
      if contains s.unit_signal_paths path
      then (true, s)
      else if accepts (properties_changed path)
      then (
        true,
        connect (properties_changed path)
            (record s { unit_signal_paths = s.unit_signal_paths ++ (path ∷ []) }),
      )
      else (false, s)

  abbrev pub connect_unit_signals : Bytes → Watchers → Bool × Watchers
  connect_unit_signals unit s = connect_path (systemd_unit_object_path is_letter_or_number unit) s

  -- Both units, and whether both are connected.
  unfoldable pub connect_units : Watchers → Bool × Watchers
  unfolding connect_path
  connect_units s =
      let (controller, s') = connect_unit_signals controller_service s in
      let (wakeword, s'') = connect_unit_signals wakeword_service s' in
      (wakeword && controller, s'')

  -- `setupSystemdWatchers`, beside the call of "Subscribe"
  unfoldable pub setup_systemd_watchers : Watchers → Watchers
  setup_systemd_watchers s =
      let m = connect_manager s in
      let manager =
        m.job_removed_signal_connected && m.unit_new_signal_connected
        && m.unit_removed_signal_connected in
      let (units, s') = connect_units m in
      if not (units && manager)
      then schedule_systemd_watcher_retry s'
      else record s' { retry_timer_active = false }

  -- `systemdStateChanged`, up to `requestUnitStates()`
  unfoldable pub systemd_state_changed : Watchers → Watchers
  systemd_state_changed s =
      let (connected, s') = connect_units s in
      if not connected then schedule_systemd_watcher_retry s' else s'

  -- The timer has a single shot, and calls `setupSystemdWatchers`.
  unfoldable pub retry_elapsed : Watchers → Watchers
  retry_elapsed s = setup_systemd_watchers (record s { retry_timer_active = false })
