-- ===== src/Tray/Commands.antt =====
-- The menu and the commands agree with each other, whatever happens in whatever order.
use okay_hermes_realtime.Base.{
  ◌≡◌, refl, Bool, true, false, not, ◌&&◌, Option, none, some, List, [], ◌∷◌, ◌++◌, arith,
  if◌then◌else◌, append_assoc,
}
use okay_hermes_realtime.Tray.{DaemonState}
use okay_hermes_realtime.Tray.Controller.{
  UnitName, controller_unit, wakeword_unit, Method, start_unit, stop_unit, Controller, Inputs,
  daemon_state, show_state, refresh_state, set_switching_state, run_systemd_command_at,
  run_systemd_commands_async, command_finished, start_services, stop_services,
  open_voice_page_clicked, open_finished, set_cached_unit_active, unit_state_finished,
  advance_spinner,
}

-- What happens to the controller, with what it reads then.
pub data Event : Type 0 where
  turn_on_clicked : Inputs → Event
  turn_off_clicked : Event
  open_clicked : Event
  command_answered : Bool → Event
  open_answered : Inputs → Bool → Event
  unit_answered : Inputs → UnitName → Bool → Event
  status_changed : Inputs → Event
  timer : Event

unfoldable pub handle : Event → Controller → Controller
handle (turn_on_clicked i) s = start_services i s
handle turn_off_clicked s = stop_services s
handle open_clicked s = open_voice_page_clicked s
handle (command_answered valid) s = command_finished valid s
handle (open_answered i ok) s = open_finished i ok s
handle (unit_answered i unit active) s = unit_state_finished i unit active s
handle (status_changed i) s = refresh_state i s
handle timer s = advance_spinner s

unfoldable pub handle_all : List Event → Controller → Controller
handle_all [] s = s
handle_all (e ∷ events) s = handle_all events (handle e s)

abbrev pub is_waiting : Option (Method × List UnitName) → Bool
is_waiting none = false
is_waiting (some command) = true

-- A command is in flight exactly if an answer is awaited; meanwhile services can neither be started
-- nor stopped from the menu; and the menu never offers both.
pub record IsConsistent (s : Controller) : Type 0 where
  pub waits : s.command_in_flight ≡ is_waiting s.pending
  pub blocked : s.command_in_flight ≡ true → (s.turn_on ≡ false) × (s.turn_off ≡ false)
  pub exclusive : s.turn_on && s.turn_off ≡ false

show_state-IsConsistent :
    (i : Inputs) (state : DaemonState) (s : Controller)
    → IsConsistent s
    → s.command_in_flight ≡ false
    → IsConsistent (show_state i state s)
unfolding show_state
show_state-IsConsistent i DaemonState.no_microphone s c idle = ground arith
show_state-IsConsistent i DaemonState.error s c idle = ground arith
show_state-IsConsistent i DaemonState.starting s c idle = ground arith
show_state-IsConsistent i DaemonState.conversation_active s c idle = ground arith
show_state-IsConsistent i DaemonState.on s c idle = ground arith
show_state-IsConsistent i DaemonState.off s c idle = ground arith

refresh_state-IsConsistent :
    (i : Inputs) (s : Controller) → IsConsistent s → IsConsistent (refresh_state i s)
unfolding refresh_state
refresh_state-IsConsistent i s c = go s.command_in_flight refl
  where
    go :
        (busy : Bool)
        → s.command_in_flight ≡ busy
        → IsConsistent (if busy then s else show_state i (daemon_state i s) s)
    go true e = c
    go false idle = show_state-IsConsistent i (daemon_state i s) s c idle

run_systemd_commands_async-IsConsistent :
    (method : Method) (unit : UnitName) (units : List UnitName) (s : Controller)
    → IsConsistent s
    → s.turn_on ≡ false
    → s.turn_off ≡ false
    → IsConsistent (run_systemd_commands_async method (unit ∷ units) s)
unfolding run_systemd_commands_async run_systemd_command_at
run_systemd_commands_async-IsConsistent method unit units s c on off = ground arith

command_finished-IsConsistent :
    (valid : Bool) (s : Controller) → IsConsistent s → IsConsistent (command_finished valid s)
unfolding command_finished run_systemd_command_at
command_finished-IsConsistent valid s c = ground arith

open_voice_page_clicked-IsConsistent :
    (s : Controller) → IsConsistent s → IsConsistent (open_voice_page_clicked s)
unfolding open_voice_page_clicked
open_voice_page_clicked-IsConsistent s c = ground arith

set_cached_unit_active-IsConsistent :
    (unit : UnitName) (active : Bool) (s : Controller)
    → IsConsistent s
    → IsConsistent (set_cached_unit_active unit active s)
unfolding set_cached_unit_active
set_cached_unit_active-IsConsistent controller_unit active s c = record {
  waits = c.waits;
  blocked = c.blocked;
  exclusive = c.exclusive;
}
set_cached_unit_active-IsConsistent wakeword_unit active s c = record {
  waits = c.waits;
  blocked = c.blocked;
  exclusive = c.exclusive;
}

switching : (s : Controller) → IsConsistent s → IsConsistent (set_switching_state s)
switching s c = record { waits = c.waits; blocked = λ b. (refl, refl); exclusive = refl }

start_services-IsConsistent :
    (i : Inputs) (s : Controller) → IsConsistent s → IsConsistent (start_services i s)
unfolding start_services
start_services-IsConsistent i s c =
    either (not i.microphone) (refresh_state i s) _ (refresh_state-IsConsistent i s c) (
      run_systemd_commands_async-IsConsistent start_unit controller_unit (wakeword_unit ∷ [])
        (set_switching_state s) (switching s c) refl refl)
  where
    either :
        (b : Bool) (x y : Controller)
        → IsConsistent x
        → IsConsistent y
        → IsConsistent (if b then x else y)
    either true x y cx cy = cx
    either false x y cx cy = cy

handle-IsConsistent : (e : Event) (s : Controller) → IsConsistent s → IsConsistent (handle e s)
unfolding handle stop_services open_finished unit_state_finished
handle-IsConsistent (turn_on_clicked i) s c = start_services-IsConsistent i s c
handle-IsConsistent turn_off_clicked s c =
    run_systemd_commands_async-IsConsistent stop_unit wakeword_unit (controller_unit ∷ [])
      (set_switching_state s) (switching s c) refl refl
handle-IsConsistent open_clicked s c = open_voice_page_clicked-IsConsistent s c
handle-IsConsistent (command_answered valid) s c = command_finished-IsConsistent valid s c
handle-IsConsistent (open_answered i ok) s c =
    refresh_state-IsConsistent i _
      (record { waits = c.waits; blocked = c.blocked; exclusive = c.exclusive })
handle-IsConsistent (unit_answered i unit active) s c =
    refresh_state-IsConsistent i (set_cached_unit_active unit active s)
      (set_cached_unit_active-IsConsistent unit active s c)
handle-IsConsistent (status_changed i) s c = refresh_state-IsConsistent i s c
handle-IsConsistent timer s c = record {
  waits = c.waits;
  blocked = c.blocked;
  exclusive = c.exclusive;
}

-- Whatever is clicked and answered in whatever order, a consistent tray stays consistent: a
-- command is in flight exactly if an answer is awaited, meanwhile the menu offers neither to start
-- nor to stop the services, and it never offers both.
pub handle_all-IsConsistent :
    (events : List Event) (s : Controller) → IsConsistent s → IsConsistent (handle_all events s)
unfolding handle_all
handle_all-IsConsistent [] s c = c
handle_all-IsConsistent (e ∷ events) s c =
    handle_all-IsConsistent events (handle e s) (handle-IsConsistent e s c)

-- Started with a microphone and no command in flight, the services are started one after the
-- other: the wakeword service only after a valid answer for the controller. When both answers have
-- come, or an invalid first one and anything behind it, no command is in flight.
pub start_services-calls :
    (i : Inputs) (s : Controller) (first second : Bool)
    → i.microphone ≡ true
    → s.command_in_flight ≡ false
    → let s' = command_finished second (command_finished first (start_services i s)) in
      (s'.command_in_flight ≡ false)
      × (s'.calls
          ≡ s.calls
            ++ ((start_unit, controller_unit)
                ∷ (if first then (start_unit, wakeword_unit) ∷ [] else [])))
unfolding start_services run_systemd_commands_async run_systemd_command_at command_finished
start_services-calls i s true true there idle = rw (there, idle) (refl, append_assoc s.calls _ _)
start_services-calls i s true false there idle = rw (there, idle) (refl, append_assoc s.calls _ _)
start_services-calls i s false second there idle = rw (there, idle) (refl, refl)
