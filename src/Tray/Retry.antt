-- ===== src/Tray/Retry.antt =====
-- As long as a signal of systemd is not connected, another try is due.
use okay_hermes_realtime.Base.{ℕ, ◌≡◌, refl, ◌∙◌, Bool, true, false, ◌&&◌, List, [], ◌∷◌, arith}
use okay_hermes_realtime.Tray.{systemd_unit_object_path}
use okay_hermes_realtime.Tray.Watchers.{
  Signal, Watchers, contains, connect_job_removed, connect_unit_new, connect_unit_removed,
  connect_manager, connect_path, connect_units, controller_service, wakeword_service,
  subscribe_finished, setup_systemd_watchers, systemd_state_changed, retry_elapsed, job_removed,
  unit_new, unit_removed, properties_changed,
}
use okay_hermes_realtime.Tray.Connections.{
  IsOnce, times, connect_path-flags, connect_path-contains, connect_path-keeps, connect_path-true,
}
use okay_hermes_realtime.Tray.Once.{
  timer_IsOnce, subscribe_finished-IsOnce, setup_systemd_watchers-IsOnce,
  systemd_state_changed-IsOnce,
}

-- What happens to the watchers, with the answers of the bus then.
pub data Event : Type 0 where
  subscribe_answered : Bool → Event
  state_changed : (Signal → Bool) → Event
  retry : (Signal → Bool) → Event

unfoldable pub handle : (ℕ → Bool) → Event → Watchers → Watchers
handle is_letter_or_number (subscribe_answered valid) s = subscribe_finished valid s
handle is_letter_or_number (state_changed accepts) s =
    systemd_state_changed is_letter_or_number accepts s
handle is_letter_or_number (retry accepts) s = retry_elapsed is_letter_or_number accepts s

unfoldable pub handle_all : (ℕ → Bool) → List Event → Watchers → Watchers
handle_all is_letter_or_number [] s = s
handle_all is_letter_or_number (e ∷ events) s =
    handle_all is_letter_or_number events (handle is_letter_or_number e s)

-- All three signals of the manager and both units.
abbrev pub is_complete : (ℕ → Bool) → Watchers → Bool
is_complete is_letter_or_number s =
    s.job_removed_signal_connected
    && s.unit_new_signal_connected
    && s.unit_removed_signal_connected
    && contains s.unit_signal_paths
        (systemd_unit_object_path is_letter_or_number controller_service)
    && contains s.unit_signal_paths (systemd_unit_object_path is_letter_or_number wakeword_service)

-- Each signal is connected at most once, and a try is due until all are.
pub record IsWatching (is_letter_or_number : ℕ → Bool) (s : Watchers) : Type 0 where
  pub once : IsOnce s
  pub due : is_complete is_letter_or_number s ≡ false → s.retry_timer_active ≡ true

-- The fields before the constructor's call.
abbrev pub unconnected : Watchers
unconnected = record {
  job_removed_signal_connected = false;
  unit_new_signal_connected = false;
  unit_removed_signal_connected = false;
  unit_signal_paths = [];
  retry_timer_active = false;
  connections = [];
}

unconnected-IsOnce : IsOnce unconnected
unfolding times contains
unconnected-IsOnce job_removed = refl
unconnected-IsOnce unit_new = refl
unconnected-IsOnce unit_removed = refl
unconnected-IsOnce (properties_changed path) = refl

module _ (is_letter_or_number : ℕ → Bool) where
  -- What `connect_units` tells and leaves alone.
  record Units (accepts : Signal → Bool) (s : Watchers) (result : Bool × Watchers) : Type 0 where
    told :
        result.0 ≡ true
        → (contains result.1.unit_signal_paths
              (systemd_unit_object_path is_letter_or_number controller_service)
            ≡ true)
          × (contains result.1.unit_signal_paths
                (systemd_unit_object_path is_letter_or_number wakeword_service)
              ≡ true)
    accepted : ((signal : Signal) → accepts signal ≡ true) → result.0 ≡ true
    job_removed : result.1.job_removed_signal_connected ≡ s.job_removed_signal_connected
    unit_new : result.1.unit_new_signal_connected ≡ s.unit_new_signal_connected
    unit_removed : result.1.unit_removed_signal_connected ≡ s.unit_removed_signal_connected
    timer : result.1.retry_timer_active ≡ s.retry_timer_active

  connect_units-Units :
      (accepts : Signal → Bool) (s : Watchers)
      → Units accepts s (connect_units is_letter_or_number accepts s)
  unfolding connect_units
  connect_units-Units accepts s =
      let p = systemd_unit_object_path is_letter_or_number controller_service in
      let q = systemd_unit_object_path is_letter_or_number wakeword_service in
      let first = connect_path is_letter_or_number accepts p s in
      let (a, b, c, d) = connect_path-flags is_letter_or_number accepts p s in
      let (a', b', c', d') = connect_path-flags is_letter_or_number accepts q first.1 in
      record {
        told = λ e. (
          connect_path-keeps is_letter_or_number accepts q p first.1
              (ground (arith, e, connect_path-contains is_letter_or_number accepts p s)),
          ground (arith, e, connect_path-contains is_letter_or_number accepts q first.1),
        );
        accepted = λ all. ground (
          arith,
          connect_path-true is_letter_or_number accepts p s all,
          connect_path-true is_letter_or_number accepts q first.1 all,
        );
        job_removed = a' ∙ a;
        unit_new = b' ∙ b;
        unit_removed = c' ∙ c;
        timer = d' ∙ d;
      }

  setup_systemd_watchers_due :
      (accepts : Signal → Bool) (s : Watchers)
      → is_complete is_letter_or_number (setup_systemd_watchers is_letter_or_number accepts s)
        ≡ false
      → (setup_systemd_watchers is_letter_or_number accepts s).retry_timer_active ≡ true
  unfolding setup_systemd_watchers
  setup_systemd_watchers_due accepts s =
      let u = connect_units-Units accepts (connect_manager is_letter_or_number accepts s) in
      ground (arith, u.told, u.job_removed, u.unit_new, u.unit_removed)

  systemd_state_changed_due :
      (accepts : Signal → Bool) (s : Watchers)
      → (is_complete is_letter_or_number s ≡ false → s.retry_timer_active ≡ true)
      → is_complete is_letter_or_number (systemd_state_changed is_letter_or_number accepts s)
        ≡ false
      → (systemd_state_changed is_letter_or_number accepts s).retry_timer_active ≡ true
  unfolding systemd_state_changed
  systemd_state_changed_due accepts s due missing =
      let u = connect_units-Units accepts s in
      ground (arith, u.told, u.job_removed, u.unit_new, u.unit_removed, u.timer, due, missing)

  handle-IsWatching :
      (e : Event) (s : Watchers)
      → IsWatching is_letter_or_number s
      → IsWatching is_letter_or_number (handle is_letter_or_number e s)
  unfolding handle subscribe_finished retry_elapsed
  handle-IsWatching (subscribe_answered valid) s w = record {
    once = subscribe_finished-IsOnce valid s w.once;
    due = ground (arith, w.due);
  }
  handle-IsWatching (state_changed accepts) s w = record {
    once = systemd_state_changed-IsOnce is_letter_or_number accepts s w.once;
    due = systemd_state_changed_due accepts s w.due;
  }
  handle-IsWatching (retry accepts) s w = record {
    once =
        setup_systemd_watchers-IsOnce is_letter_or_number accepts _ (timer_IsOnce s false w.once);
    due = setup_systemd_watchers_due accepts (record s { retry_timer_active = false });
  }

  handle_all-IsWatching :
      (events : List Event) (s : Watchers)
      → IsWatching is_letter_or_number s
      → IsWatching is_letter_or_number (handle_all is_letter_or_number events s)
  unfolding handle_all
  handle_all-IsWatching [] s w = w
  handle_all-IsWatching (e ∷ events) s w =
      handle_all-IsWatching events (handle is_letter_or_number e s) (handle-IsWatching e s w)

  -- From the constructor on, whatever the bus answers and in whatever order things happen: each
  -- signal has been connected exactly once if the fields say that it is connected and never
  -- otherwise, and as long as one of the five is not connected the timer for another try runs.
  pub setup_systemd_watchers-IsWatching :
      (accepts : Signal → Bool) (events : List Event)
      → IsWatching is_letter_or_number (
          handle_all is_letter_or_number events
            (setup_systemd_watchers is_letter_or_number accepts unconnected))
  setup_systemd_watchers-IsWatching accepts events =
      handle_all-IsWatching events (setup_systemd_watchers is_letter_or_number accepts unconnected)
        (record {
          once =
              setup_systemd_watchers-IsOnce is_letter_or_number accepts unconnected
                unconnected-IsOnce;
          due = setup_systemd_watchers_due accepts unconnected;
        })

  -- Once the bus accepts every signal, the next try connects all that was missing, whatever has been
  -- connected before, and stops the timer.
  pub retry_elapsed-is_complete :
      (accepts : Signal → Bool) (s : Watchers)
      → ((signal : Signal) → accepts signal ≡ true)
      → (is_complete is_letter_or_number (retry_elapsed is_letter_or_number accepts s) ≡ true)
        × ((retry_elapsed is_letter_or_number accepts s).retry_timer_active ≡ false)
  unfolding retry_elapsed setup_systemd_watchers connect_job_removed connect_unit_new
      connect_unit_removed
  retry_elapsed-is_complete accepts s all =
      let m =
        connect_manager is_letter_or_number accepts (record s { retry_timer_active = false }) in
      let u = connect_units-Units accepts m in
      ground (
        arith,
        u.told,
        u.accepted all,
        u.job_removed,
        u.unit_new,
        u.unit_removed,
        all job_removed,
        all unit_new,
        all unit_removed,
      )
