-- ===== src/Tray/Once.antt =====
-- No handler connects a signal of systemd twice.
use okay_hermes_realtime.Base.{ℕ, ◌≡◌, refl, Bool, true, false, ◌&&◌, Bool-cases, inl, inr}
use okay_hermes_realtime.Tray.Watchers.{
  Signal, Watchers, connect_manager, connect_units, schedule_systemd_watcher_retry,
  subscribe_finished, setup_systemd_watchers, systemd_state_changed, job_removed, unit_new,
  unit_removed, properties_changed,
}
use okay_hermes_realtime.Tray.Connections.{
  IsOnce, is_connected, connect_manager-IsOnce, connect_units-IsOnce,
}

-- The timer says nothing about connections.
is_connected_timer :
    (s : Watchers) (active : Bool) (q : Signal)
    → is_connected (record s { retry_timer_active = active }) q ≡ is_connected s q
is_connected_timer s active job_removed = refl
is_connected_timer s active unit_new = refl
is_connected_timer s active unit_removed = refl
is_connected_timer s active (properties_changed path) = refl

pub timer_IsOnce :
    (s : Watchers) (active : Bool) → IsOnce s → IsOnce (record s { retry_timer_active = active })
timer_IsOnce s active once q = rw (is_connected_timer s active q) (once q)

schedule_systemd_watcher_retry-IsOnce :
    (s : Watchers) → IsOnce s → IsOnce (schedule_systemd_watcher_retry s)
schedule_systemd_watcher_retry-IsOnce s once = elim (Bool-cases s.retry_timer_active) [
  | inl active ↦ rw active once
  | inr stopped ↦ rw stopped (timer_IsOnce s true once)
]

pub subscribe_finished-IsOnce :
    (valid : Bool) (s : Watchers) → IsOnce s → IsOnce (subscribe_finished valid s)
unfolding subscribe_finished
subscribe_finished-IsOnce true s once = once
subscribe_finished-IsOnce false s once = schedule_systemd_watcher_retry-IsOnce s once

module _ (is_letter_or_number : ℕ → Bool) where
  pub setup_systemd_watchers-IsOnce :
      (accepts : Signal → Bool) (s : Watchers)
      → IsOnce s
      → IsOnce (setup_systemd_watchers is_letter_or_number accepts s)
  unfolding setup_systemd_watchers
  setup_systemd_watchers-IsOnce accepts s once =
      let m = connect_manager is_letter_or_number accepts s in
      let s' = (connect_units is_letter_or_number accepts m).1 in
      let once' : IsOnce s' =
        connect_units-IsOnce is_letter_or_number accepts m
          (connect_manager-IsOnce is_letter_or_number accepts s once) in
      elim (Bool-cases (
        (connect_units is_letter_or_number accepts m).0
        && (m.job_removed_signal_connected && m.unit_new_signal_connected
            && m.unit_removed_signal_connected))) [
              | inl all ↦ rw all (timer_IsOnce s' false once')
              | inr missing ↦ rw missing (schedule_systemd_watcher_retry-IsOnce s' once')
            ]

  pub systemd_state_changed-IsOnce :
      (accepts : Signal → Bool) (s : Watchers)
      → IsOnce s
      → IsOnce (systemd_state_changed is_letter_or_number accepts s)
  unfolding systemd_state_changed
  systemd_state_changed-IsOnce accepts s once =
      let once' = connect_units-IsOnce is_letter_or_number accepts s once in
      elim (Bool-cases (connect_units is_letter_or_number accepts s).0) [
        | inl all ↦ rw all once'
        | inr missing ↦ rw missing (schedule_systemd_watcher_retry-IsOnce _ once')
      ]
