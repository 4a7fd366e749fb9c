-- ===== src/Tray/Connections.antt =====
-- Every signal of systemd is connected once, and never given up.
use okay_hermes_realtime.Base.{
  ℕ, ◌+◌, ◌≡◌, refl, sym, ◌∙◌, ap, ◌↔◌, Bool, true, false, ◌||◌, List, [], ◌∷◌, ◌++◌, arith,
  if◌then◌else◌, Bool-cases, inl, inr,
}
use okay_hermes_realtime.Base.Bytes.{Bytes, bytes_eq, bytes_eq_iff}
use okay_hermes_realtime.Tray.Watchers.{
  Signal, job_removed, unit_new, unit_removed, properties_changed, Watchers, contains, connect,
  connect_job_removed, connect_unit_new, connect_unit_removed, connect_path, connect_units,
  connect_manager,
}

-- The signals that the fields say are connected.
abbrev pub is_connected : Watchers → Signal → Bool
is_connected s job_removed = s.job_removed_signal_connected
is_connected s unit_new = s.unit_new_signal_connected
is_connected s unit_removed = s.unit_removed_signal_connected
is_connected s (properties_changed path) = contains s.unit_signal_paths path

abbrev same : Signal → Signal → Bool
same job_removed job_removed = true
same unit_new unit_new = true
same unit_removed unit_removed = true
same (properties_changed a) (properties_changed b) = bytes_eq a b
same _ _ = false

-- How often a signal has been connected.
unfoldable pub times : Signal → List Signal → ℕ
times signal [] = 0
times signal (c ∷ cs) = (if same signal c then 1 else 0) + times signal cs

same_iff : (a b : Signal) → (same a b ≡ true) ↔ (a ≡ b)
same_iff job_removed job_removed = (λ _. refl, λ _. refl)
same_iff job_removed unit_new = (λ h. cc, λ h. cc)
same_iff job_removed unit_removed = (λ h. cc, λ h. cc)
same_iff job_removed (properties_changed b) = (λ h. cc, λ h. cc)
same_iff unit_new job_removed = (λ h. cc, λ h. cc)
same_iff unit_new unit_new = (λ _. refl, λ _. refl)
same_iff unit_new unit_removed = (λ h. cc, λ h. cc)
same_iff unit_new (properties_changed b) = (λ h. cc, λ h. cc)
same_iff unit_removed job_removed = (λ h. cc, λ h. cc)
same_iff unit_removed unit_new = (λ h. cc, λ h. cc)
same_iff unit_removed unit_removed = (λ _. refl, λ _. refl)
same_iff unit_removed (properties_changed b) = (λ h. cc, λ h. cc)
same_iff (properties_changed a) job_removed = (λ h. cc, λ h. cc)
same_iff (properties_changed a) unit_new = (λ h. cc, λ h. cc)
same_iff (properties_changed a) unit_removed = (λ h. cc, λ h. cc)
same_iff (properties_changed a) (properties_changed b) =
    (λ h. ap properties_changed ((bytes_eq_iff a b).0 h), λ h. (bytes_eq_iff a b).1 (cc))

times-append :
    (q c : Signal) (cs : List Signal)
    → times q (cs ++ (c ∷ [])) ≡ times q cs + (if same q c then 1 else 0)
unfolding times
times-append q c [] = omega arith
times-append q c (x ∷ cs) = omega (arith, times-append q c cs)

contains-append :
    (path q : Bytes) (paths : List Bytes)
    → contains (paths ++ (path ∷ [])) q ≡ (bytes_eq q path || contains paths q)
unfolding contains
contains-append path q [] = refl
contains-append path q (p ∷ paths) = ground (arith, contains-append path q paths)

-- Each signal has been connected once if the fields say so, and otherwise not at all.
abbrev pub IsOnce : Watchers → Type 0
IsOnce s = (q : Signal) → times q s.connections ≡ (if is_connected s q then 1 else 0)

-- A signal that is not yet connected may be connected.
connect-IsOnce :
    (s s' : Watchers) (c : Signal)
    → IsOnce s
    → is_connected s c ≡ false
    → s'.connections ≡ s.connections ++ (c ∷ [])
    → ((q : Signal) → is_connected s' q ≡ (same q c || is_connected s q))
    → IsOnce s'
connect-IsOnce s s' c once unconnected e fields q =
    ap (times q) e ∙ times-append q c s.connections ∙ elim (Bool-cases (same q c)) [
      | inl itself ↦
          let gone : is_connected s q ≡ false =
            ap (is_connected s) ((same_iff q c).0 itself) ∙ unconnected in
          ground (arith, once q, fields q)
      | inr other ↦ ground (arith, once q, fields q)
    ]

-- The field of a signal, set when the signal has been connected.
abbrev mark : Signal → Watchers → Watchers
mark job_removed s = record s { job_removed_signal_connected = true }
mark unit_new s = record s { unit_new_signal_connected = true }
mark unit_removed s = record s { unit_removed_signal_connected = true }
mark (properties_changed path) s = record s {
  unit_signal_paths = s.unit_signal_paths ++ (path ∷ []);
}

is_connected-mark :
    (s : Watchers) (c q : Signal)
    → is_connected (connect c (mark c s)) q ≡ (same q c || is_connected s q)
is_connected-mark s job_removed job_removed = refl
is_connected-mark s job_removed unit_new = refl
is_connected-mark s job_removed unit_removed = refl
is_connected-mark s job_removed (properties_changed p) = refl
is_connected-mark s unit_new job_removed = refl
is_connected-mark s unit_new unit_new = refl
is_connected-mark s unit_new unit_removed = refl
is_connected-mark s unit_new (properties_changed p) = refl
is_connected-mark s unit_removed job_removed = refl
is_connected-mark s unit_removed unit_new = refl
is_connected-mark s unit_removed unit_removed = refl
is_connected-mark s unit_removed (properties_changed p) = refl
is_connected-mark s (properties_changed path) job_removed = refl
is_connected-mark s (properties_changed path) unit_new = refl
is_connected-mark s (properties_changed path) unit_removed = refl
is_connected-mark s (properties_changed path) (properties_changed p) =
    contains-append path p s.unit_signal_paths

-- One `if (!connected) connected = bus.connect(…)`.
connect_if-IsOnce :
    (s : Watchers) (c : Signal) (connected accepted : Bool)
    → connected ≡ is_connected s c
    → IsOnce s
    → IsOnce (if connected then s else if accepted then connect c (mark c s) else s)
connect_if-IsOnce s c true accepted known once = once
connect_if-IsOnce s c false true known once =
    connect-IsOnce s (connect c (mark c s)) c once (sym known)
      (elim c as (λ k. (connect k (mark k s)).connections ≡ s.connections ++ (k ∷ [])) [
        | job_removed ↦ refl
        | unit_new ↦ refl
        | unit_removed ↦ refl
        | properties_changed path ↦ refl
      ])
      (is_connected-mark s c)
connect_if-IsOnce s c false false known once = once

module _ (is_letter_or_number : ℕ → Bool) (accepts : Signal → Bool) where
  pub connect_manager-IsOnce :
      (s : Watchers) → IsOnce s → IsOnce (connect_manager is_letter_or_number accepts s)
  unfolding connect_job_removed connect_unit_new connect_unit_removed
  connect_manager-IsOnce s once = connect_if-IsOnce _ unit_removed _ (accepts unit_removed) refl (
      connect_if-IsOnce _ unit_new _ (accepts unit_new) refl (
        connect_if-IsOnce s job_removed s.job_removed_signal_connected (accepts job_removed) refl
          once))

  connect_path-IsOnce :
      (path : Bytes) (s : Watchers)
      → IsOnce s
      → IsOnce (connect_path is_letter_or_number accepts path s).1
  unfolding connect_path
  connect_path-IsOnce path s once =
      let new =
        connect_if-IsOnce s (properties_changed path) (contains s.unit_signal_paths path)
          (accepts (properties_changed path)) refl once in
      elim (Bool-cases (contains s.unit_signal_paths path)) [
        | inl there ↦ rw there once
        | inr absent ↦ rw absent (elim (Bool-cases (accepts (properties_changed path))) [
          | inl accepted ↦ rw accepted (rw (absent, accepted) at new)
          | inr refused ↦ rw refused once
        ])
      ]

  pub connect_units-IsOnce :
      (s : Watchers) → IsOnce s → IsOnce (connect_units is_letter_or_number accepts s).1
  unfolding connect_units
  connect_units-IsOnce s once = connect_path-IsOnce _ _ (connect_path-IsOnce _ s once)

  -- The flags of the manager's signals and the timer stay as they are.
  pub connect_path-flags :
      (path : Bytes) (s : Watchers)
      → let s' = (connect_path is_letter_or_number accepts path s).1 in
        (s'.job_removed_signal_connected ≡ s.job_removed_signal_connected)
        × (s'.unit_new_signal_connected ≡ s.unit_new_signal_connected)
        × (s'.unit_removed_signal_connected ≡ s.unit_removed_signal_connected)
        × (s'.retry_timer_active ≡ s.retry_timer_active)
  unfolding connect_path
  connect_path-flags path s = ground arith

  pub connect_path-contains :
      (path : Bytes) (s : Watchers)
      → (connect_path is_letter_or_number accepts path s).0
        ≡ contains (connect_path is_letter_or_number accepts path s).1.unit_signal_paths path
  unfolding connect_path
  connect_path-contains path s =
      ground (arith, contains-append path path s.unit_signal_paths, (bytes_eq_iff path path).1 refl)

  pub connect_path-keeps :
      (path q : Bytes) (s : Watchers)
      → contains s.unit_signal_paths q ≡ true
      → contains (connect_path is_letter_or_number accepts path s).1.unit_signal_paths q ≡ true
  unfolding connect_path
  connect_path-keeps path q s there = ground (arith, contains-append path q s.unit_signal_paths)

  pub connect_path-true :
      (path : Bytes) (s : Watchers)
      → ((signal : Signal) → accepts signal ≡ true)
      → (connect_path is_letter_or_number accepts path s).0 ≡ true
  unfolding connect_path
  connect_path-true path s all = ground (arith, all (properties_changed path))
