-- ===== src/Tests/Watching.antt =====
-- Tests of what the tray connects, watches and reads.
use okay_hermes_realtime.Storage.Working.{IsWorking}
use okay_hermes_realtime.Base.{
  ℕ, ◌≡◌, refl, ◌⊎◌, Bool, true, false, some, List, [], ◌∷◌, ◌++◌, arith, ltb, ◌==◌, if◌then◌else◌,
  Option, none,
}
use okay_hermes_realtime.Base.Bytes.{Bytes, bytes}
use okay_hermes_realtime.Options.{capture_status_suffix}
use okay_hermes_realtime.Storage.{newline, write_capture_status}
use okay_hermes_realtime.Tray.Watchers.{
  Signal, properties_changed, setup_systemd_watchers, retry_elapsed,
}
use okay_hermes_realtime.Tray.Retry.{
  Event, subscribe_answered, state_changed, retry, handle_all, unconnected, is_complete, IsWatching,
  setup_systemd_watchers-IsWatching, retry_elapsed-is_complete,
}
use okay_hermes_realtime.Tray.Files.{capture_health, capture_health_path}
use okay_hermes_realtime.Tray.Running
use okay_hermes_realtime.Tray.Application.{Desktop}
use okay_hermes_realtime.Tray.Reading.{
  IsPlain, health_of, write_capture_status-capture_health,
  write_capture_status-capture_status_suffix, capture_health-write_capture_status,
}
use okay_hermes_realtime.Tests.{good, host}

abbrev is_plain_letter : ℕ → Bool
is_plain_letter c = ltb 96 c

-- A bus that knows the manager and no unit, and one that accepts everything.
abbrev manager_only : Signal → Bool
manager_only (properties_changed path) = false
manager_only signal = true

abbrev all_signals : Signal → Bool
all_signals signal = true

abbrev events : List Event
events = subscribe_answered false ∷ state_changed manager_only ∷ retry all_signals ∷ []

setup_systemd_watchers-IsWatching_example : IsWatching is_plain_letter (
    handle_all is_plain_letter events
      (setup_systemd_watchers is_plain_letter manager_only unconnected))
setup_systemd_watchers-IsWatching_example =
    setup_systemd_watchers-IsWatching is_plain_letter manager_only events

retry_completed :
    let s = setup_systemd_watchers is_plain_letter manager_only unconnected in
    (is_complete is_plain_letter (retry_elapsed is_plain_letter all_signals s) ≡ true)
    × ((retry_elapsed is_plain_letter all_signals s).retry_timer_active ≡ false)
retry_completed =
    retry_elapsed-is_complete is_plain_letter all_signals
      (setup_systemd_watchers is_plain_letter manager_only unconnected) (λ signal. refl)

-- What stands before the first newline.
unfoldable first_line : Bytes → Bytes
first_line [] = []
first_line (c ∷ cs) = if c == newline then [] else c ∷ first_line cs

first_line_lem : (text : Bytes) → IsPlain text → first_line (text ++ (newline ∷ [])) ≡ text
unfolding first_line
first_line_lem [] plain = refl
first_line_lem (c ∷ cs) (low, high, plain) = ground (arith, first_line_lem cs plain)

healthy-IsPlain : IsPlain (bytes "healthy")
healthy-IsPlain = (
  omega arith,
  omega arith,
  (
    omega arith,
    omega arith,
    (
      omega arith,
      omega arith,
      (
        omega arith,
        omega arith,
        (omega arith, omega arith, (omega arith, omega arith, (omega arith, omega arith, tt))),
      ),
    ),
  ),
)

write_capture_status-capture_health_example :
    let read = λ (file : Bytes). file in
    let os' =
      (write_capture_status good
        (bytes "42")
        (capture_health_path (bytes "/home/me"))
        (some (bytes "healthy"))
        host).1 in
    (capture_health read first_line os'.files (bytes "/home/me")
      ≡ capture_health read first_line host.files (bytes "/home/me"))
    ⊎ (capture_health read first_line os'.files (bytes "/home/me") ≡ health_of (bytes "healthy"))
write_capture_status-capture_health_example =
    write_capture_status-capture_health (λ (file : Bytes). file) first_line (λ text plain. refl)
      first_line_lem good (bytes "42") (bytes "/home/me") (bytes "healthy") host healthy-IsPlain
      (omega arith) refl

good-IsWorking : IsWorking good
good-IsWorking t = refl

capture_health-write_capture_status_example :
    let read = λ (file : Bytes). file in
    let os' =
      (write_capture_status good
        (bytes "42")
        (capture_health_path (bytes "/home/me"))
        (some (bytes "healthy"))
        host).1 in
    capture_health read first_line os'.files (bytes "/home/me") ≡ health_of (bytes "healthy")
capture_health-write_capture_status_example =
    capture_health-write_capture_status (λ (file : Bytes). file) first_line (λ text plain. refl)
      first_line_lem good (bytes "42") (bytes "/home/me") (bytes "healthy") host healthy-IsPlain
      (omega arith) good-IsWorking (omega arith)

write_capture_status-capture_status_suffix_example :
    let read = λ (file : Bytes). file in
    let os' =
      (write_capture_status good
        (bytes "42")
        (bytes "/home/me" ++ capture_status_suffix)
        (some (bytes "healthy"))
        host).1 in
    capture_health read first_line os'.files (bytes "/home/me")
    ≡ capture_health read first_line host.files (bytes "/home/me")
write_capture_status-capture_status_suffix_example =
    write_capture_status-capture_status_suffix (λ (file : Bytes). file) first_line good (bytes "42")
      (bytes "/home/me") (bytes "healthy") host refl

abbrev desktop : Option ℕ → Desktop
desktop server = record {
  from_utf8 = λ file. file;
  trimmed = first_line;
  is_letter_or_number = is_plain_letter;
  home = bytes "/home/me";
  files = host.files;
  can_watch = λ path. true;
  context = some (record { is_ready = true; server = server; default_source = none });
  accepts = all_signals;
}
