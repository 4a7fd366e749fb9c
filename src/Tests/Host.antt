-- ===== src/Tests/Host.antt =====
-- Tests of the options and of the files that the listener writes.
use okay_hermes_realtime.Base.{
  ℕ, ◌-◌, ◌≡◌, refl, true, false, some, [], ◌∷◌, ◌++◌, ltb, arith, if◌then◌else◌, ◌==◌, ◌%◌,
}
use okay_hermes_realtime.Base.Int.{pos}
use okay_hermes_realtime.Base.Bytes.{bytes, bytes_eq}
use okay_hermes_realtime.Posix.{
  Reply, Replies, accept, refuse, interrupted, advances_within, call, mkdir,
}
use okay_hermes_realtime.Posix.Write.{Outcome, write_all, write_loop, rounds, write_all-Outcome}
use okay_hermes_realtime.Storage.{
  slash, newline, status_tmp, mkdir_parents, mkdir_loop, before_last_slash, ensure_parent_dir,
  write_capture_status,
}
use okay_hermes_realtime.Storage.Parents.{Makes, ensure_parent_dir-Makes}
use okay_hermes_realtime.Storage.Status.{Tidy, Replaces, write_capture_status-atomic}
use okay_hermes_realtime.Numbers.{
  ulong_mod, parse_unsigned, parse_float, strtoul, skip_spaces, convert_signed, convert_digits,
  read_digits,
}
use okay_hermes_realtime.Numbers.Decimal.{decimal, parse_unsigned-decimal, parse_unsigned-minus}
use okay_hermes_realtime.Options.{
  ListenerOptions, Environment, parsed, defaults, parse_options, parse_loop, flag_of, check_options,
  default_health_path, validate_existing_file,
}
use okay_hermes_realtime.Options.Valid.{InRange, IsRunnable, parse_options-valid}
use okay_hermes_realtime.Options.Arguments.{command_line, parse_options-command_line}
use okay_hermes_realtime.Tests.{whole, good, host, status_path}

-- The third and every later call fails.
abbrev third_fails : ℕ → Reply
third_fails n = if ltb n 2 then accept 2 else refuse

third_fails-advances : (t : ℕ) → advances_within third_fails 0 t ≡ true
unfolding advances_within
third_fails-advances t = ground arith

abbrev failing : Replies
failing = record { answer = third_fails; patience = 0; advances = third_fails-advances }

-- Of any three calls one takes a byte, one takes nothing and one is interrupted.
abbrev reluctant_answer : ℕ → Reply
reluctant_answer n = if n % 3 == 0 then accept 1 else if n % 3 == 1 then accept 0 else interrupted

reluctant-advances : (t : ℕ) → advances_within reluctant_answer 2 t ≡ true
unfolding advances_within
reluctant-advances t = ground arith

abbrev reluctant : Replies
reluctant = record { answer = reluctant_answer; patience = 2; advances = reluctant-advances }

write_all-Outcome_example : Outcome (bytes "hello") [] (write_all reluctant (bytes "hello") 0)
write_all-Outcome_example = write_all-Outcome reluctant (bytes "hello") 0

all_written :
    write_all reluctant (bytes "hello") 0
    ≡ some (record { complete = true; sink = bytes "hello"; next_call = 13 })
unfolding write_all write_loop rounds
all_written = refl

parents_of_status : before_last_slash status_path ≡ some (bytes "/s/a")
unfolding before_last_slash
parents_of_status = refl

parents_made : (ensure_parent_dir good (some status_path) host).0 ≡ true
unfolding ensure_parent_dir mkdir_parents mkdir_loop mkdir call before_last_slash
parents_made = refl

ensure_parent_dir-Makes_example :
    Makes
      (slash ∷ [])
      (bytes "s/a")
      host.files
      (ensure_parent_dir good (some status_path) host).1.directories
ensure_parent_dir-Makes_example =
    ensure_parent_dir-Makes good status_path (bytes "s/a") slash host (omega arith)
      parents_of_status parents_made

write_capture_status-atomic_example :
    let os' =
      (write_capture_status failing (bytes "42") status_path (some (bytes "healthy")) host).1 in
    Replaces status_path
      (status_tmp (bytes "42") status_path)
      (bytes "healthy" ++ (newline ∷ []))
      host
      os'
    × Tidy host os'
write_capture_status-atomic_example =
    write_capture_status-atomic failing (bytes "42") status_path (bytes "healthy") host refl

parse_250 : parse_unsigned (bytes " +250") ≡ some 250
unfolding parse_unsigned strtoul skip_spaces convert_signed convert_digits read_digits
parse_250 = refl

parse_unsigned-decimal_example : parse_unsigned (decimal 250) ≡ some 250
parse_unsigned-decimal_example = parse_unsigned-decimal 250 (omega arith) (omega arith)

parse_unsigned-minus_example : parse_unsigned (b'-' ∷ decimal (ulong_mod - 2)) ≡ some 2
parse_unsigned-minus_example = parse_unsigned-minus 2 (omega arith) (omega arith)

-- A home with one model; `strtof` takes every text for 1.
abbrev pub home : Environment whole
home = record {
  readable = λ path. bytes_eq path (bytes "/m");
  found = λ path. bytes_eq path (bytes "/m");
  regular = λ path. true;
  home = some (bytes "/h");
  allocated = true;
  strtof = λ text. record { value = pos 1; moved = true; rest = []; range_error = false };
  default_threshold = pos 1;
}

abbrev pub with_model : ListenerOptions whole
with_model = record (defaults whole home) {
  model_path = some (bytes "/m");
  capture_health_path = some (bytes "/h/.local/state/okay-hermes-realtime/capture.status");
}

parse_with_model : parse_options whole home (bytes "--model" ∷ bytes "/m" ∷ []) ≡ parsed with_model
unfolding parse_options parse_loop flag_of check_options default_health_path validate_existing_file
    bytes_eq
parse_with_model = refl

parse_options-valid_example : InRange whole with_model × IsRunnable whole home with_model
parse_options-valid_example =
    parse_options-valid whole home (bytes "--model" ∷ bytes "/m" ∷ []) with_model
      (record { finite = refl; not_below = refl; not_above = refl }) parse_with_model

model_exists : validate_existing_file whole home (some (bytes "/m")) ≡ true
unfolding validate_existing_file bytes_eq
model_exists = refl

takes_threshold : parse_float whole home.strtof (bytes "1") ≡ some (pos 1)
unfolding parse_float
takes_threshold = refl

parse_options-command_line_example :
    parse_options whole home (
      command_line
        (bytes "/m")
        (bytes "/st")
        (bytes "/d")
        (bytes "1")
        3
        500
        (bytes "say" ∷ bytes "--model" ∷ []))
    ≡ parsed (record {
      model_path = some (bytes "/m");
      capture_health_path = some (bytes "/st");
      activation_archive_dir = some (bytes "/d");
      handler_argv = some (bytes "say" ∷ bytes "--model" ∷ []);
      handler_argc = 2;
      threshold = pos 1;
      consecutive_windows = 3;
      inference_interval_ms = 500;
      self_test = false;
    })
parse_options-command_line_example =
    parse_options-command_line whole home (bytes "/m") (bytes "/st") (bytes "/d") (bytes "1") 3 500
      (bytes "say" ∷ bytes "--model" ∷ []) (pos 1) refl model_exists refl takes_threshold
      (omega arith) (omega arith) (omega arith) (omega arith)
