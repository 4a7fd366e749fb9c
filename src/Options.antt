-- ===== src/Options.antt =====
-- `parse_options` of native/okay-hermes-realtime-wake-listener.c. The system's answers about
-- files, the environment and the allocator, and the C library's `strtof`, are parameters.
pub mod Valid
pub mod Arguments
use Prim.Native.String.{String}
use okay_hermes_realtime.Base.{
  ℕ, ◌+◌, Bool, true, false, not, ◌&&◌, ◌||◌, Option, none, some, List, [], ◌∷◌, ◌++◌, leb, ◌==◌,
  if◌then◌else◌, length,
}
use okay_hermes_realtime.Base.Bytes.{Bytes, bytes, bytes_eq}
use okay_hermes_realtime.Float.{Float}
use okay_hermes_realtime.Numbers.{Converted, is_empty, parse_float, parse_unsigned}

-- `struct listener_options`. The paths point into `argv` or into the buffer; `handler_argv` is the
-- array before its final NULL.
pub record ListenerOptions (F : Float) : Type 0 where
  pub model_path : Option Bytes
  pub capture_health_path : Option Bytes
  pub activation_archive_dir : Option Bytes
  pub handler_argv : Option (List Bytes)
  pub handler_argc : ℕ
  pub threshold : F.Value
  pub consecutive_windows : ℕ
  pub inference_interval_ms : ℕ
  pub self_test : Bool

-- `listener_options_destroy(options)`; the buffer is emptied, and no path points into it any more.
abbrev pub listener_options_destroy : {F : Float} → ListenerOptions F → ListenerOptions F
listener_options_destroy o = record o {
  handler_argv = none;
  handler_argc = 0;
  model_path = none;
  capture_health_path = none;
  activation_archive_dir = none;
}

-- What the process finds around it: `access(path, R_OK)`, `stat` and `S_ISREG`, the variable HOME,
-- and whether `calloc` has memory.
pub record Environment (F : Float) : Type 0 where
  pub readable : Bytes → Bool
  pub found : Bytes → Bool
  pub regular : Bytes → Bool
  pub home : Option Bytes
  pub allocated : Bool
  pub strtof : Bytes → Converted F.Value
  pub default_threshold : F.Value

-- The options by name, both spellings of two of them.
pub data Flag : Type 0 where
  help self_test model capture_health archive_dir handler threshold consecutive interval unknown :
      Flag

abbrev is : Bytes → String → Bool
is arg name = bytes_eq arg (bytes name)

unfoldable pub flag_of : Bytes → Flag
unfolding bytes_eq
flag_of arg =
    if is arg "--help"
    then Flag.help
    else if is arg "--self-test"
    then Flag.self_test
    else if is arg "--model"
    then Flag.model
    else if is arg "--capture-health"
    then Flag.capture_health
    else if is arg "--activation-archive-dir"
    then Flag.archive_dir
    else if is arg "--handler"
    then Flag.handler
    else if is arg "--threshold"
    then Flag.threshold
    else if is arg "--consecutive" || is arg "--consecutive-windows"
    then Flag.consecutive
    else if is arg "--inference-interval" || is arg "--inference-interval-ms"
    then Flag.interval
    else Flag.unknown

-- `parse_options` returns 1 for `--help`, -1 for an error, or 0 with the options.
pub data Parsed (F : Float) : Type 0 where
  help_shown : Parsed F
  invalid : Parsed F
  parsed : ListenerOptions F → Parsed F

abbrev pub capture_status_suffix : Bytes
capture_status_suffix = bytes "/.local/state/okay-hermes-realtime/capture.status"

abbrev pub is_missing : Option Bytes → Bool
is_missing none = true
is_missing (some path) = is_empty path

module _ (F : Float) (env : Environment F) where
  -- `validate_existing_file(path) >= 0`
  unfoldable pub validate_existing_file : Option Bytes → Bool
  validate_existing_file none = false
  validate_existing_file (some path) =
      not (is_empty path) && env.readable path && env.found path && env.regular path

  -- The default path of the capture status, below HOME.
  unfoldable pub default_health_path : ListenerOptions F → Parsed F
  default_health_path o = elim env.home [
    | none ↦ invalid
    | some home ↦
        if is_empty home || leb 4096 (length (home ++ capture_status_suffix))
        then invalid
        else parsed (record o { capture_health_path = some (home ++ capture_status_suffix) })
  ]

  -- What follows the loop over the arguments.
  unfoldable pub check_options : ListenerOptions F → Parsed F
  check_options o =
      if o.self_test
      then parsed o
      else if not (validate_existing_file o.model_path)
      then invalid
      else if is_missing o.capture_health_path
      then default_health_path o
      else parsed o

  -- `--handler -- COMMAND ARGS...` takes all that is left.
  unfoldable pub take_handler : ListenerOptions F → List Bytes → Parsed F
  take_handler o command =
      if env.allocated
      then check_options (record o { handler_argv = some command; handler_argc = length command })
      else invalid

  -- The loop over `argv[i..argc)`.
  unfoldable pub parse_loop : List Bytes → ListenerOptions F → Parsed F
  parse_loop [] o = check_options o
  parse_loop (arg ∷ []) o = elim (flag_of arg) [
    | Flag.help ↦ help_shown
    | Flag.self_test ↦ check_options (record o { self_test = true })
    | _ ↦ invalid
  ]
  parse_loop (arg ∷ value ∷ rest) o = elim (flag_of arg) [
    | Flag.help ↦ help_shown
    | Flag.self_test ↦ parse_loop (value ∷ rest) (record o { self_test = true })
    | Flag.model ↦ parse_loop rest (record o { model_path = some value })
    | Flag.capture_health ↦ parse_loop rest (record o { capture_health_path = some value })
    | Flag.archive_dir ↦ parse_loop rest (record o { activation_archive_dir = some value })
    | Flag.handler ↦
        let single =
          parse_loop rest (record o { handler_argv = some (value ∷ []); handler_argc = 1 }) in
        if bytes_eq value (bytes "--")
        then take_handler o rest
        else if env.allocated
        then single
        else invalid
    | Flag.threshold ↦ elim (parse_float F env.strtof value) [
      | none ↦ invalid
      | some t ↦ parse_loop rest (record o { threshold = t })
    ]
    | Flag.consecutive ↦ elim (parse_unsigned value) [
      | none ↦ invalid
      | some n ↦ parse_loop rest (record o { consecutive_windows = n })
    ]
    | Flag.interval ↦ elim (parse_unsigned value) [
      | none ↦ invalid
      | some n ↦ parse_loop rest (record o { inference_interval_ms = n })
    ]
    | Flag.unknown ↦ invalid
  ]

  abbrev pub defaults : ListenerOptions F
  defaults = record {
    model_path = none;
    capture_health_path = none;
    activation_archive_dir = none;
    handler_argv = none;
    handler_argc = 0;
    threshold = env.default_threshold;
    consecutive_windows = 2;
    inference_interval_ms = 250;
    self_test = false;
  }

  -- `parse_options(argc, argv, options)`, of the arguments behind the program's name.
  unfoldable pub parse_options : List Bytes → Parsed F
  parse_options arguments = parse_loop arguments defaults
