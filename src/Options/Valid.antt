-- ===== src/Options/Valid.antt =====
-- What options `parse_options` lets through.
use okay_hermes_realtime.Base.{
  ℕ, ◌<◌, ◌^◌, ◌≡◌, refl, true, false, Option, none, some, List, [], ◌∷◌, arith, length,
}
use okay_hermes_realtime.Base.Bytes.{Bytes}
use okay_hermes_realtime.Float.{Float}
use okay_hermes_realtime.Numbers.{Converted, parse_float, parse_unsigned}
use okay_hermes_realtime.Numbers.Decimal.{parse_unsigned_range}
use okay_hermes_realtime.Options.{
  ListenerOptions, Environment, parsed, is_missing, validate_existing_file, default_health_path,
  check_options, take_handler, parse_loop, defaults, parse_options,
}

abbrev or_else {ℓ} : {A : Type ℓ} → Option A → A → A
or_else none a = a
or_else (some b) a = b

abbrev pub argv_count : Option (List Bytes) → ℕ
argv_count none = 0
argv_count (some argv) = length argv

module _ (F : Float) where
  -- A finite threshold between 0 and 1.
  pub record IsThreshold (t : F.Value) : Type 0 where
    pub finite : F.is_finite t ≡ true
    pub not_below : F.lt t (F.of_unsigned 0) ≡ false
    pub not_above : F.lt (F.of_unsigned 1) t ≡ false

  -- The numeric options are in range, and `handler_argc` counts `handler_argv`.
  pub record InRange (o : ListenerOptions F) : Type 0 where
    pub threshold : IsThreshold o.threshold
    pub windows_positive : 0 < o.consecutive_windows
    pub windows_fits : o.consecutive_windows < 2 ^ 32
    pub interval_positive : 0 < o.inference_interval_ms
    pub interval_fits : o.inference_interval_ms < 2 ^ 32
    pub handler : o.handler_argc ≡ argv_count o.handler_argv

  -- What is checked behind the loop: a self-test needs nothing; a run needs a readable regular
  -- file as its model and some path for the capture status.
  abbrev pub IsRunnable : Environment F → ListenerOptions F → Type 0
  IsRunnable env o =
      o.self_test ≡ false
      → (validate_existing_file F env o.model_path ≡ true)
        × (is_missing o.capture_health_path ≡ false)

  parse_float-IsThreshold :
      (strtof : Bytes → Converted F.Value) (text : Bytes) {t : F.Value}
      → parse_float F strtof text ≡ some t
      → IsThreshold t
  unfolding parse_float
  parse_float-IsThreshold strtof text h = ground arith

  module _ (env : Environment F) where
    check_options-lem :
        (o o' : ListenerOptions F)
        → InRange o
        → check_options F env o ≡ parsed o'
        → InRange o' × IsRunnable env o'
    unfolding check_options default_health_path
    check_options-lem o o' r h = ground arith

    take_handler-lem :
        (o : ListenerOptions F) (command : List Bytes) (o' : ListenerOptions F)
        → InRange o
        → take_handler F env o command ≡ parsed o'
        → InRange o' × IsRunnable env o'
    unfolding take_handler
    take_handler-lem o command o' r h = ground (
      arith,
      check_options-lem (record o { handler_argv = some command; handler_argc = length command })
          o',
    )

    -- The claim about the loop over some arguments.
    abbrev Sound : List Bytes → ListenerOptions F → Type 0
    Sound arguments o' =
        (o : ListenerOptions F)
        → InRange o
        → parse_loop F env arguments o ≡ parsed o'
        → InRange o' × IsRunnable env o'

    parse_loop-step :
        (arg value : Bytes) (rest : List Bytes) (o o' : ListenerOptions F)
        → Sound (value ∷ rest) o'
        → Sound rest o'
        → InRange o
        → parse_loop F env (arg ∷ value ∷ rest) o ≡ parsed o'
        → InRange o' × IsRunnable env o'
    unfolding parse_loop
    parse_loop-step arg value rest o o' flag taken r h = ground (
      arith,
      flag (record o { self_test = true }),
      taken (record o { model_path = some value }),
      taken (record o { capture_health_path = some value }),
      taken (record o { activation_archive_dir = some value }),
      taken (record o { handler_argv = some (value ∷ []); handler_argc = 1 }),
      take_handler-lem o rest o',
      taken (record o { threshold = or_else (parse_float F env.strtof value) o.threshold }),
      parse_float-IsThreshold env.strtof value
          {t = or_else (parse_float F env.strtof value) o.threshold},
      taken (record o { consecutive_windows = or_else (parse_unsigned value) 0 }),
      taken (record o { inference_interval_ms = or_else (parse_unsigned value) 0 }),
      parse_unsigned_range value {n = or_else (parse_unsigned value) 0},
    )

    parse_loop-last :
        (arg : Bytes) (o o' : ListenerOptions F)
        → InRange o
        → parse_loop F env (arg ∷ []) o ≡ parsed o'
        → InRange o' × IsRunnable env o'
    unfolding parse_loop
    parse_loop-last arg o o' r h =
        ground (arith, check_options-lem (record o { self_test = true }) o')

    parse_loop-Sound : (arguments : List Bytes) (o' : ListenerOptions F) → Sound arguments o'
    parse_loop-Sound [] o' o r h = check_options-lem o o' r (unfold parse_loop in h)
    parse_loop-Sound (arg ∷ []) o' o r h = parse_loop-last arg o o' r h
    parse_loop-Sound (arg ∷ value ∷ rest) o' o r h =
        parse_loop-step arg value rest o o' (parse_loop-Sound (value ∷ rest) o')
          (parse_loop-Sound rest o') r h

    -- With a default threshold that is finite and between 0 and 1, and whatever the arguments,
    -- options that `parse_options` accepts have positive counts that fit an `unsigned int`, a
    -- finite threshold between 0 and 1 and a handler count that is the length of its array; and
    -- unless a self-test is asked for, the model is a readable regular file and there is a path
    -- for the capture status.
    pub parse_options-valid :
        (arguments : List Bytes) (o : ListenerOptions F)
        → IsThreshold env.default_threshold
        → parse_options F env arguments ≡ parsed o
        → InRange o × IsRunnable env o
    unfolding parse_options
    parse_options-valid arguments o t h =
        parse_loop-Sound arguments o (defaults F env)
          (record {
            threshold = t;
            windows_positive = omega arith;
            windows_fits = omega arith;
            interval_positive = omega arith;
            interval_fits = omega arith;
            handler = refl;
          })
          h
