-- ===== src/Options/Arguments.antt =====
-- Every setting of the options can be written as arguments and is read back.
use okay_hermes_realtime.Base.{ℕ, ◌<◌, ◌≤◌, ◌≡◌, true, false, some, List, ◌∷◌, arith, length}
use okay_hermes_realtime.Base.Bytes.{Bytes, bytes}
use okay_hermes_realtime.Float.{Float}
use okay_hermes_realtime.Numbers.{uint32_max, parse_float, is_empty}
use okay_hermes_realtime.Numbers.Decimal.{decimal, parse_unsigned-decimal}
use okay_hermes_realtime.Options.{
  Environment, flag_of, parsed, validate_existing_file, check_options, take_handler, parse_loop,
  parse_options,
}

-- The arguments that set everything, the handler's command last.
unfoldable pub command_line : Bytes → Bytes → Bytes → Bytes → ℕ → ℕ → List Bytes → List Bytes
command_line model health archive threshold windows interval command =
    bytes "--model"
    ∷ model
    ∷ bytes "--capture-health"
    ∷ health
    ∷ bytes "--activation-archive-dir"
    ∷ archive
    ∷ bytes "--threshold"
    ∷ threshold
    ∷ bytes "--consecutive-windows"
    ∷ decimal windows
    ∷ bytes "--inference-interval-ms"
    ∷ decimal interval
    ∷ bytes "--handler"
    ∷ bytes "--"
    ∷ command

module _ (F : Float) (env : Environment F) where
  -- With memory for the handler, any readable model, any path for the status that is not empty,
  -- any archive directory, any text that `parse_float` takes for a threshold, any counts from 1 to
  -- UINT32_MAX and any handler command with any arguments, also such as look like options, come
  -- back from `parse_options` unchanged.
  pub parse_options-command_line :
      (model health archive text : Bytes) (windows interval : ℕ) (command : List Bytes)
      (threshold : F.Value)
      → env.allocated ≡ true
      → validate_existing_file F env (some model) ≡ true
      → is_empty health ≡ false
      → parse_float F env.strtof text ≡ some threshold
      → 0 < windows
      → windows ≤ uint32_max
      → 0 < interval
      → interval ≤ uint32_max
      → parse_options F env (command_line model health archive text windows interval command)
        ≡ parsed (record {
          model_path = some model;
          capture_health_path = some health;
          activation_archive_dir = some archive;
          handler_argv = some command;
          handler_argc = length command;
          threshold = threshold;
          consecutive_windows = windows;
          inference_interval_ms = interval;
          self_test = false;
        })
  unfolding parse_options parse_loop flag_of command_line take_handler check_options
  parse_options-command_line model health archive text windows interval command threshold a m h t wp
        wf ip i_f =
      ground (arith, parse_unsigned-decimal windows wp wf, parse_unsigned-decimal interval ip i_f)
