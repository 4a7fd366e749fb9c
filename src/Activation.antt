-- ===== src/Activation.antt =====
-- What happens on an activation: `build_activation_payload`, `write_activation` and `run_handler` of
-- native/okay-hermes-realtime-wake-listener.c. Texts that `printf` makes of floating-point numbers
-- are parameters.
pub mod Handler
pub mod Archive
pub mod Metadata
pub mod Kept
pub mod Payload
pub mod Child
use okay_hermes_realtime.Base.{
  ℕ, ◌+◌, ◌-◌, ◌*◌, ◌/◌, ◌%◌, Bool, true, false, not, ◌&&◌, ◌||◌, Option, none, some, List, [], ◌∷◌,
  ◌++◌, ltb, leb, ◌==◌, if◌then◌else◌, length,
}
use okay_hermes_realtime.Base.Bytes.{Bytes, bytes}
use okay_hermes_realtime.Float.{Float, Double}
use okay_hermes_realtime.Resample.{model_rate, unsigned_mod}
use okay_hermes_realtime.Numbers.{is_empty}
use okay_hermes_realtime.Numbers.Decimal.{decimal}
use okay_hermes_realtime.Posix.{
  Replies, Os, Io, pure, ignore, ◌>>=◌, ◌>>◌, call, open_file, close, unlink, rename,
}
use okay_hermes_realtime.Posix.Write.{Written, write_all}
use okay_hermes_realtime.Storage.{newline, print_and_sync}
use okay_hermes_realtime.Wav.{write_activation_wav}

-- The conversions of `printf` that are used: "%.9f" of a float and of a double, "%.9g" of a float
-- and "%.1f" of a number of samples in seconds.
pub record Printf (F : Float) (D : Double) : Type 0 where
  pub float_9f : F.Value → Bytes
  pub double_9f : D.Value → Bytes
  pub float_9g : F.Value → Bytes
  pub seconds_1f : ℕ → Bytes

-- `len < 0 || (size_t)len >= sizeof(payload)` makes a report fail.
abbrev pub that_fits : Option Bytes → Option Bytes
that_fits none = none
that_fits (some payload) = if leb 256 (length payload) then none else some payload

module _ (F : Float) (D : Double) (p : Printf F D) where
  -- The text without and with the flag, as it is formatted.
  unfoldable pub payload_text : F.Value → Bytes → D.Value → Bool → Bytes
  payload_text probability type detected_at include_native_flag =
      bytes "{\"type\":\""
      ++ (type
          ++ (bytes "\",\"probability\":"
              ++ (p.float_9f probability
                  ++ (bytes ",\"detected_at\":"
                      ++ (p.double_9f detected_at
                          ++ ((if include_native_flag
                                then bytes ",\"native_listener\":true}"
                                else bytes "}")
                              ++ (newline ∷ [])))))))

  -- `build_activation_payload(out, out_size, …)` with a buffer that is there: `none` is -1, and
  -- otherwise the whole text, whose length is the result; the buffer holds it if it is shorter than
  -- `out_size`.
  unfoldable pub build_activation_payload : ℕ → F.Value → Bytes → D.Value → Bool → Option Bytes
  build_activation_payload out_size probability type detected_at include_native_flag =
      if out_size == 0
      then none
      else if not (F.is_finite probability)
          || F.lt probability (F.of_unsigned 0)
          || F.lt (F.of_unsigned 1) probability
      then none
      else if not (D.is_finite detected_at)
      then none
      else some (payload_text probability type detected_at include_native_flag)

  -- The payload that both reports send, from a buffer of 256 bytes that has to hold it.
  unfoldable pub activation_payload : F.Value → D.Value → Option Bytes
  activation_payload probability detected_at =
      that_fits (build_activation_payload 256 probability (bytes "activation") detected_at true)

-- Whether a write to a pipe or to the standard output is complete, what arrived at the other end,
-- and the state after it.
abbrev pub received : Os → Option Written → Bool × Bytes × Os
received os none = (false, [], os)
received os (some w) = (w.complete, w.sink, record os { calls = w.next_call })

-- `WIFEXITED(status) && WEXITSTATUS(status) == 0`
abbrev pub has_succeeded : Option ℕ → Bool
has_succeeded none = false
has_succeeded (some code) = code == 0

-- A process with its children that have not been waited for.
pub record Process : Type 0 where
  pub os : Os
  pub children : ℕ

-- The result of a report and what its reader got.
pub record Sent : Type 0 where
  pub done : Bool
  pub text : Bytes

module _ (replies : Replies) where
  -- `write_activation(data, probability)`, from the payload on.
  unfoldable pub write_activation : Option Bytes → Os → Sent × Os
  write_activation none os = (record { done = false; text = [] }, os)
  write_activation (some payload) os =
      let (complete, sink, os') = received os (write_all replies payload os.calls) in
      (record { done = complete; text = sink }, os')

  -- `pipe2(pipefd, O_CLOEXEC)`: the lower number is the end to read from.
  unfoldable pub pipe2 : Io (Option ℕ)
  unfolding call
  pipe2 os =
      let (done, os') = call replies os in
      if done
      then (
        some os'.next_fd,
        record os' {
          is_open =
              λ fd. if fd == os'.next_fd || fd == os'.next_fd + 1 then true else os'.is_open fd;
          next_fd = os'.next_fd + 2;
        },
      )
      else (none, os')

  -- What the parent does after `fork`: `exit_code` is the status of the child, `none` if a signal
  -- killed it. `waitpid` may fail.
  unfoldable pub feed_child : Bytes → Option ℕ → ℕ → Process → Sent × Process
  unfolding close call
  feed_child payload exit_code fd p =
      let os1 = (close replies fd p.os).1 in
      let (complete, sink, os2) = received os1 (write_all replies payload os1.calls) in
      let os3 = (close replies (fd + 1) os2).1 in
      let (waited, os4) = call replies os3 in
      let p' : Process = record {
        os = os4;
        children = if waited then p.children - 1 else p.children;
      } in
      (record { done = complete && waited && has_succeeded exit_code; text = sink }, p')

  -- What follows `pipe2`, by what it returned.
  unfoldable pub start_child : Bytes → Option ℕ → Option ℕ → Process → Sent × Process
  start_child payload exit_code none p = (record { done = false; text = [] }, p)
  start_child payload exit_code (some fd) p =
      let (forked, os) = call replies p.os in
      if forked
      then feed_child payload exit_code fd (record { os = os; children = p.children + 1 })
      else (
        record { done = false; text = [] },
        record p { os = (close replies (fd + 1) (close replies fd os).1).1 },
      )

  -- `run_handler(data, probability)`, in the parent, from the payload on.
  unfoldable pub run_handler :
      ℕ → Option (List Bytes) → Option Bytes → Option ℕ → Process → Sent × Process
  run_handler handler_argc none payload exit_code p = (record { done = false; text = [] }, p)
  run_handler handler_argc (some argv) none exit_code p = (record { done = false; text = [] }, p)
  run_handler handler_argc (some argv) (some payload) exit_code p =
      if handler_argc == 0
      then (record { done = false; text = [] }, p)
      else (let (ends, os) = pipe2 p.os in
          start_child payload exit_code ends (record p { os = os }))
