-- ===== src/Activation/Child.antt =====
-- The child of `run_handler` of native/okay-hermes-realtime-wake-listener.c, between `fork` and
-- the handler's own code. Descriptors are those of POSIX: `dup2` makes a copy that `execv` keeps,
-- and does nothing if both numbers are the same.
use okay_hermes_realtime.Base.{
  ℕ, ◌<◌, ◌≡◌, ◌≢◌, refl, Bool, true, false, Option, none, some, ◌==◌, ◌||◌, if◌then◌else◌, arith,
}
use okay_hermes_realtime.Activation.{has_succeeded}

-- What a descriptor refers to, and whether `execv` closes it.
pub record Descriptor : Type 0 where
  pub file : ℕ
  pub close_on_exec : Bool

abbrev pub Table : Type 0
Table = ℕ → Option Descriptor

-- What becomes of the child: it exits with a status, or the handler starts with its descriptors.
pub data Child : Type 0 where
  exits : ℕ → Child
  runs : Table → Child

abbrev pub keep_open : Option Descriptor → Option Descriptor
keep_open none = none
keep_open (some d) = some (record d { close_on_exec = false })

abbrev pub inherited : Option Descriptor → Option Descriptor
inherited none = none
inherited (some d) = if d.close_on_exec then none else some d

-- `dup2(from, to)` that succeeds
unfoldable pub dup2 : ℕ → ℕ → Table → Table
dup2 from to table =
    if from == to then table else λ fd. if fd == to then keep_open (table from) else table fd

unfoldable pub close_fd : ℕ → Table → Table
close_fd closed table = λ fd. if fd == closed then none else table fd

-- `execv` that succeeds
unfoldable pub exec : Table → Table
exec table = λ fd. inherited (table fd)

-- The branch `child_pid == 0`, by whether `dup2` and `execv` succeed.
unfoldable pub run_child : Bool → Bool → ℕ → ℕ → Table → Child
unfolding dup2 close_fd exec
run_child duplicated started reading writing table =
    if duplicated
    then (if started
        then runs (exec (close_fd writing (close_fd reading (dup2 reading 0 table))))
        else exits 127)
    else exits 127

-- What the handler finds: the pipe as its standard input, unless that was closed in the listener,
-- and of the other descriptors those that the listener leaves to a program that it starts.
pub record Inherits (reading writing pipe : ℕ) (before after : Table) : Type 0 where
  pub input :
      after 0
      ≡ (if reading == 0 then none else some (record { file = pipe; close_on_exec = false }))
  pub others :
      (fd : ℕ)
      → fd ≢ 0
      → after fd ≡ (if fd == reading || fd == writing then none else inherited (before fd))

abbrev pub Starts : ℕ → ℕ → ℕ → Table → Child → Type 0
Starts reading writing pipe before (exits status) = has_succeeded (some status) ≡ false
Starts reading writing pipe before (runs after) = Inherits reading writing pipe before after

-- The child of `run_handler`, with the lower end of the pipe to read from and both ends closed by
-- `execv`, as `pipe2` with O_CLOEXEC makes them: it exits with a status that the listener takes as
-- a failure, or the handler starts. Then its standard input is the end to read from, but closed if
-- that end had the number 0; no other number refers to the ends, and all others are as `execv`
-- leaves them.
pub run_child-Starts :
    (duplicated started : Bool) (reading writing pipe : ℕ) (before : Table)
    → before reading ≡ some (record { file = pipe; close_on_exec = true })
    → 0 < writing
    → Starts reading writing pipe before (run_child duplicated started reading writing before)
unfolding run_child dup2 close_fd exec
run_child-Starts true true reading writing pipe before lower upper = record {
  input = ground arith;
  others = λ fd other. ground arith;
}
run_child-Starts true false reading writing pipe before lower upper = refl
run_child-Starts false started reading writing pipe before lower upper = refl
