-- ===== src/Posix.antt =====
-- The operating system as the listener uses it: a file system that any call may find failing.
-- `replies` answers the calls in order and is arbitrary: the theorems hold for every pattern of
-- failures. Calls and results are those of POSIX and <stdio.h>.
pub mod Write
pub mod Files
pub mod Balance
use okay_hermes_realtime.Base.{
  ℕ, zero, suc, ◌+◌, ◌-◌, Bool, true, false, not, ◌&&◌, Option, none, some, List, [], ◌∷◌, ◌++◌,
  ◌==◌, ◌||◌, ◌≡◌, if◌then◌else◌, length, take, drop,
}
use okay_hermes_realtime.Base.Bytes.{Bytes, bytes_eq}

-- How the system answers a call: it succeeds, fails, or is interrupted by a signal (EINTR). The
-- number is how many bytes a `write` takes, at most those it was given and perhaps none.
pub data Reply : Type 0 where
  accept : ℕ → Reply
  refuse : Reply
  interrupted : Reply

-- A `write` that is answered so is not simply made again.
abbrev pub is_advance : Reply → Bool
is_advance (accept zero) = false
is_advance (accept (suc n)) = true
is_advance refuse = true
is_advance interrupted = false

-- One of the `patience + 1` calls from number `t` on is answered so.
unfoldable pub advances_within : (ℕ → Reply) → ℕ → ℕ → Bool
advances_within answer zero t = is_advance (answer t)
advances_within answer (suc patience) t =
    is_advance (answer t) || advances_within answer patience (t + 1)

-- The answers, in the order of the calls. That the system does not interrupt calls and take
-- nothing for ever is assumed: at most `patience` answers in a row do.
pub record Replies : Type 0 where
  pub answer : ℕ → Reply
  pub patience : ℕ
  pub advances : (t : ℕ) → advances_within answer patience t ≡ true

-- `calls` numbers the system calls. Descriptors are numbered by `next_fd`; `is_open` tells those
-- that are open, and `stray_closes` counts the calls of `close` on any other.
pub record Os : Type 0 where
  pub files : Bytes → Option Bytes
  pub directories : List Bytes
  pub is_open : ℕ → Bool
  pub next_fd : ℕ
  pub stray_closes : ℕ
  pub calls : ℕ

abbrev pub Io : Type 0 → Type 0
Io A = Os → A × Os

abbrev pub pure : {A : Type 0} → A → Io A
pure a os = (a, os)

infixl 5 ◌>>=◌ ◌>>◌
abbrev pub ◌>>=◌ : {A B : Type 0} → Io A → (A → Io B) → Io B
◌>>=◌ m f os = let (a, os') = m os in f a os'

abbrev pub ◌>>◌ : {B : Type 0} → Io (Unit {0}) → Io B → Io B
m >> k = m >>= λ _. k

-- A call whose result is not looked at.
abbrev pub ignore : {A : Type 0} → Io A → Io (Unit {0})
ignore m os = let (a, os') = m os in (tt, os')

-- C's `&&` on two calls that answer "succeeded".
infixr 35 ◌&&>◌
abbrev pub ◌&&>◌ : Io Bool → Io Bool → Io Bool
(m &&> k) os = let (done, os') = m os in if done then k os' else (false, os')

abbrev pub update : (Bytes → Option Bytes) → Bytes → Option Bytes → Bytes → Option Bytes
update files path content other = if bytes_eq path other then content else files other

abbrev pub is_accept : Reply → Bool
is_accept (accept n) = true
is_accept refuse = false
is_accept interrupted = false

-- Appending to the file of an open descriptor.
abbrev pub append_at : Option Bytes → Bytes → Bytes → Os → Os
append_at none path more os = os
append_at (some content) path more os = record os {
  files = update os.files path (some (content ++ more));
}

abbrev pub append_to : Bytes → Bytes → Os → Os
append_to path more os = append_at (os.files path) path more os

-- The directory is there afterwards, unless a file stands at its path.
abbrev pub make_directory : Option Bytes → Bytes → Os → Os
make_directory none path os = record os { directories = path ∷ os.directories }
make_directory (some content) path os = os

module _ (replies : Replies) where
  -- A call that succeeds or fails, and changes nothing else.
  unfoldable pub call : Io Bool
  call os = (is_accept (replies.answer os.calls), record os { calls = os.calls + 1 })

  -- `open(path, O_CREAT | O_TRUNC | O_WRONLY, mode)`, also in `fopen(path, "w")`.
  unfoldable pub open_file : Bytes → Io (Option ℕ)
  unfolding call
  open_file path os =
      let (done, os') = call os in
      if done
      then (
        some os'.next_fd,
        record os' {
          files = update os'.files path (some []);
          is_open = λ fd. if fd == os'.next_fd then true else os'.is_open fd;
          next_fd = os'.next_fd + 1;
        },
      )
      else (none, os')

  -- `close(fd)`, also in `fclose`: the descriptor is released even if an error is reported.
  unfoldable pub close : ℕ → Io Bool
  unfolding call
  close fd os =
      let (done, os') = call os in
      if os'.is_open fd
      then (
        done,
        record os' { is_open = λ other. if other == fd then false else os'.is_open other },
      )
      else (false, record os' { stray_closes = os'.stray_closes + 1 })

  -- `mkdir(path, mode) == 0 || errno == EEXIST`: EEXIST is the error for a directory that is there
  -- already, and for a file in its place.
  unfoldable pub mkdir : Bytes → Io Bool
  unfolding call
  mkdir path os =
      let (done, os') = call os in
      if done then (true, make_directory (os'.files path) path os') else (false, os')

  unfoldable pub unlink : Bytes → Io (Unit {0})
  unfolding call
  unlink path os =
      let (done, os') = call os in
      (tt, if done then record os' { files = update os'.files path none } else os')

  -- `rename(from, to)`: the new name takes over at once, or nothing changes.
  unfoldable pub rename : Bytes → Bytes → Io Bool
  unfolding call
  rename from to os =
      let (done, os') = call os in
      elim (os'.files from) [
        | none ↦ (false, os')
        | some content ↦
            if done
            then (
              true,
              record os' { files = update (update os'.files from none) to (some content) },
            )
            else (false, os')
      ]

  -- `fflush` on a stream with `text` in its buffer.
  unfoldable pub flush : Bytes → Bytes → Io Bool
  unfolding call
  flush path text os =
      let (done, os') = call os in if done then (true, append_to path text os') else (false, os')
