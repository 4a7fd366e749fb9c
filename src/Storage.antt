-- ===== src/Storage.antt =====
-- The directory and status files of native/okay-hermes-realtime-wake-listener.c:
-- `ensure_parent_dir`, `write_capture_status` and `clear_capture_status`.
pub mod Parents
pub mod Status
pub mod Working
use okay_hermes_realtime.Base.{
  ℕ, ◌+◌, ◌-◌, Bool, true, false, not, ◌||◌, Option, none, some, List, [], ◌∷◌, ◌++◌, ◌==◌, leb,
  if◌then◌else◌, length, take,
}
use okay_hermes_realtime.Base.Bytes.{Bytes, bytes, bytes_eq, snprintf}
use okay_hermes_realtime.Posix.{
  Replies, Os, Io, pure, ignore, ◌>>=◌, ◌>>◌, ◌&&>◌, update, call, open_file, close, mkdir, unlink,
  rename, flush, append_to, is_accept,
}

abbrev pub slash : ℕ
slash = b'/'

abbrev pub newline : ℕ
newline = 0x0a

-- `"%s.tmp.%ld"`
abbrev pub status_tmp : Bytes → Bytes → Bytes
status_tmp pid path = path ++ (bytes ".tmp." ++ pid)

-- `strrchr(directory, '/')` and the cut there: what stands before the last slash.
unfoldable pub before_last_slash : Bytes → Option Bytes
before_last_slash [] = none
before_last_slash (c ∷ rest) = elim (before_last_slash rest) [
  | some before ↦ some (c ∷ before)
  | none ↦ if c == slash then some [] else none
]

module _ (replies : Replies) where
  -- The loop over `directory` from the index `length before` on, and the `mkdir` behind it.
  unfoldable pub mkdir_loop : Bytes → Bytes → Io Bool
  unfolding mkdir
  mkdir_loop before [] = mkdir replies before
  mkdir_loop before (c ∷ rest) =
      let next = mkdir_loop (before ++ (c ∷ [])) rest in
      if c == slash then mkdir replies before &&> next else next

  unfoldable pub mkdir_parents : Bytes → Io Bool
  unfolding mkdir_loop
  mkdir_parents [] = pure true
  mkdir_parents (c ∷ rest) = mkdir_loop (c ∷ []) rest

  -- `ensure_parent_dir(path)`; `none` is `NULL`. The buffer `directory` has 4096 bytes.
  unfoldable pub ensure_parent_dir : Option Bytes → Io Bool
  unfolding mkdir_parents before_last_slash
  ensure_parent_dir none = pure false
  ensure_parent_dir (some []) = pure false
  ensure_parent_dir (some (c ∷ rest)) = elim (before_last_slash (snprintf 4096 (c ∷ rest))) [
    | none ↦ pure true
    | some directory ↦ mkdir_parents directory
  ]

  -- `fprintf(fp, "%s\n", status) >= 0 && fflush(fp) == 0 && fsync(fd) == 0`
  unfoldable pub print_and_sync : Bytes → Bytes → Io Bool
  unfolding call flush
  print_and_sync path text = call replies &&> (flush replies path text &&> call replies)

  -- Closing and removing a file that is given up.
  unfoldable pub discard : Bytes → ℕ → Io (Unit {0})
  unfolding close unlink
  discard path fd = do ignore (close replies fd); unlink replies path

  -- What `write_capture_status` does from `fdopen` on.
  unfoldable pub write_status_stream : Bytes → Bytes → Bytes → ℕ → Io (Unit {0})
  unfolding print_and_sync discard rename
  write_status_stream path tmp_path text fd = do
    opened ← call replies
    written ← (if opened then print_and_sync tmp_path text else pure false)
    if written
        then (do
          closed ← close replies fd
          if closed then ignore (rename replies tmp_path path) else unlink replies tmp_path)
        else discard tmp_path fd

  -- The early return on a failed `open`.
  unfoldable pub write_opened_status : Bytes → Bytes → Bytes → Option ℕ → Io (Unit {0})
  write_opened_status path tmp_path text none = pure tt
  write_opened_status path tmp_path text (some fd) = write_status_stream path tmp_path text fd

  -- What it does from `open` on.
  unfoldable pub replace_status : Bytes → Bytes → Bytes → Io (Unit {0})
  replace_status path tmp_path text = do
    fd ← open_file replies tmp_path
    write_opened_status path tmp_path text fd

  -- `write_capture_status(data, status)`; `path` is `data->capture_health_path` and `pid` the text
  -- of the process id.
  unfoldable pub write_capture_status : Bytes → Bytes → Option Bytes → Io (Unit {0})
  write_capture_status pid path none = pure tt
  write_capture_status pid [] (some status) = pure tt
  write_capture_status pid (c ∷ cs) (some status) = do
    parent ← ensure_parent_dir (some (c ∷ cs))
    if not parent || leb 8192 (length (status_tmp pid (c ∷ cs)))
        then pure tt
        else replace_status (c ∷ cs) (status_tmp pid (c ∷ cs)) (status ++ (newline ∷ []))

  -- `clear_capture_status(data)`
  unfoldable pub clear_capture_status : Bytes → Io (Unit {0})
  unfolding unlink
  clear_capture_status [] = pure tt
  clear_capture_status (c ∷ cs) = unlink replies (c ∷ cs)
