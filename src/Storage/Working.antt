-- ===== src/Storage/Working.antt =====
-- On a system where every call succeeds, `write_capture_status` writes.
use okay_hermes_realtime.Base.{
  ℕ, ◌+◌, ◌<◌, ◌≡◌, refl, sym, ap, ◌∙◌, Bool, true, false, some, [], ◌∷◌, ◌++◌, arith, ◌==◌, leb,
  if◌then◌else◌, length, Bool-cases, Option-cases, inl, inr, subst,
}
use okay_hermes_realtime.Base.Bytes.{Bytes, snprintf, bytes_eq_refl}
use okay_hermes_realtime.Posix.{
  Replies, Os, Io, is_accept, call, open_file, close, mkdir, unlink, rename, flush, ◌&&>◌, ◌>>=◌,
  pure, ignore,
}
use okay_hermes_realtime.Storage.{
  slash, newline, status_tmp, before_last_slash, mkdir_loop, mkdir_parents, ensure_parent_dir,
  print_and_sync, discard, write_status_stream, write_opened_status, replace_status,
  write_capture_status,
}

-- Every call is accepted.
abbrev pub IsWorking : Replies → Type 0
IsWorking replies = (t : ℕ) → is_accept (replies.answer t) ≡ true

-- The result of printing to an empty file.
abbrev IsPrinted : Bytes → Bytes → Os → Bool × Os → Type 0
IsPrinted tmp text os (done, os') =
    (done ≡ true) × (os'.files tmp ≡ some text) × (os'.is_open ≡ os.is_open)

and_true : (m k : Io Bool) (os : Os) → (m os).0 ≡ true → (m &&> k) os ≡ k (m os).1
and_true m k os e = rw e refl

module _ (replies : Replies) (works : IsWorking replies) where
  mkdir-true : (path : Bytes) (os : Os) → (mkdir replies path os).0 ≡ true
  unfolding mkdir call
  mkdir-true path os = rw (works os.calls) refl

  mkdir_loop-true : (before rest : Bytes) (os : Os) → (mkdir_loop replies before rest os).0 ≡ true
  unfolding mkdir_loop
  mkdir_loop-true before [] os = mkdir-true before os
  mkdir_loop-true before (c ∷ rest) os = elim (Bool-cases (c == slash)) [
    | inl here ↦
        rw (here, mkdir-true before os)
          (mkdir_loop-true (before ++ (c ∷ [])) rest (mkdir replies before os).1)
    | inr further ↦ rw further (mkdir_loop-true (before ++ (c ∷ [])) rest os)
  ]

  mkdir_parents-true : (directory : Bytes) (os : Os) → (mkdir_parents replies directory os).0 ≡ true
  unfolding mkdir_parents
  mkdir_parents-true [] os = refl
  mkdir_parents-true (c ∷ rest) os = mkdir_loop-true (c ∷ []) rest os

  ensure_parent_dir-true :
      (c : ℕ) (rest : Bytes) (os : Os) → (ensure_parent_dir replies (some (c ∷ rest)) os).0 ≡ true
  unfolding ensure_parent_dir
  ensure_parent_dir-true c rest os =
      elim (Option-cases (before_last_slash (snprintf 4096 (c ∷ rest)))) [
        | inl flat ↦ rw flat refl
        | inr (directory, found) ↦ rw found (mkdir_parents-true directory os)
      ]

  open_file-works :
      (tmp : Bytes) (os : Os)
      → let (fd, os') = open_file replies tmp os in
        (fd ≡ some os.next_fd) × (os'.files tmp ≡ some []) × (os'.is_open os.next_fd ≡ true)
  unfolding open_file call
  open_file-works tmp os = rw (works os.calls, bytes_eq_refl tmp) (refl, refl, ground arith)

  call-works : (os : Os) → call replies os ≡ (true, record os { calls = os.calls + 1 })
  unfolding call
  call-works os = rw (works os.calls) refl

  flush-works :
      (tmp text : Bytes) (os : Os)
      → os.files tmp ≡ some []
      → let (done, os') = flush replies tmp text os in
        (done ≡ true) × (os'.files tmp ≡ some text) × (os'.is_open ≡ os.is_open)
  unfolding flush call
  flush-works tmp text os e = rw (works os.calls, e, bytes_eq_refl tmp) (refl, refl, refl)

  print_and_sync-works :
      (tmp text : Bytes) (os : Os)
      → os.files tmp ≡ some []
      → IsPrinted tmp text os (print_and_sync replies tmp text os)
  unfolding print_and_sync call
  print_and_sync-works tmp text os e =
      let os1 = record os { calls = os.calls + 1 } in
      let (done, here, same) = flush-works tmp text os1 e in
      let all =
        and_true (call replies) (flush replies tmp text &&> call replies) os (works os.calls)
        ∙ and_true (flush replies tmp text) (call replies) os1 done
        ∙ call-works (flush replies tmp text os1).1 in
      subst (IsPrinted tmp text os) (sym all) (refl, here, same)

  close-works :
      (fd : ℕ) (os : Os)
      → os.is_open fd ≡ true
      → let (done, os') = close replies fd os in (done ≡ true) × (os'.files ≡ os.files)
  unfolding close call
  close-works fd os opened = rw (works os.calls, opened) (refl, refl)

  rename-works :
      (tmp path text : Bytes) (os : Os)
      → os.files tmp ≡ some text
      → (rename replies tmp path os).1.files path ≡ some text
  unfolding rename call
  rename-works tmp path text os e = rw e (rw (works os.calls, bytes_eq_refl path) refl)

  finish_status-works :
      (path tmp text : Bytes) (fd : ℕ) (written : Bool) (os : Os)
      → written ≡ true
      → os.files tmp ≡ some text
      → os.is_open fd ≡ true
      → ((if written
              then (do
                closed ← close replies fd
                if closed then ignore (rename replies tmp path) else unlink replies tmp)
              else discard replies tmp fd)
            os).1.files
          path
        ≡ some text
  finish_status-works path tmp text fd false os w e opened = absurd (cc)
  finish_status-works path tmp text fd true os w e opened =
      let (closed, kept) = close-works fd os opened in
      rw closed (rename-works tmp path text (close replies fd os).1 (ap (λ g. g tmp) kept ∙ e))

  opened-works :
      (tmp text : Bytes) (opened : Bool) (os : Os)
      → opened ≡ true
      → os.files tmp ≡ some []
      → IsPrinted tmp text os ((if opened then print_and_sync replies tmp text else pure false) os)
  opened-works tmp text true os o e = print_and_sync-works tmp text os e
  opened-works tmp text false os o e = absurd (cc)

  write_status_stream-works :
      (path tmp text : Bytes) (fd : ℕ) (os : Os)
      → os.files tmp ≡ some []
      → os.is_open fd ≡ true
      → (write_status_stream replies path tmp text fd os).1.files path ≡ some text
  unfolding write_status_stream call
  write_status_stream-works path tmp text fd os e opened =
      let os1 = record os { calls = os.calls + 1 } in
      let print : Io Bool =
        if is_accept (replies.answer os.calls)
        then print_and_sync replies tmp text
        else pure false in
      let (done, here, same) =
        opened-works tmp text (is_accept (replies.answer os.calls)) os1 (works os.calls) e in
      finish_status-works path tmp text fd (print os1).0 (print os1).1 done here
        (ap (λ g. g fd) same ∙ opened)

  replace_status-works :
      (path tmp text : Bytes) (os : Os)
      → (replace_status replies path tmp text os).1.files path ≡ some text
  unfolding replace_status write_opened_status
  replace_status-works path tmp text os =
      let (found, empty, opened) = open_file-works tmp os in
      rw found (
        write_status_stream-works path tmp text os.next_fd (open_file replies tmp os).1 empty
          opened)

  -- The status file then holds the whole line.
  pub write_capture_status-works :
      (pid path status : Bytes) (os : Os)
      → 0 < length path
      → length (status_tmp pid path) < 8192
      → (write_capture_status replies pid path (some status) os).1.files path
        ≡ some (status ++ (newline ∷ []))
  unfolding write_capture_status
  write_capture_status-works pid [] status os there fits = absurd (omega arith)
  write_capture_status-works pid (c ∷ cs) status os there fits =
      let short : leb 8192 (length (status_tmp pid (c ∷ cs))) ≡ false = ground arith in
      rw (ensure_parent_dir-true c cs os, short)
        (replace_status-works (c ∷ cs) (status_tmp pid (c ∷ cs)) (status ++ (newline ∷ []))
          (ensure_parent_dir replies (some (c ∷ cs)) os).1)
