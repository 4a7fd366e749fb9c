-- ===== src/Descriptors/Files.antt =====
-- The operations on files close what they open: `write_capture_status`, `write_activation_wav` and
-- `archive_activation`.
use okay_hermes_realtime.Base.{
  ℕ, ◌≡◌, refl, ap, ◌∙◌, Bool, true, false, not, ◌||◌, Option, none, some, [], ◌∷◌, ◌++◌, ◌==◌,
  if◌then◌else◌, Bool-cases, inl, inr, length, leb,
}
use okay_hermes_realtime.Base.Bytes.{Bytes}
use okay_hermes_realtime.Posix.{
  Replies, Os, Io, pure, ignore, ◌>>=◌, ◌&&>◌, call, close, unlink, rename, flush,
}
use okay_hermes_realtime.Posix.Balance.{
  Same, Balanced, IsFresh, Same-trans, Balanced-trans, Same-Balanced, Balanced-IsFresh, and_Same,
  call-Same, unlink-Same, rename-Same, flush-Same, close_open, Closes, open_file-Balanced,
}
use okay_hermes_realtime.Storage.{
  newline, status_tmp, ensure_parent_dir, print_and_sync, discard, write_status_stream,
  write_opened_status, replace_status, write_capture_status,
}
use okay_hermes_realtime.Storage.Parents.{ensure_parent_dir-MakesOnly}

module _ (replies : Replies) where
  pub print_and_sync-Same :
      (path text : Bytes) (os : Os) → Same os (print_and_sync replies path text os).1
  unfolding print_and_sync
  print_and_sync-Same path text =
      and_Same (call replies) (flush replies path text &&> call replies) (call-Same replies) (
        and_Same (flush replies path text) (call replies) (flush-Same replies path text)
          (call-Same replies))

  pub ensure_parent_dir-Same :
      (path : Option Bytes) (os : Os) → Same os (ensure_parent_dir replies path os).1
  ensure_parent_dir-Same path os =
      let m = ensure_parent_dir-MakesOnly replies path os in
      record { is_open = m.is_open; next_fd = m.next_fd }

  -- Closing after and before steps that leave the descriptors alone.
  pub Closes-after :
      (fd : ℕ) (a b c : Os) → Closes replies fd a b → Same b c → Closes replies fd a c
  Closes-after fd a b c (closed, next) s =
      (λ n. ap (λ g. g n) s.is_open ∙ closed n, s.next_fd ∙ next)

  pub Closes-before :
      (fd : ℕ) (a b c : Os) → Same a b → Closes replies fd b c → Closes replies fd a c
  Closes-before fd a b c s (closed, next) = (
    λ n. closed n ∙ ap (λ (g : ℕ → Bool). if n == fd then false else g n) s.is_open,
    next ∙ s.next_fd,
  )

  discard-Closes :
      (path : Bytes) (fd : ℕ) (os : Os)
      → os.is_open fd ≡ true
      → Closes replies fd os (discard replies path fd os).1
  unfolding discard
  discard-Closes path fd os opened =
      Closes-after fd os (close replies fd os).1 _ (close_open replies fd os opened)
        (unlink-Same replies path (close replies fd os).1)

  -- The rest of `write_capture_status`, by what the calls before it returned.
  finish_status-Closes :
      (path tmp : Bytes) (fd : ℕ) (written : Bool) (os : Os)
      → os.is_open fd ≡ true
      → Closes replies fd os
          ((if written
              then (do
                closed ← close replies fd
                if closed then ignore (rename replies tmp path) else unlink replies tmp)
              else discard replies tmp fd)
            os).1
  finish_status-Closes path tmp fd false os opened = discard-Closes tmp fd os opened
  finish_status-Closes path tmp fd true os opened =
      let os1 = (close replies fd os).1 in
      elim (Bool-cases (close replies fd os).0) [
        | inl closed ↦ rw closed (
            Closes-after fd os os1 _ (close_open replies fd os opened)
              (rename-Same replies tmp path os1))
        | inr failed ↦ rw failed (
            Closes-after fd os os1 _ (close_open replies fd os opened)
              (unlink-Same replies tmp os1))
      ]

  printed-Same :
      (opened : Bool) (tmp text : Bytes) (os : Os)
      → Same os ((if opened then print_and_sync replies tmp text else pure false) os).1
  printed-Same true tmp text os = print_and_sync-Same tmp text os
  printed-Same false tmp text os = record { is_open = refl; next_fd = refl }

  write_status_stream-Closes :
      (path tmp text : Bytes) (fd : ℕ) (os : Os)
      → os.is_open fd ≡ true
      → Closes replies fd os (write_status_stream replies path tmp text fd os).1
  unfolding write_status_stream
  write_status_stream-Closes path tmp text fd os opened =
      let os1 = (call replies os).1 in
      let print : Io Bool =
        if (call replies os).0 then print_and_sync replies tmp text else pure false in
      let s =
        Same-trans os os1 (print os1).1 (call-Same replies os)
          (printed-Same (call replies os).0 tmp text os1) in
      Closes-before fd os (print os1).1 (write_status_stream replies path tmp text fd os).1 s (
        finish_status-Closes path tmp fd (print os1).0 (print os1).1
          (ap (λ g. g fd) s.is_open ∙ opened))

  replace_status-Balanced :
      (path tmp text : Bytes) (os : Os)
      → IsFresh os
      → Balanced os (replace_status replies path tmp text os).1
  unfolding replace_status write_opened_status
  replace_status-Balanced path tmp text os fresh =
      open_file-Balanced replies tmp (write_opened_status replies path tmp text) os fresh
        (λ os'. record { is_open = refl; next_fd = refl })
        (λ fd os' opened. write_status_stream-Closes path tmp text fd os' opened)

  pub write_capture_status-Balanced :
      (pid path : Bytes) (status : Option Bytes) (os : Os)
      → IsFresh os
      → Balanced os (write_capture_status replies pid path status os).1
  unfolding write_capture_status
  write_capture_status-Balanced pid path none os fresh =
      Same-Balanced os os (record { is_open = refl; next_fd = refl })
  write_capture_status-Balanced pid [] (some status) os fresh =
      Same-Balanced os os (record { is_open = refl; next_fd = refl })
  write_capture_status-Balanced pid (c ∷ cs) (some status) os fresh =
      let os1 = (ensure_parent_dir replies (some (c ∷ cs)) os).1 in
      let made = Same-Balanced os os1 (ensure_parent_dir-Same (some (c ∷ cs)) os) in
      elim (Bool-cases (
        not (ensure_parent_dir replies (some (c ∷ cs)) os).0
        || leb 8192 (length (status_tmp pid (c ∷ cs))))) [
          | inl stop ↦ rw stop made
          | inr go ↦ rw go (
              Balanced-trans os os1 _ made (
                replace_status-Balanced (c ∷ cs) (status_tmp pid (c ∷ cs))
                  (status ++ (newline ∷ [])) os1 (Balanced-IsFresh os os1 made fresh)))
        ]
