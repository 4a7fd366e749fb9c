-- ===== src/Storage/Status.antt =====
-- What `write_capture_status` leaves behind, whatever calls of the system fail.
use okay_hermes_realtime.Base.{
  ℕ, ◌≡◌, refl, ap, ◌∙◌, not, ◌||◌, Bool-cases, Option-cases, ◌≢◌, ◌⊎◌, inl, inr, true, false, some,
  [], ◌∷◌, ◌++◌, ◌==◌, arith, length, if◌then◌else◌, leb,
}
use okay_hermes_realtime.Base.Bytes.{Bytes, bytes, bytes_eq_iff, bytes_eq_refl, append-ne}
use okay_hermes_realtime.Posix.Files.{open_file-some, open_file-none}
use okay_hermes_realtime.Posix.{Replies, Os, open_file}
use okay_hermes_realtime.Storage.Parents.{ensure_parent_dir-MakesOnly}
use okay_hermes_realtime.Storage.{
  ensure_parent_dir, write_status_stream, write_capture_status, replace_status, write_opened_status,
  status_tmp, newline,
}

-- An operation on files that leaves all descriptors as they were and calls `close` on none that is
-- not open.
pub record Tidy (before after : Os) : Type 0 where
  pub same_open : (fd : ℕ) → after.is_open fd ≡ before.is_open fd
  pub no_stray : after.stray_closes ≡ before.stray_closes

-- The file at `path` is as before or holds exactly `text`; no third file is touched.
pub record Replaces (path tmp text : Bytes) (before after : Os) : Type 0 where
  pub old_or_new : (after.files path ≡ before.files path) ⊎ (after.files path ≡ some text)
  pub others : (other : Bytes) → other ≢ path → other ≢ tmp → after.files other ≡ before.files other

module _ (replies : Replies) (path tmp text : Bytes) (apart : tmp ≢ path) where
  write_status_stream-file :
      (fd : ℕ) (os : Os)
      → os.files tmp ≡ some []
      → let os' = (write_status_stream replies path tmp text fd os).1 in
        (os'.files path ≡ os.files path) ⊎ (os'.files path ≡ some text)
  unfolding write_status_stream
  write_status_stream-file fd os e =
      ground (arith, bytes_eq_iff tmp path, bytes_eq_refl path, bytes_eq_refl tmp)

  write_status_stream-others :
      (fd : ℕ) (os : Os) (other : Bytes)
      → other ≢ path
      → other ≢ tmp
      → (write_status_stream replies path tmp text fd os).1.files other ≡ os.files other
  unfolding write_status_stream
  write_status_stream-others fd os other p t =
      ground (arith, bytes_eq_iff path other, bytes_eq_iff tmp other)

  write_status_stream-closes :
      (fd : ℕ) (os : Os)
      → os.is_open fd ≡ true
      → let os' = (write_status_stream replies path tmp text fd os).1 in
        (os'.stray_closes ≡ os.stray_closes)
        × ((n : ℕ) → os'.is_open n ≡ (if n == fd then false else os.is_open n))
  unfolding write_status_stream
  write_status_stream-closes fd os o = (ground arith, λ n. ground arith)

-- A state with the same files and descriptors may stand first, or last.
module _ (path tmp text : Bytes) where
  Replaces-none :
      (os os' : Os)
      → os'.files ≡ os.files
      → os'.is_open ≡ os.is_open
      → os'.stray_closes ≡ os.stray_closes
      → Replaces path tmp text os os' × Tidy os os'
  Replaces-none os os' f o c = (
    record { old_or_new = inl (ap (λ g. g path) f); others = λ other p t. ap (λ g. g other) f },
    record { same_open = λ fd. ap (λ g. g fd) o; no_stray = c },
  )

  Replaces-after :
      (os os' os'' : Os)
      → os'.files ≡ os.files
      → os'.is_open ≡ os.is_open
      → os'.stray_closes ≡ os.stray_closes
      → Replaces path tmp text os' os''
      → Tidy os' os''
      → Replaces path tmp text os os'' × Tidy os os''
  Replaces-after os os' os'' f o c r t = (
    record {
      old_or_new = rw f at r.old_or_new;
      others = λ other p q. r.others other p q ∙ ap (λ g. g other) f;
    },
    record { same_open = λ fd. t.same_open fd ∙ ap (λ g. g fd) o; no_stray = t.no_stray ∙ c },
  )

module _ (replies : Replies) where
  opened_status :
      (path tmp text : Bytes) (os : Os) (fd : ℕ)
      → tmp ≢ path
      → os.is_open os.next_fd ≡ false
      → (open_file replies tmp os).0 ≡ some fd
      → let os' = (write_status_stream replies path tmp text fd (open_file replies tmp os).1).1 in
        Replaces path tmp text os os' × Tidy os os'
  opened_status path tmp text os fd apart fresh e =
      let (number, files, opens, strays) = open_file-some replies tmp os fd e in
      let os1 = (open_file replies tmp os).1 in
      let (closed, rest) =
        write_status_stream-closes replies path tmp text apart fd os1 (rw opens (ground arith)) in
      let file =
        write_status_stream-file replies path tmp text apart fd os1
          (rw files (ground (arith, bytes_eq_refl tmp))) in
      let other_file = write_status_stream-others replies path tmp text apart fd os1 in
      (
        record {
          old_or_new = ground (arith, files path, bytes_eq_iff tmp path);
          others = λ other p t.
              other_file other p t ∙ files other ∙ ground (arith, bytes_eq_iff tmp other);
        },
        record { same_open = λ n. rest n ∙ ground (arith, opens n); no_stray = closed ∙ strays },
      )

  replace_status-atomic :
      (path tmp text : Bytes) (os : Os)
      → tmp ≢ path
      → os.is_open os.next_fd ≡ false
      → let os' = (replace_status replies path tmp text os).1 in
        Replaces path tmp text os os' × Tidy os os'
  unfolding replace_status write_opened_status
  replace_status-atomic path tmp text os apart fresh =
      elim (Option-cases (open_file replies tmp os).0) [
        | inl missing ↦ rw missing (
            rw (open_file-none replies tmp os missing)
              (Replaces-none path tmp text os _ refl refl refl))
        | inr (fd, found) ↦ rw found (opened_status path tmp text os fd apart fresh found)
      ]

  -- `write_capture_status`, whatever calls fail, with the next descriptor free: afterwards the
  -- status file is as it was or holds exactly the new status line, never a part of it; no file but
  -- it and its temporary is touched; and every descriptor that it opened is closed, once.
  pub write_capture_status-atomic :
      (pid path status : Bytes) (os : Os)
      → os.is_open os.next_fd ≡ false
      → let os' = (write_capture_status replies pid path (some status) os).1 in
        Replaces path (status_tmp pid path) (status ++ (newline ∷ [])) os os' × Tidy os os'
  unfolding write_capture_status
  write_capture_status-atomic pid [] status os fresh = Replaces-none _ _ _ os os refl refl refl
  write_capture_status-atomic pid (c ∷ cs) status os fresh =
      let made = ensure_parent_dir-MakesOnly replies (some (c ∷ cs)) os in
      let os1 = (ensure_parent_dir replies (some (c ∷ cs)) os).1 in
      let tmp = status_tmp pid (c ∷ cs) in
      let text = status ++ (newline ∷ []) in
      elim (Bool-cases
        (not (ensure_parent_dir replies (some (c ∷ cs)) os).0 || leb 8192 (length tmp))) [
          | inl stop ↦
              rw stop
                (Replaces-none (c ∷ cs) tmp text os os1 made.files made.is_open made.stray_closes)
          | inr go ↦ rw go (
              let (r, t) =
                replace_status-atomic (c ∷ cs) tmp text os1
                  (append-ne (c ∷ cs) (bytes ".tmp." ++ pid) (omega arith))
                  (rw (made.is_open, made.next_fd) fresh) in
              Replaces-after (c ∷ cs) tmp text os os1 _ made.files made.is_open made.stray_closes r
                t)
        ]
