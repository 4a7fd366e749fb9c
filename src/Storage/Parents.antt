-- ===== src/Storage/Parents.antt =====
-- What `ensure_parent_dir` does: it makes every directory above a path where no file stands, and
-- nothing else.
use okay_hermes_realtime.Base.{
  ℕ, ◌+◌, ◌<◌, ◌≡◌, refl, ap, ◌∙◌, Bool, true, false, ◌||◌, Option, none, some, List, [], ◌∷◌, ◌++◌,
  ◌==◌, arith, length, if◌then◌else◌, Bool-cases, Option-cases, inl, inr, append_assoc, append-nil,
}
use okay_hermes_realtime.Base.Bytes.{Bytes, bytes_eq, bytes_eq_refl, snprintf, snprintf_fits}
use okay_hermes_realtime.Posix.{Replies, Os, Io, ◌&&>◌, mkdir, make_directory, is_accept}
use okay_hermes_realtime.Storage.{
  mkdir_loop, mkdir_parents, ensure_parent_dir, before_last_slash, slash,
}

-- The directory is among those made or found.
abbrev pub contains : Bytes → List Bytes → Bool
contains d [] = false
contains d (x ∷ xs) = bytes_eq x d || contains d xs

abbrev is_some : Option Bytes → Bool
is_some none = false
is_some (some content) = true

-- The path is taken: by a file, or by a directory among those made or found.
abbrev pub is_there : Bytes → (Bytes → Option Bytes) → List Bytes → Bool
is_there d files made = is_some (files d) || contains d made

-- The second state has the files and descriptors of the first, and all its directories.
pub record OnlyMakes (before after : Os) : Type 0 where
  pub files : after.files ≡ before.files
  pub is_open : after.is_open ≡ before.is_open
  pub next_fd : after.next_fd ≡ before.next_fd
  pub stray_closes : after.stray_closes ≡ before.stray_closes
  pub keeps :
      (d : Bytes) → contains d before.directories ≡ true → contains d after.directories ≡ true

OnlyMakes-refl : (os : Os) → OnlyMakes os os
OnlyMakes-refl os = record {
  files = refl;
  is_open = refl;
  next_fd = refl;
  stray_closes = refl;
  keeps = λ d h. h;
}

-- A step that only makes directories, from any state.
abbrev MakesOnly : Io Bool → Type 0
MakesOnly m = (os : Os) → OnlyMakes os (m os).1

&&>-MakesOnly : (m k : Io Bool) → MakesOnly m → MakesOnly k → MakesOnly (m &&> k)
&&>-MakesOnly m k hm hk os = elim (Bool-cases (m os).0) [
  | inl done ↦ rw done (
      let a = hm os in
      let b = hk (m os).1 in
      record {
        files = b.files ∙ a.files;
        is_open = b.is_open ∙ a.is_open;
        next_fd = b.next_fd ∙ a.next_fd;
        stray_closes = b.stray_closes ∙ a.stray_closes;
        keeps = λ d h. b.keeps d (a.keeps d h);
      })
  | inr failed ↦ rw failed (hm os)
]

if-MakesOnly :
    (b : Bool) (m k : Io Bool) → MakesOnly m → MakesOnly k → MakesOnly (if b then m else k)
if-MakesOnly true m k hm hk = hm
if-MakesOnly false m k hm hk = hk

-- `before` with each part of `rest` that ends at a slash, and with all of it, is a directory among
-- those made or found, or one of the files.
abbrev pub Makes : Bytes → Bytes → (Bytes → Option Bytes) → List Bytes → Type 0
Makes before rest files made =
    (is_there (before ++ rest) files made ≡ true)
    × ((a b : Bytes) → rest ≡ a ++ (slash ∷ b) → is_there (before ++ a) files made ≡ true)

is_there-grows :
    (d : Bytes) (before after : Os)
    → OnlyMakes before after
    → is_there d before.files before.directories ≡ true
    → is_there d before.files after.directories ≡ true
is_there-grows d before after m h = elim (Bool-cases (is_some (before.files d))) [
  | inl file ↦ rw file refl
  | inr free ↦ rw free (m.keeps d (rw free at h))
]

no_slash : (a b : Bytes) → [] ≡ a ++ (slash ∷ b) → ⊥
no_slash [] b e = cc
no_slash (x ∷ a) b e = cc

not_done : false ≡ true → ⊥
not_done h = cc

Makes-step :
    (before : Bytes) (c : ℕ) (rest : Bytes) (files : Bytes → Option Bytes) (made : List Bytes)
    → (c ≡ slash → is_there before files made ≡ true)
    → Makes (before ++ (c ∷ [])) rest files made
    → Makes before (c ∷ rest) files made
Makes-step before c rest files made cut (whole, parts) = (rw append_assoc at whole, go)
  where
    go : (a b : Bytes) → c ∷ rest ≡ a ++ (slash ∷ b) → is_there (before ++ a) files made ≡ true
    go [] b e = rw append-nil (cut (cc))
    go (x ∷ a) b e = rw append_assoc at (rw (same) at (parts a b (cc)))
      where
        same : c ≡ x
        same = cc

make_directory-OnlyMakes :
    (there : Option Bytes) (path : Bytes) (os : Os) → OnlyMakes os (make_directory there path os)
make_directory-OnlyMakes none path os = record {
  files = refl;
  is_open = refl;
  next_fd = refl;
  stray_closes = refl;
  keeps = λ d h. ground arith;
}
make_directory-OnlyMakes (some content) path os = OnlyMakes-refl os

module _ (replies : Replies) where
  mkdir-MakesOnly : (path : Bytes) → MakesOnly (mkdir replies path)
  unfolding mkdir
  mkdir-MakesOnly path os = elim (Bool-cases (is_accept (replies.answer os.calls))) [
    | inl done ↦
        let s =
          make_directory-OnlyMakes (os.files path) path (record os { calls = os.calls + 1 }) in
        rw done (record {
          files = s.files;
          is_open = s.is_open;
          next_fd = s.next_fd;
          stray_closes = s.stray_closes;
          keeps = s.keeps;
        })
    | inr failed ↦ rw failed (record {
      files = refl;
      is_open = refl;
      next_fd = refl;
      stray_closes = refl;
      keeps = λ d h. h;
    })
  ]

  mkdir_loop-MakesOnly : (before rest : Bytes) → MakesOnly (mkdir_loop replies before rest)
  unfolding mkdir_loop
  mkdir_loop-MakesOnly before [] = mkdir-MakesOnly before
  mkdir_loop-MakesOnly before (c ∷ rest) =
      let next = mkdir_loop-MakesOnly (before ++ (c ∷ [])) rest in
      if-MakesOnly (c == slash)
        (mkdir replies before &&> mkdir_loop replies (before ++ (c ∷ [])) rest)
        (mkdir_loop replies (before ++ (c ∷ [])) rest)
        (&&>-MakesOnly (mkdir replies before) (mkdir_loop replies (before ++ (c ∷ [])) rest)
          (mkdir-MakesOnly before) next)
        next

  mkdir_parents-MakesOnly : (directory : Bytes) → MakesOnly (mkdir_parents replies directory)
  unfolding mkdir_parents
  mkdir_parents-MakesOnly [] os = OnlyMakes-refl os
  mkdir_parents-MakesOnly (c ∷ rest) os = mkdir_loop-MakesOnly (c ∷ []) rest os

  -- `ensure_parent_dir` touches no file and no descriptor, and removes no directory.
  pub ensure_parent_dir-MakesOnly :
      (path : Option Bytes) → MakesOnly (ensure_parent_dir replies path)
  unfolding ensure_parent_dir
  ensure_parent_dir-MakesOnly none os = OnlyMakes-refl os
  ensure_parent_dir-MakesOnly (some []) os = OnlyMakes-refl os
  ensure_parent_dir-MakesOnly (some (c ∷ rest)) os =
      elim (Option-cases (before_last_slash (snprintf 4096 (c ∷ rest)))) [
        | inl flat ↦ rw flat (OnlyMakes-refl os)
        | inr (directory, e) ↦ rw e (mkdir_parents-MakesOnly directory os)
      ]

  mkdir-makes :
      (path : Bytes) (os : Os)
      → (mkdir replies path os).0 ≡ true
      → is_there path os.files (mkdir replies path os).1.directories ≡ true
  unfolding mkdir
  mkdir-makes path os h = elim (Option-cases (os.files path)) [
    | inl free ↦ ground (arith, bytes_eq_refl path, free)
    | inr (content, file) ↦ rw file refl
  ]

  -- The loop makes `before` with each part of `rest` that ends at a slash or at the end.
  mkdir_loop-Makes :
      (before rest : Bytes) (os : Os)
      → (mkdir_loop replies before rest os).0 ≡ true
      → Makes before rest os.files (mkdir_loop replies before rest os).1.directories
  unfolding mkdir_loop
  mkdir_loop-Makes before [] os h =
      (rw append-nil (mkdir-makes before os h), λ a b e. absurd (no_slash a b e))
  mkdir_loop-Makes before (c ∷ rest) os h = elim (Bool-cases (c == slash)) [
    | inl cut ↦ elim (Bool-cases (mkdir replies before os).0) [
      | inl done ↦
          let os1 = (mkdir replies before os).1 in
          let made = mkdir-MakesOnly before os in
          let later = mkdir_loop-MakesOnly (before ++ (c ∷ [])) rest os1 in
          let here =
            is_there-grows before os1 _ later (rw (made.files) (mkdir-makes before os done)) in
          let there = mkdir_loop-Makes (before ++ (c ∷ [])) rest os1 (rw (cut, done) at h) in
          rw (cut, done)
            (Makes-step before c rest os.files _ (λ _. rw made.files at here)
              (rw made.files at there))
      | inr failed ↦ absurd (not_done (rw (cut, failed) at h))
    ]
    | inr inside ↦ rw inside (
        Makes-step before c rest os.files _ (λ e. ground arith)
          (mkdir_loop-Makes (before ++ (c ∷ [])) rest os (rw inside at h)))
  ]

  -- If `ensure_parent_dir` succeeds for a path that fits its buffer, the name of the path's
  -- directory is taken, and so is the name of each directory above it, every part of it that ends
  -- before a slash: by a directory, or by a file that was there before. Where no file stood there
  -- is a directory then; `mkdir` does not tell an existing file from an existing directory.
  pub ensure_parent_dir-Makes :
      (path directory : Bytes) (c : ℕ) (os : Os)
      → length path < 4096
      → before_last_slash path ≡ some (c ∷ directory)
      → (ensure_parent_dir replies (some path) os).0 ≡ true
      → Makes (c ∷ []) directory os.files (ensure_parent_dir replies (some path) os).1.directories
  unfolding ensure_parent_dir
  ensure_parent_dir-Makes [] directory c os fits cut h = absurd (not_done h)
  ensure_parent_dir-Makes (b ∷ path) directory c os fits cut h =
      rw (e, mkdir_parents) (mkdir_loop-Makes (c ∷ []) directory os (rw (e, mkdir_parents) at h))
    where
      e : before_last_slash (snprintf 4096 (b ∷ path)) ≡ some (c ∷ directory)
      e = ap before_last_slash (snprintf_fits 4096 (b ∷ path) fits) ∙ cut
