-- ===== src/Posix/Balance.antt =====
-- Descriptors: what opens none and closes none, and what closes all that it opens.
use okay_hermes_realtime.Base.{
  ℕ, ◌+◌, ◌≤◌, ◌≡◌, refl, ap, ◌∙◌, Bool, true, false, Option, none, some, arith, ◌==◌,
  if◌then◌else◌, Bool-cases, inl, inr, Option-cases,
}
use okay_hermes_realtime.Base.Bytes.{Bytes}
use okay_hermes_realtime.Posix.{
  Replies, Os, Io, ◌&&>◌, call, open_file, close, unlink, rename, flush, append_at,
}
use okay_hermes_realtime.Posix.Files.{open_file-some, open_file-none}
use okay_hermes_realtime.Posix.Write.{Written, deliver, write_all, write_all_to}

-- The descriptors are as they were.
pub record Same (before after : Os) : Type 0 where
  pub is_open : after.is_open ≡ before.is_open
  pub next_fd : after.next_fd ≡ before.next_fd

-- No descriptor has been opened and kept, or closed that was there; numbers may have been used up.
pub record Balanced (before after : Os) : Type 0 where
  pub same_open : (fd : ℕ) → after.is_open fd ≡ before.is_open fd
  pub grows : before.next_fd ≤ after.next_fd

-- Descriptors that have not been given out are closed.
abbrev pub IsFresh : Os → Type 0
IsFresh os = (fd : ℕ) → os.next_fd ≤ fd → os.is_open fd ≡ false

pub Same-trans : (a b c : Os) → Same a b → Same b c → Same a c
Same-trans a b c s t = record { is_open = t.is_open ∙ s.is_open; next_fd = t.next_fd ∙ s.next_fd }

pub Balanced-trans : (a b c : Os) → Balanced a b → Balanced b c → Balanced a c
Balanced-trans a b c s t = record {
  same_open = λ fd. t.same_open fd ∙ s.same_open fd;
  grows = omega (arith, s.grows, t.grows);
}

pub Same-Balanced : (a b : Os) → Same a b → Balanced a b
Same-Balanced a b s = record {
  same_open = λ fd. ap (λ g. g fd) s.is_open;
  grows = omega (arith, s.next_fd);
}

pub unchanged : (os : Os) → Balanced os os
unchanged os = record { same_open = λ fd. refl; grows = omega arith }

pub Balanced-IsFresh : (a b : Os) → Balanced a b → IsFresh a → IsFresh b
Balanced-IsFresh a b s fresh fd le = s.same_open fd ∙ fresh fd (omega (arith, s.grows))

pub and_Same :
    (m k : Io Bool)
    → ((os : Os) → Same os (m os).1)
    → ((os : Os) → Same os (k os).1)
    → (os : Os) → Same os ((m &&> k) os).1
and_Same m k a b os = elim (Bool-cases (m os).0) [
  | inl done ↦ rw done (Same-trans os (m os).1 (k (m os).1).1 (a os) (b (m os).1))
  | inr failed ↦ rw failed (a os)
]

pub and_Balanced :
    (m k : Io Bool) (os : Os)
    → IsFresh os
    → ((a : Os) → IsFresh a → Balanced a (m a).1)
    → ((a : Os) → IsFresh a → Balanced a (k a).1)
    → Balanced os ((m &&> k) os).1
and_Balanced m k os fresh a b = elim (Bool-cases (m os).0) [
  | inl done ↦ rw done (
      Balanced-trans os (m os).1 (k (m os).1).1 (a os fresh)
        (b (m os).1 (Balanced-IsFresh os (m os).1 (a os fresh) fresh)))
  | inr failed ↦ rw failed (a os fresh)
]

module _ (replies : Replies) where
  pub call-Same : (os : Os) → Same os (call replies os).1
  unfolding call
  call-Same os = record { is_open = refl; next_fd = refl }

  pub unlink-Same : (path : Bytes) (os : Os) → Same os (unlink replies path os).1
  unfolding unlink
  unlink-Same path os = record { is_open = ground arith; next_fd = ground arith }

  pub rename-Same : (from to : Bytes) (os : Os) → Same os (rename replies from to os).1
  unfolding rename
  rename-Same from to os = record { is_open = ground arith; next_fd = ground arith }

  append_at-Same :
      (content : Option Bytes) (path more : Bytes) (os : Os)
      → Same os (append_at content path more os)
  append_at-Same none path more os = record { is_open = refl; next_fd = refl }
  append_at-Same (some content) path more os = record { is_open = refl; next_fd = refl }

  pub flush-Same : (path text : Bytes) (os : Os) → Same os (flush replies path text os).1
  unfolding flush call
  flush-Same path text os = elim (Bool-cases (call replies os).0) [
    | inl done ↦
        let s = append_at-Same (os.files path) path text (record os { calls = os.calls + 1 }) in
        rw done (record { is_open = s.is_open; next_fd = s.next_fd })
    | inr failed ↦ rw failed (record { is_open = refl; next_fd = refl })
  ]

  deliver-Same :
      (path : Bytes) (os : Os) (result : Option Written) → Same os (deliver path os result).1
  deliver-Same path os none = record { is_open = refl; next_fd = refl }
  deliver-Same path os (some w) =
      let s = append_at-Same (os.files path) path w.sink (record os { calls = w.next_call }) in
      record { is_open = s.is_open; next_fd = s.next_fd }

  pub write_all_to-Same :
      (path buffer : Bytes) (os : Os) → Same os (write_all_to replies path buffer os).1
  unfolding write_all_to
  write_all_to-Same path buffer os = deliver-Same path os (write_all replies buffer os.calls)

  -- Closing an open descriptor closes that one, whatever is reported.
  pub close_open :
      (fd : ℕ) (os : Os)
      → os.is_open fd ≡ true
      → ((n : ℕ) → (close replies fd os).1.is_open n ≡ (if n == fd then false else os.is_open n))
        × ((close replies fd os).1.next_fd ≡ os.next_fd)
  unfolding close call
  close_open fd os opened = rw opened (λ n. refl, refl)

  -- Closing one that is closed changes nothing.
  pub close-Same : (fd : ℕ) (os : Os) → os.is_open fd ≡ false → Same os (close replies fd os).1
  unfolding close call
  close-Same fd os closed = rw closed (record { is_open = refl; next_fd = refl })

  open_file-next_fd :
      (path : Bytes) (os : Os) (fd : ℕ)
      → (open_file replies path os).0 ≡ some fd
      → (open_file replies path os).1.next_fd ≡ os.next_fd + 1
  unfolding open_file call
  open_file-next_fd path os fd e = ground arith

  -- What follows a successful `open` closes its descriptor.
  abbrev pub Closes : ℕ → Os → Os → Type 0
  Closes fd before after =
      ((n : ℕ) → after.is_open n ≡ (if n == fd then false else before.is_open n))
      × (after.next_fd ≡ before.next_fd)

  -- A file that is opened and closed again, or that could not be opened.
  pub open_file-Balanced :
      {A : Type 0} (path : Bytes) (k : Option ℕ → Io A) (os : Os)
      → IsFresh os
      → ((os' : Os) → Same os' (k none os').1)
      → ((fd : ℕ) (os' : Os) → os'.is_open fd ≡ true → Closes fd os' (k (some fd) os').1)
      → Balanced os (k (open_file replies path os).0 (open_file replies path os).1).1
  open_file-Balanced path k os fresh unopened opened =
      let os1 = (open_file replies path os).1 in
      elim (Option-cases (open_file replies path os).0) [
        | inl missing ↦
            let kept : Same os os1 =
              rw (open_file-none replies path os missing)
                (record { is_open = refl; next_fd = refl }) in
            rw missing (
              Same-Balanced os (k none os1).1
                (Same-trans os os1 (k none os1).1 kept (unopened os1)))
        | inr (fd, found) ↦
            let (new, files, open', stray) = open_file-some replies path os fd found in
            let (after, next) = opened fd os1 (open' fd ∙ ground arith) in
            rw found (record {
              same_open = λ n. after n ∙ ground (arith, open' n, fresh fd, new);
              grows = omega (arith, next, open_file-next_fd path os fd found);
            })
      ]
