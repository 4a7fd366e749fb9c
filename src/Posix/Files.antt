-- ===== src/Posix/Files.antt =====
-- What single operations do to files and descriptors.
use okay_hermes_realtime.Base.{
  ℕ, ◌≡◌, refl, ap, ◌∙◌, ◌≢◌, true, some, ◌++◌, arith, take, take-length, if◌then◌else◌, none, ◌+◌,
  ◌==◌, [],
}
use okay_hermes_realtime.Base.Bytes.{Bytes, bytes_eq_iff, bytes_eq_refl, bytes_eq}
use okay_hermes_realtime.Posix.{Replies, Os, open_file, append_to}
use okay_hermes_realtime.Posix.Write.{write_all_to, write_all-Outcome}

-- The second state differs from the first in the file at `path` at most, and in its calls.
pub record OnlyFile (path : Bytes) (before after : Os) : Type 0 where
  pub others : (other : Bytes) → other ≢ path → after.files other ≡ before.files other
  pub is_open : after.is_open ≡ before.is_open
  pub next_fd : after.next_fd ≡ before.next_fd
  pub stray_closes : after.stray_closes ≡ before.stray_closes

append_to-OnlyFile :
    (path more content : Bytes) (os : Os) (calls : ℕ)
    → os.files path ≡ some content
    → let os' = append_to path more (record os { calls = calls }) in
      OnlyFile path os os' × (os'.files path ≡ some (content ++ more))
append_to-OnlyFile path more content os calls here = rw here (
  record {
    others = λ other ne. ground (arith, bytes_eq_iff path other);
    is_open = refl;
    next_fd = refl;
    stray_closes = refl;
  },
  ground (arith, bytes_eq_refl path),
)

module _ (replies : Replies) where
  -- `write_all` on an existing file touches no other, and if it succeeds the file has grown by
  -- exactly the buffer.
  pub write_all_to_lem :
      (path buffer content : Bytes) (os : Os)
      → os.files path ≡ some content
      → let (done, os') = write_all_to replies path buffer os in
        OnlyFile path os os'
        × (done ≡ true → os'.files path ≡ some (content ++ buffer))
        × ((content' : Bytes) × (os'.files path ≡ some content'))
  unfolding write_all_to
  write_all_to_lem path buffer content os here =
      let o = write_all-Outcome replies buffer os.calls in
      let (only, now) =
        append_to-OnlyFile path o.written.sink content os o.written.next_call here in
      rw o.returns (
        only,
        (λ c.
            now
            ∙ ap (λ b. some (content ++ b))
                (o.arrived ∙ ap (λ n. take n buffer) (o.all c) ∙ take-length buffer)),
        (content ++ o.written.sink, now),
      )

  -- Opening truncates or creates the file, under a descriptor that counts as open.
  pub open_file-some :
      (tmp : Bytes) (os : Os) (fd : ℕ)
      → (open_file replies tmp os).0 ≡ some fd
      → let os' = (open_file replies tmp os).1 in
        (fd ≡ os.next_fd)
        × ((p : Bytes) → os'.files p ≡ (if bytes_eq tmp p then some [] else os.files p))
        × ((n : ℕ) → os'.is_open n ≡ (if n == fd then true else os.is_open n))
        × (os'.stray_closes ≡ os.stray_closes)
  unfolding open_file
  open_file-some tmp os fd e = (ground arith, λ p. ground arith, λ n. ground arith, ground arith)

  pub open_file-none :
      (tmp : Bytes) (os : Os)
      → (open_file replies tmp os).0 ≡ none
      → (open_file replies tmp os).1 ≡ record os { calls = os.calls + 1 }
  unfolding open_file
  open_file-none tmp os e = ground arith
