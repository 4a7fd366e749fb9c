-- ===== src/Ring/Threads/Store.antt =====
-- What holds of the ring between two accesses, and that the writer keeps it.
use native.Mathlib.Nat.{mod-le}
use okay_hermes_realtime.Base.{
  ℕ, ◌+◌, ◌-◌, ◌%◌, ◌≤◌, ◌<◌, ◌≡◌, refl, sym, ◌∙◌, List, [], ◌∷◌, ◌++◌, arith, ◌==◌, length, get_or,
  length-append, get_or-append_left, Bool-cases, inl, inr,
}
use okay_hermes_realtime.Ring.{size_mod}
use okay_hermes_realtime.Ring.Inv.{Stores, Stores-push}
use okay_hermes_realtime.Ring.Threads.{
  Writer, resting, writing, counting, Reader, waiting, unavailable, available, copying, finished,
  System, enter_write, write_access,
}

-- Every sample copied is that of the stream, unless its cell has been stored to again.
pub record IsIntact {A : Type 0} (d : A) (c n : ℕ) (written : List A) (start : ℕ) (out : List A)
    : Type 0 where
  pub enough : n ≤ start
  pub past : start ≤ length written
  pub sample :
      (j : ℕ)
      → j < length out
      → length written ≤ start - n + j + c
      → get_or out j d ≡ get_or written (start - n + j) d

module _ {A : Type 0} (d : A) (c n : ℕ) where
  -- The writer's index is that of the next cell, and `total_written` lags behind what is stored.
  abbrev pub Writes : List A → ℕ → ℕ → List A → ℕ → Writer A → Type 0
  Writes samples write_index total written published resting =
      Stores d written c samples write_index × (published ≡ length written) × (total ≤ published)
  Writes samples write_index total written published (writing w rest count) =
      Stores d written c samples w
      × (total + count ≤ length written + length rest)
      × (total ≤ published)
  Writes samples write_index total written published (counting count) =
      Stores d written c samples write_index
      × (published ≡ length written)
      × (total + count ≤ published)

  abbrev pub Reads : List A → ℕ → Reader A → Type 0
  Reads written published waiting = Unit
  Reads written published unavailable = Unit
  Reads written published available = n ≤ published
  Reads written published (copying r start out) =
      IsIntact d c n written start out × (r ≡ (start - n) % c) × (length out ≤ n)
  Reads written published (finished start out) = IsIntact d c n written start out × (length out ≡ n)

  pub record IsConsistent (s : System A) : Type 0 where
    pub index : s.write_index ≡ s.published % c
    pub behind : s.published ≤ length s.written
    pub writes : Writes s.samples s.write_index s.total_written s.written s.published s.writer
    pub reads : Reads s.written s.published s.reader

  -- A further sample in the stream takes nothing away.
  IsIntact-grow :
      {written : List A} {start : ℕ} {out : List A} (x : A)
      → IsIntact d c n written start out
      → length out ≤ n
      → IsIntact d c n (written ++ (x ∷ [])) start out
  IsIntact-grow {written} {start} {out} x v short = record {
    enough = v.enough;
    past = omega (arith, v.past, length-append written (x ∷ []));
    sample = λ j lt near.
        v.sample j lt (omega (arith, length-append written (x ∷ [])))
        ∙ sym (
            get_or-append_left written (x ∷ []) (start - n + j) d
              (omega (arith, v.past, v.enough)));
  }

  Reads-grow :
      (written : List A) (published : ℕ) (x : A) (reader : Reader A)
      → Reads written published reader
      → Reads (written ++ (x ∷ [])) published reader
  Reads-grow written published x waiting v = tt
  Reads-grow written published x unavailable v = tt
  Reads-grow written published x available v = v
  Reads-grow written published x (copying r start out) (v, place, short) =
      (IsIntact-grow x v short, place, short)
  Reads-grow written published x (finished start out) (v, whole) =
      (IsIntact-grow x v (omega arith), whole)

  -- What the reader knows of the published stream holds of a longer one.
  Reads-publish :
      (written : List A) (published more : ℕ) (reader : Reader A)
      → published ≤ more
      → Reads written published reader
      → Reads written more reader
  Reads-publish written published more waiting le v = tt
  Reads-publish written published more unavailable le v = tt
  Reads-publish written published more available le v = omega arith
  Reads-publish written published more (copying r start out) le v = v
  Reads-publish written published more (finished start out) le v = v

  pub call_write-IsConsistent :
      (src : List A) (s : System A) (writer : Writer A)
      → IsConsistent s
      → Writes s.samples s.write_index s.total_written s.written s.published writer
      → IsConsistent (enter_write d c n src s writer)
  call_write-IsConsistent src s resting k (stores, all, lag) = elim (Bool-cases (length src == 0)) [
    | inl nothing ↦ rw nothing k
    | inr more ↦ rw more (record {
      index = k.index;
      behind = k.behind;
      writes = (stores, omega arith, lag);
      reads = k.reads;
    })
  ]
  call_write-IsConsistent src s (writing w rest count) k v = k
  call_write-IsConsistent src s (counting count) k v = k

  pub step_writer-IsConsistent :
      (s : System A) (writer : Writer A)
      → IsConsistent s
      → Writes s.samples s.write_index s.total_written s.written s.published writer
      → IsConsistent (write_access d c n s writer)
  step_writer-IsConsistent s resting k v = k
  step_writer-IsConsistent s (writing w (x ∷ rest) count) k (stores, total, lag) = record {
    index = k.index;
    behind = omega (arith, k.behind, length-append s.written (x ∷ []));
    writes = (Stores-push d x stores, omega (arith, length-append s.written (x ∷ [])), lag);
    reads = Reads-grow s.written s.published x s.reader k.reads;
  }
  step_writer-IsConsistent s (writing w [] count) k (stores, total, lag) = record {
    index = stores.index;
    behind = omega arith;
    writes = (stores, refl, omega arith);
    reads = Reads-publish s.written s.published (length s.written) s.reader k.behind k.reads;
  }
  step_writer-IsConsistent s (counting count) k (stores, all, total) = record {
    index = k.index;
    behind = k.behind;
    writes = (stores, all, omega (arith, mod-le (s.total_written + count) size_mod));
    reads = k.reads;
  }
