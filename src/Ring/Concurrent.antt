-- ===== src/Ring/Concurrent.antt =====
-- `ring_write` and `ring_snapshot_latest` in two threads, in any schedule.
use native.Mathlib.Nat.{mod-le}
use okay_hermes_realtime.Base.{
  ℕ, ◌≤◌, ◌≡◌, refl, List, [], ◌∷◌, arith, length, ltb, ltb→lt, ltb-false→le, Bool-cases, inl, inr,
  ◌==◌, get_or, length-append, ◌-◌, ap, ◌∙◌, ◌+◌, ◌%◌,
}
use okay_hermes_realtime.Ring.{SampleRing, size_mod}
use okay_hermes_realtime.Ring.Inv.{Holds}
use okay_hermes_realtime.Ring.Threads.{
  resting, waiting, finished, System, Turn, call_write, step_writer, call_snapshot, step_reader,
  step, run, unavailable, available, copying, read_access, write_access, enter_write, writing,
  counting, Writer, Reader,
}
use okay_hermes_realtime.Ring.Threads.Store.{
  IsIntact, IsConsistent, call_write-IsConsistent, step_writer-IsConsistent,
}
use okay_hermes_realtime.Ring.Threads.Copy.{call_reader-Reads, step_reader-Reads}

module _ {A : Type 0} (d : A) (c n : ℕ) (fits : n ≤ c) where
  step-IsConsistent :
      (a : Turn A) (s : System A) → IsConsistent d c n s → IsConsistent d c n (step d c n a s)
  unfolding step
  step-IsConsistent (call_write src) s k = call_write-IsConsistent d c n src s s.writer k k.writes
  step-IsConsistent step_writer s k = step_writer-IsConsistent d c n s s.writer k k.writes
  step-IsConsistent call_snapshot s k = record {
    index = k.index;
    behind = k.behind;
    writes = k.writes;
    reads = call_reader-Reads d c n fits s s.reader k k.reads;
  }
  step-IsConsistent step_reader s k = record {
    index = k.index;
    behind = k.behind;
    writes = k.writes;
    reads = step_reader-Reads d c n fits s s.reader k k.reads;
  }

  run-IsConsistent :
      (schedule : List (Turn A)) (s : System A)
      → IsConsistent d c n s
      → IsConsistent d c n (run d c n schedule s)
  unfolding run
  run-IsConsistent [] s k = k
  run-IsConsistent (a ∷ schedule) s k =
      run-IsConsistent schedule (step d c n a s) (step-IsConsistent a s k)

-- Both threads outside, at a ring with this storage.
abbrev pub at_rest : {A : Type 0} → List A → List A → SampleRing A → System A
at_rest buf h ring = record {
  samples = buf;
  write_index = ring.write_index;
  total_written = ring.total_written;
  writer = resting;
  reader = waiting;
  written = h;
  published = length h;
}

-- Between its two threads, in every schedule of their accesses from a ring that holds the end of a
-- stream, for a request of at most its capacity: a snapshot that `ring_snapshot_latest` has
-- finished has exactly the requested length, and each of its samples is the sample of the stream
-- at its place in the window that ends where the published stream ended when `write_index` was
-- loaded, as long as no later sample has been stored to the same cell; so none is wrong before
-- `ring_write` has stored `capacity - out_capacity` samples more.
pub run-IsIntact :
    {A : Type 0} (d : A) (h : List A) (ring : SampleRing A) (out_capacity : ℕ)
    (schedule : List (Turn A)) (start : ℕ) (out : List A) (v : Holds d h ring)
    → out_capacity ≤ ring.capacity
    → (run d ring.capacity out_capacity schedule (at_rest v.buf h ring)).reader ≡ finished start out
    → IsIntact d ring.capacity out_capacity
        (run d ring.capacity out_capacity schedule (at_rest v.buf h ring)).written
        start
        out
      × (length out ≡ out_capacity)
run-IsIntact d h ring n schedule start out v fits e =
    let k : IsConsistent d ring.capacity n (at_rest v.buf h ring) = record {
      index = v.stores.index;
      behind = omega arith;
      writes = (v.stores, refl, omega (arith, v.counted, mod-le (length h) size_mod));
      reads = tt;
    } in
    rw e at (run-IsConsistent d ring.capacity n fits schedule (at_rest v.buf h ring) k).reads

-- How many more accesses of its own the reader makes before `ring_snapshot_latest` has returned.
abbrev pub remaining : {A : Type 0} → ℕ → Reader A → ℕ
remaining n waiting = 0
remaining n unavailable = 1
remaining n available = n + 3
remaining n (copying read_index start out) = n - length out + 2
remaining n (finished start out) = 1

-- The turns of the reader in a schedule.
abbrev pub turns : {A : Type 0} → List (Turn A) → ℕ
turns [] = 0
turns (step_reader ∷ schedule) = turns schedule + 1
turns (other ∷ schedule) = turns schedule

-- The schedule does not call `ring_snapshot_latest` again.
abbrev pub IsOneCall : {A : Type 0} → List (Turn A) → Type 0
IsOneCall [] = Unit
IsOneCall (call_snapshot ∷ schedule) = ⊥
IsOneCall (other ∷ schedule) = IsOneCall schedule

read_access-remaining :
    {A : Type 0} (d : A) (c n : ℕ) (s : System A) (reader : Reader A)
    → remaining n (read_access d c n s reader) ≡ remaining n reader - 1
read_access-remaining d c n s waiting = refl
read_access-remaining d c n s unavailable = refl
read_access-remaining d c n s available = omega arith
read_access-remaining d c n s (copying r start out) = elim (Bool-cases (ltb (length out) n)) [
  | inl more ↦ rw more (
      omega (
        arith,
        ltb→lt (length out) n more,
        length-append out (get_or s.samples ((r + length out) % size_mod % c) d ∷ []),
      ))
  | inr all ↦ rw all (omega (arith, ltb-false→le (length out) n all))
]
read_access-remaining d c n s (finished start out) = refl

-- A step of the writer does not touch the reader.
writer-reader :
    {A : Type 0} (d : A) (c n : ℕ) (s : System A) (writer : Writer A)
    → (write_access d c n s writer).reader ≡ s.reader
writer-reader d c n s resting = refl
writer-reader d c n s (writing w (x ∷ rest) count) = refl
writer-reader d c n s (writing w [] count) = refl
writer-reader d c n s (counting count) = refl

enter_write-reader :
    {A : Type 0} (d : A) (c n : ℕ) (src : List A) (s : System A) (writer : Writer A)
    → (enter_write d c n src s writer).reader ≡ s.reader
enter_write-reader d c n src s resting = elim (Bool-cases (length src == 0)) [
  | inl e ↦ rw e refl
  | inr e ↦ rw e refl
]
enter_write-reader d c n src s (writing w rest count) = refl
enter_write-reader d c n src s (counting count) = refl

-- `ring_snapshot_latest` never waits for the writer: in every schedule that does not call it again,
-- each turn of the reader takes one from the number of accesses that remain, whatever the writer
-- does in between. So a call has returned after at most `out_capacity + 3` turns of its own.
pub run-remaining :
    {A : Type 0} (d : A) (capacity out_capacity : ℕ) (schedule : List (Turn A)) (s : System A)
    → IsOneCall schedule
    → remaining out_capacity (run d capacity out_capacity schedule s).reader
      ≡ remaining out_capacity s.reader - turns schedule
unfolding run step
run-remaining d c n [] s v = omega arith
run-remaining d c n (call_write src ∷ schedule) s v =
    run-remaining d c n schedule (enter_write d c n src s s.writer) v
    ∙ ap (λ r. remaining n r - turns schedule) (enter_write-reader d c n src s s.writer)
run-remaining d c n (step_writer ∷ schedule) s v =
    run-remaining d c n schedule (write_access d c n s s.writer) v
    ∙ ap (λ r. remaining n r - turns schedule) (writer-reader d c n s s.writer)
run-remaining d c n (step_reader ∷ schedule) s v =
    run-remaining d c n schedule (record s { reader = read_access d c n s s.reader }) v
    ∙ omega (arith, read_access-remaining d c n s s.reader)
run-remaining d c n (call_snapshot ∷ schedule) s v = absurd v
