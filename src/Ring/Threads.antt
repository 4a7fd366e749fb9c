-- ===== src/Ring/Threads.antt =====
-- The ring between its two threads: `ring_write` and `ring_snapshot_latest` of
-- native/okay-hermes-realtime-wake-listener.c, cut into the accesses that the other thread can see.
-- A schedule says which thread makes its next access; the atomics are sequentially consistent.
pub mod Store
pub mod Copy
use okay_hermes_realtime.Base.{
  ℕ, ◌+◌, ◌-◌, ◌%◌, Bool, true, false, ◌||◌, List, [], ◌∷◌, ◌++◌, ltb, ◌==◌, if◌then◌else◌, length,
  get_or, set,
}
use okay_hermes_realtime.Ring.{size_mod}

-- Where the writer stands: outside, in its loop with the local `write_index`, the rest of its
-- samples and `count`, or before the update of `total_written`.
pub data Writer (A : Type 0) : Type 0 where
  resting : Writer A
  writing : ℕ → List A → ℕ → Writer A
  counting : ℕ → Writer A

-- Where the reader stands: outside, behind the test of `total_written`, in its loop with
-- `read_index` and what it has copied, or done. `start` is the length of the published stream when
-- `write_index` was loaded; the code does not keep it.
pub data Reader (A : Type 0) : Type 0 where
  waiting : Reader A
  unavailable : Reader A
  available : Reader A
  copying : (read_index start : ℕ) → List A → Reader A
  finished : (start : ℕ) → List A → Reader A

-- The shared fields with both threads. `written` lists all samples stored so far, and the first
-- `published` of them are those that `write_index` counts; the code keeps neither.
pub record System (A : Type 0) : Type 0 where
  pub samples : List A
  pub write_index : ℕ
  pub total_written : ℕ
  pub writer : Writer A
  pub reader : Reader A
  pub written : List A
  pub published : ℕ

pub data Turn (A : Type 0) : Type 0 where
  call_write : List A → Turn A
  step_writer : Turn A
  call_snapshot : Turn A
  step_reader : Turn A

module _ {A : Type 0} (zero_sample : A) (capacity out_capacity : ℕ) where
  -- `ring_write(ring, samples, count)` up to its load of `write_index`.
  abbrev pub enter_write : List A → System A → Writer A → System A
  enter_write src s resting =
      if length src == 0 then s else record s { writer = writing s.write_index src (length src) }
  enter_write src s _ = s

  -- The next access of the writer: a sample, `write_index`, or `total_written`.
  abbrev pub write_access : System A → Writer A → System A
  write_access s resting = s
  write_access s (writing write_index (x ∷ rest) count) = record s {
    samples = set s.samples write_index x;
    written = s.written ++ (x ∷ []);
    writer = writing ((write_index + 1) % size_mod % capacity) rest count;
  }
  write_access s (writing write_index [] count) = record s {
    write_index = write_index;
    published = length s.written;
    writer = counting count;
  }
  write_access s (counting count) = record s {
    total_written = (s.total_written + count) % size_mod;
    writer = resting;
  }

  -- `ring_snapshot_latest(ring, out, out_capacity)` up to its test of `total_written`.
  abbrev pub enter_snapshot : System A → Reader A
  enter_snapshot s =
      if out_capacity == 0 || ltb s.total_written out_capacity then unavailable else available

  abbrev pub call_reader : System A → Reader A → Reader A
  call_reader s waiting = enter_snapshot s
  call_reader s reader = reader

  abbrev pub read_index_at : ℕ → ℕ
  read_index_at write_index =
      (write_index + capacity + size_mod - out_capacity) % size_mod % capacity

  -- The next access of the reader: `write_index`, or a sample.
  abbrev pub read_access : System A → Reader A → Reader A
  read_access s waiting = waiting
  read_access s unavailable = waiting
  read_access s available = copying (read_index_at s.write_index) s.published []
  read_access s (copying read_index start out) =
      if ltb (length out) out_capacity
      then copying read_index start (
          out
          ++ (get_or s.samples ((read_index + length out) % size_mod % capacity) zero_sample ∷ []))
      else finished start out
  read_access s (finished start out) = waiting

  unfoldable pub step : Turn A → System A → System A
  step (call_write src) s = enter_write src s s.writer
  step step_writer s = write_access s s.writer
  step call_snapshot s = record s { reader = call_reader s s.reader }
  step step_reader s = record s { reader = read_access s s.reader }

  unfoldable pub run : List (Turn A) → System A → System A
  run [] s = s
  run (a ∷ schedule) s = run schedule (step a s)
