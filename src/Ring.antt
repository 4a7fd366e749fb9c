-- ===== src/Ring.antt =====
-- `struct sample_ring` of native/okay-hermes-realtime-wake-listener.c and its four functions, over
-- any type of samples (`float` in the program) with a `zero`, which `calloc` fills in.
-- A `NULL` storage pointer is `none`. The ring itself is always there: its callers pass addresses
-- of objects. The two atomics are fields; one thread alone writes them.
pub mod Inv
pub mod Snapshot
pub mod Threads
pub mod Concurrent
use okay_hermes_realtime.Base.{
  ℕ, zero, suc, ◌+◌, ◌-◌, ◌*◌, ◌%◌, ◌^◌, Bool, true, false, not, ◌||◌, Option, none, some, List, [],
  ◌∷◌, ltb, leb, ◌==◌, if◌then◌else◌, length, get_or, set, replicate,
}

-- `SIZE_MAX + 1` and `UINT64_MAX + 1`.
abbrev pub size_mod : ℕ
size_mod = 2 ^ 64

pub record SampleRing (A : Type 0) : Type 0 where
  pub samples : Option (List A)
  pub capacity : ℕ
  pub write_index : ℕ
  pub total_written : ℕ

module _ {A : Type 0} where
  -- The loop of `ring_write`: the storage and the local `write_index` after it.
  unfoldable pub write_loop : ℕ → List A → ℕ → List A → List A × ℕ
  write_loop capacity samples write_index [] = (samples, write_index)
  write_loop capacity samples write_index (x ∷ xs) =
      write_loop capacity (set samples write_index x) ((write_index + 1) % size_mod % capacity) xs

  -- `ring_write(ring, samples, count)`; `src` is `samples[0..count)`, and `none` is `NULL`.
  unfoldable pub ring_write : SampleRing A → Option (List A) → SampleRing A
  ring_write ring none = ring
  ring_write ring (some src) = elim ring.samples [
    | none ↦ ring
    | some samples ↦
        if length src == 0 || ring.capacity == 0
        then ring
        else let (samples', write_index) = write_loop ring.capacity samples ring.write_index src in
          record ring {
            samples = some samples';
            write_index = write_index;
            total_written = (ring.total_written + length src) % size_mod;
          }
  ]

module _ {A : Type 0} (zero_sample : A) where
  -- `ring_init`: its status and the ring. `calloc` gives `NULL` when the system has no memory
  -- (`allocated` is false) or when the size in bytes does not fit a `size_t`.
  unfoldable pub ring_init : Bool → ℕ → SampleRing A → Bool × SampleRing A
  ring_init allocated capacity ring =
      if capacity == 0
      then (false, ring)
      else if not allocated || leb size_mod (capacity * 4)
      then (false, record ring { samples = none })
      else (
        true,
        record {
          samples = some (replicate capacity zero_sample);
          capacity = capacity;
          write_index = 0;
          total_written = 0;
        },
      )

  -- The loop of `ring_snapshot_latest`, with the rounds left and `i`.
  unfoldable pub snapshot_loop : List A → ℕ → ℕ → ℕ → ℕ → List A
  snapshot_loop samples capacity read_index zero i = []
  snapshot_loop samples capacity read_index (suc n) i =
      get_or samples ((read_index + i) % size_mod % capacity) zero_sample
      ∷ snapshot_loop samples capacity read_index n (i + 1)

  -- `ring_snapshot_latest(ring, out, out_capacity)`: what it writes to `out` from the start on.
  -- The length of that list is what it returns. A read out of range would give `zero_sample`.
  unfoldable pub ring_snapshot_latest : SampleRing A → ℕ → List A
  ring_snapshot_latest ring out_capacity = elim ring.samples [
    | none ↦ []
    | some samples ↦
        if out_capacity == 0 || ltb ring.total_written out_capacity
        then []
        else let read_index =
            (ring.write_index + ring.capacity + size_mod - out_capacity)
            % size_mod
            % ring.capacity in
          snapshot_loop samples ring.capacity read_index out_capacity 0
  ]

-- `ring_destroy`
unfoldable pub ring_destroy : {A : Type 0} → SampleRing A → SampleRing A
ring_destroy ring = record ring { samples = none; capacity = 0 }
