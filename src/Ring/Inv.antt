-- ===== src/Ring/Inv.antt =====
-- What a ring holds: the last `capacity` samples of the stream that was written to it.
use native.Mathlib.Nat.{mod-lt, mod-add-mod, mod-eq_of_lt, mod-eq-sub-mod}
use okay_hermes_realtime.Base.{
  ℕ, ◌+◌, ◌-◌, ◌*◌, ◌%◌, ◌≤◌, ◌<◌, ◌≡◌, refl, sym, ap, ◌∙◌, ◌≢◌, Bool, true, some, List, [], ◌∷◌,
  ◌++◌, arith, append-nil, append_assoc, length, get_or, set, length-set, length-append, replicate,
  length-replicate, get_or-set_self, get_or-set_ne, get_or-append_left, get_or-append_end, dec_lt,
}
use okay_hermes_realtime.Ring.{SampleRing, size_mod, write_loop, ring_write, ring_init}

-- The storage `buf` with `capacity` cells and the index `w` hold the end of the stream `h`.
pub record Stores {A : Type 0} (zero_sample : A) (h : List A) (capacity : ℕ) (buf : List A) (w : ℕ)
    : Type 0 where
  pub sized : length buf ≡ capacity
  pub positive : 0 < capacity
  pub small : capacity * 4 < size_mod
  pub index : w ≡ length h % capacity
  pub recent :
      (p : ℕ)
      → p < length h
      → length h ≤ p + capacity
      → get_or buf (p % capacity) zero_sample ≡ get_or h p zero_sample

-- Two positions less than `c` apart have different indices.
pub mod-ne : (c p k : ℕ) → 0 < k → k < c → (p + k) % c ≢ p % c
mod-ne c p k pos lt e = elim (dec_lt (p % c + k) c) [
  | yes below ↦ omega (arith, mod-add-mod p c k, mod-eq_of_lt below)
  | no past ↦ omega (
    arith,
    mod-add-mod p c k,
    mod-lt p {m = c} (omega arith),
    mod-eq-sub-mod {n = p % c + k} {m = c} (omega arith),
    mod-eq_of_lt {n = p % c + k - c} {m = c} (omega (arith, mod-lt p {m = c} (omega arith))),
  )
]

module _ {A : Type 0} (d : A) where
  -- One round of the loop of `ring_write` appends its sample to the stream.
  pub Stores-push :
      {h : List A} {c : ℕ} {buf : List A} {w : ℕ} (x : A)
      → Stores d h c buf w
      → Stores d (h ++ (x ∷ [])) c (set buf w x) ((w + 1) % size_mod % c)
  Stores-push {h} {c} {buf} {w} x s = record {
    sized = length-set buf w x ∙ sized;
    positive = positive;
    small = small;
    index = rw (mod-eq_of_lt no_wrap, index, mod-add-mod) (ap (λ n. n % c) (sym longer));
    recent = λ p lt near. elim (dec_lt p (length h)) [
      | yes old ↦
          get_or-set_ne buf x d (other p old near)
          ∙ recent p old (omega (arith, longer))
          ∙ sym (get_or-append_left h (x ∷ []) p d old)
      | no new ↦ newest p (omega (arith, longer))
    ];
  }
    where
      open s use {sized, positive, small, index, recent}

      longer : length (h ++ (x ∷ [])) ≡ length h + 1
      longer = length-append h (x ∷ [])

      inside : w < c
      inside = rw index (mod-lt (length h) positive)

      no_wrap : w + 1 < size_mod
      no_wrap = omega (arith, inside)

      other : (p : ℕ) → p < length h → length (h ++ (x ∷ [])) ≤ p + c → w ≢ p % c
      other p old near e =
          mod-ne c p (length h - p) (omega arith) (omega (arith, longer))
            (ap (λ n. n % c) (omega arith) ∙ sym index ∙ e)

      newest : (p : ℕ) → p ≡ length h → get_or (set buf w x) (p % c) d ≡ get_or (h ++ (x ∷ [])) p d
      newest p e =
          rw (e, ← index, get_or-set_self buf w x d (omega (arith, inside, sized)))
            (sym (get_or-append_end h x d))

  write_loop-Stores :
      (xs : List A) {h : List A} {c : ℕ} {buf : List A} {w : ℕ}
      → Stores d h c buf w
      → let (buf', w') = write_loop c buf w xs in Stores d (h ++ xs) c buf' w'
  unfolding write_loop
  write_loop-Stores [] {h} s = rw append-nil s
  write_loop-Stores (x ∷ xs) {h} s = rw append_assoc at (write_loop-Stores xs (Stores-push x s))

-- A ring that holds the end of the stream `h`: its storage is there, and `total_written` counts
-- the stream, modulo 2 ^ 64.
pub record Holds {A : Type 0} (zero_sample : A) (h : List A) (ring : SampleRing A) : Type 0 where
  pub buf : List A
  pub here : ring.samples ≡ some buf
  pub stores : Stores zero_sample h ring.capacity buf ring.write_index
  pub counted : ring.total_written ≡ length h % size_mod

module _ {A : Type 0} (d : A) where
  ring_write-cons :
      (x : A) (xs buf : List A) (ring : SampleRing A)
      → ring.samples ≡ some buf
      → 0 < ring.capacity
      → ring_write ring (some (x ∷ xs)) ≡ (
          let (buf', w') = write_loop ring.capacity buf ring.write_index (x ∷ xs) in
          record ring {
            samples = some buf';
            write_index = w';
            total_written = (ring.total_written + length (x ∷ xs)) % size_mod;
          })
  unfolding ring_write
  ring_write-cons x xs buf ring e pos = ground arith

  -- `ring_write` appends the given samples to the stream that the ring holds the end of, as far
  -- as its capacity goes; the index and the count follow, the count modulo 2 ^ 64.
  pub ring_write-Holds :
      (src : List A) {h : List A} {ring : SampleRing A}
      → Holds d h ring
      → Holds d (h ++ src) (ring_write ring (some src))
  unfolding ring_write
  ring_write-Holds [] {h} {ring} v = rw (append-nil, v.here, ring_write) v
  ring_write-Holds (x ∷ xs) {h} {ring} v =
      rw (ring_write-cons x xs v.buf ring v.here v.stores.positive) (record {
        buf = (write_loop ring.capacity v.buf ring.write_index (x ∷ xs)).0;
        here = refl;
        stores = write_loop-Stores d (x ∷ xs) v.stores;
        counted = omega (arith, v.counted, length-append h (x ∷ xs));
      })

  ring_init-true :
      (allocated : Bool) (capacity : ℕ) (ring : SampleRing A)
      → (ring_init d allocated capacity ring).0 ≡ true
      → (0 < capacity)
        × (capacity * 4 < size_mod)
        × ((ring_init d allocated capacity ring).1 ≡ record {
          samples = some (replicate capacity d);
          capacity = capacity;
          write_index = 0;
          total_written = 0;
        })
  unfolding ring_init
  ring_init-true allocated capacity ring h = ground arith

  -- A ring that `ring_init` accepts holds the empty stream.
  pub ring_init-Holds :
      (allocated : Bool) (capacity : ℕ) (ring : SampleRing A)
      → (ring_init d allocated capacity ring).0 ≡ true
      → Holds d [] (ring_init d allocated capacity ring).1
  ring_init-Holds allocated capacity ring h =
      let (positive, small, e) = ring_init-true allocated capacity ring h in
      rw e (record {
        buf = replicate capacity d;
        here = refl;
        stores = record {
          sized = length-replicate capacity d;
          positive = positive;
          small = small;
          index = sym (mod-eq_of_lt positive);
          recent = λ p lt. elim lt [ ];
        };
        counted = refl;
      })
