-- ===== src/Ring/Snapshot.antt =====
-- `ring_snapshot_latest` returns the end of the stream.
use native.Mathlib.Nat.{mod-lt, mod-add-mod, mod-eq_of_lt, add-mod_right}
use okay_hermes_realtime.Base.{
  ℕ, zero, suc, ◌+◌, ◌-◌, ◌*◌, ◌%◌, ◌≤◌, ◌<◌, ◌≡◌, sym, ap, ap₂, ◌∙◌, some, List, [], ◌∷◌, arith,
  ltb, ltb-false→le, Bool-cases, inl, inr, if◌then◌else◌, length, get_or, drop, drop-eq-cons,
  drop-length,
}
use okay_hermes_realtime.Ring.{SampleRing, size_mod, snapshot_loop, ring_snapshot_latest}
use okay_hermes_realtime.Ring.Inv.{Stores, Holds}

-- `(write_index + capacity - available) % capacity` is the index of the position `n` before the
-- end of the stream.
pub read_index_lem :
    (l c n : ℕ)
    → n ≤ l
    → n ≤ c
    → 0 < c
    → c * 4 < size_mod
    → (l % c + c + size_mod - n) % size_mod % c ≡ (l - n) % c
read_index_lem l c n le fits pos small =
    ap (λ k. k % c) no_wrap
    ∙ mod-add-mod l c (c - n)
    ∙ ap (λ k. k % c) regroup
    ∙ add-mod_right (l - n) c
  where
    no_wrap : (l % c + c + size_mod - n) % size_mod ≡ l % c + (c - n)
    no_wrap = omega (arith, mod-lt l pos)

    regroup : l + (c - n) ≡ l - n + c
    regroup = omega arith

module _ {A : Type 0} (d : A) where
  snapshot_loop-drop :
      {h : List A} {c : ℕ} {buf : List A} {w : ℕ} (r start n i : ℕ)
      → Stores d h c buf w
      → r < c
      → r ≡ start % c
      → start + i + n ≡ length h
      → length h ≤ start + c
      → snapshot_loop d buf c r n i ≡ drop (start + i) h
  unfolding snapshot_loop
  snapshot_loop-drop {h} {c} r start zero i s lt e end near =
      sym (drop-length h (start + i) (omega arith))
  snapshot_loop-drop {h} {c} {buf} r start (suc n) i s lt e end near =
      ap₂ ◌∷◌ (ap (λ k. get_or buf k d) place ∙ s.recent (start + i) (omega arith) (omega arith)) (
        snapshot_loop-drop r start n (i + 1) s lt e (omega arith) near
        ∙ ap (λ k. drop k h) {x = start + (i + 1)} {y = suc (start + i)} (omega arith))
      ∙ sym (drop-eq-cons h (start + i) d (omega arith))
    where
      no_wrap : (r + i) % size_mod ≡ r + i
      no_wrap = omega (arith, s.small)

      place : (r + i) % size_mod % c ≡ (start + i) % c
      place = ap (λ k. k % c) (no_wrap ∙ ap (λ k. k + i) e) ∙ mod-add-mod start c i

  -- The function with its two early returns resolved, where the stream fits its counter.
  ring_snapshot_latest-some :
      (buf : List A) (ring : SampleRing A) (l n : ℕ)
      → ring.samples ≡ some buf
      → ring.total_written ≡ l
      → ring_snapshot_latest d ring n ≡ (
          if ltb l n
          then []
          else snapshot_loop d buf ring.capacity
              ((ring.write_index + ring.capacity + size_mod - n) % size_mod % ring.capacity)
              n
              0)
  unfolding ring_snapshot_latest snapshot_loop
  ring_snapshot_latest-some buf ring l zero e count = rw (e, ring_snapshot_latest) (ground arith)
  ring_snapshot_latest-some buf ring l (suc n) e count = rw (e, ring_snapshot_latest) (ground arith)

  -- On a ring that holds the end of the stream `h` of less than 2 ^ 64 samples, for a request of
  -- at most its capacity: fewer samples in the stream than requested give an empty answer;
  -- otherwise the answer is exactly the last `n` samples, oldest first.
  pub ring_snapshot_latest-drop :
      {h : List A} {ring : SampleRing A} (n : ℕ)
      → Holds d h ring
      → n ≤ ring.capacity
      → length h < size_mod
      → ring_snapshot_latest d ring n ≡ (if ltb (length h) n then [] else drop (length h - n) h)
  ring_snapshot_latest-drop {h} {ring} n v fits bounded =
      ring_snapshot_latest-some v.buf ring (length h) n v.here counted
      ∙ elim (Bool-cases (ltb (length h) n)) [
        | inl short ↦ rw short
        | inr enough ↦ rw enough (latest (ltb-false→le (length h) n enough))
      ]
    where
      open v.stores use {positive, small, index}

      counted : ring.total_written ≡ length h
      counted = v.counted ∙ mod-eq_of_lt bounded

      latest :
          n ≤ length h
          → snapshot_loop d v.buf ring.capacity
              ((ring.write_index + ring.capacity + size_mod - n) % size_mod % ring.capacity)
              n
              0
            ≡ drop (length h - n) h
      latest le =
          snapshot_loop-drop _ (length h - n) n 0 v.stores (mod-lt _ positive)
            (rw index (read_index_lem (length h) ring.capacity n le fits positive small))
            (omega arith) (omega arith)
          ∙ ap (λ k. drop k h) {x = length h - n + 0} {y = length h - n} (omega arith)
