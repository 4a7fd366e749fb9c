-- ===== src/Ring/Threads/Copy.antt =====
-- The reader keeps what holds between two accesses.
use native.Mathlib.Nat.{mod-lt, mod-add-mod, mod-eq_of_lt}
use okay_hermes_realtime.Base.{
  ℕ, ◌+◌, ◌-◌, ◌%◌, ◌≤◌, ◌<◌, ◌≡◌, sym, ap, ◌∙◌, ◌||◌, List, [], ◌∷◌, ◌++◌, arith, ltb, ◌==◌,
  length, get_or, length-append, get_or-append_left, get_or-append_end, Bool-cases, inl, inr,
  ltb→lt, ltb-false→le, dec_lt,
}
use okay_hermes_realtime.Ring.{size_mod}
use okay_hermes_realtime.Ring.Inv.{Stores}
use okay_hermes_realtime.Ring.Snapshot.{read_index_lem}
use okay_hermes_realtime.Ring.Threads.{
  Writer, resting, writing, counting, Reader, waiting, unavailable, available, copying, finished,
  System, enter_snapshot, call_reader, read_access,
}
use okay_hermes_realtime.Ring.Threads.Store.{IsIntact, Writes, Reads, IsConsistent}

module _ {A : Type 0} (d : A) (c n : ℕ) (fits : n ≤ c) where
  -- Whatever the writer does, the cells hold the end of what it has stored.
  stored :
      (s : System A) (writer : Writer A)
      → Writes d c n s.samples s.write_index s.total_written s.written s.published writer
      → (w : ℕ) × Stores d s.written c s.samples w
  stored s resting v = (_, v.0)
  stored s (writing w rest count) v = (_, v.0)
  stored s (counting count) v = (_, v.0)

  lags :
      (s : System A) (writer : Writer A)
      → Writes d c n s.samples s.write_index s.total_written s.written s.published writer
      → s.total_written ≤ s.published
  lags s resting v = v.2
  lags s (writing w rest count) v = v.2
  lags s (counting count) v = omega (arith, v.2)

  copy_sample :
      (s : System A) (w r start : ℕ) (out : List A)
      → Stores d s.written c s.samples w
      → IsIntact d c n s.written start out
      → r ≡ (start - n) % c
      → length out < n
      → IsIntact d c n s.written start
          (out ++ (get_or s.samples ((r + length out) % size_mod % c) d ∷ []))
  copy_sample s w r start out stores v place short = record {
    enough = v.enough;
    past = v.past;
    sample = λ j lt near. elim (dec_lt j (length out)) [
      | yes old ↦ get_or-append_left out _ j d old ∙ v.sample j old near
      | no new ↦ newest j (omega (arith, length-append out (cell ∷ []))) near
    ];
  }
    where
      cell : A
      cell = get_or s.samples ((r + length out) % size_mod % c) d

      same_cell : (r + length out) % size_mod % c ≡ (start - n + length out) % c
      same_cell =
          ap (λ k. k % c)
            (mod-eq_of_lt (omega (arith, place, mod-lt (start - n) stores.positive, stores.small))
              ∙ ap (λ k. k + length out) place)
          ∙ mod-add-mod (start - n) c (length out)

      newest :
          (j : ℕ)
          → j ≡ length out
          → length s.written ≤ start - n + j + c
          → get_or (out ++ (cell ∷ [])) j d ≡ get_or s.written (start - n + j) d
      newest j e near =
          ap (λ k. get_or (out ++ (cell ∷ [])) k d) e
          ∙ get_or-append_end out cell d
          ∙ ap (λ k. get_or s.samples k d) same_cell
          ∙ stores.recent (start - n + length out) (omega (arith, v.enough, v.past)) (omega arith)
          ∙ ap (λ k. get_or s.written (start - n + k) d) (sym e)

  pub step_reader-Reads :
      (s : System A) (reader : Reader A)
      → IsConsistent d c n s
      → Reads d c n s.written s.published reader
      → Reads d c n s.written s.published (read_access d c n s reader)
  step_reader-Reads s waiting k v = tt
  step_reader-Reads s unavailable k v = tt
  step_reader-Reads s available k v = (
    record { enough = v; past = k.behind; sample = λ j lt near. absurd (omega arith) },
    rw k.index (
        read_index_lem s.published c n v fits (stored s s.writer k.writes).1.positive
          (stored s s.writer k.writes).1.small),
    omega arith,
  )
  step_reader-Reads s (copying r start out) k (v, place, short) =
      elim (Bool-cases (ltb (length out) n)) [
        | inl more ↦ rw more (
          copy_sample s (stored s s.writer k.writes).0 r start out (stored s s.writer k.writes).1 v
              place (ltb→lt (length out) n more),
          place,
          omega (
            arith,
            ltb→lt (length out) n more,
            length-append out (get_or s.samples ((r + length out) % size_mod % c) d ∷ []),
          ),
        )
        | inr all ↦ rw all (v, omega (arith, ltb-false→le (length out) n all))
      ]
  step_reader-Reads s (finished start out) k v = tt

  enter_snapshot-Reads :
      (s : System A)
      → IsConsistent d c n s
      → Reads d c n s.written s.published (enter_snapshot d c n s)
  enter_snapshot-Reads s k = elim (Bool-cases (n == 0 || ltb s.total_written n)) [
    | inl refused ↦ rw refused tt
    | inr there ↦ rw there (ground (arith, lags s s.writer k.writes))
  ]

  pub call_reader-Reads :
      (s : System A) (reader : Reader A)
      → IsConsistent d c n s
      → Reads d c n s.written s.published reader
      → Reads d c n s.written s.published (call_reader d c n s reader)
  call_reader-Reads s waiting k v = enter_snapshot-Reads s k
  call_reader-Reads s unavailable k v = v
  call_reader-Reads s available k v = v
  call_reader-Reads s (copying r start out) k v = v
  call_reader-Reads s (finished start out) k v = v
