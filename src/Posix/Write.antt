-- ===== src/Posix/Write.antt =====
-- `write_all` of native/okay-hermes-realtime-wake-listener.c: the loop over short writes and
-- interruptions.
use okay_hermes_realtime.Base.{
  ℕ, zero, suc, ◌+◌, ◌≤◌, ◌<◌, ◌≡◌, refl, sym, ap, ◌∙◌, Bool, true, false, Option, none, some, [],
  ◌∷◌, ◌++◌, append-nil, append_assoc, arith, length, take, drop, take-add, length-take-drop,
}
use okay_hermes_realtime.Base.Bytes.{Bytes}
use okay_hermes_realtime.Posix.{
  Reply, accept, refuse, interrupted, is_advance, advances_within, Replies, Os, Io, append_to,
}

-- What reached the descriptor, whether all of it did, and the number of the next call.
pub record Written : Type 0 where
  pub complete : Bool
  pub sink : Bytes
  pub next_call : ℕ

-- What `write_all` leaves of the file at `path`; `none` is a write out of fuel.
abbrev pub deliver : Bytes → Os → Option Written → Bool × Os
deliver path os none = (false, os)
deliver path os (some w) = (w.complete, append_to path w.sink (record os { calls = w.next_call }))

-- The calls that are enough for the bytes left: for each byte up to `patience` without success and
-- one more.
unfoldable pub rounds : ℕ → Bytes → ℕ
rounds patience [] = 0
rounds patience (b ∷ rest) = rounds patience rest + (patience + 1)

-- `while (written < length)`: `rest` is the part of the buffer from `written` on. A call that is
-- interrupted, or that takes nothing, is made again.
unfoldable pub write_loop : (ℕ → Reply) → ℕ → Bytes → Bytes → ℕ → Option Written
write_loop answer fuel [] sink calls =
    some (record { complete = true; sink = sink; next_call = calls })
write_loop answer zero (b ∷ rest) sink calls = none
write_loop answer (suc fuel) (b ∷ rest) sink calls = elim (answer calls) [
  | accept n ↦ write_loop answer fuel (drop n (b ∷ rest)) (sink ++ take n (b ∷ rest)) (calls + 1)
  | refuse ↦ some (record { complete = false; sink = sink; next_call = calls + 1 })
  | interrupted ↦ write_loop answer fuel (b ∷ rest) sink (calls + 1)
]

module _ (replies : Replies) where
  -- `write_all(fd, buffer, length)`
  unfoldable pub write_all : Bytes → ℕ → Option Written
  unfolding write_loop rounds
  write_all buffer calls =
      write_loop replies.answer (rounds replies.patience buffer) buffer [] calls

  -- `write_all` on the descriptor of the file at `path`.
  unfoldable pub write_all_to : Bytes → Bytes → Io Bool
  write_all_to path buffer os = deliver path os (write_all buffer os.calls)

-- The outcome of writing `buffer` behind `sink`: the call returns, and what arrived is `sink` with
-- the first `count` bytes of the buffer, all of them exactly if the write counts as complete.
pub record Outcome (buffer sink : Bytes) (result : Option Written) : Type 0 where
  pub written : Written
  pub count : ℕ
  pub returns : result ≡ some written
  pub arrived : written.sink ≡ sink ++ take count buffer
  pub all : written.complete ≡ true → count ≡ length buffer
  pub part : written.complete ≡ false → count < length buffer

Outcome-step :
    (b : ℕ) (rest sink : Bytes) (n : ℕ) {result : Option Written}
    → Outcome (drop n rest) (sink ++ (b ∷ take n rest)) result
    → Outcome (b ∷ rest) sink result
Outcome-step b rest sink n o = record {
  written = o.written;
  count = suc (length (take n rest) + o.count);
  returns = o.returns;
  arrived =
      o.arrived
      ∙ append_assoc sink (b ∷ take n rest) (take o.count (drop n rest))
      ∙ ap (λ r. sink ++ (b ∷ r)) (sym (take-add n o.count rest));
  all = λ c. omega (arith, o.all c, length-take-drop n rest);
  part = λ c. omega (arith, o.part c, length-take-drop n rest);
}

-- As `rounds`, when only `wait` calls without success are left for the first byte.
abbrev waits : ℕ → ℕ → Bytes → ℕ
waits patience wait [] = 0
waits patience wait (b ∷ rest) = rounds patience rest + (wait + 1)

waits-patience : (patience : ℕ) (rest : Bytes) → waits patience patience rest ≡ rounds patience rest
unfolding rounds
waits-patience patience [] = refl
waits-patience patience (b ∷ rest) = refl

waits-drop :
    (patience n : ℕ) (rest : Bytes) → waits patience patience (drop n rest) ≤ rounds patience rest
unfolding rounds
waits-drop patience zero rest = omega (arith, waits-patience patience rest)
waits-drop patience (suc n) [] = omega arith
waits-drop patience (suc n) (b ∷ rest) = omega (arith, waits-drop patience n rest)

not_false : true ≡ false → ⊥
not_false e = cc

-- After a call without success there is one call less to wait.
advances_later :
    (answer : ℕ → Reply) (wait t : ℕ)
    → is_advance (answer t) ≡ false
    → advances_within answer wait t ≡ true
    → (fewer : ℕ) × (wait ≡ suc fewer) × (advances_within answer fewer (t + 1) ≡ true)
unfolding advances_within
advances_later answer zero t vain soon = absurd (cc)
advances_later answer (suc fewer) t vain soon = (fewer, refl, rw vain at soon)

module _ (answer : ℕ → Reply) (patience : ℕ)
    (advances : (t : ℕ) → advances_within answer patience t ≡ true) where
  write_loop-Outcome :
      (fuel wait : ℕ) (rest sink : Bytes) (calls : ℕ)
      → advances_within answer wait calls ≡ true
      → waits patience wait rest ≤ fuel
      → Outcome rest sink (write_loop answer fuel rest sink calls)
  unfolding write_loop
  write_loop-Outcome fuel wait [] sink calls soon enough = record {
    written = record { complete = true; sink = sink; next_call = calls };
    count = 0;
    returns = refl;
    arrived = sym (append-nil sink);
    all = λ _. refl;
    part = λ e. cc;
  }
  write_loop-Outcome zero wait (b ∷ rest) sink calls soon enough = absurd (omega arith)
  write_loop-Outcome (suc fuel) wait (b ∷ rest) sink calls soon enough =
      by (λ wait' rest' sink'. write_loop-Outcome fuel wait' rest' sink' (calls + 1)) (answer calls)
        refl
    where
      Later : Type 0
      Later =
          (wait' : ℕ) (rest' sink' : Bytes)
          → advances_within answer wait' (calls + 1) ≡ true
          → waits patience wait' rest' ≤ fuel
          → Outcome rest' sink' (write_loop answer fuel rest' sink' (calls + 1))

      again :
          Later
          → is_advance (answer calls) ≡ false
          → Outcome (b ∷ rest) sink (write_loop answer fuel (b ∷ rest) sink (calls + 1))
      again later vain =
          let (fewer, less, soon') = advances_later answer wait calls vain soon in
          later fewer (b ∷ rest) sink soon' (omega (arith, less))

      by :
          Later
          → (r : Reply) → answer calls ≡ r
          → Outcome (b ∷ rest) sink (write_loop answer (suc fuel) (b ∷ rest) sink calls)
      by later (accept zero) e = rw (e, write_loop, append-nil sink) (again later (rw e refl))
      by later (accept (suc n)) e =
          rw (e, write_loop)
            (Outcome-step b rest sink n (
              later patience (drop n rest) (sink ++ (b ∷ take n rest)) (advances (calls + 1))
                (omega (arith, waits-drop patience n rest))))
      by later refuse e =
          rw (e, write_loop)
            (record {
              written = record { complete = false; sink = sink; next_call = calls + 1 };
              count = 0;
              returns = refl;
              arrived = sym (append-nil sink);
              all = λ e. cc;
              part = λ _. omega arith;
            })
      by later interrupted e = rw (e, write_loop) (again later (rw e refl))

-- On a system with a bound on how many calls in a row it interrupts or takes nothing in, `write_all`
-- returns, whatever short writes, interruptions and errors it is answered with. What arrived is a
-- prefix of the buffer: the whole of it exactly if `write_all` reports success, and less if it
-- reports an error.
pub write_all-Outcome :
    (replies : Replies) (buffer : Bytes) (calls : ℕ)
    → Outcome buffer [] (write_all replies buffer calls)
unfolding write_all
write_all-Outcome replies buffer calls =
    write_loop-Outcome replies.answer replies.patience replies.advances
      (rounds replies.patience buffer) replies.patience buffer [] calls (replies.advances calls)
      (omega (arith, waits-patience replies.patience buffer))

-- Without that, the loop never returns: if every call is interrupted or takes nothing, no number
-- of calls is enough for a buffer that is not empty.
write_loop-stuck :
    (answer : ℕ → Reply)
    → ((t : ℕ) → is_advance (answer t) ≡ false)
    → (fuel b : ℕ) (rest sink : Bytes) (calls : ℕ)
    → write_loop answer fuel (b ∷ rest) sink calls ≡ none
unfolding write_loop
write_loop-stuck answer never zero b rest sink calls = refl
write_loop-stuck answer never (suc fuel) b rest sink calls =
    by (write_loop-stuck answer never fuel b rest sink (calls + 1)) (answer calls) refl
  where
    by :
        write_loop answer fuel (b ∷ rest) sink (calls + 1) ≡ none
        → (r : Reply) → answer calls ≡ r
        → write_loop answer (suc fuel) (b ∷ rest) sink calls ≡ none
    by later (accept zero) e = rw (e, write_loop, append-nil sink) later
    by later (accept (suc n)) e = absurd (not_false (ap is_advance (sym e) ∙ never calls))
    by later refuse e = absurd (not_false (ap is_advance (sym e) ∙ never calls))
    by later interrupted e = rw (e, write_loop) later
