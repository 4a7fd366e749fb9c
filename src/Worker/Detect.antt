-- ===== src/Worker/Detect.antt =====
-- When an activation is due, from the scores alone.
use native.Mathlib.Nat.{mod-lt, mod-eq_of_lt, mod-add-mod, mod_self}
use okay_hermes_realtime.Base.{
  ℕ, suc, ◌+◌, ◌%◌, ◌<◌, ◌≡◌, sym, ap, ◌∙◌, ◌&&◌, List, [], ◌∷◌, arith, ◌==◌, if◌then◌else◌,
  Bool-cases, inl, inr,
}
use okay_hermes_realtime.Float.{Float}
use okay_hermes_realtime.Resample.{unsigned_mod}
use okay_hermes_realtime.Options.{ListenerOptions}
use okay_hermes_realtime.Worker.{detect}

module _ (F : Float) (o : ListenerOptions F) where
  open F use {Value, le}

  -- Scores are listed latest first.
  -- The hit counter after them.
  unfoldable pub hits_after : List Value → ℕ
  hits_after [] = 0
  hits_after (p ∷ history) = (detect o (hits_after history) p).0

  -- How many of the latest scores in a row reach the threshold.
  unfoldable pub streak : List Value → ℕ
  streak [] = 0
  streak (p ∷ history) = if le o.threshold p then suc (streak history) else 0

  module _ (positive : 0 < o.consecutive_windows)
      (fits : o.consecutive_windows < unsigned_mod) where
    -- One score against the streak before it: both parts of what `detect` returns.
    detect-streak :
        (p : Value) (hits s : ℕ)
        → hits ≡ s % o.consecutive_windows
        → let s' = if le o.threshold p then suc s else 0 in
          ((detect o hits p).0 ≡ s' % o.consecutive_windows)
          × ((detect o hits p).1 ≡ (le o.threshold p && s' % o.consecutive_windows == 0))
    unfolding detect
    detect-streak p hits s e = elim (Bool-cases (le o.threshold p)) [
      | inl hit ↦ rw hit (
          ground (
            arith,
            mod-lt s positive,
            next,
            λ (h : s % o.consecutive_windows + 1 < o.consecutive_windows). mod-eq_of_lt h,
            mod_self o.consecutive_windows,
          ))
      | inr miss ↦ rw miss (ground arith)
    ]
      where
        next :
            (s % o.consecutive_windows + 1) % o.consecutive_windows ≡ suc s % o.consecutive_windows
        next =
            mod-add-mod s o.consecutive_windows 1
            ∙ ap (λ n. n % o.consecutive_windows) {x = s + 1} {y = suc s} (omega arith)

    -- The hit counter is the streak, counted modulo the windows that an activation needs.
    pub hits_after-streak :
        (history : List Value) → hits_after history ≡ streak history % o.consecutive_windows
    unfolding hits_after streak
    hits_after-streak [] = sym (mod-eq_of_lt positive)
    hits_after-streak (p ∷ history) =
        (detect-streak p (hits_after history) (streak history) (hits_after-streak history)).0

    -- With a positive number of consecutive windows that fits an `unsigned int`, the detector
    -- reports an activation exactly when the new score reaches the threshold and the streak of
    -- such scores, the new one included, is a multiple of `consecutive_windows`. The scores are
    -- listed latest first.
    pub detect-due :
        (p : Value) (history : List Value)
        → (detect o (hits_after history) p).1
          ≡ (le o.threshold p && streak (p ∷ history) % o.consecutive_windows == 0)
    unfolding streak
    detect-due p history =
        (detect-streak p (hits_after history) (streak history) (hits_after-streak history)).1
