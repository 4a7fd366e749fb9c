-- ===== src/Resample/Count.antt =====
-- The pure description of the resampler's output, and how many samples it has.
use native.Mathlib.Nat.{
  mod-add-mod, mod-eq_of_lt, mod-lt, div-add-mod, div-eq_of_lt, add-mul-div_left, add_comm,
}
use okay_hermes_realtime.Base.{
  ℕ, suc, ◌+◌, ◌*◌, ◌/◌, ◌%◌, ◌<◌, ◌≡◌, refl, sym, ap, ap₂, ◌∙◌, List, [], ◌∷◌, ◌++◌, arith, length,
  length-append, replicate, length-replicate, append_assoc,
}
use okay_hermes_realtime.Resample.{model_rate}

module _ {A : Type 0} (rate : ℕ) where
  -- Each frame is repeated as often as the accumulator passes the rate.
  unfoldable pub resampled : ℕ → List A → List A
  resampled accumulator [] = []
  resampled accumulator (mono ∷ monos) =
      replicate ((accumulator + model_rate) / rate) mono
      ++ resampled ((accumulator + model_rate) % rate) monos

-- Dividing in two steps, the second with the remainder of the first.
div_carry : (a b r : ℕ) → 0 < r → a / r + (a % r + b) / r ≡ (a + b) / r
div_carry a b r pos =
    add_comm (a / r) ((a % r + b) / r)
    ∙ sym (add-mul-div_left (a % r + b) (a / r) pos)
    ∙ ap (λ n. n / r) whole
  where
    whole : a % r + b + r * (a / r) ≡ a + b
    whole = omega (arith, div-add-mod a r)

-- No sample is gained or lost in the long run: after `n` frames the output has exactly
-- (accumulator + n * MODEL_RATE) / rate samples, rounded down once.
pub length-resampled :
    {A : Type 0} (rate accumulator : ℕ) (monos : List A)
    → 0 < rate
    → accumulator < rate
    → length (resampled rate accumulator monos) ≡ (accumulator + length monos * model_rate) / rate
unfolding resampled
length-resampled rate accumulator [] pos small =
    sym (
      ap (λ n. n / rate) {x = accumulator + 0} {y = accumulator} (omega arith) ∙ div-eq_of_lt small)
length-resampled rate accumulator (mono ∷ monos) pos small =
    length-append (replicate (a / rate) mono) (resampled rate (a % rate) monos)
    ∙ ap₂ ◌+◌ (length-replicate (a / rate) mono)
        (length-resampled rate (a % rate) monos pos (mod-lt a pos))
    ∙ div_carry a (length monos * model_rate) rate pos
    ∙ ap (λ n. n / rate) regroup
  where
    a : ℕ
    a = accumulator + model_rate

    regroup : a + length monos * model_rate ≡ accumulator + suc (length monos) * model_rate
    regroup = omega arith

-- At the model's own rate nothing is repeated or dropped.
pub resampled_at_model_rate : {A : Type 0} (monos : List A) → resampled model_rate 0 monos ≡ monos
unfolding resampled
resampled_at_model_rate [] = refl
resampled_at_model_rate (mono ∷ monos) = ap (◌∷◌ mono) (resampled_at_model_rate monos)

-- Where the frames are cut does not matter: the accumulator carries over.
pub resampled-append :
    {A : Type 0} (rate accumulator : ℕ) (xs ys : List A)
    → accumulator < rate
    → resampled rate accumulator (xs ++ ys)
      ≡ resampled rate accumulator xs
        ++ resampled rate ((accumulator + length xs * model_rate) % rate) ys
unfolding resampled
resampled-append rate accumulator [] ys small =
    ap (λ k. resampled rate k ys)
      (sym (mod-eq_of_lt small)
        ∙ ap (λ k. k % rate) {x = accumulator} {y = accumulator + 0} (omega arith))
resampled-append rate accumulator (x ∷ xs) ys small =
    ap (λ r. replicate ((accumulator + model_rate) / rate) x ++ r)
      (resampled-append rate ((accumulator + model_rate) % rate) xs ys
          (mod-lt (accumulator + model_rate) (omega arith))
        ∙ ap (λ k. resampled rate ((accumulator + model_rate) % rate) xs ++ resampled rate k ys)
            carried)
    ∙ sym (
        append_assoc (replicate ((accumulator + model_rate) / rate) x)
          (resampled rate ((accumulator + model_rate) % rate) xs)
          (resampled rate ((accumulator + suc (length xs) * model_rate) % rate) ys))
  where
    carried :
        ((accumulator + model_rate) % rate + length xs * model_rate) % rate
        ≡ (accumulator + suc (length xs) * model_rate) % rate
    carried =
        mod-add-mod (accumulator + model_rate) rate (length xs * model_rate)
        ∙ ap (λ k. k % rate) {x = accumulator + model_rate + length xs * model_rate}
            {y = accumulator + suc (length xs) * model_rate} (omega arith)
