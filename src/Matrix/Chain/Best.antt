-- ===== src/Matrix/Chain/Best.antt =====
-- matrix-2.0/matrix.h: the table has what the recursion without a table gives.
use cpp_many_tasks.Prelude.{
  ℕ, zero, suc, ◌+◌, ◌-◌, ◌≤◌, ◌<◌, ◌≡◌, refl, sym, ap, ◌∙◌, inl, inr, Option, none, arith,
  Bool-cases, ltb,
}
use cpp_many_tasks.Matrix.Chain.{OptMult, unset, better, chosen, overall_ops}

module _ (rows cols : ℕ → ℕ) where
  -- The loop, from the best of every smaller part.
  unfoldable pub best_loop : (ℕ → ℕ → OptMult) → ℕ → ℕ → ℕ → ℕ → Option OptMult → Option OptMult
  unfolding better overall_ops
  best_loop best zero i b e opt = opt
  best_loop best (suc rounds) i b e opt =
      best_loop best rounds (suc i) b e (
        better opt i
          (overall_ops rows cols b i e (best b i).opt_op_num (best (suc i) e).opt_op_num))

  unfoldable pub best_on : ℕ → ℕ → ℕ → OptMult
  unfolding best_loop chosen
  best_on zero b e = unset
  best_on (suc fuel) b e = chosen (best_loop (λ x y. best_on fuel x y) (e - b) b b e none)

  abbrev pub best : ℕ → ℕ → OptMult
  best b e = best_on (e - b) b e

  best_loop-cong :
      (f g : ℕ → ℕ → OptMult) (rounds i b e : ℕ) (opt : Option OptMult)
      → b ≤ i
      → i + rounds ≡ e
      → ((x y : ℕ) → b ≤ x → y ≤ e → y - x < e - b → f x y ≡ g x y)
      → best_loop f rounds i b e opt ≡ best_loop g rounds i b e opt
  unfolding best_loop
  best_loop-cong f g zero i b e opt le sum same = refl
  best_loop-cong f g (suc rounds) i b e opt le sum same =
      rw (same b i (omega arith) (omega arith) (omega arith)) (
        rw (same (suc i) e (omega arith) (omega arith) (omega arith)) (
          best_loop-cong f g rounds (suc i) b e
            (better opt i (overall_ops rows cols b i e (g b i).opt_op_num (g (suc i) e).opt_op_num))
            (omega arith) (omega arith) same))

  none_rounds : (f : ℕ → ℕ → OptMult) (n b e : ℕ) → n ≡ 0 → best_loop f n b b e none ≡ none
  unfolding best_loop
  none_rounds f zero b e h = refl
  none_rounds f (suc n) b e h = absurd (omega arith)

  -- More fuel changes nothing.
  best_on-fuel : (f g b e : ℕ) → e - b ≤ f → e - b ≤ g → best_on f b e ≡ best_on g b e
  unfolding best_on chosen
  best_on-fuel zero zero b e p q = refl
  best_on-fuel zero (suc g) b e p q =
      sym (ap chosen (none_rounds (λ x y. best_on g x y) (e - b) b e (omega arith)))
  best_on-fuel (suc f) zero b e p q =
      ap chosen (none_rounds (λ x y. best_on f x y) (e - b) b e (omega arith))
  best_on-fuel (suc f) (suc g) b e p q = elim (Bool-cases (ltb b e)) [
    | inl h ↦ ap chosen (
        best_loop-cong (λ x y. best_on f x y) (λ x y. best_on g x y) (e - b) b b e none
          (omega arith) (ground arith)
          λ x y l m r. best_on-fuel f g x y (omega arith) (omega arith))
    | inr h ↦ ap chosen (
        none_rounds (λ x y. best_on f x y) (e - b) b e (ground arith)
        ∙ sym (none_rounds (λ x y. best_on g x y) (e - b) b e (ground arith)))
  ]

  -- The recursion of the best numbers.
  pub best-step :
      (b e : ℕ) → b < e → best b e ≡ chosen (best_loop (λ x y. best x y) (e - b) b b e none)
  unfolding best_on
  best-step b e h =
      best_on-fuel (e - b) (suc (e - b)) b e (omega arith) (omega arith)
      ∙ ap chosen (
          best_loop-cong (λ x y. best_on (e - b) x y) (λ x y. best x y) (e - b) b b e none
            (omega arith) (omega arith)
            λ x y l m r. best_on-fuel (e - b) (y - x) x y (omega arith) (omega arith))

  pub best-same : (b : ℕ) → best b b ≡ unset
  unfolding best_on
  best-same b = best_on-fuel (b - b) 0 b b (omega arith) (omega arith)
