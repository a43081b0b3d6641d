-- ===== src/Matrix/Chain/Optimal.antt =====
-- matrix-2.0/matrix.h: no order of the products of a chain has fewer operations.
use mathlib.Core.Path.{subst}
use native.Mathlib.Nat.{add-mul}
use cpp_many_tasks.Prelude.{
  ℕ, zero, suc, ◌+◌, ◌-◌, ◌*◌, ◌^◌, ◌≤◌, ◌<◌, ◌≡◌, refl, sym, ap, ◌∙◌, inl, inr, none, some, arith,
  Bool-cases, ltb, ◌==◌, if◌then◌else◌,
}
use cpp_many_tasks.Matrix.Chain.{OptMult, better, chosen, overall_ops}
use cpp_many_tasks.Matrix.Chain.Best.{best_loop, best, best-step, best-same}

add_parts : (x y m k : ℕ) → k ≡ suc (x + y) → x * m + y * m + m ≡ k * m
add_parts x y m k h = omega (arith, add-mul x y m, add-mul (x + y) 1 m, ap (λ (t : ℕ). t * m) h)

mul_le : (x y m : ℕ) → x ≤ y → x * m ≤ y * m
mul_le x y m h =
    let whole : x + (y - x) ≡ y = omega arith in
    omega (arith, add-mul x (y - x) m, ap (λ (t : ℕ). t * m) whole)

module _ (rows cols : ℕ → ℕ) where
  -- The fewest operations of the part from b to e.
  abbrev pub fewest : ℕ → ℕ → ℕ
  fewest b e = (best rows cols b e).opt_op_num

  abbrev pub split_ops : ℕ → ℕ → ℕ → ℕ
  split_ops b e i = rows b * cols i * cols e + (fewest b i + fewest (suc i) e)

  -- The best split before i.
  abbrev pub IsChosen : ℕ → ℕ → ℕ → OptMult → Type 0
  IsChosen b e i m =
      b ≤ m.left_part_end
      × m.left_part_end < i
      × m.opt_op_num ≡ split_ops b e m.left_part_end
      × ((j : ℕ) → b ≤ j → j < i → m.opt_op_num ≤ split_ops b e j)

  abbrev IsExact : ℕ → ℕ → Type 0
  IsExact b e =
      (i : ℕ)
      → b ≤ i
      → i < e
      → overall_ops rows cols b i e (fewest b i) (fewest (suc i) e) ≡ split_ops b e i

  abbrev at_split : ℕ → ℕ → OptMult
  at_split i ops = record { left_part_end = i; opt_op_num = ops }

  better-IsChosen :
      (b e i : ℕ) (m : OptMult)
      → b ≤ i
      → IsChosen b e i m
      → IsChosen b e
          (suc i)
          (if ltb (split_ops b e i) m.opt_op_num then at_split i (split_ops b e i) else m)
  better-IsChosen b e i m le (low, high, ops, least) =
      elim (Bool-cases (ltb (split_ops b e i) m.opt_op_num)) [
        | inl p ↦ rw p (
          le,
          omega arith,
          refl,
          λ j l h. elim (Bool-cases (j == i)) [
            | inl q ↦
                let same : j ≡ i = ground arith in
                subst (λ k. split_ops b e i ≤ split_ops b e k) (sym same) (omega arith)
            | inr q ↦ let before = least j l (ground arith) in ground arith
          ],
        )
        | inr p ↦ rw p (
          low,
          omega arith,
          ops,
          λ j l h. elim (Bool-cases (j == i)) [
            | inl q ↦
                let same : j ≡ i = ground arith in
                subst (λ k. m.opt_op_num ≤ split_ops b e k) (sym same) (ground arith)
            | inr q ↦ least j l (ground arith)
          ],
        )
      ]

  best_loop-some :
      (rounds i b e : ℕ) (m : OptMult)
      → b ≤ i
      → i + rounds ≡ e
      → IsExact b e
      → IsChosen b e i m
      → IsChosen b e e
          (chosen (best_loop rows cols (λ x y. best rows cols x y) rounds i b e (some m)))
  unfolding best_loop better chosen
  best_loop-some zero i b e m le sum exact (low, high, ops, least) =
      (low, omega arith, ops, λ j l h. least j l (omega arith))
  best_loop-some (suc rounds) i b e m le sum exact h = rw (exact i le (omega arith)) (
      best_loop-some rounds (suc i) b e
        (if ltb (split_ops b e i) m.opt_op_num then at_split i (split_ops b e i) else m)
        (omega arith) (omega arith) exact (better-IsChosen b e i m le h))

  first-IsChosen : (b e : ℕ) → IsChosen b e (suc b) (at_split b (split_ops b e b))
  first-IsChosen b e = (
    omega arith,
    omega arith,
    refl,
    λ j l h.
        let same : b ≡ j = omega arith in
        subst (λ k. split_ops b e b ≤ split_ops b e k) same (omega arith),
  )

  best_loop-none :
      (rounds b e : ℕ)
      → suc b + rounds ≡ e
      → IsExact b e
      → IsChosen b e e
          (chosen (best_loop rows cols (λ x y. best rows cols x y) (suc rounds) b b e none))
  unfolding best_loop better
  best_loop-none rounds b e sum exact = rw (exact b (omega arith) (omega arith)) (
      best_loop-some rounds (suc b) b e (at_split b (split_ops b e b)) (omega arith) sum exact
        (first-IsChosen b e))

  pub best-IsChosen : (b e : ℕ) → b < e → IsExact b e → IsChosen b e e (best rows cols b e)
  best-IsChosen b e less exact =
      subst (λ m. IsChosen b e e m)
        (ap (λ n. chosen (best_loop rows cols (λ x y. best rows cols x y) n b b e none))
            {x = suc (e - suc b)} {y = e - b} (omega arith)
          ∙ sym (best-step rows cols b e less))
        (best_loop-none (e - suc b) b e (omega arith) exact)

  -- Where no product of two parts takes more than `most` multiplications, and all of them together stay
  -- below 2^64, nothing wraps.
  module _ (last most : ℕ)
      (few : (b i e : ℕ) → b ≤ i → i < e → e ≤ last → rows b * cols i * cols e ≤ most)
      (small : last * most < 2 ^ 64) where
    abbrev AreSmall : ℕ → ℕ → Type 0
    AreSmall b e = (x y : ℕ) → b ≤ x → x ≤ y → y ≤ e → y - x < e - b → fewest x y ≤ (y - x) * most

    split_ops-small :
        (b e i : ℕ) → b ≤ i → i < e → e ≤ last → AreSmall b e → split_ops b e i ≤ (e - b) * most
    split_ops-small b e i le less within parts = omega (
      arith,
      few b i e le less within,
      parts b i (omega arith) le (omega arith) (omega arith),
      parts (suc i) e (omega arith) less (omega arith) (omega arith),
      add_parts (i - b) (e - suc i) most (e - b) (omega arith),
    )

    small-IsExact : (b e : ℕ) → e ≤ last → AreSmall b e → IsExact b e
    unfolding overall_ops
    small-IsExact b e within parts i le less =
        omega (
          arith,
          split_ops-small b e i le less within parts,
          mul_le (e - b) last most (omega arith),
        )

    fewest-small : (n b e : ℕ) → e - b ≤ n → b ≤ e → e ≤ last → fewest b e ≤ (e - b) * most
    fewest-small zero b e bound le within =
        let same : b ≡ e = omega arith in
        subst (λ k. fewest b k ≤ (k - b) * most) same
          (omega (arith, ap (λ m. m.opt_op_num) (best-same rows cols b)))
    fewest-small (suc n) b e bound le within = elim (Bool-cases (b == e)) [
      | inl p ↦
          let same : b ≡ e = ground arith in
          subst (λ k. fewest b k ≤ (k - b) * most) same
            (omega (arith, ap (λ m. m.opt_op_num) (best-same rows cols b)))
      | inr p ↦
          let parts : AreSmall b e =
            λ x y l h r smaller. fewest-small n x y (omega arith) h (omega arith) in
          let chosen = best-IsChosen b e (ground arith) (small-IsExact b e within parts) in
          omega (
            arith,
            chosen.2,
            split_ops-small b e (best rows cols b e).left_part_end chosen.0 chosen.1 within parts,
          )
    ]

    pub part-IsExact : (b e : ℕ) → e ≤ last → IsExact b e
    part-IsExact b e within =
        small-IsExact b e within
          λ x y l h r smaller. fewest-small (y - x) x y (omega arith) h (omega arith)
