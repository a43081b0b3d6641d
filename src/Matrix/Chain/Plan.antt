-- ===== src/Matrix/Chain/Plan.antt =====
-- matrix-2.0/matrix.h: the product of a chain is computed in an order with the fewest operations.
use mathlib.Core.Path.{subst}
use cpp_many_tasks.Prelude.{
  ℕ, zero, suc, ◌+◌, ◌-◌, ◌*◌, ◌^◌, ◌≤◌, ◌<◌, ◌≡◌, refl, sym, ap, ◌∙◌, inl, inr, true, some, arith,
  Bool-cases, ◌==◌, if◌then◌else◌,
}
use cpp_many_tasks.Matrix.Chain.{Table, unset, compute, multiplicate, sizes_fit, construct}
use cpp_many_tasks.Matrix.Chain.Best.{best, best-same}
use cpp_many_tasks.Matrix.Chain.Memo.{Filled, IsTable, compute-Fills}
use cpp_many_tasks.Matrix.Chain.Optimal.{fewest, IsChosen, best-IsChosen, part-IsExact}

-- A way to put brackets around the products of the matrices from b to e.
pub data Bracketing : ℕ → ℕ → Type 0 where
  one : (b : ℕ) → Bracketing b b
  split : (b i e : ℕ) → Bracketing b i → Bracketing (suc i) e → Bracketing b e

-- The multiplications of numbers that it takes.
unfoldable pub cost : (rows cols : ℕ → ℕ) (b e : ℕ) → Bracketing b e → ℕ
cost rows cols b e (one x) = 0
cost rows cols b e (split x i y l r) =
    rows x * cols i * cols y + (cost rows cols x i l + cost rows cols (suc i) y r)

unfoldable pub product_of {ℓ} :
    {M : Type ℓ} (dot : M → M → M) (matrices : ℕ → M) (b e : ℕ) → Bracketing b e → M
product_of dot matrices b e (one x) = matrices x
product_of dot matrices b e (split x i y l r) =
    dot (product_of dot matrices x i l) (product_of dot matrices (suc i) y r)

Bracketing-le : (b e : ℕ) → Bracketing b e → b ≤ e
Bracketing-le b e (one x) = omega arith
Bracketing-le b e (split x i y l r) = omega (arith, Bracketing-le x i l, Bracketing-le (suc i) y r)

module _ (rows cols : ℕ → ℕ) (last most : ℕ)
    (few : (b i e : ℕ) → b ≤ i → i < e → e ≤ last → rows b * cols i * cols e ≤ most)
    (small : last * most < 2 ^ 64) where
  chosen : (b e : ℕ) → b < e → e ≤ last → IsChosen rows cols b e e (best rows cols b e)
  chosen b e less within =
      best-IsChosen rows cols b e less (part-IsExact rows cols last most few small b e within)

  -- No bracketing takes fewer.
  fewest-cost :
      (b e : ℕ) (t : Bracketing b e) → e ≤ last → fewest rows cols b e ≤ cost rows cols b e t
  unfolding cost
  fewest-cost b e (one x) within = omega (arith, ap (λ m. m.opt_op_num) (best-same rows cols x))
  fewest-cost b e (split x i y l r) within =
      let left = Bracketing-le x i l in
      let right = Bracketing-le (suc i) y r in
      omega (
        arith,
        (chosen x y (omega arith) within).3 i left (omega arith),
        fewest-cost x i l (omega arith),
        fewest-cost (suc i) y r within,
      )

  -- What the function multiplies, from a table that is filled.
  abbrev Plans {ℓ} : {M : Type ℓ} → (M → M → M) → (ℕ → M) → ℕ → ℕ → M → Type ℓ
  Plans dot matrices b e product =
      (t : Bracketing b e) × (product ≡ product_of dot matrices b e t)
      × (cost rows cols b e t ≡ fewest rows cols b e)

  left-Plans {ℓ} :
      {M : Type ℓ} (dot : M → M → M) (matrices : ℕ → M) (b i : ℕ) (product : M)
      → b ≤ i
      → (b < i → Plans dot matrices b i product)
      → Plans dot matrices b i (if i == b then matrices b else product)
  unfolding product_of cost
  left-Plans dot matrices b i product le plans = elim (Bool-cases (i == b)) [
    | inl p ↦
        let same : b ≡ i = ground arith in
        rw p (
          subst (λ k. Plans dot matrices b k (matrices b)) same
            (one b, refl, sym (ap (λ m. m.opt_op_num) (best-same rows cols b))))
    | inr p ↦ rw p (plans (ground arith))
  ]

  right-Plans {ℓ} :
      {M : Type ℓ} (dot : M → M → M) (matrices : ℕ → M) (i e : ℕ) (product : M)
      → i ≤ e
      → (i < e → Plans dot matrices i e product)
      → Plans dot matrices i e (if i == e then matrices e else product)
  unfolding product_of cost
  right-Plans dot matrices i e product le plans = elim (Bool-cases (i == e)) [
    | inl p ↦
        let same : e ≡ i = ground arith in
        rw p (
          subst (λ k. Plans dot matrices k e (matrices e)) same
            (one e, refl, sym (ap (λ m. m.opt_op_num) (best-same rows cols e))))
    | inr p ↦ rw p (plans (ground arith))
  ]

  multiplicate-Plans {ℓ} :
      {M : Type ℓ} (dot : M → M → M) (matrices : ℕ → M) (table : Table) (fuel b e : ℕ)
      → b < e
      → e ≤ last
      → e - b ≤ fuel
      → Filled rows cols table b e
      → Plans dot matrices b e (multiplicate dot matrices table fuel b e)
  unfolding multiplicate product_of cost
  multiplicate-Plans dot matrices table zero b e less within enough filled = absurd (omega arith)
  multiplicate-Plans dot matrices table (suc fuel) b e less within enough filled =
      let at_split : IsChosen rows cols b e e (table b e) =
        subst (λ m. IsChosen rows cols b e e m) (sym (filled b e (omega arith) less (omega arith)))
          (chosen b e less within) in
      let i : ℕ = (table b e).left_part_end in
      let left =
        left-Plans dot matrices b i (multiplicate dot matrices table fuel b i) at_split.0 (λ h.
          multiplicate-Plans dot matrices table fuel b i h (omega (arith, at_split.1))
            (omega (arith, at_split.1))
            (λ x y l r k. filled x y l r (omega (arith, at_split.1)))) in
      let right =
        right-Plans dot matrices (suc i) e (multiplicate dot matrices table fuel (suc i) e)
          at_split.1
          (λ h.
            multiplicate-Plans dot matrices table fuel (suc i) e h within
              (omega (arith, at_split.0))
              (λ x y l r k. filled x y (omega (arith, at_split.0)) r k)) in
      (
        split b i e left.0 right.0,
        ap
              (λ m.
                dot m (
                  if suc i == e
                  then matrices e
                  else multiplicate dot matrices table fuel (suc i) e))
              left.1
            ∙ ap (λ m. dot (product_of dot matrices b i left.0) m) right.1,
        omega (
          arith,
          left.2,
          right.2,
          at_split.2,
          ap (λ m. m.opt_op_num) (filled b e (omega arith) less (omega arith)),
        ),
      )

  fitting : (n : ℕ) → ((j : ℕ) → j < n → cols j ≡ rows (suc j)) → sizes_fit rows cols n ≡ true
  unfolding sizes_fit
  fitting zero fit = refl
  fitting (suc n) fit =
      let here = fit n (omega arith) in ground (arith, fitting n (λ j h. fit j (omega arith)))

  empty-IsTable : IsTable rows cols (λ i j. unset)
  empty-IsTable = (λ x. refl, λ x y h u. absurd cc)

  -- Let the sizes in a chain of at least two matrices fit, let no product of two parts of it take more than
  -- `most` multiplications of numbers, and let as many such products as the chain has stay below 2^64
  -- multiplications. Then the constructor returns the product of the chain under a bracketing, with any product
  -- of two matrices, and no bracketing takes fewer multiplications.
  pub construct_lem {ℓ} :
      {M : Type ℓ} (dot : M → M → M) (matrices : ℕ → M)
      → 0 < last
      → ((j : ℕ) → j < last → cols j ≡ rows (suc j))
      → (t : Bracketing 0 last) × (construct dot matrices rows cols last
          ≡ some (product_of dot matrices 0 last t))
        × ((u : Bracketing 0 last) → cost rows cols 0 last t ≤ cost rows cols 0 last u)
  unfolding construct
  construct_lem dot matrices more fit =
      let fills =
        compute-Fills rows cols last 0 last (λ i j. unset) more (omega arith) empty-IsTable in
      let plan =
        multiplicate-Plans dot matrices (compute last rows cols 0 last (λ i j. unset)) last 0 last
          more (omega arith) (omega arith) fills.1 in
      (
        plan.0,
        rw (fitting last fit) (ap (λ m. some m) plan.1),
        λ u. omega (arith, plan.2, fewest-cost 0 last u (omega arith)),
      )
