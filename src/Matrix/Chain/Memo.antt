-- ===== src/Matrix/Chain/Memo.antt =====
-- matrix-2.0/matrix.h: `ComputeOptMultNum` fills its table with the best numbers.
use mathlib.Core.Path.{subst}
use cpp_many_tasks.Prelude.{
  ℕ, zero, suc, ◌+◌, ◌-◌, ◌≤◌, ◌<◌, ◌≡◌, refl, sym, ap, ◌∙◌, inl, inr, false, ◌&&◌, Option, none,
  arith, Bool-cases, ◌==◌,
}
use cpp_many_tasks.Matrix.Chain.{
  OptMult, Table, unset, set, better, chosen, overall_ops, is_unset, computed, compute_loop,
  compute,
}
use cpp_many_tasks.Matrix.Chain.Best.{best_loop, best, best-step, best-same}

module _ (rows cols : ℕ → ℕ) where
  -- All parts of the chain from b to e are in the table.
  abbrev pub Filled : Table → ℕ → ℕ → Type 0
  Filled t b e = (x y : ℕ) → b ≤ x → x < y → y ≤ e → t x y ≡ best rows cols x y

  -- A number in the table comes with those of its parts.
  abbrev pub IsTable : Table → Type 0
  IsTable t =
      ((x : ℕ) → t x x ≡ unset) × ((x y : ℕ) → x < y → is_unset (t x y) ≡ false → Filled t x y)

  abbrev pub Grows : Table → Table → Type 0
  Grows t t' = (x y : ℕ) → Filled t x y → Filled t' x y

  abbrev pub Fills : ℕ → ℕ → Table → Table → Type 0
  Fills b e t t' = IsTable t' × Filled t' b e × Grows t t'

  best-equal : (b e x y : ℕ) → x ≡ b → y ≡ e → best rows cols b e ≡ best rows cols x y
  best-equal b e x y p q =
      ap (λ (k : ℕ). best rows cols k e) (sym p) ∙ ap (λ (k : ℕ). best rows cols x k) (sym q)

  set-best :
      (b e x y : ℕ) (m : OptMult) (t : Table)
      → m ≡ best rows cols b e
      → t x y ≡ best rows cols x y
      → set b e m t x y ≡ best rows cols x y
  unfolding set
  set-best b e x y m t same h = elim (Bool-cases (x == b && y == e)) [
    | inl p ↦ rw p (same ∙ best-equal b e x y (ground arith) (ground arith))
    | inr p ↦ rw p h
  ]

  set-Grows : (b e : ℕ) (m : OptMult) (t : Table) → m ≡ best rows cols b e → Grows t (set b e m t)
  set-Grows b e m t same x y filled u v l h r = set-best b e u v m t same (filled u v l h r)

  set-Filled :
      (b e : ℕ) (m : OptMult) (t : Table)
      → m ≡ best rows cols b e
      → ((k : ℕ) → b ≤ k → k < e → Filled t b k × Filled t (suc k) e)
      → Filled (set b e m t) b e
  unfolding set
  set-Filled b e m t same parts x y l h r = elim (Bool-cases (y == e)) [
    | inl p ↦ elim (Bool-cases (x == b)) [
      | inl q ↦ rw p (rw q (same ∙ best-equal b e x y (ground arith) (ground arith)))
      | inr q ↦
          set-best b e x y m t same ((parts b (omega arith) (omega arith)).1 x y (ground arith) h r)
    ]
    | inr p ↦
        set-best b e x y m t same ((parts y (omega arith) (ground arith)).0 x y l h (omega arith))
  ]

  set-IsTable :
      (b e : ℕ) (m : OptMult) (t : Table)
      → b < e
      → m ≡ best rows cols b e
      → ((k : ℕ) → b ≤ k → k < e → Filled t b k × Filled t (suc k) e)
      → IsTable t
      → IsTable (set b e m t)
  unfolding set
  set-IsTable b e m t less same parts (diagonal, filled) = (
    λ x. elim (Bool-cases (x == b && x == e)) [
      | inl p ↦ absurd (ground arith)
      | inr p ↦ rw p (diagonal x)
    ],
    λ x y h u. elim (Bool-cases (x == b && y == e)) [
      | inl p ↦
          let left : x ≡ b = ground arith in
          let right : y ≡ e = ground arith in
          λ v w l n r. set-Filled b e m t same parts v w (omega arith) n (omega arith)
      | inr p ↦
          let unchanged : set b e m t x y ≡ t x y = rw p refl in
          set-Grows b e m t same x y (filled x y h (sym (ap is_unset unchanged) ∙ u))
    ],
  )

  computed-Fills :
      (again : ℕ → ℕ → Table → Table) (b e : ℕ) (t : Table)
      → b ≤ e
      → (b < e → Fills b e t (again b e t))
      → IsTable t
      → Fills b e t (computed again b e t)
  unfolding computed
  computed-Fills again b e t le fills table = elim (Bool-cases (b == e)) [
    | inl p ↦ rw p (table, λ x y l h r. absurd (ground arith), λ x y f. f)
    | inr p ↦ rw p (elim (Bool-cases (is_unset (t b e))) [
      | inl q ↦ rw q (fills (ground arith))
      | inr q ↦ rw q (table, table.1 b e (ground arith) q, λ x y f. f)
    ])
  ]

  -- What is read from the table is the best number.
  read-best :
      (b e : ℕ) (t : Table)
      → b ≤ e
      → IsTable t
      → Filled t b e
      → (t b e).opt_op_num ≡ (best rows cols b e).opt_op_num
  read-best b e t le table filled = elim (Bool-cases (b == e)) [
    | inl p ↦
        let same : b ≡ e = ground arith in
        subst (λ k. (t b k).opt_op_num ≡ (best rows cols b k).opt_op_num) same
          (ap (λ m. m.opt_op_num) (table.0 b ∙ sym (best-same rows cols b)))
    | inr p ↦ ap (λ m. m.opt_op_num) (filled b e (omega arith) (ground arith) (omega arith))
  ]

  abbrev Parts : ℕ → ℕ → ℕ → Table → Type 0
  Parts b i e t = (k : ℕ) → b ≤ k → k < i → Filled t b k × Filled t (suc k) e

  compute_loop_lem :
      (again : ℕ → ℕ → Table → Table) (rounds i b e : ℕ) (opt : Option OptMult) (t : Table)
      → ((x y : ℕ) (u : Table)
          → b ≤ x
          → x < y
          → y ≤ e
          → y - x < e - b
          → IsTable u
          → Fills x y u (again x y u))
      → b ≤ i
      → i + rounds ≡ e
      → IsTable t
      → Parts b i e t
      → ((compute_loop again rows cols rounds i b e opt t).0
          ≡ best_loop rows cols (λ x y. best rows cols x y) rounds i b e opt)
        × IsTable (compute_loop again rows cols rounds i b e opt t).1
        × Grows t (compute_loop again rows cols rounds i b e opt t).1
        × Parts b e e (compute_loop again rows cols rounds i b e opt t).1
  unfolding compute_loop best_loop
  compute_loop_lem again zero i b e opt t fills le sum table parts =
      (refl, table, λ x y f. f, λ k l h. parts k l (omega arith))
  compute_loop_lem again (suc rounds) i b e opt t fills le sum table parts =
      let rest =
        compute_loop_lem again rounds (suc i) b e
          (better opt i
            (overall_ops rows cols b i e (left b i).opt_op_num (right (suc i) e).opt_op_num))
          right fills (omega arith) (omega arith) right-Fills.0 right-Parts in
      (
        rest.0
            ∙ ap
                (λ (n : ℕ).
                  best_loop rows cols (λ x y. best rows cols x y) rounds (suc i) b e
                    (better opt i (overall_ops rows cols b i e n (right (suc i) e).opt_op_num)))
                (read-best b i left le left-Fills.0 left-Fills.1)
            ∙ ap
                (λ (n : ℕ).
                  best_loop rows cols (λ x y. best rows cols x y) rounds (suc i) b e
                    (better opt i (overall_ops rows cols b i e (best rows cols b i).opt_op_num n)))
                (read-best (suc i) e right (omega arith) right-Fills.0 right-Fills.1),
        rest.1,
        λ x y f. rest.2 x y (right-Fills.2 x y (left-Fills.2 x y f)),
        rest.3,
      )
    where
      left : Table
      left = computed again b i t

      left-Fills : Fills b i t left
      left-Fills =
          computed-Fills again b i t le
            (λ h. fills b i t (omega arith) h (omega arith) (omega arith) table) table

      right : Table
      right = computed again (suc i) e left

      right-Fills : Fills (suc i) e left right
      right-Fills =
          computed-Fills again (suc i) e left (omega arith)
            (λ h. fills (suc i) e left (omega arith) h (omega arith) (omega arith) left-Fills.0)
            left-Fills.0

      right-Parts : Parts b (suc i) e right
      right-Parts k l h = elim (Bool-cases (k == i)) [
        | inl p ↦
            let same : i ≡ k = ground arith in
            subst (λ j. Filled right b j × Filled right (suc j) e) same
              (right-Fills.2 b i left-Fills.1, right-Fills.1)
        | inr p ↦
            let before = parts k l (ground arith) in
            (
              right-Fills.2 b k (left-Fills.2 b k before.0),
              right-Fills.2 (suc k) e (left-Fills.2 (suc k) e before.1),
            )
      ]

  compute-step :
      (fuel b e : ℕ) (t : Table)
      → ((x y : ℕ) (u : Table)
          → x < y
          → y - x ≤ fuel
          → IsTable u
          → Fills x y u (compute fuel rows cols x y u))
      → b < e
      → e - b ≤ suc fuel
      → IsTable t
      → Fills b e t (compute (suc fuel) rows cols b e t)
  unfolding compute
  compute-step fuel b e t fills less enough table = (
    set-IsTable b e (chosen result.0) result.1 less number loop.3 loop.1,
    set-Filled b e (chosen result.0) result.1 number loop.3,
    λ x y f. set-Grows b e (chosen result.0) result.1 number x y (loop.2 x y f),
  )
    where
      result : Option OptMult × Table
      result = compute_loop (λ x y u. compute fuel rows cols x y u) rows cols (e - b) b b e none t

      loop :
          (result.0 ≡ best_loop rows cols (λ x y. best rows cols x y) (e - b) b b e none)
          × IsTable result.1
          × Grows t result.1
          × Parts b e e result.1
      loop =
          compute_loop_lem (λ x y u. compute fuel rows cols x y u) (e - b) b b e none t
            (λ x y u l h r smaller tu. fills x y u h (omega arith) tu) (omega arith) (omega arith)
            table (λ k l h. absurd (omega arith))

      number : chosen result.0 ≡ best rows cols b e
      number = ap chosen loop.0 ∙ sym (best-step rows cols b e less)

  -- With fuel for each matrix behind the first, the function fills the table for its part of the chain.
  pub compute-Fills :
      (fuel b e : ℕ) (t : Table)
      → b < e
      → e - b ≤ fuel
      → IsTable t
      → Fills b e t (compute fuel rows cols b e t)
  compute-Fills zero b e t less enough table = absurd (omega arith)
  compute-Fills (suc fuel) b e t less enough table =
      compute-step fuel b e t (λ x y u h le tu. compute-Fills fuel x y u h le tu) less enough table
