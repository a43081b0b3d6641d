-- ===== src/Matrix/Expression/Accepts.antt =====
-- matrix-3.0/expression.h: the expressions that `Evaluate` accepts.
use cpp_many_tasks.Prelude.{
  ℕ, zero, suc, ◌<◌, ◌≡◌, refl, ◌⊎◌, inl, inr, false, arith, Bool-cases, ◌==◌, if◌then◌else◌,
}
use cpp_many_tasks.Matrix.Words.{add_word, mul_word, neg_word, sub_word}
use cpp_many_tasks.Matrix.Result.{ok}
use cpp_many_tasks.Matrix.Expression.{
  Expression, constant, variable, empty, negated, bracketed, factor, mul, term, sum, has_vars,
  multiply, combine, evaluate,
}

-- An expression without variables.
unfoldable pub IsConstant : Expression → Type 0
IsConstant (constant k) = Unit
IsConstant (variable x) = ⊥
IsConstant empty = Unit
IsConstant (negated e) = IsConstant e
IsConstant (bracketed e) = IsConstant e
IsConstant (factor e) = IsConstant e
IsConstant (mul l r) = IsConstant l × IsConstant r
IsConstant (term e) = IsConstant e
IsConstant (sum l op r) = IsConstant l × IsConstant r

-- One side of each product has no variables.
unfoldable pub IsLinear : Expression → Type 0
unfolding IsConstant
IsLinear (constant k) = Unit
IsLinear (variable x) = Unit
IsLinear empty = Unit
IsLinear (negated e) = IsLinear e
IsLinear (bracketed e) = IsLinear e
IsLinear (factor e) = IsLinear e
IsLinear (mul l r) = IsLinear l × IsLinear r × (IsConstant l ⊎ IsConstant r)
IsLinear (term e) = IsLinear e
IsLinear (sum l op r) = IsLinear l × IsLinear r

abbrev IsZero : ℕ → (ℕ → ℕ) → Type 0
IsZero n c = (i : ℕ) → i < n → c i ≡ 0

pub IsZero-has_vars : (n : ℕ) (c : ℕ → ℕ) → IsZero n c → has_vars n c ≡ false
unfolding has_vars
IsZero-has_vars zero c h = refl
IsZero-has_vars (suc n) c h =
    let last = h n (omega arith) in ground (arith, IsZero-has_vars n c (λ i l. h i (omega arith)))

combine-IsZero : (n op : ℕ) (c d : ℕ → ℕ) → IsZero n c → IsZero n d → IsZero n (combine op c d)
unfolding add_word sub_word neg_word
combine-IsZero n op c d p q i h = elim (Bool-cases (op == b'+')) [
  | inl e ↦ rw e (omega (arith, p i h, q i h))
  | inr e ↦ rw e (elim (Bool-cases (op == b'-')) [
    | inl f ↦ rw f (omega (arith, p i h, q i h))
    | inr f ↦ rw f (p i h)
  ])
]

-- An expression without variables has no coefficients for them.
abbrev pub HasZeros : ℕ → Expression → Type 0
HasZeros n e = (c : ℕ → ℕ) × (evaluate n e ≡ ok c) × ((i : ℕ) → i < n → c i ≡ 0)

pub IsConstant-HasZeros : (n : ℕ) (e : Expression) → IsConstant e → HasZeros n e
unfolding evaluate IsConstant multiply neg_word mul_word
IsConstant-HasZeros n (constant k) h = (λ i. if i == n then k else 0, refl, λ i l. ground arith)
IsConstant-HasZeros n (variable x) h = elim h [ ]
IsConstant-HasZeros n empty h = (λ i. 0, refl, λ i l. refl)
IsConstant-HasZeros n (negated e) h =
    let c = IsConstant-HasZeros n e h in
    (λ i. neg_word (c.0 i), rw c.1 refl, λ i l. omega (arith, c.2 i l))
IsConstant-HasZeros n (bracketed e) h = IsConstant-HasZeros n e h
IsConstant-HasZeros n (factor e) h = IsConstant-HasZeros n e h
IsConstant-HasZeros n (mul l r) (hl, hr) =
    let c = IsConstant-HasZeros n l hl in
    let d = IsConstant-HasZeros n r hr in
    (
      λ i. mul_word (d.0 i) (c.0 n),
      rw c.1 (rw d.1 (multiply_zero c.0 d.0 (IsZero-has_vars n c.0 c.2))),
      λ i k. rw (d.2 i k) (omega arith),
    )
  where
    multiply_zero :
        (c d : ℕ → ℕ) → has_vars n c ≡ false → multiply n c d ≡ ok (λ i. mul_word (d i) (c n))
    multiply_zero c d h = rw h (rw h refl)
IsConstant-HasZeros n (term e) h = IsConstant-HasZeros n e h
IsConstant-HasZeros n (sum l op r) (hl, hr) =
    let c = IsConstant-HasZeros n l hl in
    let d = IsConstant-HasZeros n r hr in
    (combine op c.0 d.0, rw c.1 (rw d.1 refl), combine-IsZero n op c.0 d.0 c.2 d.2)

multiply_left : (n : ℕ) (c d : ℕ → ℕ) → has_vars n c ≡ false → (r : ℕ → ℕ) × (multiply n c d ≡ ok r)
unfolding multiply
multiply_left n c d h = (λ i. mul_word (d i) (c n), rw h (rw h refl))

multiply_right :
    (n : ℕ) (c d : ℕ → ℕ) → has_vars n d ≡ false → (r : ℕ → ℕ) × (multiply n c d ≡ ok r)
unfolding multiply
multiply_right n c d h = elim (Bool-cases (has_vars n c)) [
  | inl e ↦ (λ i. mul_word (c i) (d n), rw e (rw h refl))
  | inr e ↦ (λ i. mul_word (d i) (c n), rw e (rw e refl))
]

-- What is linear by its form is accepted.
pub IsLinear-evaluate : (n : ℕ) (e : Expression) → IsLinear e → (c : ℕ → ℕ) × (evaluate n e ≡ ok c)
unfolding evaluate IsLinear neg_word
IsLinear-evaluate n (constant k) h = (λ i. if i == n then k else 0, refl)
IsLinear-evaluate n (variable x) h = (λ i. if i == x then 1 else 0, refl)
IsLinear-evaluate n empty h = (λ i. 0, refl)
IsLinear-evaluate n (negated e) h =
    let c = IsLinear-evaluate n e h in (λ i. neg_word (c.0 i), rw c.1 refl)
IsLinear-evaluate n (bracketed e) h = IsLinear-evaluate n e h
IsLinear-evaluate n (factor e) h = IsLinear-evaluate n e h
IsLinear-evaluate n (mul l r) (hl, hr, one) = elim one [
  | inl constant_l ↦
      let c = IsConstant-HasZeros n l constant_l in
      let d = IsLinear-evaluate n r hr in
      let both = multiply_left n c.0 d.0 (IsZero-has_vars n c.0 c.2) in
      (both.0, rw c.1 (rw d.1 both.1))
  | inr constant_r ↦
      let c = IsLinear-evaluate n l hl in
      let d = IsConstant-HasZeros n r constant_r in
      let both = multiply_right n c.0 d.0 (IsZero-has_vars n d.0 d.2) in
      (both.0, rw c.1 (rw d.1 both.1))
]
IsLinear-evaluate n (term e) h = IsLinear-evaluate n e h
IsLinear-evaluate n (sum l op r) (hl, hr) =
    let c = IsLinear-evaluate n l hl in
    let d = IsLinear-evaluate n r hr in (combine op c.0 d.0, rw c.1 (rw d.1 refl))
