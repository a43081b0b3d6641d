-- ===== src/Matrix/Dense/Power.antt =====
-- matrix-3.0/matrix.h: `Pow` is repeated multiplication.
use mathlib.Core.Path.{subst}
use native.Mathlib.Nat.{pow-suc}
use cpp_many_tasks.Prelude.{
  ℕ, zero, suc, ◌+◌, ◌*◌, ◌/◌, ◌%◌, ◌^◌, ◌<◌, ◌≡◌, refl, sym, ap, ◌∙◌, inl, inr, false, some, arith,
  Bool-cases, ◌==◌, if◌then◌else◌,
}
use cpp_many_tasks.Matrix.Dense.{Matrix, product, identity, power_loop, power}
use cpp_many_tasks.Matrix.Dense.Action.{act, Agree, IsWords, act-Agree, act-identity, act-product}

-- A function applied again and again.
unfoldable pub iterate {ℓ} : {A : Type ℓ} → ℕ → (A → A) → A → A
iterate zero f a = a
iterate (suc n) f a = iterate n f (f a)

abbrev pub IsSquare : ℕ → Matrix → Type 0
IsSquare n m = (m.rows_num ≡ n) × (m.cols_num ≡ n)

pub product-IsSquare :
    (n : ℕ) (a b : Matrix) → IsSquare n a → IsSquare n b → IsSquare n (product a b)
unfolding product
product-IsSquare n a b (p, _) (_, q) = (p, q)

pub identity-IsSquare : (n : ℕ) → IsSquare n (identity n)
unfolding identity
identity-IsSquare n = (refl, refl)

iterate-Agree :
    (n k : ℕ) (m : Matrix) (v w : ℕ → ℕ)
    → Agree n v w
    → Agree n (iterate k (act n m) v) (iterate k (act n m) w)
unfolding iterate
iterate-Agree n zero m v w e = e
iterate-Agree n (suc k) m v w e = iterate-Agree n k m (act n m v) (act n m w) (act-Agree n m v w e)

iterate-iterate {ℓ} :
    {A : Type ℓ} (a b : ℕ) (f : A → A) (x : A) → iterate a f (iterate b f x) ≡ iterate (b + a) f x
unfolding iterate
iterate-iterate a zero f x = ap (λ k. iterate k f x) {x = a} {y = 0 + a} (omega arith)
iterate-iterate a (suc b) f x =
    iterate-iterate a b f (f x)
    ∙ ap (λ k. iterate k f x) {x = suc (b + a)} {y = suc b + a} (omega arith)

equal_rounds :
    (n a b : ℕ) (m : Matrix) (v : ℕ → ℕ)
    → a ≡ b
    → Agree n (iterate a (act n m) v) (iterate b (act n m) v)
equal_rounds n a b m v e j h = ap (λ k. iterate k (act n m) v j) e

-- The square of a matrix acts like the matrix twice.
iterate-square :
    (n k : ℕ) (m : Matrix) (v : ℕ → ℕ)
    → IsSquare n m
    → Agree n (iterate k (act n (product m m)) v) (iterate (2 * k) (act n m) v)
unfolding iterate
iterate-square n zero m v s j h = refl
iterate-square n (suc k) m v s j h =
    iterate-square n k m (act n (product m m) v) s j h
    ∙ iterate-Agree n (2 * k) m (act n (product m m) v) (act n m (act n m v))
        (act-product n m m v s.1) j h
    ∙ equal_rounds n (suc (suc (2 * k))) (2 * suc k) m v (omega arith) j h

abbrev next_res : Matrix → Matrix → ℕ → Matrix
next_res res m pow = if pow % 2 == 1 then product res m else res

next_res-IsSquare :
    (n pow : ℕ) (res m : Matrix) → IsSquare n res → IsSquare n m → IsSquare n (next_res res m pow)
next_res-IsSquare n pow res m sr sm = elim (Bool-cases (pow % 2 == 1)) [
  | inl e ↦ rw e (product-IsSquare n res m sr sm)
  | inr e ↦ rw e sr
]

next_res-Agree :
    (n pow : ℕ) (res m : Matrix) (v : ℕ → ℕ)
    → IsSquare n res
    → Agree n (act n (next_res res m pow) v) (iterate (pow % 2) (act n m) (act n res v))
unfolding iterate
next_res-Agree n pow res m v sr j h = elim (Bool-cases (pow % 2 == 1)) [
  | inl e ↦ rw e (
      act-product n res m v sr.1 j h
      ∙ equal_rounds n 1 (pow % 2) m (act n res v) (ground arith) j h)
  | inr e ↦ rw e (equal_rounds n 0 (pow % 2) m (act n res v) (ground arith) j h)
]

more_rounds : (fuel pow : ℕ) → pow < 2 ^ suc fuel → (pow / 2 == 0) ≡ false → 0 < fuel
more_rounds zero pow h e = ground arith
more_rounds (suc fuel) pow h e = omega arith

-- What the loop makes of its matrices acts like the result so far, and then `pow` times the other.
pub power_loop_lem :
    (fuel n pow : ℕ) (res m : Matrix)
    → IsSquare n res
    → IsSquare n m
    → pow < 2 ^ fuel
    → 0 < fuel
    → (r : Matrix) × (power_loop fuel res m pow ≡ some r)
      × IsSquare n r
      × ((v : ℕ → ℕ) → Agree n (act n r v) (iterate pow (act n m) (act n res v)))
unfolding power_loop
power_loop_lem zero n pow res m sr sm h p = absurd (omega arith)
power_loop_lem (suc fuel) n pow res m sr sm h p = elim (Bool-cases (pow / 2 == 0)) [
  | inl e ↦ (
    next_res res m pow,
    rw e refl,
    next_res-IsSquare n pow res m sr sm,
    λ v j l.
        next_res-Agree n pow res m v sr j l
        ∙ equal_rounds n (pow % 2) pow m (act n res v) (ground arith) j l,
  )
  | inr e ↦
      let rest =
        power_loop_lem fuel n (pow / 2) (next_res res m pow) (product m m)
          (next_res-IsSquare n pow res m sr sm) (product-IsSquare n m m sm sm) (half e)
          (more_rounds fuel pow h e) in
      (
        rest.0,
        rw e rest.1,
        rest.2,
        λ v j l.
            rest.3 v j l
            ∙ iterate-square n (pow / 2) m (act n (next_res res m pow) v) sm j l
            ∙ iterate-Agree n (2 * (pow / 2)) m (act n (next_res res m pow) v)
                (iterate (pow % 2) (act n m) (act n res v)) (next_res-Agree n pow res m v sr) j l
            ∙ ap (λ w. w j) (iterate-iterate (2 * (pow / 2)) (pow % 2) (act n m) (act n res v))
            ∙ equal_rounds n (pow % 2 + 2 * (pow / 2)) pow m (act n res v) (omega arith) j l,
      )
]
  where
    half : (pow / 2 == 0) ≡ false → pow / 2 < 2 ^ fuel
    half e = omega (arith, pow-suc 2 fuel)

-- `Pow` of a square matrix with a 64-bit exponent ends, and the matrix it returns acts on row
-- vectors of words like as many applications of the matrix.
pub power_lem :
    (n pow : ℕ) (m : Matrix)
    → IsSquare n m
    → pow < 2 ^ 64
    → (r : Matrix) × (power m pow ≡ some r)
      × IsSquare n r
      × ((v : ℕ → ℕ) → IsWords n v → Agree n (act n r v) (iterate pow (act n m) v))
unfolding power
power_lem n pow m s h =
    let start : IsSquare n (identity m.rows_num) =
      subst (λ k. IsSquare n (identity k)) (sym s.0) (identity-IsSquare n) in
    let all = power_loop_lem 64 n pow (identity m.rows_num) m start s h (omega arith) in
    (
      all.0,
      all.1,
      all.2,
      λ v words j l.
          all.3 v j l
          ∙ iterate-Agree n pow m (act n (identity m.rows_num) v) v
              (subst (λ k. Agree n (act n (identity k) v) v) (sym s.0) (act-identity n v words)) j
              l,
    )
