-- ===== src/Matrix/Dense/Action.antt =====
-- matrix-3.0/matrix.h: a row vector times a matrix.
use cpp_many_tasks.Prelude.{
  ℕ, zero, suc, ◌*◌, ◌%◌, ◌^◌, ◌<◌, ◌≡◌, refl, sym, ap, ◌∙◌, arith, ◌==◌, if◌then◌else◌,
}
use native.Mathlib.Nat.{mul_assoc}
use cpp_many_tasks.Matrix.Words.{
  add_word, mul_word, word-mul, mul-word, sum, sum-cong, sum-cong_word, sum-mul, sum-mul_left,
  sum-sum, sum-single,
}
use cpp_many_tasks.Matrix.Dense.{Matrix, dot, product, identity}

-- Each multiplication and addition of the loop wraps, and the result is that of the sum.
pub dot-sum : (n : ℕ) (l r : ℕ → ℕ) → dot n l r ≡ sum n (λ z. l z * r z) % 2 ^ 64
unfolding dot sum add_word mul_word
dot-sum zero l r = refl
dot-sum (suc n) l r = omega (arith, dot-sum n l r)

-- The first n entries of a row vector times a matrix with n rows.
abbrev pub act : ℕ → Matrix → (ℕ → ℕ) → ℕ → ℕ
act n m v j = dot n v (λ z. m.at z j)

abbrev pub Agree : ℕ → (ℕ → ℕ) → (ℕ → ℕ) → Type 0
Agree n v w = (j : ℕ) → j < n → v j ≡ w j

abbrev pub IsWords : ℕ → (ℕ → ℕ) → Type 0
IsWords n v = (j : ℕ) → j < n → v j < 2 ^ 64

pub Agree-trans : (n : ℕ) (u v w : ℕ → ℕ) → Agree n u v → Agree n v w → Agree n u w
Agree-trans n u v w f g j h = f j h ∙ g j h

pub act-Agree : (n : ℕ) (m : Matrix) (v w : ℕ → ℕ) → Agree n v w → Agree n (act n m v) (act n m w)
act-Agree n m v w e j h =
    dot-sum n v (λ z. m.at z j)
    ∙ ap (λ s. s % 2 ^ 64)
        (sum-cong n (λ z. v z * m.at z j) (λ z. w z * m.at z j)
          (λ z l. ap (λ (t : ℕ). t * m.at z j) (e z l)))
    ∙ sym (dot-sum n w (λ z. m.at z j))

pub act-IsWords : (n : ℕ) (m : Matrix) (v : ℕ → ℕ) → IsWords n (act n m v)
act-IsWords n m v j h = omega (arith, dot-sum n v (λ z. m.at z j))

pub act-identity : (n : ℕ) (v : ℕ → ℕ) → IsWords n v → Agree n (act n (identity n) v) v
unfolding identity
act-identity n v words j h =
    dot-sum n v (λ z. if z == j then 1 else 0)
    ∙ ap (λ s. s % 2 ^ 64)
        (sum-cong n (λ z. v z * (if z == j then 1 else 0)) (λ z. if z == j then v z else 0)
            (λ z l. ground arith)
          ∙ sum-single n j v)
    ∙ ground (arith, words j)

module _ (n : ℕ) (f g : ℕ → ℕ → ℕ) (v : ℕ → ℕ) (j : ℕ) where
  inner_words :
      sum n (λ z. v z * dot n (f z) (λ k. g k j)) % 2 ^ 64
      ≡ sum n (λ z. v z * sum n (λ k. f z k * g k j)) % 2 ^ 64
  inner_words =
      sum-cong_word n (λ z. v z * dot n (f z) (λ k. g k j)) (λ z. v z * sum n (λ k. f z k * g k j))
        λ z l.
          ap (λ (t : ℕ). v z * t % 2 ^ 64) (dot-sum n (f z) (λ k. g k j))
          ∙ mul-word (v z) (sum n (λ k. f z k * g k j))

  exchange :
      sum n (λ z. v z * sum n (λ k. f z k * g k j)) ≡ sum n (λ k. sum n (λ z. v z * f z k) * g k j)
  exchange =
      sum-cong n (λ z. v z * sum n (λ k. f z k * g k j)) (λ z. sum n (λ k. v z * f z k * g k j))
        (λ z l.
          sym (sum-mul_left n (λ k. f z k * g k j) (v z))
          ∙ sum-cong n (λ k. v z * (f z k * g k j)) (λ k. v z * f z k * g k j)
              (λ k h. sym (mul_assoc (v z) (f z k) (g k j))))
      ∙ sum-sum n n (λ z k. v z * f z k * g k j)
      ∙ sum-cong n (λ k. sum n (λ z. v z * f z k * g k j)) (λ k. sum n (λ z. v z * f z k) * g k j)
          (λ k h. sum-mul n (λ z. v z * f z k) (g k j))

  outer_words :
      sum n (λ k. sum n (λ z. v z * f z k) * g k j) % 2 ^ 64
      ≡ sum n (λ k. dot n v (λ z. f z k) * g k j) % 2 ^ 64
  outer_words =
      sum-cong_word n (λ k. sum n (λ z. v z * f z k) * g k j) (λ k. dot n v (λ z. f z k) * g k j)
        λ k h.
          sym (word-mul (sum n (λ z. v z * f z k)) (g k j))
          ∙ ap (λ (t : ℕ). t * g k j % 2 ^ 64) (sym (dot-sum n v (λ z. f z k)))

  dot-dot : dot n v (λ z. dot n (f z) (λ k. g k j)) ≡ dot n (λ k. dot n v (λ z. f z k)) (λ k. g k j)
  dot-dot =
      dot-sum n v (λ z. dot n (f z) (λ k. g k j))
      ∙ inner_words
      ∙ ap (λ s. s % 2 ^ 64) exchange
      ∙ outer_words
      ∙ sym (dot-sum n (λ k. dot n v (λ z. f z k)) (λ k. g k j))

-- The product of two square matrices acts as one after the other.
pub act-product :
    (n : ℕ) (a b : Matrix) (v : ℕ → ℕ)
    → a.cols_num ≡ n
    → Agree n (act n (product a b) v) (act n b (act n a v))
unfolding product
act-product n a b v square j h =
    ap (λ c. dot n v (λ z. dot c (λ k. a.at z k) (λ k. b.at k j))) square ∙ dot-dot n a.at b.at v j
