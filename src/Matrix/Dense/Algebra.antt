-- ===== src/Matrix/Dense/Algebra.antt =====
-- matrix-3.0/matrix.h: laws of the operators.
use native.Mathlib.Nat.{mul_comm}
use cpp_many_tasks.Prelude.{ℕ, ◌*◌, ◌%◌, ◌^◌, ◌<◌, ◌≡◌, sym, ap, ◌∙◌, arith}
use cpp_many_tasks.Matrix.Words.{add_word, neg_word, sum-cong}
use cpp_many_tasks.Matrix.Dense.{Matrix, add, negative, subtract, dot, product, transpose}
use cpp_many_tasks.Matrix.Dense.Action.{dot-sum}

-- What is subtracted comes back with an addition.
pub add-subtract :
    (a b : Matrix) (i j : ℕ) → a.at i j < 2 ^ 64 → (add (subtract a b) b).at i j ≡ a.at i j
unfolding add subtract negative add_word neg_word
add-subtract a b i j h = omega arith

-- The transpose of a product is that of the transposes in the other order.
pub transpose-product :
    (a b : Matrix) (i j : ℕ)
    → a.cols_num ≡ b.rows_num
    → (transpose (product a b)).at i j ≡ (product (transpose b) (transpose a)).at i j
unfolding transpose product
transpose-product a b i j fit =
    dot-sum a.cols_num (λ z. a.at j z) (λ z. b.at z i)
    ∙ ap (λ s. s % 2 ^ 64)
        (sum-cong a.cols_num (λ z. a.at j z * b.at z i) (λ z. b.at z i * a.at j z)
          (λ z h. mul_comm (a.at j z) (b.at z i)))
    ∙ sym (dot-sum a.cols_num (λ z. b.at z i) (λ z. a.at j z))
    ∙ ap (λ n. dot n (λ z. b.at z i) (λ z. a.at j z)) fit
