-- ===== src/Matrix/Dense.antt =====
-- matrix-3.0/matrix.h: `Matrix`, with its elements as a function of two indices.
pub mod Action
pub mod Algebra
pub mod Dot
pub mod Power
use cpp_many_tasks.Prelude.{
  ℕ, zero, suc, ◌+◌, ◌/◌, ◌%◌, Bool, Option, none, some, ◌==◌, if◌then◌else◌,
}
use cpp_many_tasks.Matrix.Words.{add_word, mul_word, neg_word}

pub record Matrix : Type 0 where
  pub rows_num : ℕ
  pub cols_num : ℕ
  pub at : ℕ → ℕ → ℕ

abbrev pub zeros : ℕ → ℕ → Matrix
zeros rows cols = record { rows_num = rows; cols_num = cols; at = λ i j. 0 }

unfoldable pub add : Matrix → Matrix → Matrix
add lhs rhs = record lhs { at = λ i j. add_word (lhs.at i j) (rhs.at i j) }

unfoldable pub negative : Matrix → Matrix
negative m = record m { at = λ i j. neg_word (m.at i j) }

unfoldable pub subtract : Matrix → Matrix → Matrix
unfolding add negative
subtract lhs rhs = add lhs (negative rhs)

-- The innermost loop of the product.
unfoldable pub dot : ℕ → (ℕ → ℕ) → (ℕ → ℕ) → ℕ
unfolding add_word mul_word
dot zero l r = 0
dot (suc z) l r = add_word (dot z l r) (mul_word (l z) (r z))

unfoldable pub product : Matrix → Matrix → Matrix
unfolding dot
product lhs rhs = record {
  rows_num = lhs.rows_num;
  cols_num = rhs.cols_num;
  at = λ i j. dot lhs.cols_num (λ z. lhs.at i z) (λ z. rhs.at z j);
}

unfoldable pub transpose : Matrix → Matrix
transpose m = record { rows_num = m.cols_num; cols_num = m.rows_num; at = λ i j. m.at j i }

unfoldable pub identity : ℕ → Matrix
identity n = record { rows_num = n; cols_num = n; at = λ i j. if i == j then 1 else 0 }

-- The loop of `Pow`; `none` if the fuel runs out.
unfoldable pub power_loop : ℕ → Matrix → Matrix → ℕ → Option Matrix
unfolding product
power_loop zero res m pow = none
power_loop (suc fuel) res m pow =
    let res' = if pow % 2 == 1 then product res m else res in
    let rest = power_loop fuel res' (product m m) (pow / 2) in
    if pow / 2 == 0 then some res' else rest

-- `Pow`; a `size_t` has 64 bits, so there are at most as many rounds.
unfoldable pub power : Matrix → ℕ → Option Matrix
unfolding power_loop identity
power m pow = power_loop 64 (identity m.rows_num) m pow
