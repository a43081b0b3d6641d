-- ===== src/Matrix/Chain/Tests.antt =====
-- matrix-2.0/matrix.h: the chain of readme.md.
use cpp_many_tasks.Prelude.{
  ℕ, ◌+◌, ◌*◌, ◌≤◌, ◌<◌, ◌≡◌, refl, some, List, [], ◌∷◌, ◌++◌, arith, ◌==◌, if◌then◌else◌,
}
use cpp_many_tasks.Matrix.Chain.{
  set, better, chosen, overall_ops, computed, compute_loop, compute, multiplicate, sizes_fit,
  construct,
}
use cpp_many_tasks.Matrix.Chain.Plan.{Bracketing, cost, product_of, construct_lem}

-- A is 50 by 5, B is 5 by 100, and C is 100 by 10.
abbrev rows : ℕ → ℕ
rows i = if i == 0 then 50 else if i == 1 then 5 else 100

abbrev cols : ℕ → ℕ
cols i = if i == 0 then 5 else if i == 1 then 100 else 10

-- A matrix as the text of how it was made.
abbrev name : ℕ → List ℕ
name i = (b'A' + i) ∷ []

abbrev bracketed : List ℕ → List ℕ → List ℕ
bracketed l r = b'(' ∷ l ++ r ++ b')' ∷ []

chain_result :
    construct bracketed name rows cols 2
    ≡ some (b'(' ∷ b'A' ∷ b'(' ∷ b'B' ∷ b'C' ∷ b')' ∷ b')' ∷ [])
unfolding construct sizes_fit compute compute_loop computed better overall_ops chosen set
    multiplicate
chain_result = refl

products : (b i e : ℕ) → b ≤ i → i < e → e ≤ 2 → rows b * cols i * cols e ≤ 1000000
products b i e l h within = ground arith

construct_lem_example :
    (t : Bracketing 0 2) × (construct bracketed name rows cols 2
      ≡ some (product_of bracketed name 0 2 t))
    × ((u : Bracketing 0 2) → cost rows cols 0 2 t ≤ cost rows cols 0 2 u)
construct_lem_example =
    construct_lem rows cols 2 1000000 products (omega arith) bracketed name (omega arith)
      (λ j h. ground arith)
