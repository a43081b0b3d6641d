-- ===== src/Matrix/Chain.antt =====
-- matrix-2.0/matrix.h: the order of the products in a chain of matrices. A matrix of the chain is known by its
-- index; a `Glue` is the list of its operands.
pub mod Best
pub mod Memo
pub mod Optimal
pub mod Plan
mod Tests
use cpp_many_tasks.Prelude.{
  ℕ, zero, suc, ◌+◌, ◌-◌, ◌*◌, ◌%◌, ◌^◌, Bool, true, false, ◌&&◌, Option, none, some, ltb, ◌==◌,
  if◌then◌else◌,
}

pub record OptMult : Type 0 where
  pub left_part_end : ℕ
  pub opt_op_num : ℕ

-- `op_nums`.
abbrev pub Table : Type 0
Table = ℕ → ℕ → OptMult

abbrev pub unset : OptMult
unset = record { left_part_end = 0; opt_op_num = 0 }

unfoldable pub set : ℕ → ℕ → OptMult → Table → Table
set b e m table i j = if i == b && j == e then m else table i j

-- A round's end: the split at i is taken if it is the first or has fewer operations.
unfoldable pub better : Option OptMult → ℕ → ℕ → Option OptMult
better none i ops = some (record { left_part_end = i; opt_op_num = ops })
better (some m) i ops =
    some (if ltb ops m.opt_op_num then record { left_part_end = i; opt_op_num = ops } else m)

-- `*opt_ops`, which is set where the loop had a round.
unfoldable pub chosen : Option OptMult → OptMult
chosen none = unset
chosen (some m) = m

-- The operations of a split at i: those of the product, and those of its two parts.
unfoldable pub overall_ops : (ℕ → ℕ) → (ℕ → ℕ) → ℕ → ℕ → ℕ → ℕ → ℕ → ℕ
overall_ops rows cols b i e left right = (rows b * cols i * cols e + (left + right)) % 2 ^ 64

abbrev pub is_unset : OptMult → Bool
is_unset m = m.opt_op_num == 0

-- A part of the chain is computed where it is more than one matrix and has no number of operations yet.
unfoldable pub computed : (ℕ → ℕ → Table → Table) → ℕ → ℕ → Table → Table
computed again b e table =
    let table' = again b e table in
    if b == e then table else if is_unset (table b e) then table' else table

-- The loop of `ComputeOptMultNum` from i on, where `again` is the function itself.
unfoldable pub compute_loop :
    (ℕ → ℕ → Table → Table)
    → (ℕ → ℕ)
    → (ℕ → ℕ)
    → ℕ
    → ℕ
    → ℕ
    → ℕ
    → Option OptMult
    → Table
    → Option OptMult × Table
unfolding computed better overall_ops
compute_loop again rows cols zero i b e opt table = (opt, table)
compute_loop again rows cols (suc rounds) i b e opt table =
    let left = computed again b i table in
    let right = computed again (suc i) e left in
    compute_loop again rows cols rounds (suc i) b e
      (better opt i
        (overall_ops rows cols b i e (left b i).opt_op_num (right (suc i) e).opt_op_num))
      right

abbrev write : ℕ → ℕ → Option OptMult × Table → Table
write b e (opt, table) = set b e (chosen opt) table

-- `ComputeOptMultNum`.
unfoldable pub compute : ℕ → (ℕ → ℕ) → (ℕ → ℕ) → ℕ → ℕ → Table → Table
unfolding compute_loop set chosen
compute zero rows cols b e table = table
compute (suc fuel) rows cols b e table =
    write b e
      (compute_loop (λ x y t. compute fuel rows cols x y t) rows cols (e - b) b b e none table)

-- `MultiplicateMatrices`, where `dot` is the product of two matrices.
unfoldable pub multiplicate {ℓ} : {M : Type ℓ} → (M → M → M) → (ℕ → M) → Table → ℕ → ℕ → ℕ → M
multiplicate dot matrices table zero b e = matrices b
multiplicate dot matrices table (suc fuel) b e =
    let i = (table b e).left_part_end in
    let left = multiplicate dot matrices table fuel b i in
    let right = multiplicate dot matrices table fuel (suc i) e in
    dot (if i == b then matrices b else left) (if suc i == e then matrices e else right)

-- Whether the sizes of the first n products fit.
unfoldable pub sizes_fit : (ℕ → ℕ) → (ℕ → ℕ) → ℕ → Bool
sizes_fit rows cols zero = true
sizes_fit rows cols (suc n) = sizes_fit rows cols n && cols n == rows (suc n)

-- The constructor from a chain with the matrices 0 to `last`; `none` where it throws.
unfoldable pub construct {ℓ} :
    {M : Type ℓ} → (M → M → M) → (ℕ → M) → (ℕ → ℕ) → (ℕ → ℕ) → ℕ → Option M
unfolding sizes_fit compute multiplicate
construct dot matrices rows cols last =
    let op_nums = compute last rows cols 0 last (λ i j. unset) in
    if sizes_fit rows cols last then some (multiplicate dot matrices op_nums last 0 last) else none
