-- ===== src/Matrix/Interpreter/Progress.antt =====
-- matrix-3.0/interpreter.h: `CalculateTransformMatrix` throws or returns.
use cpp_many_tasks.Prelude.{
  ℕ, zero, suc, ◌^◌, ◌<◌, inl, inr, List, [], ◌∷◌, arith, length, All, Bool-cases, ◌==◌,
  if◌then◌else◌,
}
use cpp_many_tasks.Matrix.Tokenizer.{Token, var, for_token, new_line, is_new_line, Program}
use cpp_many_tasks.Matrix.Result.{Result, ok, err, exception, ◌>>=◌, Outcome, bind-Outcome}
use cpp_many_tasks.Matrix.Dense.{Matrix, product, identity, power}
use cpp_many_tasks.Matrix.Dense.Power.{IsSquare, product-IsSquare, identity-IsSquare, power_lem}
use cpp_many_tasks.Matrix.Expression.{get, next, Vars, at, Expression, has_vars, evaluate}
use cpp_many_tasks.Matrix.Expression.Progress.{is_tail, AreBelow, at-AreBelow}
use cpp_many_tasks.Matrix.Interpreter.{
  count_tabs, read_assignment, adjust, with_column, assignment_matrix, read_count, split_body,
  from_option, loop_matrix, statement, transform_loop,
}
use cpp_many_tasks.Matrix.Interpreter.Reading.{
  IsTail, IsAny, count_tabs-Outcome, IsAssignment, read_assignment-Outcome, read_count-Outcome,
  IsSplit, split_body-Outcome, evaluate-Outcome,
}
use cpp_many_tasks.Matrix.Interpreter.Assignment.{with_column-IsSquare}

at-Outcome : (n : ℕ) (vars : Vars) (s : List ℕ) → AreBelow n vars → Outcome (λ i. i < n) (at vars s)
unfolding Outcome
at-Outcome n vars s below = elim (at-AreBelow n vars s below) [
  | inl (i, e, b) ↦ rw e b
  | inr e ↦ rw e tt
]

adjust-Outcome : (op n x : ℕ) (c : ℕ → ℕ) → Outcome IsAny (adjust op n x c)
unfolding adjust Outcome
adjust-Outcome op n x c = elim (Bool-cases (op == b'+')) [
  | inl p ↦ rw p tt
  | inr p ↦ rw p (elim (Bool-cases (op == b'-')) [
    | inl q ↦ rw q tt
    | inr q ↦ rw q (elim (Bool-cases (op == b'*')) [
      | inl r ↦ rw r (elim (Bool-cases (has_vars n c)) [ inl s ↦ rw s tt | inr s ↦ rw s tt ])
      | inr r ↦ rw r tt
    ])
  ])
]

abbrev Square : ℕ → Matrix → Type 0
Square n m = IsSquare (suc n) m

assignment_matrix-Outcome :
    (n x op : ℕ) (e : Expression) (line : List Token)
    → IsTail line
    → Outcome (Square n) (assignment_matrix n x (op, e, line))
unfolding assignment_matrix get Outcome is_tail
assignment_matrix-Outcome n x op e [] tail = absurd cc
assignment_matrix-Outcome n x op e (t ∷ line) tail =
    bind-Outcome IsAny (Square n) (evaluate n e) column (evaluate-Outcome n e) λ c h.
      elim (Bool-cases (is_new_line t)) [
        | inl p ↦ rw p (
            bind-Outcome IsAny (Square n) (adjust op n x c)
              (λ d. ok (with_column (identity (suc n)) x d)) (adjust-Outcome op n x c)
              λ d k. with_column-IsSquare n x d)
        | inr p ↦ rw p tt
      ]
  where
    column : (ℕ → ℕ) → Result Matrix
    column c =
        if is_new_line t
        then (adjust op n x c >>= λ d. ok (with_column (identity (suc n)) x d))
        else err exception

power-Outcome :
    (n k : ℕ) (m : Matrix) → k < 2 ^ 64 → Square n m → Outcome (Square n) (from_option (power m k))
unfolding Outcome
power-Outcome n k m small square =
    let found = power_lem (suc n) k m square small in rw found.1 found.2

module _ (vars : Vars) (below : AreBelow (length vars) vars) (depth fuel : ℕ)
    (again : Matrix → Program → Result Matrix) (inner : Program → Result Matrix)
    (again-Outcome : (res : Matrix) (lines : Program)
      → Square (length vars) res
      → All IsTail lines
      → length lines < fuel
      → Outcome (Square (length vars)) (again res lines))
    (inner-Outcome : (lines : Program)
      → All IsTail lines
      → length lines < fuel
      → Outcome (Square (length vars)) (inner lines)) where
  body-Outcome :
      (k : ℕ) (body : Program)
      → k < 2 ^ 64
      → All IsTail body
      → length body < fuel
      → Outcome (Square (length vars)) (loop_matrix inner k body)
  unfolding loop_matrix Outcome
  body-Outcome k [] small tails enough = tt
  body-Outcome k (line ∷ body) small tails enough =
      bind-Outcome (Square (length vars)) (Square (length vars)) (inner (line ∷ body))
        (λ m. from_option (power m k)) (inner-Outcome (line ∷ body) tails enough)
        λ m square. power-Outcome (length vars) k m small square

  assignment-Outcome :
      (res : Matrix) (s : List ℕ) (line : List Token) (lines : Program)
      → Square (length vars) res
      → IsTail line
      → All IsTail lines
      → length lines < fuel
      → Outcome (Square (length vars)) (statement vars again inner depth res (var s ∷ line) lines)
  unfolding statement next
  assignment-Outcome res s line lines square tail tails enough =
      bind-Outcome (λ x. x < length vars) (Square (length vars)) (at vars s)
        (λ x. read_assignment vars line >>= λ p. parts x p) (at-Outcome (length vars) vars s below)
        λ x small.
          bind-Outcome (IsAssignment (length vars)) (Square (length vars))
            (read_assignment vars line) (λ p. parts x p)
            (read_assignment-Outcome (length vars) vars line below tail)
            λ p h.
              bind-Outcome (Square (length vars)) (Square (length vars))
                (assignment_matrix (length vars) x p) (λ m. again (product res m) lines)
                (assignment_matrix-Outcome (length vars) x p.0 p.1 p.2 h.1)
                λ m sm.
                  again-Outcome (product res m) lines
                    (product-IsSquare (suc (length vars)) res m square sm) tails enough
    where
      parts : ℕ → ℕ × Expression × List Token → Result Matrix
      parts x p = assignment_matrix (length vars) x p >>= λ m. again (product res m) lines

  loop-Outcome :
      (res : Matrix) (line : List Token) (lines : Program)
      → Square (length vars) res
      → IsTail line
      → All IsTail lines
      → length lines < fuel
      → Outcome
          (Square (length vars))
          (statement vars again inner depth res (for_token ∷ line) lines)
  unfolding statement next
  loop-Outcome res line lines square tail tails enough =
      bind-Outcome (λ k. k < 2 ^ 64) (Square (length vars)) (read_count line)
        (λ k. split_body depth lines >>= λ p. parts k p) (read_count-Outcome line tail)
        λ k small.
          bind-Outcome (IsSplit lines) (Square (length vars)) (split_body depth lines)
            (λ p. parts k p) (split_body-Outcome depth lines tails)
            λ p h.
              bind-Outcome (Square (length vars)) (Square (length vars)) (loop_matrix inner k p.0)
                (λ m. again (product res m) p.1) (body-Outcome k p.0 small h.0 (omega (arith, h.2)))
                λ m sm.
                  again-Outcome (product res m) p.1
                    (product-IsSquare (suc (length vars)) res m square sm) h.1 (omega (arith, h.2))
    where
      parts : ℕ → Program × Program → Result Matrix
      parts k p = loop_matrix inner k p.0 >>= λ m. again (product res m) p.1

  statement-Outcome :
      (res : Matrix) (line : List Token) (lines : Program)
      → Square (length vars) res
      → IsTail line
      → All IsTail lines
      → length lines < fuel
      → Outcome (Square (length vars)) (statement vars again inner depth res line lines)
  unfolding statement is_tail Outcome
  statement-Outcome res [] lines square tail tails enough = absurd cc
  statement-Outcome res (var s ∷ line) lines square tail tails enough =
      assignment-Outcome res s line lines square tail tails enough
  statement-Outcome res (for_token ∷ line) lines square tail tails enough =
      loop-Outcome res line lines square tail tails enough
  statement-Outcome res (new_line ∷ line) lines square tail tails enough =
      again-Outcome res lines square tails enough
  statement-Outcome res (t ∷ line) lines square tail tails enough = tt

-- Given more rounds than lines, the loop throws, or it returns a square matrix.
pub transform_loop-Outcome :
    (fuel : ℕ) (vars : Vars) (depth : ℕ) (res : Matrix) (lines : Program)
    → AreBelow (length vars) vars
    → IsSquare (suc (length vars)) res
    → All IsTail lines
    → length lines < fuel
    → Outcome (λ m. IsSquare (suc (length vars)) m) (transform_loop fuel vars depth res lines)
unfolding transform_loop Outcome
transform_loop-Outcome zero vars depth res lines below square tails enough = absurd (omega arith)
transform_loop-Outcome (suc fuel) vars depth res [] below square tails enough = square
transform_loop-Outcome (suc fuel) vars depth res (line ∷ lines) below square (tail, tails) enough =
    bind-Outcome (λ r. IsTail r.1) (Square (length vars)) (count_tabs line) at_depth
      (count_tabs-Outcome line tail)
      λ r h. elim (Bool-cases (r.0 == depth)) [
        | inl e ↦ rw e (
            statement-Outcome vars below depth fuel again inner
              (λ a ls sq ts more. transform_loop-Outcome fuel vars depth a ls below sq ts more)
              (λ body ts more.
                transform_loop-Outcome fuel vars (suc depth) (identity (suc (length vars))) body
                  below (identity-IsSquare (suc (length vars))) ts more)
              res r.1 lines square h tails (omega arith))
        | inr e ↦ rw e tt
      ]
  where
    again : Matrix → Program → Result Matrix
    again a ls = transform_loop fuel vars depth a ls

    inner : Program → Result Matrix
    inner body = transform_loop fuel vars (suc depth) (identity (suc (length vars))) body

    at_depth : ℕ × List Token → Result Matrix
    at_depth r =
        if r.0 == depth then statement vars again inner depth res r.1 lines else err exception
