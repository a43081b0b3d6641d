-- ===== src/Matrix/Interpreter/Statement.antt =====
-- matrix-3.0/interpreter.h: a statement and the lines behind it.
use cpp_many_tasks.Prelude.{
  ℕ, suc, ◌^◌, ◌<◌, ◌≡◌, refl, sym, ap, ◌∙◌, inl, inr, Option, none, some, List, [], ◌∷◌, arith,
  length, All,
}
use cpp_many_tasks.Matrix.Tokenizer.{Token, var, for_token, new_line, Program}
use cpp_many_tasks.Matrix.Result.{Result, ok, ◌>>=◌, ok-injective, bind-ok, ok-Outcome}
use cpp_many_tasks.Matrix.Dense.{Matrix, product, identity, power}
use cpp_many_tasks.Matrix.Dense.Power.{IsSquare, product-IsSquare, iterate}
use cpp_many_tasks.Matrix.Expression.{next, Vars, at, Expression}
use cpp_many_tasks.Matrix.Expression.Linear.{value}
use cpp_many_tasks.Matrix.Expression.Progress.{is_tail, AreBelow, at-AreBelow}
use cpp_many_tasks.Matrix.Interpreter.{
  read_assignment, assignment_matrix, read_count, split_body, from_option, loop_matrix, statement,
}
use cpp_many_tasks.Matrix.Interpreter.Reading.{
  IsTail, IsAssignment, read_assignment-Outcome, read_count-Outcome, IsSplit, split_body-Outcome,
}
use cpp_many_tasks.Matrix.Interpreter.Reference.{
  Code, assign, loop, operate, assigned, execute, assign_code, loop_code, statement_code,
}
use cpp_many_tasks.Matrix.Interpreter.Assignment.{Acts, assignment_matrix-Acts}
use cpp_many_tasks.Matrix.Interpreter.Follow.{Follows, Acts-Follows, identity-Follows, power-Acts}

-- What the loop returns on the lines: the matrix of their code, behind `res`.
abbrev pub Correct : ℕ → (Program → Result Code) → Matrix → Program → Matrix → Type 0
Correct n codes res lines m =
    (c : Code) × (codes lines ≡ ok c) × IsSquare (suc n) m × Follows n res m (execute c)

from_option_lem : (p : Option Matrix) (r : Matrix) → from_option p ≡ ok r → p ≡ some r
from_option_lem none r h = absurd cc
from_option_lem (some m) r h = ap (λ k. some k) (ok-injective m r h)

at-below : (n : ℕ) (vars : Vars) (s : List ℕ) (i : ℕ) → AreBelow n vars → at vars s ≡ ok i → i < n
at-below n vars s i below h = elim (at-AreBelow n vars s below) [
  | inl (j, e, b) ↦ let same : j ≡ i = ok-injective j i (sym e ∙ h) in omega arith
  | inr e ↦ absurd cc
]

module _ (vars : Vars) (below : AreBelow (length vars) vars) (depth : ℕ)
    (again : Matrix → Program → Result Matrix) (inner : Program → Result Matrix)
    (code_again code_inner : Program → Result Code)
    (again_lem : (res : Matrix) (lines : Program) (m : Matrix)
      → IsSquare (suc (length vars)) res
      → All IsTail lines
      → again res lines ≡ ok m
      → Correct (length vars) code_again res lines m)
    (inner_lem : (lines : Program) (m : Matrix)
      → All IsTail lines
      → inner lines ≡ ok m
      → Correct (length vars) code_inner (identity (suc (length vars))) lines m) where
  assignment_code :
      (s : List ℕ) (line : List Token) (lines : Program) (x : ℕ) (p : ℕ × Expression × List Token)
      (c d : Code)
      → at vars s ≡ ok x
      → read_assignment vars line ≡ ok p
      → code_again lines ≡ ok c
      → assign_code x p c ≡ ok d
      → statement_code vars code_again code_inner depth (var s ∷ line) lines ≡ ok d
  unfolding statement_code
  assignment_code s line lines x p c d e f g h = rw e (rw f (rw g h))

  loop_statement :
      (line : List Token) (lines : Program) (k : ℕ) (p : Program × Program) (c d : Code)
      → read_count line ≡ ok k
      → split_body depth lines ≡ ok p
      → code_again p.1 ≡ ok c
      → loop_code code_inner k p.0 c ≡ ok d
      → statement_code vars code_again code_inner depth (for_token ∷ line) lines ≡ ok d
  unfolding statement_code
  loop_statement line lines k p c d e f g h = rw e (rw f (rw g h))

  assignment_lem :
      (res : Matrix) (s : List ℕ) (line : List Token) (lines : Program) (m : Matrix)
      → IsSquare (suc (length vars)) res
      → IsTail line
      → All IsTail lines
      → statement vars again inner depth res (var s ∷ line) lines ≡ ok m
      → Correct
          (length vars)
          (λ ls. statement_code vars code_again code_inner depth (var s ∷ line) ls)
          res
          lines
          m
  unfolding statement statement_code next execute
  assignment_lem res s line lines m square tail tails h =
      let x = bind-ok (at vars s) with_index m h in
      let p = bind-ok (read_assignment vars line) (with_parts x.0) m x.2 in
      let a = bind-ok (assignment_matrix n x.0 p.0) (λ k. again (product res k) lines) m p.2 in
      let scoped =
        ok-Outcome (IsAssignment n) (read_assignment vars line) p.0
          (read_assignment-Outcome n vars line below tail) p.1 in
      let acts =
        assignment_matrix-Acts n x.0 p.0.0 p.0.1 p.0.2 a.0 (at-below n vars s x.0 below x.1)
          scoped.0 a.1 in
      let rest =
        again_lem (product res a.0) lines m (product-IsSquare (suc n) res a.0 square acts.0) tails
          a.2 in
      (
        assign p.0.0 x.0 p.0.1 rest.0,
        assignment_code s line lines x.0 p.0 rest.0 (assign p.0.0 x.0 p.0.1 rest.0) x.1 p.1 rest.1
            (acts.2 rest.0),
        rest.2,
        Acts-Follows n res a.0 m (λ v. assigned x.0 (operate p.0.0 (v x.0) (value p.0.1 v)) v)
            (execute rest.0) square acts.1 rest.3,
      )
    where
      n : ℕ
      n = length vars

      with_parts : ℕ → ℕ × Expression × List Token → Result Matrix
      with_parts x p = assignment_matrix n x p >>= λ k. again (product res k) lines

      with_index : ℕ → Result Matrix
      with_index x = read_assignment vars line >>= λ p. with_parts x p

  body_code :
      (k : ℕ) (line : List Token) (body : Program) (c rest : Code)
      → code_inner (line ∷ body) ≡ ok c
      → loop_code code_inner k (line ∷ body) rest ≡ ok (loop k c rest)
  unfolding loop_code
  body_code k line body c rest e = rw e refl

  body_lem :
      (k : ℕ) (body : Program) (r : Matrix)
      → k < 2 ^ 64
      → All IsTail body
      → loop_matrix inner k body ≡ ok r
      → (c : Code) × IsSquare (suc (length vars)) r
        × Acts (length vars) r (λ v. iterate k (execute c) v)
        × ((rest : Code) → loop_code code_inner k body rest ≡ ok (loop k c rest))
  unfolding loop_matrix loop_code
  body_lem k [] r small tails h = absurd cc
  body_lem k (line ∷ body) r small tails h =
      let m = bind-ok (inner (line ∷ body)) (λ p. from_option (power p k)) r h in
      let correct = inner_lem (line ∷ body) m.0 tails m.1 in
      let acts =
        power-Acts (length vars) k m.0 r (execute correct.0) correct.2
          (identity-Follows (length vars) m.0 (execute correct.0) correct.3) small
          (from_option_lem (power m.0 k) r m.2) in
      (correct.0, acts.0, acts.1, λ rest. body_code k line body correct.0 rest correct.1)

  loop_lem :
      (res : Matrix) (line : List Token) (lines : Program) (m : Matrix)
      → IsSquare (suc (length vars)) res
      → IsTail line
      → All IsTail lines
      → statement vars again inner depth res (for_token ∷ line) lines ≡ ok m
      → Correct
          (length vars)
          (λ ls. statement_code vars code_again code_inner depth (for_token ∷ line) ls)
          res
          lines
          m
  unfolding statement statement_code next execute loop_matrix loop_code
  loop_lem res line lines m square tail tails h =
      let k = bind-ok (read_count line) with_count m h in
      let p = bind-ok (split_body depth lines) (with_split k.0) m k.2 in
      let a = bind-ok (loop_matrix inner k.0 p.0.0) (λ r. again (product res r) p.0.1) m p.2 in
      let split =
        ok-Outcome (IsSplit lines) (split_body depth lines) p.0
          (split_body-Outcome depth lines tails) p.1 in
      let small =
        ok-Outcome (λ j. j < 2 ^ 64) (read_count line) k.0 (read_count-Outcome line tail) k.1 in
      let acts = body_lem k.0 p.0.0 a.0 small split.0 a.1 in
      let rest =
        again_lem (product res a.0) p.0.1 m (product-IsSquare (suc n) res a.0 square acts.1) split.1
          a.2 in
      (
        loop k.0 acts.0 rest.0,
        loop_statement line lines k.0 p.0 rest.0 (loop k.0 acts.0 rest.0) k.1 p.1 rest.1
            (acts.3 rest.0),
        rest.2,
        Acts-Follows n res a.0 m (λ v. iterate k.0 (execute acts.0) v) (execute rest.0) square
            acts.2 rest.3,
      )
    where
      n : ℕ
      n = length vars

      with_split : ℕ → Program × Program → Result Matrix
      with_split k p = loop_matrix inner k p.0 >>= λ r. again (product res r) p.1

      with_count : ℕ → Result Matrix
      with_count k = split_body depth lines >>= λ p. with_split k p

  pub statement_lem :
      (res : Matrix) (line : List Token) (lines : Program) (m : Matrix)
      → IsSquare (suc (length vars)) res
      → IsTail line
      → All IsTail lines
      → statement vars again inner depth res line lines ≡ ok m
      → Correct
          (length vars)
          (λ ls. statement_code vars code_again code_inner depth line ls)
          res
          lines
          m
  unfolding statement statement_code is_tail
  statement_lem res [] lines m square tail tails h = absurd cc
  statement_lem res (var s ∷ line) lines m square tail tails h =
      assignment_lem res s line lines m square tail tails h
  statement_lem res (for_token ∷ line) lines m square tail tails h =
      loop_lem res line lines m square tail tails h
  statement_lem res (new_line ∷ line) lines m square tail tails h =
      again_lem res lines m square tails h
  statement_lem res (t ∷ line) lines m square tail tails h = absurd cc
