-- ===== src/Matrix/Interpreter/Accepts.antt =====
-- matrix-3.0/interpreter.h: the programs that `Run` accepts.
use mathlib.Core.Path.{subst}
use cpp_many_tasks.Prelude.{
  ℕ, suc, ◌^◌, ◌<◌, ◌≡◌, refl, sym, ap, ◌∙◌, inl, inr, true, false, Option, some, List, [], ◌∷◌,
  arith, length, All, Bool-cases, ◌==◌, if◌then◌else◌,
}
use cpp_many_tasks.Matrix.Tokenizer.{Token, var, for_token, new_line, is_new_line, Program}
use cpp_many_tasks.Matrix.Words.{add_word, neg_word}
use cpp_many_tasks.Matrix.Result.{
  Result, ok, err, exception, ◌>>=◌, ok-injective, bind-ok, ok-Outcome,
}
use cpp_many_tasks.Matrix.Dense.{Matrix, product, identity, power}
use cpp_many_tasks.Matrix.Dense.Power.{IsSquare, product-IsSquare, power_lem}
use cpp_many_tasks.Matrix.Expression.{get, next, Vars, at, Expression, evaluate}
use cpp_many_tasks.Matrix.Expression.Accepts.{
  IsConstant, IsLinear, IsZero-has_vars, IsConstant-HasZeros, IsLinear-evaluate,
}
use cpp_many_tasks.Matrix.Expression.Progress.{is_tail}
use cpp_many_tasks.Matrix.Interpreter.{
  read_assignment, adjust, with_column, assignment_matrix, read_count, split_body, from_option,
  loop_matrix, statement,
}
use cpp_many_tasks.Matrix.Interpreter.Reading.{
  IsTail, read_count-Outcome, IsSplit, split_body-Outcome,
}
use cpp_many_tasks.Matrix.Interpreter.Reference.{
  Code, done, assign, loop, assign_code, loop_code, statement_code,
}
use cpp_many_tasks.Matrix.Interpreter.Assignment.{with_column-IsSquare}

-- The expressions are linear, and those behind `*=` have no variables.
unfoldable pub AreLinear : Code → Type 0
unfolding IsLinear IsConstant
AreLinear done = Unit
AreLinear (assign op x e rest) = IsLinear e × ((op == b'*') ≡ true → IsConstant e) × AreLinear rest
AreLinear (loop k body rest) = AreLinear body × AreLinear rest

abbrev Square : ℕ → Matrix → Type 0
Square n m = IsSquare (suc n) m

adjust-accepts :
    (op n x : ℕ) (e : Expression)
    → IsLinear e
    → ((op == b'*') ≡ true → IsConstant e)
    → (c : ℕ → ℕ) × (evaluate n e ≡ ok c) × ((d : ℕ → ℕ) × (adjust op n x c ≡ ok d))
unfolding adjust
adjust-accepts op n x e linear constant = elim (Bool-cases (op == b'*')) [
  | inl p ↦
      let c = IsConstant-HasZeros n e (constant p) in
      let plus : (op == b'+') ≡ false = ground arith in
      let minus : (op == b'-') ≡ false = ground arith in
      (
        c.0,
        c.1,
        (
          λ i. if i == n then 0 else if i == x then c.0 n else c.0 i,
          rw plus (rw minus (rw p (rw (IsZero-has_vars n c.0 c.2) refl))),
        ),
      )
  | inr p ↦
      let c = IsLinear-evaluate n e linear in
      (
        c.0,
        c.1,
        rw p (elim (Bool-cases (op == b'+')) [
          | inl q ↦ (λ i. if i == x then add_word (c.0 i) 1 else c.0 i, rw q refl)
          | inr q ↦ rw q (elim (Bool-cases (op == b'-')) [
            | inl r ↦
                (λ i. if i == x then add_word (neg_word (c.0 i)) 1 else neg_word (c.0 i), rw r refl)
            | inr r ↦ (c.0, rw r refl)
          ])
        ]),
      )
]

built :
    (n x op : ℕ) (e : Expression) (t : Token) (line : List Token) (c d : ℕ → ℕ)
    → evaluate n e ≡ ok c
    → is_new_line t ≡ true
    → adjust op n x c ≡ ok d
    → assignment_matrix n x (op, e, t ∷ line) ≡ ok (with_column (identity (suc n)) x d)
unfolding assignment_matrix get
built n x op e t line c d p q r = rw p (rw q (rw r refl))

assignment_matrix-accepts :
    (n x op : ℕ) (e : Expression) (line : List Token) (rest c : Code)
    → AreLinear c
    → assign_code x (op, e, line) rest ≡ ok c
    → (m : Matrix) × (assignment_matrix n x (op, e, line) ≡ ok m) × Square n m × AreLinear rest
unfolding assignment_matrix assign_code AreLinear get
assignment_matrix-accepts n x op e [] rest c linear h = absurd cc
assignment_matrix-accepts n x op e (t ∷ line) rest c linear h = elim (Bool-cases (is_new_line t)) [
  | inl p ↦
      let taken : assign_code x (op, e, t ∷ line) rest ≡ ok (assign op x e rest) = rw p refl in
      let parts : AreLinear (assign op x e rest) =
        subst (λ k. AreLinear k) (sym (ok-injective (assign op x e rest) c (sym taken ∙ h)))
          linear in
      let d = adjust-accepts op n x e parts.0 parts.1 in
      (
        with_column (identity (suc n)) x d.2.0,
        built n x op e t line d.0 d.2.0 d.1 p d.2.1,
        with_column-IsSquare n x d.2.0,
        parts.2,
      )
  | inr p ↦
      let throws : assign_code x (op, e, t ∷ line) rest ≡ err exception = rw p refl in absurd cc
]

module _ (vars : Vars) (depth : ℕ) (again : Matrix → Program → Result Matrix)
    (inner : Program → Result Matrix) (code_again code_inner : Program → Result Code)
    (again_accepts : (res : Matrix) (lines : Program) (c : Code)
      → Square (length vars) res
      → All IsTail lines
      → code_again lines ≡ ok c
      → AreLinear c
      → (m : Matrix) × (again res lines ≡ ok m))
    (inner_accepts : (lines : Program) (c : Code)
      → All IsTail lines
      → code_inner lines ≡ ok c
      → AreLinear c
      → (m : Matrix) × (inner lines ≡ ok m) × Square (length vars) m) where
  assignment_returns :
      (res a m : Matrix) (s : List ℕ) (line : List Token) (lines : Program) (x : ℕ)
      (p : ℕ × Expression × List Token)
      → at vars s ≡ ok x
      → read_assignment vars line ≡ ok p
      → assignment_matrix (length vars) x p ≡ ok a
      → again (product res a) lines ≡ ok m
      → statement vars again inner depth res (var s ∷ line) lines ≡ ok m
  unfolding statement next
  assignment_returns res a m s line lines x p e f g h = rw e (rw f (rw g h))

  loop_returns :
      (res a m : Matrix) (line : List Token) (lines : Program) (k : ℕ) (p : Program × Program)
      → read_count line ≡ ok k
      → split_body depth lines ≡ ok p
      → loop_matrix inner k p.0 ≡ ok a
      → again (product res a) p.1 ≡ ok m
      → statement vars again inner depth res (for_token ∷ line) lines ≡ ok m
  unfolding statement next
  loop_returns res a m line lines k p e f g h = rw e (rw f (rw g h))

  assignment-accepts :
      (res : Matrix) (s : List ℕ) (line : List Token) (lines : Program) (c : Code)
      → Square (length vars) res
      → All IsTail lines
      → statement_code vars code_again code_inner depth (var s ∷ line) lines ≡ ok c
      → AreLinear c
      → (m : Matrix) × (statement vars again inner depth res (var s ∷ line) lines ≡ ok m)
  unfolding statement_code
  assignment-accepts res s line lines c square tails h linear =
      let x = bind-ok (at vars s) with_index c h in
      let p = bind-ok (read_assignment vars line) (with_parts x.0) c x.2 in
      let rest = bind-ok (code_again lines) (λ r. assign_code x.0 p.0 r) c p.2 in
      let a =
        assignment_matrix-accepts (length vars) x.0 p.0.0 p.0.1 p.0.2 rest.0 c linear rest.2 in
      let m =
        again_accepts (product res a.0) lines rest.0
          (product-IsSquare (suc (length vars)) res a.0 square a.2) tails rest.1 a.3 in
      (m.0, assignment_returns res a.0 m.0 s line lines x.0 p.0 x.1 p.1 a.1 m.1)
    where
      with_parts : ℕ → ℕ × Expression × List Token → Result Code
      with_parts x p = code_again lines >>= λ r. assign_code x p r

      with_index : ℕ → Result Code
      with_index x = read_assignment vars line >>= λ p. with_parts x p

  body_returns :
      (k : ℕ) (line : List Token) (body : Program) (m r : Matrix)
      → inner (line ∷ body) ≡ ok m
      → power m k ≡ some r
      → loop_matrix inner k (line ∷ body) ≡ ok r
  unfolding loop_matrix
  body_returns k line body m r e f =
      ap (λ s. s >>= λ a. from_option (power a k)) e ∙ ap (λ (s : Option Matrix). from_option s) f

  body-accepts :
      (k : ℕ) (body : Program) (rest c : Code)
      → k < 2 ^ 64
      → All IsTail body
      → loop_code code_inner k body rest ≡ ok c
      → AreLinear c
      → (m : Matrix) × (loop_matrix inner k body ≡ ok m) × Square (length vars) m × AreLinear rest
  unfolding loop_code AreLinear
  body-accepts k [] rest c small tails h linear = absurd cc
  body-accepts k (line ∷ body) rest c small tails h linear =
      let b = bind-ok (code_inner (line ∷ body)) (λ d. ok (loop k d rest)) c h in
      let parts : AreLinear (loop k b.0 rest) =
        subst (λ d. AreLinear d) (sym (ok-injective (loop k b.0 rest) c b.2)) linear in
      let m = inner_accepts (line ∷ body) b.0 tails b.1 parts.0 in
      let r = power_lem (suc (length vars)) k m.0 m.2 small in
      (r.0, body_returns k line body m.0 r.0 m.1 r.1, r.2, parts.1)

  loop-accepts :
      (res : Matrix) (line : List Token) (lines : Program) (c : Code)
      → Square (length vars) res
      → IsTail line
      → All IsTail lines
      → statement_code vars code_again code_inner depth (for_token ∷ line) lines ≡ ok c
      → AreLinear c
      → (m : Matrix) × (statement vars again inner depth res (for_token ∷ line) lines ≡ ok m)
  unfolding statement_code
  loop-accepts res line lines c square tail tails h linear =
      let k = bind-ok (read_count line) with_count c h in
      let p = bind-ok (split_body depth lines) (with_split k.0) c k.2 in
      let rest = bind-ok (code_again p.0.1) (λ r. loop_code code_inner k.0 p.0.0 r) c p.2 in
      let parts =
        ok-Outcome (IsSplit lines) (split_body depth lines) p.0
          (split_body-Outcome depth lines tails) p.1 in
      let small =
        ok-Outcome (λ j. j < 2 ^ 64) (read_count line) k.0 (read_count-Outcome line tail) k.1 in
      let a = body-accepts k.0 p.0.0 rest.0 c small parts.0 rest.2 linear in
      let m =
        again_accepts (product res a.0) p.0.1 rest.0
          (product-IsSquare (suc (length vars)) res a.0 square a.2) parts.1 rest.1 a.3 in
      (m.0, loop_returns res a.0 m.0 line lines k.0 p.0 k.1 p.1 a.1 m.1)
    where
      with_split : ℕ → Program × Program → Result Code
      with_split k p = code_again p.1 >>= λ r. loop_code code_inner k p.0 r

      with_count : ℕ → Result Code
      with_count k = split_body depth lines >>= λ p. with_split k p

  pub statement-accepts :
      (res : Matrix) (line : List Token) (lines : Program) (c : Code)
      → Square (length vars) res
      → IsTail line
      → All IsTail lines
      → statement_code vars code_again code_inner depth line lines ≡ ok c
      → AreLinear c
      → (m : Matrix) × (statement vars again inner depth res line lines ≡ ok m)
  unfolding statement statement_code is_tail
  statement-accepts res [] lines c square tail tails h linear = absurd cc
  statement-accepts res (var s ∷ line) lines c square tail tails h linear =
      assignment-accepts res s line lines c square tails h linear
  statement-accepts res (for_token ∷ line) lines c square tail tails h linear =
      loop-accepts res line lines c square tail tails h linear
  statement-accepts res (new_line ∷ line) lines c square tail tails h linear =
      again_accepts res lines c square tails h linear
  statement-accepts res (t ∷ line) lines c square tail tails h linear = absurd cc
