-- ===== src/Matrix/Interpreter/Total.antt =====
-- matrix-3.0/interpreter.h: `Run` returns for a program of linear statements.
use mathlib.Core.Path.{subst}
use cpp_many_tasks.Prelude.{
  ℕ, zero, suc, ◌≡◌, refl, sym, ap, ◌∙◌, inl, inr, true, some, List, [], ◌∷◌, arith, length, All,
  Bool-cases, ◌==◌, if◌then◌else◌,
}
use cpp_many_tasks.Matrix.Tokenizer.{Token, Program, tokenize}
use cpp_many_tasks.Matrix.Tokenizer.Lines.{tokenize-IsLine}
use cpp_many_tasks.Matrix.Result.{Result, ok, err, exception, ◌>>=◌, bind-ok, ok-Outcome}
use cpp_many_tasks.Matrix.Dense.{Matrix, zeros, product, identity}
use cpp_many_tasks.Matrix.Dense.Power.{IsSquare, identity-IsSquare}
use cpp_many_tasks.Matrix.Expression.{Vars}
use cpp_many_tasks.Matrix.Expression.Progress.{AreBelow}
use cpp_many_tasks.Matrix.Interpreter.{
  gather_vars, count_tabs, with_column, statement, transform_loop, transform_matrix, values,
  run_lines, run_tokens, run,
}
use cpp_many_tasks.Matrix.Interpreter.Reading.{IsTail, count_tabs-Outcome}
use cpp_many_tasks.Matrix.Interpreter.Reference.{Code, statement_code, code_of}
use cpp_many_tasks.Matrix.Interpreter.Correct.{transform_loop_lem}
use cpp_many_tasks.Matrix.Interpreter.Accepts.{AreLinear, statement-accepts}
use cpp_many_tasks.Matrix.Interpreter.Gather.{gather_vars-AreBelow}
use cpp_many_tasks.Matrix.Interpreter.Run.{IsLine-IsTail}

line_returns :
    (fuel : ℕ) (vars : Vars) (depth : ℕ) (res : Matrix) (line : List Token) (lines : Program)
    (r : ℕ × List Token) (m : Matrix)
    → count_tabs line ≡ ok r
    → (r.0 == depth) ≡ true
    → statement vars
        (λ a ls. transform_loop fuel vars depth a ls)
        (λ body. transform_loop fuel vars (suc depth) (identity (suc (length vars))) body)
        depth
        res
        r.1
        lines
      ≡ ok m
    → transform_loop (suc fuel) vars depth res (line ∷ lines) ≡ ok m
unfolding transform_loop
line_returns fuel vars depth res line lines r m e f g = rw e (rw f g)

-- Where the lines are those of a program with linear statements, the loop returns.
transform_loop-accepts :
    (fuel : ℕ) (vars : Vars) (depth : ℕ) (res : Matrix) (lines : Program) (c : Code)
    → AreBelow (length vars) vars
    → IsSquare (suc (length vars)) res
    → All IsTail lines
    → code_of fuel vars depth lines ≡ ok c
    → AreLinear c
    → (m : Matrix) × (transform_loop fuel vars depth res lines ≡ ok m)
unfolding transform_loop code_of
transform_loop-accepts zero vars depth res lines c below square tails h linear = absurd cc
transform_loop-accepts (suc fuel) vars depth res [] c below square tails h linear = (res, refl)
transform_loop-accepts (suc fuel) vars depth res (line ∷ lines) c below square (tail, tails) h
      linear =
    let r = bind-ok (count_tabs line) at_depth c h in
    let tail' =
      ok-Outcome (λ s. IsTail s.1) (count_tabs line) r.0 (count_tabs-Outcome line tail) r.1 in
    elim (Bool-cases (r.0.0 == depth)) [
      | inl e ↦
          let taken : at_depth r.0 ≡ statement_code vars code_again code_inner depth r.0.1 lines =
            rw e refl in
          let found =
            statement-accepts vars depth (λ a ls. transform_loop fuel vars depth a ls)
              (λ body. transform_loop fuel vars (suc depth) (identity (suc (length vars))) body)
              code_again code_inner
              (λ a ls d sq ts eq lin.
                transform_loop-accepts fuel vars depth a ls d below sq ts eq lin)
              (λ body d ts eq lin.
                let inner =
                  transform_loop-accepts fuel vars (suc depth) (identity (suc (length vars))) body d
                    below (identity-IsSquare (suc (length vars))) ts eq lin in
                (
                  inner.0,
                  inner.1,
                  (transform_loop_lem fuel vars (suc depth) (identity (suc (length vars))) body
                      inner.0 below (identity-IsSquare (suc (length vars))) ts inner.1).2,
                ))
              res r.0.1 lines c square tail' tails (sym taken ∙ r.2) linear in
          (found.0, line_returns fuel vars depth res line lines r.0 found.0 r.1 e found.1)
      | inr e ↦ let throws : at_depth r.0 ≡ err exception = rw e refl in absurd cc
    ]
  where
    code_again : Program → Result Code
    code_again ls = code_of fuel vars depth ls

    code_inner : Program → Result Code
    code_inner body = code_of fuel vars (suc depth) body

    at_depth : ℕ × List Token → Result Code
    at_depth r =
        if r.0 == depth
        then statement_code vars code_again code_inner depth r.1 lines
        else err exception

run_lines-accepts :
    (lines : Program) (c : Code)
    → All IsTail lines
    → code_of (suc (length lines)) (gather_vars [] lines) 0 lines ≡ ok c
    → AreLinear c
    → (out : List (List ℕ × ℕ)) × (run_lines lines ≡ ok out)
unfolding run_lines transform_matrix
run_lines-accepts lines c tails h linear =
    let m =
      transform_loop-accepts (suc (length lines)) vars 0 (identity (suc (length vars))) lines c
        (gather_vars-AreBelow lines) (identity-IsSquare (suc (length vars))) tails h linear in
    (
      values (product (with_column (zeros 1 (suc (length vars))) (length vars) (λ i. 1)) m.0) vars,
      ap
          (λ s. s >>= λ k. ok (
            values (product (with_column (zeros 1 (suc (length vars))) (length vars) (λ i. 1)) k)
              vars))
          m.1,
    )
  where
    vars : Vars
    vars = gather_vars [] lines

-- `Run` returns on a text whose lines are those of a program, if one side of each product in it has no
-- variables, and no expression behind `*=` has any.
pub run-accepts :
    (text : List ℕ) (lines : Program) (c : Code)
    → tokenize (suc (length text)) text ≡ some lines
    → code_of (suc (length lines)) (gather_vars [] lines) 0 lines ≡ ok c
    → AreLinear c
    → (out : List (List ℕ × ℕ)) × (run text ≡ ok out)
unfolding run
run-accepts text lines c read h linear =
    let tokens = tokenize-IsLine (suc (length text)) text (omega arith) in
    let same : tokens.0 ≡ lines = some-injective tokens.0 lines (sym tokens.1 ∙ read) in
    let tails : All IsTail lines =
      subst (λ ls. All IsTail ls) same (IsLine-IsTail tokens.0 tokens.2) in
    let found = run_lines-accepts lines c tails h linear in (found.0, ap run_tokens read ∙ found.1)
  where
    some-injective : (a b : Program) → some a ≡ some b → a ≡ b
    some-injective a b e = cc
