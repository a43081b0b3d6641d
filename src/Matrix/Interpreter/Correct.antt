-- ===== src/Matrix/Interpreter/Correct.antt =====
-- matrix-3.0/interpreter.h: the matrix of a program acts like running it.
use mathlib.Core.Path.{subst}
use cpp_many_tasks.Prelude.{
  ℕ, zero, suc, ◌≡◌, refl, sym, ap, ◌∙◌, inl, inr, true, List, [], ◌∷◌, length, All, Bool-cases,
  ◌==◌, if◌then◌else◌,
}
use cpp_many_tasks.Matrix.Tokenizer.{Token, Program}
use cpp_many_tasks.Matrix.Result.{Result, ok, err, exception, ok-injective, bind-ok, ok-Outcome}
use cpp_many_tasks.Matrix.Dense.{Matrix, identity}
use cpp_many_tasks.Matrix.Dense.Action.{act}
use cpp_many_tasks.Matrix.Dense.Power.{IsSquare, identity-IsSquare}
use cpp_many_tasks.Matrix.Expression.{Vars}
use cpp_many_tasks.Matrix.Expression.Progress.{AreBelow}
use cpp_many_tasks.Matrix.Interpreter.{count_tabs, statement, transform_loop}
use cpp_many_tasks.Matrix.Interpreter.Reading.{IsTail, count_tabs-Outcome}
use cpp_many_tasks.Matrix.Interpreter.Reference.{Code, done, execute, statement_code, code_of}
use cpp_many_tasks.Matrix.Interpreter.Statement.{Correct, statement_lem}

line_code :
    (fuel : ℕ) (vars : Vars) (depth : ℕ) (line : List Token) (lines : Program) (r : ℕ × List Token)
    (c : Code)
    → count_tabs line ≡ ok r
    → (r.0 == depth) ≡ true
    → statement_code vars
        (λ ls. code_of fuel vars depth ls)
        (λ body. code_of fuel vars (suc depth) body)
        depth
        r.1
        lines
      ≡ ok c
    → code_of (suc fuel) vars depth (line ∷ lines) ≡ ok c
unfolding code_of
line_code fuel vars depth line lines r c e f g = rw e (rw f g)

-- By induction on the rounds.
pub transform_loop_lem :
    (fuel : ℕ) (vars : Vars) (depth : ℕ) (res : Matrix) (lines : Program) (m : Matrix)
    → AreBelow (length vars) vars
    → IsSquare (suc (length vars)) res
    → All IsTail lines
    → transform_loop fuel vars depth res lines ≡ ok m
    → Correct (length vars) (λ ls. code_of fuel vars depth ls) res lines m
unfolding transform_loop code_of execute
transform_loop_lem zero vars depth res lines m below square tails h = absurd cc
transform_loop_lem (suc fuel) vars depth res [] m below square tails h =
    let same = ok-injective res m h in
    (
      done,
      refl,
      subst (λ k. IsSquare (suc (length vars)) k) same square,
      λ v w agree state.
          (state, λ j l. ap (λ (k : Matrix). act (suc (length vars)) k v j) (sym same) ∙ agree j l),
    )
transform_loop_lem (suc fuel) vars depth res (line ∷ lines) m below square (tail, tails) h =
    let r = bind-ok (count_tabs line) at_depth m h in
    let tail' =
      ok-Outcome (λ r. IsTail r.1) (count_tabs line) r.0 (count_tabs-Outcome line tail) r.1 in
    elim (Bool-cases (r.0.0 == depth)) [
      | inl e ↦
          let taken : at_depth r.0 ≡ statement vars again inner depth res r.0.1 lines = rw e refl in
          let found =
            statement_lem vars below depth again inner (λ ls. code_of fuel vars depth ls)
              (λ body. code_of fuel vars (suc depth) body)
              (λ a ls k sq ts eq. transform_loop_lem fuel vars depth a ls k below sq ts eq)
              (λ body k ts eq.
                transform_loop_lem fuel vars (suc depth) (identity (suc (length vars))) body k below
                  (identity-IsSquare (suc (length vars))) ts eq)
              res r.0.1 lines m square tail' tails (sym taken ∙ r.2) in
          (
            found.0,
            line_code fuel vars depth line lines r.0 found.0 r.1 e found.1,
            found.2,
            found.3,
          )
      | inr e ↦ let throws : at_depth r.0 ≡ err exception = rw e refl in absurd cc
    ]
  where
    again : Matrix → Program → Result Matrix
    again a ls = transform_loop fuel vars depth a ls

    inner : Program → Result Matrix
    inner body = transform_loop fuel vars (suc depth) (identity (suc (length vars))) body

    at_depth : ℕ × List Token → Result Matrix
    at_depth r =
        if r.0 == depth then statement vars again inner depth res r.1 lines else err exception
