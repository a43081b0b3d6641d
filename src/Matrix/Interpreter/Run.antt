-- ===== src/Matrix/Interpreter/Run.antt =====
-- matrix-3.0/interpreter.h: `Run`.
use mathlib.Core.Path.{subst}
use cpp_many_tasks.Prelude.{
  ℕ, suc, ◌<◌, ◌≡◌, refl, sym, ap, ◌∙◌, some, List, [], ◌∷◌, ◌++◌, arith, length, All, ◌==◌,
  if◌then◌else◌,
}
use cpp_many_tasks.Matrix.Tokenizer.{Token, new_line, end_token, Program, tokenize}
use cpp_many_tasks.Matrix.Tokenizer.Lines.{IsInner, IsLine, tokenize-IsLine}
use cpp_many_tasks.Matrix.Result.{Result, ok, ok-injective, bind-ok, Outcome, bind-Outcome}
use cpp_many_tasks.Matrix.Dense.{Matrix, zeros, product, identity}
use cpp_many_tasks.Matrix.Dense.Power.{IsSquare, identity-IsSquare}
use cpp_many_tasks.Matrix.Expression.{Vars}
use cpp_many_tasks.Matrix.Expression.Progress.{is_tail, AreBelow}
use cpp_many_tasks.Matrix.Interpreter.{
  gather_vars, with_column, transform_matrix, values, run_lines, run_tokens, run,
}
use cpp_many_tasks.Matrix.Interpreter.Reading.{IsTail, IsAny}
use cpp_many_tasks.Matrix.Interpreter.Reference.{Code, execute, code_of}
use cpp_many_tasks.Matrix.Interpreter.Assignment.{IsState, Acts}
use cpp_many_tasks.Matrix.Interpreter.Follow.{identity-Follows}
use cpp_many_tasks.Matrix.Interpreter.Correct.{transform_loop_lem}
use cpp_many_tasks.Matrix.Interpreter.Progress.{transform_loop-Outcome}
use cpp_many_tasks.Matrix.Interpreter.Gather.{gather_vars-AreBelow}

-- A line of the tokenizer can be read.
body-IsTail : (body : List Token) → All IsInner body → IsTail (body ++ new_line ∷ [])
unfolding is_tail
body-IsTail [] h = refl
body-IsTail (new_line ∷ body) (h, _) = absurd cc
body-IsTail (end_token ∷ body) (h, _) = absurd cc
body-IsTail (t ∷ body) (h, hs) = body-IsTail body hs

pub IsLine-IsTail : (lines : Program) → All IsLine lines → All IsTail lines
IsLine-IsTail [] h = tt
IsLine-IsTail (line ∷ lines) ((t, body, e, h), hs) =
    (subst IsTail (sym e) (body-IsTail (t ∷ body) h), IsLine-IsTail lines hs)

-- The state where the variables are 0.
abbrev pub initial : ℕ → ℕ → ℕ
initial n i = if i == n then 1 else 0

initial-IsState : (n : ℕ) → IsState n (initial n)
initial-IsState n = ((λ j h. ground arith), ground arith)

abbrev pub named : (ℕ → ℕ) → Vars → List (List ℕ × ℕ)
named v [] = []
named v ((s, i) ∷ vars) = (s, v i) ∷ named v vars

values-named :
    (m : Matrix) (v : ℕ → ℕ) (n : ℕ) (vars : Vars)
    → AreBelow n vars
    → ((i : ℕ) → i < n → m.at 0 i ≡ v i)
    → values m vars ≡ named v vars
unfolding values
values-named m v n [] below same = refl
values-named m v n ((s, i) ∷ vars) (b, below) same =
    rw (same i b) (ap (λ l. (s, v i) ∷ l) (values-named m v n vars below same))

transform_matrix_lem :
    (vars : Vars) (lines : Program) (m : Matrix)
    → AreBelow (length vars) vars
    → All IsTail lines
    → transform_matrix vars 0 lines ≡ ok m
    → (c : Code) × (code_of (suc (length lines)) vars 0 lines ≡ ok c)
      × Acts (length vars) m (execute c)
unfolding transform_matrix
transform_matrix_lem vars lines m below tails h =
    let found =
      transform_loop_lem (suc (length lines)) vars 0 (identity (suc (length vars))) lines m below
        (identity-IsSquare (suc (length vars))) tails h in
    (found.0, found.1, identity-Follows (length vars) m (execute found.0) found.3)

-- What `Run` returns for the lines.
abbrev Computes : Program → List (List ℕ × ℕ) → Type 0
Computes lines out =
    (c : Code) × (code_of (suc (length lines)) (gather_vars [] lines) 0 lines ≡ ok c)
    × (out ≡ named (execute c (initial (length (gather_vars [] lines)))) (gather_vars [] lines))

run_lines_lem :
    (lines : Program) (out : List (List ℕ × ℕ))
    → All IsTail lines
    → run_lines lines ≡ ok out
    → Computes lines out
unfolding run_lines product with_column
run_lines_lem lines out tails h =
    let m = bind-ok (transform_matrix vars 0 lines) returned out h in
    let found = transform_matrix_lem vars lines m.0 below tails m.1 in
    let acts = found.2 (initial n) (initial n) (λ j l. refl) (initial-IsState n) in
    (
      found.0,
      found.1,
      sym (ok-injective (values (product init m.0) vars) out m.2)
          ∙ values-named (product init m.0) (execute found.0 (initial n)) n vars below
              (λ i l. acts.1 i (omega arith)),
    )
  where
    vars : Vars
    vars = gather_vars [] lines

    n : ℕ
    n = length vars

    below : AreBelow n vars
    below = gather_vars-AreBelow lines

    init : Matrix
    init = with_column (zeros 1 (suc n)) n (λ i. 1)

    returned : Matrix → Result (List (List ℕ × ℕ))
    returned m = ok (values (product init m) vars)

run_lines-Outcome : (lines : Program) → All IsTail lines → Outcome IsAny (run_lines lines)
unfolding run_lines transform_matrix Outcome
run_lines-Outcome lines tails =
    bind-Outcome (λ m. IsSquare (suc n) m) IsAny (transform_matrix vars 0 lines)
      (λ m. ok (values (product (with_column (zeros 1 (suc n)) n (λ i. 1)) m) vars))
      (transform_loop-Outcome (suc (length lines)) vars 0 (identity (suc n)) lines
        (gather_vars-AreBelow lines) (identity-IsSquare (suc n)) tails (omega arith))
      λ m h. tt
  where
    vars : Vars
    vars = gather_vars [] lines

    n : ℕ
    n = length vars

-- `Run` on any text throws an exception or returns: the tokenizer and the interpreter end with the rounds
-- that they are given, and no read goes behind the end of a line.
pub run-Outcome : (text : List ℕ) → Outcome IsAny (run text)
unfolding run
run-Outcome text =
    let read = tokenize-IsLine (suc (length text)) text (omega arith) in
    rw read.1 (run_lines-Outcome read.0 (IsLine-IsTail read.0 read.2))

-- What `Run` returns on a text: its lines are those of a program, and the names of the program come with the
-- values that they have when its statements, from all variables 0, are run one by one, the body of a loop as
-- often as the loop says, in arithmetic modulo 2^64.
pub run_lem :
    (text : List ℕ) (out : List (List ℕ × ℕ))
    → run text ≡ ok out
    → (lines : Program) × (c : Code) × (tokenize (suc (length text)) text ≡ some lines)
      × (code_of (suc (length lines)) (gather_vars [] lines) 0 lines ≡ ok c)
      × (out ≡ named (execute c (initial (length (gather_vars [] lines)))) (gather_vars [] lines))
unfolding run
run_lem text out h =
    let read = tokenize-IsLine (suc (length text)) text (omega arith) in
    let found =
      run_lines_lem read.0 out (IsLine-IsTail read.0 read.2) (sym (ap run_tokens read.1) ∙ h) in
    (read.0, found.0, read.1, found.1, found.2)
