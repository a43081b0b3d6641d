-- ===== src/Matrix/Interpreter/Tests.antt =====
-- matrix-3.0/interpreter.h: programs that run.
use cpp_many_tasks.Prelude.{
  ℕ, suc, ◌==◌, if◌then◌else◌, ◌≡◌, ◌<◌, refl, some, List, [], ◌∷◌, arith, length,
}
use cpp_many_tasks.Redis.Storage.{same_key}
use cpp_many_tasks.Matrix.Tokenizer.{
  Program, number, symbol, var, for_token, eqv, tab, new_line, read_number, read_name, consume_at,
  consume, may_indent, ends_in_new_line, add_token, finish, tokenize_loop, tokenize,
}
use cpp_many_tasks.Matrix.Words.{add_word, mul_word, neg_word, sub_word}
use cpp_many_tasks.Matrix.Result.{ok, Outcome}
use cpp_many_tasks.Matrix.Dense.{Matrix, dot, product, identity, power_loop, power}
use cpp_many_tasks.Matrix.Expression.{
  Expression, constant, variable, factor, mul, term, sum, get, next, Vars, at, mul_loop, read_mul,
  sum_loop, read_sum, close_bracket, constant_at, read_constant, read_expression, has_vars,
  multiply, evaluate,
}
use cpp_many_tasks.Matrix.Interpreter.{
  contains, gather_token, gather_line, gather_vars, count_tabs, read_op, read_assignment, adjust,
  with_column, assignment_matrix, read_count, split_body, loop_matrix, statement, transform_loop,
  transform_matrix, values, run_lines, run,
}
use cpp_many_tasks.Matrix.Dense.Action.{act, Agree, IsWords}
use cpp_many_tasks.Matrix.Dense.Power.{IsSquare, iterate, power_lem}
use cpp_many_tasks.Matrix.Expression.Linear.{value, IsScoped, evaluate_lem}
use cpp_many_tasks.Matrix.Interpreter.Reading.{IsAny}
use cpp_many_tasks.Matrix.Interpreter.Reference.{
  Code, done, assign, loop, execute, code_of, statement_code, assign_code, loop_code,
}
use cpp_many_tasks.Matrix.Interpreter.Gather.{gather_vars_lem}
use cpp_many_tasks.Matrix.Expression.Accepts.{IsConstant, IsLinear}
use cpp_many_tasks.Matrix.Interpreter.Accepts.{AreLinear}
use cpp_many_tasks.Matrix.Interpreter.Total.{run-accepts}
use cpp_many_tasks.Matrix.Interpreter.Run.{initial, named, run-Outcome, run_lem}

-- "A = 2", a loop of three rounds, and "A *= 5" in it.
abbrev text : List ℕ
text =
    b'A' ∷ b'=' ∷ b'2' ∷ 10 ∷ b'f' ∷ b'o' ∷ b'r' ∷ b' ' ∷ b'3' ∷ 10 ∷ b' ' ∷ b' ' ∷ b' ' ∷ b' '
    ∷ b'A' ∷ b'*' ∷ b'=' ∷ b'5' ∷ []

text_result : run text ≡ ok ((b'A' ∷ [], 250) ∷ [])
unfolding run tokenize tokenize_loop consume consume_at read_number read_name add_token finish
    may_indent ends_in_new_line same_key run_lines gather_vars gather_line gather_token contains
    transform_matrix transform_loop count_tabs statement at next get read_assignment read_op
    read_expression read_sum read_mul read_constant constant_at close_bracket sum_loop mul_loop
    assignment_matrix evaluate multiply has_vars adjust with_column identity read_count split_body
    loop_matrix power power_loop product dot add_word mul_word neg_word sub_word values
text_result = refl

abbrev three : Vars
three = (b'A' ∷ [], 0) ∷ (b'B' ∷ [], 1) ∷ (b'C' ∷ [], 2) ∷ []

run_lem_example :
    (p : Program) × (c : Code) × (tokenize (suc (length text)) text ≡ some p)
    × (code_of (suc (length p)) (gather_vars [] p) 0 p ≡ ok c)
    × (((b'A' ∷ [], 250) ∷ [])
        ≡ named (execute c (initial (length (gather_vars [] p)))) (gather_vars [] p))
run_lem_example = run_lem text ((b'A' ∷ [], 250) ∷ []) text_result

run-Outcome_example : Outcome IsAny (run text)
run-Outcome_example = run-Outcome text

-- "A = B" and "C = B".
gather_vars_lem_example :
    (i : ℕ) × (at three (b'C' ∷ []) ≡ ok i)
    × (i < 3)
    × ((t : List ℕ) → at three t ≡ ok i → (b'C' ∷ []) ≡ t)
unfolding gather_vars gather_line gather_token contains same_key
gather_vars_lem_example =
    gather_vars_lem ((var (b'A' ∷ []) ∷ eqv ∷ var (b'B' ∷ []) ∷ new_line ∷ []) ∷ []) [] []
      (eqv ∷ var (b'B' ∷ []) ∷ new_line ∷ []) (b'C' ∷ []) three refl

-- "2 * A + 3" at A = 7.
abbrev linear : Expression
linear = sum (mul (constant 2) (variable 0)) b'+' (factor (constant 3))

abbrev seven : ℕ → ℕ
seven i = if i == 0 then 7 else 1

abbrev coefficients : ℕ → ℕ
coefficients i = add_word (mul_word (if i == 0 then 1 else 0) 2) (if i == 1 then 3 else 0)

evaluate_lem_example : dot 2 seven coefficients ≡ value linear seven
unfolding evaluate multiply has_vars IsScoped
evaluate_lem_example =
    evaluate_lem 1 seven refl linear coefficients ((tt, omega arith), tt) (λ j h. ground arith) refl

abbrev fibonacci : Matrix
fibonacci = record {
  rows_num = 2;
  cols_num = 2;
  at = λ i j. if i == 1 then (if j == 1 then 0 else 1) else 1;
}

power_lem_example :
    (r : Matrix) × (power fibonacci 90 ≡ some r)
    × IsSquare 2 r
    × ((v : ℕ → ℕ) → IsWords 2 v → Agree 2 (act 2 r v) (iterate 90 (act 2 fibonacci) v))
power_lem_example = power_lem 2 90 fibonacci (refl, refl) (omega arith)

abbrev lines : Program
lines =
    (var (b'A' ∷ []) ∷ eqv ∷ number 2 ∷ new_line ∷ [])
    ∷ (for_token ∷ number 3 ∷ new_line ∷ [])
    ∷ (tab ∷ var (b'A' ∷ []) ∷ symbol b'*' ∷ eqv ∷ number 5 ∷ new_line ∷ [])
    ∷ []

abbrev code : Code
code =
    assign 0 0 (term (factor (constant 2)))
      (loop 3 (assign b'*' 0 (term (factor (constant 5))) done) done)

tokenized : tokenize (suc (length text)) text ≡ some lines
unfolding tokenize tokenize_loop consume consume_at read_number read_name add_token finish
    may_indent ends_in_new_line same_key
tokenized = refl

parsed : code_of (suc (length lines)) (gather_vars [] lines) 0 lines ≡ ok code
unfolding code_of statement_code assign_code loop_code gather_vars gather_line gather_token contains
    same_key count_tabs at next get read_assignment read_op read_expression read_sum read_mul
    read_constant constant_at close_bracket sum_loop mul_loop read_count split_body
parsed = refl

run-accepts_example : (out : List (List ℕ × ℕ)) × (run text ≡ ok out)
unfolding AreLinear IsLinear IsConstant
run-accepts_example =
    run-accepts text lines code tokenized parsed (tt, λ e. absurd cc, ((tt, λ e. tt, tt), tt))
