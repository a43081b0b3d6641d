-- ===== src/Matrix/Interpreter/Reference.antt =====
-- matrix-3.0/readme.md: the language, where a loop's body is run as often as the loop says.
use cpp_many_tasks.Prelude.{ℕ, zero, suc, ◌==◌, List, [], ◌∷◌, if◌then◌else◌}
use cpp_many_tasks.Matrix.Tokenizer.{Token, var, for_token, new_line, is_new_line, Program}
use cpp_many_tasks.Matrix.Words.{add_word, mul_word, sub_word}
use cpp_many_tasks.Matrix.Result.{Result, ok, err, exception, end_of_line, no_fuel, ◌>>=◌}
use cpp_many_tasks.Matrix.Dense.Power.{iterate}
use cpp_many_tasks.Matrix.Expression.{get, Vars, at, Expression}
use cpp_many_tasks.Matrix.Expression.Linear.{value}
use cpp_many_tasks.Matrix.Interpreter.{count_tabs, read_assignment, read_count, split_body}

-- A program: its first statement, and those behind it.
pub data Code : Type 0 where
  done : Code
  assign : ℕ → ℕ → Expression → Code → Code
  loop : ℕ → Code → Code → Code

-- The value that `op` makes of that of the variable and that of the expression.
unfoldable pub operate : ℕ → ℕ → ℕ → ℕ
operate op a b =
    if op == b'+'
    then add_word a b
    else if op == b'-'
    then sub_word a b
    else if op == b'*'
    then mul_word a b
    else b

abbrev pub assigned : ℕ → ℕ → (ℕ → ℕ) → ℕ → ℕ
assigned x k v j = if j == x then k else v j

unfoldable pub execute : Code → (ℕ → ℕ) → ℕ → ℕ
unfolding operate value iterate
execute done v = v
execute (assign op x e rest) v = execute rest (assigned x (operate op (v x) (value e v)) v)
execute (loop k body rest) v = execute rest (iterate k (execute body) v)

-- The assignment, if its line ends behind the expression.
unfoldable pub assign_code : ℕ → ℕ × Expression × List Token → Code → Result Code
unfolding get
assign_code x (op, e, line) rest =
    get line >>= λ token. if is_new_line token then ok (assign op x e rest) else err exception

unfoldable pub loop_code : (Program → Result Code) → ℕ → Program → Code → Result Code
loop_code inner k [] rest = err exception
loop_code inner k (line ∷ body) rest = inner (line ∷ body) >>= λ c. ok (loop k c rest)

unfoldable pub statement_code :
    Vars
    → (Program → Result Code)
    → (Program → Result Code)
    → ℕ
    → List Token
    → Program
    → Result Code
unfolding at assign_code loop_code
statement_code vars again inner depth [] lines = err end_of_line
statement_code vars again inner depth (var s ∷ line) lines = at vars s >>= λ x.
    read_assignment vars line >>= λ p. again lines >>= λ rest. assign_code x p rest
statement_code vars again inner depth (for_token ∷ line) lines = read_count line >>= λ k.
    split_body depth lines >>= λ p. again p.1 >>= λ rest. loop_code inner k p.0 rest
statement_code vars again inner depth (new_line ∷ line) lines = again lines
statement_code vars again inner depth (t ∷ line) lines = err exception

-- The program that the lines are.
unfoldable pub code_of : ℕ → Vars → ℕ → Program → Result Code
unfolding count_tabs statement_code
code_of zero vars depth lines = err no_fuel
code_of (suc fuel) vars depth [] = ok done
code_of (suc fuel) vars depth (line ∷ lines) = count_tabs line >>= λ r.
    if r.0 == depth
    then statement_code vars (λ ls. code_of fuel vars depth ls)
        (λ body. code_of fuel vars (suc depth) body) depth r.1 lines
    else err exception
