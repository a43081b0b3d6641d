-- ===== src/Matrix/Interpreter.antt =====
-- matrix-3.0/interpreter.h: `GatherVars`, `CountTabs`, `Interpreter` and `Run`.
pub mod Reading
pub mod Assignment
pub mod Follow
pub mod Gather
pub mod Reference
pub mod Statement
pub mod Correct
pub mod Progress
pub mod Run
pub mod Accepts
pub mod Total
mod Tests
use cpp_many_tasks.Prelude.{
  ℕ, zero, suc, ◌+◌, ◌%◌, ◌^◌, Bool, true, false, ◌||◌, ◌&&◌, Option, none, some, List, [], ◌∷◌,
  ◌++◌, length, leb, ◌==◌, if◌then◌else◌,
}
use cpp_many_tasks.Redis.Storage.{same_key}
use cpp_many_tasks.Matrix.Tokenizer.{
  Token, number, symbol, var, for_token, eqv, tab, bad_token, new_line, end_token, is_tab,
  is_new_line, Program, tokenize,
}
use cpp_many_tasks.Matrix.Words.{add_word, neg_word}
use cpp_many_tasks.Matrix.Result.{Result, ok, err, exception, end_of_line, no_fuel, ◌>>=◌}
use cpp_many_tasks.Matrix.Dense.{Matrix, zeros, product, identity, power}
use cpp_many_tasks.Matrix.Expression.{
  get, next, Vars, at, Expression, read_expression, has_vars, evaluate,
}

unfoldable pub contains : Vars → List ℕ → Bool
unfolding same_key
contains [] name = false
contains ((s, i) ∷ vars) name = same_key s name || contains vars name

-- `GatherVars`: a new name has the size of the map as its index.
unfoldable pub gather_token : Vars → Token → Vars
unfolding contains
gather_token vars (var s) = if contains vars s then vars else vars ++ (s, length vars) ∷ []
gather_token vars t = vars

unfoldable pub gather_line : Vars → List Token → Vars
unfolding gather_token
gather_line vars [] = vars
gather_line vars (t ∷ line) = gather_line (gather_token vars t) line

unfoldable pub gather_vars : Vars → Program → Vars
unfolding gather_line
gather_vars vars [] = vars
gather_vars vars (line ∷ lines) = gather_vars (gather_line vars line) lines

-- `CountTabs`, and where it leaves the cursor.
unfoldable pub count_tabs : List Token → Result (ℕ × List Token)
count_tabs [] = err end_of_line
count_tabs (tab ∷ line) = count_tabs line >>= λ r. ok (suc r.0, r.1)
count_tabs (t ∷ line) = ok (0, t ∷ line)

-- The operator before the `=`, 0 without one.
unfoldable pub read_op : List Token → Result (ℕ × List Token)
unfolding get next
read_op (symbol c ∷ line) =
    if c == b'+' || c == b'-' || c == b'*'
    then (next (symbol c ∷ line) >>= λ rest. ok (c, rest))
    else err exception
read_op line = get line >>= λ token. ok (0, line)

abbrev pub is_eqv : Token → Bool
is_eqv eqv = true
is_eqv t = false

-- What stands behind the variable of an assignment: its operator, its expression and the rest of the line.
unfoldable pub read_assignment : Vars → List Token → Result (ℕ × Expression × List Token)
unfolding read_op get next read_expression
read_assignment vars line = read_op line >>= λ r. get r.1 >>= λ token.
    if is_eqv token
    then (next r.1 >>= λ rest.
        read_expression (suc (length rest)) vars rest >>= λ e. ok (r.0, e.0, e.1))
    else err exception

-- The column of the variable x, from that of the coefficients.
unfoldable pub adjust : ℕ → ℕ → ℕ → (ℕ → ℕ) → Result (ℕ → ℕ)
unfolding add_word neg_word has_vars
adjust op n x c =
    if op == b'+'
    then ok (λ i. if i == x then add_word (c i) 1 else c i)
    else if op == b'-'
    then ok (λ i. if i == x then add_word (neg_word (c i)) 1 else neg_word (c i))
    else if op == b'*'
    then (if has_vars n c
        then err exception
        else ok (λ i. if i == n then 0 else if i == x then c n else c i))
    else ok c

unfoldable pub with_column : Matrix → ℕ → (ℕ → ℕ) → Matrix
with_column m x c = record m { at = λ i j. if j == x then c i else m.at i j }

-- The matrix of an assignment to the variable x.
unfoldable pub assignment_matrix : ℕ → ℕ → ℕ × Expression × List Token → Result Matrix
unfolding evaluate get adjust with_column identity
assignment_matrix n x (op, e, line) = evaluate n e >>= λ c. get line >>= λ token.
    if is_new_line token
    then (adjust op n x c >>= λ d. ok (with_column (identity (suc n)) x d))
    else err exception

-- What stands behind `for`.
unfoldable pub read_count : List Token → Result ℕ
unfolding get next
read_count (number k ∷ line) = next (number k ∷ line) >>= λ rest.
    get rest >>= λ token. if is_new_line token then ok (k % 2 ^ 64) else err exception
read_count line = get line >>= λ token. err exception

-- The lines of a loop's body, which have more tabs than its own, and the lines behind it.
unfoldable pub split_body : ℕ → Program → Result (Program × Program)
unfolding count_tabs
split_body depth [] = ok ([], [])
split_body depth (line ∷ lines) =
    let rest = split_body depth lines in
    count_tabs line >>= λ r.
    if leb r.0 depth then ok ([], line ∷ lines) else (rest >>= λ p. ok (line ∷ p.0, p.1))

abbrev pub from_option : Option Matrix → Result Matrix
from_option none = err no_fuel
from_option (some m) = ok m

-- The matrix of a loop, where `inner` is the interpreter of its body.
unfoldable pub loop_matrix : (Program → Result Matrix) → ℕ → Program → Result Matrix
unfolding power
loop_matrix inner k [] = err exception
loop_matrix inner k (line ∷ body) = inner (line ∷ body) >>= λ m. from_option (power m k)

-- A line without its tabs, in `CalculateTransformMatrix`; `again` is the loop behind it.
unfoldable pub statement :
    Vars
    → (Matrix → Program → Result Matrix)
    → (Program → Result Matrix)
    → ℕ
    → Matrix
    → List Token
    → Program
    → Result Matrix
unfolding next at read_assignment assignment_matrix read_count split_body loop_matrix product
statement vars again inner depth res [] lines = err end_of_line
statement vars again inner depth res (var s ∷ line) lines = at vars s >>= λ x.
    next (var s ∷ line) >>= λ rest. read_assignment vars rest >>= λ p.
    assignment_matrix (length vars) x p >>= λ m. again (product res m) lines
statement vars again inner depth res (for_token ∷ line) lines = next (for_token ∷ line) >>= λ rest.
    read_count rest >>= λ k.
    split_body depth lines >>= λ p. loop_matrix inner k p.0 >>= λ m. again (product res m) p.1
statement vars again inner depth res (new_line ∷ line) lines = again res lines
statement vars again inner depth res (t ∷ line) lines = err exception

-- The loop of `CalculateTransformMatrix`.
unfoldable pub transform_loop : ℕ → Vars → ℕ → Matrix → Program → Result Matrix
unfolding count_tabs statement identity
transform_loop zero vars depth res lines = err no_fuel
transform_loop (suc fuel) vars depth res [] = ok res
transform_loop (suc fuel) vars depth res (line ∷ lines) = count_tabs line >>= λ r.
    if r.0 == depth
    then statement vars (λ m ls. transform_loop fuel vars depth m ls)
        (λ body. transform_loop fuel vars (suc depth) (identity (suc (length vars))) body) depth res
        r.1 lines
    else err exception

-- `CalculateTransformMatrix`, with a round for each line.
unfoldable pub transform_matrix : Vars → ℕ → Program → Result Matrix
unfolding transform_loop identity
transform_matrix vars depth lines =
    transform_loop (suc (length lines)) vars depth (identity (suc (length vars))) lines

unfoldable pub values : Matrix → Vars → List (List ℕ × ℕ)
values m [] = []
values m ((s, i) ∷ vars) = (s, m.at 0 i) ∷ values m vars

-- `Run` on the lines.
unfoldable pub run_lines : Program → Result (List (List ℕ × ℕ))
unfolding gather_vars transform_matrix product values
run_lines lines =
    let vars = gather_vars [] lines in
    let n = length vars in
    let init = with_column (zeros 1 (suc n)) n (λ i. 1) in
    transform_matrix vars 0 lines >>= λ m. ok (values (product init m) vars)

abbrev pub run_tokens : Option Program → Result (List (List ℕ × ℕ))
run_tokens none = err no_fuel
run_tokens (some lines) = run_lines lines

-- `Run`, with a round of the tokenizer for each character.
unfoldable pub run : List ℕ → Result (List (List ℕ × ℕ))
unfolding tokenize run_lines
run text = run_tokens (tokenize (suc (length text)) text)
