-- ===== src/Matrix/Expression.antt =====
-- matrix-3.0/expression.h: `Constant`, `Mul` and `Sum`, and class Line of tokenizer.h. A line is the list of
-- the tokens that its cursor has before it.
pub mod Linear
pub mod Progress
pub mod Accepts
use cpp_many_tasks.Prelude.{
  ℕ, zero, suc, ◌+◌, ◌%◌, ◌^◌, Bool, true, false, ◌||◌, List, [], ◌∷◌, ltb, ◌==◌, if◌then◌else◌,
}
use cpp_many_tasks.Redis.Storage.{same_key}
use cpp_many_tasks.Matrix.Tokenizer.{
  Token, number, symbol, var, for_token, eqv, tab, bad_token, new_line, end_token,
}
use cpp_many_tasks.Matrix.Words.{add_word, mul_word, neg_word, sub_word}
use cpp_many_tasks.Matrix.Result.{Result, ok, err, exception, end_of_line, no_fuel, ◌>>=◌}

-- `Line::Get` and `Line::Next`.
unfoldable pub get : List Token → Result Token
get [] = err end_of_line
get (t ∷ line) = ok t

unfoldable pub next : List Token → Result (List Token)
next [] = err exception
next (t ∷ line) = ok line

-- `std::map<std::string, size_t>`, and its `at`.
abbrev pub Vars : Type 0
Vars = List (List ℕ × ℕ)

unfoldable pub at : Vars → List ℕ → Result ℕ
unfolding same_key
at [] name = err exception
at ((s, i) ∷ vars) name = if same_key s name then ok i else at vars name

-- A node: a `Constant` that is a number, a variable, nothing, a negated or a bracketed one, a `Mul` without
-- and with `constant_`, or a `Sum` without and with `mul_` and its `op_`.
pub data Expression : Type 0 where
  constant : ℕ → Expression
  variable : ℕ → Expression
  empty : Expression
  negated bracketed : Expression → Expression
  factor : Expression → Expression
  mul : Expression → Expression → Expression
  term : Expression → Expression
  sum : Expression → ℕ → Expression → Expression

abbrev pub is_symbol : ℕ → Token → Bool
is_symbol c (symbol d) = d == c
is_symbol c t = false

abbrev pub Reading : Type 0
Reading = Result (Expression × List Token)

-- A round of the loop of `Mul`: where `constant_` is set, the node moves into `mul_`.
abbrev pub multiplied : Expression → Expression → Expression
multiplied (factor m) c = mul m c
multiplied m c = mul m c

-- The loop of `Mul`, where `again` reads a `Constant`.
unfoldable pub mul_loop : ℕ → (List Token → Reading) → Expression → List Token → Reading
unfolding get next
mul_loop zero again e line = err no_fuel
mul_loop (suc rounds) again e line =
    let more =
      next line >>= λ rest. again rest >>= λ c. mul_loop rounds again (multiplied e c.0) c.1 in
    get line >>= λ token. if is_symbol b'*' token then more else ok (e, line)

unfoldable pub read_mul : ℕ → (List Token → Reading) → List Token → Reading
unfolding mul_loop
read_mul rounds again line = again line >>= λ c. mul_loop rounds again (factor c.0) c.1

abbrev pub added : Expression → ℕ → Expression → Expression
added (term m) op c = sum m op c
added e op c = sum e op c

abbrev pub add_op : Token → Bool
add_op t = is_symbol b'+' t || is_symbol b'-' t

abbrev pub op_of : Token → ℕ
op_of (symbol c) = c
op_of t = 0

-- The loop of `Sum`.
unfoldable pub sum_loop : ℕ → (List Token → Reading) → Expression → List Token → Reading
unfolding get next read_mul
sum_loop zero again e line = err no_fuel
sum_loop (suc rounds) again e line =
    let more = λ (op : ℕ). next line >>= λ rest.
    read_mul rounds again rest >>= λ m. sum_loop rounds again (added e op m.0) m.1 in
    get line >>= λ token. if add_op token then more (op_of token) else ok (e, line)

unfoldable pub read_sum : ℕ → (List Token → Reading) → List Token → Reading
unfolding sum_loop
read_sum rounds again line =
    read_mul rounds again line >>= λ m. sum_loop rounds again (term m.0) m.1

-- The closing bracket.
unfoldable pub close_bracket : Expression × List Token → Reading
unfolding get next
close_bracket (e, line) = get line >>= λ token.
    if is_symbol b')' token then (next line >>= λ rest. ok (bracketed e, rest)) else err exception

unfoldable pub constant_at : ℕ → (List Token → Reading) → Vars → Token → List Token → Reading
unfolding next at read_sum close_bracket
constant_at fuel again vars (number k) line = next line >>= λ rest. ok (constant (k % 2 ^ 64), rest)
constant_at fuel again vars (var s) line =
    at vars s >>= λ i. next line >>= λ rest. ok (variable i, rest)
constant_at fuel again vars (symbol c) line =
    if c == b'-'
    then (next line >>= λ rest. again rest >>= λ e. ok (negated e.0, e.1))
    else if c == b'('
    then (next line >>= λ rest. read_sum fuel again rest >>= close_bracket)
    else ok (empty, line)
constant_at fuel again vars t line = ok (empty, line)

-- The constructors of `Constant` and `Sum`.
unfoldable pub read_constant : ℕ → Vars → List Token → Reading
unfolding get constant_at
read_constant zero vars line = err no_fuel
read_constant (suc fuel) vars line =
    get line >>= λ token. constant_at fuel (λ l. read_constant fuel vars l) vars token line

unfoldable pub read_expression : ℕ → Vars → List Token → Reading
unfolding read_sum read_constant
read_expression fuel vars line = read_sum fuel (λ l. read_constant fuel vars l) line

-- Whether one of the first n coefficients, those of the variables, is not 0.
unfoldable pub has_vars : ℕ → (ℕ → ℕ) → Bool
has_vars zero c = false
has_vars (suc n) c = if c n == 0 then has_vars n c else true

-- `Mul::Evaluate`, from what its two parts evaluate to.
unfoldable pub multiply : ℕ → (ℕ → ℕ) → (ℕ → ℕ) → Result (ℕ → ℕ)
unfolding has_vars mul_word
multiply n coeffs other =
    let (c, d) = if has_vars n coeffs then (other, coeffs) else (coeffs, other) in
    if has_vars n c then err exception else ok (λ i. mul_word (d i) (c n))

-- `Sum::Evaluate`, from what its two parts evaluate to.
abbrev pub combine : ℕ → (ℕ → ℕ) → (ℕ → ℕ) → ℕ → ℕ
combine op c d =
    if op == b'+'
    then (λ i. add_word (c i) (d i))
    else if op == b'-'
    then (λ i. sub_word (c i) (d i))
    else c

-- `Evaluate`, with n variables: the coefficients of the variables, and the constant at n.
unfoldable pub evaluate : ℕ → Expression → Result (ℕ → ℕ)
unfolding multiply neg_word
evaluate n (constant k) = ok (λ i. if i == n then k else 0)
evaluate n (variable x) = ok (λ i. if i == x then 1 else 0)
evaluate n empty = ok (λ i. 0)
evaluate n (negated e) = evaluate n e >>= λ c. ok (λ i. neg_word (c i))
evaluate n (bracketed e) = evaluate n e
evaluate n (factor e) = evaluate n e
evaluate n (mul l r) = evaluate n l >>= λ c. evaluate n r >>= λ d. multiply n c d
evaluate n (term e) = evaluate n e
evaluate n (sum l op r) = evaluate n l >>= λ c. evaluate n r >>= λ d. ok (combine op c d)
