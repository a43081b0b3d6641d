-- ===== src/Matrix/Expression/Progress.antt =====
-- matrix-3.0/expression.h: reading an expression ends within its line.
use cpp_many_tasks.Prelude.{
  ℕ, zero, suc, ◌≤◌, ◌<◌, ◌≡◌, refl, ◌⊎◌, inl, inr, Bool, true, false, List, [], ◌∷◌, arith, length,
  All, Bool-cases, ◌==◌,
}
use cpp_many_tasks.Matrix.Tokenizer.{Token, number, symbol, var, new_line, end_token}
use cpp_many_tasks.Redis.Storage.{same_key}
use cpp_many_tasks.Matrix.Result.{ok, err, exception, ◌>>=◌, Outcome, bind-Outcome}
use cpp_many_tasks.Matrix.Expression.{
  get, next, Vars, at, Expression, negated, factor, term, is_symbol, Reading, multiplied, mul_loop,
  read_mul, added, add_op, op_of, sum_loop, read_sum, close_bracket, constant_at, read_constant,
  read_expression,
}
use cpp_many_tasks.Matrix.Expression.Linear.{IsScoped}

abbrev is_empty : List Token → Bool
is_empty [] = true
is_empty (t ∷ l) = false

-- What a cursor may have before it: tokens that do not end a line, and then one that does.
unfoldable pub is_tail : List Token → Bool
is_tail [] = false
is_tail (new_line ∷ l) = is_empty l
is_tail (end_token ∷ l) = false
is_tail (t ∷ l) = is_tail l

-- The indices of the variables are below n.
abbrev pub AreBelow : ℕ → Vars → Type 0
AreBelow n vars = All (λ p. p.1 < n) vars

-- What reading a line of at most k tokens returns.
abbrev pub IsRead : ℕ → ℕ → Expression × List Token → Type 0
IsRead n k (e, line) = IsScoped n e × (is_tail line ≡ true) × length line ≤ k

abbrev pub Reads : ℕ → ℕ → Reading → Type 0
Reads n k r = Outcome (IsRead n k) r

bind-Reads :
    (n k m : ℕ) (r : Reading) (f : Expression × List Token → Reading)
    → Reads n k r
    → ((e : Expression) (line : List Token)
        → IsScoped n e
        → is_tail line ≡ true
        → length line ≤ k
        → Reads n m (f (e, line)))
    → Reads n m (r >>= f)
bind-Reads n k m r f h more =
    bind-Outcome (IsRead n k) (IsRead n m) r f h λ p q. more p.0 p.1 q.0 q.1 q.2

-- A name is found, below n, or `at` throws.
pub at-AreBelow :
    (n : ℕ) (vars : Vars) (s : List ℕ)
    → AreBelow n vars
    → ((i : ℕ) × (at vars s ≡ ok i) × i < n) ⊎ (at vars s ≡ err exception)
unfolding at
at-AreBelow n [] s below = inr refl
at-AreBelow n ((r, j) ∷ vars) s (b, below) = elim (Bool-cases (same_key r s)) [
  | inl e ↦ inl (j, rw e refl, b)
  | inr e ↦ rw e (at-AreBelow n vars s below)
]

symbol-is_tail :
    (c : ℕ) (t : Token) (l : List Token)
    → is_symbol c t ≡ true
    → is_tail (t ∷ l) ≡ true
    → is_tail l ≡ true
unfolding is_tail
symbol-is_tail c (symbol d) l h q = q
symbol-is_tail c t l h q = absurd cc

add_op-is_tail :
    (t : Token) (l : List Token) → add_op t ≡ true → is_tail (t ∷ l) ≡ true → is_tail l ≡ true
unfolding is_tail
add_op-is_tail (symbol d) l h q = q
add_op-is_tail t l h q = absurd cc

multiplied-IsScoped :
    (n : ℕ) (e c : Expression) → IsScoped n e → IsScoped n c → IsScoped n (multiplied e c)
unfolding IsScoped
multiplied-IsScoped n (factor m) c s t = (s, t)
multiplied-IsScoped n e c s t = (s, t)

added-IsScoped :
    (n op : ℕ) (e c : Expression) → IsScoped n e → IsScoped n c → IsScoped n (added e op c)
unfolding IsScoped
added-IsScoped n op (term m) c s t = (s, t)
added-IsScoped n op e c s t = (s, t)

module _ (n k : ℕ) (again : List Token → Reading)
    (reads : (line : List Token)
      → is_tail line ≡ true
      → length line < k
      → Reads n (length line) (again line)) where
  mul_loop-Reads :
      (rounds m : ℕ) (e : Expression) (line : List Token)
      → IsScoped n e
      → is_tail line ≡ true
      → length line < rounds
      → length line < k
      → length line ≤ m
      → Reads n m (mul_loop rounds again e line)
  unfolding mul_loop Outcome get next is_tail
  mul_loop-Reads zero m e line scoped tail enough below le = absurd (omega arith)
  mul_loop-Reads (suc rounds) m e [] scoped tail enough below le = absurd cc
  mul_loop-Reads (suc rounds) m e (t ∷ l) scoped tail enough below le =
      elim (Bool-cases (is_symbol b'*' t)) [
        | inl p ↦
            let tail' = symbol-is_tail b'*' t l p tail in
            rw p (
              bind-Reads n (length l) m (again l)
                (λ c. mul_loop rounds again (multiplied e c.0) c.1) (reads l tail' (omega arith))
                λ c rest s tr lr.
                  mul_loop-Reads rounds m (multiplied e c) rest (multiplied-IsScoped n e c scoped s)
                    tr (omega arith) (omega arith) (omega arith))
        | inr p ↦ rw p (scoped, tail, le)
      ]

  read_mul-Reads :
      (rounds : ℕ) (line : List Token)
      → is_tail line ≡ true
      → length line < rounds
      → length line < k
      → Reads n (length line) (read_mul rounds again line)
  unfolding read_mul IsScoped
  read_mul-Reads rounds line tail enough below =
      bind-Reads n (length line) (length line) (again line)
        (λ c. mul_loop rounds again (factor c.0) c.1) (reads line tail below)
        λ c rest s tr lr.
          mul_loop-Reads rounds (length line) (factor c) rest s tr (omega arith) (omega arith)
            (omega arith)

  sum_loop-Reads :
      (rounds m : ℕ) (e : Expression) (line : List Token)
      → IsScoped n e
      → is_tail line ≡ true
      → length line < rounds
      → length line < k
      → length line ≤ m
      → Reads n m (sum_loop rounds again e line)
  unfolding sum_loop Outcome get next is_tail
  sum_loop-Reads zero m e line scoped tail enough below le = absurd (omega arith)
  sum_loop-Reads (suc rounds) m e [] scoped tail enough below le = absurd cc
  sum_loop-Reads (suc rounds) m e (t ∷ l) scoped tail enough below le =
      elim (Bool-cases (add_op t)) [
        | inl p ↦
            let tail' = add_op-is_tail t l p tail in
            rw p (
              bind-Reads n (length l) m (read_mul rounds again l)
                (λ c. sum_loop rounds again (added e (op_of t) c.0) c.1)
                (read_mul-Reads rounds l tail' (omega arith) (omega arith))
                λ c rest s tr lr.
                  sum_loop-Reads rounds m (added e (op_of t) c) rest
                    (added-IsScoped n (op_of t) e c scoped s) tr (omega arith) (omega arith)
                    (omega arith))
        | inr p ↦ rw p (scoped, tail, le)
      ]

  read_sum-Reads :
      (rounds : ℕ) (line : List Token)
      → is_tail line ≡ true
      → length line < rounds
      → length line < k
      → Reads n (length line) (read_sum rounds again line)
  unfolding read_sum IsScoped
  read_sum-Reads rounds line tail enough below =
      bind-Reads n (length line) (length line) (read_mul rounds again line)
        (λ c. sum_loop rounds again (term c.0) c.1) (read_mul-Reads rounds line tail enough below)
        λ c rest s tr lr.
          sum_loop-Reads rounds (length line) (term c) rest s tr (omega arith) (omega arith)
            (omega arith)

close_bracket-Reads :
    (n m : ℕ) (e : Expression) (line : List Token)
    → IsScoped n e
    → is_tail line ≡ true
    → length line ≤ m
    → Reads n m (close_bracket (e, line))
unfolding close_bracket Outcome get next is_tail IsScoped
close_bracket-Reads n m e [] s tail le = absurd cc
close_bracket-Reads n m e (t ∷ l) s tail le = elim (Bool-cases (is_symbol b')' t)) [
  | inl p ↦ rw p (s, symbol-is_tail b')' t l p tail, omega arith)
  | inr p ↦ rw p tt
]

-- A `Constant` reads its line, given fuel for more rounds than the line has tokens.
read_constant-Reads :
    (n : ℕ) (vars : Vars) (fuel : ℕ) (line : List Token)
    → AreBelow n vars
    → is_tail line ≡ true
    → length line < fuel
    → Reads n (length line) (read_constant fuel vars line)
unfolding read_constant constant_at get next is_tail Outcome IsScoped
read_constant-Reads n vars zero line below tail enough = absurd (omega arith)
read_constant-Reads n vars (suc fuel) [] below tail enough = absurd cc
read_constant-Reads n vars (suc fuel) (number k ∷ l) below tail enough = (tt, tail, omega arith)
read_constant-Reads n vars (suc fuel) (var s ∷ l) below tail enough =
    elim (at-AreBelow n vars s below) [
      | inl (i, e, b) ↦ rw e (b, tail, omega arith)
      | inr e ↦ rw e tt
    ]
read_constant-Reads n vars (suc fuel) (symbol c ∷ l) below tail enough =
    elim (Bool-cases (c == b'-')) [
      | inl p ↦ rw p (
          bind-Reads n (length l) (suc (length l)) (read_constant fuel vars l)
            (λ e. ok (negated e.0, e.1))
            (read_constant-Reads n vars fuel l below tail (omega arith))
            λ e rest s tr lr. (s, tr, omega arith))
      | inr p ↦ rw p (elim (Bool-cases (c == b'(')) [
        | inl q ↦ rw q (
            bind-Reads n (length l) (suc (length l))
              (read_sum fuel (λ r. read_constant fuel vars r) l) close_bracket
              (read_sum-Reads n fuel (λ r. read_constant fuel vars r)
                (λ r tr lr. read_constant-Reads n vars fuel r below tr lr) fuel l tail (omega arith)
                (omega arith))
              λ e rest s tr lr. close_bracket-Reads n (suc (length l)) e rest s tr (omega arith))
        | inr q ↦ rw q (tt, tail, omega arith)
      ])
    ]
read_constant-Reads n vars (suc fuel) (t ∷ l) below tail enough = (tt, tail, omega arith)

-- Reading an expression ends, given fuel for more rounds than the line has tokens: it throws, or it returns
-- an expression of known variables and a later place of the line.
pub read_expression-Reads :
    (n : ℕ) (vars : Vars) (fuel : ℕ) (line : List Token)
    → AreBelow n vars
    → is_tail line ≡ true
    → length line < fuel
    → Reads n (length line) (read_expression fuel vars line)
unfolding read_expression
read_expression-Reads n vars fuel line below tail enough =
    read_sum-Reads n fuel (λ l. read_constant fuel vars l)
      (λ l tr lr. read_constant-Reads n vars fuel l below tr lr) fuel line tail enough enough
