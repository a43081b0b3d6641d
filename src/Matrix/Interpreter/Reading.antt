-- ===== src/Matrix/Interpreter/Reading.antt =====
-- matrix-3.0/interpreter.h: reading a line of a program throws, or it returns, at a place of the line.
use cpp_many_tasks.Prelude.{
  ℕ, suc, ◌+◌, ◌^◌, ◌<◌, ◌≡◌, refl, inl, inr, true, ◌||◌, List, [], ◌∷◌, arith, length, All,
  Bool-cases, leb, ◌==◌, if◌then◌else◌,
}
use cpp_many_tasks.Matrix.Tokenizer.{Token, number, symbol, eqv, tab, is_new_line, Program}
use cpp_many_tasks.Matrix.Words.{neg_word}
use cpp_many_tasks.Matrix.Result.{ok, err, exception, ◌>>=◌, Outcome, bind-Outcome}
use cpp_many_tasks.Matrix.Expression.{
  get, next, Vars, Expression, constant, variable, empty, negated, bracketed, factor, mul, term,
  sum, read_expression, has_vars, multiply, combine, evaluate,
}
use cpp_many_tasks.Matrix.Expression.Linear.{IsScoped}
use cpp_many_tasks.Matrix.Expression.Progress.{is_tail, AreBelow, IsRead, read_expression-Reads}
use cpp_many_tasks.Matrix.Interpreter.{
  count_tabs, read_op, is_eqv, read_assignment, read_count, split_body,
}

abbrev pub IsTail : List Token → Type 0
IsTail line = is_tail line ≡ true

pub count_tabs-Outcome :
    (line : List Token) → IsTail line → Outcome (λ r. IsTail r.1) (count_tabs line)
unfolding count_tabs Outcome is_tail
count_tabs-Outcome [] tail = absurd cc
count_tabs-Outcome (tab ∷ line) tail =
    bind-Outcome (λ r. IsTail r.1) (λ r. IsTail r.1) (count_tabs line) (λ r. ok (suc r.0, r.1))
      (count_tabs-Outcome line tail) λ r h. h
count_tabs-Outcome (t ∷ line) tail = tail

read_op-Outcome : (line : List Token) → IsTail line → Outcome (λ r. IsTail r.1) (read_op line)
unfolding read_op get next Outcome is_tail
read_op-Outcome [] tail = absurd cc
read_op-Outcome (symbol c ∷ line) tail = elim (Bool-cases (c == b'+' || c == b'-' || c == b'*')) [
  | inl e ↦ rw e tail
  | inr e ↦ rw e tt
]
read_op-Outcome (t ∷ line) tail = tail

abbrev pub IsAssignment : ℕ → ℕ × Expression × List Token → Type 0
IsAssignment n (op, e, line) = IsScoped n e × IsTail line

eqv-IsTail : (t : Token) (l : List Token) → is_eqv t ≡ true → IsTail (t ∷ l) → IsTail l
unfolding is_tail
eqv-IsTail eqv l h tail = tail
eqv-IsTail t l h tail = absurd cc

read_expression-Outcome :
    (n op : ℕ) (vars : Vars) (line : List Token)
    → AreBelow n vars
    → IsTail line
    → Outcome
        (IsAssignment n)
        (read_expression (suc (length line)) vars line >>= λ e. ok (op, e.0, e.1))
unfolding Outcome
read_expression-Outcome n op vars line below tail =
    bind-Outcome (IsRead n (length line)) (IsAssignment n)
      (read_expression (suc (length line)) vars line) (λ e. ok (op, e.0, e.1))
      (read_expression-Reads n vars (suc (length line)) line below tail (omega arith))
      λ e h. (h.0, h.1)

after_op :
    (n op : ℕ) (vars : Vars) (line : List Token)
    → AreBelow n vars
    → IsTail line
    → Outcome (IsAssignment n) (
        get line >>= λ token.
        if is_eqv token
        then (next line >>= λ rest.
            read_expression (suc (length rest)) vars rest >>= λ e. ok (op, e.0, e.1))
        else err exception)
unfolding get next Outcome is_tail
after_op n op vars [] below tail = absurd cc
after_op n op vars (t ∷ line) below tail = elim (Bool-cases (is_eqv t)) [
  | inl e ↦ rw e (read_expression-Outcome n op vars line below (eqv-IsTail t line e tail))
  | inr e ↦ rw e tt
]

pub read_assignment-Outcome :
    (n : ℕ) (vars : Vars) (line : List Token)
    → AreBelow n vars
    → IsTail line
    → Outcome (IsAssignment n) (read_assignment vars line)
unfolding read_assignment
read_assignment-Outcome n vars line below tail =
    bind-Outcome (λ r. IsTail r.1) (IsAssignment n) (read_op line)
      (λ r. get r.1 >>= λ token.
        if is_eqv token
        then (next r.1 >>= λ rest.
            read_expression (suc (length rest)) vars rest >>= λ e. ok (r.0, e.0, e.1))
        else err exception)
      (read_op-Outcome line tail) λ r h. after_op n r.0 vars r.1 below h

pub read_count-Outcome :
    (line : List Token) → IsTail line → Outcome (λ k. k < 2 ^ 64) (read_count line)
unfolding read_count get next Outcome is_tail
read_count-Outcome [] tail = absurd cc
read_count-Outcome (number k ∷ []) tail = absurd cc
read_count-Outcome (number k ∷ t ∷ line) tail = elim (Bool-cases (is_new_line t)) [
  | inl e ↦ rw e (omega arith)
  | inr e ↦ rw e tt
]
read_count-Outcome (t ∷ line) tail = tt

abbrev pub IsSplit : Program → Program × Program → Type 0
IsSplit lines (body, rest) =
    All IsTail body × All IsTail rest × length body + length rest ≡ length lines

pub split_body-Outcome :
    (depth : ℕ) (lines : Program)
    → All IsTail lines
    → Outcome (IsSplit lines) (split_body depth lines)
unfolding split_body Outcome
split_body-Outcome depth [] tails = (tt, tt, refl)
split_body-Outcome depth (line ∷ lines) (tail, tails) =
    bind-Outcome (λ r. IsTail r.1) (IsSplit (line ∷ lines)) (count_tabs line)
      (λ r.
        if leb r.0 depth
        then ok ([], line ∷ lines)
        else (split_body depth lines >>= λ p. ok (line ∷ p.0, p.1)))
      (count_tabs-Outcome line tail)
      λ r h. elim (Bool-cases (leb r.0 depth)) [
        | inl e ↦ rw e (tt, (tail, tails), omega arith)
        | inr e ↦ rw e (
            bind-Outcome (IsSplit lines) (IsSplit (line ∷ lines)) (split_body depth lines)
              (λ p. ok (line ∷ p.0, p.1)) (split_body-Outcome depth lines tails)
              λ p q. ((tail, q.0), q.1, omega (arith, q.2)))
      ]

-- What throws or returns whatever it does.
abbrev pub IsAny {ℓ} : {A : Type ℓ} → A → Type 0
IsAny a = Unit

multiply-Outcome : (n : ℕ) (c d : ℕ → ℕ) → Outcome IsAny (multiply n c d)
unfolding multiply Outcome
multiply-Outcome n c d = elim (Bool-cases (has_vars n c)) [
  | inl p ↦ elim (Bool-cases (has_vars n d)) [ inl q ↦ rw p (rw q tt) | inr q ↦ rw p (rw q tt) ]
  | inr p ↦ rw p (rw p tt)
]

pub evaluate-Outcome : (n : ℕ) (e : Expression) → Outcome IsAny (evaluate n e)
unfolding evaluate Outcome
evaluate-Outcome n (constant k) = tt
evaluate-Outcome n (variable x) = tt
evaluate-Outcome n empty = tt
evaluate-Outcome n (negated e) =
    bind-Outcome IsAny IsAny (evaluate n e) (λ c. ok (λ i. neg_word (c i))) (evaluate-Outcome n e)
      λ c h. tt
evaluate-Outcome n (bracketed e) = evaluate-Outcome n e
evaluate-Outcome n (factor e) = evaluate-Outcome n e
evaluate-Outcome n (mul l r) =
    bind-Outcome IsAny IsAny (evaluate n l) (λ c. evaluate n r >>= λ d. multiply n c d)
      (evaluate-Outcome n l)
      λ c h.
        bind-Outcome IsAny IsAny (evaluate n r) (λ d. multiply n c d) (evaluate-Outcome n r)
          λ d k. multiply-Outcome n c d
evaluate-Outcome n (term e) = evaluate-Outcome n e
evaluate-Outcome n (sum l op r) =
    bind-Outcome IsAny IsAny (evaluate n l) (λ c. evaluate n r >>= λ d. ok (combine op c d))
      (evaluate-Outcome n l)
      λ c h.
        bind-Outcome IsAny IsAny (evaluate n r) (λ d. ok (combine op c d)) (evaluate-Outcome n r)
          λ d k. tt
