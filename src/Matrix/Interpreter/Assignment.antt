-- ===== src/Matrix/Interpreter/Assignment.antt =====
-- matrix-3.0/interpreter.h: the matrix of an assignment.
use mathlib.Core.Path.{subst}
use cpp_many_tasks.Prelude.{
  ℕ, suc, ◌*◌, ◌%◌, ◌^◌, ◌<◌, ◌≡◌, refl, sym, ap, ◌∙◌, inl, inr, false, List, arith, Bool-cases,
  ◌==◌, if◌then◌else◌,
}
use cpp_many_tasks.Matrix.Tokenizer.{Token, is_new_line}
use cpp_many_tasks.Matrix.Words.{add_word, mul_word, neg_word, sub_word, mul-word}
use cpp_many_tasks.Matrix.Result.{Result, ok, err, exception, ◌>>=◌, ok-injective, bind-ok}
use cpp_many_tasks.Matrix.Dense.{Matrix, dot, identity}
use cpp_many_tasks.Matrix.Dense.Action.{act, Agree, IsWords, act-Agree, act-IsWords, act-identity}
use cpp_many_tasks.Matrix.Dense.Dot.{dot-cong, dot-add, dot-neg, dot-single}
use cpp_many_tasks.Matrix.Dense.Power.{IsSquare}
use cpp_many_tasks.Matrix.Expression.{get, Expression, has_vars, evaluate}
use cpp_many_tasks.Matrix.Expression.Linear.{
  value, IsScoped, has_vars-false, returned, constant-value, evaluate_lem,
}
use cpp_many_tasks.Matrix.Interpreter.{adjust, with_column, assignment_matrix}
use cpp_many_tasks.Matrix.Interpreter.Reference.{Code, assign, operate, assigned, assign_code}

abbrev plus_variable : ℕ → (ℕ → ℕ) → ℕ → ℕ
plus_variable x c i = if i == x then add_word (c i) 1 else c i

module _ (n x : ℕ) (v : ℕ → ℕ) (one : v n ≡ 1) (below : x < n) where
  plus_variable_lem :
      (c : ℕ → ℕ)
      → dot (suc n) v (plus_variable x c) ≡ add_word (dot (suc n) v c) (mul_word (v x) 1)
  unfolding add_word
  plus_variable_lem c =
      dot-cong (suc n) v (plus_variable x c) (λ i. add_word (c i) (if i == x then 1 else 0))
        (λ z h. ground arith)
      ∙ dot-add (suc n) v c (λ i. if i == x then 1 else 0)
      ∙ ap (λ (t : ℕ). add_word (dot (suc n) v c) t) (dot-single (suc n) x 1 v (omega arith))

  abbrev scaled : (ℕ → ℕ) → ℕ → ℕ
  scaled c i = if i == n then 0 else if i == x then c n else c i

  scaled_lem :
      (c : ℕ → ℕ)
      → has_vars n c ≡ false
      → dot (suc n) v (scaled c) ≡ mul_word (v x) (dot (suc n) v c)
  unfolding mul_word
  scaled_lem c h =
      dot-cong (suc n) v (scaled c) (λ i. if i == x then c n else 0)
        (λ z l. ground (arith, has_vars-false n c h z))
      ∙ dot-single (suc n) x (c n) v (omega arith)
      ∙ sym (mul-word (v x) (c n))
      ∙ ap (λ (t : ℕ). v x * t % 2 ^ 64) (sym (constant-value n v one c h))

  -- The new value of the variable.
  adjust_lem :
      (op : ℕ) (c d : ℕ → ℕ)
      → IsWords n v
      → adjust op n x c ≡ ok d
      → dot (suc n) v d ≡ operate op (v x) (dot (suc n) v c)
  unfolding adjust operate add_word mul_word sub_word neg_word
  adjust_lem op c d words h = elim (Bool-cases (op == b'+')) [
    | inl p ↦
        let taken : adjust op n x c ≡ ok (plus_variable x c) = rw p refl in
        rw p (
          now (plus_variable x c) (add_word (v x) (dot (suc n) v c))
            (plus_variable_lem c ∙ omega (arith, words x below)) (sym taken ∙ h))
    | inr p ↦ elim (Bool-cases (op == b'-')) [
      | inl q ↦
          let taken : adjust op n x c ≡ ok (plus_variable x (λ i. neg_word (c i))) =
            rw p (rw q refl) in
          rw p (
            rw q (
              now (plus_variable x (λ i. neg_word (c i))) (sub_word (v x) (dot (suc n) v c))
                (plus_variable_lem (λ i. neg_word (c i))
                  ∙ omega (arith, words x below, dot-neg (suc n) v c))
                (sym taken ∙ h)))
      | inr q ↦ elim (Bool-cases (op == b'*')) [
        | inl r ↦ elim (Bool-cases (has_vars n c)) [
          | inl s ↦
              let throws : adjust op n x c ≡ err exception = rw p (rw q (rw r (rw s refl))) in
              absurd cc
          | inr s ↦
              let taken : adjust op n x c ≡ ok (scaled c) = rw p (rw q (rw r (rw s refl))) in
              rw p (
                rw q (
                  rw r (
                    now (scaled c) (mul_word (v x) (dot (suc n) v c)) (scaled_lem c s)
                      (sym taken ∙ h))))
        ]
        | inr r ↦
            let taken : adjust op n x c ≡ ok c = rw p (rw q (rw r refl)) in
            rw p (rw q (rw r (now c (dot (suc n) v c) refl (sym taken ∙ h))))
      ]
    ]
  ]
    where
      now : (b : ℕ → ℕ) (k : ℕ) → dot (suc n) v b ≡ k → ok b ≡ ok d → dot (suc n) v d ≡ k
      now b k e f = returned n v one b d k e f

-- A state: words, and the 1 behind the variables.
abbrev pub IsState : ℕ → (ℕ → ℕ) → Type 0
IsState n v = IsWords (suc n) v × v n ≡ 1

-- On states that a matrix keeps, it is f.
abbrev pub Acts : ℕ → Matrix → ((ℕ → ℕ) → ℕ → ℕ) → Type 0
Acts n m f =
    (v w : ℕ → ℕ)
    → Agree (suc n) v w
    → IsState n w
    → IsState n (f w) × Agree (suc n) (act (suc n) m v) (f w)

with_column-act :
    (n x : ℕ) (v d : ℕ → ℕ)
    → IsWords (suc n) v
    → Agree
        (suc n)
        (act (suc n) (with_column (identity (suc n)) x d) v)
        (assigned x (dot (suc n) v d) v)
unfolding with_column
with_column-act n x v d words j h = elim (Bool-cases (j == x)) [
  | inl e ↦ rw e refl
  | inr e ↦ rw e (act-identity (suc n) v words j h)
]

pub with_column-IsSquare :
    (n x : ℕ) (d : ℕ → ℕ) → IsSquare (suc n) (with_column (identity (suc n)) x d)
unfolding with_column identity
with_column-IsSquare n x d = (refl, refl)

column-Acts :
    (n x op : ℕ) (e : Expression) (c d : ℕ → ℕ)
    → x < n
    → IsScoped n e
    → evaluate n e ≡ ok c
    → adjust op n x c ≡ ok d
    → Acts n (with_column (identity (suc n)) x d) (λ v. assigned x (operate op (v x) (value e v)) v)
column-Acts n x op e c d below scoped evaluated adjusted v w same (words, one) =
    ((λ j h. omega (arith, acts j h, act-IsWords (suc n) m v j h), rw (other) one), acts)
  where
    m : Matrix
    m = with_column (identity (suc n)) x d

    other : (n == x) ≡ false
    other = ground arith

    assigned_value : dot (suc n) w d ≡ operate op (w x) (value e w)
    assigned_value =
        adjust_lem n x w one below op c d (λ j h. words j (omega arith)) adjusted
        ∙ ap (λ (t : ℕ). operate op (w x) t)
            (evaluate_lem n w one e c scoped (λ j h. words j (omega arith)) evaluated)

    acts : Agree (suc n) (act (suc n) m v) (assigned x (operate op (w x) (value e w)) w)
    acts j h =
        act-Agree (suc n) m v w same j h
        ∙ with_column-act n x w d words j h
        ∙ ap (λ (k : ℕ). assigned x k w j) assigned_value

-- The assignment that is read acts as such.
pub assignment_matrix-Acts :
    (n x op : ℕ) (e : Expression) (line : List Token) (m : Matrix)
    → x < n
    → IsScoped n e
    → assignment_matrix n x (op, e, line) ≡ ok m
    → IsSquare (suc n) m
      × Acts n m (λ v. assigned x (operate op (v x) (value e v)) v)
      × ((rest : Code) → assign_code x (op, e, line) rest ≡ ok (assign op x e rest))
unfolding assignment_matrix assign_code
assignment_matrix-Acts n x op e line m below scoped h =
    let first = bind-ok (evaluate n e) with_coefficients m h in
    let second = bind-ok (get line) (with_token first.0) m first.2 in
    elim (Bool-cases (is_new_line second.0)) [
      | inl p ↦
          let branch : with_token first.0 second.0
              ≡ (adjust op n x first.0 >>= λ d. ok (with_column (identity (suc n)) x d)) =
            rw p refl in
          let third =
            bind-ok (adjust op n x first.0) (λ d. ok (with_column (identity (suc n)) x d)) m
              (sym branch ∙ second.2) in
          let same : with_column (identity (suc n)) x third.0 ≡ m =
            ok-injective (with_column (identity (suc n)) x third.0) m third.2 in
          (
            subst (λ k. IsSquare (suc n) k) same (with_column-IsSquare n x third.0),
            subst (λ k. Acts n k (λ v. assigned x (operate op (v x) (value e v)) v)) same
                (column-Acts n x op e first.0 third.0 below scoped first.1 third.1),
            λ rest. rw second.1 (rw p refl),
          )
      | inr p ↦ let throws : with_token first.0 second.0 ≡ err exception = rw p refl in absurd cc
    ]
  where
    with_token : (ℕ → ℕ) → Token → Result Matrix
    with_token c token =
        if is_new_line token
        then (adjust op n x c >>= λ d. ok (with_column (identity (suc n)) x d))
        else err exception

    with_coefficients : (ℕ → ℕ) → Result Matrix
    with_coefficients c = get line >>= λ token. with_token c token
