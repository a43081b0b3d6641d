-- ===== src/Matrix/Expression/Linear.antt =====
-- matrix-3.0/expression.h: the coefficients of an expression give the value that it stands for.
use native.Mathlib.Nat.{mul_comm}
use cpp_many_tasks.Prelude.{
  ℕ, zero, suc, ◌*◌, ◌%◌, ◌^◌, ◌<◌, ◌≡◌, refl, sym, ap, ◌∙◌, inl, inr, false, arith, Bool-cases,
  ◌==◌, if◌then◌else◌,
}
use cpp_many_tasks.Matrix.Words.{add_word, mul_word, neg_word, sub_word, mul-word}
use cpp_many_tasks.Matrix.Result.{ok, err, exception, ◌>>=◌, ok-injective, bind-ok}
use cpp_many_tasks.Matrix.Dense.{dot}
use cpp_many_tasks.Matrix.Dense.Action.{IsWords}
use cpp_many_tasks.Matrix.Dense.Dot.{dot-mul, dot-add, dot-neg, dot-sub, dot-single, dot-last}
use cpp_many_tasks.Matrix.Expression.{
  Expression, constant, variable, empty, negated, bracketed, factor, mul, term, sum, has_vars,
  multiply, combine, evaluate,
}

-- What an expression stands for: arithmetic modulo 2^64, where any two values have a product.
unfoldable pub value : Expression → (ℕ → ℕ) → ℕ
unfolding add_word mul_word neg_word sub_word
value (constant k) v = k % 2 ^ 64
value (variable x) v = v x
value empty v = 0
value (negated e) v = neg_word (value e v)
value (bracketed e) v = value e v
value (factor e) v = value e v
value (mul l r) v = mul_word (value l v) (value r v)
value (term e) v = value e v
value (sum l op r) v =
    if op == b'+'
    then add_word (value l v) (value r v)
    else if op == b'-'
    then sub_word (value l v) (value r v)
    else value l v

-- The indices of the variables are below n.
unfoldable pub IsScoped : ℕ → Expression → Type 0
IsScoped n (constant k) = Unit
IsScoped n (variable x) = x < n
IsScoped n empty = Unit
IsScoped n (negated e) = IsScoped n e
IsScoped n (bracketed e) = IsScoped n e
IsScoped n (factor e) = IsScoped n e
IsScoped n (mul l r) = IsScoped n l × IsScoped n r
IsScoped n (term e) = IsScoped n e
IsScoped n (sum l op r) = IsScoped n l × IsScoped n r

pub has_vars-false : (n : ℕ) (c : ℕ → ℕ) → has_vars n c ≡ false → (i : ℕ) → i < n → c i ≡ 0
unfolding has_vars
has_vars-false zero c h i l = absurd (omega arith)
has_vars-false (suc n) c h i l = elim (Bool-cases (i == n)) [
  | inl e ↦ let same : c i ≡ c n = ap c (ground arith) in ground (arith, same)
  | inr e ↦ has_vars-false n c (ground arith) i (ground arith)
]

module _ (n : ℕ) (v : ℕ → ℕ) (one : v n ≡ 1) where
  pub returned : (d c : ℕ → ℕ) (x : ℕ) → dot (suc n) v d ≡ x → ok d ≡ ok c → dot (suc n) v c ≡ x
  returned d c x e h = ap (λ (w : ℕ → ℕ). dot (suc n) v w) (sym (ok-injective d c h)) ∙ e

  -- Without variables, the last coefficient is the value.
  pub constant-value : (c : ℕ → ℕ) → has_vars n c ≡ false → dot (suc n) v c ≡ c n % 2 ^ 64
  unfolding mul_word
  constant-value c h =
      dot-last n v c (has_vars-false n c h) ∙ ap (λ (t : ℕ). t * c n % 2 ^ 64) one ∙ omega arith

  scaled-value :
      (c d : ℕ → ℕ)
      → has_vars n c ≡ false
      → dot (suc n) v (λ i. mul_word (d i) (c n)) ≡ mul_word (dot (suc n) v d) (dot (suc n) v c)
  unfolding mul_word
  scaled-value c d h =
      dot-mul (suc n) v d (c n)
      ∙ sym (mul-word (dot (suc n) v d) (c n))
      ∙ ap (λ (t : ℕ). dot (suc n) v d * t % 2 ^ 64) (sym (constant-value c h))

  multiply_lem :
      (c d r : ℕ → ℕ)
      → multiply n c d ≡ ok r
      → dot (suc n) v r ≡ mul_word (dot (suc n) v c) (dot (suc n) v d)
  unfolding multiply mul_word
  multiply_lem c d r h = elim (Bool-cases (has_vars n c)) [
    | inl p ↦ elim (Bool-cases (has_vars n d)) [
      | inl q ↦ let fails : multiply n c d ≡ err exception = rw p (rw q refl) in absurd cc
      | inr q ↦
          let returns : multiply n c d ≡ ok (λ i. mul_word (c i) (d n)) = rw p (rw q refl) in
          returned (λ i. mul_word (c i) (d n)) r (mul_word (dot (suc n) v c) (dot (suc n) v d))
            (scaled-value d c q) (sym returns ∙ h)
    ]
    | inr p ↦
        let returns : multiply n c d ≡ ok (λ i. mul_word (d i) (c n)) = rw p (rw p refl) in
        returned (λ i. mul_word (d i) (c n)) r (mul_word (dot (suc n) v c) (dot (suc n) v d))
          (scaled-value c d p
            ∙ ap (λ (t : ℕ). t % 2 ^ 64) (mul_comm (dot (suc n) v d) (dot (suc n) v c)))
          (sym returns ∙ h)
  ]

  combine_lem :
      (op : ℕ) (c d : ℕ → ℕ)
      → dot (suc n) v (combine op c d) ≡ (
          if op == b'+'
          then add_word (dot (suc n) v c) (dot (suc n) v d)
          else if op == b'-'
          then sub_word (dot (suc n) v c) (dot (suc n) v d)
          else dot (suc n) v c)
  combine_lem op c d = elim (Bool-cases (op == b'+')) [
    | inl p ↦ rw p (dot-add (suc n) v c d)
    | inr p ↦ rw p (elim (Bool-cases (op == b'-')) [
      | inl q ↦ rw q (dot-sub (suc n) v c d)
      | inr q ↦ rw q refl
    ])
  ]

  -- Let v hold words for the n variables, and 1 behind them. If `Evaluate` returns coefficients for an
  -- expression of these variables, then the product of v with the coefficients, modulo 2^64, is the value
  -- that the expression has in v.
  pub evaluate_lem :
      (e : Expression) (c : ℕ → ℕ)
      → IsScoped n e
      → IsWords n v
      → evaluate n e ≡ ok c
      → dot (suc n) v c ≡ value e v
  unfolding evaluate value IsScoped mul_word
  evaluate_lem (constant k) c scoped words h =
      returned (λ i. if i == n then k else 0) c (k % 2 ^ 64)
        (dot-single (suc n) n k v (omega arith) ∙ ap (λ (t : ℕ). mul_word t k) one ∙ omega arith) h
  evaluate_lem (variable x) c scoped words h =
      returned (λ i. if i == x then 1 else 0) c (v x)
        (dot-single (suc n) x 1 v (omega arith) ∙ omega (arith, words x (omega arith))) h
  evaluate_lem empty c scoped words h =
      returned (λ i. 0) c 0 (dot-last n v (λ i. 0) (λ i l. refl) ∙ omega arith) h
  evaluate_lem (negated e) c scoped words h =
      let first = bind-ok (evaluate n e) (λ d. ok (λ i. neg_word (d i))) c h in
      returned (λ i. neg_word (first.0 i)) c (neg_word (value e v))
        (dot-neg (suc n) v first.0 ∙ ap neg_word (evaluate_lem e first.0 scoped words first.1))
        first.2
  evaluate_lem (bracketed e) c scoped words h = evaluate_lem e c scoped words h
  evaluate_lem (factor e) c scoped words h = evaluate_lem e c scoped words h
  evaluate_lem (mul l r) c (sl, sr) words h =
      let first = bind-ok (evaluate n l) (λ d. evaluate n r >>= λ f. multiply n d f) c h in
      let second = bind-ok (evaluate n r) (λ f. multiply n first.0 f) c first.2 in
      multiply_lem first.0 second.0 c second.2
      ∙ ap (λ (t : ℕ). mul_word t (dot (suc n) v second.0))
          (evaluate_lem l first.0 sl words first.1)
      ∙ ap (λ (t : ℕ). mul_word (value l v) t) (evaluate_lem r second.0 sr words second.1)
  evaluate_lem (term e) c scoped words h = evaluate_lem e c scoped words h
  evaluate_lem (sum l op r) c (sl, sr) words h =
      let first = bind-ok (evaluate n l) (λ d. evaluate n r >>= λ f. ok (combine op d f)) c h in
      let second = bind-ok (evaluate n r) (λ f. ok (combine op first.0 f)) c first.2 in
      returned (combine op first.0 second.0) c (value (sum l op r) v)
        (combine_lem op first.0 second.0
          ∙ rw (evaluate_lem l first.0 sl words first.1)
              (rw (evaluate_lem r second.0 sr words second.1) refl))
        second.2
