-- ===== src/Matrix/Interpreter/Gather.antt =====
-- matrix-3.0/interpreter.h: `GatherVars` numbers the names.
use cpp_many_tasks.Prelude.{
  ℕ, suc, ◌+◌, ◌≤◌, ◌<◌, ◌≡◌, refl, sym, ap, ◌∙◌, ◌⊎◌, inl, inr, true, List, [], ◌∷◌, ◌++◌, arith,
  length, Bool-cases,
}
use cpp_many_tasks.Redis.Storage.{same_key}
use cpp_many_tasks.Redis.Storage.Laws.{same_key_iff}
use cpp_many_tasks.Matrix.Tokenizer.{Token, var, Program}
use cpp_many_tasks.Matrix.Result.{ok, ok-injective}
use cpp_many_tasks.Matrix.Expression.{Vars, at}
use cpp_many_tasks.Matrix.Expression.Progress.{AreBelow, at-AreBelow}
use cpp_many_tasks.Matrix.Interpreter.{contains, gather_token, gather_line, gather_vars}

-- The indices count from k.
unfoldable pub IsNumbered : ℕ → Vars → Type 0
IsNumbered k [] = Unit
IsNumbered k ((s, i) ∷ vars) = i ≡ k × IsNumbered (suc k) vars

append-IsNumbered :
    (k : ℕ) (vars : Vars) (s : List ℕ) (i : ℕ)
    → i ≡ k + length vars
    → IsNumbered k vars
    → IsNumbered k (vars ++ (s, i) ∷ [])
unfolding IsNumbered
append-IsNumbered k [] s i e h = (omega arith, tt)
append-IsNumbered k ((t, j) ∷ vars) s i e (n, h) =
    (n, append-IsNumbered (suc k) vars s i (omega arith) h)

gather_token-IsNumbered :
    (vars : Vars) (t : Token) → IsNumbered 0 vars → IsNumbered 0 (gather_token vars t)
unfolding gather_token
gather_token-IsNumbered vars (var s) h = elim (Bool-cases (contains vars s)) [
  | inl e ↦ rw e h
  | inr e ↦ rw e (append-IsNumbered 0 vars s (length vars) (omega arith) h)
]
gather_token-IsNumbered vars t h = h

gather_line-IsNumbered :
    (vars : Vars) (line : List Token) → IsNumbered 0 vars → IsNumbered 0 (gather_line vars line)
unfolding gather_line
gather_line-IsNumbered vars [] h = h
gather_line-IsNumbered vars (t ∷ line) h =
    gather_line-IsNumbered (gather_token vars t) line (gather_token-IsNumbered vars t h)

gather_vars-IsNumbered :
    (vars : Vars) (lines : Program) → IsNumbered 0 vars → IsNumbered 0 (gather_vars vars lines)
unfolding gather_vars
gather_vars-IsNumbered vars [] h = h
gather_vars-IsNumbered vars (line ∷ lines) h =
    gather_vars-IsNumbered (gather_line vars line) lines (gather_line-IsNumbered vars line h)

IsNumbered-AreBelow :
    (k n : ℕ) (vars : Vars) → k + length vars ≤ n → IsNumbered k vars → AreBelow n vars
unfolding IsNumbered
IsNumbered-AreBelow k n [] le h = tt
IsNumbered-AreBelow k n ((s, i) ∷ vars) le (e, h) =
    (omega arith, IsNumbered-AreBelow (suc k) n vars (omega arith) h)

pub gather_vars-AreBelow :
    (lines : Program) → AreBelow (length (gather_vars [] lines)) (gather_vars [] lines)
unfolding IsNumbered
gather_vars-AreBelow lines =
    IsNumbered-AreBelow 0 (length (gather_vars [] lines)) (gather_vars [] lines) (omega arith)
      (gather_vars-IsNumbered [] lines tt)

-- Where a name is found.
found_at :
    (i j : ℕ) (vars : Vars) (s t : List ℕ)
    → at ((t, j) ∷ vars) s ≡ ok i
    → (t ≡ s × j ≡ i) ⊎ (at vars s ≡ ok i)
unfolding at
found_at i j vars s t f = elim (Bool-cases (same_key t s)) [
  | inl e ↦
      let here : at ((t, j) ∷ vars) s ≡ ok j = rw e refl in
      inl ((same_key_iff t s).0 e, ok-injective j i (sym here ∙ f))
  | inr e ↦ let later : at ((t, j) ∷ vars) s ≡ at vars s = rw e refl in inr (sym later ∙ f)
]

-- A name that is found has an index behind k.
at-IsNumbered : (k i : ℕ) (vars : Vars) (s : List ℕ) → IsNumbered k vars → at vars s ≡ ok i → k ≤ i
unfolding at IsNumbered
at-IsNumbered k i [] s h f = absurd cc
at-IsNumbered k i ((t, j) ∷ vars) s (e, h) f = elim (found_at i j vars s t f) [
  | inl (_, q) ↦ omega arith
  | inr q ↦ omega (arith, at-IsNumbered (suc k) i vars s h q)
]

at-same_key :
    (k i : ℕ) (vars : Vars) (s t : List ℕ)
    → IsNumbered k vars
    → at vars s ≡ ok i
    → at vars t ≡ ok i
    → s ≡ t
unfolding at IsNumbered
at-same_key k i [] s t h f g = absurd cc
at-same_key k i ((u, j) ∷ vars) s t (e, h) f g = elim (found_at i j vars s u f) [
  | inl (p, pi) ↦ elim (found_at i j vars t u g) [
    | inl (q, _) ↦ sym p ∙ q
    | inr q ↦ absurd (omega (arith, at-IsNumbered (suc k) i vars t h q))
  ]
  | inr p ↦ elim (found_at i j vars t u g) [
    | inl (_, qi) ↦ absurd (omega (arith, at-IsNumbered (suc k) i vars s h p))
    | inr q ↦ at-same_key (suc k) i vars s t h p q
  ]
]

names_append :
    (vars new : Vars) (s : List ℕ) → contains vars s ≡ true → contains (vars ++ new) s ≡ true
unfolding contains
names_append [] new s h = absurd cc
names_append ((t, i) ∷ vars) new s h = elim (Bool-cases (same_key t s)) [
  | inl e ↦ rw e refl
  | inr e ↦ ground (arith, names_append vars new s)
]

append-contains : (vars : Vars) (s : List ℕ) (i : ℕ) → contains (vars ++ (s, i) ∷ []) s ≡ true
unfolding contains
append-contains [] s i = rw ((same_key_iff s s).1 refl) refl
append-contains ((t, j) ∷ vars) s i = ground (arith, append-contains vars s i)

contains-gather_token :
    (vars : Vars) (t : Token) (s : List ℕ)
    → contains vars s ≡ true
    → contains (gather_token vars t) s ≡ true
unfolding gather_token
contains-gather_token vars (var r) s h = elim (Bool-cases (contains vars r)) [
  | inl e ↦ rw e h
  | inr e ↦ rw e (names_append vars ((r, length vars) ∷ []) s h)
]
contains-gather_token vars t s h = h

contains-gather_line :
    (vars : Vars) (line : List Token) (s : List ℕ)
    → contains vars s ≡ true
    → contains (gather_line vars line) s ≡ true
unfolding gather_line
contains-gather_line vars [] s h = h
contains-gather_line vars (t ∷ line) s h =
    contains-gather_line (gather_token vars t) line s (contains-gather_token vars t s h)

contains-gather_vars :
    (vars : Vars) (lines : Program) (s : List ℕ)
    → contains vars s ≡ true
    → contains (gather_vars vars lines) s ≡ true
unfolding gather_vars
contains-gather_vars vars [] s h = h
contains-gather_vars vars (line ∷ lines) s h =
    contains-gather_vars (gather_line vars line) lines s (contains-gather_line vars line s h)

gathered_token : (vars : Vars) (s : List ℕ) → contains (gather_token vars (var s)) s ≡ true
unfolding gather_token
gathered_token vars s = elim (Bool-cases (contains vars s)) [
  | inl e ↦ rw e e
  | inr e ↦ rw e (append-contains vars s (length vars))
]

gathered_line :
    (vars : Vars) (l r : List Token) (s : List ℕ)
    → contains (gather_line vars (l ++ var s ∷ r)) s ≡ true
unfolding gather_line
gathered_line vars [] r s =
    contains-gather_line (gather_token vars (var s)) r s (gathered_token vars s)
gathered_line vars (t ∷ l) r s = gathered_line (gather_token vars t) l r s

gathered :
    (vars : Vars) (before after : Program) (l r : List Token) (s : List ℕ)
    → contains (gather_vars vars (before ++ (l ++ var s ∷ r) ∷ after)) s ≡ true
unfolding gather_vars
gathered vars [] after l r s =
    contains-gather_vars (gather_line vars (l ++ var s ∷ r)) after s (gathered_line vars l r s)
gathered vars (line ∷ before) after l r s = gathered (gather_line vars line) before after l r s

contains-at : (vars : Vars) (s : List ℕ) → contains vars s ≡ true → (i : ℕ) × (at vars s ≡ ok i)
unfolding contains at
contains-at [] s h = absurd cc
contains-at ((t, i) ∷ vars) s h = elim (Bool-cases (same_key t s)) [
  | inl e ↦ (i, rw e refl)
  | inr e ↦ let found = contains-at vars s (ground arith) in (found.0, rw e found.1)
]

-- A variable that stands anywhere in a program has an index in the map of `GatherVars`, which is below the
-- number of variables and is that of no other name.
pub gather_vars_lem :
    (before after : Program) (l r : List Token) (s : List ℕ) (vars : Vars)
    → vars ≡ gather_vars [] (before ++ (l ++ var s ∷ r) ∷ after)
    → (i : ℕ) × (at vars s ≡ ok i) × (i < length vars) × ((t : List ℕ) → at vars t ≡ ok i → s ≡ t)
unfolding IsNumbered
gather_vars_lem before after l r s vars e =
    let found = contains-at vars s (ap (λ m. contains m s) e ∙ gathered [] before after l r s) in
    (
      found.0,
      found.1,
      elim (at-AreBelow (length vars) vars s below) [
        | inl (j, f, b) ↦
            let same : j ≡ found.0 = ok-injective j found.0 (sym f ∙ found.1) in omega arith
        | inr f ↦ absurd cc
      ],
      λ t f. at-same_key 0 found.0 vars s t numbered found.1 f,
    )
  where
    numbered : IsNumbered 0 vars
    numbered = rw e (gather_vars-IsNumbered [] (before ++ (l ++ var s ∷ r) ∷ after) tt)

    below : AreBelow (length vars) vars
    below = IsNumbered-AreBelow 0 (length vars) vars (omega arith) numbered
