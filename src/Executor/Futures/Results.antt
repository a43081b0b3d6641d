-- ===== src/Executor/Futures/Results.antt =====
-- executor/executor: what the functions that run in the futures of `WhenAll`, `WhenFirst` and
-- `WhenAllBeforeDeadline` give.
use cpp_many_tasks.Prelude.{
  ℕ, ◌≡◌, refl, inl, inr, Bool, true, Option, none, some, List, [], ◌∷◌, map, arith, All,
  Bool-cases, if◌then◌else◌,
}
use cpp_many_tasks.Executor.{System, completed, failed, has_state, is_finished}
use cpp_many_tasks.Executor.Futures.{
  Outcome, returns, throws, Store, get, get_error, all_results, first_result, finished_results,
}

-- The value of a future that did not fail.
abbrev value_of : {T E : Type 0} → T → System → Store T E → ℕ → T
value_of default s r t = if has_state completed (s.tasks t) then r.result t else default

-- The first task of a list that is in a state that a test accepts.
abbrev pub first_where : (ℕ → Bool) → List ℕ → Option ℕ
first_where p [] = none
first_where p (t ∷ ts) = let rest = first_where p ts in if p t then some t else rest

abbrev pub where_only : (ℕ → Bool) → List ℕ → List ℕ
where_only p [] = []
where_only p (t ∷ ts) = let rest = where_only p ts in if p t then t ∷ rest else rest

-- What the functions give if the tasks are finished: the error of the first that failed, or the values.
abbrev pub outcome :
    {T E : Type 0} → T → List ℕ → System → Store T E → Option ℕ → Outcome (List T) E
outcome default ts s r none = returns (map (value_of default s r) ts)
outcome default ts s r (some t) = throws (r.error t)

abbrev pub has_failed : System → ℕ → Bool
has_failed s t = has_state failed (s.tasks t)

-- The function of `WhenAll`, run once its futures are finished: it throws the error of the first of them
-- that failed, and otherwise returns in their order the results of the completed ones, with T() for a
-- cancelled one.
pub all_results_lem :
    {T E : Type 0} (default : T) (ts : List ℕ) (s : System) (r : Store T E)
    → All (λ t. is_finished (s.tasks t) ≡ true) ts
    → all_results default ts s r ≡ outcome default ts s r (first_where (has_failed s) ts)
unfolding all_results get get_error
all_results_lem default [] s r finished = refl
all_results_lem default (t ∷ ts) s r finished = elim (Bool-cases (has_state failed (s.tasks t))) [
  | inl e ↦ ground arith
  | inr e ↦ ground (arith, all_results_lem default ts s r finished.1)
]

-- What `Get` gives for a future that is finished, and T() for none.
abbrev pub chosen : {T E : Type 0} → T → System → Store T E → Option ℕ → Outcome T E
chosen default s r none = returns default
chosen default s r (some t) =
    if has_state failed (s.tasks t) then throws (r.error t) else returns (value_of default s r t)

-- The function of `WhenFirst` never waits: it gives what the first finished future of the list has, its
-- error if it failed, and T() if that future was cancelled or none is finished.
pub first_result_lem :
    {T E : Type 0} (default : T) (ts : List ℕ) (s : System) (r : Store T E)
    → first_result default ts s r
      ≡ chosen default s r (first_where (λ t. is_finished (s.tasks t)) ts)
unfolding first_result get get_error
first_result_lem default [] s r = refl
first_result_lem default (t ∷ ts) s r = elim (Bool-cases (is_finished (s.tasks t))) [
  | inl e ↦ ground arith
  | inr e ↦ ground (arith, first_result_lem default ts s r)
]

-- The function of `WhenAllBeforeDeadline` never waits: of the futures that are finished when it runs, it
-- throws the error of the first that failed, and otherwise returns the results in their order.
pub finished_results_lem :
    {T E : Type 0} (default : T) (ts : List ℕ) (s : System) (r : Store T E)
    → finished_results default ts s r
      ≡ outcome default
          (where_only (λ t. is_finished (s.tasks t)) ts)
          s
          r
          (first_where (has_failed s) ts)
unfolding finished_results get get_error
finished_results_lem default [] s r = refl
finished_results_lem default (t ∷ ts) s r = elim (Bool-cases (is_finished (s.tasks t))) [
  | inl e ↦ elim (Bool-cases (has_state failed (s.tasks t))) [
    | inl g ↦ ground arith
    | inr g ↦ ground (arith, finished_results_lem default ts s r)
  ]
  | inr e ↦ ground (arith, finished_results_lem default ts s r)
]
