-- ===== src/Executor/Futures.antt =====
-- executor/executor: `Future` and the calls of `Executor` that make futures.
pub mod Results
use cpp_many_tasks.Prelude.{
  ℕ, zero, suc, Bool, true, false, Option, none, some, List, [], ◌∷◌, ◌==◌, if◌then◌else◌,
}
use cpp_many_tasks.Executor.{
  System, Task, completed, failed, has_state, is_finished, finish_in, add_dependency, add_trigger,
  set_time_trigger, on_finished,
}
use cpp_many_tasks.Executor.Threads.{submit}

-- What a call that may wait and may throw comes to; E is what `std::exception_ptr` points to, and none is
-- the null pointer.
pub data Outcome {ℓ κ} (T : Type ℓ) (E : Type κ) : Type (ℓ ⊔ κ) where
  waits : Outcome T E
  returns : T → Outcome T E
  throws : Option E → Outcome T E

-- `result_` and `exc_ptr_` of the futures.
pub record Store {ℓ κ} (T : Type ℓ) (E : Type κ) : Type (ℓ ⊔ κ) where
  pub result : ℕ → T
  pub error : ℕ → Option E

-- `Wait`, which returns once the state is above `Enqueued`.
abbrev pub may_return : ℕ → System → Bool
may_return t s = is_finished (s.tasks t)

-- `GetError`.
unfoldable pub get_error {ℓ κ} : {T : Type ℓ} {E : Type κ} → ℕ → System → Store T E → Option E
get_error t s r = if has_state failed (s.tasks t) then r.error t else none

-- `Get`, where T() is the value `default`.
unfoldable pub get {ℓ κ} : {T : Type ℓ} {E : Type κ} → T → ℕ → System → Store T E → Outcome T E
unfolding get_error
get default t s r =
    if may_return t s
    then (if has_state completed (s.tasks t)
        then returns (r.result t)
        else if has_state failed (s.tasks t)
        then throws (get_error t s r)
        else returns default)
    else waits

-- `Run`, where the function gives a value, and `SetError`.
pub run {ℓ κ} : {T : Type ℓ} {E : Type κ} → ℕ → T → Store T E → Store T E
run t value r = record r { result = λ u. if u == t then value else r.result u }

pub set_error {ℓ κ} : {T : Type ℓ} {E : Type κ} → ℕ → Option E → Store T E → Store T E
set_error t e r = record r { error = λ u. if u == t then e else r.error u }

abbrev cons_result {ℓ κ} : {T : Type ℓ} {E : Type κ} → T → Outcome (List T) E → Outcome (List T) E
cons_result v waits = waits
cons_result v (returns vs) = returns (v ∷ vs)
cons_result v (throws e) = throws e

-- The results of futures in their order, up to the first `Get` that waits or throws.
abbrev pub gather {ℓ κ} :
    {T : Type ℓ} {E : Type κ} → (Outcome T E) → Outcome (List T) E → Outcome (List T) E
gather waits vs = waits
gather (returns v) vs = cons_result v vs
gather (throws e) vs = throws e

-- The functions that run in the futures of `WhenAll`, `WhenFirst` and `WhenAllBeforeDeadline`.
unfoldable pub all_results {ℓ κ} :
    {T : Type ℓ} {E : Type κ} → T → List ℕ → System → Store T E → Outcome (List T) E
unfolding get
all_results default [] s r = returns []
all_results default (t ∷ ts) s r = gather (get default t s r) (all_results default ts s r)

unfoldable pub first_result {ℓ κ} :
    {T : Type ℓ} {E : Type κ} → T → List ℕ → System → Store T E → Outcome T E
unfolding get
first_result default [] s r = returns default
first_result default (t ∷ ts) s r =
    let rest = first_result default ts s r in
    if is_finished (s.tasks t) then get default t s r else rest

unfoldable pub finished_results {ℓ κ} :
    {T : Type ℓ} {E : Type κ} → T → List ℕ → System → Store T E → Outcome (List T) E
unfolding get
finished_results default [] s r = returns []
finished_results default (t ∷ ts) s r =
    let rest = finished_results default ts s r in
    if is_finished (s.tasks t) then gather (get default t s r) rest else rest

-- `Invoke` and `Then`, where t is a new task.
pub invoke : ℕ → ℕ → System → Option System
unfolding submit
invoke fuel t s = submit fuel t s

pub then_invoke : ℕ → ℕ → ℕ → System → Option System
unfolding submit add_dependency
then_invoke fuel input t s = submit fuel t (add_dependency t input s)

abbrev pub add_dependencies : ℕ → List ℕ → System → System
add_dependencies t [] s = s
add_dependencies t (d ∷ ds) s = add_dependencies t ds (add_dependency t d s)

abbrev pub add_triggers : ℕ → List ℕ → System → System
add_triggers t [] s = s
add_triggers t (d ∷ ds) s = add_triggers t ds (add_trigger t d s)

-- `WhenAll`, `WhenFirst` and `WhenAllBeforeDeadline`.
pub when_all : ℕ → List ℕ → ℕ → System → Option System
unfolding submit
when_all fuel all t s = submit fuel t (add_dependencies t all s)

pub when_first : ℕ → List ℕ → ℕ → System → Option System
unfolding submit
when_first fuel all t s = submit fuel t (add_triggers t all s)

pub when_all_before_deadline : ℕ → ℕ → ℕ → System → Option System
unfolding submit set_time_trigger
when_all_before_deadline fuel deadline t s = submit fuel t (set_time_trigger t deadline s)
