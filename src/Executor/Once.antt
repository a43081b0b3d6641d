-- ===== src/Executor/Once.antt =====
-- executor/executor: what a call does to the queue and to the states, whatever it passes through.
pub mod Calls
pub mod Reach
use mathlib.Core.Path.{subst}
use cpp_many_tasks.Prelude.{
  ℕ, zero, suc, ◌+◌, ◌-◌, ◌^◌, ◌%◌, ◌≤◌, ◌<◌, ◌≡◌, ◌≢◌, refl, sym, ap, ◌∙◌, ◌⊎◌, inl, inr, Bool,
  true, false, Option, none, some, List, [], ◌∷◌, ◌++◌, ◌&&◌, arith, Bool-cases, Option-cases, ltb,
  ◌==◌, if◌then◌else◌,
}
use cpp_many_tasks.Executor.{
  TaskStates, created, submitted, enqueued, completed, failed, canceled, rank, Task, System,
  has_state, is_finished, modify, Finishing, finish_in, push, enque, is_ready_to_enque,
  try_to_enque, each, release_dependency, activate_trigger, finish_triggers, on_finished,
  submit_task, clear_depended, clear_triggered,
}

-- How often a task stands in a list.
unfoldable pub count : ℕ → List ℕ → ℕ
count t [] = 0
count t (u ∷ us) = (if u == t then 1 else 0) + count t us

pub count-append : (t : ℕ) (xs ys : List ℕ) → count t (xs ++ ys) ≡ count t xs + count t ys
unfolding count
count-append t [] ys = omega arith
count-append t (x ∷ xs) ys = omega (arith, count-append t xs ys)

-- 1 once a task was enqueued, or is finished.
abbrev pub spent : System → ℕ → ℕ
spent s t = if ltb (rank submitted) (rank (s.tasks t).state) then 1 else 0

-- A call enqueues a task at most once, and only if it spends it; it submits none, and opens no queue.
pub record Follows (s s' : System) : Type 0 where
  pub once : (t : ℕ) → count t s'.queue + spent s t ≤ count t s.queue + spent s' t
  pub submits_none :
      (t : ℕ) → has_state submitted (s'.tasks t) ≡ true → has_state submitted (s.tasks t) ≡ true
  pub stays : (t : ℕ) → is_finished (s.tasks t) ≡ true → is_finished (s'.tasks t) ≡ true

pub Follows-refl : (s : System) → Follows s s
Follows-refl s = record { once = λ t. omega arith; submits_none = λ t e. e; stays = λ t e. e }

pub Follows-trans : (s t u : System) → Follows s t → Follows t u → Follows s u
Follows-trans s t u f g = record {
  once = λ i. omega (arith, f.once i, g.once i);
  submits_none = λ i e. f.submits_none i (g.submits_none i e);
  stays = λ i e. g.stays i (f.stays i e);
}

-- A change of a task that keeps its state.
pub modify-Follows :
    (t : ℕ) (f : Task → Task) (s : System)
    → ((u : Task) → (f u).state ≡ u.state)
    → Follows s (modify t f s)
unfolding modify
modify-Follows t f s keeps = record {
  once = λ i. ground (arith, keeps (s.tasks i));
  submits_none = λ i e. ground (arith, keeps (s.tasks i));
  stays = λ i e. ground (arith, keeps (s.tasks i));
}

abbrev pub Sound : Finishing → Type 0
Sound again = (t : ℕ) (s s' : System) → again t s ≡ some s' → Follows s s'

pub finished-Follows :
    (state : TaskStates) (t : ℕ) (s : System)
    → ltb (rank enqueued) (rank state) ≡ true
    → Follows s (modify t (λ u. record u { state = state }) s)
unfolding modify
finished-Follows state t s finished = record {
  once = λ i. ground (arith, finished);
  submits_none = λ i h. ground (arith, finished);
  stays = λ i h. ground (arith, finished);
}

pub finish_in-Sound :
    (state : TaskStates) (again : Finishing)
    → ltb (rank enqueued) (rank state) ≡ true
    → Sound again
    → Sound (finish_in state again)
unfolding finish_in
finish_in-Sound state again finished sound t s s' e =
    Follows-trans s _ s' (finished-Follows state t s finished) (sound t _ s' e)

-- The result of a call that returns it.
pub to_result : {s t u : System} → some t ≡ some u → Follows s t → Follows s u
to_result {s} e f = subst (Follows s) (cc) f

-- The change that `Enque` makes, without the push.
abbrev pub set_enqueued : ℕ → System → System
set_enqueued t s = modify t (λ u. record u { state = enqueued; dependencies = []; triggers = [] }) s

set_enqueued-Follows :
    (t : ℕ) (s : System) → has_state submitted (s.tasks t) ≡ true → Follows s (set_enqueued t s)
unfolding modify
set_enqueued-Follows t s e = record {
  once = λ i. ground arith;
  submits_none = λ i h. ground arith;
  stays = λ i h. ground arith;
}

pushed-Follows :
    (t : ℕ) (s : System)
    → has_state submitted (s.tasks t) ≡ true
    → Follows s (record (set_enqueued t s) { queue = s.queue ++ t ∷ [] })
unfolding modify count
pushed-Follows t s e = record {
  once = λ i. ground (arith, count-append i s.queue (t ∷ []));
  submits_none = λ i h. ground arith;
  stays = λ i h. ground arith;
}

push-Follows :
    (again : Finishing) (t : ℕ) (s s' : System)
    → Sound again
    → has_state submitted (s.tasks t) ≡ true
    → push again t (set_enqueued t s) ≡ some s'
    → Follows s s'
unfolding push modify
push-Follows again t s s' sound e h = elim (Bool-cases s.closed) [
  | inl c ↦
      Follows-trans s (set_enqueued t s) s' (set_enqueued-Follows t s e)
        (finish_in-Sound canceled again refl sound t (set_enqueued t s) s' (ground arith))
  | inr c ↦ to_result (ground arith) (pushed-Follows t s e)
]

pub enque-Sound : (again : Finishing) → Sound again → Sound (enque again)
unfolding enque
enque-Sound again sound t s s' h =
    elim (Bool-cases ((s.tasks t).queue && has_state submitted (s.tasks t))) [
      | inl e ↦ push-Follows again t s s' sound (ground arith) (ground arith)
      | inr e ↦ to_result (ground arith) (Follows-refl s)
    ]

pub try_to_enque-Sound : (again : Finishing) → Sound again → Sound (try_to_enque again)
unfolding try_to_enque
try_to_enque-Sound again sound t s s' h =
    elim (Bool-cases (has_state submitted (s.tasks t) && is_ready_to_enque (s.tasks t))) [
      | inl e ↦ enque-Sound again sound t s s' (ground arith)
      | inr e ↦ to_result (ground arith) (Follows-refl s)
    ]

pub each-Sound :
    (f : Finishing) → Sound f → (ts : List ℕ) (s s' : System) → each f ts s ≡ some s' → Follows s s'
each-Sound f sound [] s s' h = to_result h (Follows-refl s)
each-Sound f sound (t ∷ ts) s s' h = elim (Option-cases (f t s)) [
  | inl e ↦ cc
  | inr (s1, e) ↦
      Follows-trans s s1 s' (sound t s s1 e) (each-Sound f sound ts s1 s' (ground arith))
]

pub release_dependency-Sound : (again : Finishing) → Sound again → Sound (release_dependency again)
unfolding release_dependency
release_dependency-Sound again sound t s s' h = elim (Bool-cases (s.tasks t).alive) [
  | inl e ↦
      Follows-trans s _ s'
        (modify-Follows t
          (λ u. record u { dependencies_cnt = (u.dependencies_cnt + 2 ^ 64 - 1) % 2 ^ 64 }) s
          (λ u. refl))
        (try_to_enque-Sound again sound t _ s' (ground arith))
  | inr e ↦ to_result (ground arith) (Follows-refl s)
]

pub activate_trigger-Sound : (again : Finishing) → Sound again → Sound (activate_trigger again)
unfolding activate_trigger
activate_trigger-Sound again sound t s s' h = elim (Bool-cases (s.tasks t).alive) [
  | inl e ↦
      Follows-trans s _ s'
        (modify-Follows t (λ u. record u { triggers_activated = true }) s (λ u. refl))
        (try_to_enque-Sound again sound t _ s' (ground arith))
  | inr e ↦ to_result (ground arith) (Follows-refl s)
]

pub finish_triggers-Sound : (again : Finishing) → Sound again → Sound (finish_triggers again)
finish_triggers-Sound again sound t s s' h =
    elim (Option-cases (each (activate_trigger again) (s.tasks t).triggered s)) [
      | inl e ↦ cc
      | inr (s1, e) ↦
          Follows-trans s s1 s'
            (each-Sound (activate_trigger again) (activate_trigger-Sound again sound)
              (s.tasks t).triggered s s1 e)
            (to_result (ground arith)
              (modify-Follows t (λ u. record u { triggered = [] }) s1 (λ u. refl)))
    ]

pub on_finished-Sound : (fuel : ℕ) → Sound (λ t s. on_finished fuel t s)
unfolding on_finished
on_finished-Sound zero t s s' h = cc
on_finished-Sound (suc fuel) t s s' h = go (λ u. on_finished-Sound fuel u)
  where
    again : Finishing
    again u s1 = on_finished fuel u s1

    go : Sound again → Follows s s'
    go sound = elim (Option-cases (each (release_dependency again) (s.tasks t).depended s)) [
      | inl e ↦ cc
      | inr (s1, e) ↦
          Follows-trans s s1 s'
            (each-Sound (release_dependency again) (release_dependency-Sound again sound)
              (s.tasks t).depended s s1 e)
            (Follows-trans s1 (clear_depended t s1) s'
              (modify-Follows t (λ u. record u { depended = [] }) s1 (λ u. refl))
              (finish_triggers-Sound again sound t (clear_depended t s1) s' (ground arith)))
    ]
