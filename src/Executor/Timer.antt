-- ===== src/Executor/Timer.antt =====
-- executor/executor: what a call on a task leaves alone of the timer queue, whatever tasks it passes through.
pub mod Calls
pub mod Order
use mathlib.Core.Path.{subst}
use cpp_many_tasks.Prelude.{
  ℕ, zero, suc, ◌+◌, ◌-◌, ◌^◌, ◌%◌, ◌≡◌, refl, sym, ap, ◌∙◌, inl, inr, Bool, true, not, some, List,
  [], ◌∷◌, ◌++◌, ◌&&◌, ◌||◌, arith, Bool-cases, Option-cases, ◌==◌, if◌then◌else◌,
}
use cpp_many_tasks.Executor.{
  created, submitted, enqueued, completed, failed, canceled, TaskStates, Task, System, has_state,
  is_finished, modify, Finishing, finish_in, push, enque, is_ready_to_enque, try_to_enque, each,
  release_dependency, activate_trigger, finish_triggers, on_finished, submit_task, clear_depended,
  add_depended, add_dependency, add_triggered, add_trigger,
}
use cpp_many_tasks.Executor.Threads.{close, timer_close, work, start, start_shutdown}

-- The timer queue and the start times stay.
pub record Unmoved (s s' : System) : Type 0 where
  pub timers : s'.timers ≡ s.timers
  pub times : (t : ℕ) → (s'.tasks t).start_at ≡ (s.tasks t).start_at

pub Unmoved-refl : (s : System) → Unmoved s s
Unmoved-refl s = record { timers = refl; times = λ t. refl }

pub Unmoved-trans : (s t u : System) → Unmoved s t → Unmoved t u → Unmoved s u
Unmoved-trans s t u f g = record {
  timers = g.timers ∙ f.timers;
  times = λ i. g.times i ∙ f.times i;
}

pub modify-Unmoved :
    (t : ℕ) (f : Task → Task) (s : System)
    → ((u : Task) → (f u).start_at ≡ u.start_at)
    → Unmoved s (modify t f s)
unfolding modify
modify-Unmoved t f s keeps = record {
  timers = refl;
  times = λ i. elim (Bool-cases (i == t)) [ inl e ↦ rw e (keeps (s.tasks i)) | inr e ↦ rw e refl ];
}

abbrev pub IsStill : Finishing → Type 0
IsStill again = (t : ℕ) (s s' : System) → again t s ≡ some s' → Unmoved s s'

pub finish_in-IsStill :
    (state : TaskStates) (again : Finishing) → IsStill again → IsStill (finish_in state again)
unfolding finish_in
finish_in-IsStill state again still t s s' e =
    Unmoved-trans s (modify t (λ u. record u { state = state }) s) s'
      (modify-Unmoved t (λ u. record u { state = state }) s (λ u. refl))
      (still t (modify t (λ u. record u { state = state }) s) s' e)

pub to_unmoved : {s t u : System} → some t ≡ some u → Unmoved s t → Unmoved s u
to_unmoved {s} e f = subst (Unmoved s) (cc) f

push-IsStill : (again : Finishing) → IsStill again → IsStill (push again)
unfolding push
push-IsStill again still t s s' e = elim (Bool-cases s.closed) [
  | inl c ↦ finish_in-IsStill canceled again still t s s' (ground arith)
  | inr c ↦
      to_unmoved {t = record s { queue = s.queue ++ t ∷ [] }} (ground arith)
        (record { timers = refl; times = λ i. refl })
]

pub enque-IsStill : (again : Finishing) → IsStill again → IsStill (enque again)
unfolding enque
enque-IsStill again still t s s' h =
    elim (Bool-cases ((s.tasks t).queue && has_state submitted (s.tasks t))) [
      | inl e ↦
          let set : System =
            modify t (λ u. record u { state = enqueued; dependencies = []; triggers = [] }) s in
          Unmoved-trans s set s'
            (modify-Unmoved t (λ u. record u { state = enqueued; dependencies = []; triggers = [] })
              s (λ u. refl))
            (push-IsStill again still t set s' (ground arith))
      | inr e ↦ to_unmoved (ground arith) (Unmoved-refl s)
    ]

pub try_to_enque-IsStill : (again : Finishing) → IsStill again → IsStill (try_to_enque again)
unfolding try_to_enque
try_to_enque-IsStill again still t s s' h =
    elim (Bool-cases (has_state submitted (s.tasks t) && is_ready_to_enque (s.tasks t))) [
      | inl e ↦ enque-IsStill again still t s s' (ground arith)
      | inr e ↦ to_unmoved (ground arith) (Unmoved-refl s)
    ]

pub each-IsStill :
    (f : Finishing)
    → IsStill f
    → (ts : List ℕ) (s s' : System) → each f ts s ≡ some s'
    → Unmoved s s'
each-IsStill f still [] s s' h = to_unmoved h (Unmoved-refl s)
each-IsStill f still (t ∷ ts) s s' h = elim (Option-cases (f t s)) [
  | inl e ↦ cc
  | inr (s1, e) ↦
      Unmoved-trans s s1 s' (still t s s1 e) (each-IsStill f still ts s1 s' (ground arith))
]

release_dependency-IsStill :
    (again : Finishing) → IsStill again → IsStill (release_dependency again)
unfolding release_dependency
release_dependency-IsStill again still t s s' h = elim (Bool-cases (s.tasks t).alive) [
  | inl e ↦
      Unmoved-trans s _ s'
        (modify-Unmoved t
          (λ u. record u { dependencies_cnt = (u.dependencies_cnt + 2 ^ 64 - 1) % 2 ^ 64 }) s
          (λ u. refl))
        (try_to_enque-IsStill again still t _ s' (ground arith))
  | inr e ↦ to_unmoved (ground arith) (Unmoved-refl s)
]

activate_trigger-IsStill : (again : Finishing) → IsStill again → IsStill (activate_trigger again)
unfolding activate_trigger
activate_trigger-IsStill again still t s s' h = elim (Bool-cases (s.tasks t).alive) [
  | inl e ↦
      Unmoved-trans s _ s'
        (modify-Unmoved t (λ u. record u { triggers_activated = true }) s (λ u. refl))
        (try_to_enque-IsStill again still t _ s' (ground arith))
  | inr e ↦ to_unmoved (ground arith) (Unmoved-refl s)
]

finish_triggers-IsStill : (again : Finishing) → IsStill again → IsStill (finish_triggers again)
finish_triggers-IsStill again still t s s' h =
    elim (Option-cases (each (activate_trigger again) (s.tasks t).triggered s)) [
      | inl e ↦ cc
      | inr (s1, e) ↦
          Unmoved-trans s s1 s'
            (each-IsStill (activate_trigger again) (activate_trigger-IsStill again still)
              (s.tasks t).triggered s s1 e)
            (to_unmoved (ground arith)
              (modify-Unmoved t (λ u. record u { triggered = [] }) s1 (λ u. refl)))
    ]

pub on_finished-IsStill : (fuel : ℕ) → IsStill (λ t s. on_finished fuel t s)
unfolding on_finished
on_finished-IsStill zero t s s' h = cc
on_finished-IsStill (suc fuel) t s s' h = go (λ u. on_finished-IsStill fuel u)
  where
    again : Finishing
    again u s1 = on_finished fuel u s1

    go : IsStill again → Unmoved s s'
    go still = elim (Option-cases (each (release_dependency again) (s.tasks t).depended s)) [
      | inl e ↦ cc
      | inr (s1, e) ↦
          Unmoved-trans s s1 s'
            (each-IsStill (release_dependency again) (release_dependency-IsStill again still)
              (s.tasks t).depended s s1 e)
            (Unmoved-trans s1 (clear_depended t s1) s'
              (modify-Unmoved t (λ u. record u { depended = [] }) s1 (λ u. refl))
              (finish_triggers-IsStill again still t (clear_depended t s1) s' (ground arith)))
    ]

pub cancel-IsStill :
    (fuel : ℕ) (state : TaskStates) → IsStill (finish_in state (λ u s. on_finished fuel u s))
cancel-IsStill fuel state =
    finish_in-IsStill state (λ u s. on_finished fuel u s)
      (λ t s s' e. on_finished-IsStill fuel t s s' e)
