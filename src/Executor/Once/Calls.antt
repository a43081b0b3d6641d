-- ===== src/Executor/Once/Calls.antt =====
-- executor/executor: what the calls of the users and of the threads do to the queue and to the states.
use mathlib.Core.Path.{subst}
use cpp_many_tasks.Prelude.{
  ℕ, ◌+◌, ◌≤◌, ◌≡◌, refl, inl, inr, Bool, true, not, some, List, ◌||◌, ◌&&◌, arith, Bool-cases,
  Option-cases,
}
use cpp_many_tasks.Executor.{
  created, submitted, enqueued, completed, failed, canceled, System, has_state, is_finished, modify,
  finish_in, each, add_depended, add_dependency, add_triggered, add_trigger, set_time_trigger,
  on_finished, submit_task,
}
use cpp_many_tasks.Executor.Threads.{
  close, push_heap, timer_push, timer_close, work, start, submit, start_shutdown,
}
use cpp_many_tasks.Executor.Once.{
  count, spent, Follows, Follows-refl, Follows-trans, modify-Follows, Sound, finish_in-Sound,
  to_result, enque-Sound, try_to_enque-Sound, each-Sound, on_finished-Sound,
}

again-Sound : (fuel : ℕ) → Sound (λ t s. on_finished fuel t s)
again-Sound fuel = on_finished-Sound fuel

pub add_dependency-Follows : (t d : ℕ) (s : System) → Follows s (add_dependency t d s)
unfolding add_dependency add_depended modify
add_dependency-Follows t d s = record {
  once = λ i. ground arith;
  submits_none = λ i e. ground arith;
  stays = λ i e. ground arith;
}

pub add_trigger-Follows : (t d : ℕ) (s : System) → Follows s (add_trigger t d s)
unfolding add_trigger add_triggered modify
add_trigger-Follows t d s = record {
  once = λ i. ground arith;
  submits_none = λ i e. ground arith;
  stays = λ i e. ground arith;
}

pub set_time_trigger-Follows : (t n : ℕ) (s : System) → Follows s (set_time_trigger t n s)
unfolding set_time_trigger modify
set_time_trigger-Follows t n s = record {
  once = λ i. ground arith;
  submits_none = λ i e. ground arith;
  stays = λ i e. ground arith;
}

-- What `Submit` does to the state: it may submit the task.
abbrev pub OnlyOnce : System → System → Type 0
OnlyOnce s s' = (t : ℕ) → count t s'.queue + spent s t ≤ count t s.queue + spent s' t

through : (s t u : System) → OnlyOnce s t → Follows t u → OnlyOnce s u
through s t u f g i = omega (arith, f i, g.once i)

from_equation : (s : System) {t u : System} → some t ≡ some u → OnlyOnce s t → OnlyOnce s u
from_equation s {t} {u} e f = subst (OnlyOnce s) {x = t} {y = u} (cc) f

abbrev pub queue_set : ℕ → System → System
queue_set t s = modify t (λ u. record u { queue = true }) s

abbrev pub submit_state : ℕ → System → System
submit_state t s = modify t (λ u. record u { state = submitted }) (queue_set t s)

submitted-OnlyOnce :
    (t : ℕ) (s : System) → has_state created (s.tasks t) ≡ true → OnlyOnce s (submit_state t s)
unfolding modify
submitted-OnlyOnce t s e i = ground arith

submit_task-OnlyOnce : (fuel t : ℕ) (s s' : System) → submit_task fuel t s ≡ some s' → OnlyOnce s s'
unfolding submit_task
submit_task-OnlyOnce fuel t s s' e = elim (Bool-cases (has_state created (s.tasks t))) [
  | inl h ↦ through s (submit_state t s) s' (submitted-OnlyOnce t s h) (
      try_to_enque-Sound (λ u s1. on_finished fuel u s1) (again-Sound fuel) t (submit_state t s) s'
        (ground arith))
  | inr h ↦
      from_equation s {t = queue_set t s} {u = s'} (ground arith)
        (modify-Follows t (λ u. record u { queue = true }) s (λ u. refl)).once
]

timer_push-Sound : (fuel : ℕ) → Sound (timer_push fuel)
unfolding timer_push
timer_push-Sound fuel t s s' e = elim (Bool-cases s.timers_closed) [
  | inl h ↦
      finish_in-Sound canceled (λ u s1. on_finished fuel u s1) refl (again-Sound fuel) t s s'
        (ground arith)
  | inr h ↦
      to_result {t = record s { timers = push_heap s t s.timers }} (ground arith)
        (record { once = λ i. omega arith; submits_none = λ i g. g; stays = λ i g. g })
]

pub submit-OnlyOnce : (fuel t : ℕ) (s s' : System) → submit fuel t s ≡ some s' → OnlyOnce s s'
unfolding submit
submit-OnlyOnce fuel t s s' e = elim (Option-cases (submit_task fuel t s)) [
  | inl h ↦ cc
  | inr (s1, h) ↦ through s s1 s' (submit_task-OnlyOnce fuel t s s1 h) (rest s1 h)
]
  where
    rest : (s1 : System) → submit_task fuel t s ≡ some s1 → Follows s1 s'
    rest s1 h =
        elim (Bool-cases (
          not (has_state enqueued (s1.tasks t) || is_finished (s1.tasks t))
          && (s1.tasks t).has_time_trigger)) [
            | inl c ↦ timer_push-Sound fuel t s1 s' (ground arith)
            | inr c ↦ to_result (ground arith) (Follows-refl s1)
          ]

close_with :
    (fuel : ℕ) (ts : List ℕ) (s s1 s' : System)
    → Follows s s1
    → each (finish_in canceled (λ t s2. on_finished fuel t s2)) ts s1 ≡ some s'
    → Follows s s'
close_with fuel ts s s1 s' f e = Follows-trans s s1 s' f (
    each-Sound (finish_in canceled (λ t s2. on_finished fuel t s2))
      (finish_in-Sound canceled (λ t s2. on_finished fuel t s2) refl (again-Sound fuel)) ts s1 s' e)

pub close-Follows : (fuel : ℕ) (s s' : System) → close fuel s ≡ some s' → Follows s s'
unfolding close
close-Follows fuel s s' e = elim (Bool-cases s.closed) [
  | inl h ↦ to_result (ground arith) (Follows-refl s)
  | inr h ↦
      close_with fuel s.queue s (record s { closed = true }) s'
        (record { once = λ i. omega arith; submits_none = λ i g. g; stays = λ i g. g })
        (ground arith)
]

timer_close-Follows : (fuel : ℕ) (s s' : System) → timer_close fuel s ≡ some s' → Follows s s'
unfolding timer_close
timer_close-Follows fuel s s' e = elim (Bool-cases s.timers_closed) [
  | inl h ↦ to_result (ground arith) (Follows-refl s)
  | inr h ↦
      close_with fuel s.timers s (record s { timers_closed = true }) s'
        (record { once = λ i. omega arith; submits_none = λ i g. g; stays = λ i g. g })
        (ground arith)
]

pub work-Sound : (fuel : ℕ) (b : Bool) → Sound (work fuel b)
unfolding work
work-Sound fuel b t s s' e = elim (Bool-cases (has_state canceled (s.tasks t))) [
  | inl h ↦ to_result (ground arith) (Follows-refl s)
  | inr h ↦ elim (Bool-cases b) [
    | inl g ↦
        finish_in-Sound completed (λ u s1. on_finished fuel u s1) refl (again-Sound fuel) t s s'
          (ground arith)
    | inr g ↦
        finish_in-Sound failed (λ u s1. on_finished fuel u s1) refl (again-Sound fuel) t s s'
          (ground arith)
  ]
]

pub start-Sound : (fuel : ℕ) → Sound (start fuel)
unfolding start
start-Sound fuel t s s' e = elim (Bool-cases (has_state canceled (s.tasks t))) [
  | inl h ↦ to_result (ground arith) (Follows-refl s)
  | inr h ↦ enque-Sound (λ u s1. on_finished fuel u s1) (again-Sound fuel) t s s' (ground arith)
]

pub start_shutdown-Follows :
    (fuel : ℕ) (s s' : System) → start_shutdown fuel s ≡ some s' → Follows s s'
unfolding start_shutdown
start_shutdown-Follows fuel s s' e = elim (Option-cases (close fuel s)) [
  | inl h ↦ cc
  | inr (s1, h) ↦
      Follows-trans s s1 s' (close-Follows fuel s s1 h)
        (timer_close-Follows fuel s1 s' (ground arith))
]
