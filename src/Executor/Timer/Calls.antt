-- ===== src/Executor/Timer/Calls.antt =====
-- executor/executor: what the calls of the users and of the threads leave alone of the timer queue.
use cpp_many_tasks.Prelude.{
  ℕ, ◌+◌, ◌^◌, ◌%◌, ◌≡◌, refl, ◌⊎◌, inl, inr, Bool, true, not, some, [], ◌∷◌, ◌++◌, ◌&&◌, ◌||◌,
  arith, Bool-cases, Option-cases,
}
use cpp_many_tasks.Executor.{
  created, submitted, enqueued, completed, failed, canceled, System, has_state, is_finished, modify,
  finish_in, on_finished, submit_task, add_depended, add_dependency, add_triggered, add_trigger,
}
use cpp_many_tasks.Executor.Threads.{
  push_heap, timer_push, close, timer_close, work, start, submit, start_shutdown,
}
use cpp_many_tasks.Executor.Timer.{
  Unmoved, Unmoved-refl, Unmoved-trans, modify-Unmoved, IsStill, to_unmoved, enque-IsStill,
  try_to_enque-IsStill, each-IsStill, on_finished-IsStill, cancel-IsStill,
}

add_depended-Unmoved : (d t : ℕ) (s : System) → Unmoved s (add_depended d t s)
unfolding add_depended
add_depended-Unmoved d t s = elim (Bool-cases (is_finished (s.tasks d))) [
  | inl e ↦ rw e (Unmoved-refl s)
  | inr e ↦ rw e (
      Unmoved-trans s s1 (modify d (λ u. record u { depended = u.depended ++ t ∷ [] }) s1)
        (modify-Unmoved t (λ u. record u { dependencies_cnt = (u.dependencies_cnt + 1) % 2 ^ 64 }) s
          (λ u. refl))
        (modify-Unmoved d (λ u. record u { depended = u.depended ++ t ∷ [] }) s1 (λ u. refl)))
]
  where
    s1 : System
    s1 = modify t (λ u. record u { dependencies_cnt = (u.dependencies_cnt + 1) % 2 ^ 64 }) s

pub add_dependency-Unmoved : (t d : ℕ) (s : System) → Unmoved s (add_dependency t d s)
unfolding add_dependency
add_dependency-Unmoved t d s =
    Unmoved-trans s (add_depended d t s) (add_dependency t d s) (add_depended-Unmoved d t s) (
      modify-Unmoved t
        (λ u. record u { dependencies = u.dependencies ++ d ∷ []; has_dependencies = true })
        (add_depended d t s) (λ u. refl))

add_triggered-Unmoved : (d t : ℕ) (s : System) → Unmoved s (add_triggered d t s)
unfolding add_triggered
add_triggered-Unmoved d t s = elim (Bool-cases (is_finished (s.tasks d))) [
  | inl e ↦ rw e (modify-Unmoved t (λ u. record u { triggers_activated = true }) s (λ u. refl))
  | inr e ↦
      rw e (modify-Unmoved d (λ u. record u { triggered = u.triggered ++ t ∷ [] }) s (λ u. refl))
]

pub add_trigger-Unmoved : (t d : ℕ) (s : System) → Unmoved s (add_trigger t d s)
unfolding add_trigger
add_trigger-Unmoved t d s =
    Unmoved-trans s (add_triggered d t s) (add_trigger t d s) (add_triggered-Unmoved d t s) (
      modify-Unmoved t (λ u. record u { triggers = u.triggers ++ d ∷ []; has_triggers = true })
        (add_triggered d t s) (λ u. refl))

submit_task-IsStill : (fuel : ℕ) → IsStill (submit_task fuel)
unfolding submit_task
submit_task-IsStill fuel t s s' e = elim (Bool-cases (has_state created (s.tasks t))) [
  | inl h ↦ Unmoved-trans s set s' to_set (
      Unmoved-trans set (modify t (λ u. record u { state = submitted }) set) s'
        (modify-Unmoved t (λ u. record u { state = submitted }) set (λ u. refl))
        (try_to_enque-IsStill (λ u s1. on_finished fuel u s1)
          (λ u a b f. on_finished-IsStill fuel u a b f) t
          (modify t (λ u. record u { state = submitted }) set) s' (ground arith)))
  | inr h ↦ to_unmoved {t = set} (ground arith) to_set
]
  where
    set : System
    set = modify t (λ u. record u { queue = true }) s

    to_set : Unmoved s set
    to_set = modify-Unmoved t (λ u. record u { queue = true }) s (λ u. refl)

-- What `Submit` does: it leaves the timer queue, or pushes the task as it is then.
abbrev pub Pushed : ℕ → System → System → Type 0
Pushed t s s' =
    (s1 : System) × Unmoved s s1 × (s' ≡ record s1 { timers = push_heap s1 t s1.timers })

timer_push-Pushed :
    (fuel t : ℕ) (s s' : System) → timer_push fuel t s ≡ some s' → Unmoved s s' ⊎ Pushed t s s'
unfolding timer_push
timer_push-Pushed fuel t s s' e = elim (Bool-cases s.timers_closed) [
  | inl h ↦ inl (cancel-IsStill fuel canceled t s s' (ground arith))
  | inr h ↦ inr (s, Unmoved-refl s, ground arith)
]

pub submit-Pushed :
    (fuel t : ℕ) (s s' : System) → submit fuel t s ≡ some s' → Unmoved s s' ⊎ Pushed t s s'
unfolding submit
submit-Pushed fuel t s s' e = elim (Option-cases (submit_task fuel t s)) [
  | inl h ↦ absurd cc
  | inr (s1, h) ↦
      let before = submit_task-IsStill fuel t s s1 h in
      elim (Bool-cases (
        not (has_state enqueued (s1.tasks t) || is_finished (s1.tasks t))
        && (s1.tasks t).has_time_trigger)) [
          | inl c ↦ elim (timer_push-Pushed fuel t s1 s' (ground arith)) [
            | inl u ↦ inl (Unmoved-trans s s1 s' before u)
            | inr (s2, u, p) ↦ inr (s2, Unmoved-trans s s1 s2 before u, p)
          ]
          | inr c ↦ inl (to_unmoved (ground arith) before)
        ]
]

close-Unmoved : (fuel : ℕ) (s s' : System) → close fuel s ≡ some s' → Unmoved s s'
unfolding close
close-Unmoved fuel s s' e = elim (Bool-cases s.closed) [
  | inl h ↦ to_unmoved (ground arith) (Unmoved-refl s)
  | inr h ↦
      Unmoved-trans s (record s { closed = true }) s' (record { timers = refl; times = λ i. refl })
        (each-IsStill (finish_in canceled (λ t s2. on_finished fuel t s2))
          (cancel-IsStill fuel canceled) s.queue (record s { closed = true }) s' (ground arith))
]

timer_close-Unmoved : (fuel : ℕ) (s s' : System) → timer_close fuel s ≡ some s' → Unmoved s s'
unfolding timer_close
timer_close-Unmoved fuel s s' e = elim (Bool-cases s.timers_closed) [
  | inl h ↦ to_unmoved (ground arith) (Unmoved-refl s)
  | inr h ↦
      Unmoved-trans s (record s { timers_closed = true }) s'
        (record { timers = refl; times = λ i. refl })
        (each-IsStill (finish_in canceled (λ t s2. on_finished fuel t s2))
          (cancel-IsStill fuel canceled) s.timers (record s { timers_closed = true }) s'
          (ground arith))
]

pub work-IsStill : (fuel : ℕ) (b : Bool) → IsStill (work fuel b)
unfolding work
work-IsStill fuel b t s s' e = elim (Bool-cases (has_state canceled (s.tasks t))) [
  | inl h ↦ to_unmoved (ground arith) (Unmoved-refl s)
  | inr h ↦ elim (Bool-cases b) [
    | inl g ↦ cancel-IsStill fuel completed t s s' (ground arith)
    | inr g ↦ cancel-IsStill fuel failed t s s' (ground arith)
  ]
]

pub start-IsStill : (fuel : ℕ) → IsStill (start fuel)
unfolding start
start-IsStill fuel t s s' e = elim (Bool-cases (has_state canceled (s.tasks t))) [
  | inl h ↦ to_unmoved (ground arith) (Unmoved-refl s)
  | inr h ↦
      enque-IsStill (λ u s1. on_finished fuel u s1) (λ u a b f. on_finished-IsStill fuel u a b f) t
        s s' (ground arith)
]

pub start_shutdown-Unmoved :
    (fuel : ℕ) (s s' : System) → start_shutdown fuel s ≡ some s' → Unmoved s s'
unfolding start_shutdown
start_shutdown-Unmoved fuel s s' e = elim (Option-cases (close fuel s)) [
  | inl h ↦ absurd cc
  | inr (s1, h) ↦
      Unmoved-trans s s1 s' (close-Unmoved fuel s s1 h)
        (timer_close-Unmoved fuel s1 s' (ground arith))
]
