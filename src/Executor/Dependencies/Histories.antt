-- ===== src/Executor/Dependencies/Histories.antt =====
-- executor/executor: the counters in the histories of an executor.
use cpp_many_tasks.Prelude.{
  ℕ, ◌^◌, ◌%◌, ◌≤◌, ◌<◌, ◌≡◌, refl, ap, inl, inr, true, false, not, ◌||◌, ◌&&◌, some, List, [], ◌∷◌,
  arith, All, length, ◌↔◌, Bool-cases, Option-cases, ltb,
}
use cpp_many_tasks.Executor.{
  created, submitted, enqueued, canceled, has_state, System, init, is_finished, modify,
  add_dependency, add_triggered, add_trigger, set_time_trigger, on_finished, submit_task,
}
use cpp_many_tasks.Executor.Threads.{takes, pop, pop_front, timer_pop, timer_front, submit}
use cpp_many_tasks.Executor.Once.{count}
use cpp_many_tasks.Executor.Once.Calls.{submit_state, queue_set}
use cpp_many_tasks.Executor.Once.Reach.{
  History, Step, depends, triggers, timed, submits, cancels, pops, works, timer_pops, starts,
  shuts_down, Reach, initially, next,
}
use cpp_many_tasks.Executor.Dependencies.{unfinished, is_waiting, Same, Same-IsCounted, Same-Keeps}
use cpp_many_tasks.Executor.Dependencies.Loops.{on_finished-Careful}
use cpp_many_tasks.Executor.Dependencies.Calls.{try_to_enque-Steady}
use cpp_many_tasks.Executor.Dependencies.Adding.{add_dependency-IsCounted, add_dependency-Keeps}
use cpp_many_tasks.Executor.Dependencies.Tracks.{
  IsTracked, to_tracked, IsTracked-result, finish_in-Tracks, same-Tracks, start_shutdown-IsTracked,
  work-Tracks, start-Tracks, timer_push-Tracks, modify-Tracks,
}

add_trigger-IsTracked : (t d : ℕ) (s : System) → IsTracked s → IsTracked (add_trigger t d s)
unfolding add_trigger add_triggered modify
add_trigger-IsTracked t d s v = to_tracked s (add_trigger t d s) v (
  Same-IsCounted (λ u. 0) (λ u. 0) s (add_trigger t d s) same (λ i a l h. ground (arith, h))
      v.counted,
  Same-Keeps s (add_trigger t d s) same (λ i. ground arith),
)
  where
    same : (i : ℕ) → Same (s.tasks i) ((add_trigger t d s).tasks i)
    same i = record {
      finished = ground arith;
      depended = λ g. ground arith;
      waiting = λ w. ground arith;
      dependencies = λ w. ground arith;
      alive = ground arith;
    }

set_time_trigger-IsTracked :
    (t n : ℕ) (s : System) → IsTracked s → IsTracked (set_time_trigger t n s)
unfolding set_time_trigger
set_time_trigger-IsTracked t n s =
    modify-Tracks t (λ u. record u { has_time_trigger = true; start_at = n }) s
      (record {
        finished = refl;
        depended = λ g. refl;
        waiting = λ w. w;
        dependencies = λ w. refl;
        alive = refl;
      })
      (λ u. refl) (λ u. refl)

queue_set-IsTracked : (t : ℕ) (s : System) → IsTracked s → IsTracked (queue_set t s)
queue_set-IsTracked t s =
    modify-Tracks t (λ u. record u { queue = true }) s
      (record {
        finished = refl;
        depended = λ g. refl;
        waiting = λ w. w;
        dependencies = λ w. refl;
        alive = refl;
      })
      (λ u. refl) (λ u. refl)

submit_state-IsTracked :
    (t : ℕ) (s : System)
    → has_state created (s.tasks t) ≡ true
    → IsTracked s
    → IsTracked (submit_state t s)
unfolding modify
submit_state-IsTracked t s e v =
    modify-Tracks t (λ u. record u { state = submitted }) (queue_set t s)
      (record {
        finished = ground (arith, e);
        depended = λ g. refl;
        waiting = λ w. ground (arith, e);
        dependencies = λ w. refl;
        alive = refl;
      })
      (λ u. refl) (λ u. refl) (queue_set-IsTracked t s v)

submit_task-IsTracked :
    (fuel t : ℕ) (s s' : System) → submit_task fuel t s ≡ some s' → IsTracked s → IsTracked s'
unfolding submit_task
submit_task-IsTracked fuel t s s' e v = elim (Bool-cases (has_state created (s.tasks t))) [
  | inl h ↦
      let v1 = submit_state-IsTracked t s h v in
      to_tracked (submit_state t s) s' v1 (
        try_to_enque-Steady (λ u s1. on_finished fuel u s1) (on_finished-Careful fuel) (λ u. 0) t
          (submit_state t s) s' (ground arith) v1.counted)
  | inr h ↦ IsTracked-result {s1 = queue_set t s} (ground arith) (queue_set-IsTracked t s v)
]

submit-IsTracked :
    (fuel t : ℕ) (s s' : System) → submit fuel t s ≡ some s' → IsTracked s → IsTracked s'
unfolding submit
submit-IsTracked fuel t s s' e v = elim (Option-cases (submit_task fuel t s)) [
  | inl h ↦ cc
  | inr (s1, h) ↦
      let v1 = submit_task-IsTracked fuel t s s1 h v in
      elim (Bool-cases (
        not (has_state enqueued (s1.tasks t) || is_finished (s1.tasks t))
        && (s1.tasks t).has_time_trigger)) [
          | inl c ↦ timer_push-Tracks fuel t s1 s' (ground arith) v1
          | inr c ↦ IsTracked-result (ground arith) v1
        ]
]

pop_front-tasks :
    (t : ℕ) (q : List ℕ) (s s' : System)
    → pop_front q s ≡ takes t s'
    → (u : ℕ) → s'.tasks u ≡ s.tasks u
pop_front-tasks t [] s s' e u = elim (Bool-cases s.closed) [
  | inl c ↦ absurd (ground arith)
  | inr c ↦ absurd (ground arith)
]
pop_front-tasks t (x ∷ q) s s' e u = cc

timer_front-tasks :
    (now t : ℕ) (q : List ℕ) (s s' : System)
    → timer_front now q s ≡ takes t s'
    → (u : ℕ) → s'.tasks u ≡ s.tasks u
timer_front-tasks now t [] s s' e u = elim (Bool-cases s.timers_closed) [
  | inl c ↦ absurd (ground arith)
  | inr c ↦ absurd (ground arith)
]
timer_front-tasks now t (x ∷ q) s s' e u = elim (Bool-cases (ltb now (s.tasks x).start_at)) [
  | inl c ↦ absurd (ground arith)
  | inr c ↦ ap (λ x. x.tasks u) (taken c)
]
  where
    taken : ltb now (s.tasks x).start_at ≡ false → s' ≡ record s { timers = q }
    taken c = ground arith

pop-tasks : (t : ℕ) (s s' : System) → pop s ≡ takes t s' → (u : ℕ) → s'.tasks u ≡ s.tasks u
unfolding pop
pop-tasks t s s' e = pop_front-tasks t s.queue s s' e

timer_pop-tasks :
    (now t : ℕ) (s s' : System) → timer_pop now s ≡ takes t s' → (u : ℕ) → s'.tasks u ≡ s.tasks u
unfolding timer_pop
timer_pop-tasks now t s s' e = timer_front-tasks now t s.timers s s' e

Step-IsTracked : (h h' : History) → Step h h' → IsTracked h.system → IsTracked h'.system
Step-IsTracked h h' (depends t d s ts) v =
    to_tracked s (add_dependency t d s) v
      (add_dependency-IsCounted t d s v.counted, add_dependency-Keeps t d s)
Step-IsTracked h h' (triggers t d s ts) v = add_trigger-IsTracked t d s v
Step-IsTracked h h' (timed t n s ts) v = set_time_trigger-IsTracked t n s v
Step-IsTracked h h' (submits fuel t s s' ts e) v = submit-IsTracked fuel t s s' e v
Step-IsTracked h h' (cancels fuel t s s' ts e) v = finish_in-Tracks fuel canceled refl t s s' e v
Step-IsTracked h h' (pops t s s' ts e) v = same-Tracks s s' (pop-tasks t s s' e) v
Step-IsTracked h h' (works fuel t b s s' ts e) v = work-Tracks fuel b t s s' e v
Step-IsTracked h h' (timer_pops now t s s' ts e) v =
    same-Tracks s s' (timer_pop-tasks now t s s' e) v
Step-IsTracked h h' (starts fuel t s s' ts e) v = start-Tracks fuel t s s' e v
Step-IsTracked h h' (shuts_down fuel s s' ts e) v = start_shutdown-IsTracked fuel s s' e v

init-IsTracked : IsTracked init
unfolding unfinished count
init-IsTracked = record {
  counted = record { counts = λ t w a. refl; links = λ t d w f. refl };
  quiet = λ d f. refl;
}

Reach-IsTracked : (h : History) → Reach h → IsTracked h.system
Reach-IsTracked h initially = init-IsTracked
Reach-IsTracked h (next {h = g} r s) = Step-IsTracked g h s (Reach-IsTracked g r)

-- The counter and the lists of dependent tasks, as `IsTracked` has them.
counts_unfinished :
    (t : ℕ) (h : History)
    → Reach h
    → is_waiting (h.system.tasks t) ≡ true
    → (h.system.tasks t).alive ≡ true
    → ((h.system.tasks t).dependencies_cnt
        ≡ unfinished h.system (h.system.tasks t).dependencies % 2 ^ 64)
      × ((d : ℕ)
          → is_finished (h.system.tasks d) ≡ false
          → count t (h.system.tasks d).depended ≡ count d (h.system.tasks t).dependencies)
counts_unfinished t h r w a =
    let v = Reach-IsTracked h r in
    (omega (arith, v.counted.counts t w a), λ d f. v.counted.links t d w f)

unfinished_bound : (s : System) (ds : List ℕ) → unfinished s ds ≤ length ds
unfolding unfinished
unfinished_bound s [] = omega arith
unfinished_bound s (d ∷ ds) = ground (arith, unfinished_bound s ds)

All-finished :
    (s : System) (ds : List ℕ) → unfinished s ds ≡ 0 → All (λ d. is_finished (s.tasks d) ≡ true) ds
unfolding unfinished
All-finished s [] e = tt
All-finished s (d ∷ ds) e = elim (Bool-cases (is_finished (s.tasks d))) [
  | inl f ↦ (f, All-finished s ds (ground arith))
  | inr f ↦ absurd (ground arith)
]

none_unfinished :
    (s : System) (ds : List ℕ) → All (λ d. is_finished (s.tasks d) ≡ true) ds → unfinished s ds ≡ 0
unfolding unfinished
none_unfinished s [] a = refl
none_unfinished s (d ∷ ds) a = ground (arith, a.0, none_unfinished s ds a.1)

-- After any calls of the users and of the threads of an executor: the counter of a task that is created or
-- submitted and still referred to, with fewer than 2^64 dependencies, is 0 exactly if all its
-- dependencies are finished.
pub counter_zero :
    (t : ℕ) (h : History)
    → Reach h
    → is_waiting (h.system.tasks t) ≡ true
    → (h.system.tasks t).alive ≡ true
    → length (h.system.tasks t).dependencies < 2 ^ 64
    → ((h.system.tasks t).dependencies_cnt ≡ 0)
      ↔ All (λ d. is_finished (h.system.tasks d) ≡ true) (h.system.tasks t).dependencies
counter_zero t h r w a l =
    let ds = (h.system.tasks t).dependencies in
    let c = (counts_unfinished t h r w a).0 in
    let b = unfinished_bound h.system ds in
    (
      λ e. All-finished h.system ds (omega (arith, e, c, b, l)),
      λ f. omega (arith, c, none_unfinished h.system ds f),
    )
