-- ===== src/Executor/Dependencies/Tracks.antt =====
-- executor/executor: the counters through the calls of the threads.
use mathlib.Core.Path.{subst}
use cpp_many_tasks.Prelude.{
  ℕ, ◌≡◌, refl, ◌∙◌, inl, inr, Bool, true, some, List, [], ◌∷◌, arith, Bool-cases, Option-cases,
  ltb,
}
use cpp_many_tasks.Executor.{
  TaskStates, enqueued, completed, failed, canceled, rank, has_state, Task, System, Finishing,
  is_finished, modify, finish_in, each, on_finished,
}
use cpp_many_tasks.Executor.Threads.{
  push_heap, timer_push, close, timer_close, work, start, start_shutdown,
}
use cpp_many_tasks.Executor.Dependencies.{IsCounted, Same}
use cpp_many_tasks.Executor.Dependencies.Changes.{modify-IsCounted, modify-Keeps}
use cpp_many_tasks.Executor.Dependencies.Loops.{on_finished-Careful}
use cpp_many_tasks.Executor.Dependencies.Calls.{
  Counted, finish_in-Counted, enque-Steady, same_tasks,
}

-- Between two calls: the counters count, and nobody who is finished has dependent tasks.
pub record IsTracked (s : System) : Type 0 where
  pub counted : IsCounted (λ u. 0) s
  pub quiet : (d : ℕ) → is_finished (s.tasks d) ≡ true → (s.tasks d).depended ≡ []

pub to_tracked : (s s' : System) → IsTracked s → Counted (λ u. 0) s s' → IsTracked s'
to_tracked s s' v (w, k) = record {
  counted = w;
  quiet = λ d f. elim (k.keeps d f) [ inl e ↦ e | inr (g, e) ↦ e ∙ v.quiet d g ];
}

pub IsTracked-result : {s' s1 : System} → some s1 ≡ some s' → IsTracked s1 → IsTracked s'
IsTracked-result {s'} {s1} e v = subst IsTracked {x = s1} {y = s'} (cc) v

abbrev pub Tracks : Finishing → Type 0
Tracks f = (t : ℕ) (s s' : System) → f t s ≡ some s' → IsTracked s → IsTracked s'

pub finish_in-Tracks :
    (fuel : ℕ) (state : TaskStates)
    → ltb (rank enqueued) (rank state) ≡ true
    → Tracks (finish_in state (λ u s1. on_finished fuel u s1))
finish_in-Tracks fuel state f t s s' e v = to_tracked s s' v (
    finish_in-Counted state (λ u s1. on_finished fuel u s1) f (on_finished-Careful fuel) (λ u. 0) t
      s s' e (v.quiet t) v.counted)

each-Tracks :
    (f : Finishing)
    → Tracks f
    → (ts : List ℕ) (s s' : System) → each f ts s ≡ some s'
    → IsTracked s
    → IsTracked s'
each-Tracks f tracks [] s s' e v = IsTracked-result e v
each-Tracks f tracks (t ∷ ts) s s' e v = elim (Option-cases (f t s)) [
  | inl h ↦ cc
  | inr (s1, h) ↦ each-Tracks f tracks ts s1 s' (ground arith) (tracks t s s1 h v)
]

pub same-Tracks : (s s' : System) → ((t : ℕ) → s'.tasks t ≡ s.tasks t) → IsTracked s → IsTracked s'
same-Tracks s s' e v = to_tracked s s' v (same_tasks (λ u. 0) s s' e v.counted)

close-IsTracked : (fuel : ℕ) (s s' : System) → close fuel s ≡ some s' → IsTracked s → IsTracked s'
unfolding close
close-IsTracked fuel s s' e v = elim (Bool-cases s.closed) [
  | inl h ↦ IsTracked-result (ground arith) v
  | inr h ↦
      each-Tracks (finish_in canceled (λ u s1. on_finished fuel u s1))
        (finish_in-Tracks fuel canceled refl) s.queue (record s { closed = true }) s' (ground arith)
        (same-Tracks s (record s { closed = true }) (λ t. refl) v)
]

timer_close-IsTracked :
    (fuel : ℕ) (s s' : System) → timer_close fuel s ≡ some s' → IsTracked s → IsTracked s'
unfolding timer_close
timer_close-IsTracked fuel s s' e v = elim (Bool-cases s.timers_closed) [
  | inl h ↦ IsTracked-result (ground arith) v
  | inr h ↦
      each-Tracks (finish_in canceled (λ u s1. on_finished fuel u s1))
        (finish_in-Tracks fuel canceled refl) s.timers (record s { timers_closed = true }) s'
        (ground arith) (same-Tracks s (record s { timers_closed = true }) (λ t. refl) v)
]

pub start_shutdown-IsTracked :
    (fuel : ℕ) (s s' : System) → start_shutdown fuel s ≡ some s' → IsTracked s → IsTracked s'
unfolding start_shutdown
start_shutdown-IsTracked fuel s s' e v = elim (Option-cases (close fuel s)) [
  | inl h ↦ cc
  | inr (s1, h) ↦ timer_close-IsTracked fuel s1 s' (ground arith) (close-IsTracked fuel s s1 h v)
]

pub work-Tracks : (fuel : ℕ) (b : Bool) → Tracks (work fuel b)
unfolding work
work-Tracks fuel b t s s' e v = elim (Bool-cases (has_state canceled (s.tasks t))) [
  | inl h ↦ IsTracked-result (ground arith) v
  | inr h ↦ elim (Bool-cases b) [
    | inl g ↦ finish_in-Tracks fuel completed refl t s s' (ground arith) v
    | inr g ↦ finish_in-Tracks fuel failed refl t s s' (ground arith) v
  ]
]

pub start-Tracks : (fuel : ℕ) → Tracks (start fuel)
unfolding start
start-Tracks fuel t s s' e v = elim (Bool-cases (has_state canceled (s.tasks t))) [
  | inl h ↦ IsTracked-result (ground arith) v
  | inr h ↦ to_tracked s s' v (
      enque-Steady (λ u s1. on_finished fuel u s1) (on_finished-Careful fuel) (λ u. 0) t s s'
        (ground arith) v.counted)
]

pub timer_push-Tracks : (fuel : ℕ) → Tracks (timer_push fuel)
unfolding timer_push
timer_push-Tracks fuel t s s' e v = elim (Bool-cases s.timers_closed) [
  | inl h ↦ finish_in-Tracks fuel canceled refl t s s' (ground arith) v
  | inr h ↦
      IsTracked-result {s1 = record s { timers = push_heap s t s.timers }} (ground arith)
        (same-Tracks s (record s { timers = push_heap s t s.timers }) (λ u. refl) v)
]

-- A change of a task that the counters do not see.
pub modify-Tracks :
    (t : ℕ) (f : Task → Task) (s : System)
    → Same (s.tasks t) (f (s.tasks t))
    → ((u : Task) → (f u).dependencies_cnt ≡ u.dependencies_cnt)
    → ((u : Task) → (f u).depended ≡ u.depended)
    → IsTracked s
    → IsTracked (modify t f s)
modify-Tracks t f s same counter kept v =
    to_tracked s (modify t f s) v
      (modify-IsCounted (λ u. 0) t f s same counter v.counted, modify-Keeps t f s same kept)
