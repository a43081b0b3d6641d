-- ===== src/Executor/Once/Reach.antt =====
-- executor/executor: histories of an executor, as sequences of the calls of its users and of its threads.
use cpp_many_tasks.Prelude.{
  ℕ, ◌+◌, ◌≤◌, ◌≡◌, refl, inl, inr, Bool, some, List, [], ◌∷◌, arith, Bool-cases, ltb,
}
use cpp_many_tasks.Executor.{
  System, init, canceled, finish_in, on_finished, add_dependency, add_trigger, set_time_trigger,
}
use cpp_many_tasks.Executor.Threads.{
  takes, pop, pop_front, timer_pop, timer_front, work, start, submit, start_shutdown,
}
use cpp_many_tasks.Executor.Once.{
  count, spent, Follows, to_result, finish_in-Sound, on_finished-Sound,
}
use cpp_many_tasks.Executor.Once.Calls.{
  add_dependency-Follows, add_trigger-Follows, set_time_trigger-Follows, submit-OnlyOnce,
  work-Sound, start-Sound, start_shutdown-Follows,
}

-- A state, and the tasks that the threads of the pool took so far.
pub record History : Type 0 where
  pub system : System
  pub taken : List ℕ

-- A call and its effect. A thread of the pool takes a task and goes on with it in two steps.
pub data Step : History → History → Type 0 where
  depends :
      (t d : ℕ) (s : System) (ts : List ℕ)
      → Step
          (record { system = s; taken = ts })
          (record { system = add_dependency t d s; taken = ts })
  triggers :
      (t d : ℕ) (s : System) (ts : List ℕ)
      → Step (record { system = s; taken = ts }) (record { system = add_trigger t d s; taken = ts })
  timed :
      (t n : ℕ) (s : System) (ts : List ℕ)
      → Step
          (record { system = s; taken = ts })
          (record { system = set_time_trigger t n s; taken = ts })
  submits :
      (fuel t : ℕ) (s s' : System) (ts : List ℕ)
      → submit fuel t s ≡ some s'
      → Step (record { system = s; taken = ts }) (record { system = s'; taken = ts })
  cancels :
      (fuel t : ℕ) (s s' : System) (ts : List ℕ)
      → finish_in canceled (λ u s1. on_finished fuel u s1) t s ≡ some s'
      → Step (record { system = s; taken = ts }) (record { system = s'; taken = ts })
  pops :
      (t : ℕ) (s s' : System) (ts : List ℕ)
      → pop s ≡ takes t s'
      → Step (record { system = s; taken = ts }) (record { system = s'; taken = t ∷ ts })
  works :
      (fuel t : ℕ) (succeeds : Bool) (s s' : System) (ts : List ℕ)
      → work fuel succeeds t s ≡ some s'
      → Step (record { system = s; taken = ts }) (record { system = s'; taken = ts })
  timer_pops :
      (now t : ℕ) (s s' : System) (ts : List ℕ)
      → timer_pop now s ≡ takes t s'
      → Step (record { system = s; taken = ts }) (record { system = s'; taken = ts })
  starts :
      (fuel t : ℕ) (s s' : System) (ts : List ℕ)
      → start fuel t s ≡ some s'
      → Step (record { system = s; taken = ts }) (record { system = s'; taken = ts })
  shuts_down :
      (fuel : ℕ) (s s' : System) (ts : List ℕ)
      → start_shutdown fuel s ≡ some s'
      → Step (record { system = s; taken = ts }) (record { system = s'; taken = ts })

pub data Reach : History → Type 0 where
  initially : Reach (record { system = init; taken = [] })
  next : {h h' : History} → Reach h → Step h h' → Reach h'

abbrev Limited : ℕ → History → Type 0
Limited t h = count t h.taken + count t h.system.queue ≤ spent h.system t

pop_front-count :
    (i t : ℕ) (q : List ℕ) (s s' : System) (ts : List ℕ)
    → pop_front q s ≡ takes t s'
    → count i ts + count i q ≤ spent s i
    → count i (t ∷ ts) + count i s'.queue ≤ spent s' i
unfolding count
pop_front-count i t [] s s' ts e f = elim (Bool-cases s.closed) [
  | inl c ↦ ground arith
  | inr c ↦ ground arith
]
pop_front-count i t (u ∷ q) s s' ts e f = ground arith

pop-count :
    (i t : ℕ) (s s' : System) (ts : List ℕ)
    → pop s ≡ takes t s'
    → Limited i (record { system = s; taken = ts })
    → Limited i (record { system = s'; taken = t ∷ ts })
unfolding pop
pop-count i t s s' ts e f = pop_front-count i t s.queue s s' ts e f

timer_front-Follows :
    (now t : ℕ) (q : List ℕ) (s s' : System) → timer_front now q s ≡ takes t s' → Follows s s'
timer_front-Follows now t [] s s' e = elim (Bool-cases s.timers_closed) [
  | inl c ↦ ground arith
  | inr c ↦ ground arith
]
timer_front-Follows now t (u ∷ q) s s' e = elim (Bool-cases (ltb now (s.tasks u).start_at)) [
  | inl c ↦ ground arith
  | inr c ↦
      to_result {s = s} {t = record s { timers = q }} {u = s'} (ground arith)
        (record { once = λ i. omega arith; submits_none = λ i h. h; stays = λ i h. h })
]

timer_pop-Follows : (now t : ℕ) (s s' : System) → timer_pop now s ≡ takes t s' → Follows s s'
unfolding timer_pop
timer_pop-Follows now t s s' e = timer_front-Follows now t s.timers s s' e

Step-Limited : (i : ℕ) (h h' : History) → Step h h' → Limited i h → Limited i h'
Step-Limited i h h' (depends t d s ts) f = omega (arith, f, (add_dependency-Follows t d s).once i)
Step-Limited i h h' (triggers t d s ts) f = omega (arith, f, (add_trigger-Follows t d s).once i)
Step-Limited i h h' (timed t n s ts) f = omega (arith, f, (set_time_trigger-Follows t n s).once i)
Step-Limited i h h' (submits fuel t s s' ts e) f = omega (arith, f, submit-OnlyOnce fuel t s s' e i)
Step-Limited i h h' (cancels fuel t s s' ts e) f = omega (
  arith,
  f,
  (finish_in-Sound canceled (λ u s1. on_finished fuel u s1) refl (on_finished-Sound fuel) t s s'
        e).once
      i,
)
Step-Limited i h h' (pops t s s' ts e) f = pop-count i t s s' ts e f
Step-Limited i h h' (works fuel t b s s' ts e) f =
    omega (arith, f, (work-Sound fuel b t s s' e).once i)
Step-Limited i h h' (timer_pops now t s s' ts e) f =
    omega (arith, f, (timer_pop-Follows now t s s' e).once i)
Step-Limited i h h' (starts fuel t s s' ts e) f =
    omega (arith, f, (start-Sound fuel t s s' e).once i)
Step-Limited i h h' (shuts_down fuel s s' ts e) f =
    omega (arith, f, (start_shutdown-Follows fuel s s' e).once i)

-- After any calls of the users and of the threads of an executor, cancellations and the shutdown included
-- and in any order: how often a task was taken by the threads of the pool and how often it stands
-- in their queue is together at most 1, and 0 as long as the task is created or submitted.
pub taken-spent :
    (t : ℕ) (h : History) → Reach h → count t h.taken + count t h.system.queue ≤ spent h.system t
unfolding count
taken-spent t h initially = omega arith
taken-spent t h (next {h = g} r s) = Step-Limited t g h s (taken-spent t g r)
