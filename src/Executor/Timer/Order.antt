-- ===== src/Executor/Timer/Order.antt =====
-- executor/executor: which task `TimerQueue::Pop` takes, and when it waits.
use mathlib.Core.Path.{subst}
use cpp_many_tasks.Prelude.{
  ℕ, ◌≤◌, ◌<◌, ◌≡◌, refl, sym, ap, ◌∙◌, inl, inr, List, [], ◌∷◌, arith, All, Bool-cases, ltb, ◌==◌,
}
use cpp_many_tasks.Executor.{System, init, canceled, modify, set_time_trigger}
use cpp_many_tasks.Executor.Threads.{
  waits, takes, pop, pop_front, push_heap, timer_pop, timer_front,
}
use cpp_many_tasks.Executor.Once.{count}
use cpp_many_tasks.Executor.Once.Reach.{
  History, Step, depends, triggers, timed, submits, cancels, pops, works, timer_pops, starts,
  shuts_down,
}
use cpp_many_tasks.Executor.Timer.{Unmoved, cancel-IsStill}
use cpp_many_tasks.Executor.Timer.Calls.{
  add_dependency-Unmoved, add_trigger-Unmoved, Pushed, submit-Pushed, work-IsStill, start-IsStill,
  start_shutdown-Unmoved,
}

-- No task of a list starts before t.
abbrev NoneBefore : System → ℕ → List ℕ → Type 0
NoneBefore s t q = All (λ u. (s.tasks t).start_at ≤ (s.tasks u).start_at) q

-- Each task starts no later than those behind it.
abbrev IsOrdered : System → List ℕ → Type 0
IsOrdered s [] = Unit
IsOrdered s (t ∷ q) = NoneBefore s t q × IsOrdered s q

NoneBefore-weaken :
    (s : System) (t u : ℕ) (q : List ℕ)
    → (s.tasks t).start_at ≤ (s.tasks u).start_at
    → NoneBefore s u q
    → NoneBefore s t q
NoneBefore-weaken s t u [] le h = tt
NoneBefore-weaken s t u (x ∷ q) le (first, h) = (omega arith, NoneBefore-weaken s t u q le h)

push_heap-NoneBefore :
    (s : System) (x t : ℕ) (q : List ℕ)
    → (s.tasks x).start_at ≤ (s.tasks t).start_at
    → NoneBefore s x q
    → NoneBefore s x (push_heap s t q)
unfolding push_heap
push_heap-NoneBefore s x t [] le h = (le, tt)
push_heap-NoneBefore s x t (u ∷ q) le (first, h) =
    elim (Bool-cases (ltb (s.tasks t).start_at (s.tasks u).start_at)) [
      | inl e ↦ rw e (le, (first, h))
      | inr e ↦ rw e (first, push_heap-NoneBefore s x t q le h)
    ]

push_heap-IsOrdered :
    (s : System) (t : ℕ) (q : List ℕ) → IsOrdered s q → IsOrdered s (push_heap s t q)
unfolding push_heap
push_heap-IsOrdered s t [] h = (tt, tt)
push_heap-IsOrdered s t (u ∷ q) (first, h) =
    elim (Bool-cases (ltb (s.tasks t).start_at (s.tasks u).start_at)) [
      | inl e ↦ rw e ((ground arith, NoneBefore-weaken s t u q (ground arith) first), (first, h))
      | inr e ↦
          rw e (push_heap-NoneBefore s u t q (ground arith) first, push_heap-IsOrdered s t q h)
    ]

-- Start times that agree on the tasks of a queue.
abbrev SameTimes : System → System → List ℕ → Type 0
SameTimes s s' q = All (λ u. (s'.tasks u).start_at ≡ (s.tasks u).start_at) q

same-NoneBefore :
    (s s' : System) (t : ℕ) (q : List ℕ)
    → (s'.tasks t).start_at ≡ (s.tasks t).start_at
    → SameTimes s s' q
    → NoneBefore s t q
    → NoneBefore s' t q
same-NoneBefore s s' t [] e same h = tt
same-NoneBefore s s' t (u ∷ q) e (f, same) (first, h) =
    (omega arith, same-NoneBefore s s' t q e same h)

same-IsOrdered : (s s' : System) (q : List ℕ) → SameTimes s s' q → IsOrdered s q → IsOrdered s' q
same-IsOrdered s s' [] same h = tt
same-IsOrdered s s' (t ∷ q) (e, same) (first, h) =
    (same-NoneBefore s s' t q e same first, same-IsOrdered s s' q same h)

all_same :
    (s s' : System) (q : List ℕ)
    → ((t : ℕ) → (s'.tasks t).start_at ≡ (s.tasks t).start_at)
    → SameTimes s s' q
all_same s s' [] same = tt
all_same s s' (t ∷ q) same = (same t, all_same s s' q same)

-- The timer queue is in order.
abbrev IsTimely : System → Type 0
IsTimely s = IsOrdered s s.timers

Unmoved-IsTimely : (s s' : System) → Unmoved s s' → IsTimely s → IsTimely s'
Unmoved-IsTimely s s' u h =
    subst (λ q. IsOrdered s' q) (sym u.timers)
      (same-IsOrdered s s' s.timers (all_same s s' s.timers u.times) h)

Pushed-IsTimely : (t : ℕ) (s s' : System) → Pushed t s s' → IsTimely s → IsTimely s'
Pushed-IsTimely t s s' (s1, u, e) h = subst IsTimely (sym e) (
    same-IsOrdered s1 (record s1 { timers = push_heap s1 t s1.timers }) (push_heap s1 t s1.timers)
      (all_same s1 (record s1 { timers = push_heap s1 t s1.timers }) (push_heap s1 t s1.timers)
        (λ i. refl))
      (push_heap-IsOrdered s1 t s1.timers (Unmoved-IsTimely s s1 u h)))

-- A time that is set for a task outside the queue.
timed-same :
    (t n : ℕ) (s : System) (q : List ℕ) → count t q ≡ 0 → SameTimes s (set_time_trigger t n s) q
unfolding set_time_trigger modify count
timed-same t n s [] h = tt
timed-same t n s (u ∷ q) h = elim (Bool-cases (u == t)) [
  | inl e ↦ absurd (ground arith)
  | inr e ↦ (rw e refl, timed-same t n s q (ground arith))
]

timed-IsTimely :
    (t n : ℕ) (s : System) → count t s.timers ≡ 0 → IsTimely s → IsTimely (set_time_trigger t n s)
unfolding set_time_trigger modify
timed-IsTimely t n s h v =
    same-IsOrdered s (set_time_trigger t n s) s.timers (timed-same t n s s.timers h) v

takes_parts : (t u : ℕ) (s s' : System) → takes t s ≡ takes u s' → (t ≡ u) × (s ≡ s')
takes_parts t u s s' e = (cc, cc)

pop_front-IsTimely :
    (t : ℕ) (q : List ℕ) (s s' : System) → pop_front q s ≡ takes t s' → IsTimely s → IsTimely s'
pop_front-IsTimely t [] s s' e v = elim (Bool-cases s.closed) [
  | inl c ↦ absurd (ground arith)
  | inr c ↦ absurd (ground arith)
]
pop_front-IsTimely t (u ∷ q) s s' e v =
    let s1 : System = record s { queue = q } in
    subst IsTimely (takes_parts u t s1 s' e).1
      (same-IsOrdered s s1 s.timers (all_same s s1 s.timers (λ i. refl)) v)

pop-IsTimely : (t : ℕ) (s s' : System) → pop s ≡ takes t s' → IsTimely s → IsTimely s'
unfolding pop
pop-IsTimely t s s' e v = pop_front-IsTimely t s.queue s s' e v

-- What `Pop` takes, the front.
timer_front_lem :
    (now t : ℕ) (q : List ℕ) (s s' : System)
    → timer_front now q s ≡ takes t s'
    → (rest : List ℕ) × (q ≡ t ∷ rest)
      × (s' ≡ record s { timers = rest })
      × ((s.tasks t).start_at ≤ now)
timer_front_lem now t [] s s' e = elim (Bool-cases s.timers_closed) [
  | inl c ↦ absurd (ground arith)
  | inr c ↦ absurd (ground arith)
]
timer_front_lem now t (u ∷ q) s s' e = elim (Bool-cases (ltb now (s.tasks u).start_at)) [
  | inl c ↦ absurd (ground arith)
  | inr c ↦
      let branch : timer_front now (u ∷ q) s ≡ takes u (record s { timers = q }) = rw c refl in
      let parts = takes_parts u t (record s { timers = q }) s' (sym branch ∙ e) in
      (
        q,
        ap (λ x. x ∷ q) parts.0,
        sym parts.1,
        subst (λ x. (s.tasks x).start_at ≤ now) parts.0 (ground arith),
      )
]

timer_pop-IsTimely :
    (now t : ℕ) (s s' : System) → timer_pop now s ≡ takes t s' → IsTimely s → IsTimely s'
unfolding timer_pop
timer_pop-IsTimely now t s s' e v =
    let (rest, p, same, due) = timer_front_lem now t s.timers s s' e in
    let s1 : System = record s { timers = rest } in
    let ordered : IsOrdered s (t ∷ rest) = subst (IsOrdered s) p v in
    subst IsTimely (sym same) (same-IsOrdered s s1 rest (all_same s s1 rest (λ i. refl)) ordered.1)

-- A call that sets no start time of a task that stands in the timer queue.
unfoldable pub SetsOutside : {h h' : History} → Step h h' → Type 0
unfolding count
SetsOutside (timed t n s ts) = count t s.timers ≡ 0
SetsOutside x = Unit

Step-IsTimely :
    {h h' : History} → (x : Step h h') → SetsOutside x → IsTimely h.system → IsTimely h'.system
unfolding SetsOutside
Step-IsTimely (depends t d s ts) o v = Unmoved-IsTimely s _ (add_dependency-Unmoved t d s) v
Step-IsTimely (triggers t d s ts) o v = Unmoved-IsTimely s _ (add_trigger-Unmoved t d s) v
Step-IsTimely (timed t n s ts) o v = timed-IsTimely t n s o v
Step-IsTimely (submits fuel t s s' ts e) o v = elim (submit-Pushed fuel t s s' e) [
  | inl u ↦ Unmoved-IsTimely s s' u v
  | inr p ↦ Pushed-IsTimely t s s' p v
]
Step-IsTimely (cancels fuel t s s' ts e) o v =
    Unmoved-IsTimely s s' (cancel-IsStill fuel canceled t s s' e) v
Step-IsTimely (pops t s s' ts e) o v = pop-IsTimely t s s' e v
Step-IsTimely (works fuel t b s s' ts e) o v =
    Unmoved-IsTimely s s' (work-IsStill fuel b t s s' e) v
Step-IsTimely (timer_pops now t s s' ts e) o v = timer_pop-IsTimely now t s s' e v
Step-IsTimely (starts fuel t s s' ts e) o v = Unmoved-IsTimely s s' (start-IsStill fuel t s s' e) v
Step-IsTimely (shuts_down fuel s s' ts e) o v =
    Unmoved-IsTimely s s' (start_shutdown-Unmoved fuel s s' e) v

-- Histories of such calls.
pub data TimelyReach : History → Type 0 where
  begins : TimelyReach (record { system = init; taken = [] })
  goes_on : {h h' : History} → TimelyReach h → (x : Step h h') → SetsOutside x → TimelyReach h'

Reach-IsTimely : (h : History) → TimelyReach h → IsTimely h.system
Reach-IsTimely h begins = tt
Reach-IsTimely h (goes_on {h = g} r x o) = Step-IsTimely x o (Reach-IsTimely g r)

later-NoneBefore :
    (s : System) (now t : ℕ) (q : List ℕ)
    → now < (s.tasks t).start_at
    → NoneBefore s t q
    → All (λ u. now < (s.tasks u).start_at) q
later-NoneBefore s now t [] le h = tt
later-NoneBefore s now t (u ∷ q) le (first, h) = (omega arith, later-NoneBefore s now t q le h)

timer_front-waits :
    (now : ℕ) (q : List ℕ) (s : System)
    → timer_front now q s ≡ waits
    → IsOrdered s q
    → All (λ u. now < (s.tasks u).start_at) q
timer_front-waits now [] s e h = tt
timer_front-waits now (t ∷ q) s e (first, h) = elim (Bool-cases (ltb now (s.tasks t).start_at)) [
  | inl c ↦ (ground arith, later-NoneBefore s now t q (ground arith) first)
  | inr c ↦ absurd (ground arith)
]

-- In any history of calls of the users and of the threads of an executor that sets no start time of a task while
-- it stands in the timer queue: if `Pop` of the timer queue takes a task at the time now, its start time
-- has come, no task in the queue starts before it, and every other stays there as often as it stood;
-- and if `Pop` waits, no task in the queue has a start time that has come.
pub timer_pop_lem :
    (now : ℕ) (h : History)
    → TimelyReach h
    → ((t : ℕ) (s' : System)
        → timer_pop now h.system ≡ takes t s'
        → ((h.system.tasks t).start_at ≤ now)
          × All (λ u. (h.system.tasks t).start_at ≤ (h.system.tasks u).start_at) h.system.timers
          × ((i : ℕ) → count i h.system.timers ≡ count i (t ∷ s'.timers)))
      × (timer_pop now h.system ≡ waits
          → All (λ u. now < (h.system.tasks u).start_at) h.system.timers)
unfolding timer_pop
timer_pop_lem now h r = (
  λ t s' e.
      let (rest, p, same, due) = timer_front_lem now t h.system.timers h.system s' e in
      let ordered : IsOrdered h.system (t ∷ rest) =
        subst (IsOrdered h.system) p (Reach-IsTimely h r) in
      (
        due,
        subst (λ q. NoneBefore h.system t q) (sym p) (omega arith, ordered.0),
        λ i. ap (λ q. count i q) p ∙ ap (λ (s : System). count i (t ∷ s.timers)) (sym same),
      ),
  λ e. timer_front-waits now h.system.timers h.system e (Reach-IsTimely h r),
)
