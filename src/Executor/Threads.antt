-- ===== src/Executor/Threads.antt =====
-- executor/executor: the queues of `Executor`, and what its threads do with the tasks in them.
-- The heap of the timer queue is the list of its tasks in the order of their start times when each was pushed,
-- which is a heap for `Compare`; the front is its first task.
use cpp_many_tasks.Prelude.{
  ℕ, Bool, true, not, ◌&&◌, ◌||◌, Option, none, some, List, [], ◌∷◌, ltb, if◌then◌else◌,
}
use cpp_many_tasks.Executor.{
  System, Finishing, completed, failed, canceled, enqueued, has_state, is_finished, finish_in, each,
  enque, on_finished, submit_task,
}

-- What a `Pop` does: it waits, finds that the queue was closed, or takes a task.
pub data Popped : Type 0 where
  waits : Popped
  ended : Popped
  takes : ℕ → System → Popped

abbrev pub pop_front : List ℕ → System → Popped
pop_front [] s = if s.closed then ended else waits
pop_front (t ∷ q) s = takes t (record s { queue = q })

-- `TasksQueue::Pop`.
unfoldable pub pop : System → Popped
pop s = pop_front s.queue s

-- `TasksQueue::Close`; the tasks stay in the queue.
unfoldable pub close : ℕ → System → Option System
close fuel s =
    let closing =
      each (finish_in canceled (λ t s'. on_finished fuel t s')) s.queue
        (record s { closed = true }) in
    if s.closed then some s else closing

-- `std::push_heap` with `Compare`, of the task t behind the others.
unfoldable pub push_heap : System → ℕ → List ℕ → List ℕ
push_heap s t [] = t ∷ []
push_heap s t (u ∷ us) =
    let rest = push_heap s t us in
    if ltb (s.tasks t).start_at (s.tasks u).start_at then t ∷ u ∷ us else u ∷ rest

-- `TimerQueue::Push` and `TimerQueue::Close`.
unfoldable pub timer_push : ℕ → Finishing
unfolding push_heap
timer_push fuel t s =
    let refused = finish_in canceled (λ u s'. on_finished fuel u s') t s in
    if not s.timers_closed then some (record s { timers = push_heap s t s.timers }) else refused

unfoldable pub timer_close : ℕ → System → Option System
timer_close fuel s =
    let closing =
      each (finish_in canceled (λ t s'. on_finished fuel t s')) s.timers
        (record s { timers_closed = true }) in
    if s.timers_closed then some s else closing

-- The wait for the front's start time, then `std::pop_heap` and `pop_back`.
abbrev pub timer_front : ℕ → List ℕ → System → Popped
timer_front now [] s = if s.timers_closed then ended else waits
timer_front now (t ∷ q) s =
    if ltb now (s.tasks t).start_at then waits else takes t (record s { timers = q })

-- `TimerQueue::Pop`, at the time `now`.
unfoldable pub timer_pop : ℕ → System → Popped
timer_pop now s = timer_front now s.timers s

-- What a thread of the pool does with a task that it took, whose `Run` ends without an exception or with
-- one. What `Run` and `SetError` write is in `Executor.Futures`.
unfoldable pub work : ℕ → Bool → Finishing
work fuel succeeds t s =
    let completes = finish_in completed (λ u s'. on_finished fuel u s') t s in
    let fails = finish_in failed (λ u s'. on_finished fuel u s') t s in
    if has_state canceled (s.tasks t) then some s else if succeeds then completes else fails

-- What the thread of the timer queue does with a task that it took.
unfoldable pub start : ℕ → Finishing
start fuel t s =
    let started = enque (λ u s'. on_finished fuel u s') t s in
    if has_state canceled (s.tasks t) then some s else started

-- `Executor::Submit`.
unfoldable pub submit : ℕ → Finishing
submit fuel t s = elim (submit_task fuel t s) [
  | none ↦ none
  | some s' ↦
      let pushed = timer_push fuel t s' in
      if not (has_state enqueued (s'.tasks t) || is_finished (s'.tasks t))
        && (s'.tasks t).has_time_trigger
      then pushed
      else some s'
]

-- `StartShutdown`.
unfoldable pub start_shutdown : ℕ → System → Option System
unfolding close timer_close
start_shutdown fuel s = elim (close fuel s) [ none ↦ none | some s' ↦ timer_close fuel s' ]
