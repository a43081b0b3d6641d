-- ===== src/Executor/Tests.antt =====
-- executor/executor: each theorem at an executor that meets its conditions.
use cpp_many_tasks.Prelude.{
  ℕ, ◌+◌, ◌^◌, ◌≤◌, ◌<◌, ◌≡◌, refl, Bool, true, Option, none, some, [], ◌∷◌, arith, All, length,
  ◌↔◌, ◌==◌, if◌then◌else◌,
}
use cpp_many_tasks.Executor.{
  System, init, submitted, failed, canceled, has_state, is_finished, modify, finish_in, push, enque,
  try_to_enque, add_depended, add_dependency, set_time_trigger, release_dependency,
  activate_trigger, on_finished, submit_task,
}
use cpp_many_tasks.Executor.Threads.{
  waits, takes, pop, timer_pop, timer_push, close, timer_close, push_heap, work, start, submit,
  start_shutdown,
}
use cpp_many_tasks.Executor.Once.{count, spent}
use cpp_many_tasks.Executor.Once.Reach.{
  History, Step, Reach, initially, next, depends, submits, pops, works, taken-spent,
}
use cpp_many_tasks.Executor.Total.{Result}
use cpp_many_tasks.Executor.Total.Calls.{IsBounded, calls_return}
use cpp_many_tasks.Executor.Dependencies.{is_waiting}
use cpp_many_tasks.Executor.Dependencies.Histories.{counter_zero}
use cpp_many_tasks.Executor.Timer.Order.{SetsOutside, TimelyReach, begins, goes_on, timer_pop_lem}
use cpp_many_tasks.Executor.Futures.{throws, Store, get_error, get, all_results, finished_results}
use cpp_many_tasks.Executor.Futures.Results.{
  outcome, first_where, where_only, has_failed, all_results_lem, finished_results_lem,
}

-- Task 1 depends on task 0.
abbrev linked : System
linked = add_dependency 1 0 init

or_init : Option System → System
or_init none = init
or_init (some s) = s

abbrev submitted_both : System
submitted_both = or_init (submit 3 0 (or_init (submit 3 1 linked)))

abbrev popped : System
popped = record submitted_both { queue = [] }

abbrev worked : System
worked = or_init (work 3 true 0 popped)

abbrev run_once : History
run_once = record { system = worked; taken = 0 ∷ [] }

run_once-Reach : Reach run_once
unfolding submit submit_task try_to_enque enque push finish_in modify add_dependency add_depended
    pop work on_finished release_dependency activate_trigger or_init
run_once-Reach =
    next
      (next
        (next
          (next (next initially (depends 1 0 init []))
            (submits 3 1 linked (or_init (submit 3 1 linked)) [] refl))
          (submits 3 0 (or_init (submit 3 1 linked)) submitted_both [] refl))
        (pops 0 submitted_both popped [] refl))
      (works 3 0 true popped worked (0 ∷ []) refl)

taken-spent_example : count 1 (0 ∷ []) + count 1 worked.queue ≤ spent worked 1
taken-spent_example = taken-spent 1 run_once run_once-Reach

-- The task that depends on the other is in the queue once that one has run.
enqueues : worked.queue ≡ 1 ∷ []
unfolding submit submit_task try_to_enque enque push finish_in modify add_dependency add_depended
    pop work on_finished release_dependency activate_trigger or_init
enqueues = refl

-- A task that waits for another stays submitted if it comes after the shutdown.
abbrev late : System
late = or_init (submit 3 1 (or_init (start_shutdown 3 linked)))

stays_submitted : has_state submitted (late.tasks 1) ≡ true
unfolding submit submit_task try_to_enque modify add_dependency add_depended start_shutdown close
    timer_close or_init
stays_submitted = refl

-- Two tasks with start times in the timer queue.
abbrev timed : System
timed =
    or_init (submit 3 3 (set_time_trigger 3 20 (or_init (submit 3 2 (set_time_trigger 2 30 init)))))

timed-IsBounded : IsBounded 4 timed
unfolding submit submit_task try_to_enque timer_push modify set_time_trigger or_init
timed-IsBounded t e = ground arith

calls_return_example :
    ((t : ℕ) → t < 4 → Result (submit 5 t timed))
    × ((succeeds : Bool) (t : ℕ) → Result (work 5 succeeds t timed))
    × ((t : ℕ) → Result (start 5 t timed))
    × ((t : ℕ) → Result (finish_in canceled (λ u s'. on_finished 5 u s') t timed))
    × Result (start_shutdown 5 timed)
calls_return_example = calls_return 4 5 (omega arith) timed timed-IsBounded

abbrev later : System
later = record timed { timers = 2 ∷ [] }

takes_first : timer_pop 25 timed ≡ takes 3 later
unfolding timer_pop push_heap submit submit_task try_to_enque timer_push modify set_time_trigger
    or_init
takes_first = refl

abbrev timed_history : History
timed_history = record { system = timed; taken = [] }

timed_history-TimelyReach : TimelyReach timed_history
unfolding submit submit_task try_to_enque timer_push push_heap modify set_time_trigger or_init
    SetsOutside count
timed_history-TimelyReach =
    let first : System = set_time_trigger 2 30 init in
    let second : System = or_init (submit 3 2 first) in
    let third : System = set_time_trigger 3 20 second in
    goes_on
      (goes_on
        (goes_on (goes_on begins (Step.timed 2 30 init []) refl) (submits 3 2 first second [] refl)
          tt)
        (Step.timed 3 20 second []) refl)
      (submits 3 3 third timed [] refl) tt

timer_pop_lem_example :
    ((t : ℕ) (s' : System)
      → timer_pop 25 timed ≡ takes t s'
      → ((timed.tasks t).start_at ≤ 25)
        × All (λ u. (timed.tasks t).start_at ≤ (timed.tasks u).start_at) timed.timers
        × ((i : ℕ) → count i timed.timers ≡ count i (t ∷ s'.timers)))
    × (timer_pop 25 timed ≡ waits → All (λ u. 25 < (timed.tasks u).start_at) timed.timers)
timer_pop_lem_example = timer_pop_lem 25 timed_history timed_history-TimelyReach

-- Task 3 gets a later start time while it stands in the queue: `Pop` waits for it, though task 2 is due.
abbrev moved : System
moved = set_time_trigger 3 50 timed

waits_for_moved : timer_pop 40 moved ≡ waits
unfolding timer_pop push_heap submit submit_task try_to_enque timer_push modify set_time_trigger
    or_init
waits_for_moved = refl

other_is_due : (moved.tasks 2).start_at ≤ 40
unfolding submit submit_task try_to_enque timer_push modify set_time_trigger or_init
other_is_due = omega arith

-- Task 0 is completed with 7, and task 1 failed.
abbrev results : Store ℕ ℕ
results = record {
  result = λ t. if t == 0 then 7 else 0;
  error = λ t. if t == 1 then some 5 else none;
}

abbrev ended_both : System
ended_both = or_init (finish_in failed (λ u s. on_finished 3 u s) 1 worked)

ended_both_finished : All (λ t. is_finished (ended_both.tasks t) ≡ true) (0 ∷ 1 ∷ [])
unfolding submit submit_task try_to_enque enque push finish_in modify add_dependency add_depended
    pop work on_finished release_dependency activate_trigger or_init
ended_both_finished = (refl, (refl, tt))

all_results_lem_example :
    all_results 0 (0 ∷ 1 ∷ []) ended_both results
    ≡ outcome 0 (0 ∷ 1 ∷ []) ended_both results (first_where (has_failed ended_both) (0 ∷ 1 ∷ []))
all_results_lem_example = all_results_lem 0 (0 ∷ 1 ∷ []) ended_both results ended_both_finished

finished_results_lem_example :
    finished_results 9 (1 ∷ 0 ∷ []) worked results
    ≡ outcome 9
        (where_only (λ t. is_finished (worked.tasks t)) (1 ∷ 0 ∷ []))
        worked
        results
        (first_where (has_failed worked) (1 ∷ 0 ∷ []))
finished_results_lem_example = finished_results_lem 9 (1 ∷ 0 ∷ []) worked results

throws_error : all_results 0 (0 ∷ 1 ∷ []) ended_both results ≡ throws (some 5)
unfolding submit submit_task try_to_enque enque push finish_in modify add_dependency add_depended
    pop work on_finished release_dependency activate_trigger or_init all_results get get_error
throws_error = refl

abbrev both_submitted : History
both_submitted = record { system = submitted_both; taken = [] }

both_submitted-Reach : Reach both_submitted
unfolding submit submit_task try_to_enque enque push finish_in modify add_dependency add_depended
    or_init
both_submitted-Reach =
    next
      (next (next initially (depends 1 0 init []))
        (submits 3 1 linked (or_init (submit 3 1 linked)) [] refl))
      (submits 3 0 (or_init (submit 3 1 linked)) submitted_both [] refl)

waits_for_other : is_waiting (submitted_both.tasks 1) ≡ true
unfolding submit submit_task try_to_enque enque push finish_in modify add_dependency add_depended
    or_init
waits_for_other = refl

referred_to : (submitted_both.tasks 1).alive ≡ true
unfolding submit submit_task try_to_enque enque push finish_in modify add_dependency add_depended
    or_init
referred_to = refl

one_dependency : length (submitted_both.tasks 1).dependencies < 2 ^ 64
unfolding submit submit_task try_to_enque enque push finish_in modify add_dependency add_depended
    or_init
one_dependency = omega arith

counter_zero_example :
    ((submitted_both.tasks 1).dependencies_cnt ≡ 0)
    ↔ All (λ d. is_finished (submitted_both.tasks d) ≡ true) (submitted_both.tasks 1).dependencies
counter_zero_example =
    counter_zero 1 both_submitted both_submitted-Reach waits_for_other referred_to one_dependency

-- Once the queues are closed and the tasks cancelled, the timer queue still waits for its first task.
abbrev closed_timed : System
closed_timed = or_init (start_shutdown 5 timed)

waits_though_closed : timer_pop 5 closed_timed ≡ waits
unfolding timer_pop push_heap submit submit_task try_to_enque timer_push modify set_time_trigger
    start_shutdown close timer_close finish_in on_finished or_init
waits_though_closed = refl

canceled_already : has_state canceled (closed_timed.tasks 3) ≡ true
unfolding timer_pop push_heap submit submit_task try_to_enque timer_push modify set_time_trigger
    start_shutdown close timer_close finish_in on_finished or_init
canceled_already = refl
