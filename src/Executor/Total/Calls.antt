-- ===== src/Executor/Total/Calls.antt =====
-- executor/executor: the calls of the users and of the threads return.
use cpp_many_tasks.Prelude.{
  ℕ, ◌<◌, ◌≡◌, refl, inl, inr, Bool, true, not, some, List, ◌&&◌, ◌||◌, arith, Bool-cases, ◌==◌,
  ltb,
}
use cpp_many_tasks.Executor.{
  TaskStates, rank, created, submitted, enqueued, completed, failed, canceled, System, has_state,
  is_finished, modify, Finishing, finish_in, enque, each, on_finished, submit_task,
}
use cpp_many_tasks.Executor.Threads.{
  close, push_heap, timer_push, timer_close, work, start, submit, start_shutdown,
}
use cpp_many_tasks.Executor.Once.{
  finished-Follows, finish_in-Sound, try_to_enque-Sound, on_finished-Sound,
}
use cpp_many_tasks.Executor.Once.Calls.{close-Follows, submit_state, queue_set}
use cpp_many_tasks.Executor.Total.{
  waiting_bound, Within, Follows-Within, Result, Returns, returning, enque-Returns,
  try_to_enque-Returns, each-Returns, on_finished-Returns,
}

-- All submitted tasks are below n.
abbrev pub IsBounded : ℕ → System → Type 0
IsBounded n s = (t : ℕ) → has_state submitted (s.tasks t) ≡ true → t < n

module _ (n fuel : ℕ) (enough : n < fuel) where
  abbrev again : Finishing
  again t s = on_finished fuel t s

  within : (s : System) → IsBounded n s → Within n fuel s
  within s b = record { bounded = b; few = omega (arith, enough, waiting_bound n s) }

  finish_in-Returns :
      (state : TaskStates)
      → ltb (rank enqueued) (rank state) ≡ true
      → Returns n fuel (finish_in state again)
  unfolding finish_in
  finish_in-Returns state e t s w =
      on_finished-Returns n fuel t (modify t (λ u. record u { state = state }) s) (
        Follows-Within n fuel s (modify t (λ u. record u { state = state }) s)
          (finished-Follows state t s e) w)

  again-Returns : Returns n fuel again
  again-Returns t s w = on_finished-Returns n fuel t s w

  start-Returns : Returns n fuel (start fuel)
  unfolding start
  start-Returns t s w = elim (Bool-cases (has_state canceled (s.tasks t))) [
    | inl h ↦ (s, ground arith)
    | inr h ↦ returning (enque again t s) (ground arith) (
        enque-Returns n fuel again again-Returns t s
          (record { bounded = w.bounded; few = omega (arith, w.few) }))
  ]

  work-Returns : (b : Bool) → Returns n fuel (work fuel b)
  unfolding work
  work-Returns b t s w = elim (Bool-cases (has_state canceled (s.tasks t))) [
    | inl h ↦ (s, ground arith)
    | inr h ↦ elim (Bool-cases b) [
      | inl g ↦
          returning (finish_in completed again t s) (ground arith)
            (finish_in-Returns completed refl t s w)
      | inr g ↦
          returning (finish_in failed again t s) (ground arith)
            (finish_in-Returns failed refl t s w)
    ]
  ]

  cancels :
      (ts : List ℕ) (s : System) → Within n fuel s → Result (each (finish_in canceled again) ts s)
  cancels =
      each-Returns n fuel (finish_in canceled again)
        (finish_in-Sound canceled again refl (on_finished-Sound fuel))
        (finish_in-Returns canceled refl)

  close-Result : (s : System) → Within n fuel s → Result (close fuel s)
  unfolding close
  close-Result s w = elim (Bool-cases s.closed) [
    | inl h ↦ (s, ground arith)
    | inr h ↦
        returning (each (finish_in canceled again) s.queue (record s { closed = true }))
          (ground arith)
          (cancels s.queue (record s { closed = true })
            (Follows-Within n fuel s (record s { closed = true })
              (record { once = λ i. omega arith; submits_none = λ i g. g; stays = λ i g. g }) w))
  ]

  timer_close-Result : (s : System) → Within n fuel s → Result (timer_close fuel s)
  unfolding timer_close
  timer_close-Result s w = elim (Bool-cases s.timers_closed) [
    | inl h ↦ (s, ground arith)
    | inr h ↦
        returning (each (finish_in canceled again) s.timers (record s { timers_closed = true }))
          (ground arith)
          (cancels s.timers (record s { timers_closed = true })
            (Follows-Within n fuel s (record s { timers_closed = true })
              (record { once = λ i. omega arith; submits_none = λ i g. g; stays = λ i g. g }) w))
  ]

  start_shutdown-Result : (s : System) → Within n fuel s → Result (start_shutdown fuel s)
  unfolding start_shutdown
  start_shutdown-Result s w =
      let one = close-Result s w in
      let two =
        timer_close-Result one.0
          (Follows-Within n fuel s one.0 (close-Follows fuel s one.0 one.1) w) in
      returning (timer_close fuel one.0) (ground (arith, one.1)) two

  timer_push-Returns : Returns n fuel (timer_push fuel)
  unfolding timer_push
  timer_push-Returns t s w = elim (Bool-cases s.timers_closed) [
    | inl h ↦
        returning (finish_in canceled again t s) (ground arith)
          (finish_in-Returns canceled refl t s w)
    | inr h ↦ (record s { timers = push_heap s t s.timers }, ground arith)
  ]

  submit_task-Returns :
      (t : ℕ) (s : System)
      → t < n
      → IsBounded n s
      → (s' : System) × (submit_task fuel t s ≡ some s') × IsBounded n s'
  unfolding submit_task modify
  submit_task-Returns t s l b = elim (Bool-cases (has_state created (s.tasks t))) [
    | inl h ↦
        let one = try_to_enque-Returns n fuel again again-Returns t (submit_state t s) (record {
          bounded = after;
          few = omega (arith, enough, waiting_bound n (submit_state t s));
        }) in
        (
          one.0,
          ground (arith, one.1),
          λ i e. after i (
              (try_to_enque-Sound again (on_finished-Sound fuel) t (submit_state t s) one.0
                  one.1).submits_none
                i e),
        )
    | inr h ↦ (queue_set t s, ground arith, λ i e. b i (ground arith))
  ]
    where
      after : IsBounded n (submit_state t s)
      after i e = elim (Bool-cases (i == t)) [
        | inl c ↦ ground (arith, l)
        | inr c ↦ b i (ground arith)
      ]

  submit-Result : (t : ℕ) (s : System) → t < n → IsBounded n s → Result (submit fuel t s)
  unfolding submit
  submit-Result t s l b =
      let one = submit_task-Returns t s l b in
      elim (Bool-cases (
        not (has_state enqueued (one.0.tasks t) || is_finished (one.0.tasks t))
        && (one.0.tasks t).has_time_trigger)) [
          | inl c ↦
              returning (timer_push fuel t one.0) (ground (arith, one.1))
                (timer_push-Returns t one.0 (within one.0 one.2))
          | inr c ↦ (one.0, ground (arith, one.1))
        ]

  -- Where only tasks below n are submitted, and the fuel is above n, each of these calls returns: `Submit`
  -- of a task below n, what a thread of the pool or of the timer queue does with any task, `Cancel` of
  -- any task, and `StartShutdown`.
  pub calls_return :
      (s : System)
      → IsBounded n s
      → ((t : ℕ) → t < n → Result (submit fuel t s))
        × ((succeeds : Bool) (t : ℕ) → Result (work fuel succeeds t s))
        × ((t : ℕ) → Result (start fuel t s))
        × ((t : ℕ) → Result (finish_in canceled (λ u s'. on_finished fuel u s') t s))
        × Result (start_shutdown fuel s)
  calls_return s b = (
    λ t l. submit-Result t s l b,
    λ succeeds t. work-Returns succeeds t s (within s b),
    λ t. start-Returns t s (within s b),
    λ t. finish_in-Returns canceled refl t s (within s b),
    start_shutdown-Result s (within s b),
  )
