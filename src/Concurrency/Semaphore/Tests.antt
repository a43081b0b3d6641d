-- ===== src/Concurrency/Semaphore/Tests.antt =====
-- semaphore: each theorem at a state that meets its conditions.
use cpp_many_tasks.Prelude.{◌≡◌, true}
use cpp_many_tasks.Prelude.Int.{pos}
use cpp_many_tasks.Concurrency.Semaphore.{
  Semaphore, Reach, acquires, releases, here, later, init, acquire, decrement, release, may_run,
}
use cpp_many_tasks.Concurrency.Semaphore.Tickets.{IsTicketed, Reach-IsTicketed}
use cpp_many_tasks.Concurrency.Semaphore.Wakeup.{two_asleep, overslept, awake_count, lost_turn}

abbrev one_waits : Semaphore
one_waits = acquire decrement (acquire decrement (init (pos 1)))

Reach-IsTicketed_example : IsTicketed (release one_waits)
Reach-IsTicketed_example = Reach-IsTicketed 1 (
    later
      (later (later here (acquires (init (pos 1)))) (acquires (acquire decrement (init (pos 1)))))
      (releases one_waits))

lost_turn_example :
    Reach (two_asleep 0 2) (overslept 0 2)
    × (may_run (overslept 0 2) 1 ≡ true)
    × (awake_count (overslept 0 2).waiters ≡ 0)
lost_turn_example = lost_turn 0 2
