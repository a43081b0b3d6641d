-- ===== src/Concurrency/FutexMutex/Tests.antt =====
-- futex/mutex.h: each theorem at a history of two threads.
use cpp_many_tasks.Prelude.{ℕ, ◌≡◌, ◌⊎◌, refl}
use cpp_many_tasks.Concurrency.FutexMutex.{
  inside, sleeps, stores, System, start, begin_lock, begin_unlock, exchange, futex_wait, set, act,
  locks, exchanges_state, falls_asleep, Reach, here, later,
}
use cpp_many_tasks.Concurrency.FutexMutex.Safety.{mutual_exclusion}
use cpp_many_tasks.Concurrency.FutexMutex.Wakeup.{Inside, Alert, sleeper-Cared}

-- Thread 0 is inside, and thread 1 finds the word 1, writes 2 and sleeps.
abbrev first_in : System
first_in = act 0 (begin_lock 0) start

abbrev second_tries : System
second_tries = act 1 (begin_lock first_in.state) first_in

abbrev second_waits : System
second_waits = act 1 (exchange second_tries.state) second_tries

abbrev second_sleeps : System
second_sleeps = act 1 (futex_wait second_waits.state) second_waits

second_sleeps-Reach : Reach second_sleeps
unfolding begin_lock exchange futex_wait act set
second_sleeps-Reach =
    later
      (later (later (later here (locks 0 start refl)) (locks 1 first_in refl))
        (exchanges_state 1 second_tries refl))
      (falls_asleep 1 second_waits refl)

first_inside : second_sleeps.threads 0 ≡ inside
unfolding begin_lock exchange futex_wait act set
first_inside = refl

second_asleep : second_sleeps.threads 1 ≡ sleeps
unfolding begin_lock exchange futex_wait act set
second_asleep = refl

mutual_exclusion_example : ◌≡◌ {A = ℕ} 0 0
mutual_exclusion_example =
    mutual_exclusion second_sleeps 0 0 second_sleeps-Reach first_inside first_inside

sleeper-Cared_example :
    ((second_sleeps.state ≡ 2)
      × ((begin_unlock second_sleeps.state).1 ≡ stores)
      × Inside second_sleeps)
    ⊎ Alert second_sleeps
sleeper-Cared_example = sleeper-Cared second_sleeps 1 second_sleeps-Reach second_asleep
