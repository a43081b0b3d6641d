-- ===== src/Concurrency/RwSpinLock/Tests.antt =====
-- rw-spinlock: each theorem at a state that meets its conditions.
use cpp_many_tasks.Prelude.{refl, arith}
use cpp_many_tasks.Concurrency.RwSpinLock.{
  start, locks_read, here, later, lock_read, compare_exchange, IsCounted, Reach-IsCounted,
}

Reach-IsCounted_example : IsCounted 4 (record { word = 2; readers = 1; writers = 0 })
unfolding lock_read compare_exchange
Reach-IsCounted_example =
    Reach-IsCounted (omega arith) (later here (locks_read start 0 2 (omega arith) refl))
