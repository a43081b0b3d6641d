-- ===== src/Concurrency/RwLock/Tests.antt =====
-- rw-lock: each theorem at a state that meets its conditions.
use cpp_many_tasks.Prelude.{ℕ, refl, arith}
use cpp_many_tasks.Concurrency.RwLock.{
  RwLock, init, begins_write, enters_write, here, later, IsExclusive, Reach-IsExclusive,
  enter_write, begin_write,
}

abbrev inside : ℕ → ℕ → ℕ → ℕ → RwLock
inside r w br bw = record {
  readers_cnt = r;
  writers_cnt = w;
  blocked_readers_cnt = br;
  blocked_writers_cnt = bw;
}

Reach-IsExclusive_example : IsExclusive (inside 0 1 0 0)
unfolding init begin_write enter_write
Reach-IsExclusive_example = Reach-IsExclusive (
    later (later here (begins_write init))
      (enters_write (inside 0 0 0 1) (inside 0 1 0 0) (omega arith) refl))
