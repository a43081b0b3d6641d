-- ===== src/Concurrency/Semaphore.antt =====
-- semaphore/semaphore.h: `Semaphore`. A call of `Acquire` is a ticket; its first test comes in one
-- critical section with taking the ticket, each later one after a wakeup, which only a notification
-- brings. `count_` does not wrap.
pub mod Tickets
pub mod Wakeup
mod Tests
use cpp_many_tasks.Prelude.{
  ℕ, suc, ◌≡◌, Bool, true, false, ◌&&◌, not, List, [], ◌∷◌, ◌++◌, map, ◌==◌, if◌then◌else◌,
}
use cpp_many_tasks.Prelude.Int.{ℤ, pos, negsuc, ◌+ℤ◌, ◌-ℤ◌}

-- A thread inside `cv_.wait`: asleep, or woken and about to test.
pub record Waiter : Type 0 where
  pub ticket : ℕ
  pub asleep : Bool

pub record Semaphore : Type 0 where
  pub count : ℤ
  pub executing_pos : ℕ
  pub jobs_cnt : ℕ
  pub waiters : List Waiter

pub init : ℤ → Semaphore
init n = record { count = n; executing_pos = 0; jobs_cnt = 0; waiters = [] }

abbrev pub is_zero : ℤ → Bool
is_zero (pos n) = n == 0
is_zero (negsuc n) = false

-- The predicate of the wait, for the thread with the ticket `query_pos`.
abbrev pub may_run : Semaphore → ℕ → Bool
may_run s query_pos = not (is_zero s.count) && query_pos == s.executing_pos

-- The test under the mutex: the thread runs the callback and leaves, or goes to sleep.
pub attempt : (ℤ → ℤ) → ℕ → Semaphore → Semaphore
attempt callback query_pos s =
    if may_run s query_pos
    then record s { count = callback s.count; executing_pos = suc s.executing_pos }
    else record s { waiters = record { ticket = query_pos; asleep = true } ∷ s.waiters }

pub acquire : (ℤ → ℤ) → Semaphore → Semaphore
acquire callback s = attempt callback s.jobs_cnt (record s { jobs_cnt = suc s.jobs_cnt })

-- The callback of `Acquire` without one.
pub decrement : ℤ → ℤ
decrement n = n -ℤ pos 1

abbrev pub wake : Waiter → Waiter
wake w = record w { asleep = false }

pub release : Semaphore → Semaphore
release s = record s { count = s.count +ℤ pos 1; waiters = map wake s.waiters }

-- A step of some thread: a call of `Acquire` or `Release`, or the test of a woken thread.
pub data Step : Semaphore → Semaphore → Type 0 where
  acquires : (s : Semaphore) → Step s (acquire decrement s)
  releases : (s : Semaphore) → Step s (release s)
  tests :
      (s : Semaphore) (before after : List Waiter) (w : Waiter)
      → s.waiters ≡ before ++ w ∷ after
      → w.asleep ≡ false
      → Step s (attempt decrement w.ticket (record s { waiters = before ++ after }))

pub data Reach (s : Semaphore) : Semaphore → Type 0 where
  here : Reach s s
  later : {t u : Semaphore} → Reach s t → Step t u → Reach s u
