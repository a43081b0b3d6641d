-- ===== src/Concurrency/Semaphore/Wakeup.antt =====
-- semaphore/semaphore.h: `Acquire` moves `executing_pos_` on without a notification.
use mathlib.Core.Path.{subst}
use cpp_many_tasks.Prelude.{
  ℕ, suc, ◌+◌, ◌≡◌, refl, Bool, true, false, List, [], ◌∷◌, ◌++◌, arith, if◌then◌else◌,
}
use cpp_many_tasks.Prelude.Int.{ℤ, pos, ◌+ℤ◌, ◌-ℤ◌}
use cpp_many_tasks.Concurrency.Semaphore.{
  Waiter, Semaphore, may_run, attempt, decrement, release, Step, Reach, releases, tests, here,
  later,
}

-- The tickets `p` and `p + 1` wait.
abbrev waiting : ℤ → ℕ → ℕ → Bool → Bool → Semaphore
waiting n p jobs first second = record {
  count = n;
  executing_pos = p;
  jobs_cnt = jobs;
  waiters = record { ticket = suc p; asleep = second } ∷ record { ticket = p; asleep = first } ∷ [];
}

abbrev pub two_asleep : ℕ → ℕ → Semaphore
two_asleep p jobs = waiting (pos 0) p jobs true true

-- One thread sleeps with the ticket that is next, and the count is 1.
abbrev pub overslept : ℕ → ℕ → Semaphore
overslept p jobs = record {
  count = pos 1;
  executing_pos = suc p;
  jobs_cnt = jobs;
  waiters = record { ticket = suc p; asleep = true } ∷ [];
}

tests_to :
    {s t : Semaphore} (before after : List Waiter) (w : Waiter)
    → s.waiters ≡ before ++ w ∷ after
    → w.asleep ≡ false
    → attempt decrement w.ticket (record s { waiters = before ++ after }) ≡ t
    → Step s t
tests_to {s} before after w e awake eq = subst (Step s) eq (tests s before after w e awake)

release_twice :
    (p jobs : ℕ) → release (release (two_asleep p jobs)) ≡ waiting (pos 2) p jobs false false
unfolding release ◌+ℤ◌
release_twice p jobs = refl

second_sleeps :
    (p jobs : ℕ) → Step (waiting (pos 2) p jobs false false) (waiting (pos 2) p jobs false true)
unfolding attempt
second_sleeps p jobs =
    tests_to [] (record { ticket = p; asleep = false } ∷ [])
      (record { ticket = suc p; asleep = false }) refl refl (ground arith)

first_passes : (p jobs : ℕ) → Step (waiting (pos 2) p jobs false true) (overslept p jobs)
unfolding attempt decrement ◌-ℤ◌
first_passes p jobs =
    tests_to (record { ticket = suc p; asleep = true } ∷ []) []
      (record { ticket = p; asleep = false }) refl refl (ground arith)

released : (p jobs : ℕ) → Reach (two_asleep p jobs) (waiting (pos 2) p jobs false false)
released p jobs =
    subst (Reach (two_asleep p jobs)) (release_twice p jobs)
      (later (later here (releases (two_asleep p jobs))) (releases (release (two_asleep p jobs))))

-- How many of the waiting threads are awake and about to test.
pub awake_count : List Waiter → ℕ
awake_count [] = 0
awake_count (w ∷ ws) = (if w.asleep then 0 else 1) + awake_count ws

-- Where the next two tickets sleep on a count of zero, two releases may let only one of them
-- through: if the second tests before the first has passed, it goes back to sleep, and its turn
-- comes unnoticed. Its test would hold then, but it sleeps, and no other thread is awake to test.
pub lost_turn :
    (p jobs : ℕ)
    → Reach (two_asleep p jobs) (overslept p jobs)
      × (may_run (overslept p jobs) (suc p) ≡ true)
      × (awake_count (overslept p jobs).waiters ≡ 0)
unfolding awake_count
lost_turn p jobs = (
  later (later (released p jobs) (second_sleeps p jobs)) (first_passes p jobs),
  ground arith,
  refl,
)
