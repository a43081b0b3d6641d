-- ===== src/Concurrency/Semaphore/Tickets.antt =====
-- semaphore/semaphore.h: the invariant of the tickets.
use cpp_many_tasks.Prelude.{
  ℕ, suc, ◌+◌, ◌≤◌, ◌<◌, ◌≡◌, refl, ◌∙◌, ap, List, [], ◌∷◌, ◌++◌, map, arith, ◌==◌, if◌then◌else◌,
  ltb, leb,
}
use cpp_many_tasks.Prelude.Int.{pos, ◌+ℤ◌, ◌-ℤ◌, ◌≤ℤ◌}
use cpp_many_tasks.Concurrency.Semaphore.{
  Waiter, Semaphore, init, attempt, acquire, decrement, wake, release, Step, Reach, acquires,
  releases, tests, here, later,
}

-- How many threads wait with the ticket `t`.
pub holders : ℕ → List Waiter → ℕ
holders t [] = 0
holders t (w ∷ ws) = (if w.ticket == t then 1 else 0) + holders t ws

holders-append : (t : ℕ) (xs ys : List Waiter) → holders t (xs ++ ys) ≡ holders t xs + holders t ys
unfolding holders
holders-append t [] ys = omega arith
holders-append t (x ∷ xs) ys = omega (arith, holders-append t xs ys)

holders-wake : (t : ℕ) (ws : List Waiter) → holders t (map wake ws) ≡ holders t ws
unfolding holders
holders-wake t [] = refl
holders-wake t (w ∷ ws) = omega (arith, holders-wake t ws)

-- Whether the ticket `t` is given out and not yet served.
abbrev pub outstanding : Semaphore → ℕ → ℕ
outstanding s t = if leb s.executing_pos t then (if ltb t s.jobs_cnt then 1 else 0) else 0

-- Each outstanding ticket is held by exactly one waiting thread and no other ticket is; the count is
-- not negative.
pub record IsTicketed (s : Semaphore) : Type 0 where
  pub served : s.executing_pos ≤ s.jobs_cnt
  pub held : (t : ℕ) → holders t s.waiters ≡ outstanding s t
  pub nonneg : pos 0 ≤ℤ s.count

init-IsTicketed : (n : ℕ) → IsTicketed (init (pos n))
unfolding init holders
init-IsTicketed n = record { served = omega arith; held = λ t. ground arith; nonneg = omega arith }

-- The state before a thread with the ticket `q` tests: `q` is the one ticket that nobody waits with.
record IsTesting (q : ℕ) (s : Semaphore) : Type 0 where
  range : (s.executing_pos ≤ q) × (q < s.jobs_cnt)
  held : (t : ℕ) → holders t s.waiters + (if q == t then 1 else 0) ≡ outstanding s t
  nonneg : pos 0 ≤ℤ s.count

attempt-IsTicketed : (q : ℕ) (s : Semaphore) → IsTesting q s → IsTicketed (attempt decrement q s)
unfolding attempt holders decrement ◌-ℤ◌
attempt-IsTicketed q s h = record {
  served = ground arith;
  held = λ t. ground (arith, h.held t);
  nonneg = ground arith;
}

acquire-IsTicketed : (s : Semaphore) → IsTicketed s → IsTicketed (acquire decrement s)
unfolding acquire
acquire-IsTicketed s v =
    attempt-IsTicketed s.jobs_cnt (record s { jobs_cnt = suc s.jobs_cnt })
      (record { range = ground arith; held = λ t. ground (arith, v.held t); nonneg = v.nonneg })

release-IsTicketed : (s : Semaphore) → IsTicketed s → IsTicketed (release s)
unfolding release ◌+ℤ◌
release-IsTicketed s v = record {
  served = v.served;
  held = λ t. holders-wake t s.waiters ∙ v.held t;
  nonneg = ground arith;
}

tests-IsTicketed :
    (s : Semaphore) (before after : List Waiter) (w : Waiter)
    → s.waiters ≡ before ++ w ∷ after
    → IsTicketed s
    → IsTicketed (attempt decrement w.ticket (record s { waiters = before ++ after }))
unfolding holders
tests-IsTicketed s before after w e v =
    attempt-IsTicketed w.ticket (record s { waiters = before ++ after })
      (record {
        range = ground (arith, split w.ticket, v.held w.ticket);
        held = λ t. ground (arith, split t, rest t, v.held t);
        nonneg = v.nonneg;
      })
  where
    split :
        (t : ℕ)
        → holders t s.waiters
          ≡ holders t before + ((if w.ticket == t then 1 else 0) + holders t after)
    split t = ap (holders t) e ∙ holders-append t before (w ∷ after)

    rest : (t : ℕ) → holders t (before ++ after) ≡ holders t before + holders t after
    rest t = holders-append t before after

Step-IsTicketed : {s t : Semaphore} → Step s t → IsTicketed s → IsTicketed t
Step-IsTicketed (acquires s) v = acquire-IsTicketed s v
Step-IsTicketed (releases s) v = release-IsTicketed s v
Step-IsTicketed (tests s before after w e awake) v = tests-IsTicketed s before after w e v

-- From a count that is not negative, every interleaving of calls and wakeups keeps the count so, and
-- each ticket given out and not yet served is held by exactly one waiting thread.
pub Reach-IsTicketed : (n : ℕ) {s : Semaphore} → Reach (init (pos n)) s → IsTicketed s
Reach-IsTicketed n here = init-IsTicketed n
Reach-IsTicketed n (later r step) = Step-IsTicketed step (Reach-IsTicketed n r)
