-- ===== src/Concurrency/TimerQueue.antt =====
-- timerqueue/timerqueue.h: `TimerQueue`. `queue_` is a `std::map` with the time as its key: a list
-- with growing times. Time points are numbers of seconds, and the clock an argument.
pub mod Order
mod Tests
use cpp_many_tasks.Prelude.{
  ℕ, ◌+◌, ◌≡◌, Bool, true, false, ◌||◌, Option, none, some, List, [], ◌∷◌, ltb, leb, ◌==◌,
  if◌then◌else◌,
}

module _ {ℓ} {T : Type ℓ} where
  -- `queue_.emplace`: nothing happens if the time is taken.
  pub add : ℕ → T → List (ℕ × T) → List (ℕ × T)
  add at' value [] = (at', value) ∷ []
  add at' value ((t, v) ∷ q) =
      if ltb at' t
      then (at', value) ∷ (t, v) ∷ q
      else if at' == t
      then (t, v) ∷ q
      else (t, v) ∷ add at' value q

  -- Until when `Pop` waits at most, fixed when it is called.
  abbrev pub deadline : ℕ → List (ℕ × T) → ℕ
  deadline now [] = now + 10
  deadline now ((t, v) ∷ q) = t

  abbrev pub is_due : ℕ → List (ℕ × T) → Bool
  is_due now [] = false
  is_due now ((t, v) ∷ q) = leb t now

  -- Whether `wait_until` may return at the time `now` with the queue `q`.
  pub may_return : ℕ → ℕ → List (ℕ × T) → Bool
  may_return limit now q = is_due now q || leb limit now

  -- What `Pop` does then; `none` is undefined behaviour, an access through `end()`.
  pub take_first : List (ℕ × T) → Option (T × List (ℕ × T))
  take_first [] = none
  take_first ((t, v) ∷ q) = some (v, q)

  -- A call of `Pop` that begins at `called` with the queue `before`, and ends at `now` with the
  -- queue that it then finds.
  pub pop : ℕ → List (ℕ × T) → ℕ → List (ℕ × T) → Option (Option (T × List (ℕ × T)))
  unfolding may_return take_first
  pop called before now q =
      if may_return (deadline called before) now q then some (take_first q) else none
