-- ===== src/Concurrency/TimerQueue/Tests.antt =====
-- timerqueue: each theorem at a queue that meets its conditions.
use cpp_many_tasks.Prelude.{ℕ, ◌<◌, ◌≤◌, ◌≡◌, Option, some, List, [], ◌∷◌, All}
use cpp_many_tasks.Concurrency.TimerQueue.{add, pop}
use cpp_many_tasks.Concurrency.TimerQueue.Order.{Reach, initially, adds, add_all, pop_due}

-- A value at 5 and one at 3; while `Pop` waits for 3, one at 2 is added.
abbrev two : List (ℕ × ℕ)
two = (3, 30) ∷ (5, 50) ∷ []

two-Reach : Reach two
unfolding add
two-Reach = adds 3 30 ((5, 50) ∷ []) (adds 5 50 [] initially)

pop_due_example :
    (u : ℕ) × (w : ℕ) × (rest : List (ℕ × ℕ)) × (add_all ((2, 20) ∷ []) two ≡ (u, w) ∷ rest)
    × (u ≤ 3)
    × All (λ (e : ℕ × ℕ). u < e.0) rest
    × ((r : Option (ℕ × List (ℕ × ℕ)))
        → pop 1 two 4 (add_all ((2, 20) ∷ []) two) ≡ some r
        → (r ≡ some (w, rest)) × (u ≤ 4))
    × (u ≤ 4 → pop 1 two 4 (add_all ((2, 20) ∷ []) two) ≡ some (some (w, rest)))
pop_due_example = pop_due 1 4 3 30 ((5, 50) ∷ []) ((2, 20) ∷ []) two-Reach
