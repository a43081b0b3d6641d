-- ===== src/Concurrency/FutexMutex/Safety.antt =====
-- futex/mutex.h: at most one thread is inside.
use cpp_many_tasks.Prelude.{ℕ, ◌≡◌, ◌⊎◌, refl, inl, inr, Bool, true, false, arith, Bool-cases, ◌==◌}
use cpp_many_tasks.Concurrency.FutexMutex.{
  Phase, outside, exchanges, inside, stores, System, begin_lock, exchange, futex_wait, begin_unlock,
  store, set, act, Step, locks, exchanges_state, falls_asleep, returns_early, unlocks, stores_state,
  wakes_one, wakes_none, Reach, here, later,
}

-- The mutex is held until the store, or the decrement to 0.
abbrev pub holds : Phase → Bool
holds inside = true
holds stores = true
holds _ = false

-- The word is 0 only if no thread holds the mutex, and no two threads do.
record IsHeldOnce (s : System) : Type 0 where
  pub free : (t : ℕ) → s.state ≡ 0 → holds (s.threads t) ≡ false
  pub alone : (t u : ℕ) → holds (s.threads t) ≡ true → holds (s.threads u) ≡ true → t ≡ u

-- What an operation may do: nothing new is held, or the mutex was free and is taken, or it is held before
-- and afterwards given back.
keeps-IsHeldOnce :
    (t : ℕ) (x : ℕ × Phase) (s : System)
    → (holds x.1 ≡ true → (s.state ≡ 0) ⊎ (holds (s.threads t) ≡ true))
    → (x.0 ≡ 0 → (holds x.1 ≡ false) × ((s.state ≡ 0) ⊎ (holds (s.threads t) ≡ true)))
    → IsHeldOnce s
    → IsHeldOnce (act t x s)
unfolding act set
keeps-IsHeldOnce t x s take give v = record {
  free = λ i e. elim (Bool-cases (i == t)) [
    | inl c ↦ rw c (give e).0
    | inr c ↦ rw c (freed i c (give e).1)
  ];
  alone = λ i j e f. elim (Bool-cases (i == t)) [
    | inl c ↦ elim (Bool-cases (j == t)) [
      | inl d ↦ ground arith
      | inr d ↦ ground (arith, other j (ground arith) (ground arith))
    ]
    | inr c ↦ elim (Bool-cases (j == t)) [
      | inl d ↦ ground (arith, other i (ground arith) (ground arith))
      | inr d ↦ v.alone i j (ground arith) (ground arith)
    ]
  ];
}
  where
    freed :
        (i : ℕ)
        → (i == t) ≡ false
        → (s.state ≡ 0) ⊎ (holds (s.threads t) ≡ true)
        → holds (s.threads i) ≡ false
    freed i c (inl e) = v.free i e
    freed i c (inr h) = elim (Bool-cases (holds (s.threads i))) [
      | inl f ↦ let same : i ≡ t = v.alone i t f h in absurd (ground arith)
      | inr f ↦ f
    ]

    other : (j : ℕ) → holds x.1 ≡ true → holds (s.threads j) ≡ true → t ≡ j
    other j h f = elim (take h) [
      | inl e ↦ let g = v.free j e in absurd (ground arith)
      | inr g ↦ v.alone t j g f
    ]

-- A thread that neither held the mutex nor holds it afterwards, while the word stays.
moves-IsHeldOnce :
    (t : ℕ) (p : Phase) (s : System)
    → holds p ≡ false
    → IsHeldOnce s
    → IsHeldOnce (act t (s.state, p) s)
moves-IsHeldOnce t p s h v =
    keeps-IsHeldOnce t (s.state, p) s (λ e. absurd (ground arith)) (λ e. (h, inl e)) v

Step-IsHeldOnce : {s s' : System} → Step s s' → IsHeldOnce s → IsHeldOnce s'
unfolding begin_lock exchange futex_wait begin_unlock store act
Step-IsHeldOnce (locks t s e) v =
    keeps-IsHeldOnce t (begin_lock s.state) s (λ h. inl (ground arith)) (λ h. absurd (ground arith))
      v
Step-IsHeldOnce (exchanges_state t s e) v =
    keeps-IsHeldOnce t (exchange s.state) s (λ h. inl (ground arith)) (λ h. absurd (ground arith)) v
Step-IsHeldOnce (falls_asleep t s e) v =
    keeps-IsHeldOnce t (futex_wait s.state) s (λ h. absurd (ground arith))
      (λ h. (ground arith, inl (ground arith))) v
Step-IsHeldOnce (returns_early t s e) v = moves-IsHeldOnce t exchanges s refl v
Step-IsHeldOnce (unlocks t s e) v =
    let h : holds (s.threads t) ≡ true = rw e refl in
    keeps-IsHeldOnce t (begin_unlock s.state) s (λ g. inr h)
      (λ g. (ground (arith, v.free t), inr h)) v
Step-IsHeldOnce (stores_state t s e) v =
    let h : holds (s.threads t) ≡ true = rw e refl in
    keeps-IsHeldOnce t (store s.state) s (λ g. inr h) (λ g. (refl, inr h)) v
Step-IsHeldOnce (wakes_one t u s e f) v =
    moves-IsHeldOnce t outside (act u (s.state, exchanges) s) refl
      (moves-IsHeldOnce u exchanges s refl v)
Step-IsHeldOnce (wakes_none t s e f) v = moves-IsHeldOnce t outside s refl v

Reach-IsHeldOnce : {s : System} → Reach s → IsHeldOnce s
Reach-IsHeldOnce here = record { free = λ t e. refl; alone = λ t u e f. absurd (ground arith) }
Reach-IsHeldOnce (later r x) = Step-IsHeldOnce x (Reach-IsHeldOnce r)

-- In every interleaving of any number of threads two threads that are inside are one.
pub mutual_exclusion :
    (s : System) (t u : ℕ) → Reach s → s.threads t ≡ inside → s.threads u ≡ inside → t ≡ u
mutual_exclusion s t u r e f = (Reach-IsHeldOnce r).alone t u (rw e refl) (rw f refl)
