-- ===== src/Concurrency/FutexMutex/Wakeup.antt =====
-- futex/mutex.h: no wakeup is lost.
use mathlib.Core.Path.{subst}
use cpp_many_tasks.Prelude.{
  ℕ, ◌≡◌, ◌≢◌, ◌⊎◌, refl, inl, inr, Bool, true, false, arith, Bool-cases, ◌==◌,
}
use cpp_many_tasks.Concurrency.FutexMutex.{
  Phase, outside, exchanges, inside, sleeps, stores, wakes, System, begin_lock, exchange,
  futex_wait, begin_unlock, store, set, act, Step, locks, exchanges_state, falls_asleep,
  returns_early, unlocks, stores_state, wakes_one, wakes_none, Reach, here, later,
}
use cpp_many_tasks.Concurrency.FutexMutex.Safety.{holds}

-- A thread that will write 2 to the word, or wake a thread that sleeps.
abbrev pub is_alert : Phase → Bool
is_alert exchanges = true
is_alert stores = true
is_alert wakes = true
is_alert _ = false

-- Some thread is inside.
abbrev pub Inside : System → Type 0
Inside s = (u : ℕ) × (s.threads u ≡ inside)

abbrev pub Alert : System → Type 0
Alert s = (u : ℕ) × (is_alert (s.threads u) ≡ true)

-- The word is 2 or some thread is alert.
abbrev Cared : System → Type 0
Cared s = (s.state ≡ 2) ⊎ Alert s

abbrev CaredIfAsleep : System → Type 0
CaredIfAsleep s = (t : ℕ) → s.threads t ≡ sleeps → Cared s

-- An operation of a thread keeps it so if nothing else than the thread itself was, or is now, what
-- is counted on.
acts :
    (t : ℕ) (x : ℕ × Phase) (s : System)
    → (s.state ≡ 2 → (x.0 ≡ 2) ⊎ (is_alert x.1 ≡ true))
    → (is_alert (s.threads t) ≡ true → (x.0 ≡ 2) ⊎ (is_alert x.1 ≡ true))
    → Cared s
    → Cared (act t x s)
unfolding act set
acts t x s word thread (inl e) = elim (word e) [ inl f ↦ inl f | inr f ↦ inr (t, ground arith) ]
acts t x s word thread (inr (u, e)) = elim (Bool-cases (u == t)) [
  | inl c ↦
      let same : u ≡ t = ground arith in
      elim (thread (subst (λ i. is_alert (s.threads i) ≡ true) same e)) [
        | inl f ↦ inl f
        | inr f ↦ inr (t, ground arith)
      ]
  | inr c ↦ inr (u, rw c e)
]

-- A thread that does not go to sleep leaves those asleep that were.
asleep_before :
    (t i : ℕ) (x : ℕ × Phase) (s : System)
    → x.1 ≢ sleeps
    → (act t x s).threads i ≡ sleeps
    → s.threads i ≡ sleeps
unfolding act set
asleep_before t i x s n e = elim (Bool-cases (i == t)) [
  | inl c ↦ absurd (n (ground arith))
  | inr c ↦ ground arith
]

steps :
    (t : ℕ) (x : ℕ × Phase) (s : System)
    → x.1 ≢ sleeps
    → (s.state ≡ 2 → (x.0 ≡ 2) ⊎ (is_alert x.1 ≡ true))
    → (is_alert (s.threads t) ≡ true → (x.0 ≡ 2) ⊎ (is_alert x.1 ≡ true))
    → CaredIfAsleep s
    → CaredIfAsleep (act t x s)
steps t x s n word thread v i e = acts t x s word thread (v i (asleep_before t i x s n e))

Step-Cared : {s s' : System} → Step s s' → CaredIfAsleep s → CaredIfAsleep s'
unfolding begin_lock exchange futex_wait begin_unlock store act set
Step-Cared (locks t s e) v =
    steps t (begin_lock s.state) s (λ h. ground arith) (λ h. inl (ground arith)) (λ h. ground arith)
      v
Step-Cared (exchanges_state t s e) v =
    steps t (exchange s.state) s (λ h. ground arith) (λ h. inl (ground arith))
      (λ h. inl (ground arith)) v
Step-Cared (falls_asleep t s e) v = λ i h. elim (Bool-cases (s.state == 2)) [
  | inl c ↦ inl (ground arith)
  | inr c ↦ inr (t, ground arith)
]
Step-Cared (returns_early t s e) v =
    steps t (s.state, exchanges) s (λ h. ground arith) (λ h. inr refl) (λ h. inr refl) v
Step-Cared (unlocks t s e) v =
    steps t (begin_unlock s.state) s (λ h. ground arith) (λ h. inr (ground arith))
      (λ h. ground arith) v
Step-Cared (stores_state t s e) v =
    steps t (store s.state) s (λ h. ground arith) (λ h. inr refl) (λ h. inr refl) v
Step-Cared (wakes_one t u s e f) v = λ i h. inr (u, awake)
  where
    awake : is_alert ((act t (s.state, outside) (act u (s.state, exchanges) s)).threads u) ≡ true
    awake = elim (Bool-cases (u == t)) [
      | inl c ↦
          let same : u ≡ t = ground arith in
          absurd (ground (arith, subst (λ j. s.threads j ≡ sleeps) same f))
      | inr c ↦ ground arith
    ]
Step-Cared (wakes_none t s e f) v =
    λ i h. absurd (f i (asleep_before t i (s.state, outside) s (λ g. ground arith) h))

-- The word is 0, or a thread holds the mutex, which it does until the store of `Unlock`, or the decrement to 0.
abbrev Held : System → Type 0
Held s = (s.state ≡ 0) ⊎ ((u : ℕ) × (holds (s.threads u) ≡ true))

-- An operation keeps it so if it leaves the word 0 or the thread a holder, where either is counted on.
act-Held :
    (t : ℕ) (x : ℕ × Phase) (s : System)
    → (s.state ≡ 0 → (x.0 ≡ 0) ⊎ (holds x.1 ≡ true))
    → (holds (s.threads t) ≡ true → (x.0 ≡ 0) ⊎ (holds x.1 ≡ true))
    → Held s
    → Held (act t x s)
unfolding act set
act-Held t x s word thread (inl e) = elim (word e) [ inl f ↦ inl f | inr f ↦ inr (t, ground arith) ]
act-Held t x s word thread (inr (i, e)) = elim (Bool-cases (i == t)) [
  | inl c ↦
      let same : i ≡ t = ground arith in
      elim (thread (subst (λ j. holds (s.threads j) ≡ true) same e)) [
        | inl f ↦ inl f
        | inr f ↦ inr (t, ground arith)
      ]
  | inr c ↦ inr (i, rw c e)
]

Step-Held : {s s' : System} → Step s s' → Held s → Held s'
unfolding begin_lock exchange futex_wait begin_unlock store act set
Step-Held (locks t s e) v =
    act-Held t (begin_lock s.state) s (λ h. ground arith) (λ h. absurd (ground arith)) v
Step-Held (exchanges_state t s e) v =
    act-Held t (exchange s.state) s (λ h. ground arith) (λ h. absurd (ground arith)) v
Step-Held (falls_asleep t s e) v =
    act-Held t (futex_wait s.state) s (λ h. inl (ground arith)) (λ h. absurd (ground arith)) v
Step-Held (returns_early t s e) v =
    act-Held t (s.state, exchanges) s (λ h. inl h) (λ h. absurd (ground arith)) v
Step-Held (unlocks t s e) v =
    act-Held t (begin_unlock s.state) s (λ h. ground arith) (λ h. ground arith) v
Step-Held (stores_state t s e) v = act-Held t (store s.state) s (λ h. inl refl) (λ h. inl refl) v
Step-Held (wakes_one t u s e f) v =
    act-Held t (s.state, outside) (act u (s.state, exchanges) s) (λ h. inl h)
      (λ h. absurd (elim (Bool-cases (t == u)) [ inl c ↦ ground arith | inr c ↦ ground arith ]))
      (act-Held u (s.state, exchanges) s (λ h. inl h) (λ h. absurd (ground arith)) v)
Step-Held (wakes_none t s e f) v =
    act-Held t (s.state, outside) s (λ h. inl h) (λ h. absurd (ground arith)) v

Reach-Held : {s : System} → Reach s → Held s
Reach-Held here = inl refl
Reach-Held (later r x) = Step-Held x (Reach-Held r)

asleep-Cared : (s : System) (t : ℕ) → Reach s → s.threads t ≡ sleeps → Cared s
asleep-Cared s t here e = ground arith
asleep-Cared s t (later {s = r} x y) e = Step-Cared y (λ i f. asleep-Cared r i x f) t e

-- Who holds the mutex is inside, or about to store, which is alert.
holder-Inside : (s : System) (u : ℕ) → holds (s.threads u) ≡ true → Inside s ⊎ Alert s
holder-Inside s u e = go (s.threads u) refl
  where
    go : (p : Phase) → s.threads u ≡ p → Inside s ⊎ Alert s
    go inside f = inl (u, f)
    go stores f = inr (u, rw f refl)
    go p f = absurd (ground arith)

-- In every interleaving of any number of threads: while a thread sleeps in `FutexWait`, the word is 2 and
-- some thread is inside the mutex, whose `Unlock` then goes on to its store and not to its end, or some
-- thread is about to write 2 to the word, to store 0 and then call `FutexWake`, or to call it.
pub sleeper-Cared :
    (s : System) (t : ℕ)
    → Reach s
    → s.threads t ≡ sleeps
    → ((s.state ≡ 2) × ((begin_unlock s.state).1 ≡ stores) × Inside s) ⊎ Alert s
unfolding begin_unlock
sleeper-Cared s t r e = elim (asleep-Cared s t r e) [
  | inl two ↦ elim (Reach-Held r) [
    | inl free ↦ absurd (ground arith)
    | inr (u, h) ↦ elim (holder-Inside s u h) [ inl i ↦ inl (two, ground arith, i) | inr a ↦ inr a ]
  ]
  | inr a ↦ inr a
]
