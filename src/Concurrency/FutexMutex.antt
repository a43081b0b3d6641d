-- ===== src/Concurrency/FutexMutex.antt =====
-- futex/mutex.h: `Mutex`, by the word that its threads share and the place of each thread in `Lock` or
-- `Unlock`. A step is one atomic operation or one system call; `FutexWait` may return at any time, and
-- `FutexWake` wakes one thread that sleeps, if there is one, as the comments above them say.
pub mod Safety
pub mod Wakeup
mod Tests
use cpp_many_tasks.Prelude.{ℕ, ◌-◌, ◌≡◌, ◌≢◌, Bool, true, false, ◌==◌, if◌then◌else◌}

-- Where a thread is: outside, before an exchange of `Lock`, before `FutexWait`, asleep in it, inside, before
-- the store of `Unlock`, or before `FutexWake`.
pub data Phase : Type 0 where
  outside exchanges waits sleeps inside stores wakes : Phase

-- `Lock` up to its first exchange, or to its end or its loop if there is none.
pub begin_lock : ℕ → ℕ × Phase
begin_lock state =
    if state == 0 then (1, inside) else if state == 2 then (state, waits) else (state, exchanges)

-- An exchange of `Lock` and the test of the loop.
pub exchange : ℕ → ℕ × Phase
exchange state = if state == 0 then (2, inside) else (2, waits)

-- `FutexWait(&state_, 2)`.
pub futex_wait : ℕ → ℕ × Phase
futex_wait state = if state == 2 then (state, sleeps) else (state, exchanges)

-- `Unlock` up to the store, or to its end; the word is not 0 while a thread is inside.
pub begin_unlock : ℕ → ℕ × Phase
begin_unlock state = if state == 1 then (state - 1, outside) else (state - 1, stores)

pub store : ℕ → ℕ × Phase
store state = (0, wakes)

pub record System : Type 0 where
  pub state : ℕ
  pub threads : ℕ → Phase

abbrev pub start : System
start = record { state = 0; threads = λ t. outside }

pub set : ℕ → Phase → (ℕ → Phase) → ℕ → Phase
set t p threads u = if u == t then p else threads u

-- A thread that does an operation on the word.
pub act : ℕ → ℕ × Phase → System → System
unfolding set
act t (state, p) s = record { state = state; threads = set t p s.threads }

pub data Step : System → System → Type 0 where
  locks : (t : ℕ) (s : System) → s.threads t ≡ outside → Step s (act t (begin_lock s.state) s)
  exchanges_state :
      (t : ℕ) (s : System) → s.threads t ≡ exchanges → Step s (act t (exchange s.state) s)
  falls_asleep : (t : ℕ) (s : System) → s.threads t ≡ waits → Step s (act t (futex_wait s.state) s)
  returns_early :
      (t : ℕ) (s : System) → s.threads t ≡ sleeps → Step s (act t (s.state, exchanges) s)
  unlocks : (t : ℕ) (s : System) → s.threads t ≡ inside → Step s (act t (begin_unlock s.state) s)
  stores_state : (t : ℕ) (s : System) → s.threads t ≡ stores → Step s (act t (store s.state) s)
  wakes_one :
      (t u : ℕ) (s : System)
      → s.threads t ≡ wakes
      → s.threads u ≡ sleeps
      → Step s (act t (s.state, outside) (act u (s.state, exchanges) s))
  wakes_none :
      (t : ℕ) (s : System)
      → s.threads t ≡ wakes
      → ((u : ℕ) → s.threads u ≢ sleeps)
      → Step s (act t (s.state, outside) s)

pub data Reach : System → Type 0 where
  here : Reach start
  later : {s s' : System} → Reach s → Step s s' → Reach s'
