-- ===== src/Concurrency/RwSpinLock.antt =====
-- rw-spinlock/rw_spinlock.h: `RWSpinLock`. `rw_lock_` is a 32-bit word; a step is one atomic
-- operation that changes it, and a loop that fails its exchange changes nothing and tries again.
mod Tests
use cpp_many_tasks.Prelude.{
  ℕ, suc, ◌+◌, ◌-◌, ◌*◌, ◌/◌, ◌%◌, ◌^◌, ◌≤◌, ◌<◌, ◌≡◌, refl, ◌⊎◌, inl, inr, Option, none, some,
  arith, ◌==◌, if◌then◌else◌,
}

abbrev u32 : ℕ → ℕ
u32 n = n % 2 ^ 32

-- `compare_exchange` of the word: the new word, `none` if it was not the expected one.
pub compare_exchange : ℕ → ℕ → ℕ → Option ℕ
compare_exchange expected desired word = if word == expected then some desired else none

-- A round of `LockRead` whose local `lock` was read as `seen`.
pub lock_read : ℕ → ℕ → Option ℕ
unfolding compare_exchange
lock_read seen word =
    let lock = u32 (seen / 2 * 2) in compare_exchange lock (u32 ((lock / 2 + 1) * 2)) word

-- A round of `UnlockRead`; the subtraction wraps.
pub unlock_read : ℕ → ℕ → Option ℕ
unfolding compare_exchange
unlock_read seen word = compare_exchange seen (u32 (u32 (seen / 2 + 2 ^ 32 - 1) * 2)) word

-- A round of `LockWrite`.
pub lock_write : ℕ → Option ℕ
unfolding compare_exchange
lock_write word = compare_exchange 0 1 word

pub unlock_write : ℕ → ℕ
unlock_write word = 0

-- The word, and how many threads are inside as readers and as writers.
pub record System : Type 0 where
  pub word : ℕ
  pub readers : ℕ
  pub writers : ℕ

abbrev pub start : System
start = record { word = 0; readers = 0; writers = 0 }

-- With `n` threads, each inside at most once; only a thread that is inside unlocks.
pub data Step (n : ℕ) : System → System → Type 0 where
  locks_read :
      (s : System) (seen w : ℕ)
      → s.readers + s.writers < n
      → lock_read seen s.word ≡ some w
      → Step n s (record s { word = w; readers = suc s.readers })
  unlocks_read :
      (s : System) (seen w : ℕ)
      → 0 < s.readers
      → unlock_read seen s.word ≡ some w
      → Step n s (record s { word = w; readers = s.readers - 1 })
  locks_write :
      (s : System) (w : ℕ)
      → s.readers + s.writers < n
      → lock_write s.word ≡ some w
      → Step n s (record s { word = w; writers = suc s.writers })
  unlocks_write :
      (s : System)
      → 0 < s.writers
      → Step n s (record s { word = unlock_write s.word; writers = s.writers - 1 })

pub data Reach (n : ℕ) : System → Type 0 where
  here : Reach n start
  later : {s t : System} → Reach n s → Step n s t → Reach n t

-- The word says who is inside, and a writer is inside alone.
pub record IsCounted (n : ℕ) (s : System) : Type 0 where
  pub counted : s.word ≡ 2 * s.readers + s.writers
  pub alone : ((s.writers ≡ 0) × (s.readers ≤ n)) ⊎ ((s.writers ≡ 1) × (s.readers ≡ 0))

Step-IsCounted : {n : ℕ} {s t : System} → n < 2 ^ 31 → Step n s t → IsCounted n s → IsCounted n t
unfolding lock_read unlock_read lock_write unlock_write
Step-IsCounted few (locks_read s seen w room e) v = ground arith
Step-IsCounted few (unlocks_read s seen w inside e) v = ground arith
Step-IsCounted few (locks_write s w room e) v = ground arith
Step-IsCounted few (unlocks_write s inside) v = ground arith

-- With fewer than 2^31 threads, in every reachable state the word is twice the number of readers, or
-- 1 for a writer, who is inside alone.
pub Reach-IsCounted : {n : ℕ} {s : System} → n < 2 ^ 31 → Reach n s → IsCounted n s
Reach-IsCounted few here = omega arith
Reach-IsCounted few (later r step) = Step-IsCounted few step (Reach-IsCounted few r)
