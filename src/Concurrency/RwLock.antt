-- ===== src/Concurrency/RwLock.antt =====
-- rw-lock/rw_lock.h: `RWLock`. Its counters change only under `check_cnt_`, in the sections that are
-- steps here; between them threads run `func` or wait. A wait may be tested again at any time, which
-- covers both notifications and wakeups without one. Counters do not wrap.
mod Tests
use cpp_many_tasks.Prelude.{
  ℕ, suc, ◌+◌, ◌-◌, ◌*◌, ◌≤◌, ◌<◌, ◌≡◌, ◌≢◌, refl, ◌⊎◌, inl, inr, Bool, true, false, ◌&&◌, Option,
  none, some, arith, ltb, ◌==◌, if◌then◌else◌,
}

pub record RwLock : Type 0 where
  pub readers_cnt : ℕ
  pub writers_cnt : ℕ
  pub blocked_readers_cnt : ℕ
  pub blocked_writers_cnt : ℕ

-- Whom the end of a section notifies.
pub data Notify : Type 0 where
  nobody all_readers one_writer : Notify

pub init : RwLock
init = record { readers_cnt = 0; writers_cnt = 0; blocked_readers_cnt = 0; blocked_writers_cnt = 0 }

pub begin_read : RwLock → RwLock
begin_read l = record l { blocked_readers_cnt = suc l.blocked_readers_cnt }

-- A test of the wait in `Read`: `none` if the thread goes on waiting.
pub enter_read : RwLock → Option RwLock
enter_read l =
    if l.writers_cnt == 0
    then some (record l {
      blocked_readers_cnt = l.blocked_readers_cnt - 1;
      readers_cnt = suc l.readers_cnt;
    })
    else none

pub begin_write : RwLock → RwLock
begin_write l = record l { blocked_writers_cnt = suc l.blocked_writers_cnt }

pub enter_write : RwLock → Option RwLock
enter_write l =
    if l.readers_cnt == 0 && l.writers_cnt == 0
    then some (record l {
      blocked_writers_cnt = l.blocked_writers_cnt - 1;
      writers_cnt = suc l.writers_cnt;
    })
    else none

pub end_read : RwLock → RwLock × Notify
end_read l = (
  record l { readers_cnt = l.readers_cnt - 1 },
  if l.readers_cnt - 1 == 0 && ltb 0 l.blocked_writers_cnt then one_writer else nobody,
)

pub end_write : RwLock → RwLock × Notify
end_write l = (
  record l { writers_cnt = l.writers_cnt - 1 },
  if ltb (3 * l.blocked_writers_cnt) l.blocked_readers_cnt
      then all_readers
      else if ltb 0 l.blocked_writers_cnt
      then one_writer
      else nobody,
)

-- A section run by some thread: only a thread that waits tests, only one that is inside ends.
pub data Step : RwLock → RwLock → Type 0 where
  begins_read : (l : RwLock) → Step l (begin_read l)
  begins_write : (l : RwLock) → Step l (begin_write l)
  enters_read : (l m : RwLock) → 0 < l.blocked_readers_cnt → enter_read l ≡ some m → Step l m
  enters_write : (l m : RwLock) → 0 < l.blocked_writers_cnt → enter_write l ≡ some m → Step l m
  ends_read : (l : RwLock) → 0 < l.readers_cnt → Step l (end_read l).0
  ends_write : (l : RwLock) → 0 < l.writers_cnt → Step l (end_write l).0

pub data Reach : RwLock → Type 0 where
  here : Reach init
  later : {l m : RwLock} → Reach l → Step l m → Reach m

-- One writer at most, and none beside readers.
pub record IsExclusive (l : RwLock) : Type 0 where
  pub one_writer_inside : l.writers_cnt ≤ 1
  pub no_readers_beside : (l.writers_cnt ≡ 0) ⊎ (l.readers_cnt ≡ 0)

Step-IsExclusive : {l m : RwLock} → Step l m → IsExclusive l → IsExclusive m
unfolding begin_read begin_write enter_read enter_write end_read end_write
Step-IsExclusive (begins_read l) x = ground arith
Step-IsExclusive (begins_write l) x = ground arith
Step-IsExclusive (enters_read l m h e) x = ground arith
Step-IsExclusive (enters_write l m h e) x = ground arith
Step-IsExclusive (ends_read l h) x = ground arith
Step-IsExclusive (ends_write l h) x = ground arith

-- In every reachable state at most one writer is inside, and no reader beside it.
pub Reach-IsExclusive : {l : RwLock} → Reach l → IsExclusive l
unfolding init
Reach-IsExclusive here = omega arith
Reach-IsExclusive (later r s) = Step-IsExclusive s (Reach-IsExclusive r)

-- When a writer, inside as the lock allows, leaves and someone waits, somebody who waits is notified, and the test of that wait
-- holds then.
pub end_write-notifies :
    (l : RwLock)
    → IsExclusive l
    → 0 < l.writers_cnt
    → 0 < l.blocked_readers_cnt + l.blocked_writers_cnt
    → (((end_write l).1 ≡ all_readers)
        × (0 < l.blocked_readers_cnt)
        × (enter_read (end_write l).0 ≢ none))
      ⊎ (((end_write l).1 ≡ one_writer)
          × (0 < l.blocked_writers_cnt)
          × (enter_write (end_write l).0 ≢ none))
unfolding enter_read enter_write end_write
end_write-notifies l x h w = ground arith

-- When the last reader, inside as the lock allows, leaves and a writer waits, a writer is notified, and the test of its wait holds
-- then.
pub end_read-notifies :
    (l : RwLock)
    → IsExclusive l
    → l.readers_cnt ≡ 1
    → 0 < l.blocked_writers_cnt
    → ((end_read l).1 ≡ one_writer) × (enter_write (end_read l).0 ≢ none)
unfolding enter_write end_read
end_read-notifies l x last w = ground arith
