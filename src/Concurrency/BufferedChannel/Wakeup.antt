-- ===== src/Concurrency/BufferedChannel/Wakeup.antt =====
-- buffered-channel/buffered_channel.h: one receiver and one thread that closes, at the steps of the
-- mutex and the condition variable. `Close` sets the flag and notifies without the mutex.
use cpp_many_tasks.Prelude.{◌≡◌, refl, true, false, arith}
use cpp_many_tasks.Concurrency.BufferedChannel.{BufferedChannel, may_read, close}

-- Where the receiver is: before its test or woken; in `wait` with the test failed and the mutex
-- still held; asleep on `may_read_`; past the wait.
pub data Receiver : Type 0 where
  testing parking asleep through : Receiver

-- Where the closing thread is: before, between the flag and the notification, behind.
pub data Closer : Type 0 where
  closing notifying closed : Closer

pub record System {ℓ} (T : Type ℓ) : Type ℓ where
  pub channel : BufferedChannel T
  pub receiver : Receiver
  pub closer : Closer

abbrev pub woken : Receiver → Receiver
woken asleep = testing
woken testing = testing
woken parking = parking
woken through = through

module _ {ℓ} {T : Type ℓ} where
  -- `set_flag` and `notify` want no mutex, so they may come between `test_fails` and `park`.
  pub data Step : System T → System T → Type ℓ where
    test_holds :
        (s : System T)
        → s.receiver ≡ testing
        → may_read s.channel ≡ true
        → Step s (record s { receiver = through })
    test_fails :
        (s : System T)
        → s.receiver ≡ testing
        → may_read s.channel ≡ false
        → Step s (record s { receiver = parking })
    park : (s : System T) → s.receiver ≡ parking → Step s (record s { receiver = asleep })
    set_flag :
        (s : System T)
        → s.closer ≡ closing
        → Step s (record s { channel = close s.channel; closer = notifying })
    notify :
        (s : System T)
        → s.closer ≡ notifying
        → Step s (record s { receiver = woken s.receiver; closer = closed })

  pub data Reach (s : System T) : System T → Type ℓ where
    here : Reach s s
    later : {t u : System T} → Reach s t → Step t u → Reach s u

  abbrev pub begin : BufferedChannel T → System T
  begin c = record { channel = c; receiver = testing; closer = closing }

  abbrev pub lost : BufferedChannel T → System T
  lost c = record { channel = close c; receiver = asleep; closer = closed }

  no-Step : {s t : System T} → Step s t → s.receiver ≡ asleep → s.closer ≡ closed → ⊥
  no-Step (test_holds s e _) r c = cc
  no-Step (test_fails s e _) r c = cc
  no-Step (park s e) r c = cc
  no-Step (set_flag s e) r c = cc
  no-Step (notify s e) r c = cc

  -- On every channel that a receiver would wait on, a notification that comes between its failed
  -- test and its going to sleep is lost: the channel is closed, so the test would hold, but the
  -- receiver sleeps and no step is left that wakes it.
  pub lost_wakeup :
      (c : BufferedChannel T)
      → may_read c ≡ false
      → Reach (begin c) (lost c)
        × (may_read (close c) ≡ true)
        × ((t : System T) → ¬ Step (lost c) t)
  unfolding close
  lost_wakeup c empty = (
    later (later (later (later here (test_fails _ refl empty)) (set_flag _ refl)) (notify _ refl))
        (park _ refl),
    ground arith,
    λ t step. no-Step step refl refl,
  )
