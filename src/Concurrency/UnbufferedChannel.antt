-- ===== src/Concurrency/UnbufferedChannel.antt =====
-- unbuffered-channel/unbuffered_channel.h: `UnbufferedChannel`. All three operations hold the mutex
-- but for their waits, so `Send` is two steps, before its wait and after it. An element of the queue
-- is known by the number of its `Send`, which stands for its two pointers.
pub mod Rendezvous
mod Tests
use cpp_many_tasks.Prelude.{
  ℕ, suc, Bool, true, false, ◌||◌, not, Option, none, some, List, [], ◌∷◌, ◌++◌, ◌==◌,
  if◌then◌else◌,
}
use cpp_many_tasks.Concurrency.BufferedChannel.{Outcome, waits, throws, returns, is_empty}

pub record Element (T : Type 0) : Type 0 where
  pub sender : ℕ
  pub value : T

-- `is_received` gives the flag of each sender, `senders` counts them.
pub record UnbufferedChannel (T : Type 0) : Type 0 where
  pub queue : List (Element T)
  pub is_received : ℕ → Bool
  pub is_closed : Bool
  pub senders : ℕ

module _ {T : Type 0} where
  pub init : UnbufferedChannel T
  init = record { queue = []; is_received = λ i. false; is_closed = false; senders = 0 }

  -- `Send` up to its wait: the channel, with the new element; its sender is the old count.
  pub send : T → UnbufferedChannel T → UnbufferedChannel T
  send value c = record c {
    queue = c.queue ++ record { sender = c.senders; value = value } ∷ [];
    senders = suc c.senders;
  }

  -- `Send` from its wait on.
  pub finish_send : ℕ → UnbufferedChannel T → Outcome (UnbufferedChannel T) (Unit {0})
  finish_send i c =
      if c.is_received i || c.is_closed
      then if c.is_received i then returns tt c else throws
      else waits

  abbrev pub deliver :
      UnbufferedChannel T → List (Element T) → Outcome (UnbufferedChannel T) (Option T)
  deliver c [] = waits
  deliver c (e ∷ es) =
      returns (some e.value) (record c {
        queue = es;
        is_received = λ i. if e.sender == i then true else c.is_received i;
      })

  pub recv : UnbufferedChannel T → Outcome (UnbufferedChannel T) (Option T)
  recv c = if c.is_closed then returns none c else deliver c c.queue

  pub close : UnbufferedChannel T → UnbufferedChannel T
  close c = record c { queue = []; is_closed = true }
