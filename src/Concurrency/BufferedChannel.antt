-- ===== src/Concurrency/BufferedChannel.antt =====
-- buffered-channel/buffered_channel.h: `BufferedChannel`. `Send` and `Recv` run under the mutex from
-- their wait to their end, so a call is one step; a call that cannot go on yet waits. `Send` has
-- two overloads, which differ in how they copy the value.
pub mod History
pub mod Wakeup
mod Tests
use cpp_many_tasks.Prelude.{
  ℕ, zero, suc, Bool, true, false, ◌||◌, not, Option, none, some, List, [], ◌∷◌, ◌++◌, ltb,
  if◌then◌else◌, length,
}

pub record BufferedChannel {ℓ} (T : Type ℓ) : Type ℓ where
  pub max_size : ℕ
  pub queue : List T
  pub is_closed : Bool

-- How a call ends: it waits on its condition variable, throws, or returns with the new state.
pub data Outcome {ℓ κ} (C : Type ℓ) (A : Type κ) : Type (ℓ ⊔ κ) where
  waits : Outcome C A
  throws : Outcome C A
  returns : A → C → Outcome C A

abbrev pub is_empty {ℓ} : {A : Type ℓ} → List A → Bool
is_empty [] = true
is_empty (x ∷ xs) = false

module _ {ℓ} {T : Type ℓ} where
  pub init : ℕ → BufferedChannel T
  init size = record { max_size = size; queue = []; is_closed = false }

  -- The predicates of the two waits.
  abbrev pub may_write : BufferedChannel T → Bool
  may_write c = ltb (length c.queue) c.max_size || c.is_closed

  abbrev pub may_read : BufferedChannel T → Bool
  may_read c = not (is_empty c.queue) || c.is_closed

  pub send : T → BufferedChannel T → Outcome (BufferedChannel T) (Unit {0})
  send value c =
      if may_write c
      then if c.is_closed then throws else returns tt (record c { queue = c.queue ++ value ∷ [] })
      else waits

  abbrev pub pop : BufferedChannel T → List T → Outcome (BufferedChannel T) (Option T)
  pop c [] = returns none c
  pop c (x ∷ xs) = returns (some x) (record c { queue = xs })

  pub recv : BufferedChannel T → Outcome (BufferedChannel T) (Option T)
  recv c = if may_read c then pop c c.queue else waits

  pub close : BufferedChannel T → BufferedChannel T
  close c = record c { is_closed = true }

  -- The values that one receiver takes until it is told that there are no more, `none` if it has to
  -- wait, or if the fuel runs out.
  abbrev pub then_drain :
      (BufferedChannel T → Option (List T))
      → Outcome (BufferedChannel T) (Option T)
      → Option (List T)
  then_drain again waits = none
  then_drain again throws = none
  then_drain again (returns none c) = some []
  then_drain again (returns (some v) c) = elim (again c) [ none ↦ none | some vs ↦ some (v ∷ vs) ]

  pub drain : ℕ → BufferedChannel T → Option (List T)
  drain zero c = none
  drain (suc fuel) c = then_drain (λ c'. drain fuel c') (recv c)
