-- ===== src/Concurrency/BufferedChannel/Tests.antt =====
-- buffered-channel: each theorem at a channel that meets its conditions.
use cpp_many_tasks.Prelude.{ℕ, ◌≡◌, refl, true, false, List, [], ◌∷◌}
use cpp_many_tasks.Concurrency.BufferedChannel.{BufferedChannel, init, may_read, send, recv, close}
use cpp_many_tasks.Concurrency.BufferedChannel.History
use cpp_many_tasks.Concurrency.BufferedChannel.History.{Reach-IsFifo, closed_drains}
use cpp_many_tasks.Concurrency.BufferedChannel.Wakeup
use cpp_many_tasks.Concurrency.BufferedChannel.Wakeup.{lost_wakeup}

abbrev holding : List ℕ → BufferedChannel ℕ
holding l = record { max_size = 2; queue = l; is_closed = false }

abbrev history : List ℕ → List ℕ → List ℕ → History.History ℕ
history l sent received = record { channel = holding l; sent = sent; received = received }

sent_and_received : History.Reach 2 (history (8 ∷ []) (7 ∷ 8 ∷ []) (7 ∷ []))
unfolding init send recv
sent_and_received =
    History.later
      (History.later
        (History.later History.here (History.sends (history [] [] []) 7 (holding (7 ∷ [])) refl))
        (History.sends (history (7 ∷ []) (7 ∷ []) []) 8 (holding (7 ∷ 8 ∷ [])) refl))
      (History.receives (history (7 ∷ 8 ∷ []) (7 ∷ 8 ∷ []) []) 7 (holding (8 ∷ [])) refl)

Reach-IsFifo_example : History.IsFifo 2 (history (8 ∷ []) (7 ∷ 8 ∷ []) (7 ∷ []))
Reach-IsFifo_example = Reach-IsFifo sent_and_received

lost_wakeup_example :
    Wakeup.Reach (Wakeup.begin (holding [])) (Wakeup.lost (holding []))
    × (may_read (close (holding [])) ≡ true)
    × ((t : Wakeup.System ℕ) → ¬ Wakeup.Step (Wakeup.lost (holding [])) t)
lost_wakeup_example = lost_wakeup (holding []) refl
