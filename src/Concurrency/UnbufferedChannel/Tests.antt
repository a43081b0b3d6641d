-- ===== src/Concurrency/UnbufferedChannel/Tests.antt =====
-- unbuffered-channel: each theorem at a channel that meets its conditions.
use cpp_many_tasks.Prelude.{ℕ, ◌≡◌, ◌↔◌, refl, true, false, [], ◌∷◌, ◌==◌, if◌then◌else◌}
use cpp_many_tasks.Concurrency.BufferedChannel.{returns}
use cpp_many_tasks.Concurrency.UnbufferedChannel.{
  Element, UnbufferedChannel, init, send, finish_send, recv, close,
}
use cpp_many_tasks.Concurrency.UnbufferedChannel.Rendezvous.{
  History, Reach, sends, receives, here, later, count, start, finish_send-returns,
}

abbrev first : Element ℕ
first = record { sender = 0; value = 7 }

abbrev after_send : History ℕ
after_send = record { channel = send 7 init; delivered = [] }

abbrev handed_channel : UnbufferedChannel ℕ
handed_channel = record {
  queue = [];
  is_received = λ i. if 0 == i then true else false;
  is_closed = false;
  senders = 1;
}

abbrev handed_over : History ℕ
handed_over = record { channel = handed_channel; delivered = first ∷ [] }

handed : Reach start handed_over
unfolding init send recv
handed = later (later here (sends start 7)) (receives after_send first [] handed_channel refl refl)

finish_send-returns_example :
    (finish_send 0 handed_channel ≡ returns tt handed_channel) ↔ (count 0 (first ∷ []) ≡ 1)
finish_send-returns_example = finish_send-returns 0 handed

abbrev shut : History ℕ
shut = record { channel = close (send 7 init); delivered = [] }

here_again : (h : History ℕ) → Reach h h
here_again h = here
