-- ===== src/Concurrency/BufferedChannel/History.antt =====
-- buffered-channel/buffered_channel.h: what any sequence of calls can do to a channel.
use cpp_many_tasks.Prelude.{
  ℕ, zero, suc, ◌≤◌, ◌<◌, ◌≡◌, refl, sym, ◌∙◌, ap, true, false, none, some, List, [], ◌∷◌, ◌++◌,
  arith, length, length-append, append_assoc,
}
use cpp_many_tasks.Concurrency.BufferedChannel.{
  BufferedChannel, throws, returns, init, send, recv, close, drain,
}

-- A channel with the values sent and received so far, each in order.
pub record History {ℓ} (T : Type ℓ) : Type ℓ where
  pub channel : BufferedChannel T
  pub sent : List T
  pub received : List T

module _ {ℓ} {T : Type ℓ} where
  -- A call that returns. One that waits or throws leaves the channel as it is.
  pub data Step : History T → History T → Type ℓ where
    sends :
        (h : History T) (v : T) (c : BufferedChannel T)
        → send v h.channel ≡ returns tt c
        → Step h (record h { channel = c; sent = h.sent ++ v ∷ [] })
    receives :
        (h : History T) (v : T) (c : BufferedChannel T)
        → recv h.channel ≡ returns (some v) c
        → Step h (record h { channel = c; received = h.received ++ v ∷ [] })
    finds_end :
        (h : History T) (c : BufferedChannel T)
        → recv h.channel ≡ returns none c
        → Step h (record h { channel = c })
    closes : (h : History T) → Step h (record h { channel = close h.channel })

  abbrev pub start : ℕ → History T
  start size = record { channel = init size; sent = []; received = [] }

  pub data Reach (size : ℕ) : History T → Type ℓ where
    here : Reach size (start size)
    later : {h h' : History T} → Reach size h → Step h h' → Reach size h'

  pub record IsFifo (size : ℕ) (h : History T) : Type ℓ where
    pub same_size : h.channel.max_size ≡ size
    pub bounded : length h.channel.queue ≤ size
    pub kept : h.sent ≡ h.received ++ h.channel.queue

  -- A send that returns found room in an open channel, and the value goes to the end.
  pub send-returns :
      (v : T) (c c' : BufferedChannel T)
      → send v c ≡ returns tt c'
      → (length c.queue < c.max_size)
        × (c.is_closed ≡ false)
        × (c' ≡ record c { queue = c.queue ++ v ∷ [] })
  unfolding send
  send-returns v c c' e = ground arith

  -- A receive that returns a value takes the first one.
  pub recv-returns_some :
      (v : T) (c c' : BufferedChannel T)
      → recv c ≡ returns (some v) c'
      → (c.queue ≡ v ∷ c'.queue) × (c'.max_size ≡ c.max_size) × (c'.is_closed ≡ c.is_closed)
  unfolding recv
  recv-returns_some v c c' e = ground arith

  -- A receive that returns no value found a closed channel with nothing in it.
  pub recv-returns_none :
      (c c' : BufferedChannel T)
      → recv c ≡ returns none c'
      → (c.queue ≡ []) × (c.is_closed ≡ true) × (c' ≡ c)
  unfolding recv
  recv-returns_none c c' e = ground arith

  Step-IsFifo : {size : ℕ} {h h' : History T} → Step h h' → IsFifo size h → IsFifo size h'
  unfolding close
  Step-IsFifo (sends h v c e) inv =
      let (room, open', eq) = send-returns v h.channel c e in
      record {
        same_size = ap BufferedChannel.max_size eq ∙ inv.same_size;
        bounded = omega (
          arith,
          ap (λ d. length (BufferedChannel.queue d)) eq,
          length-append h.channel.queue (v ∷ []),
          inv.same_size,
        );
        kept =
            ap (λ l. l ++ v ∷ []) inv.kept
            ∙ append_assoc h.received h.channel.queue (v ∷ [])
            ∙ ap (λ d. h.received ++ BufferedChannel.queue d) (sym eq);
      }
  Step-IsFifo (receives h v c e) inv =
      let (first, size, _) = recv-returns_some v h.channel c e in
      record {
        same_size = size ∙ inv.same_size;
        bounded = omega (arith, ap length first, inv.bounded);
        kept =
            inv.kept
            ∙ ap (λ l. h.received ++ l) first
            ∙ sym (append_assoc h.received (v ∷ []) c.queue);
      }
  Step-IsFifo (finds_end h c e) inv =
      let (_, _, same) = recv-returns_none h.channel c e in
      record {
        same_size = ap BufferedChannel.max_size same ∙ inv.same_size;
        bounded = omega (arith, ap (λ d. length (BufferedChannel.queue d)) same, inv.bounded);
        kept = inv.kept ∙ ap (λ d. h.received ++ BufferedChannel.queue d) (sym same);
      }
  Step-IsFifo (closes h) inv = record {
    same_size = inv.same_size;
    bounded = inv.bounded;
    kept = inv.kept;
  }

  -- In every reachable state the channel holds at most `size` values, and they are the values sent
  -- and not yet received, in the order in which they were sent.
  pub Reach-IsFifo : {size : ℕ} {h : History T} → Reach size h → IsFifo size h
  unfolding init
  Reach-IsFifo here = record { same_size = refl; bounded = omega arith; kept = refl }
  Reach-IsFifo (later r s) = Step-IsFifo s (Reach-IsFifo r)

  abbrev closed : ℕ → List T → BufferedChannel T
  closed size l = record { max_size = size; queue = l; is_closed = true }

  closed-drain : (size : ℕ) (l : List T) (n : ℕ) → length l < n → drain n (closed size l) ≡ some l
  unfolding drain recv
  closed-drain size l zero h = absurd (omega arith)
  closed-drain size [] (suc n) h = refl
  closed-drain size (x ∷ xs) (suc n) h = rw (closed-drain size xs n (omega arith))

  -- Once a channel is closed a receiver is given all that it held, in order, and then told that
  -- there is no more; it never waits. A sender is refused.
  pub closed_drains :
      (c : BufferedChannel T) (fuel : ℕ) (v : T)
      → length c.queue < fuel
      → (drain fuel (close c) ≡ some c.queue) × (send v (close c) ≡ throws)
  unfolding close send
  closed_drains c fuel v enough = (closed-drain c.max_size c.queue fuel enough, ground arith)
