-- ===== src/Concurrency/UnbufferedChannel/Rendezvous.antt =====
-- unbuffered-channel/unbuffered_channel.h: a sender leaves exactly when its value was handed over.
use mathlib.Core.Path.{subst}
use cpp_many_tasks.Prelude.{
  ℕ, ◌+◌, ◌≤◌, ◌≡◌, ◌↔◌, refl, sym, ap, Bool, true, false, some, List, [], ◌∷◌, ◌++◌, arith, ◌==◌,
  if◌then◌else◌,
}
use cpp_many_tasks.Concurrency.BufferedChannel.{throws, returns}
use cpp_many_tasks.Concurrency.UnbufferedChannel.{
  Element, UnbufferedChannel, init, send, finish_send, recv, close,
}

-- A channel with the elements handed to receivers so far, in order.
pub record History (T : Type 0) : Type 0 where
  pub channel : UnbufferedChannel T
  pub delivered : List (Element T)

abbrev pub flag : Bool → ℕ
flag true = 1
flag false = 0

module _ {T : Type 0} where
  -- How often a sender stands in a list of elements.
  pub count : ℕ → List (Element T) → ℕ
  count i [] = 0
  count i (e ∷ es) = (if e.sender == i then 1 else 0) + count i es

  count-append : (i : ℕ) (xs ys : List (Element T)) → count i (xs ++ ys) ≡ count i xs + count i ys
  unfolding count
  count-append i [] ys = omega arith
  count-append i (x ∷ xs) ys = omega (arith, count-append i xs ys)

  -- A step under the mutex. `Recv` hands over the first element; where it waits or finds the channel
  -- closed, and where `Send` ends, the channel stays as it is.
  pub data Step : History T → History T → Type 0 where
    sends : (h : History T) (v : T) → Step h (record h { channel = send v h.channel })
    receives :
        (h : History T) (e : Element T) (es : List (Element T)) (c : UnbufferedChannel T)
        → h.channel.queue ≡ e ∷ es
        → recv h.channel ≡ returns (some e.value) c
        → Step h (record { channel = c; delivered = h.delivered ++ e ∷ [] })
    closes : (h : History T) → Step h (record h { channel = close h.channel })

  pub data Reach (s : History T) : History T → Type 0 where
    here : Reach s s
    later : {t u : History T} → Reach s t → Step t u → Reach s u

  -- A sender's flag tells whether its element was handed over, which happens at most once; an element
  -- that waits has not been handed over, and no sender is known that has not come.
  pub record IsValid (h : History T) : Type 0 where
    pub told : (i : ℕ) → count i h.delivered ≡ flag (h.channel.is_received i)
    pub once : (i : ℕ) → count i h.delivered + count i h.channel.queue ≤ 1
    pub known : (i : ℕ) → h.channel.senders ≤ i → count i h.delivered + count i h.channel.queue ≡ 0

  abbrev pub start : History T
  start = record { channel = init; delivered = [] }

  start-IsValid : IsValid start
  unfolding init count
  start-IsValid = record { told = λ i. refl; once = λ i. omega arith; known = λ i h. refl }

  recv-some :
      (c c' : UnbufferedChannel T) (e : Element T) (es : List (Element T))
      → c.queue ≡ e ∷ es
      → recv c ≡ returns (some e.value) c'
      → (c' ≡ record c {
        queue = es;
        is_received = λ i. if e.sender == i then true else c.is_received i;
      })
        × (c.is_closed ≡ false)
  unfolding recv
  recv-some c c' e es q r = ground arith

  Step-IsValid : {h h' : History T} → Step h h' → IsValid h → IsValid h'
  unfolding send close count
  Step-IsValid (sends h v) valid = record {
    told = valid.told;
    once = λ i. ground (arith, added i, valid.once i, valid.known i);
    known = λ i le. ground (arith, added i, valid.known i);
  }
    where
      added :
          (i : ℕ)
          → count i (send v h.channel).queue
            ≡ count i h.channel.queue
              + count i (record { sender = h.channel.senders; value = v } ∷ [])
      added i = count-append i h.channel.queue _
  Step-IsValid (receives h e es c q r) valid =
      subst (λ d. IsValid (record { channel = d; delivered = h.delivered ++ e ∷ [] }))
        (sym (recv-some h.channel c e es q r).0)
        (record {
          told = λ i. ground (arith, handed i, waiting i, valid.told i, valid.once i);
          once = λ i. ground (arith, handed i, waiting i, valid.once i);
          known = λ i le. ground (arith, handed i, waiting i, valid.known i);
        })
    where
      handed : (i : ℕ) → count i (h.delivered ++ e ∷ []) ≡ count i h.delivered + count i (e ∷ [])
      handed i = count-append i h.delivered (e ∷ [])

      waiting : (i : ℕ) → count i h.channel.queue ≡ count i (e ∷ es)
      waiting i = ap (count i) q
  Step-IsValid (closes h) valid = record {
    told = valid.told;
    once = λ i. omega (arith, valid.once i);
    known = λ i le. omega (arith, valid.known i le);
  }

  pub Reach-IsValid : {h : History T} → Reach start h → IsValid h
  Reach-IsValid here = start-IsValid
  Reach-IsValid (later r step) = Step-IsValid step (Reach-IsValid r)

  closed-Step :
      (h : History T) {t u : History T}
      → Step t u
      → (t.channel.is_closed ≡ true) × (t.delivered ≡ h.delivered)
      → (u.channel.is_closed ≡ true) × (u.delivered ≡ h.delivered)
  unfolding send close
  closed-Step h (sends t v) (e, d) = (e, d)
  closed-Step h (receives t x xs c q r) (e, d) = cc (recv-some t.channel c x xs q r).1
  closed-Step h (closes t) (e, d) = (refl, d)

  -- A closed channel hands nothing over any more.
  closed-Reach :
      {h h' : History T}
      → Reach h h'
      → h.channel.is_closed ≡ true
      → (h'.channel.is_closed ≡ true) × (h'.delivered ≡ h.delivered)
  closed-Reach here e = (e, refl)
  closed-Reach {h} (later r step) e = closed-Step h step (closed-Reach r e)

  -- A `Send` that has reached its wait may return exactly when its value was handed to one receiver.
  pub finish_send-returns :
      {h : History T} (i : ℕ)
      → Reach start h
      → (finish_send i h.channel ≡ returns tt h.channel) ↔ (count i h.delivered ≡ 1)
  unfolding finish_send
  finish_send-returns i r =
      (λ e. ground (arith, (Reach-IsValid r).told i), λ e. ground (arith, (Reach-IsValid r).told i))

  -- The value of a `Send` that throws is handed to nobody, then or later.
  pub finish_send-throws :
      {h h' : History T} (i : ℕ)
      → Reach start h
      → Reach h h'
      → finish_send i h.channel ≡ throws
      → count i h'.delivered ≡ 0
  unfolding finish_send
  finish_send-throws {h} {h'} i r later' e = thrown (ground arith) (ground arith)
    where
      thrown :
          h.channel.is_closed ≡ true → h.channel.is_received i ≡ false → count i h'.delivered ≡ 0
      thrown shut unseen = omega (
        arith,
        ap (count i) (closed-Reach later' shut).1,
        (Reach-IsValid r).told i,
        ap flag unseen,
      )
