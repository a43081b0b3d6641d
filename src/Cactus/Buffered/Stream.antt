-- ===== src/Cactus/Buffered/Stream.antt =====
-- tools/cactus/io/reader: buffered readers are streams.
mod Tests
use mathlib.Core.Path.{subst}
use cpp_many_tasks.Prelude.{
  ℕ, zero, suc, ◌+◌, ◌-◌, ◌≤◌, ◌<◌, ◌≡◌, refl, sym, ap, ◌∙◌, ◌⊎◌, inl, inr, Bool, true, false,
  Option, none, some, List, [], ◌∷◌, ◌++◌, arith, append_assoc, append-nil, length, take, drop,
  length-append, take-append, drop-append, take-append-drop, length-take, length-drop, drop-length,
  drop_suffix, min, Bool-cases, ◌==◌, if◌then◌else◌,
}
use cpp_many_tasks.Cactus.Reader.{IReader, IsStream, read_full}
use cpp_many_tasks.Cactus.Reader.Full.{read_full_lem}
use cpp_many_tasks.Cactus.Buffered.{
  IBufferedReader, IsBuffered, buffered_read, as_reader, View, view_reader, Buffer, refill,
  buffered_reader, after_next, give_back,
}

module _ {r : IBufferedReader} (buffered : IsBuffered r) where
  open r use {State, read_next, read_back_up}
  open buffered use {valid, pending, next_valid, next_pending, next_progress, back_up}

  -- A read from a valid state: what it returns, and the state behind it.
  record IsRead (n : ℕ) (s : State) (p : List ℕ × State) : Type 0 where
    read_valid : valid p.1
    read_pending : pending s ≡ p.0 ++ pending p.1
    read_fits : length p.0 ≤ n
    read_progress : 0 < n → p.0 ≡ [] → pending s ≡ []

  given_back :
      (n : ℕ) (s : State) (taken left : List ℕ)
      → valid s
      → (read_next s).0 ≡ taken ++ left
      → length taken ≤ n
      → (0 < n → taken ≡ [] → pending s ≡ [])
      → IsRead n s (taken, give_back r left (read_next s).1)
  given_back n s taken [] v split fits progress = record {
    read_valid = next_valid s v;
    read_pending =
        next_pending s v ∙ ap (λ l. l ++ pending (read_next s).1) (split ∙ append-nil taken);
    read_fits = fits;
    read_progress = progress;
  }
  given_back n s taken (c ∷ cs) v split fits progress = record {
    read_valid = (back_up s taken (c ∷ cs) v split).0;
    read_pending =
        next_pending s v
        ∙ ap (λ l. l ++ pending (read_next s).1) split
        ∙ append_assoc taken (c ∷ cs) (pending (read_next s).1)
        ∙ ap (λ l. taken ++ l) (sym (back_up s taken (c ∷ cs) v split).1);
    read_fits = fits;
    read_progress = progress;
  }

  after_next-IsRead :
      (n : ℕ) (s : State) (p : List ℕ × State)
      → valid s
      → read_next s ≡ p
      → IsRead n s (after_next r n p)
  after_next-IsRead n s ([], t) v e =
      subst (λ u. IsRead n s ([], u)) (ap (λ q. q.1) e)
        (given_back n s [] [] v (ap (λ q. q.0) e) (omega arith)
          (λ _ _. next_progress s v (ap (λ q. q.0) e)))
  after_next-IsRead n s (c ∷ cs, t) v e =
      let size = min n (length (c ∷ cs)) in
      subst (λ u. IsRead n s (take size (c ∷ cs), give_back r (drop size (c ∷ cs)) u))
        (ap (λ q. q.1) e)
        (given_back n s (take size (c ∷ cs)) (drop size (c ∷ cs)) v
          (ap (λ q. q.0) e ∙ sym (take-append-drop size (c ∷ cs)))
          (omega (arith, length-take size (c ∷ cs)))
          (λ pos none_taken.
            absurd (omega (arith, ap length none_taken, length-take size (c ∷ cs)))))

  -- The default `Read` of a buffered reader makes it a stream of the same bytes.
  pub buffered-IsStream : IsStream (as_reader r)
  unfolding buffered_read
  buffered-IsStream = record {
    valid = valid;
    pending = pending;
    read_valid = λ n s v. IsRead.read_valid (read_is n s v);
    read_pending = λ n s v. IsRead.read_pending (read_is n s v);
    read_fits = λ n s v. IsRead.read_fits (read_is n s v);
    read_progress = λ n s v. IsRead.read_progress (read_is n s v);
  }
    where
      read_is : (n : ℕ) (s : State) → valid s → IsRead n s (buffered_read r n s)
      read_is n s v = after_next-IsRead n s (read_next s) v refl

-- What is shown of `bytes` behind `pos`, once all of it is passed and `left` given back.
shown_again :
    (bytes taken left : List ℕ) (pos : ℕ)
    → drop pos bytes ≡ taken ++ left
    → drop (length bytes - length left) bytes ≡ left
shown_again bytes taken left pos e = drop_suffix bytes (take pos bytes ++ taken) left (
    sym (take-append-drop pos bytes)
    ∙ ap (λ l. take pos bytes ++ l) e
    ∙ sym (append_assoc (take pos bytes) taken left))

-- `ViewReader` delivers the bytes of its view behind its position.
pub view_reader-IsBuffered : IsBuffered view_reader
view_reader-IsBuffered = record {
  valid = λ v. v.pos ≤ length v.buf;
  pending = λ v. drop v.pos v.buf;
  next_valid = λ v h. omega arith;
  next_pending = λ v h.
      sym (ap (λ l. drop v.pos v.buf ++ l) (drop-length v.buf) ∙ append-nil (drop v.pos v.buf));
  next_progress = λ v h e. e;
  back_up = λ v taken left h e. (
    omega arith,
    shown_again v.buf taken left v.pos e
        ∙ sym (ap (λ l. left ++ l) (drop-length v.buf) ∙ append-nil left),
  );
}

module _ {under : IReader} (stream : IsStream under) where
  abbrev IsValidBuffer : Buffer under.State → Type 0
  IsValidBuffer b = stream.valid b.underlying × (b.pos ≤ length b.bytes) × (0 < b.cap)

  abbrev pending_buffer : Buffer under.State → List ℕ
  pending_buffer b = drop b.pos b.bytes ++ stream.pending b.underlying

  refilled :
      (b : Buffer under.State)
      → IsValidBuffer b
      → IsValidBuffer (refill under b)
        × (pending_buffer (refill under b) ≡ pending_buffer b)
        × (drop (refill under b).pos (refill under b).bytes ≡ [] → pending_buffer b ≡ [])
  unfolding refill
  refilled b (v, inside, room) = elim (Bool-cases (b.pos == length b.bytes)) [
    | inl used ↦
        let e : b.pos ≡ length b.bytes = ground arith in
        let passed : drop b.pos b.bytes ≡ [] = ap (λ n. drop n b.bytes) e ∙ drop-length b.bytes in
        rw used (
          (stream.read_valid b.cap b.underlying v, omega arith, room),
          sym (stream.read_pending b.cap b.underlying v)
              ∙ sym (ap (λ l. l ++ stream.pending b.underlying) passed),
          λ none_read.
              ap (λ l. l ++ stream.pending b.underlying) passed
              ∙ stream.read_progress b.cap b.underlying v room none_read,
        )
    | inr more ↦ rw more (
      (v, inside, room),
      refl,
      λ none_left. absurd (ground (arith, ap length none_left, length-drop b.pos b.bytes)),
    )
  ]

  -- `BufferedReader` over a stream delivers what its buffer still holds and then that stream.
  pub buffered_reader-IsBuffered : IsBuffered (buffered_reader under)
  buffered_reader-IsBuffered = record {
    valid = IsValidBuffer;
    pending = pending_buffer;
    next_valid = λ b h. let ((v, _, room), _, _) = refilled b h in (v, omega arith, room);
    next_pending = λ b h.
        let c = refill under b in
        sym (refilled b h).1
        ∙ sym (
            ap (λ l. drop c.pos c.bytes ++ (l ++ stream.pending c.underlying))
              (drop-length c.bytes));
    next_progress = λ b h e. (refilled b h).2 e;
    back_up = λ b taken left h e.
        let c = refill under b in
        let (v, _, room) = (refilled b h).0 in
        (
          (v, omega arith, room),
          ap (λ l. l ++ stream.pending c.underlying) (shown_again c.bytes taken left c.pos e)
              ∙ sym (ap (λ l. left ++ (l ++ stream.pending c.underlying)) (drop-length c.bytes)),
        );
  }

  -- `ReadFull` through a `BufferedReader` takes the bytes that `ReadFull` on the stream below would
  -- take: the first `n` of those in the buffer and behind it. If there are fewer it throws, and nothing
  -- is left.
  pub read_full-buffered :
      (n : ℕ) (b : Buffer under.State)
      → stream.valid b.underlying
      → b.pos ≤ length b.bytes
      → 0 < b.cap
      → ((bytes : List ℕ) × (c : Buffer under.State) × (read_full
              (as_reader (buffered_reader under))
              n
              b
            ≡ (some bytes, c))
          × (drop b.pos b.bytes ++ stream.pending b.underlying
              ≡ bytes ++ (drop c.pos c.bytes ++ stream.pending c.underlying))
          × (length bytes ≡ n))
        ⊎ ((c : Buffer under.State) × (read_full (as_reader (buffered_reader under)) n b
              ≡ (none, c))
            × (drop c.pos c.bytes ++ stream.pending c.underlying ≡ [])
            × (length (drop b.pos b.bytes ++ stream.pending b.underlying) < n))
  unfolding buffered-IsStream buffered_reader-IsBuffered
  read_full-buffered n b v inside room =
      elim (read_full_lem (buffered-IsStream buffered_reader-IsBuffered) n b (v, inside, room)) [
        | inl (bytes, c, result, _, split, size) ↦ inl (bytes, c, result, split, size)
        | inr (c, result, _, none_left, few) ↦ inr (c, result, none_left, few)
      ]
