-- ===== src/Cactus/Buffered.antt =====
-- tools/cactus/io/reader: `IBufferedReader` with its default operations, and the two readers that
-- implement it. A view into a buffer is the bytes that it shows.
pub mod Stream
use cpp_many_tasks.Prelude.{
  ℕ, zero, suc, ◌+◌, ◌-◌, ◌≤◌, ◌<◌, ◌≡◌, Bool, true, false, ◌&&◌, Option, none, some, List, [], ◌∷◌,
  ◌++◌, ◌==◌, if◌then◌else◌, length, take, drop, min,
}
use cpp_many_tasks.Cactus.Reader.{IReader}

pub record IBufferedReader : Type 1 where
  pub State : Type 0
  pub read_next : State → List ℕ × State
  pub read_back_up : ℕ → State → State

-- What callers rely on: a chunk is the next of the pending bytes, it is empty only if none is left,
-- and the end of a chunk can be given back.
pub record IsBuffered (r : IBufferedReader) : Type 1 where
  pub valid : r.State → Type 0
  pub pending : r.State → List ℕ
  pub next_valid : (s : r.State) → valid s → valid (r.read_next s).1
  pub next_pending :
      (s : r.State) → valid s → pending s ≡ (r.read_next s).0 ++ pending (r.read_next s).1
  pub next_progress : (s : r.State) → valid s → (r.read_next s).0 ≡ [] → pending s ≡ []
  pub back_up :
      (s : r.State) (taken left : List ℕ)
      → valid s
      → (r.read_next s).0 ≡ taken ++ left
      → valid (r.read_back_up (length left) (r.read_next s).1)
        × (pending (r.read_back_up (length left) (r.read_next s).1)
            ≡ left ++ pending (r.read_next s).1)

module _ (r : IBufferedReader) where
  open r use {State, read_next, read_back_up}

  -- What of a chunk was not copied goes back.
  abbrev give_back : List ℕ → State → State
  give_back [] s = s
  give_back (c ∷ cs) s = read_back_up (length (c ∷ cs)) s

  -- `Copy` into a buffer of `n` bytes.
  abbrev after_next : ℕ → List ℕ × State → List ℕ × State
  after_next n ([], s) = ([], s)
  after_next n (c ∷ cs, s) =
      let size = min n (length (c ∷ cs)) in (take size (c ∷ cs), give_back (drop size (c ∷ cs)) s)

  -- The default `Read`.
  pub buffered_read : ℕ → State → List ℕ × State
  buffered_read n s = after_next n (read_next s)

  abbrev pub as_reader : IReader
  as_reader = record { State = State; read = buffered_read }

-- `ViewReader`.
pub record View : Type 0 where
  pub buf : List ℕ
  pub pos : ℕ

abbrev pub view_reader : IBufferedReader
view_reader = record {
  State = View;
  read_next = λ v. (drop v.pos v.buf, record v { pos = length v.buf });
  read_back_up = λ n v. record v { pos = v.pos - n };
}

-- `BufferedReader` over `under`: the bytes of `buffer_` up to `end_`, and its capacity.
pub record Buffer (S : Type 0) : Type 0 where
  pub underlying : S
  pub bytes : List ℕ
  pub pos : ℕ
  pub cap : ℕ

module _ (under : IReader) where
  -- An empty buffer is filled first.
  pub refill : Buffer under.State → Buffer under.State
  refill b =
      if b.pos == length b.bytes
      then (let (bytes, u) = under.read b.cap b.underlying in
          record b { underlying = u; bytes = bytes; pos = 0 })
      else b

  abbrev view_rest : Buffer under.State → List ℕ × Buffer under.State
  view_rest b = (drop b.pos b.bytes, record b { pos = length b.bytes })

  abbrev pub buffered_reader : IBufferedReader
  buffered_reader = record {
    State = Buffer under.State;
    read_next = λ b. view_rest (refill b);
    read_back_up = λ n b. record b { pos = b.pos - n };
  }
