-- ===== src/Cactus/Reader.antt =====
-- tools/cactus/io/reader: `IReader` and its two loops. A reader is its virtual function `Read`, which
-- is given the size of a buffer and returns the bytes that it put there.
pub mod Full
use cpp_many_tasks.Prelude.{
  ℕ, zero, suc, ◌+◌, ◌-◌, ◌*◌, ◌≤◌, ◌<◌, ◌≡◌, Bool, true, false, Option, none, some, List, [], ◌∷◌,
  ◌++◌, ◌==◌, if◌then◌else◌, length,
}

pub record IReader : Type 1 where
  pub State : Type 0
  pub read : ℕ → State → List ℕ × State

-- What the callers of a reader rely on: in its valid states it delivers, piece by piece, the bytes
-- that are pending, and something if there is room and anything is left.
pub record IsStream (r : IReader) : Type 1 where
  pub valid : r.State → Type 0
  pub pending : r.State → List ℕ
  pub read_valid : (n : ℕ) (s : r.State) → valid s → valid (r.read n s).1
  pub read_pending :
      (n : ℕ) (s : r.State) → valid s → pending s ≡ (r.read n s).0 ++ pending (r.read n s).1
  pub read_fits : (n : ℕ) (s : r.State) → valid s → length (r.read n s).0 ≤ n
  pub read_progress : (n : ℕ) (s : r.State) → valid s → 0 < n → (r.read n s).0 ≡ [] → pending s ≡ []

-- The size of the string of `ReadAllToString` before a read at `pos`.
abbrev pub grown : ℕ → ℕ → ℕ
grown size pos = if pos == size then size * 2 else size

module _ (r : IReader) where
  open r use {State, read}

  -- The loop of `ReadFull` with room for `n` bytes behind those found; `none` is `EOFException`.
  abbrev after_read :
      (ℕ → List ℕ → State → Option (List ℕ) × State)
      → ℕ
      → List ℕ
      → List ℕ × State
      → Option (List ℕ) × State
  after_read again n found ([], s) = (none, s)
  after_read again n found (c ∷ cs, s) = again (n - length (c ∷ cs)) (found ++ c ∷ cs) s

  pub full_loop : ℕ → ℕ → List ℕ → State → Option (List ℕ) × State
  full_loop fuel zero found s = (some found, s)
  full_loop zero (suc n) found s = (none, s)
  full_loop (suc fuel) (suc n) found s =
      after_read (λ m bytes t. full_loop fuel m bytes t) (suc n) found (read (suc n) s)

  -- `ReadFull`. Each round takes a byte at least, so `n` rounds are enough.
  pub read_full : ℕ → State → Option (List ℕ) × State
  unfolding full_loop
  read_full n s = full_loop n n [] s

  abbrev after_chunk :
      (List ℕ → State → Option (List ℕ × State)) → List ℕ → List ℕ × State → Option (List ℕ × State)
  after_chunk again found ([], s) = some (found, s)
  after_chunk again found (c ∷ cs, s) = again (found ++ c ∷ cs) s

  -- `ReadAllToString`, with `size` the size of its string; `none` if the fuel runs out.
  pub read_all : ℕ → ℕ → List ℕ → State → Option (List ℕ × State)
  read_all zero size found s = none
  read_all (suc fuel) size found s =
      let size' = grown size (length found) in
      after_chunk (λ bytes t. read_all fuel size' bytes t) found (read (size' - length found) s)

  pub read_all_to_string : ℕ → State → Option (List ℕ × State)
  unfolding read_all
  read_all_to_string fuel s = read_all fuel 1024 [] s
