-- ===== src/Cactus/Reader/Full.antt =====
-- tools/cactus/io/reader: what `ReadFull` and `ReadAllToString` take from a stream.
use cpp_many_tasks.Prelude.{
  ℕ, zero, suc, ◌-◌, ◌≤◌, ◌<◌, ◌≡◌, refl, sym, ap, ◌∙◌, ◌⊎◌, inl, inr, Option, none, some, List, [],
  ◌∷◌, ◌++◌, arith, append_assoc, append-nil, length, length-append,
}
use cpp_many_tasks.Cactus.Reader.{
  IReader, IsStream, full_loop, read_full, read_all, read_all_to_string, after_read, after_chunk,
  grown,
}

module _ {r : IReader} (stream : IsStream r) where
  open r use {State, read}
  open stream use {valid, pending, read_valid, read_pending, read_fits, read_progress}

  -- From `s` the first `n` pending bytes are taken behind `found`, or all of them, too few, with an
  -- exception.
  abbrev Taken : ℕ → List ℕ → State → Option (List ℕ) × State → Type 0
  Taken n found s result =
      ((bytes : List ℕ) × (t : State) × (result ≡ (some (found ++ bytes), t))
        × valid t
        × (pending s ≡ bytes ++ pending t)
        × (length bytes ≡ n))
      ⊎ ((t : State) × (result ≡ (none, t)) × valid t × (pending t ≡ []) × (length (pending s) < n))

  full_loop-Taken :
      (fuel n : ℕ) (found : List ℕ) (s : State)
      → valid s
      → n ≤ fuel
      → Taken n found s (full_loop r fuel n found s)
  unfolding full_loop
  full_loop-Taken fuel zero found s v enough =
      inl ([], s, ap (λ l. (some l, s)) (sym (append-nil found)), v, refl, refl)
  full_loop-Taken zero (suc n) found s v enough = absurd (omega arith)
  full_loop-Taken (suc fuel) (suc n) found s v enough =
      go (λ m bytes t vt h. full_loop-Taken fuel m bytes t vt h) (read (suc n) s)
        (read_valid (suc n) s v) (read_pending (suc n) s v) (read_fits (suc n) s v)
        (read_progress (suc n) s v (omega arith))
    where
      More : Type 0
      More =
          (m : ℕ) (bytes : List ℕ) (t : State)
          → valid t
          → m ≤ fuel
          → Taken m bytes t (full_loop r fuel m bytes t)

      go :
          More
          → (p : List ℕ × State) → valid p.1
          → pending s ≡ p.0 ++ pending p.1
          → length p.0 ≤ suc n
          → (p.0 ≡ [] → pending s ≡ [])
          → Taken
              (suc n)
              found
              s
              (after_read r (λ m bytes t. full_loop r fuel m bytes t) (suc n) found p)
      go more ([], t) vt split fits progress =
          inr (t, refl, vt, sym split ∙ progress refl, omega (arith, ap length (progress refl)))
      go more (c ∷ cs, t) vt split fits progress =
          elim (more (suc n - length (c ∷ cs)) (found ++ c ∷ cs) t vt (omega arith)) [
            | inl (bytes, u, result, vu, rest, size) ↦ inl (
              (c ∷ cs) ++ bytes,
              u,
              result ∙ ap (λ l. (some l, u)) (append_assoc found (c ∷ cs) bytes),
              vu,
              split ∙ ap (λ l. (c ∷ cs) ++ l) rest ∙ sym (append_assoc (c ∷ cs) bytes (pending u)),
              omega (arith, length-append (c ∷ cs) bytes),
            )
            | inr (u, result, vu, none_left, few) ↦ inr (
              u,
              result,
              vu,
              none_left,
              omega (arith, ap length split, length-append (c ∷ cs) (pending t)),
            )
          ]

  -- From a valid state of a stream `ReadFull` takes exactly the first `n` pending bytes, if there are so
  -- many. If there are fewer it
  -- throws, and nothing is left.
  pub read_full_lem :
      (n : ℕ) (s : State)
      → valid s
      → ((bytes : List ℕ) × (t : State) × (read_full r n s ≡ (some bytes, t))
          × valid t
          × (pending s ≡ bytes ++ pending t)
          × (length bytes ≡ n))
        ⊎ ((t : State) × (read_full r n s ≡ (none, t))
            × valid t
            × (pending t ≡ [])
            × (length (pending s) < n))
  unfolding read_full
  read_full_lem n s v = full_loop-Taken n n [] s v (omega arith)

  read_all_lem :
      (fuel size : ℕ) (found : List ℕ) (s : State)
      → valid s
      → length (pending s) < fuel
      → 0 < size
      → length found ≤ size
      → (t : State) × (read_all r fuel size found s ≡ some (found ++ pending s, t))
        × (pending t ≡ [])
  unfolding read_all
  read_all_lem zero size found s v enough pos fits = absurd (omega arith)
  read_all_lem (suc fuel) size found s v enough pos fits =
      let n = grown size (length found) - length found in
      go
        (λ bytes t vt h room.
          read_all_lem fuel (grown size (length found)) bytes t vt h (ground arith) room)
        (read n s) (read_valid n s v) (read_pending n s v) (read_fits n s v)
        (read_progress n s v (ground arith))
    where
      More : Type 0
      More =
          (bytes : List ℕ) (t : State)
          → valid t
          → length (pending t) < fuel
          → length bytes ≤ grown size (length found)
          → (u : State) × (read_all r fuel (grown size (length found)) bytes t
              ≡ some (bytes ++ pending t, u))
            × (pending u ≡ [])

      go :
          More
          → (p : List ℕ × State) → valid p.1
          → pending s ≡ p.0 ++ pending p.1
          → length p.0 ≤ grown size (length found) - length found
          → (p.0 ≡ [] → pending s ≡ [])
          → (u : State) × (after_chunk r
                (λ bytes t. read_all r fuel (grown size (length found)) bytes t)
                found
                p
              ≡ some (found ++ pending s, u))
            × (pending u ≡ [])
      go more ([], t) vt split room progress = (
        t,
        ap (λ l. some (l, t)) (sym (ap (λ l. found ++ l) (progress refl) ∙ append-nil found)),
        sym split ∙ progress refl,
      )
      go more (c ∷ cs, t) vt split room progress =
          let (u, result, none_left) =
            more (found ++ c ∷ cs) t vt
              (omega (arith, ap length split, length-append (c ∷ cs) (pending t)))
              (ground (arith, length-append found (c ∷ cs))) in
          (
            u,
            result
                ∙ ap (λ l. some (l, u))
                    (append_assoc found (c ∷ cs) (pending t) ∙ ap (λ l. found ++ l) (sym split)),
            none_left,
          )

  -- From a valid state of a stream `ReadAllToString` returns all that is pending, given a round more than there are bytes.
  pub read_all_to_string_lem :
      (fuel : ℕ) (s : State)
      → valid s
      → length (pending s) < fuel
      → (t : State) × (read_all_to_string r fuel s ≡ some (pending s, t)) × (pending t ≡ [])
  unfolding read_all_to_string
  read_all_to_string_lem fuel s v enough =
      read_all_lem fuel 1024 [] s v enough (omega arith) (omega arith)
