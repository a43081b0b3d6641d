-- ===== src/HashTable/Rehash/Whole.antt =====
-- hash-table/concurrent_hash_map.h: `Rehash` changes nothing that can be seen.
use native.Mathlib.Nat.{mod-lt}
use cpp_many_tasks.Prelude.Classes.{Eq, Order}
use cpp_many_tasks.Prelude.{
  ℕ, zero, suc, ◌*◌, ◌%◌, ◌≤◌, ◌<◌, ◌≡◌, ◌≢◌, refl, sym, ap, ◌∙◌, inl, inr, not, none, some, List,
  [], ◌∷◌, arith, All, length, Bool-cases, is_some, or_else, ltb, ◌==◌, if◌then◌else◌,
}
use cpp_many_tasks.HashTable.{
  HashMap, move_elements, rehash_list, rehash_below, resized, rehash, find, insert, insert_locked,
  is_overloaded,
}
use cpp_many_tasks.HashTable.Bucket.{assoc, assoc-update, IsSorted}
use cpp_many_tasks.HashTable.Shape.{
  total, total-update, update_at, update_at_ne, resized_at, total-resized,
}
use cpp_many_tasks.HashTable.Refinement.{IsValid, contents, find-contents, insert_locked_lem}
use cpp_many_tasks.HashTable.Rehash.{
  move_elements-Moves, move_elements-IsSorted, move_elements-All, move_elements-total, IsNew,
}

-- Where an element with the hash `h` is, once the lists below `i` are done, with `n` lists before.
abbrev place : ℕ → ℕ → ℕ → ℕ
place n i h = if ltb (h % n) i then h % (n * 2) else h % n

All-weaken :
    {A : Type 0} (P Q : A → Type 0) (l : List A) → ((a : A) → P a → Q a) → All P l → All Q l
All-weaken P Q [] f all = tt
All-weaken P Q (a ∷ l) f (first, all) = (f a first, All-weaken P Q l f all)

-- At the end every element is in its new list.
settle : (n h : ℕ) → 0 < n → place n (n * 2) h ≡ h % (n * 2)
settle n h pos = ground (arith, mod-lt h pos)

module _ {K V : Type 0} ⦃eq : Eq K⦄ ⦃ord : Order K⦄ (hasher : K → ℕ) where
  absent :
      (f : ℕ → ℕ) (j : ℕ) (key : K) (l : List (K × V))
      → f (hasher key) ≢ j
      → All (λ (e : K × V). f (hasher e.0) ≡ j) l
      → assoc key l ≡ none
  unfolding assoc
  absent f j key [] h all = refl
  absent f j key ((k, v) ∷ l) h (first, all) =
      ground (arith, absent f j key l h all, eq.beq_iff k key, first)

  -- What holds once the lists below `i` of a map `m` are done.
  record IsDone (m : HashMap K V) (i : ℕ) (table : ℕ → List (K × V)) : Type 0 where
    sorted : (j : ℕ) → IsSorted (table j)
    placed : (j : ℕ) → All (λ (e : K × V). place m.lists_cnt i (hasher e.0) ≡ j) (table j)
    held : (key : K) → assoc key (table (place m.lists_cnt i (hasher key))) ≡ contents hasher m key
    counted : total (m.lists_cnt * 2) table ≡ m.size

  module _ (m : HashMap K V) (pos : 0 < m.lists_cnt) (i : ℕ) (table : ℕ → List (K × V))
      (done : IsDone m i table) where
    list_held :
        (j : ℕ) (key : K)
        → assoc key (rehash_list hasher (m.lists_cnt * 2) i table j) ≡ (
            if hasher key % (m.lists_cnt * 2) == j
            then or_else (if i == j then none else assoc key (table j)) (assoc key (table i))
            else if i == j
            then none
            else assoc key (table j))
    list_held j key =
        let moves = move_elements-Moves hasher (m.lists_cnt * 2) i (table i) table done.sorted in
        ground (
          arith,
          assoc-update key i j (move_elements hasher (m.lists_cnt * 2) i (table i) table).0
              (move_elements hasher (m.lists_cnt * 2) i (table i) table).1,
          moves.kept key,
          moves.others j key,
        )

    next_held :
        (key : K)
        → assoc key
            (rehash_list hasher (m.lists_cnt * 2) i table (place m.lists_cnt (suc i) (hasher key)))
          ≡ contents hasher m key
    next_held key =
        let j = place m.lists_cnt (suc i) (hasher key) in
        ground (
          arith,
          list_held j key,
          done.held key,
          absent (place m.lists_cnt i) j key (table j),
          done.placed j,
          absent (place m.lists_cnt i) i key (table i),
          done.placed i,
        )

    IsNew-list :
        (l : List (K × V))
        → All (λ (e : K × V). place m.lists_cnt i (hasher e.0) ≡ i) l
        → All (IsNew hasher (m.lists_cnt * 2) i table) l
    IsNew-list [] all = tt
    IsNew-list ((k, v) ∷ l) (first, all) = (
      λ h.
          let j = hasher k % (m.lists_cnt * 2) in
          absent (place m.lists_cnt i) j k (table j) (λ e. h (sym e ∙ first)) (done.placed j),
      IsNew-list l all,
    )

    next_total :
        i < m.lists_cnt * 2
        → total (m.lists_cnt * 2) (rehash_list hasher (m.lists_cnt * 2) i table) ≡ m.size
    next_total inside =
        let n = m.lists_cnt * 2 in
        let r = move_elements hasher n i (table i) table in
        let moves = move_elements-Moves hasher n i (table i) table done.sorted in
        omega (
          arith,
          total-update n i r.0 r.1 inside,
          ap length moves.same,
          move_elements-total hasher n i (table i) table (omega arith) (done.sorted i) done.sorted
              (IsNew-list (table i) (done.placed i)),
          done.counted,
        )

    next-IsDone :
        i < m.lists_cnt * 2 → IsDone m (suc i) (rehash_list hasher (m.lists_cnt * 2) i table)
    next-IsDone inside =
        let n = m.lists_cnt * 2 in
        let r = move_elements hasher n i (table i) table in
        let (kept, others) =
          move_elements-IsSorted hasher n i (table i) table (done.sorted i) done.sorted in
        let (kept_placed, others_placed) =
          move_elements-All hasher (λ j (e : K × V). place m.lists_cnt (suc i) (hasher e.0) ≡ j) n i
            (table i) table
            (All-weaken (λ (e : K × V). place m.lists_cnt i (hasher e.0) ≡ i)
              (λ (e : K × V). place m.lists_cnt (suc i) (hasher e.0) ≡ hasher e.0 % n) (table i)
              (λ e h. ground arith) (done.placed i))
            (λ j h.
              All-weaken (λ (e : K × V). place m.lists_cnt i (hasher e.0) ≡ j)
                (λ (e : K × V). place m.lists_cnt (suc i) (hasher e.0) ≡ j) (table j)
                (λ e g. ground arith) (done.placed j)) in
        record {
          sorted = update_at (λ _. IsSorted) i r.0 r.1 kept others;
          placed =
              update_at_ne (λ j. All (λ (e : K × V). place m.lists_cnt (suc i) (hasher e.0) ≡ j)) i
                r.0 r.1 kept_placed others_placed;
          held = next_held;
          counted = next_total inside;
        }

  rehash_below-IsDone :
      (m : HashMap K V) (i : ℕ)
      → IsValid hasher m
      → i ≤ m.lists_cnt * 2
      → IsDone m i (rehash_below hasher (m.lists_cnt * 2) i (resized m.lists_cnt m.table))
  unfolding rehash_below
  rehash_below-IsDone m zero v le = record {
    sorted = λ j. resized_at (λ _. IsSorted) m.lists_cnt m.table v.sorted (λ _. tt) j;
    placed =
        resized_at (λ j. All (λ (e : K × V). place m.lists_cnt 0 (hasher e.0) ≡ j)) m.lists_cnt
          m.table
          (λ j.
            All-weaken (λ (e : K × V). hasher e.0 % m.lists_cnt ≡ j)
              (λ (e : K × V). place m.lists_cnt 0 (hasher e.0) ≡ j) (m.table j)
              (λ e h. ground arith) (v.placed j))
          (λ _. tt);
    held = λ key. ground (arith, mod-lt (hasher key) v.some_lists);
    counted = total-resized m.lists_cnt m.table ∙ sym v.counted;
  }
  rehash_below-IsDone m (suc i) v le =
      next-IsDone m v.some_lists i
        (rehash_below hasher (m.lists_cnt * 2) i (resized m.lists_cnt m.table))
        (rehash_below-IsDone m i v (omega arith)) (omega arith)

  -- `Rehash` doubles the number of lists, the state stays valid, and every key keeps its value.
  pub rehash_lem :
      (m : HashMap K V)
      → IsValid hasher m
      → IsValid hasher (rehash hasher m)
        × ((rehash hasher m).lists_cnt ≡ m.lists_cnt * 2)
        × ((rehash hasher m).size ≡ m.size)
        × ((key : K) → contents hasher (rehash hasher m) key ≡ contents hasher m key)
  unfolding rehash
  rehash_lem m v =
      let n = m.lists_cnt * 2 in
      let done = rehash_below-IsDone m n v (omega arith) in
      let settled = λ (h : ℕ). settle m.lists_cnt h v.some_lists in
      (
        record {
          some_lists = omega (arith, v.some_lists);
          some_mutexes = v.some_mutexes;
          ratio = v.ratio * 2;
          divides = grind (arith, v.divides);
          sorted = done.sorted;
          placed = λ j.
              All-weaken (λ (e : K × V). place m.lists_cnt n (hasher e.0) ≡ j)
                (λ (e : K × V). hasher e.0 % n ≡ j) _ (λ e h. sym (settled (hasher e.0)) ∙ h)
                (done.placed j);
          counted = sym done.counted;
        },
        refl,
        refl,
        λ key. rw (← settled (hasher key)) (done.held key),
      )

  abbrev Inserted : HashMap K V → K → V → HashMap K V → Type 0
  Inserted m key value m' =
      IsValid hasher m'
      × ((j : K)
          → contents hasher m' j
            ≡ or_else (contents hasher m j) (if eq.beq key j then some value else none))

  -- `Insert` with the rehash that it may bring enters a new key and refuses an old one, as `Find` sees
  -- it; no other key changes, and the state stays valid.
  pub insert_lem :
      (m : HashMap K V) (key : K) (value : V)
      → IsValid hasher m
      → ((insert hasher key value m).0 ≡ not (is_some (find hasher key m)))
        × IsValid hasher (insert hasher key value m).1
        × ((j : K)
            → find hasher j (insert hasher key value m).1
              ≡ or_else (find hasher j m) (if eq.beq key j then some value else none))
  unfolding insert
  insert_lem m key value v =
      let (res, valid, same) = insert_locked_lem hasher m key value v in
      let (valid', same') = after (insert_locked hasher key value m).1 valid same in
      (
        res ∙ ap (λ o. not (is_some o)) (sym (find-contents hasher m key v)),
        valid',
        λ j.
            find-contents hasher _ j valid'
            ∙ same' j
            ∙ ap (λ o. or_else o (if eq.beq key j then some value else none))
                (sym (find-contents hasher m j v)),
      )
    where
      after :
          (m' : HashMap K V)
          → IsValid hasher m'
          → ((j : K)
              → contents hasher m' j
                ≡ or_else (contents hasher m j) (if eq.beq key j then some value else none))
          → Inserted m key value (if is_overloaded hasher m' then rehash hasher m' else m')
      after m' valid same = elim (Bool-cases (is_overloaded hasher m')) [
        | inl e ↦
            let (valid', _, _, same') = rehash_lem m' valid in rw e (valid', λ j. same' j ∙ same j)
        | inr e ↦ rw e (valid, same)
      ]
