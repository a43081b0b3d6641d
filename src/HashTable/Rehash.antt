-- ===== src/HashTable/Rehash.antt =====
-- hash-table/concurrent_hash_map.h: the inner loop of `Rehash`, over one list.
pub mod Whole
use mathlib.Core.Path.{subst}
use native.Mathlib.Nat.{mod-mod_of_dvd}
use cpp_many_tasks.Prelude.Classes.{Eq, Order}
use cpp_many_tasks.Prelude.{
  ℕ, zero, suc, ◌+◌, ◌-◌, ◌*◌, ◌/◌, ◌%◌, ◌≤◌, ◌<◌, ◌≡◌, ◌≢◌, refl, sym, ap, ◌∙◌, ◌⊎◌, inl, inr,
  Bool, true, false, not, Option, none, some, List, [], ◌∷◌, arith, All, length, Bool-cases,
  is_some, or_else, ltb, ◌==◌, if◌then◌else◌,
}
use cpp_many_tasks.HashTable.{
  HashMap, update, insert_into_list, list_idx, move_elements, rehash_list, rehash_below, resized,
  rehash,
}
use cpp_many_tasks.HashTable.Bucket.{
  assoc, assoc-update, length-insert_into_list, IsSorted, insert_into_list_lem,
  insert_into_list-found, insert_into_list-IsSorted, All-insert_into_list,
}
use cpp_many_tasks.HashTable.Shape.{total, total-update, update_lem, update_at}
use cpp_many_tasks.HashTable.Refinement.{IsPlaced, IsValid, contents}

module _ {K V : Type 0} ⦃eq : Eq K⦄ ⦃ord : Order K⦄ (hasher : K → ℕ) where
  -- What the inner loop does to every list, `l` being the elements that are still to come.
  record Moves (n i : ℕ) (l : List (K × V)) (table : ℕ → List (K × V))
      (r : List (K × V) × (ℕ → List (K × V))) : Type 0 where
    kept : (key : K) → assoc key r.0 ≡ (if hasher key % n == i then assoc key l else none)
    same : r.1 i ≡ table i
    others :
        (j : ℕ) (key : K)
        → i ≢ j
        → assoc key (r.1 j) ≡ (
            if hasher key % n == j
            then or_else (assoc key (table j)) (assoc key l)
            else assoc key (table j))

  move_elements-Moves :
      (n i : ℕ) (l : List (K × V)) (table : ℕ → List (K × V))
      → ((j : ℕ) → IsSorted (table j))
      → Moves n i l table (move_elements hasher n i l table)
  unfolding move_elements assoc
  move_elements-Moves n i [] table sorted = record {
    kept = λ k. ground arith;
    same = refl;
    others = λ j k h. ground arith;
  }
  move_elements-Moves n i ((k, v) ∷ l) table sorted = elim (Bool-cases (hasher k % n == i)) [
    | inl e ↦
        let ih = move_elements-Moves n i l table sorted in
        rw e (record {
          kept = λ key. ground (arith, ih.kept key, eq.beq_iff k key);
          same = ih.same;
          others = λ j key h. ground (arith, ih.others j key h, eq.beq_iff k key);
        })
    | inr e ↦
        let new_idx = hasher k % n in
        let new_list = (insert_into_list k v (table new_idx)).1 in
        let ih = move_elements-Moves n i l (update new_idx new_list table) (
          update_at (λ _. IsSorted) new_idx new_list table
            (insert_into_list-IsSorted k v (table new_idx) (sorted new_idx)) sorted) in
        rw e (record {
          kept = λ key. ground (arith, ih.kept key, eq.beq_iff k key);
          same = ground (arith, ih.same, update_lem i new_idx new_list table);
          others = λ j key h. ground (
            arith,
            ih.others j key h,
            assoc-update key new_idx j new_list table,
            insert_into_list_lem k key v (table new_idx) (sorted new_idx),
            eq.beq_iff k key,
          );
        })
  ]

  -- The elements that stay are some of those that were there.
  All-kept :
      (P : K × V → Type 0) (n i : ℕ) (l : List (K × V)) (table : ℕ → List (K × V))
      → All P l
      → All P (move_elements hasher n i l table).0
  unfolding move_elements
  All-kept P n i [] table all = tt
  All-kept P n i ((k, v) ∷ l) table (first, all) = elim (Bool-cases (hasher k % n == i)) [
    | inl e ↦ rw e (first, All-kept P n i l table all)
    | inr e ↦ rw e (All-kept P n i l _ all)
  ]

  move_elements-IsSorted :
      (n i : ℕ) (l : List (K × V)) (table : ℕ → List (K × V))
      → IsSorted l
      → ((j : ℕ) → IsSorted (table j))
      → IsSorted (move_elements hasher n i l table).0
        × ((j : ℕ) → IsSorted ((move_elements hasher n i l table).1 j))
  unfolding move_elements
  move_elements-IsSorted n i [] table s sorted = (tt, sorted)
  move_elements-IsSorted n i ((k, v) ∷ l) table (all, s) sorted =
      elim (Bool-cases (hasher k % n == i)) [
        | inl e ↦
            let (kept, others) = move_elements-IsSorted n i l table s sorted in
            rw e ((All-kept (λ (p : K × V). ord.lt k p.0 ≡ true) n i l table all, kept), others)
        | inr e ↦
            let new_idx = hasher k % n in
            rw e (
              move_elements-IsSorted n i l _ s (
                update_at (λ _. IsSorted) new_idx (insert_into_list k v (table new_idx)).1 table
                  (insert_into_list-IsSorted k v (table new_idx) (sorted new_idx)) sorted))
      ]

  -- Where every element may stand in the list of its hash, every list is as it may be afterwards.
  move_elements-All :
      (Q : ℕ → K × V → Type 0) (n i : ℕ) (l : List (K × V)) (table : ℕ → List (K × V))
      → All (λ (e : K × V). Q (hasher e.0 % n) e) l
      → ((j : ℕ) → i ≢ j → All (Q j) (table j))
      → All (Q i) (move_elements hasher n i l table).0
        × ((j : ℕ) → i ≢ j → All (Q j) ((move_elements hasher n i l table).1 j))
  unfolding move_elements
  move_elements-All Q n i [] table all others = (tt, others)
  move_elements-All Q n i ((k, v) ∷ l) table (first, all) others =
      elim (Bool-cases (hasher k % n == i)) [
        | inl e ↦
            let (kept, moved) = move_elements-All Q n i l table all others in
            rw e ((subst (λ j. Q j (k, v)) (ground arith) first, kept), moved)
        | inr e ↦
            let new_idx = hasher k % n in
            rw e (
              move_elements-All Q n i l _ all (
                update_at (λ j m. i ≢ j → All (Q j) m) new_idx
                  (insert_into_list k v (table new_idx)).1 table
                  (λ h.
                    All-insert_into_list (Q new_idx) k v (table new_idx) first (others new_idx h))
                  others))
      ]

  -- The keys that move are not yet in their new lists.
  abbrev IsNew : ℕ → ℕ → (ℕ → List (K × V)) → K × V → Type 0
  IsNew n i table e = hasher e.0 % n ≢ i → assoc e.0 (table (hasher e.0 % n)) ≡ none

  IsNew-update :
      (n i : ℕ) (k : K) (v : V) (l : List (K × V)) (table : ℕ → List (K × V))
      → ((j : ℕ) → IsSorted (table j))
      → All (λ (e : K × V). ord.lt k e.0 ≡ true) l
      → All (IsNew n i table) l
      → All
          (IsNew n i (update (hasher k % n) (insert_into_list k v (table (hasher k % n))).1 table))
          l
  IsNew-update n i k v [] table sorted above new = tt
  IsNew-update n i k v ((j, w) ∷ l) table sorted (a, above) (f, new) = (
    λ h. ground (
      arith,
      f h,
      assoc-update j (hasher k % n) (hasher j % n) (insert_into_list k v (table (hasher k % n))).1
          table,
      insert_into_list_lem k j v (table (hasher k % n)) (sorted (hasher k % n)),
      eq.beq_iff k j,
      ord.lt_irrefl k,
    ),
    IsNew-update n i k v l table sorted above new,
  )

  move_elements-total :
      (n i : ℕ) (l : List (K × V)) (table : ℕ → List (K × V))
      → 0 < n
      → IsSorted l
      → ((j : ℕ) → IsSorted (table j))
      → All (IsNew n i table) l
      → length (move_elements hasher n i l table).0 + total n (move_elements hasher n i l table).1
        ≡ length l + total n table
  unfolding move_elements
  move_elements-total n i [] table pos s sorted new = refl
  move_elements-total n i ((k, v) ∷ l) table pos (all, s) sorted (first, new) =
      elim (Bool-cases (hasher k % n == i)) [
        | inl e ↦ rw e (omega (arith, move_elements-total n i l table pos s sorted new))
        | inr e ↦
            let new_idx = hasher k % n in
            let new_list = (insert_into_list k v (table new_idx)).1 in
            rw e (
              ground (
                arith,
                move_elements-total n i l (update new_idx new_list table) pos s
                    (update_at (λ _. IsSorted) new_idx new_list table
                      (insert_into_list-IsSorted k v (table new_idx) (sorted new_idx)) sorted)
                    (IsNew-update n i k v l table sorted all new),
                total-update n new_idx new_list table,
                length-insert_into_list k v (table new_idx),
                insert_into_list-found k v (table new_idx) (sorted new_idx),
                first (ground arith),
              ))
      ]
