-- ===== src/HashTable/Bucket.antt =====
-- hash-table/concurrent_hash_map.h: the sorted list of a bucket.
use cpp_many_tasks.Prelude.Classes.{Eq, Order}
use cpp_many_tasks.Prelude.{
  is_some, or_else, ℕ, suc, ◌≡◌, refl, inl, inr, true, not, Option, none, some, List, [], ◌∷◌, ◌==◌,
  arith, All, length, Bool-cases, if◌then◌else◌,
}
use cpp_many_tasks.HashTable.{update, find_in_list, insert_into_list, erase_from_list}

module _ {K V : Type 0} ⦃eq : Eq K⦄ ⦃ord : Order K⦄ where
  -- What a list holds for a key, in whatever order it is.
  unfoldable pub assoc : K → List (K × V) → Option V
  assoc key [] = none
  assoc key ((k, v) ∷ l) = if eq.beq k key then some v else assoc key l

  -- The keys grow.
  abbrev pub IsSorted : List (K × V) → Type 0
  IsSorted [] = Unit
  IsSorted ((k, v) ∷ l) = All (λ (e : K × V). ord.lt k e.0 ≡ true) l × IsSorted l

  -- No key below the first one is in a sorted list.
  assoc_below :
      (key j : K) (l : List (K × V))
      → ord.lt key j ≡ true
      → All (λ (e : K × V). ord.lt j e.0 ≡ true) l
      → assoc key l ≡ none
  unfolding assoc
  assoc_below key j [] h all = refl
  assoc_below key j ((k, v) ∷ l) h (first, all) =
      ground (
        arith,
        assoc_below key j l h all,
        ord.lt_trans key j k,
        ord.lt_irrefl key,
        eq.beq_iff k key,
      )

  assoc_self :
      (k : K) (l : List (K × V)) → All (λ (e : K × V). ord.lt k e.0 ≡ true) l → assoc k l ≡ none
  unfolding assoc
  assoc_self k [] all = refl
  assoc_self k ((j, v) ∷ l) (first, all) =
      ground (arith, assoc_self k l all, ord.lt_irrefl k, eq.beq_iff j k)

  -- In a sorted list the search may stop at the first key that is not less.
  pub find_in_list_lem :
      (key : K) (l : List (K × V)) → IsSorted l → find_in_list key l ≡ assoc key l
  unfolding find_in_list assoc
  find_in_list_lem key [] s = refl
  find_in_list_lem key ((k, v) ∷ l) (all, s) = ground (
    arith,
    find_in_list_lem key l s,
    ord.lt_connex key k,
    ord.lt_irrefl key,
    eq.beq_iff k key,
    assoc_below key k l,
  )

  -- Insertion enters a new key and refuses an old one; no other key changes.
  pub insert_into_list_lem :
      (key j : K) (value : V) (l : List (K × V))
      → IsSorted l
      → assoc j (insert_into_list key value l).1
        ≡ or_else (assoc j l) (if eq.beq key j then some value else none)
  unfolding insert_into_list assoc
  insert_into_list_lem key j value [] s = ground arith
  insert_into_list_lem key j value ((k, v) ∷ l) (all, s) = ground (
    arith,
    insert_into_list_lem key j value l s,
    ord.lt_connex key k,
    ord.lt_irrefl key,
    eq.beq_iff k j,
    eq.beq_iff key j,
    eq.beq_iff k key,
    assoc_below key k l,
  )

  pub insert_into_list-found :
      (key : K) (value : V) (l : List (K × V))
      → IsSorted l
      → (insert_into_list key value l).0 ≡ not (is_some (assoc key l))
  unfolding insert_into_list assoc
  insert_into_list-found key value [] s = refl
  insert_into_list-found key value ((k, v) ∷ l) (all, s) = ground (
    arith,
    insert_into_list-found key value l s,
    ord.lt_connex key k,
    ord.lt_irrefl key,
    eq.beq_iff k key,
    assoc_below key k l,
  )

  pub All-insert_into_list :
      (P : K × V → Type 0) (key : K) (value : V) (l : List (K × V))
      → P (key, value)
      → All P l
      → All P (insert_into_list key value l).1
  unfolding insert_into_list
  All-insert_into_list P key value [] p all = (p, tt)
  All-insert_into_list P key value ((k, v) ∷ l) p (first, all) = elim (Bool-cases (ord.lt k key)) [
    | inl e ↦ rw e (first, All-insert_into_list P key value l p all)
    | inr e ↦ elim (Bool-cases (eq.beq k key)) [
      | inl f ↦ rw (e, f) (first, all)
      | inr f ↦ rw (e, f) (p, (first, all))
    ]
  ]

  above-All :
      (key k : K) (l : List (K × V))
      → ord.lt key k ≡ true
      → All (λ (e : K × V). ord.lt k e.0 ≡ true) l
      → All (λ (e : K × V). ord.lt key e.0 ≡ true) l
  above-All key k [] h all = tt
  above-All key k ((j, v) ∷ l) h (first, all) =
      (ord.lt_trans key k j h first, above-All key k l h all)

  pub insert_into_list-IsSorted :
      (key : K) (value : V) (l : List (K × V))
      → IsSorted l
      → IsSorted (insert_into_list key value l).1
  unfolding insert_into_list
  insert_into_list-IsSorted key value [] s = (tt, tt)
  insert_into_list-IsSorted key value ((k, v) ∷ l) (all, s) = elim (Bool-cases (ord.lt k key)) [
    | inl e ↦ rw e (
      All-insert_into_list (λ (p : K × V). ord.lt k p.0 ≡ true) key value l e all,
      insert_into_list-IsSorted key value l s,
    )
    | inr e ↦ elim (Bool-cases (eq.beq k key)) [
      | inl f ↦ rw (e, f) (all, s)
      | inr f ↦
          let less : ord.lt key k ≡ true = ground (arith, ord.lt_connex key k, eq.beq_iff k key) in
          rw (e, f) ((less, above-All key k l less all), (all, s))
    ]
  ]

  -- Erasure removes the key and changes no other one.
  pub erase_from_list_lem :
      (key j : K) (l : List (K × V))
      → IsSorted l
      → assoc j (erase_from_list key l).1 ≡ (if eq.beq key j then none else assoc j l)
  unfolding erase_from_list assoc
  erase_from_list_lem key j [] s = ground arith
  erase_from_list_lem key j ((k, v) ∷ l) (all, s) = ground (
    arith,
    erase_from_list_lem key j l s,
    ord.lt_connex key k,
    ord.lt_irrefl key,
    eq.beq_iff k j,
    eq.beq_iff key j,
    eq.beq_iff k key,
    assoc_below key k l,
    assoc_self k l all,
  )

  pub erase_from_list-found :
      (key : K) (l : List (K × V)) → IsSorted l → (erase_from_list key l).0 ≡ is_some (assoc key l)
  unfolding erase_from_list assoc
  erase_from_list-found key [] s = refl
  erase_from_list-found key ((k, v) ∷ l) (all, s) = ground (
    arith,
    erase_from_list-found key l s,
    ord.lt_connex key k,
    ord.lt_irrefl key,
    eq.beq_iff k key,
    assoc_below key k l,
  )

  pub All-erase_from_list :
      (P : K × V → Type 0) (key : K) (l : List (K × V)) → All P l → All P (erase_from_list key l).1
  unfolding erase_from_list
  All-erase_from_list P key [] all = tt
  All-erase_from_list P key ((k, v) ∷ l) (first, all) = elim (Bool-cases (ord.lt k key)) [
    | inl e ↦ rw e (first, All-erase_from_list P key l all)
    | inr e ↦ elim (Bool-cases (eq.beq k key)) [
      | inl f ↦ rw (e, f) all
      | inr f ↦ rw (e, f) (first, all)
    ]
  ]

  pub erase_from_list-IsSorted :
      (key : K) (l : List (K × V)) → IsSorted l → IsSorted (erase_from_list key l).1
  unfolding erase_from_list
  erase_from_list-IsSorted key [] s = tt
  erase_from_list-IsSorted key ((k, v) ∷ l) (all, s) = elim (Bool-cases (ord.lt k key)) [
    | inl e ↦ rw e (
      All-erase_from_list (λ (p : K × V). ord.lt k p.0 ≡ true) key l all,
      erase_from_list-IsSorted key l s,
    )
    | inr e ↦ elim (Bool-cases (eq.beq k key)) [ inl f ↦ rw (e, f) s | inr f ↦ rw (e, f) (all, s) ]
  ]

  pub assoc-update :
      (j : K) (i k : ℕ) (l : List (K × V)) (table : ℕ → List (K × V))
      → assoc j (update i l table k) ≡ (if i == k then assoc j l else assoc j (table k))
  unfolding update
  assoc-update j i k l table = ground arith

  pub length-insert_into_list :
      (key : K) (value : V) (l : List (K × V))
      → length (insert_into_list key value l).1
        ≡ (if (insert_into_list key value l).0 then suc (length l) else length l)
  unfolding insert_into_list
  length-insert_into_list key value [] = refl
  length-insert_into_list key value ((k, v) ∷ l) =
      ground (arith, length-insert_into_list key value l)

  pub length-erase_from_list :
      (key : K) (l : List (K × V))
      → length l ≡ (
          if (erase_from_list key l).0
          then suc (length (erase_from_list key l).1)
          else length (erase_from_list key l).1)
  unfolding erase_from_list
  length-erase_from_list key [] = refl
  length-erase_from_list key ((k, v) ∷ l) = ground (arith, length-erase_from_list key l)
