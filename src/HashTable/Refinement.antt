-- ===== src/HashTable/Refinement.antt =====
-- hash-table/concurrent_hash_map.h: `ConcurrentHashMap` is a map.
use mathlib.Core.Path.{subst}
use Prim.Native.Nat.{◌∣◌}
use native.Mathlib.Nat.{dvd-mul_right, mod-mod_of_dvd}
use cpp_many_tasks.Prelude.Classes.{Eq, Order}
use cpp_many_tasks.Prelude.{
  ℕ, ◌*◌, ◌%◌, ◌<◌, ◌≡◌, refl, sym, ap, ◌∙◌, not, Option, none, some, List, arith, All, is_some,
  or_else, if◌then◌else◌,
}
use cpp_many_tasks.HashTable.{
  HashMap, find, insert_into_list, erase_from_list, insert_locked, erase, init, initial_lists,
  clear, find_in_list, list_idx, mutex_idx,
}
use cpp_many_tasks.HashTable.Bucket.{
  assoc, assoc-update, length-insert_into_list, length-erase_from_list, IsSorted, find_in_list_lem,
  insert_into_list_lem, insert_into_list-found, insert_into_list-IsSorted, All-insert_into_list,
  erase_from_list_lem, erase_from_list-found, erase_from_list-IsSorted, All-erase_from_list,
}
use cpp_many_tasks.HashTable.Shape.{total, total-update, update_at, total-nil, initial_lists_pos}

module _ {K V : Type 0} ⦃eq : Eq K⦄ ⦃ord : Order K⦄ (hasher : K → ℕ) where
  -- An element stands in the list of its hash.
  abbrev pub IsPlaced : ℕ → ℕ → List (K × V) → Type 0
  IsPlaced n i = All (λ (e : K × V). hasher e.0 % n ≡ i)

  pub record IsValid (m : HashMap K V) : Type 0 where
    pub some_lists : 0 < m.lists_cnt
    pub some_mutexes : 0 < m.mutexes_cnt
    pub ratio : ℕ
    pub divides : m.lists_cnt ≡ m.mutexes_cnt * ratio
    pub sorted : (i : ℕ) → IsSorted (m.table i)
    pub placed : (i : ℕ) → IsPlaced m.lists_cnt i (m.table i)
    pub counted : m.size ≡ total m.lists_cnt m.table

  -- The abstract map.
  abbrev pub contents : HashMap K V → K → Option V
  contents m key = assoc key (m.table (list_idx hasher m key))

  -- `Find` returns what the map holds.
  pub find-contents : (m : HashMap K V) (key : K) → IsValid m → find hasher key m ≡ contents m key
  unfolding find
  find-contents m key v =
      find_in_list_lem key (m.table (list_idx hasher m key)) (v.sorted (list_idx hasher m key))

  -- `Insert` under its mutex enters a new key and refuses an old one; no other key changes, and the
  -- state stays valid.
  pub insert_locked_lem :
      (m : HashMap K V) (key : K) (value : V)
      → IsValid m
      → ((insert_locked hasher key value m).0 ≡ not (is_some (contents m key)))
        × IsValid (insert_locked hasher key value m).1
        × ((j : K)
            → contents (insert_locked hasher key value m).1 j
              ≡ or_else (contents m j) (if eq.beq key j then some value else none))
  unfolding insert_locked
  insert_locked_lem m key value v =
      let i = list_idx hasher m key in
      let l = m.table i in
      (
        insert_into_list-found key value l (v.sorted i),
        record {
          some_lists = v.some_lists;
          some_mutexes = v.some_mutexes;
          ratio = v.ratio;
          divides = v.divides;
          sorted =
              update_at (λ _. IsSorted) i (insert_into_list key value l).1 m.table
                (insert_into_list-IsSorted key value l (v.sorted i)) v.sorted;
          placed =
              update_at (IsPlaced m.lists_cnt) i (insert_into_list key value l).1 m.table
                (All-insert_into_list (λ (e : K × V). hasher e.0 % m.lists_cnt ≡ i) key value l refl
                  (v.placed i))
                v.placed;
          counted = ground (
            arith,
            total-update m.lists_cnt i (insert_into_list key value l).1 m.table,
            length-insert_into_list key value l,
            v.counted,
          );
        },
        λ j. ground (
          arith,
          assoc-update j i (list_idx hasher m j) (insert_into_list key value l).1 m.table,
          insert_into_list_lem key j value l (v.sorted i),
          eq.beq_iff key j,
        ),
      )

  erase_locked_lem :
      (m : HashMap K V) (key : K)
      → IsValid m
      → ((erase hasher key m).0 ≡ is_some (contents m key))
        × IsValid (erase hasher key m).1
        × ((j : K)
            → contents (erase hasher key m).1 j ≡ (if eq.beq key j then none else contents m j))
  unfolding erase
  erase_locked_lem m key v =
      let i = list_idx hasher m key in
      let l = m.table i in
      (
        erase_from_list-found key l (v.sorted i),
        record {
          some_lists = v.some_lists;
          some_mutexes = v.some_mutexes;
          ratio = v.ratio;
          divides = v.divides;
          sorted =
              update_at (λ _. IsSorted) i (erase_from_list key l).1 m.table
                (erase_from_list-IsSorted key l (v.sorted i)) v.sorted;
          placed =
              update_at (IsPlaced m.lists_cnt) i (erase_from_list key l).1 m.table
                (All-erase_from_list (λ (e : K × V). hasher e.0 % m.lists_cnt ≡ i) key l
                  (v.placed i))
                v.placed;
          counted = ground (
            arith,
            total-update m.lists_cnt i (erase_from_list key l).1 m.table,
            length-erase_from_list key l,
            v.counted,
          );
        },
        λ j. ground (
          arith,
          assoc-update j i (list_idx hasher m j) (erase_from_list key l).1 m.table,
          erase_from_list_lem key j l (v.sorted i),
          eq.beq_iff key j,
        ),
      )

  -- `Erase` removes the key if it is there, as `Find` sees it, and says so; no other key changes, and
  -- the state stays valid.
  pub erase_lem :
      (m : HashMap K V) (key : K)
      → IsValid m
      → ((erase hasher key m).0 ≡ is_some (find hasher key m))
        × IsValid (erase hasher key m).1
        × ((j : K)
            → find hasher j (erase hasher key m).1
              ≡ (if eq.beq key j then none else find hasher j m))
  erase_lem m key v =
      let (res, valid, same) = erase_locked_lem m key v in
      (
        res ∙ ap is_some (sym (find-contents m key v)),
        valid,
        λ j.
            find-contents _ j valid
            ∙ same j
            ∙ ap (λ o. if eq.beq key j then none else o) (sym (find-contents m j v)),
      )

  -- A new table is valid and empty, and so is a cleared one.
  pub init-IsValid :
      (expected : Option ℕ) (threads : ℕ) → 0 < threads → IsValid (init expected threads)
  unfolding init
  init-IsValid expected threads pos = record {
    some_lists = initial_lists_pos expected threads pos;
    some_mutexes = initial_lists_pos expected threads pos;
    ratio = 1;
    divides = omega arith;
    sorted = λ _. tt;
    placed = λ _. tt;
    counted = sym (total-nil K V (initial_lists expected threads));
  }

  pub clear-IsValid :
      (m : HashMap K V)
      → IsValid m
      → IsValid (clear m) × ((key : K) → find hasher key (clear m) ≡ none)
  unfolding clear find find_in_list
  clear-IsValid m v = (
    record {
      some_lists = v.some_lists;
      some_mutexes = v.some_mutexes;
      ratio = v.ratio;
      divides = v.divides;
      sorted = λ _. tt;
      placed = λ _. tt;
      counted = sym (total-nil K V m.lists_cnt);
    },
    λ key. refl,
  )

  -- Two keys whose elements stand in one list have the same mutex.
  pub list_idx-mutex_idx :
      (m : HashMap K V) (j k : K)
      → IsValid m
      → list_idx hasher m j ≡ list_idx hasher m k
      → mutex_idx hasher m j ≡ mutex_idx hasher m k
  list_idx-mutex_idx m j k v e = sym (through j) ∙ ap (λ i. i % m.mutexes_cnt) e ∙ through k
    where
      through : (j : K) → hasher j % m.lists_cnt % m.mutexes_cnt ≡ hasher j % m.mutexes_cnt
      through j =
          mod-mod_of_dvd m.mutexes_cnt (hasher j)
            (subst (λ n. m.mutexes_cnt ∣ n) (sym v.divides) (dvd-mul_right m.mutexes_cnt v.ratio))
