-- ===== src/HashTable.antt =====
-- hash-table/concurrent_hash_map.h: `ConcurrentHashMap`. The vector of lists is its size with a
-- function from indices. What a call does under the mutex of its list is one step, and so is `Rehash`
-- under all mutexes; an unsigned overflow of the hash is the hasher's own business.
pub mod Bucket
pub mod Shape
pub mod Refinement
pub mod Rehash
mod Tests
use cpp_many_tasks.Prelude.Classes.{Eq, Order}
use cpp_many_tasks.Prelude.{
  ℕ, zero, suc, ◌+◌, ◌-◌, ◌*◌, ◌/◌, ◌%◌, Bool, true, false, not, ◌&&◌, Option, none, some, List, [],
  ◌∷◌, ltb, ◌==◌, if◌then◌else◌,
}

abbrev pub load_factor : ℕ
load_factor = 2

abbrev pub default_concurrency_level : ℕ
default_concurrency_level = 8

module _ (K V : Type 0) where
  -- `table_` with its size, the number of `mutexes_`, and `size_`.
  pub record HashMap : Type 0 where
    pub lists_cnt : ℕ
    pub table : ℕ → List (K × V)
    pub mutexes_cnt : ℕ
    pub size : ℕ

-- How many lists the constructor makes: `none` is `kUndefinedSize`.
pub initial_lists : Option ℕ → ℕ → ℕ
initial_lists (some expected) threads =
    (((expected - 1) / load_factor + 1 - 1) / threads + 1) * threads
initial_lists none threads = 4 * threads

module _ {K V : Type 0} where
  pub init : Option ℕ → ℕ → HashMap K V
  unfolding initial_lists
  init expected threads = record {
    lists_cnt = initial_lists expected threads;
    table = λ i. [];
    mutexes_cnt = initial_lists expected threads;
    size = 0;
  }

  pub update : ℕ → List (K × V) → (ℕ → List (K × V)) → ℕ → List (K × V)
  update i l table j = if i == j then l else table j

  -- `resize` leaves the old lists and adds empty ones.
  abbrev pub resized : ℕ → (ℕ → List (K × V)) → ℕ → List (K × V)
  resized n table i = if ltb i n then table i else []

module _ {K V : Type 0} ⦃eq : Eq K⦄ ⦃ord : Order K⦄ where
  -- The loop of `FindPosInList` up to the first key that is not less, and what each caller does
  -- there.
  pub find_in_list : K → List (K × V) → Option V
  find_in_list key [] = none
  find_in_list key ((k, v) ∷ l) =
      let rest = find_in_list key l in
      if ord.lt k key then rest else if eq.beq k key then some v else none

  pub insert_into_list : K → V → List (K × V) → Bool × List (K × V)
  insert_into_list key value [] = (true, (key, value) ∷ [])
  insert_into_list key value ((k, v) ∷ l) =
      let rest = insert_into_list key value l in
      if ord.lt k key
      then (rest.0, (k, v) ∷ rest.1)
      else if eq.beq k key
      then (false, (k, v) ∷ l)
      else (true, (key, value) ∷ (k, v) ∷ l)

  pub erase_from_list : K → List (K × V) → Bool × List (K × V)
  erase_from_list key [] = (false, [])
  erase_from_list key ((k, v) ∷ l) =
      let rest = erase_from_list key l in
      if ord.lt k key
      then (rest.0, (k, v) ∷ rest.1)
      else if eq.beq k key
      then (true, l)
      else (false, (k, v) ∷ l)

  module _ (hasher : K → ℕ) where
    abbrev pub mutex_idx : HashMap K V → K → ℕ
    mutex_idx m key = hasher key % m.mutexes_cnt

    abbrev pub list_idx : HashMap K V → K → ℕ
    list_idx m key = hasher key % m.lists_cnt

    -- `Insert` under its mutex; the test for a rehash is `is_overloaded` on what it leaves.
    pub insert_locked : K → V → HashMap K V → Bool × HashMap K V
    insert_locked key value m =
        let i = list_idx m key in
        let (res, l) = insert_into_list key value (m.table i) in
        (res, record m { table = update i l m.table; size = if res then suc m.size else m.size })

    abbrev pub is_overloaded : HashMap K V → Bool
    is_overloaded m = ltb load_factor (m.size / m.lists_cnt)

    pub erase : K → HashMap K V → Bool × HashMap K V
    erase key m =
        let i = list_idx m key in
        let (res, l) = erase_from_list key (m.table i) in
        (res, record m { table = update i l m.table; size = if res then m.size - 1 else m.size })

    pub find : K → HashMap K V → Option V
    find key m = find_in_list key (m.table (list_idx m key))

    -- `At`: `none` is `std::out_of_range`.
    pub at_key : K → HashMap K V → Option V
    unfolding find
    at_key key m = find key m

    -- The inner loop of `Rehash` on the list `i` of `n`: the elements that stay in it, and the table
    -- with the others in their lists.
    pub move_elements :
        ℕ → ℕ → List (K × V) → (ℕ → List (K × V)) → List (K × V) × (ℕ → List (K × V))
    move_elements n i [] table = ([], table)
    move_elements n i ((k, v) ∷ l) table =
        let new_idx = hasher k % n in
        let stays = move_elements n i l table in
        let moves =
          move_elements n i l (update new_idx (insert_into_list k v (table new_idx)).1 table) in
        if new_idx == i then ((k, v) ∷ stays.0, stays.1) else moves

    abbrev pub rehash_list : ℕ → ℕ → (ℕ → List (K × V)) → ℕ → List (K × V)
    rehash_list n i table =
        let (kept, table') = move_elements n i (table i) table in update i kept table'

    -- The outer loop: the lists below `i`, in order.
    pub rehash_below : ℕ → ℕ → (ℕ → List (K × V)) → ℕ → List (K × V)
    rehash_below n zero table = table
    rehash_below n (suc i) table = rehash_list n i (rehash_below n i table)

    pub rehash : HashMap K V → HashMap K V
    rehash m =
        let n = m.lists_cnt * 2 in
        record m { lists_cnt = n; table = rehash_below n n (resized m.lists_cnt m.table) }

    -- `Insert` where no other call comes between its two parts.
    pub insert : K → V → HashMap K V → Bool × HashMap K V
    insert key value m =
        let (res, m') = insert_locked key value m in
        (res, if is_overloaded m' then rehash m' else m')

  pub clear : HashMap K V → HashMap K V
  clear m = record m { table = λ i. []; size = 0 }
