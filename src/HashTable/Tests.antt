-- ===== src/HashTable/Tests.antt =====
-- hash-table: each theorem at a table that meets its conditions.
use cpp_many_tasks.Prelude.Classes.{nat_Eq, nat_Order}
use cpp_many_tasks.Prelude.{
  ℕ, ◌*◌, ◌≤◌, ◌<◌, ◌≡◌, refl, not, none, some, List, [], ◌∷◌, arith, is_some, or_else, ◌==◌,
  if◌then◌else◌,
}
use cpp_many_tasks.HashTable.{
  HashMap, init, initial_lists, load_factor, find, update, insert_into_list, insert_locked,
  rehash_below, move_elements, insert, erase, rehash,
}
use cpp_many_tasks.HashTable.Shape.{initial_lists_lem}
use cpp_many_tasks.HashTable.Refinement.{IsValid, init-IsValid, erase_lem, contents}
use cpp_many_tasks.HashTable.Rehash.Whole.{insert_lem, rehash_lem}

abbrev hasher : ℕ → ℕ
hasher k = k

abbrev empty : HashMap ℕ ℕ
empty = init none 1

empty-IsValid : IsValid hasher empty
empty-IsValid = init-IsValid hasher none 1 (omega arith)

abbrev one : HashMap ℕ ℕ
one = (insert hasher 5 50 empty).1

one-IsValid : IsValid hasher one
one-IsValid = (insert_lem hasher empty 5 50 empty-IsValid).1

abbrev put_all : List ℕ → HashMap ℕ ℕ → HashMap ℕ ℕ
put_all [] m = m
put_all (k ∷ ks) m = put_all ks (insert hasher k (k * 10) m).1

-- Twelve elements overload four lists.
rehashed : (put_all (1 ∷ 5 ∷ 9 ∷ 2 ∷ 6 ∷ 3 ∷ 7 ∷ 4 ∷ 8 ∷ 12 ∷ 13 ∷ 14 ∷ []) empty).lists_cnt ≡ 8
unfolding init initial_lists insert insert_locked insert_into_list update rehash rehash_below
    move_elements nat_Eq nat_Order
rehashed = refl

initial_lists_lem_example :
    (0 < initial_lists (some 9) 4)
    × ((q : ℕ) × (initial_lists (some 9) 4 ≡ q * 4))
    × (9 ≤ load_factor * initial_lists (some 9) 4)
initial_lists_lem_example = initial_lists_lem 9 4 (omega arith)

insert_lem_example :
    ((insert hasher 9 90 one).0 ≡ not (is_some (find hasher 9 one)))
    × IsValid hasher (insert hasher 9 90 one).1
    × ((j : ℕ)
        → find hasher j (insert hasher 9 90 one).1
          ≡ or_else (find hasher j one) (if 9 == j then some 90 else none))
unfolding nat_Eq
insert_lem_example = insert_lem hasher one 9 90 one-IsValid

erase_lem_example :
    ((erase hasher 5 one).0 ≡ is_some (find hasher 5 one))
    × IsValid hasher (erase hasher 5 one).1
    × ((j : ℕ)
        → find hasher j (erase hasher 5 one).1 ≡ (if 5 == j then none else find hasher j one))
unfolding nat_Eq
erase_lem_example = erase_lem hasher one 5 one-IsValid

rehash_lem_example :
    IsValid hasher (rehash hasher one)
    × ((rehash hasher one).lists_cnt ≡ one.lists_cnt * 2)
    × ((rehash hasher one).size ≡ one.size)
    × ((key : ℕ) → contents hasher (rehash hasher one) key ≡ contents hasher one key)
rehash_lem_example = rehash_lem hasher one one-IsValid
