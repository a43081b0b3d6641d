-- ===== src/Concurrency/SyncMap/Tests.antt =====
-- sync-map: each theorem at a map that meets its conditions.
use cpp_many_tasks.Prelude.Classes.{nat_Eq}
use cpp_many_tasks.Prelude.{
  is_some, or_else, ℕ, zero, suc, ◌≡◌, refl, not, Option, none, some, ◌==◌, if◌then◌else◌,
}
use cpp_many_tasks.Concurrency.SyncMap.{
  find, emplace, SyncMap, init, insert_all, count_operation, lookup_snapshot, lookup_locked,
  insert_mutable, insert_locked,
}
use cpp_many_tasks.Concurrency.SyncMap.Linear.{
  contents, IsValid, init-IsValid, lookup_locked-contents, insert_locked-contents,
  lookup_snapshot-Reach, Reach, looks_up, inserts, here, later,
}

abbrev empty_map : SyncMap ℕ ℕ
empty_map = init

abbrev one : SyncMap ℕ ℕ
one = (insert_locked 3 30 empty_map).1

one-IsValid : IsValid one
one-IsValid = (insert_locked-contents empty_map 3 30 init-IsValid).1

insert_locked-contents_example :
    ((insert_locked 4 40 empty_map).0 ≡ not (is_some (contents empty_map 4)))
    × IsValid (insert_locked 4 40 empty_map).1
    × ((j : ℕ)
        → contents (insert_locked 4 40 empty_map).1 j
          ≡ or_else (contents empty_map j) (if 4 == j then some 40 else none))
unfolding nat_Eq
insert_locked-contents_example = insert_locked-contents empty_map 4 40 init-IsValid

lookup_locked-contents_example :
    ((lookup_locked 3 one).0 ≡ contents one 3)
    × IsValid (lookup_locked 3 one).1
    × ((j : ℕ) → contents (lookup_locked 3 one).1 j ≡ contents one j)
lookup_locked-contents_example = lookup_locked-contents one 3 one-IsValid

-- The state after some lookups under the mutex.
looked : ℕ → SyncMap ℕ ℕ → SyncMap ℕ ℕ
looked zero s = s
looked (suc n) s = looked n (lookup_locked 3 s).1

looked-Reach : (n : ℕ) {s t : SyncMap ℕ ℕ} → Reach s t → Reach s (looked n t)
unfolding looked
looked-Reach zero r = r
looked-Reach (suc n) {t = t} r = looked-Reach n (later r (looks_up t 3))

abbrev thirty : Option ℕ
thirty = some 30

lookup_snapshot-Reach_example :
    (thirty ≡ contents (looked 15 one) 3)
    × ((v : ℕ) → contents one 3 ≡ some v → thirty ≡ some v)
    × (thirty ≡ none → contents one 3 ≡ none)
unfolding looked nat_Eq lookup_locked insert_locked insert_mutable count_operation insert_all
    emplace find init lookup_snapshot
lookup_snapshot-Reach_example =
    lookup_snapshot-Reach {s = one} {t = looked 15 one} 3 thirty
      (later here (inserts empty_map 3 30)) (looked-Reach 15 here) refl
