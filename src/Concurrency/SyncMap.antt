-- ===== src/Concurrency/SyncMap.antt =====
-- sync-map/sync_map.h: `SyncMap`. `Lookup` and `Insert` first look at the snapshot without the mutex
-- and then, where that decides nothing, go on under it; the two parts are functions of their own,
-- so that other calls may come between them. A snapshot that is being read stays allocated, which is
-- what hazard pointers are for.
pub mod Linear
mod Tests
use cpp_many_tasks.Prelude.Classes.{Eq}
use cpp_many_tasks.Prelude.{
  is_some, or_else, ℕ, suc, ◌≡◌, ◌↔◌, Bool, true, false, not, Option, none, some, List, [], ◌∷◌,
  ◌==◌, if◌then◌else◌,
}

-- `kMaxOperationsCnt`.
abbrev pub max_operations_cnt : ℕ
max_operations_cnt = 15

module _ {ℓ κ} {K : Type ℓ} {V : Type κ} ⦃eq : Eq K⦄ where
  -- `std::unordered_map` is an association list, seen through `find` and `emplace`.
  pub find : K → List (K × V) → Option V
  find k [] = none
  find k ((j, v) ∷ m) = if eq.beq j k then some v else find k m

  pub emplace : K → V → List (K × V) → List (K × V)
  unfolding find
  emplace k v m = if is_some (find k m) then m else (k, v) ∷ m

  -- `insert` of the elements of another map: a key that is there keeps its value.
  pub insert_all : List (K × V) → List (K × V) → List (K × V)
  insert_all m [] = m
  insert_all m ((k, v) ∷ rest) = insert_all (emplace k v m) rest

module _ {ℓ κ} (K : Type ℓ) (V : Type κ) where
  pub record Snapshot : Type (ℓ ⊔ κ) where
    pub read_only : List (K × V)
    pub dirty : Bool

  pub record SyncMap : Type (ℓ ⊔ κ) where
    pub snapshot : Snapshot
    pub mutable_map : Option (List (K × V))
    pub operation_count : ℕ

module _ {ℓ κ} {K : Type ℓ} {V : Type κ} ⦃eq : Eq K⦄ where
  pub init : SyncMap K V
  init = record {
    snapshot = record { read_only = []; dirty = false };
    mutable_map = none;
    operation_count = 0;
  }

  -- `Lookup` without the mutex: its result, or `none` where it has to take the mutex.
  pub lookup_snapshot : K → SyncMap K V → Option (Option V)
  lookup_snapshot k s = elim (find k s.snapshot.read_only) [
    | some v ↦ some (some v)
    | none ↦ if s.snapshot.dirty then none else some none
  ]

  -- One more operation under the mutex; the last one makes a snapshot of everything.
  pub count_operation : List (K × V) → SyncMap K V → SyncMap K V
  count_operation m s =
      if suc s.operation_count == max_operations_cnt
      then record {
        snapshot = record { read_only = insert_all m s.snapshot.read_only; dirty = false };
        mutable_map = none;
        operation_count = 0;
      }
      else record s { operation_count = suc s.operation_count }

  -- `Lookup` under the mutex.
  pub lookup_locked : K → SyncMap K V → Option V × SyncMap K V
  lookup_locked k s = elim (find k s.snapshot.read_only) [
    | some v ↦ (some v, s)
    | none ↦ elim s.mutable_map [ none ↦ (none, s) | some m ↦ (find k m, count_operation m s) ]
  ]

  -- `Insert` without the mutex: refused if the snapshot has the key, else `none`.
  pub insert_snapshot : K → SyncMap K V → Option Bool
  insert_snapshot k s = if is_some (find k s.snapshot.read_only) then some false else none

  pub insert_mutable : K → V → SyncMap K V → Option (List (K × V)) → Bool × SyncMap K V
  insert_mutable k v s none = (
    true,
    record s {
      mutable_map = some (emplace k v []);
      snapshot = record { read_only = s.snapshot.read_only; dirty = true };
    },
  )
  insert_mutable k v s (some m) =
      if is_some (find k m)
      then (false, s)
      else (true, record s { mutable_map = some (emplace k v m); operation_count = 0 })

  -- `Insert` under the mutex.
  pub insert_locked : K → V → SyncMap K V → Bool × SyncMap K V
  unfolding insert_mutable
  insert_locked k v s =
      if is_some (find k s.snapshot.read_only)
      then (false, s)
      else insert_mutable k v s s.mutable_map
