-- ===== src/ConstexprMap.antt =====
-- constexpr-map/constexpr_map.h: `ConstexprMap`. The array is a list of `MaxSize` slots, of which the
-- first `size` are in use; a slot that is not keeps what was last written to it.
pub mod Laws
pub mod Erase
mod Tests
use cpp_many_tasks.Prelude.Classes.{Eq}
use cpp_many_tasks.Prelude.{
  is_some, or_else, ℕ, zero, suc, ◌-◌, Bool, true, false, Option, none, some, List, [], ◌∷◌, ltb,
  if◌then◌else◌, length,
}

pub record ConstexprMap (K V : Type 0) : Type 0 where
  pub slots : List (K × V)
  pub size : ℕ

module _ {K V : Type 0} ⦃eq : Eq K⦄ where
  -- The loop that all operations begin with: the first of `n` slots that has the key.
  pub position : K → ℕ → List (K × V) → Option ℕ
  position k zero l = none
  position k (suc n) [] = none
  position k (suc n) ((j, v) ∷ l) =
      let rest = position k n l in
      if eq.beq j k then some 0 else elim rest [ none ↦ none | some i ↦ some (suc i) ]

  pub second_at : ℕ → List (K × V) → Option V
  second_at i [] = none
  second_at zero ((j, v) ∷ l) = some v
  second_at (suc i) ((j, v) ∷ l) = second_at i l

  pub set_first : ℕ → K → List (K × V) → List (K × V)
  set_first i k [] = []
  set_first zero k ((j, v) ∷ l) = (k, v) ∷ l
  set_first (suc i) k ((j, v) ∷ l) = (j, v) ∷ set_first i k l

  pub set_second : ℕ → V → List (K × V) → List (K × V)
  set_second i w [] = []
  set_second zero w ((j, v) ∷ l) = (j, w) ∷ l
  set_second (suc i) w ((j, v) ∷ l) = (j, v) ∷ set_second i w l

  -- `operator[]`: the slot whose value is returned, and the map; `none` if it throws.
  pub subscript : K → ConstexprMap K V → Option (ℕ × ConstexprMap K V)
  subscript k m = elim (position k m.size m.slots) [
    | some i ↦ some (i, m)
    | none ↦
        if ltb m.size (length m.slots)
        then some (m.size, record { slots = set_first m.size k m.slots; size = suc m.size })
        else none
  ]

  -- An assignment through the result of `operator[]`.
  pub assign : K → V → ConstexprMap K V → Option (ConstexprMap K V)
  assign k v m = elim (subscript k m) [
    | none ↦ none
    | some (i, m') ↦ some (record m' { slots = set_second i v m'.slots })
  ]

  -- The constant `operator[]`.
  pub get : K → ConstexprMap K V → Option V
  get k m = elim (position k m.size m.slots) [ none ↦ none | some i ↦ second_at i m.slots ]

  pub find : K → ConstexprMap K V → Bool
  find k m = is_some (position k m.size m.slots)

  -- `ShiftValues` in `n` slots: those behind the deleted one move down, and the last stays as it is.
  pub shift_values : ℕ → ℕ → List (K × V) → List (K × V)
  shift_values d zero l = l
  shift_values d (suc n) [] = []
  shift_values (suc d) (suc n) (a ∷ l) = a ∷ shift_values d n l
  shift_values zero (suc n) (a ∷ []) = a ∷ []
  shift_values zero (suc zero) (a ∷ b ∷ l) = a ∷ b ∷ l
  shift_values zero (suc (suc n)) (a ∷ b ∷ l) = b ∷ shift_values zero (suc n) (b ∷ l)

  pub erase : K → ConstexprMap K V → Bool × ConstexprMap K V
  erase k m = elim (position k m.size m.slots) [
    | none ↦ (false, m)
    | some i ↦ (true, record { slots = shift_values i m.size m.slots; size = m.size - 1 })
  ]

  -- `GetByIndex`: the slot, `none` if it throws.
  pub get_by_index : ℕ → ConstexprMap K V → Option (K × V)
  get_by_index pos m = if ltb pos m.size then slot_at pos m.slots else none
    where
      slot_at : ℕ → List (K × V) → Option (K × V)
      slot_at i [] = none
      slot_at zero (a ∷ l) = some a
      slot_at (suc i) (a ∷ l) = slot_at i l
