-- ===== src/ConstexprMap/Tests.antt =====
-- constexpr-map: each theorem at a map that meets its conditions.
use cpp_many_tasks.Prelude.Classes.{nat_Eq}
use cpp_many_tasks.Prelude.{ℕ, ◌-◌, ◌≡◌, refl, some, [], ◌∷◌, arith}
use cpp_many_tasks.ConstexprMap.{
  ConstexprMap, position, second_at, subscript, find, shift_values, erase,
}
use cpp_many_tasks.ConstexprMap.Laws.{look, IsDistinct, IsValid}
use cpp_many_tasks.ConstexprMap.Erase.{subscript-erase}

abbrev two : ConstexprMap ℕ ℕ
two = record { slots = (3, 30) ∷ (4, 40) ∷ (0, 0) ∷ []; size = 2 }

two-IsValid : IsValid two
unfolding IsDistinct look nat_Eq
two-IsValid = record { room = omega arith; distinct = (refl, (refl, tt)) }

subscript-erase_example :
    (m : ConstexprMap ℕ ℕ) × (subscript 7 (erase 3 two).1 ≡ some (2 - 1, m))
    × (second_at (2 - 1) m.slots ≡ second_at (2 - 1) two.slots)
unfolding nat_Eq find position erase shift_values
subscript-erase_example = subscript-erase 3 7 two two-IsValid (omega arith) refl refl
