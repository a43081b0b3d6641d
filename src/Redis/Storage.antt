-- ===== src/Redis/Storage.antt =====
-- redis/redis-server/simple_storage: `SimpleStorage`, a map from keys to integers or texts.
-- `std::map` is an association list; what the code sees of it is `find` and `put`.
pub mod Laws
use cpp_many_tasks.Prelude.{
  ℕ, suc, ◌^◌, ◌-◌, Bool, true, false, ◌&&◌, Option, none, some, List, [], ◌∷◌, ◌==◌, if◌then◌else◌,
}
use cpp_many_tasks.Prelude.Int.{ℤ, pos, negsuc, ◌+ℤ◌, ◌-ℤ◌, ltb_ℤ}
use cpp_many_tasks.Std.Decimal.{to_string, stoll_all}
use cpp_many_tasks.Redis.Types.{Exception, bad_typeid, out_of_range, Result, ok, err}

-- `std::variant<int64_t, std::string>`.
pub data Value : Type 0 where
  int_value : ℤ → Value
  string_value : List ℕ → Value

unfoldable pub same_key : List ℕ → List ℕ → Bool
same_key [] [] = true
same_key [] (b ∷ bs) = false
same_key (a ∷ as') [] = false
same_key (a ∷ as') (b ∷ bs) = a == b && same_key as' bs

abbrev pub Storage : Type 0
Storage = List (List ℕ × Value)

unfoldable pub find : List ℕ → Storage → Option Value
find k [] = none
find k ((j, v) ∷ m) = if same_key j k then some v else find k m

unfoldable pub put : List ℕ → Value → Storage → Storage
put k v [] = (k, v) ∷ []
put k v ((j, w) ∷ m) = if same_key j k then (j, v) ∷ m else (j, w) ∷ put k v m

abbrev pub printed : Value → List ℕ
printed (int_value n) = to_string n
printed (string_value s) = s

unfoldable pub get : List ℕ → Storage → Option (List ℕ)
get k m = elim (find k m) [ none ↦ none | some v ↦ some (printed v) ]

-- A text that is wholly a number is kept as the number.
abbrev pub value_of : List ℕ → Value
value_of s = elim (stoll_all s) [ none ↦ string_value s | some n ↦ int_value n ]

unfoldable pub set_key : List ℕ → List ℕ → Storage → Storage
set_key k s m = put k (value_of s) m

abbrev pub int_min : ℤ
int_min = negsuc (2 ^ 63 - 1)

abbrev pub int_max : ℤ
int_max = pos (2 ^ 63 - 1)

abbrev pub is_negative : ℤ → Bool
is_negative (pos n) = false
is_negative (negsuc n) = true

-- Whether `num + delta` leaves the range, as `check_limits_func` tests it.
unfoldable pub over_limits : ℤ → ℤ → Bool
over_limits num delta =
    if is_negative delta then ltb_ℤ num (int_min -ℤ delta) else ltb_ℤ (int_max -ℤ delta) num

-- The change of a key that holds the integer `num`.
unfoldable pub change_int : List ℕ → ℤ → ℤ → Storage → Result ℤ × Storage
change_int k num delta m =
    if over_limits num delta
    then (err out_of_range, m)
    else (ok (num +ℤ delta), put k (int_value (num +ℤ delta)) m)

-- A missing key is entered as 0 first. The storage is returned also with an exception.
unfoldable pub change : List ℕ → ℤ → Storage → Result ℤ × Storage
unfolding change_int
change k delta m = elim (find k m) [
  | none ↦ change_int k (pos 0) delta (put k (int_value (pos 0)) m)
  | some v ↦ elim v [ int_value n ↦ change_int k n delta m | string_value s ↦ (err bad_typeid, m) ]
]
