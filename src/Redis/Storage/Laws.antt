-- ===== src/Redis/Storage/Laws.antt =====
-- redis/redis-server/simple_storage: what `Get`, `Set` and `Change` do to each other.
use cpp_many_tasks.Prelude.{
  ℕ, ◌≡◌, ◌≢◌, ◌↔◌, inl, inr, refl, true, false, Option, none, some, List, [], ◌∷◌, if◌then◌else◌,
  arith, Bool-cases,
}
use cpp_many_tasks.Prelude.Int.{ℤ, pos, negsuc, ◌+ℤ◌, ◌-ℤ◌}
use cpp_many_tasks.Std.Decimal.{to_string, stoll_all, IsInt64}
use cpp_many_tasks.Redis.Types.{bad_typeid, out_of_range, ok, err}
use cpp_many_tasks.Redis.Storage.{
  Value, int_value, string_value, same_key, Storage, find, put, printed, get, value_of, set_key,
  over_limits, change_int, change,
}

pub same_key_iff : (j k : List ℕ) → (same_key j k ≡ true) ↔ (j ≡ k)
unfolding same_key
same_key_iff [] [] = (λ h. refl, λ h. refl)
same_key_iff [] (b ∷ bs) = (λ h. cc, λ h. cc)
same_key_iff (a ∷ as') [] = (λ h. cc, λ h. cc)
same_key_iff (a ∷ as') (b ∷ bs) =
    (λ h. ground (arith, same_key_iff as' bs), λ h. ground (arith, same_key_iff as' bs))

-- The laws of a map.
pub find-put :
    (k j : List ℕ) (v : Value) (m : Storage)
    → find j (put k v m) ≡ (if same_key k j then some v else find j m)
unfolding find put
find-put k j v [] = refl
find-put k j v ((i, w) ∷ m) =
    ground (arith, same_key_iff k j, same_key_iff i k, same_key_iff i j, find-put k j v m)

-- What `Get` shows of a text that was stored: a number in its plain form, any other text itself.
abbrev pub canonical : List ℕ → List ℕ
canonical s = elim (stoll_all s) [ none ↦ s | some n ↦ to_string n ]

printed-value_of : (s : List ℕ) → printed (value_of s) ≡ canonical s
printed-value_of s = ground arith

-- `Get` after `Set` shows the stored text in its canonical form under its key, and what was there
-- before under any other.
pub get-set_key :
    (k j s : List ℕ) (m : Storage)
    → get j (set_key k s m) ≡ (if same_key k j then some (canonical s) else get j m)
unfolding get set_key
get-set_key k j s m = ground (arith, find-put k j (value_of s) m, printed-value_of s)

-- A text that `std::stoll` reads as a number but `std::to_string` would print otherwise is not
-- what `Get` returns after it was stored.
pub get-set_key_noncanonical :
    (k s : List ℕ) (m : Storage) {n : ℤ}
    → stoll_all s ≡ some n
    → to_string n ≢ s
    → get k (set_key k s m) ≢ some s
get-set_key_noncanonical k s m {n} reads differs h =
    differs (ground (arith, get-set_key k k s m, same_key_iff k k))

-- Every integer key of the storage lies in the range of `int64_t`.
abbrev pub IsStored : Value → Type 0
IsStored (int_value n) = IsInt64 n
IsStored (string_value s) = Unit

-- The number that a key holds for `Change`: 0 if the key is missing.
abbrev pub counter : Option Value → Option ℤ
counter none = some (pos 0)
counter (some (int_value n)) = some n
counter (some (string_value s)) = none

-- The test of `check_limits_func` is exact.
pub over_limits_iff :
    (n delta : ℤ) → IsInt64 n → IsInt64 delta → (over_limits n delta ≡ false) ↔ IsInt64 (n +ℤ delta)
unfolding over_limits ◌-ℤ◌ ◌+ℤ◌
over_limits_iff (pos n) (pos d) hn hd = (λ h. ground arith, λ h. ground arith)
over_limits_iff (pos n) (negsuc d) hn hd = (λ h. ground arith, λ h. ground arith)
over_limits_iff (negsuc n) (pos d) hn hd = (λ h. ground arith, λ h. ground arith)
over_limits_iff (negsuc n) (negsuc d) hn hd = (λ h. ground arith, λ h. ground arith)

-- The storage once `k` is entered.
entered : List ℕ → Storage → Storage
entered k m = elim (find k m) [ none ↦ put k (int_value (pos 0)) m | some v ↦ m ]

change-entered :
    (k : List ℕ) (delta n : ℤ) (m : Storage)
    → counter (find k m) ≡ some n
    → change k delta m ≡ change_int k n delta (entered k m)
unfolding change entered
change-entered k delta n m held = ground arith

find-entered :
    (k j : List ℕ) (n : ℤ) (m : Storage)
    → counter (find k m) ≡ some n
    → find j (entered k m) ≡ (if same_key k j then some (int_value n) else find j m)
unfolding entered
find-entered k j n m held = elim (Bool-cases (same_key k j)) [
  | inl e ↦
      rw (← (same_key_iff k j).0 e, (same_key_iff k k).1 refl)
        (ground (arith, find-put k k (int_value (pos 0)) m, same_key_iff k k))
  | inr e ↦ ground (arith, find-put k j (int_value (pos 0)) m)
]

-- `Change` on a key that holds a 64-bit integer, or nothing, which counts as 0, adds `delta` and
-- returns the sum if it is an `int64_t`; every other key is left alone.
pub change_adds :
    (k j : List ℕ) (delta n : ℤ) (m : Storage)
    → counter (find k m) ≡ some n
    → IsInt64 n
    → IsInt64 delta
    → IsInt64 (n +ℤ delta)
    → ((change k delta m).0 ≡ ok (n +ℤ delta))
      × (find j (change k delta m).1
          ≡ (if same_key k j then some (int_value (n +ℤ delta)) else find j m))
unfolding change_int
change_adds k j delta n m held hn hd hs =
    rw (change-entered k delta n m held, (over_limits_iff n delta hn hd).1 hs)
      (
        refl,
        ground
            (arith, find-put k j (int_value (n +ℤ delta)) (entered k m), find-entered k j n m held),
      )

-- On a key that holds a 64-bit integer, where the sum is no `int64_t`, `Change` throws and changes nothing.
pub change_overflows :
    (k : List ℕ) (delta n : ℤ) (m : Storage)
    → find k m ≡ some (int_value n)
    → IsInt64 n
    → IsInt64 delta
    → ¬ IsInt64 (n +ℤ delta)
    → change k delta m ≡ (err out_of_range, m)
unfolding change change_int
change_overflows k delta n m held hn hd hs = elim (Bool-cases (over_limits n delta)) [
  | inl e ↦ ground arith
  | inr e ↦ absurd (hs ((over_limits_iff n delta hn hd).0 e))
]

-- On a key that holds a text `Change` throws and changes nothing.
pub change_text :
    (k s : List ℕ) (delta : ℤ) (m : Storage)
    → find k m ≡ some (string_value s)
    → change k delta m ≡ (err bad_typeid, m)
unfolding change
change_text k s delta m held = ground arith
