-- ===== src/Std/Decimal/RoundTrip.antt =====
-- `std::stoll` reads back what `std::to_string` prints.
use native.Mathlib.Nat.{pow-suc}
use cpp_many_tasks.Prelude.{
  ℕ, zero, suc, ◌+◌, ◌-◌, ◌*◌, ◌/◌, ◌%◌, ◌^◌, ◌≤◌, ◌<◌, ◌≡◌, refl, ap, Bool, true, false, some,
  List, [], ◌∷◌, ◌++◌, arith, ltb, length, length-append, All, All-append, Bool-cases, inl, inr,
}
use cpp_many_tasks.Prelude.Int.{ℤ, pos, negsuc}
use cpp_many_tasks.Std.Decimal.{
  digits, max_digits, to_string_nat, to_string, scan, checked, from_digits, from_sign, skip_spaces,
  stoll_all, IsInt64,
}

abbrev pub IsDigit : ℕ → Type 0
IsDigit c = (b'0' ≤ c) × (c ≤ b'9')

-- The number that digits spell behind `acc`.
value : ℕ → List ℕ → ℕ
value acc [] = acc
value acc (c ∷ cs) = value (acc * 10 + (c - b'0')) cs

value-append :
    (acc : ℕ) (xs : List ℕ) (d : ℕ) → value acc (xs ++ d ∷ []) ≡ value acc xs * 10 + (d - b'0')
unfolding value
value-append acc [] d = refl
value-append acc (c ∷ cs) d = value-append (acc * 10 + (c - b'0')) cs d

scan-IsDigit : (xs : List ℕ) (acc : ℕ) → All IsDigit xs → scan xs acc ≡ (value acc xs, length xs)
unfolding scan value
scan-IsDigit [] acc h = refl
scan-IsDigit (c ∷ cs) acc (hc, hs) = ground (arith, scan-IsDigit cs (acc * 10 + (c - b'0')) hs)

digits-IsDigit : (fuel n : ℕ) → All IsDigit (digits fuel n)
unfolding digits
digits-IsDigit zero n = tt
digits-IsDigit (suc fuel) n = elim (Bool-cases (ltb n 10)) [
  | inl small ↦ rw small (ground arith, tt)
  | inr large ↦ rw large (All-append IsDigit _ _ (digits-IsDigit fuel (n / 10)) (ground arith, tt))
]

value-digits : (fuel n : ℕ) → n < 10 ^ fuel → value 0 (digits fuel n) ≡ n
unfolding digits value
value-digits zero n h = omega arith
value-digits (suc fuel) n h = ground (
  arith,
  value-append 0 (digits fuel (n / 10)) (b'0' + n % 10),
  value-digits fuel (n / 10) (omega (arith, pow-suc 10 fuel)),
)

length-digits : (fuel n : ℕ) → length (digits fuel n) ≤ fuel
unfolding digits
length-digits zero n = omega arith
length-digits (suc fuel) n = ground (
  arith,
  length-append (digits fuel (n / 10)) ((b'0' + n % 10) ∷ []),
  length-digits fuel (n / 10),
)

digits_cons : (fuel n : ℕ) → (c : ℕ) × (cs : List ℕ) × (digits (suc fuel) n ≡ c ∷ cs)
unfolding digits
digits_cons zero n = elim (Bool-cases (ltb n 10)) [
  | inl small ↦ (b'0' + n, [], rw small)
  | inr large ↦ (b'0' + n % 10, [], rw large)
]
digits_cons (suc fuel) n = elim (Bool-cases (ltb n 10)) [
  | inl small ↦ (b'0' + n, [], rw small)
  | inr large ↦
      let (c, cs, e) = digits_cons fuel (n / 10) in
      (c, cs ++ (b'0' + n % 10) ∷ [], rw large (ap (λ l. l ++ (b'0' + n % 10) ∷ []) e))
]

-- Reading digits to the end of the text gives their value.
from_digits-IsDigit :
    (negative : Bool) (before : ℕ) (cs : List ℕ) {z : ℤ}
    → All IsDigit cs
    → 0 < length cs
    → checked negative (value 0 cs) ≡ some z
    → from_digits negative before cs ≡ some (z, before + length cs)
unfolding from_digits
from_digits-IsDigit negative before cs h nonempty e = ground (arith, scan-IsDigit cs 0 h)

from_sign-IsDigit :
    (c : ℕ) (cs : List ℕ) → IsDigit c → skip_spaces 0 (c ∷ cs) ≡ from_digits false 0 (c ∷ cs)
unfolding skip_spaces from_sign
from_sign-IsDigit c cs h = ground arith

stoll_all_digits :
    (cs : List ℕ) {z : ℤ}
    → All IsDigit cs
    → 0 < length cs
    → checked false (value 0 cs) ≡ some z
    → stoll_all cs ≡ some z
unfolding stoll_all
stoll_all_digits [] h nonempty e = absurd (omega arith)
stoll_all_digits (c ∷ cs) h nonempty e =
    ground (arith, from_sign-IsDigit c cs h.0, from_digits-IsDigit false 0 (c ∷ cs) h nonempty e)

stoll_all_minus :
    (cs : List ℕ) {z : ℤ}
    → All IsDigit cs
    → 0 < length cs
    → checked true (value 0 cs) ≡ some z
    → stoll_all (b'-' ∷ cs) ≡ some z
unfolding stoll_all skip_spaces from_sign
stoll_all_minus cs h nonempty e = ground (arith, from_digits-IsDigit true 1 cs h nonempty e)

pub to_string_nat-IsDigit : (n : ℕ) → All IsDigit (to_string_nat n)
unfolding to_string_nat
to_string_nat-IsDigit n = digits-IsDigit max_digits n

pub length-to_string_nat : (n : ℕ) → length (to_string_nat n) ≤ max_digits
unfolding to_string_nat
length-to_string_nat n = length-digits max_digits n

pub length-to_string_nat_pos : (n : ℕ) → 0 < length (to_string_nat n)
unfolding to_string_nat
length-to_string_nat_pos n = let (c, cs, e) = digits_cons 19 n in rw e (omega arith)

value-to_string_nat : (n : ℕ) → n < 2 ^ 64 → value 0 (to_string_nat n) ≡ n
unfolding to_string_nat
value-to_string_nat n h = value-digits max_digits n (omega arith)

-- `std::stoll` reads back every `int64_t` that `std::to_string` prints, to its last byte.
pub stoll_all-to_string : (z : ℤ) → IsInt64 z → stoll_all (to_string z) ≡ some z
unfolding to_string
stoll_all-to_string (pos n) h =
    stoll_all_digits (to_string_nat n) (to_string_nat-IsDigit n) (length-to_string_nat_pos n)
      (ground (arith, value-to_string_nat n))
stoll_all-to_string (negsuc n) h =
    stoll_all_minus (to_string_nat (suc n)) (to_string_nat-IsDigit (suc n))
      (length-to_string_nat_pos (suc n)) (ground (arith, value-to_string_nat (suc n)))
