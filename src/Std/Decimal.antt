-- ===== src/Std/Decimal.antt =====
-- `std::to_string` and `std::stoll` on 64-bit integers, over bytes.
pub mod RoundTrip
use cpp_many_tasks.Prelude.{
  ℕ, zero, suc, ◌+◌, ◌-◌, ◌*◌, ◌/◌, ◌%◌, ◌^◌, ◌≤◌, ◌<◌, ◌≡◌, refl, sym, ap, ◌∙◌, Bool, true, false,
  ◌&&◌, ◌||◌, Option, none, some, List, [], ◌∷◌, ◌++◌, arith, ltb, leb, ◌==◌, if◌then◌else◌, length,
  length-append,
}
use cpp_many_tasks.Prelude.Int.{ℤ, pos, negsuc}

-- The digits of `n`, the last one printed last; a round divides `n` by ten.
unfoldable pub digits : ℕ → ℕ → List ℕ
digits zero n = []
digits (suc fuel) n =
    let higher = digits fuel (n / 10) in
    if ltb n 10 then (b'0' + n) ∷ [] else higher ++ (b'0' + n % 10) ∷ []

-- A number below `2 ^ 64` has at most 20 digits.
abbrev pub max_digits : ℕ
max_digits = 20

unfoldable pub to_string_nat : ℕ → List ℕ
unfolding digits
to_string_nat n = digits max_digits n

unfoldable pub to_string : ℤ → List ℕ
to_string (pos n) = to_string_nat n
to_string (negsuc n) = b'-' ∷ to_string_nat (suc n)

abbrev pub is_digit : ℕ → Bool
is_digit c = leb b'0' c && leb c b'9'

-- `isspace` in the "C" locale.
abbrev pub is_space : ℕ → Bool
is_space c = c == b' ' || (leb 9 c && leb c 13)

-- The number that the leading digits spell behind `acc`, and how many were read.
unfoldable pub scan : List ℕ → ℕ → ℕ × ℕ
scan [] acc = (acc, 0)
scan (c ∷ cs) acc =
    let rest = scan cs (acc * 10 + (c - b'0')) in
    if is_digit c then (rest.0, suc rest.1) else (acc, 0)

-- The value within the range of a 64-bit integer, or an out_of_range error.
abbrev pub checked : Bool → ℕ → Option ℤ
checked false n = if ltb n (2 ^ 63) then some (pos n) else none
checked true zero = some (pos 0)
checked true (suc n) = if ltb n (2 ^ 63) then some (negsuc n) else none

-- `none` is an exception, std::invalid_argument or std::out_of_range. The number returned with
-- the value is how many bytes were read.
unfoldable pub from_digits : Bool → ℕ → List ℕ → Option (ℤ × ℕ)
unfolding scan
from_digits negative before cs =
    let found = scan cs 0 in
    if found.1 == 0
    then none
    else elim (checked negative found.0) [ none ↦ none | some z ↦ some (z, before + found.1) ]

unfoldable pub from_sign : ℕ → List ℕ → Option (ℤ × ℕ)
unfolding from_digits
from_sign before [] = none
from_sign before (c ∷ cs) =
    if c == b'-'
    then from_digits true (suc before) cs
    else if c == b'+'
    then from_digits false (suc before) cs
    else from_digits false before (c ∷ cs)

unfoldable pub skip_spaces : ℕ → List ℕ → Option (ℤ × ℕ)
unfolding from_sign
skip_spaces before [] = none
skip_spaces before (c ∷ cs) =
    let rest = skip_spaces (suc before) cs in if is_space c then rest else from_sign before (c ∷ cs)

unfoldable pub stoll : List ℕ → Option (ℤ × ℕ)
unfolding skip_spaces
stoll s = skip_spaces 0 s

-- `stoll` with the test `pos == size` of all its callers.
unfoldable pub stoll_all : List ℕ → Option ℤ
unfolding stoll
stoll_all s = elim (stoll s) [ none ↦ none | some (z, n) ↦ if n == length s then some z else none ]

-- The values of `int64_t`.
abbrev pub IsInt64 : ℤ → Type 0
IsInt64 (pos n) = n < 2 ^ 63
IsInt64 (negsuc n) = n < 2 ^ 63

int_min_prints :
    to_string (negsuc (2 ^ 63 - 1))
    ≡ b'-' ∷ b'9' ∷ b'2' ∷ b'2' ∷ b'3' ∷ b'3' ∷ b'7' ∷ b'2' ∷ b'0' ∷ b'3' ∷ b'6' ∷ b'8' ∷ b'5'
      ∷ b'4' ∷ b'7' ∷ b'7' ∷ b'5' ∷ b'8' ∷ b'0' ∷ b'8' ∷ []
unfolding to_string to_string_nat
int_min_prints = refl

int_min_reads : stoll_all (to_string (negsuc (2 ^ 63 - 1))) ≡ some (negsuc (2 ^ 63 - 1))
unfolding to_string to_string_nat stoll_all
int_min_reads = refl
