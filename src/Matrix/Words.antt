-- ===== src/Matrix/Words.antt =====
-- matrix-3.0: `uint64_t` and `int64_t` as numbers below 2^64, a sign being the two's complement, and finite sums.
use native.Mathlib.Nat.{mod-add-div, add-mul, mul_comm, mul_assoc}
use cpp_many_tasks.Prelude.{
  ℕ, zero, suc, ◌+◌, ◌-◌, ◌*◌, ◌/◌, ◌%◌, ◌^◌, ◌<◌, ◌≡◌, refl, sym, ap, ◌∙◌, inl, inr, arith,
  Bool-cases, ltb, ◌==◌, if◌then◌else◌,
}

unfoldable pub add_word : ℕ → ℕ → ℕ
add_word a b = (a + b) % 2 ^ 64

unfoldable pub mul_word : ℕ → ℕ → ℕ
mul_word a b = a * b % 2 ^ 64

unfoldable pub neg_word : ℕ → ℕ
neg_word a = (2 ^ 64 - a % 2 ^ 64) % 2 ^ 64

unfoldable pub sub_word : ℕ → ℕ → ℕ
unfolding add_word neg_word
sub_word a b = add_word a (neg_word b)

-- The sum of the values below n.
unfoldable pub sum : ℕ → (ℕ → ℕ) → ℕ
sum zero f = 0
sum (suc n) f = sum n f + f n

pub word-mul : (a b : ℕ) → a % 2 ^ 64 * b % 2 ^ 64 ≡ a * b % 2 ^ 64
word-mul a b = omega (arith, split)
  where
    split : a * b ≡ a % 2 ^ 64 * b + 2 ^ 64 * (a / 2 ^ 64 * b)
    split =
        sym (ap (λ (t : ℕ). t * b) (mod-add-div a (2 ^ 64)))
        ∙ add-mul (a % 2 ^ 64) (2 ^ 64 * (a / 2 ^ 64)) b
        ∙ ap (λ (t : ℕ). a % 2 ^ 64 * b + t) (mul_assoc (2 ^ 64) (a / 2 ^ 64) b)

pub mul-word : (a b : ℕ) → a * (b % 2 ^ 64) % 2 ^ 64 ≡ a * b % 2 ^ 64
mul-word a b = omega (arith, word-mul b a, mul_comm a b, mul_comm a (b % 2 ^ 64))

pub sum-cong : (n : ℕ) (f g : ℕ → ℕ) → ((i : ℕ) → i < n → f i ≡ g i) → sum n f ≡ sum n g
unfolding sum
sum-cong zero f g e = refl
sum-cong (suc n) f g e = omega (arith, sum-cong n f g (λ i h. e i (omega arith)), e n (omega arith))

pub sum-cong_word :
    (n : ℕ) (f g : ℕ → ℕ)
    → ((i : ℕ) → i < n → f i % 2 ^ 64 ≡ g i % 2 ^ 64)
    → sum n f % 2 ^ 64 ≡ sum n g % 2 ^ 64
unfolding sum
sum-cong_word zero f g e = refl
sum-cong_word (suc n) f g e =
    omega (arith, sum-cong_word n f g (λ i h. e i (omega arith)), e n (omega arith))

pub sum-add : (n : ℕ) (f g : ℕ → ℕ) → sum n (λ i. f i + g i) ≡ sum n f + sum n g
unfolding sum
sum-add zero f g = refl
sum-add (suc n) f g = omega (arith, sum-add n f g)

pub sum-mul : (n : ℕ) (f : ℕ → ℕ) (k : ℕ) → sum n (λ i. f i * k) ≡ sum n f * k
unfolding sum
sum-mul zero f k = omega arith
sum-mul (suc n) f k = grind (arith, sum-mul n f k)

pub sum-mul_left : (n : ℕ) (f : ℕ → ℕ) (k : ℕ) → sum n (λ i. k * f i) ≡ k * sum n f
sum-mul_left n f k =
    sum-cong n (λ i. k * f i) (λ i. f i * k) (λ i h. mul_comm k (f i))
    ∙ sum-mul n f k
    ∙ mul_comm (sum n f) k

pub sum-zero : (n : ℕ) → sum n (λ i. 0) ≡ 0
unfolding sum
sum-zero zero = refl
sum-zero (suc n) = omega (arith, sum-zero n)

-- Two sums change places.
pub sum-sum :
    (n m : ℕ) (f : ℕ → ℕ → ℕ) → sum n (λ i. sum m (λ j. f i j)) ≡ sum m (λ j. sum n (λ i. f i j))
unfolding sum
sum-sum zero m f = sym (sum-zero m)
sum-sum (suc n) m f = omega (arith, sum-sum n m f, sum-add m (λ j. sum n (λ i. f i j)) (λ j. f n j))

-- A sum with one value that is not 0.
pub sum-single :
    (n x : ℕ) (f : ℕ → ℕ) → sum n (λ i. if i == x then f i else 0) ≡ (if ltb x n then f x else 0)
unfolding sum
sum-single zero x f = ground arith
sum-single (suc n) x f = elim (Bool-cases (n == x)) [
  | inl e ↦ let same : n ≡ x = ground arith in ground (arith, sum-single n x f, ap f same)
  | inr e ↦ ground (arith, sum-single n x f)
]
