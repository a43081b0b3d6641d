-- ===== src/Matrix/Dense/Dot.antt =====
-- matrix-3.0/matrix.h: the innermost loop of the product is linear in the column.
use cpp_many_tasks.Prelude.{
  ℕ, suc, ◌+◌, ◌-◌, ◌*◌, ◌%◌, ◌^◌, ◌<◌, ◌≡◌, sym, ap, ◌∙◌, inl, inr, arith, Bool-cases, ◌==◌,
  if◌then◌else◌,
}
use native.Mathlib.Nat.{mul_assoc}
use cpp_many_tasks.Matrix.Words.{
  add_word, mul_word, neg_word, sub_word, word-mul, mul-word, sum, sum-cong, sum-cong_word, sum-add,
  sum-mul, sum-single,
}
use cpp_many_tasks.Matrix.Dense.{dot}
use cpp_many_tasks.Matrix.Dense.Action.{dot-sum}

pub dot-cong :
    (n : ℕ) (l r s : ℕ → ℕ)
    → ((z : ℕ) → z < n → r z % 2 ^ 64 ≡ s z % 2 ^ 64)
    → dot n l r ≡ dot n l s
dot-cong n l r s e =
    dot-sum n l r
    ∙ sum-cong_word n (λ z. l z * r z) (λ z. l z * s z)
        (λ z h.
          sym (mul-word (l z) (r z))
          ∙ ap (λ (t : ℕ). l z * t % 2 ^ 64) (e z h)
          ∙ mul-word (l z) (s z))
    ∙ sym (dot-sum n l s)

pub dot-mul :
    (n : ℕ) (l r : ℕ → ℕ) (k : ℕ) → dot n l (λ z. mul_word (r z) k) ≡ mul_word (dot n l r) k
unfolding mul_word
dot-mul n l r k =
    dot-cong n l (λ z. r z * k % 2 ^ 64) (λ z. r z * k) (λ z h. omega arith)
    ∙ dot-sum n l (λ z. r z * k)
    ∙ ap (λ s. s % 2 ^ 64)
        (sum-cong n (λ z. l z * (r z * k)) (λ z. l z * r z * k)
            (λ z h. sym (mul_assoc (l z) (r z) k))
          ∙ sum-mul n (λ z. l z * r z) k)
    ∙ sym (word-mul (sum n (λ z. l z * r z)) k)
    ∙ ap (λ (t : ℕ). t * k % 2 ^ 64) (sym (dot-sum n l r))

pub dot-add :
    (n : ℕ) (l r s : ℕ → ℕ) → dot n l (λ z. add_word (r z) (s z)) ≡ add_word (dot n l r) (dot n l s)
unfolding add_word
dot-add n l r s =
    dot-cong n l (λ z. (r z + s z) % 2 ^ 64) (λ z. r z + s z) (λ z h. omega arith)
    ∙ dot-sum n l (λ z. r z + s z)
    ∙ ap (λ t. t % 2 ^ 64)
        (sum-cong n (λ z. l z * (r z + s z)) (λ z. l z * r z + l z * s z) (λ z h. grind arith)
          ∙ sum-add n (λ z. l z * r z) (λ z. l z * s z))
    ∙ omega (arith, dot-sum n l r, dot-sum n l s)

-- The sign is a factor.
neg_word-mul : (a : ℕ) → neg_word a ≡ mul_word a (2 ^ 64 - 1)
unfolding neg_word mul_word
neg_word-mul a = omega arith

pub dot-neg : (n : ℕ) (l r : ℕ → ℕ) → dot n l (λ z. neg_word (r z)) ≡ neg_word (dot n l r)
dot-neg n l r =
    dot-cong n l (λ z. neg_word (r z)) (λ z. mul_word (r z) (2 ^ 64 - 1))
      (λ z h. ap (λ (t : ℕ). t % 2 ^ 64) (neg_word-mul (r z)))
    ∙ dot-mul n l r (2 ^ 64 - 1)
    ∙ sym (neg_word-mul (dot n l r))

pub dot-sub :
    (n : ℕ) (l r s : ℕ → ℕ) → dot n l (λ z. sub_word (r z) (s z)) ≡ sub_word (dot n l r) (dot n l s)
unfolding sub_word
dot-sub n l r s =
    dot-add n l r (λ z. neg_word (s z)) ∙ ap (λ (t : ℕ). add_word (dot n l r) t) (dot-neg n l s)

pub dot-single :
    (n x k : ℕ) (l : ℕ → ℕ) → x < n → dot n l (λ i. if i == x then k else 0) ≡ mul_word (l x) k
unfolding mul_word
dot-single n x k l h =
    dot-sum n l (λ i. if i == x then k else 0)
    ∙ ap (λ s. s % 2 ^ 64)
        (sum-cong n (λ z. l z * (if z == x then k else 0)) (λ z. if z == x then l z * k else 0)
            (λ z l. ground arith)
          ∙ sum-single n x (λ z. l z * k))
    ∙ ground arith

-- A column that is 0 above its last entry.
pub dot-last :
    (n : ℕ) (l r : ℕ → ℕ) → ((i : ℕ) → i < n → r i ≡ 0) → dot (suc n) l r ≡ mul_word (l n) (r n)
dot-last n l r e =
    dot-cong (suc n) l r (λ i. if i == n then r n else 0)
      (λ z h. ap (λ (t : ℕ). t % 2 ^ 64) (same z h))
    ∙ dot-single (suc n) n (r n) l (omega arith)
  where
    same : (z : ℕ) → z < suc n → r z ≡ (if z == n then r n else 0)
    same z h = elim (Bool-cases (z == n)) [
      | inl q ↦ rw q (ap r (ground arith))
      | inr q ↦ rw q (e z (ground arith))
    ]
