-- ===== src/Matrix/Result.antt =====
-- matrix-3.0: what a call of the interpreter comes to.
use mathlib.Core.Path.{subst}
use cpp_many_tasks.Prelude.{◌≡◌, refl}

pub data Error : Type 0 where
  -- `MatrixException`, or `std::out_of_range` of a map.
  exception : Error
  -- The end of a line is read, which is undefined.
  end_of_line : Error
  -- The fuel ran out.
  no_fuel : Error

pub data Result {ℓ} (A : Type ℓ) : Type ℓ where
  ok : A → Result A
  err : Error → Result A

infixl 5 ◌>>=◌
abbrev pub ◌>>=◌ {ℓ κ} : {A : Type ℓ} {B : Type κ} → Result A → (A → Result B) → Result B
ok a >>= f = f a
err e >>= f = err e

pub ok-injective {ℓ} : {A : Type ℓ} (a b : A) → ok a ≡ ok b → a ≡ b
ok-injective a b h = cc

-- Where a chain returns, its first part does.
pub bind-ok {ℓ κ} :
    {A : Type ℓ} {B : Type κ} (r : Result A) (f : A → Result B) (b : B)
    → (r >>= f) ≡ ok b
    → (a : A) × (r ≡ ok a) × (f a ≡ ok b)
bind-ok (ok a) f b h = (a, refl, h)
bind-ok (err e) f b h = absurd cc

-- A call that throws, or returns with P.
unfoldable pub Outcome : {A : Type 0} → (A → Type 0) → Result A → Type 0
Outcome P (ok a) = P a
Outcome P (err exception) = Unit
Outcome P (err end_of_line) = ⊥
Outcome P (err no_fuel) = ⊥

pub bind-Outcome :
    {A : Type 0} {B : Type 0} (P : A → Type 0) (Q : B → Type 0) (r : Result A) (f : A → Result B)
    → Outcome P r
    → ((a : A) → P a → Outcome Q (f a))
    → Outcome Q (r >>= f)
unfolding Outcome
bind-Outcome P Q (ok a) f h next = next a h
bind-Outcome P Q (err exception) f h next = tt
bind-Outcome P Q (err end_of_line) f h next = elim h [ ]
bind-Outcome P Q (err no_fuel) f h next = elim h [ ]

pub ok-Outcome : {A : Type 0} (P : A → Type 0) (r : Result A) (a : A) → Outcome P r → r ≡ ok a → P a
unfolding Outcome
ok-Outcome P r a h e = subst (λ s. Outcome P s) e h
