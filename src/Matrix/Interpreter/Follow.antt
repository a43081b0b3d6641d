-- ===== src/Matrix/Interpreter/Follow.antt =====
-- matrix-3.0/interpreter.h: products and powers of matrices that act like functions.
use mathlib.Core.Path.{subst}
use cpp_many_tasks.Prelude.{ℕ, zero, suc, ◌^◌, ◌<◌, ◌≡◌, sym, ap, ◌∙◌, some}
use cpp_many_tasks.Matrix.Dense.{Matrix, product, identity, power}
use cpp_many_tasks.Matrix.Dense.Action.{act, Agree, IsWords, act-Agree, act-identity, act-product}
use cpp_many_tasks.Matrix.Dense.Power.{IsSquare, iterate, power_lem}
use cpp_many_tasks.Matrix.Interpreter.Assignment.{IsState, Acts}

-- On states that `res` leads to, `m` acts like f behind it.
abbrev pub Follows : ℕ → Matrix → Matrix → ((ℕ → ℕ) → ℕ → ℕ) → Type 0
Follows n res m f =
    (v w : ℕ → ℕ)
    → Agree (suc n) (act (suc n) res v) w
    → IsState n w
    → IsState n (f w) × Agree (suc n) (act (suc n) m v) (f w)

pub Acts-Follows :
    (n : ℕ) (res a m : Matrix) (f g : (ℕ → ℕ) → ℕ → ℕ)
    → IsSquare (suc n) res
    → Acts n a f
    → Follows n (product res a) m g
    → Follows n res m (λ w. g (f w))
Acts-Follows n res a m f g square acts follows v w same state =
    let step = acts (act (suc n) res v) w same state in
    follows v (f w) (λ j h. act-product (suc n) res a v square.1 j h ∙ step.1 j h) step.0

pub identity-Follows :
    (n : ℕ) (m : Matrix) (f : (ℕ → ℕ) → ℕ → ℕ) → Follows n (identity (suc n)) m f → Acts n m f
identity-Follows n m f follows v w same state =
    follows v w
      (λ j h.
        act-Agree (suc n) (identity (suc n)) v w same j h ∙ act-identity (suc n) w state.0 j h)
      state

some-injective : (a b : Matrix) → some a ≡ some b → a ≡ b
some-injective a b h = cc

iterate-Acts :
    (n k : ℕ) (m : Matrix) (f : (ℕ → ℕ) → ℕ → ℕ) (v w : ℕ → ℕ)
    → Acts n m f
    → Agree (suc n) v w
    → IsState n w
    → IsState n (iterate k f w) × Agree (suc n) (iterate k (act (suc n) m) v) (iterate k f w)
unfolding iterate
iterate-Acts n zero m f v w acts same state = (state, same)
iterate-Acts n (suc k) m f v w acts same state =
    let step = acts v w same state in
    iterate-Acts n k m f (act (suc n) m v) (f w) acts step.1 step.0

pub power-Acts :
    (n k : ℕ) (m r : Matrix) (f : (ℕ → ℕ) → ℕ → ℕ)
    → IsSquare (suc n) m
    → Acts n m f
    → k < 2 ^ 64
    → power m k ≡ some r
    → IsSquare (suc n) r × Acts n r (λ w. iterate k f w)
power-Acts n k m r f square acts small powered = (
  subst (λ p. IsSquare (suc n) p) same found.2,
  λ v w agree state.
      let all = iterate-Acts n k m f v w acts agree state in
      (
        all.0,
        λ j h.
            ap (λ (p : Matrix). act (suc n) p v j) (sym same)
            ∙ found.3 v (λ i l. rw (agree i l) (state.0 i l)) j h
            ∙ all.1 j h,
      ),
)
  where
    found :
        (p : Matrix) × (power m k ≡ some p)
        × IsSquare (suc n) p
        × ((v : ℕ → ℕ)
            → IsWords (suc n) v
            → Agree (suc n) (act (suc n) p v) (iterate k (act (suc n) m) v))
    found = power_lem (suc n) k m square small

    same : found.0 ≡ r
    same = some-injective found.0 r (sym found.1 ∙ powered)
