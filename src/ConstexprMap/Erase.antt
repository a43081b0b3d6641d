-- ===== src/ConstexprMap/Erase.antt =====
-- constexpr-map/constexpr_map.h: erasure.
use mathlib.Core.Path.{subst}
use cpp_many_tasks.Prelude.Classes.{Eq}
use cpp_many_tasks.Prelude.{
  ℕ, zero, suc, ◌-◌, ◌≤◌, ◌<◌, ◌≡◌, refl, sym, ap, ◌∙◌, inl, inr, true, false, none, some, List, [],
  ◌∷◌, arith, if◌then◌else◌, length, Option-cases,
}
use cpp_many_tasks.ConstexprMap.{
  ConstexprMap, position, second_at, set_first, subscript, get, find, shift_values, erase,
}
use cpp_many_tasks.ConstexprMap.Laws.{look, get-look, look-position, IsDistinct, IsValid}

module _ {K V : Type 0} ⦃eq : Eq K⦄ where
  look-shift_first :
      (j : K) (n : ℕ) (a : K × V) (l : List (K × V))
      → n ≤ length l
      → look j n (shift_values 0 (suc n) (a ∷ l)) ≡ look j n l
  unfolding look shift_values
  look-shift_first j zero a l room = refl
  look-shift_first j (suc n) a [] room = absurd (omega arith)
  look-shift_first j (suc n) a ((h, v) ∷ l) room = ground (arith, look-shift_first j n (h, v) l)

  look-shift_values :
      (k j : K) (n i : ℕ) (l : List (K × V))
      → position k (suc n) l ≡ some i
      → IsDistinct (suc n) l
      → suc n ≤ length l
      → look j n (shift_values i (suc n) l) ≡ (if eq.beq k j then none else look j (suc n) l)
  unfolding position look shift_values IsDistinct
  look-shift_values k j n i [] e d room = cc
  look-shift_values k j n zero ((h, v) ∷ l) e (new, d) room =
      ground (arith, look-shift_first j n (h, v) l, eq.beq_iff h k, eq.beq_iff k j, eq.beq_iff h j)
  look-shift_values k j zero (suc i) ((h, v) ∷ l) e (new, d) room = ground arith
  look-shift_values k j (suc n) (suc i) ((h, v) ∷ l) e (new, d) room =
      ground (arith, look-shift_values k j n i l, eq.beq_iff h k, eq.beq_iff k j, eq.beq_iff h j)

  abbrev shrunk : ℕ → ConstexprMap K V → ConstexprMap K V
  shrunk i m = record { slots = shift_values i m.size m.slots; size = m.size - 1 }

  missing :
      (k : K) (m : ConstexprMap K V) → position k m.size m.slots ≡ none → erase k m ≡ (false, m)
  unfolding erase
  missing k m e = ground arith

  present :
      (k : K) (m : ConstexprMap K V) (i : ℕ)
      → position k m.size m.slots ≡ some i
      → erase k m ≡ (true, shrunk i m)
  unfolding erase
  present k m i e = ground arith

  unheld :
      (k j : K) (m : ConstexprMap K V)
      → position k m.size m.slots ≡ none
      → get j m ≡ (if eq.beq k j then none else get j m)
  unheld k j m e = ground (arith, get-look k m, look-position k m.size m.slots, eq.beq_iff k j)

  removed :
      (k j : K) (m : ConstexprMap K V) (i : ℕ)
      → IsValid m
      → position k m.size m.slots ≡ some i
      → look j (m.size - 1) (shift_values i m.size m.slots)
        ≡ (if eq.beq k j then none else look j m.size m.slots)
  unfolding position
  removed k j m i v e = go m.size refl
    where
      go :
          (n : ℕ)
          → m.size ≡ n
          → look j (m.size - 1) (shift_values i m.size m.slots)
            ≡ (if eq.beq k j then none else look j m.size m.slots)
      go zero z = cc (ap (λ n. position k n m.slots) z)
      go (suc n) z =
          let pred : suc n - 1 ≡ n = omega arith in
          rw (z, pred)
            (look-shift_values k j n i m.slots (ap (λ s. position k s m.slots) (sym z) ∙ e)
              (subst (λ s. IsDistinct s m.slots) z v.distinct) (omega (arith, v.room)))

  -- `Erase` on a valid map removes the key, every other key keeps its value, and the result says
  -- whether the key was there.
  pub get-erase :
      (k j : K) (m : ConstexprMap K V)
      → IsValid m
      → (get j (erase k m).1 ≡ (if eq.beq k j then none else get j m)) × ((erase k m).0 ≡ find k m)
  unfolding find
  get-erase k j m v = elim (Option-cases (position k m.size m.slots)) [
    | inl e ↦
        let r : erase k m ≡ (false, m) = missing k m e in
        (ap (λ p. get j p.1) r ∙ unheld k j m e, ap (λ p. p.0) r ∙ ground arith)
    | inr (i, e) ↦
        let r : erase k m ≡ (true, shrunk i m) = present k m i e in
        (
          ap (λ p. get j p.1) r
              ∙ get-look j (shrunk i m)
              ∙ removed k j m i v e
              ∙ ap (λ o. if eq.beq k j then none else o) (sym (get-look j m)),
          ap (λ p. p.0) r ∙ ground arith,
        )
  ]

  second_at-shift_values :
      (i n : ℕ) (l : List (K × V)) → second_at n (shift_values i (suc n) l) ≡ second_at n l
  unfolding second_at shift_values
  second_at-shift_values i n [] = refl
  second_at-shift_values (suc i) zero (a ∷ l) = refl
  second_at-shift_values (suc i) (suc n) (a ∷ l) = second_at-shift_values i n l
  second_at-shift_values zero n (a ∷ []) = refl
  second_at-shift_values zero zero (a ∷ b ∷ l) = refl
  second_at-shift_values zero (suc n) (a ∷ b ∷ l) = second_at-shift_values zero n (b ∷ l)

  second_at-set_first :
      (i : ℕ) (k : K) (l : List (K × V)) → second_at i (set_first i k l) ≡ second_at i l
  unfolding second_at set_first
  second_at-set_first i k [] = refl
  second_at-set_first zero k (a ∷ l) = refl
  second_at-set_first (suc i) k (a ∷ l) = second_at-set_first i k l

  length-shift_values : (i n : ℕ) (l : List (K × V)) → length (shift_values i n l) ≡ length l
  unfolding shift_values
  length-shift_values i zero l = refl
  length-shift_values i (suc n) [] = refl
  length-shift_values (suc i) (suc n) (a ∷ l) = omega (arith, length-shift_values i n l)
  length-shift_values zero (suc n) (a ∷ []) = refl
  length-shift_values zero (suc zero) (a ∷ b ∷ l) = refl
  length-shift_values zero (suc (suc n)) (a ∷ b ∷ l) =
      omega (arith, length-shift_values zero (suc n) (b ∷ l))

  kept_slot :
      (i n : ℕ) (j : K) (l : List (K × V))
      → 0 < n
      → second_at (n - 1) (set_first (n - 1) j (shift_values i n l)) ≡ second_at (n - 1) l
  kept_slot i zero j l pos = absurd (omega arith)
  kept_slot i (suc n) j l pos =
      let pred : suc n - 1 ≡ n = omega arith in
      rw pred (second_at-set_first n j (shift_values i (suc n) l) ∙ second_at-shift_values i n l)

  -- After an erasure from a valid map that is not empty `operator[]` with a key that is not in the map
  -- gives it the value that the last slot in use held before, not a fresh one.
  pub subscript-erase :
      (k j : K) (m : ConstexprMap K V)
      → IsValid m
      → 0 < m.size
      → find k m ≡ true
      → find j (erase k m).1 ≡ false
      → (m' : ConstexprMap K V) × (subscript j (erase k m).1 ≡ some (m.size - 1, m'))
        × (second_at (m.size - 1) m'.slots ≡ second_at (m.size - 1) m.slots)
  unfolding subscript find
  subscript-erase k j m v pos had absent = elim (Option-cases (position k m.size m.slots)) [
    | inl e ↦ cc
    | inr (i, e) ↦
        let r : erase k m ≡ (true, shrunk i m) = present k m i e in
        (
          record {
            slots = set_first (m.size - 1) j (shift_values i m.size m.slots);
            size = suc (m.size - 1);
          },
          ap (λ p. subscript j p.1) r
              ∙ ground
                  (arith, ap (λ p. find j p.1) r, length-shift_values i m.size m.slots, v.room),
          kept_slot i m.size j m.slots pos,
        )
  ]
