-- ===== src/ConstexprMap/Laws.antt =====
-- constexpr-map/constexpr_map.h: assignment, lookup and erasure.
use cpp_many_tasks.Prelude.Classes.{Eq}
use cpp_many_tasks.Prelude.{
  ℕ, zero, suc, ◌≤◌, ◌<◌, ◌≡◌, refl, sym, ap, ◌∙◌, ◌⊎◌, inl, inr, true, Option, none, some, List,
  [], ◌∷◌, arith, if◌then◌else◌, length, Option-cases,
}
use cpp_many_tasks.ConstexprMap.{
  ConstexprMap, position, second_at, set_first, set_second, subscript, assign, get, find,
}

module _ {K V : Type 0} ⦃eq : Eq K⦄ where
  -- What the first `n` slots hold for a key.
  unfoldable pub look : K → ℕ → List (K × V) → Option V
  look k zero l = none
  look k (suc n) [] = none
  look k (suc n) ((j, v) ∷ l) = if eq.beq j k then some v else look k n l

  -- What a position in the slots holds.
  abbrev held : Option ℕ → List (K × V) → Option V
  held none l = none
  held (some i) l = second_at i l

  held-position : (k : K) (n : ℕ) (l : List (K × V)) → held (position k n l) l ≡ look k n l
  unfolding position second_at look
  held-position k zero l = refl
  held-position k (suc n) [] = refl
  held-position k (suc n) ((j, v) ∷ l) = ground (arith, held-position k n l)

  pub get-look : (k : K) (m : ConstexprMap K V) → get k m ≡ look k m.size m.slots
  unfolding get
  get-look k m = ground (arith, held-position k m.size m.slots)

  look-set_second :
      (k j : K) (w : V) (n i : ℕ) (l : List (K × V))
      → position k n l ≡ some i
      → look j n (set_second i w l) ≡ (if eq.beq k j then some w else look j n l)
  unfolding position set_second look
  look-set_second k j w zero i l e = cc
  look-set_second k j w (suc n) i [] e = cc
  look-set_second k j w (suc n) zero ((h, v) ∷ l) e = ground (arith, eq.beq_iff h k, eq.beq_iff k j)
  look-set_second k j w (suc n) (suc i) ((h, v) ∷ l) e =
      ground (arith, look-set_second k j w n i l, eq.beq_iff h k, eq.beq_iff k j, eq.beq_iff h j)

  look-entered :
      (k j : K) (w : V) (n : ℕ) (l : List (K × V))
      → position k n l ≡ none
      → n < length l
      → look j (suc n) (set_second n w (set_first n k l))
        ≡ (if eq.beq k j then some w else look j n l)
  unfolding position set_second set_first look
  look-entered k j w n [] e room = absurd (omega arith)
  look-entered k j w zero ((h, v) ∷ l) e room = ground arith
  look-entered k j w (suc n) ((h, v) ∷ l) e room =
      ground (arith, look-entered k j w n l, eq.beq_iff h k, eq.beq_iff k j, eq.beq_iff h j)

  -- No key is in two of the first `n` slots.
  unfoldable pub IsDistinct : ℕ → List (K × V) → Type 0
  IsDistinct zero l = Unit
  IsDistinct (suc n) [] = Unit
  IsDistinct (suc n) ((j, v) ∷ l) = (look j n l ≡ none) × IsDistinct n l

  pub record IsValid (m : ConstexprMap K V) : Type 0 where
    pub room : m.size ≤ length m.slots
    pub distinct : IsDistinct m.size m.slots

  pub look-position : (k : K) (n : ℕ) (l : List (K × V)) → position k n l ≡ none → look k n l ≡ none
  unfolding position look
  look-position k zero l e = refl
  look-position k (suc n) [] e = refl
  look-position k (suc n) ((j, v) ∷ l) e = ground (arith, look-position k n l)

  length-set_first : (i : ℕ) (k : K) (l : List (K × V)) → length (set_first i k l) ≡ length l
  unfolding set_first
  length-set_first i k [] = refl
  length-set_first zero k ((j, v) ∷ l) = refl
  length-set_first (suc i) k ((j, v) ∷ l) = omega (arith, length-set_first i k l)

  length-set_second : (i : ℕ) (w : V) (l : List (K × V)) → length (set_second i w l) ≡ length l
  unfolding set_second
  length-set_second i w [] = refl
  length-set_second zero w ((j, v) ∷ l) = refl
  length-set_second (suc i) w ((j, v) ∷ l) = omega (arith, length-set_second i w l)

  set_second-IsDistinct :
      (k : K) (w : V) (n i : ℕ) (l : List (K × V))
      → position k n l ≡ some i
      → IsDistinct n l
      → IsDistinct n (set_second i w l)
  unfolding position set_second look IsDistinct
  set_second-IsDistinct k w zero i l e d = tt
  set_second-IsDistinct k w (suc n) i [] e d = tt
  set_second-IsDistinct k w (suc n) zero ((h, v) ∷ l) e d = d
  set_second-IsDistinct k w (suc n) (suc i) ((h, v) ∷ l) e (new, d) =
      let further : position k n l ≡ some i = ground arith in
      (
        ground (arith, look-set_second k h w n i l further, eq.beq_iff h k, eq.beq_iff k h),
        set_second-IsDistinct k w n i l further d,
      )

  entered-IsDistinct :
      (k : K) (w : V) (n : ℕ) (l : List (K × V))
      → position k n l ≡ none
      → n < length l
      → IsDistinct n l
      → IsDistinct (suc n) (set_second n w (set_first n k l))
  unfolding position set_second set_first look IsDistinct
  entered-IsDistinct k w n [] e room d = absurd (omega arith)
  entered-IsDistinct k w zero ((h, v) ∷ l) e room d = (refl, tt)
  entered-IsDistinct k w (suc n) ((h, v) ∷ l) e room (new, d) =
      let further : position k n l ≡ none = ground arith in
      (
        ground (arith, look-entered k h w n l further, eq.beq_iff h k, eq.beq_iff k h),
        entered-IsDistinct k w n l further (omega arith) d,
      )

  -- An assignment to a key that a valid map has, or for which it has room, succeeds; then the key has
  -- the new value and every other key what it had before, and the map stays valid.
  pub get-assign :
      (k j : K) (w : V) (m : ConstexprMap K V)
      → IsValid m
      → (find k m ≡ true) ⊎ (m.size < length m.slots)
      → (m' : ConstexprMap K V) × (assign k w m ≡ some m')
        × (get j m' ≡ (if eq.beq k j then some w else get j m))
        × IsValid m'
  unfolding assign subscript find
  get-assign k j w m v may = elim (Option-cases (position k m.size m.slots)) [
    | inr (i, e) ↦ (
      record m { slots = set_second i w m.slots },
      ground arith,
      get-look j (record m { slots = set_second i w m.slots })
          ∙ look-set_second k j w m.size i m.slots e
          ∙ ap (λ o. if eq.beq k j then some w else o) (sym (get-look j m)),
      record {
        room = omega (arith, length-set_second i w m.slots, v.room);
        distinct = set_second-IsDistinct k w m.size i m.slots e v.distinct;
      },
    )
    | inl e ↦
        let room : m.size < length m.slots = ground arith in
        (
          record { slots = set_second m.size w (set_first m.size k m.slots); size = suc m.size },
          ground arith,
          get-look j (record {
            slots = set_second m.size w (set_first m.size k m.slots);
            size = suc m.size;
          })
              ∙ look-entered k j w m.size m.slots e room
              ∙ ap (λ o. if eq.beq k j then some w else o) (sym (get-look j m)),
          record {
            room = omega (
              arith,
              length-set_second m.size w (set_first m.size k m.slots),
              length-set_first m.size k m.slots,
            );
            distinct = entered-IsDistinct k w m.size m.slots e room v.distinct;
          },
        )
  ]
