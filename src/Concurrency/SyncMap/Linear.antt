-- ===== src/Concurrency/SyncMap/Linear.antt =====
-- sync-map/sync_map.h: every part of a call acts on one map, the snapshot with the second table.
use mathlib.Core.Path.{subst}
use cpp_many_tasks.Prelude.Classes.{Eq}
use cpp_many_tasks.Prelude.{
  is_some, or_else, ℕ, ◌≡◌, ◌⊎◌, inl, inr, refl, sym, ap, ◌∙◌, Bool, true, false, not, Option, none,
  some, List, [], ◌∷◌, if◌then◌else◌, arith, Option-cases,
}
use cpp_many_tasks.Concurrency.SyncMap.{
  find, emplace, insert_all, SyncMap, init, lookup_snapshot, count_operation, lookup_locked,
  insert_snapshot, insert_locked,
}

module _ {ℓ κ} {K : Type ℓ} {V : Type κ} ⦃eq : Eq K⦄ where
  find-emplace :
      (k j : K) (v : V) (m : List (K × V))
      → find j (emplace k v m) ≡ or_else (find j m) (if eq.beq k j then some v else none)
  unfolding emplace find
  find-emplace k j v m = ground (arith, eq.beq_iff k j)

  find-insert_all :
      (j : K) (m rest : List (K × V))
      → find j (insert_all m rest) ≡ or_else (find j m) (find j rest)
  unfolding insert_all find
  find-insert_all j m [] = ground arith
  find-insert_all j m ((k, v) ∷ rest) =
      ground (arith, find-insert_all j (emplace k v m) rest, find-emplace k j v m)

  abbrev in_mutable : K → Option (List (K × V)) → Option V
  in_mutable k none = none
  in_mutable k (some m) = find k m

  -- The abstract map.
  abbrev pub contents : SyncMap K V → K → Option V
  contents s k = or_else (find k s.snapshot.read_only) (in_mutable k s.mutable_map)

  -- The snapshot is dirty exactly if there is a second table, and no key is in both.
  pub record IsValid (s : SyncMap K V) : Type (ℓ ⊔ κ) where
    pub marked : s.snapshot.dirty ≡ is_some s.mutable_map
    pub disjoint :
        (k : K) → (find k s.snapshot.read_only ≡ none) ⊎ (in_mutable k s.mutable_map ≡ none)

  pub init-IsValid : IsValid init
  unfolding init find
  init-IsValid = record { marked = refl; disjoint = λ k. inl refl }

  -- Without the mutex `Lookup` returns what the map holds at that moment, or goes on.
  pub lookup_snapshot-contents :
      (s : SyncMap K V) (k : K) (r : Option V)
      → IsValid s
      → lookup_snapshot k s ≡ some r
      → r ≡ contents s k
  unfolding lookup_snapshot
  lookup_snapshot-contents s k r v e = ground (arith, v.marked)

  -- The move to a new snapshot changes nothing that can be seen.
  count_operation-contents :
      (m : List (K × V)) (s : SyncMap K V)
      → IsValid s
      → s.mutable_map ≡ some m
      → IsValid (count_operation m s) × ((j : K) → contents (count_operation m s) j ≡ contents s j)
  unfolding count_operation
  count_operation-contents m s v e = (
    record { marked = ground (arith, v.marked); disjoint = λ k. ground (arith, v.disjoint k) },
    λ j. ground (arith, find-insert_all j m s.snapshot.read_only, v.disjoint j),
  )

  abbrev Looked : SyncMap K V → K → Option V × SyncMap K V → Type (ℓ ⊔ κ)
  Looked s k r = (r.0 ≡ contents s k) × IsValid r.1 × ((j : K) → contents r.1 j ≡ contents s j)

  -- In a valid state `Lookup` under the mutex returns what the map holds at that moment and leaves the
  -- map as it is, also where it makes a new snapshot; the state stays valid.
  pub lookup_locked-contents :
      (s : SyncMap K V) (k : K)
      → IsValid s
      → ((lookup_locked k s).0 ≡ contents s k)
        × IsValid (lookup_locked k s).1
        × ((j : K) → contents (lookup_locked k s).1 j ≡ contents s j)
  unfolding lookup_locked
  lookup_locked-contents s k v = elim (Option-cases (find k s.snapshot.read_only)) [
    | inr (w, e) ↦
        let r : lookup_locked k s ≡ (some w, s) = ground arith in
        subst (Looked s k) (sym r) (ground arith, v, λ j. refl)
    | inl e ↦ elim (Option-cases s.mutable_map) [
      | inl f ↦
          let r : lookup_locked k s ≡ (none, s) = ground arith in
          subst (Looked s k) (sym r) (ground arith, v, λ j. refl)
      | inr (m, f) ↦
          let r : lookup_locked k s ≡ (find k m, count_operation m s) = ground arith in
          let (valid, same) = count_operation-contents m s v f in
          subst (Looked s k) (sym r) (ground arith, valid, same)
    ]
  ]

  -- Without the mutex `Insert` refuses only a key that the map holds.
  pub insert_snapshot-contents :
      (s : SyncMap K V) (k : K) (b : Bool)
      → insert_snapshot k s ≡ some b
      → (b ≡ false) × (is_some (contents s k) ≡ true)
  unfolding insert_snapshot
  insert_snapshot-contents s k b e = ground arith

  abbrev Inserted : SyncMap K V → K → V → Bool × SyncMap K V → Type (ℓ ⊔ κ)
  Inserted s k v r =
      (r.0 ≡ not (is_some (contents s k)))
      × IsValid r.1
      × ((j : K) → contents r.1 j ≡ or_else (contents s j) (if eq.beq k j then some v else none))

  refused :
      (s : SyncMap K V) (k : K) (v : V)
      → IsValid s
      → is_some (contents s k) ≡ true
      → Inserted s k v (false, s)
  refused s k v valid e = (ground arith, valid, λ j. ground (arith, eq.beq_iff k j))

  added :
      (s : SyncMap K V) (k : K) (v : V) (n : ℕ) (m : List (K × V))
      → IsValid s
      → find k s.snapshot.read_only ≡ none
      → find k m ≡ none
      → ((j : K) → in_mutable j s.mutable_map ≡ find j m)
      → Inserted s k v (
        true,
        record {
          snapshot = record { read_only = s.snapshot.read_only; dirty = true };
          mutable_map = some (emplace k v m);
          operation_count = n;
        },
      )
  added s k v n m valid new absent same = (
    ground (arith, same k),
    record {
      marked = refl;
      disjoint =
          λ j. ground (arith, valid.disjoint j, same j, find-emplace k j v m, eq.beq_iff k j);
    },
    λ j. ground (arith, same j, find-emplace k j v m),
  )

  -- In a valid state `Insert` under the mutex enters a new key and refuses an old one; no other key
  -- changes, and the state stays valid.
  pub insert_locked-contents :
      (s : SyncMap K V) (k : K) (v : V)
      → IsValid s
      → ((insert_locked k v s).0 ≡ not (is_some (contents s k)))
        × IsValid (insert_locked k v s).1
        × ((j : K)
            → contents (insert_locked k v s).1 j
              ≡ or_else (contents s j) (if eq.beq k j then some v else none))
  unfolding insert_locked find
  insert_locked-contents s k v valid = elim (Option-cases (find k s.snapshot.read_only)) [
    | inr (w, e) ↦
        let r : insert_locked k v s ≡ (false, s) = ground arith in
        subst (Inserted s k v) (sym r) (refused s k v valid (ground arith))
    | inl e ↦ elim (Option-cases s.mutable_map) [
      | inl f ↦
          subst (Inserted s k v) (ground arith)
            (added s k v s.operation_count [] valid e refl (λ j. rw f))
      | inr (m, f) ↦ elim (Option-cases (find k m)) [
        | inr (w, g) ↦
            let r : insert_locked k v s ≡ (false, s) = ground arith in
            subst (Inserted s k v) (sym r) (refused s k v valid (ground arith))
        | inl g ↦
            subst (Inserted s k v) (ground (arith, valid.marked))
              (added s k v 0 m valid e g (λ j. rw f))
      ]
    ]
  ]

  -- A part of a call that may change the state; the other parts only read the snapshot.
  pub data Step : SyncMap K V → SyncMap K V → Type (ℓ ⊔ κ) where
    looks_up : (s : SyncMap K V) (k : K) → Step s (lookup_locked k s).1
    inserts : (s : SyncMap K V) (k : K) (v : V) → Step s (insert_locked k v s).1

  pub data Reach (s : SyncMap K V) : SyncMap K V → Type (ℓ ⊔ κ) where
    here : Reach s s
    later : {t u : SyncMap K V} → Reach s t → Step t u → Reach s u

  abbrev pub Keeps : SyncMap K V → SyncMap K V → Type (ℓ ⊔ κ)
  Keeps s t = IsValid t × ((k : K) (v : V) → contents s k ≡ some v → contents t k ≡ some v)

  Step-Keeps : {s t : SyncMap K V} → IsValid s → Step s t → Keeps s t
  Step-Keeps valid (looks_up s k) =
      let (_, valid', same) = lookup_locked-contents s k valid in (valid', λ j w e. same j ∙ e)
  Step-Keeps valid (inserts s k v) =
      let (_, valid', put) = insert_locked-contents s k v valid in
      (valid', λ j w e. put j ∙ ap (λ o. or_else o (if eq.beq k j then some v else none)) e)

  Reach-Keeps : {s t : SyncMap K V} → IsValid s → Reach s t → Keeps s t
  Reach-Keeps valid here = (valid, λ k v e. e)
  Reach-Keeps valid (later r step) =
      let (valid', kept) = Reach-Keeps valid r in
      let (valid'', kept') = Step-Keeps valid' step in (valid'', λ k v e. kept' k v (kept k v e))

  -- In any interleaving of the parts of calls, from the empty map on, a lookup without the mutex that
  -- decides returns what the map holds for the key at that moment, and that is the value that the map held for the
  -- key at any earlier moment, if it held one then; it finds nothing only where the map never held the key.
  pub lookup_snapshot-Reach :
      {s t : SyncMap K V} (k : K) (r : Option V)
      → Reach init s
      → Reach s t
      → lookup_snapshot k t ≡ some r
      → (r ≡ contents t k)
        × ((v : V) → contents s k ≡ some v → r ≡ some v)
        × (r ≡ none → contents s k ≡ none)
  lookup_snapshot-Reach {s = s} {t = t} k r before after found =
      let (valid, _) = Reach-Keeps init-IsValid before in
      let (valid', kept) = Reach-Keeps valid after in
      let now = lookup_snapshot-contents t k r valid' found in
      (
        now,
        λ v held. now ∙ kept k v held,
        λ missing. elim (Option-cases (contents s k)) [
          | inl e ↦ e
          | inr (v, e) ↦ let stays = kept k v e in absurd cc
        ],
      )
