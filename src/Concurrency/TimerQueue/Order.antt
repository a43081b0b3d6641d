-- ===== src/Concurrency/TimerQueue/Order.antt =====
-- timerqueue/timerqueue.h: the order of the queue, and where `Add` and `Pop` fall short of it.
use mathlib.Core.Path.{subst}
use cpp_many_tasks.Prelude.{
  ℕ, ◌+◌, ◌≤◌, ◌<◌, ◌≡◌, refl, sym, ap, ◌∙◌, inl, inr, false, leb, Option, none, some, List, [],
  ◌∷◌, arith, All, ltb, Bool-cases, ◌==◌, if◌then◌else◌,
}
use cpp_many_tasks.Concurrency.TimerQueue.{add, deadline, may_return, take_first, pop}

module _ {T : Type 0} where
  -- The times grow.
  abbrev pub IsSorted : List (ℕ × T) → Type 0
  IsSorted [] = Unit
  IsSorted ((t, v) ∷ q) = All (λ (e : ℕ × T). t < e.0) q × IsSorted q

  -- What is kept for a time.
  unfoldable pub value_at : ℕ → List (ℕ × T) → Option T
  value_at at' [] = none
  value_at at' ((t, v) ∷ q) = if t == at' then some v else value_at at' q

  All-weaken :
      (s t : ℕ) (q : List (ℕ × T))
      → s < t
      → All (λ (e : ℕ × T). t < e.0) q
      → All (λ (e : ℕ × T). s < e.0) q
  All-weaken s t [] h all = tt
  All-weaken s t (e ∷ q) h (first, all) = (omega arith, All-weaken s t q h all)

  All-add :
      (t at' : ℕ) (v : T) (q : List (ℕ × T))
      → t < at'
      → All (λ (e : ℕ × T). t < e.0) q
      → All (λ (e : ℕ × T). t < e.0) (add at' v q)
  unfolding add
  All-add t at' v [] h all = (h, tt)
  All-add t at' v ((u, w) ∷ q) h (first, all) = ground (arith, All-add t at' v q h all)

  pub add-IsSorted : (at' : ℕ) (v : T) (q : List (ℕ × T)) → IsSorted q → IsSorted (add at' v q)
  unfolding add
  add-IsSorted at' v [] h = (tt, tt)
  add-IsSorted at' v ((t, w) ∷ q) (all, h) = elim (Bool-cases (ltb at' t)) [
    | inl before ↦ rw before ((ground arith, All-weaken at' t q (ground arith) all), (all, h))
    | inr behind ↦ elim (Bool-cases (at' == t)) [
      | inl same ↦ rw (behind, same) (all, h)
      | inr past ↦ rw (behind, past) (All-add t at' v q (ground arith) all, add-IsSorted at' v q h)
    ]
  ]

  absent :
      (at' t : ℕ) (q : List (ℕ × T))
      → at' ≤ t
      → All (λ (e : ℕ × T). t < e.0) q
      → value_at at' q ≡ none
  unfolding value_at
  absent at' t [] le all = refl
  absent at' t ((u, w) ∷ q) le (first, all) = ground (arith, absent at' t q le all)

  abbrev pub or_else : Option T → T → T
  or_else none v = v
  or_else (some w) v = w

  value_at-add :
      (at' t : ℕ) (v : T) (q : List (ℕ × T))
      → IsSorted q
      → value_at t (add at' v q)
        ≡ (if at' == t then some (or_else (value_at at' q) v) else value_at t q)
  unfolding add value_at
  value_at-add at' t v [] h = ground arith
  value_at-add at' t v ((u, w) ∷ q) (all, h) =
      ground (arith, value_at-add at' t v q h, absent at' u q)

  -- On a sorted queue `Add` enters its value if the time is free. If it is taken, the value is dropped, and what was
  -- kept for that time stays. Nothing changes at another time, and the queue stays sorted.
  pub add_lem :
      (at' t : ℕ) (v : T) (q : List (ℕ × T))
      → IsSorted q
      → (value_at t (add at' v q)
          ≡ (if at' == t then some (or_else (value_at at' q) v) else value_at t q))
        × IsSorted (add at' v q)
  add_lem at' t v q h = (value_at-add at' t v q h, add-IsSorted at' v q h)

  -- On a sorted queue a second value for a time that is taken is lost: nothing changes.
  pub add_drops :
      (at' : ℕ) (v w : T) (q : List (ℕ × T))
      → value_at at' q ≡ some w
      → IsSorted q
      → add at' v q ≡ q
  unfolding add value_at
  add_drops at' v w [] e h = cc
  add_drops at' v w ((u, x) ∷ q) e (all, h) = ground (arith, add_drops at' v w q, absent at' u q)

  -- The queues that calls of `Add` and `Pop` make of the empty one; a `Pop` takes the first entry.
  pub data Reach : List (ℕ × T) → Type 0 where
    initially : Reach []
    adds : (at' : ℕ) (v : T) (q : List (ℕ × T)) → Reach q → Reach (add at' v q)
    pops : (t : ℕ) (v : T) (q : List (ℕ × T)) → Reach ((t, v) ∷ q) → Reach q

  pub Reach-IsSorted : (q : List (ℕ × T)) → Reach q → IsSorted q
  Reach-IsSorted q initially = tt
  Reach-IsSorted q (adds at' v p r) = add-IsSorted at' v p (Reach-IsSorted p r)
  Reach-IsSorted q (pops t v p r) = (Reach-IsSorted ((t, v) ∷ p) r).1

  -- Some calls of `Add` after each other.
  unfoldable pub add_all : List (ℕ × T) → List (ℕ × T) → List (ℕ × T)
  add_all [] q = q
  add_all ((at', v) ∷ added) q = add_all added (add at' v q)

  -- The first entry of a queue, no later than t.
  abbrev FirstBy : ℕ → List (ℕ × T) → Type 0
  FirstBy t q = (u : ℕ) × (w : T) × (rest : List (ℕ × T)) × (q ≡ (u, w) ∷ rest) × (u ≤ t)

  first-add : (at' t : ℕ) (x v : T) (q : List (ℕ × T)) → FirstBy t (add at' x ((t, v) ∷ q))
  unfolding add
  first-add at' t x v q = elim (Bool-cases (ltb at' t)) [
    | inl before ↦ (at', x, (t, v) ∷ q, rw before refl, ground arith)
    | inr behind ↦ elim (Bool-cases (at' == t)) [
      | inl same ↦ (t, v, q, rw (behind, same) refl, omega arith)
      | inr past ↦ (t, v, add at' x q, rw (behind, past) refl, omega arith)
    ]
  ]

  first-add_all : (added q : List (ℕ × T)) (t : ℕ) → FirstBy t q → FirstBy t (add_all added q)
  unfolding add_all
  first-add_all [] q t first = first
  first-add_all ((at', x) ∷ added) q t (u, w, rest, e, le) =
      let (u', w', rest', e', le') = first-add at' u x w rest in
      first-add_all added (add at' x q) t (u', w', rest', ap (λ p. add at' x p) e ∙ e', omega arith)

  add_all-IsSorted : (added q : List (ℕ × T)) → IsSorted q → IsSorted (add_all added q)
  unfolding add_all
  add_all-IsSorted [] q h = h
  add_all-IsSorted ((at', x) ∷ added) q h =
      add_all-IsSorted added (add at' x q) (add-IsSorted at' x q h)

  returned : (a b : Option (T × List (ℕ × T))) → some a ≡ some b → a ≡ b
  returned a b h = cc

  -- Where the first entry is no later than the limit, `Pop` returns exactly when that entry is due.
  pop-first :
      (called now u : ℕ) (w : T) (before rest : List (ℕ × T))
      → u ≤ deadline called before
      → ((r : Option (T × List (ℕ × T)))
          → pop called before now ((u, w) ∷ rest) ≡ some r
          → (r ≡ some (w, rest)) × (u ≤ now))
        × (u ≤ now → pop called before now ((u, w) ∷ rest) ≡ some (some (w, rest)))
  unfolding pop may_return take_first
  pop-first called now u w before rest le = elim (Bool-cases (leb u now)) [
    | inl due ↦ (
      λ r e.
          let found : pop called before now ((u, w) ∷ rest) ≡ some (some (w, rest)) = rw due refl in
          (sym (returned (some (w, rest)) r (sym found ∙ e)), ground arith),
      λ h. rw due refl,
    )
    | inr early ↦ (
      λ r e.
          let past : leb (deadline called before) now ≡ false = ground arith in
          let waiting : pop called before now ((u, w) ∷ rest) ≡ none = rw early (rw past refl) in
          absurd cc,
      λ h. absurd (ground arith),
    )
  ]

  -- Let a `Pop` begin on a queue with a first entry for the time t, that calls of `Add` and `Pop` have made of the
  -- empty one, and let only calls of `Add` come until it ends. Then it finds an entry for a time u, no
  -- later than t and before the times of all others. If it returns, it takes that entry and leaves the
  -- others, and u has come; and once u has come it may return.
  pub pop_due :
      (called now t : ℕ) (v : T) (before added : List (ℕ × T))
      → Reach ((t, v) ∷ before)
      → (u : ℕ) × (w : T) × (rest : List (ℕ × T)) × (add_all added ((t, v) ∷ before)
          ≡ (u, w) ∷ rest)
        × (u ≤ t)
        × All (λ (e : ℕ × T). u < e.0) rest
        × ((r : Option (T × List (ℕ × T)))
            → pop called ((t, v) ∷ before) now (add_all added ((t, v) ∷ before)) ≡ some r
            → (r ≡ some (w, rest)) × (u ≤ now))
        × (u ≤ now
            → pop called ((t, v) ∷ before) now (add_all added ((t, v) ∷ before))
              ≡ some (some (w, rest)))
  pop_due called now t v before added reach =
      let (u, w, rest, e, le) =
        first-add_all added ((t, v) ∷ before) t (t, v, before, refl, omega arith) in
      let sorted : IsSorted ((u, w) ∷ rest) =
        subst IsSorted e
          (add_all-IsSorted added ((t, v) ∷ before) (Reach-IsSorted ((t, v) ∷ before) reach)) in
      let found = pop-first called now u w ((t, v) ∷ before) rest le in
      (
        u,
        w,
        rest,
        e,
        le,
        sorted.0,
        λ r h. found.0 r (ap (λ q. pop called ((t, v) ∷ before) now q) (sym e) ∙ h),
        λ h. ap (λ q. pop called ((t, v) ∷ before) now q) e ∙ found.1 h,
      )

  -- A `Pop` on a queue that stays empty does not wait for ever: from ten seconds after the call on
  -- it may return, and then its behaviour is undefined.
  pub pop_empty : (called now : ℕ) → called + 10 ≤ now → pop {T = T} called [] now [] ≡ some none
  unfolding pop
  pop_empty called now h = ground arith

  -- A `Pop` that waited for a first entry which another thread takes returns the next one when its
  -- own limit has passed, however far ahead the time of that entry is.
  pub pop_early :
      (called now t u : ℕ) (v w : T) (rest : List (ℕ × T))
      → t ≤ now
      → pop called ((t, v) ∷ (u, w) ∷ rest) now ((u, w) ∷ rest) ≡ some (some (w, rest))
  unfolding pop
  pop_early called now t u v w rest h = ground arith
