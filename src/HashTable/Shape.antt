-- ===== src/HashTable/Shape.antt =====
-- hash-table/concurrent_hash_map.h: the number of lists, and of elements.
use mathlib.Core.Path.{subst}
use native.Mathlib.Nat.{lt-mul-div-succ, mul_comm}
use cpp_many_tasks.Prelude.{
  ℕ, zero, suc, ◌+◌, ◌-◌, ◌*◌, ◌/◌, ◌≤◌, ◌<◌, ◌≡◌, ◌≢◌, refl, inl, inr, Option, none, some, List,
  [], arith, length, Bool-cases, ltb, ◌==◌, if◌then◌else◌,
}
use cpp_many_tasks.HashTable.{initial_lists, load_factor, update, resized}

-- The constructor makes a positive number of lists, a multiple of the number of threads, and enough of
-- them for the expected number of elements at the load factor.
pub initial_lists_lem :
    (expected threads : ℕ)
    → 0 < threads
    → (0 < initial_lists (some expected) threads)
      × ((q : ℕ) × (initial_lists (some expected) threads ≡ q * threads))
      × (expected ≤ load_factor * initial_lists (some expected) threads)
unfolding initial_lists
initial_lists_lem expected threads pos =
    let q = (expected - 1) / load_factor in
    let more : q < (q / threads + 1) * threads =
      omega (arith, lt-mul-div-succ q pos, mul_comm threads (q / threads + 1)) in
    let same : q + 1 - 1 ≡ q = omega arith in
    rw same (omega (arith, more), (q / threads + 1, refl), omega (arith, more))

pub initial_lists_pos :
    (expected : Option ℕ) (threads : ℕ) → 0 < threads → 0 < initial_lists expected threads
initial_lists_pos (some expected) threads pos = (initial_lists_lem expected threads pos).0
initial_lists_pos none threads pos = unfold initial_lists in omega arith

module _ {K V : Type 0} where
  -- The number of elements in the lists below `n`.
  pub total : ℕ → (ℕ → List (K × V)) → ℕ
  total zero table = 0
  total (suc n) table = total n table + length (table n)

  total-update_out :
      (n i : ℕ) (l : List (K × V)) (table : ℕ → List (K × V))
      → n ≤ i
      → total n (update i l table) ≡ total n table
  unfolding total update
  total-update_out zero i l table out = refl
  total-update_out (suc n) i l table out = ground (arith, total-update_out n i l table)

  pub total-update :
      (n i : ℕ) (l : List (K × V)) (table : ℕ → List (K × V))
      → i < n
      → total n (update i l table) + length (table i) ≡ total n table + length l
  unfolding total update
  total-update zero i l table h = absurd (omega arith)
  total-update (suc n) i l table h =
      ground (arith, total-update n i l table, total-update_out n i l table)

  pub update_lem :
      (k i : ℕ) (l : List (K × V)) (table : ℕ → List (K × V))
      → update i l table k ≡ (if i == k then l else table k)
  unfolding update
  update_lem k i l table = refl

  pub update_at_ne :
      (P : ℕ → List (K × V) → Type 0) (i : ℕ) (l : List (K × V)) (table : ℕ → List (K × V))
      → P i l
      → ((j : ℕ) → i ≢ j → P j (table j))
      → (j : ℕ) → P j (update i l table j)
  unfolding update
  update_at_ne P i l table new old j = elim (Bool-cases (i == j)) [
    | inl e ↦ rw e (subst (λ k. P k l) (ground arith) new)
    | inr e ↦ rw e (old j (ground arith))
  ]

  pub update_at :
      (P : ℕ → List (K × V) → Type 0) (i : ℕ) (l : List (K × V)) (table : ℕ → List (K × V))
      → P i l
      → ((j : ℕ) → P j (table j))
      → (j : ℕ) → P j (update i l table j)
  update_at P i l table new old = update_at_ne P i l table new (λ j _. old j)

  pub resized_at :
      (P : ℕ → List (K × V) → Type 0) (n : ℕ) (table : ℕ → List (K × V))
      → ((j : ℕ) → P j (table j))
      → ((j : ℕ) → P j [])
      → (j : ℕ) → P j (resized n table j)
  resized_at P n table old empty j = elim (Bool-cases (ltb j n)) [
    | inl e ↦ rw e (old j)
    | inr e ↦ rw e (empty j)
  ]

  total-resized_below :
      (k n : ℕ) (table : ℕ → List (K × V)) → k ≤ n → total k (resized n table) ≡ total k table
  unfolding total
  total-resized_below zero n table le = refl
  total-resized_below (suc k) n table le = ground (arith, total-resized_below k n table)

  total-resized_above :
      (k n : ℕ) (table : ℕ → List (K × V)) → total (k + n) (resized n table) ≡ total n table
  unfolding total
  total-resized_above zero n table =
      let e : 0 + n ≡ n = omega arith in rw e (total-resized_below n n table (omega arith))
  total-resized_above (suc k) n table =
      let e : suc k + n ≡ suc (k + n) = omega arith in
      rw e (ground (arith, total-resized_above k n table))

  pub total-resized :
      (n : ℕ) (table : ℕ → List (K × V)) → total (n * 2) (resized n table) ≡ total n table
  total-resized n table =
      let e : n * 2 ≡ n + n = omega arith in rw e (total-resized_above n n table)

pub total-nil : (K V : Type 0) (n : ℕ) → total {K = K} {V = V} n (λ _. []) ≡ 0
unfolding total
total-nil K V zero = refl
total-nil K V (suc n) = omega (arith, total-nil K V n)
