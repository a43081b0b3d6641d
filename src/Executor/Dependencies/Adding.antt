-- ===== src/Executor/Dependencies/Adding.antt =====
-- executor/executor: the counters after `AddDependency`.
use mathlib.Core.Path.{subst}
use cpp_many_tasks.Prelude.{
  ℕ, ◌+◌, ◌^◌, ◌%◌, ◌≡◌, refl, sym, ap, ◌∙◌, inl, inr, Bool, true, false, not, List, [], ◌∷◌, ◌++◌,
  ◌&&◌, arith, Bool-cases, ◌==◌, if◌then◌else◌,
}
use cpp_many_tasks.Executor.{System, is_finished, modify, add_depended, add_dependency}
use cpp_many_tasks.Executor.Once.{count, count-append}
use cpp_many_tasks.Executor.Dependencies.{unfinished, unfinished-cong, is_waiting, IsCounted, Keeps}

unfinished-append :
    (s : System) (ds : List ℕ) (d : ℕ)
    → unfinished s (ds ++ d ∷ []) ≡ unfinished s ds + (if is_finished (s.tasks d) then 0 else 1)
unfolding unfinished
unfinished-append s [] d = omega arith
unfinished-append s (x ∷ ds) d = omega (arith, unfinished-append s ds d)

abbrev is_linked : ℕ → System → Bool
is_linked d s = not (is_finished (s.tasks d))

module _ (t d : ℕ) (s : System) where
  same_finished : (u : ℕ) → is_finished ((add_dependency t d s).tasks u) ≡ is_finished (s.tasks u)
  unfolding add_dependency add_depended modify
  same_finished u = ground arith

  same_waiting : (u : ℕ) → is_waiting ((add_dependency t d s).tasks u) ≡ is_waiting (s.tasks u)
  unfolding add_dependency add_depended modify
  same_waiting u = ground arith

  same_alive : (u : ℕ) → ((add_dependency t d s).tasks u).alive ≡ (s.tasks u).alive
  unfolding add_dependency add_depended modify
  same_alive u = ground arith

  new_dependencies :
      (u : ℕ)
      → ((add_dependency t d s).tasks u).dependencies
        ≡ (if u == t then (s.tasks u).dependencies ++ d ∷ [] else (s.tasks u).dependencies)
  unfolding add_dependency add_depended modify
  new_dependencies u = ground arith

  new_depended :
      (e : ℕ)
      → ((add_dependency t d s).tasks e).depended
        ≡ (if e == d && is_linked d s then (s.tasks e).depended ++ t ∷ [] else (s.tasks e).depended)
  unfolding add_dependency add_depended modify
  new_depended e = ground arith

  new_cnt :
      (u : ℕ)
      → ((add_dependency t d s).tasks u).dependencies_cnt ≡ (
          if u == t && is_linked d s
          then ((s.tasks u).dependencies_cnt + 1) % 2 ^ 64
          else (s.tasks u).dependencies_cnt)
  unfolding add_dependency add_depended modify
  new_cnt u = ground arith

  new_unfinished :
      (u : ℕ)
      → unfinished (add_dependency t d s) ((add_dependency t d s).tasks u).dependencies ≡ (
          if u == t
          then unfinished s (s.tasks u).dependencies + (if is_finished (s.tasks d) then 0 else 1)
          else unfinished s (s.tasks u).dependencies)
  new_unfinished u =
      unfinished-cong s (add_dependency t d s) ((add_dependency t d s).tasks u).dependencies
        same_finished
      ∙ ap (unfinished s) (new_dependencies u)
      ∙ go (u == t)
    where
      go :
          (b : Bool)
          → unfinished s
              (if b then (s.tasks u).dependencies ++ d ∷ [] else (s.tasks u).dependencies)
            ≡ (if b
                then unfinished s (s.tasks u).dependencies
                  + (if is_finished (s.tasks d) then 0 else 1)
                else unfinished s (s.tasks u).dependencies)
      go true = unfinished-append s (s.tasks u).dependencies d
      go false = refl

  -- How often a task stands in a list to which another may have been added.
  added-count :
      (b : Bool) (i x : ℕ) (xs : List ℕ)
      → count i (if b then xs ++ x ∷ [] else xs) ≡ count i xs + (if b && x == i then 1 else 0)
  unfolding count
  added-count true i x xs = omega (arith, count-append i xs (x ∷ []))
  added-count false i x xs = omega arith

  pub add_dependency-IsCounted : IsCounted (λ u. 0) s → IsCounted (λ u. 0) (add_dependency t d s)
  add_dependency-IsCounted v = record {
    counts = λ u w a.
        counter (s.tasks u).dependencies_cnt ((add_dependency t d s).tasks u).dependencies_cnt
          (unfinished s (s.tasks u).dependencies)
          (unfinished (add_dependency t d s) ((add_dependency t d s).tasks u).dependencies) (u == t)
          (is_finished (s.tasks d)) (new_cnt u) (new_unfinished u)
          (v.counts u (sym (same_waiting u) ∙ w) (sym (same_alive u) ∙ a));
    links = λ u e w g.
        ap (count u) (new_depended e)
        ∙ added-count (e == d && is_linked d s) u t (s.tasks e).depended
        ∙ linked u e (v.links u e (sym (same_waiting u) ∙ w) (sym (same_finished e) ∙ g))
            (sym (same_finished e) ∙ g)
        ∙ sym (added-count (u == t) e d (s.tasks u).dependencies)
        ∙ sym (ap (count e) (new_dependencies u));
  }
    where
      counter :
          (n n' k k' : ℕ) (b f : Bool)
          → n' ≡ (if b && not f then (n + 1) % 2 ^ 64 else n)
          → k' ≡ (if b then k + (if f then 0 else 1) else k)
          → n ≡ (k + 0) % 2 ^ 64
          → n' ≡ (k' + 0) % 2 ^ 64
      counter n n' k k' true true g h e = omega (arith, g, h, e)
      counter n n' k k' true false g h e = omega (arith, g, h, e)
      counter n n' k k' false f g h e = omega (arith, g, h, e)

      linked :
          (u e : ℕ)
          → count u (s.tasks e).depended ≡ count e (s.tasks u).dependencies
          → is_finished (s.tasks e) ≡ false
          → count u (s.tasks e).depended + (if (e == d && is_linked d s) && t == u then 1 else 0)
            ≡ count e (s.tasks u).dependencies + (if u == t && d == e then 1 else 0)
      linked u e h g = elim (Bool-cases (e == d)) [
        | inl c ↦
            let same : e ≡ d = ground arith in
            let g' : is_finished (s.tasks d) ≡ false =
              subst (λ i. is_finished (s.tasks i) ≡ false) same g in
            ground (arith, h, g')
        | inr c ↦ ground (arith, h)
      ]

  pub add_dependency-Keeps : Keeps s (add_dependency t d s)
  add_dependency-Keeps = record {
    keeps = λ e f. let g = sym (same_finished e) ∙ f in inr (g, new_depended e ∙ unlinked e g);
  }
    where
      unlinked :
          (e : ℕ)
          → is_finished (s.tasks e) ≡ true
          → (if e == d && is_linked d s
              then (s.tasks e).depended ++ t ∷ []
              else (s.tasks e).depended)
            ≡ (s.tasks e).depended
      unlinked e g = elim (Bool-cases (e == d)) [
        | inl c ↦
            let same : e ≡ d = ground arith in
            let g' : is_finished (s.tasks d) ≡ true =
              subst (λ i. is_finished (s.tasks i) ≡ true) same g in
            rw c (rw g' refl)
        | inr c ↦ rw c refl
      ]
