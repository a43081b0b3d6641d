-- ===== src/Executor/Dependencies/Finishing.antt =====
-- executor/executor: what finishing a task does to the counters.
use mathlib.Core.Path.{subst}
use cpp_many_tasks.Prelude.{
  ℕ, ◌+◌, ◌^◌, ◌%◌, ◌≡◌, refl, sym, ap, ◌⊎◌, inl, inr, true, false, [], arith, Bool-cases, ltb,
  ◌==◌,
}
use cpp_many_tasks.Executor.{TaskStates, enqueued, rank, System, is_finished, modify}
use cpp_many_tasks.Executor.Once.{count}
use cpp_many_tasks.Executor.Dependencies.{
  unfinished, is_waiting, IsCounted, Keeps, Same, Counters, Same-IsCounted, modify-Same,
  unfinished-finish,
}

-- The second state has the task finished, and is otherwise the first.
record Finishes (t : ℕ) (s s' : System) : Type 0 where
  pub finished : is_finished (s'.tasks t) ≡ true
  pub others : (d : ℕ) → (d == t) ≡ false → s'.tasks d ≡ s.tasks d
  pub depended : (s'.tasks t).depended ≡ (s.tasks t).depended

abbrev pub set_state : TaskStates → ℕ → System → System
set_state state t s = modify t (λ u. record u { state = state }) s

set_state-Finishes :
    (state : TaskStates) (t : ℕ) (s : System)
    → ltb (rank enqueued) (rank state) ≡ true
    → Finishes t s (set_state state t s)
unfolding modify
set_state-Finishes state t s e = record {
  finished = ground (arith, e);
  others = λ d h. rw h refl;
  depended = ground arith;
}

waiting_differs :
    (t i : ℕ) (s : System)
    → is_finished (s.tasks t) ≡ true
    → is_waiting (s.tasks i) ≡ true
    → (i == t) ≡ false
waiting_differs t i s f w = elim (Bool-cases (i == t)) [
  | inl e ↦
      let h : i ≡ t = ground arith in
      let w' : is_waiting (s.tasks t) ≡ true = subst (λ j. is_waiting (s.tasks j) ≡ true) h w in
      absurd (ground arith)
  | inr e ↦ e
]

unfinished_differs :
    (t i : ℕ) (s : System)
    → is_finished (s.tasks t) ≡ true
    → is_finished (s.tasks i) ≡ false
    → (i == t) ≡ false
unfinished_differs t i s f g = elim (Bool-cases (i == t)) [
  | inl e ↦
      let h : i ≡ t = ground arith in
      let g' : is_finished (s.tasks t) ≡ false = subst (λ j. is_finished (s.tasks j) ≡ false) h g in
      absurd (ground arith)
  | inr e ↦ e
]

Finishes-IsCounted :
    (c : ℕ → ℕ) (t : ℕ) (s s' : System)
    → is_finished (s.tasks t) ≡ false
    → Finishes t s s'
    → IsCounted c s
    → IsCounted (λ u. c u + count u (s.tasks t).depended) s'
Finishes-IsCounted c t s s' f fin v = record {
  counts = λ u w a.
      let e = fin.others u (waiting_differs t u s' fin.finished w) in
      counts' u (subst (λ x. is_waiting x ≡ true) e w) (subst (λ x. x.alive ≡ true) e a) e;
  links = λ u d w g.
      let e = fin.others u (waiting_differs t u s' fin.finished w) in
      let h = fin.others d (unfinished_differs t d s' fin.finished g) in
      subst (λ x. count u x.depended ≡ count d (s'.tasks u).dependencies) (sym h)
        (subst (λ x. count u (s.tasks d).depended ≡ count d x.dependencies) (sym e)
          (v.links u d (subst (λ x. is_waiting x ≡ true) e w)
            (subst (λ x. is_finished x ≡ false) h g)));
}
  where
    counts' :
        (u : ℕ)
        → is_waiting (s.tasks u) ≡ true
        → (s.tasks u).alive ≡ true
        → s'.tasks u ≡ s.tasks u
        → (s'.tasks u).dependencies_cnt
          ≡ (unfinished s' (s'.tasks u).dependencies + (c u + count u (s.tasks t).depended))
            % 2 ^ 64
    counts' u w a e =
        subst
          (λ x.
            x.dependencies_cnt
            ≡ (unfinished s' x.dependencies + (c u + count u (s.tasks t).depended)) % 2 ^ 64)
          (sym e)
          (omega (
            arith,
            v.counts u w a,
            v.links u t w f,
            unfinished-finish s s' t (s.tasks u).dependencies f fin.finished
                (λ d h. ap (λ x. is_finished x) (fin.others d h)),
          ))

-- Finishing a task leaves to be done what its list of dependent tasks says.
pub set_state-IsCounted :
    (state : TaskStates) (c : ℕ → ℕ) (t : ℕ) (s : System)
    → ltb (rank enqueued) (rank state) ≡ true
    → (is_finished (s.tasks t) ≡ true → (s.tasks t).depended ≡ [])
    → IsCounted c s
    → IsCounted (λ u. c u + count u (s.tasks t).depended) (set_state state t s)
unfolding modify count
set_state-IsCounted state c t s e quiet v = elim (Bool-cases (is_finished (s.tasks t))) [
  | inl f ↦
      Same-IsCounted c (λ u. c u + count u (s.tasks t).depended) s (set_state state t s)
        (modify-Same t (λ u. record u { state = state }) s (again f)) (counters f) v
  | inr f ↦ Finishes-IsCounted c t s (set_state state t s) f (set_state-Finishes state t s e) v
]
  where
    again : is_finished (s.tasks t) ≡ true → Same (s.tasks t) (record (s.tasks t) { state = state })
    again f = record {
      finished = ground (arith, e, f);
      depended = λ g. refl;
      waiting = λ w. ground (arith, e);
      dependencies = λ w. refl;
      alive = refl;
    }

    counters :
        is_finished (s.tasks t) ≡ true
        → Counters c (λ u. c u + count u (s.tasks t).depended) s (set_state state t s)
    counters f i a l h = rw (quiet f) (ground (arith, h))

-- A task that ends up with an empty list may have been finished on the way.
pub set_state-Keeps :
    (state : TaskStates) (t : ℕ) (s s' : System)
    → Keeps (set_state state t s) s'
    → (s'.tasks t).depended ≡ []
    → Keeps s s'
unfolding modify
set_state-Keeps state t s s' k e = record { keeps = λ d f. go d f (Bool-cases (d == t)) }
  where
    go :
        (d : ℕ)
        → is_finished (s'.tasks d) ≡ true
        → ((d == t) ≡ true) ⊎ ((d == t) ≡ false)
        → ((s'.tasks d).depended ≡ [])
          ⊎ ((is_finished (s.tasks d) ≡ true) × ((s'.tasks d).depended ≡ (s.tasks d).depended))
    go d f (inl h) =
        let same : d ≡ t = ground arith in
        inl (subst (λ i. (s'.tasks i).depended ≡ []) (sym same) e)
    go d f (inr h) = elim (k.keeps d f) [
      | inl g ↦ inl g
      | inr (g, m) ↦ inr (ground (arith, g), ground (arith, m))
    ]

pub set_state_depended :
    (state : TaskStates) (t : ℕ) (s : System)
    → ((set_state state t s).tasks t).depended ≡ (s.tasks t).depended
unfolding modify
set_state_depended state t s = ground arith

pub set_state_finished :
    (state : TaskStates) (t : ℕ) (s : System)
    → ltb (rank enqueued) (rank state) ≡ true
    → is_finished ((set_state state t s).tasks t) ≡ true
unfolding modify
set_state_finished state t s e = ground (arith, e)
