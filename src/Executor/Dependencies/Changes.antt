-- ===== src/Executor/Dependencies/Changes.antt =====
-- executor/executor: what one change of a task does to the counters.
use cpp_many_tasks.Prelude.{
  ℕ, ◌+◌, ◌-◌, ◌^◌, ◌%◌, ◌≡◌, refl, inl, inr, true, false, List, [], ◌∷◌, arith, Bool-cases, ◌==◌,
}
use cpp_many_tasks.Executor.{
  submitted, enqueued, has_state, Task, System, is_finished, modify, clear_depended,
}
use cpp_many_tasks.Executor.Once.{count, set_enqueued}
use cpp_many_tasks.Executor.Dependencies.{
  IsCounted, Keeps, Same, Counters, Same-IsCounted, Same-Keeps, modify-Same, unchanged,
}

-- One round of the first loop of `OnFinished`.
pub decrease-IsCounted :
    (c : ℕ → ℕ) (t : ℕ) (ts : List ℕ) (s : System)
    → IsCounted (λ u. c u + count u (t ∷ ts)) s
    → IsCounted
        (λ u. c u + count u ts)
        (modify t
          (λ u. record u { dependencies_cnt = (u.dependencies_cnt + 2 ^ 64 - 1) % 2 ^ 64 })
          s)
unfolding modify count
decrease-IsCounted c t ts s v =
    Same-IsCounted (λ u. c u + count u (t ∷ ts)) (λ u. c u + count u ts) s _
      (modify-Same t
        (λ u. record u { dependencies_cnt = (u.dependencies_cnt + 2 ^ 64 - 1) % 2 ^ 64 }) s
        (record {
          finished = refl;
          depended = λ g. refl;
          waiting = λ w. w;
          dependencies = λ w. refl;
          alive = refl;
        }))
      counters v
  where
    counters :
        Counters
          (λ u. c u + count u (t ∷ ts))
          (λ u. c u + count u ts)
          s
          (modify t
            (λ u. record u { dependencies_cnt = (u.dependencies_cnt + 2 ^ 64 - 1) % 2 ^ 64 })
            s)
    counters i a l h = elim (Bool-cases (i == t)) [
      | inl e ↦ ground (arith, h)
      | inr e ↦ ground (arith, h)
    ]

-- A dependent task that is gone is passed over.
pub expired-IsCounted :
    (c : ℕ → ℕ) (t : ℕ) (ts : List ℕ) (s : System)
    → (s.tasks t).alive ≡ false
    → IsCounted (λ u. c u + count u (t ∷ ts)) s
    → IsCounted (λ u. c u + count u ts) s
unfolding count
expired-IsCounted c t ts s gone v =
    Same-IsCounted (λ u. c u + count u (t ∷ ts)) (λ u. c u + count u ts) s s
      (λ u. unchanged (s.tasks u)) counters v
  where
    counters : Counters (λ u. c u + count u (t ∷ ts)) (λ u. c u + count u ts) s s
    counters i a l h = elim (Bool-cases (t == i)) [
      | inl e ↦ ground (arith, gone, l)
      | inr e ↦ ground (arith, h)
    ]

-- Pending dependencies that are counted otherwise.
pub IsCounted-same :
    (c c' : ℕ → ℕ) (s : System) → ((u : ℕ) → c u ≡ c' u) → IsCounted c s → IsCounted c' s
IsCounted-same c c' s e =
    Same-IsCounted c c' s s (λ u. unchanged (s.tasks u)) (λ i a l h. omega (arith, h, e i))

-- A change of a task that `Same` allows and that keeps its counter.
pub modify-IsCounted :
    (c : ℕ → ℕ) (t : ℕ) (f : Task → Task) (s : System)
    → Same (s.tasks t) (f (s.tasks t))
    → ((u : Task) → (f u).dependencies_cnt ≡ u.dependencies_cnt)
    → IsCounted c s
    → IsCounted c (modify t f s)
unfolding modify
modify-IsCounted c t f s same counter =
    Same-IsCounted c c s (modify t f s) (modify-Same t f s same)
      (λ i a l h. ground (arith, h, counter (s.tasks i)))

pub modify-Keeps :
    (t : ℕ) (f : Task → Task) (s : System)
    → Same (s.tasks t) (f (s.tasks t))
    → ((u : Task) → (f u).depended ≡ u.depended)
    → Keeps s (modify t f s)
unfolding modify
modify-Keeps t f s same kept =
    Same-Keeps s (modify t f s) (modify-Same t f s same) (λ i. ground (arith, kept (s.tasks i)))

pub set_enqueued-Same :
    (t : ℕ) (s : System)
    → has_state submitted (s.tasks t) ≡ true
    → Same (s.tasks t) (record (s.tasks t) { state = enqueued; dependencies = []; triggers = [] })
set_enqueued-Same t s e = record {
  finished = ground arith;
  depended = λ g. refl;
  waiting = λ w. ground arith;
  dependencies = λ w. ground arith;
  alive = refl;
}

-- Clearing the list of a finished task.
pub clear_depended-IsCounted :
    (c : ℕ → ℕ) (t : ℕ) (s : System)
    → is_finished (s.tasks t) ≡ true
    → IsCounted c s
    → IsCounted c (clear_depended t s)
clear_depended-IsCounted c t s f v =
    modify-IsCounted c t (λ u. record u { depended = [] }) s
      (record {
        finished = refl;
        depended = λ g. ground (arith, f);
        waiting = λ w. w;
        dependencies = λ w. refl;
        alive = refl;
      })
      (λ u. refl) v

pub clear_depended-Keeps : (t : ℕ) (s : System) → Keeps s (clear_depended t s)
unfolding modify
clear_depended-Keeps t s = record {
  keeps = λ d e. elim (Bool-cases (d == t)) [
    | inl h ↦ inl (ground arith)
    | inr h ↦ inr (ground arith, ground arith)
  ];
}

pub clear_depended_lem : (t : ℕ) (s : System) → ((clear_depended t s).tasks t).depended ≡ []
unfolding modify
clear_depended_lem t s = ground arith

pub set_enqueued_unfinished :
    (t : ℕ) (s : System) → is_finished ((set_enqueued t s).tasks t) ≡ false
unfolding modify
set_enqueued_unfinished t s = ground arith

pub clear_depended_finished :
    (t : ℕ) (s : System)
    → is_finished (s.tasks t) ≡ true
    → is_finished ((clear_depended t s).tasks t) ≡ true
unfolding modify
clear_depended_finished t s f = ground (arith, f)
