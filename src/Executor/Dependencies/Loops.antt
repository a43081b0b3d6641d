-- ===== src/Executor/Dependencies/Loops.antt =====
-- executor/executor: the counters through `OnFinished`.
use cpp_many_tasks.Prelude.{
  ℕ, zero, suc, ◌+◌, ◌-◌, ◌^◌, ◌%◌, ◌≡◌, refl, ◌∙◌, inl, inr, true, some, List, [], ◌∷◌, arith,
  Bool-cases, Option-cases,
}
use cpp_many_tasks.Executor.{
  Task, System, Finishing, is_finished, modify, clear_depended, clear_triggered, each,
  release_dependency, activate_trigger, finish_triggers, on_finished,
}
use cpp_many_tasks.Executor.Once.{
  count, each-Sound, release_dependency-Sound, finish_triggers-Sound, on_finished-Sound,
}
use cpp_many_tasks.Executor.Dependencies.{IsCounted, Keeps, Keeps-refl, Keeps-trans, Same}
use cpp_many_tasks.Executor.Dependencies.Changes.{
  decrease-IsCounted, expired-IsCounted, IsCounted-same, modify-IsCounted, modify-Keeps,
  clear_depended-IsCounted, clear_depended_finished, clear_depended-Keeps, clear_depended_lem,
}
use cpp_many_tasks.Executor.Dependencies.Calls.{
  Counted, Counted-trans, Counted-result, Careful, Steady, try_to_enque-Steady,
}

activate_trigger-Steady : (again : Finishing) → Careful again → Steady (activate_trigger again)
unfolding activate_trigger
activate_trigger-Steady again careful c t s s' e v = elim (Bool-cases (s.tasks t).alive) [
  | inl h ↦
      let f : Task → Task = λ u. record u { triggers_activated = true } in
      let same : Same (s.tasks t) (f (s.tasks t)) = record {
        finished = refl;
        depended = λ g. refl;
        waiting = λ w. w;
        dependencies = λ w. refl;
        alive = refl;
      } in
      Counted-trans c s (modify t f s) s' (modify-Keeps t f s same (λ u. refl)) (
        try_to_enque-Steady again careful c t (modify t f s) s' (ground arith)
          (modify-IsCounted c t f s same (λ u. refl) v))
  | inr h ↦ Counted-result c s (ground arith) (v, Keeps-refl s)
]

release_dependency-Counted :
    (again : Finishing)
    → Careful again
    → (c : ℕ → ℕ) (t : ℕ) (ts : List ℕ) (s s' : System) → release_dependency again t s ≡ some s'
    → IsCounted (λ u. c u + count u (t ∷ ts)) s
    → Counted (λ u. c u + count u ts) s s'
unfolding release_dependency
release_dependency-Counted again careful c t ts s s' e v = elim (Bool-cases (s.tasks t).alive) [
  | inl h ↦
      let f : Task → Task =
        λ u. record u { dependencies_cnt = (u.dependencies_cnt + 2 ^ 64 - 1) % 2 ^ 64 } in
      let same : Same (s.tasks t) (f (s.tasks t)) = record {
        finished = refl;
        depended = λ g. refl;
        waiting = λ w. w;
        dependencies = λ w. refl;
        alive = refl;
      } in
      Counted-trans (λ u. c u + count u ts) s (modify t f s) s'
        (modify-Keeps t f s same (λ u. refl))
        (try_to_enque-Steady again careful (λ u. c u + count u ts) t (modify t f s) s'
          (ground arith) (decrease-IsCounted c t ts s v))
  | inr h ↦
      Counted-result (λ u. c u + count u ts) s (ground arith)
        (expired-IsCounted c t ts s h v, Keeps-refl s)
]

releases-Counted :
    (again : Finishing)
    → Careful again
    → (c : ℕ → ℕ) (ts : List ℕ) (s s' : System) → each (release_dependency again) ts s ≡ some s'
    → IsCounted (λ u. c u + count u ts) s
    → Counted c s s'
unfolding count
releases-Counted again careful c [] s s' e v =
    Counted-result c s e (IsCounted-same (λ u. c u + 0) c s (λ u. omega arith) v, Keeps-refl s)
releases-Counted again careful c (t ∷ ts) s s' e v =
    elim (Option-cases (release_dependency again t s)) [
      | inl h ↦ cc
      | inr (s1, h) ↦
          let (v1, k1) = release_dependency-Counted again careful c t ts s s1 h v in
          Counted-trans c s s1 s' k1 (releases-Counted again careful c ts s1 s' (ground arith) v1)
    ]

each-Steady :
    (f : Finishing)
    → Steady f
    → (c : ℕ → ℕ) (ts : List ℕ) (s s' : System) → each f ts s ≡ some s'
    → IsCounted c s
    → Counted c s s'
each-Steady f steady c [] s s' e v = Counted-result c s e (v, Keeps-refl s)
each-Steady f steady c (t ∷ ts) s s' e v = elim (Option-cases (f t s)) [
  | inl h ↦ cc
  | inr (s1, h) ↦
      let (v1, k1) = steady c t s s1 h v in
      Counted-trans c s s1 s' k1 (each-Steady f steady c ts s1 s' (ground arith) v1)
]

finish_triggers-Steady : (again : Finishing) → Careful again → Steady (finish_triggers again)
finish_triggers-Steady again careful c t s s' e v =
    elim (Option-cases (each (activate_trigger again) (s.tasks t).triggered s)) [
      | inl h ↦ cc
      | inr (s1, h) ↦
          let (v1, k1) =
            each-Steady (activate_trigger again) (activate_trigger-Steady again careful) c
              (s.tasks t).triggered s s1 h v in
          let f : Task → Task = λ u. record u { triggered = [] } in
          let same : Same (s1.tasks t) (f (s1.tasks t)) = record {
            finished = refl;
            depended = λ g. refl;
            waiting = λ w. w;
            dependencies = λ w. refl;
            alive = refl;
          } in
          Counted-result c s {t = clear_triggered t s1} {u = s'} (ground arith) (
            Counted-trans c s s1 (clear_triggered t s1) k1
              (modify-IsCounted c t f s1 same (λ u. refl) v1, modify-Keeps t f s1 same (λ u. refl)))
    ]

still_empty :
    (t : ℕ) (s s' : System)
    → Keeps s s'
    → is_finished (s'.tasks t) ≡ true
    → (s.tasks t).depended ≡ []
    → (s'.tasks t).depended ≡ []
still_empty t s s' k f e = elim (k.keeps t f) [ inl h ↦ h | inr (g, h) ↦ h ∙ e ]

pub on_finished-Careful : (fuel : ℕ) → Careful (λ t s. on_finished fuel t s)
unfolding on_finished
on_finished-Careful zero c t s s' e f v = cc
on_finished-Careful (suc fuel) c t s s' e f v = go (λ d. on_finished-Careful fuel d)
  where
    again : Finishing
    again u s1 = on_finished fuel u s1

    go : Careful again → Counted c s s' × ((s'.tasks t).depended ≡ [])
    go careful = elim (Option-cases (each (release_dependency again) (s.tasks t).depended s)) [
      | inl h ↦ cc
      | inr (s1, h) ↦
          let sound = on_finished-Sound fuel in
          let (v1, k1) = releases-Counted again careful c (s.tasks t).depended s s1 h v in
          let f1 =
            (each-Sound (release_dependency again) (release_dependency-Sound again sound)
                (s.tasks t).depended s s1 h).stays
              t f in
          let s2 = clear_depended t s1 in
          let v2 = clear_depended-IsCounted c t s1 f1 v1 in
          let f2 = clear_depended_finished t s1 f1 in
          let last : finish_triggers again t s2 ≡ some s' = ground arith in
          let (v3, k3) = finish_triggers-Steady again careful c t s2 s' last v2 in
          let f3 = (finish_triggers-Sound again sound t s2 s' last).stays t f2 in
          (
            (v3, Keeps-trans s s1 s' k1 (Keeps-trans s1 s2 s' (clear_depended-Keeps t s1) k3)),
            still_empty t s2 s' k3 f3 (clear_depended_lem t s1),
          )
    ]
