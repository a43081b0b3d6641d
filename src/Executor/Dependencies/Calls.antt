-- ===== src/Executor/Dependencies/Calls.antt =====
-- executor/executor: the counters through `OnFinished` and what it calls.
use mathlib.Core.Path.{subst}
use cpp_many_tasks.Prelude.{
  ℕ, ◌+◌, ◌≡◌, refl, sym, ap, ◌∙◌, inl, inr, Bool, true, false, some, [], ◌∷◌, ◌++◌, ◌&&◌, arith,
  Bool-cases, ltb,
}
use cpp_many_tasks.Executor.{
  TaskStates, submitted, enqueued, canceled, rank, has_state, System, Finishing, is_finished,
  finish_in, push, enque, is_ready_to_enque, try_to_enque,
}
use cpp_many_tasks.Executor.Once.{count, set_enqueued}
use cpp_many_tasks.Executor.Dependencies.{
  IsCounted, Keeps, Keeps-refl, Keeps-trans, Same, Same-IsCounted, Same-Keeps, unchanged,
}
use cpp_many_tasks.Executor.Dependencies.Finishing.{
  set_state, set_state-IsCounted, set_state-Keeps, set_state_depended, set_state_finished,
}
use cpp_many_tasks.Executor.Dependencies.Changes.{
  set_enqueued_unfinished, IsCounted-same, modify-IsCounted, modify-Keeps, set_enqueued-Same,
}

abbrev pub Counted : (ℕ → ℕ) → System → System → Type 0
Counted c s s' = IsCounted c s' × Keeps s s'

pub Counted-trans : (c : ℕ → ℕ) (s t u : System) → Keeps s t → Counted c t u → Counted c s u
Counted-trans c s t u k (v, l) = (v, Keeps-trans s t u k l)

pub Counted-result :
    (c : ℕ → ℕ) (s : System) {t u : System} → some t ≡ some u → Counted c s t → Counted c s u
Counted-result c s {t} {u} e v = subst (Counted c s) {x = t} {y = u} (cc) v

-- What `OnFinished` of a finished task does, whose dependent tasks are still to be told.
abbrev pub Careful : Finishing → Type 0
Careful again =
    (c : ℕ → ℕ) (t : ℕ) (s s' : System)
    → again t s ≡ some s'
    → is_finished (s.tasks t) ≡ true
    → IsCounted (λ u. c u + count u (s.tasks t).depended) s
    → Counted c s s' × ((s'.tasks t).depended ≡ [])

abbrev pub Steady : Finishing → Type 0
Steady f = (c : ℕ → ℕ) (t : ℕ) (s s' : System) → f t s ≡ some s' → IsCounted c s → Counted c s s'

pub finish_in-Counted :
    (state : TaskStates) (again : Finishing)
    → ltb (rank enqueued) (rank state) ≡ true
    → Careful again
    → (c : ℕ → ℕ) (t : ℕ) (s s' : System) → finish_in state again t s ≡ some s'
    → (is_finished (s.tasks t) ≡ true → (s.tasks t).depended ≡ [])
    → IsCounted c s
    → Counted c s s'
unfolding finish_in
finish_in-Counted state again f careful c t s s' e quiet v =
    let s1 = set_state state t s in
    let v1 =
      IsCounted-same (λ u. c u + count u (s.tasks t).depended)
        (λ u. c u + count u (s1.tasks t).depended) s1
        (λ u. ap (λ ds. c u + count u ds) (sym (set_state_depended state t s)))
        (set_state-IsCounted state c t s f quiet v) in
    let (w, e1) = careful c t s1 s' e (set_state_finished state t s f) v1 in
    (w.0, set_state-Keeps state t s s' w.1 e1)

pub same_tasks :
    (c : ℕ → ℕ) (s s' : System)
    → ((t : ℕ) → s'.tasks t ≡ s.tasks t)
    → IsCounted c s
    → Counted c s s'
same_tasks c s s' e v = (
  Same-IsCounted c c s s' same (λ i a l h. ap (λ u. u.dependencies_cnt) (e i) ∙ h) v,
  Same-Keeps s s' same (λ i. ap (λ u. u.depended) (e i)),
)
  where
    same : (t : ℕ) → Same (s.tasks t) (s'.tasks t)
    same t = subst (λ u. Same (s.tasks t) u) (sym (e t)) (unchanged (s.tasks t))

push-closed :
    (again : Finishing) (t : ℕ) (s : System)
    → s.closed ≡ true
    → finish_in canceled again t s ≡ push again t s
unfolding push
push-closed again t s e = rw e refl

push-open :
    (again : Finishing) (t : ℕ) (s : System)
    → s.closed ≡ false
    → some (record s { queue = s.queue ++ t ∷ [] }) ≡ push again t s
unfolding push
push-open again t s e = rw e refl

clash : {A : Type 0} (b : Bool) → b ≡ true → b ≡ false → A
clash b e f = absurd (ground arith)

push-Counted :
    (again : Finishing)
    → Careful again
    → (c : ℕ → ℕ) (t : ℕ) (s s' : System) → has_state submitted (s.tasks t) ≡ true
    → push again t (set_enqueued t s) ≡ some s'
    → IsCounted c s
    → Counted c s s'
push-Counted again careful c t s s' h e v =
    let s1 = set_enqueued t s in
    let v1 =
      modify-IsCounted c t (λ u. record u { state = enqueued; dependencies = []; triggers = [] }) s
        (set_enqueued-Same t s h) (λ u. refl) v in
    let k1 =
      modify-Keeps t (λ u. record u { state = enqueued; dependencies = []; triggers = [] }) s
        (set_enqueued-Same t s h) (λ u. refl) in
    elim (Bool-cases s1.closed) [
      | inl d ↦ Counted-trans c s s1 s' k1 (
          finish_in-Counted canceled again refl careful c t s1 s' (push-closed again t s1 d ∙ e)
            (λ f. clash (is_finished (s1.tasks t)) f (set_enqueued_unfinished t s)) v1)
      | inr d ↦
          let s2 = record s1 { queue = s1.queue ++ t ∷ [] } in
          Counted-result c s (push-open again t s1 d ∙ e)
            (Counted-trans c s s1 s2 k1 (same_tasks c s1 s2 (λ u. refl) v1))
    ]

pub enque-Steady : (again : Finishing) → Careful again → Steady (enque again)
unfolding enque
enque-Steady again careful c t s s' e v =
    elim (Bool-cases ((s.tasks t).queue && has_state submitted (s.tasks t))) [
      | inl h ↦ push-Counted again careful c t s s' (ground arith) (ground arith) v
      | inr h ↦ Counted-result c s (ground arith) (v, Keeps-refl s)
    ]

pub try_to_enque-Steady : (again : Finishing) → Careful again → Steady (try_to_enque again)
unfolding try_to_enque
try_to_enque-Steady again careful c t s s' e v =
    elim (Bool-cases (has_state submitted (s.tasks t) && is_ready_to_enque (s.tasks t))) [
      | inl h ↦ enque-Steady again careful c t s s' (ground arith) v
      | inr h ↦ Counted-result c s (ground arith) (v, Keeps-refl s)
    ]
