-- ===== src/Executor/Total.antt =====
-- executor/executor: `OnFinished` and the calls below it return.
pub mod Calls
use cpp_many_tasks.Prelude.{
  ℕ, zero, suc, ◌+◌, ◌-◌, ◌^◌, ◌%◌, ◌≤◌, ◌<◌, ◌≡◌, refl, ◌∙◌, inl, inr, Bool, true, false, Option,
  none, some, List, [], ◌∷◌, ◌++◌, ◌&&◌, arith, Bool-cases, ltb, ◌==◌, if◌then◌else◌,
}
use cpp_many_tasks.Executor.{
  submitted, canceled, Task, System, has_state, modify, Finishing, finish_in, push, enque,
  is_ready_to_enque, try_to_enque, each, release_dependency, activate_trigger, finish_triggers,
  on_finished, clear_depended, clear_triggered,
}
use cpp_many_tasks.Executor.Once.{
  Follows, set_enqueued, Sound, modify-Follows, release_dependency-Sound, activate_trigger-Sound,
  each-Sound, on_finished-Sound,
}

-- How many tasks below n are submitted.
unfoldable pub waiting : ℕ → System → ℕ
waiting zero s = 0
waiting (suc n) s = (if has_state submitted (s.tasks n) then 1 else 0) + waiting n s

pub waiting_bound : (n : ℕ) (s : System) → waiting n s ≤ n
unfolding waiting
waiting_bound zero s = omega arith
waiting_bound (suc n) s = ground (arith, waiting_bound n s)

waiting-Follows : (n : ℕ) (s s' : System) → Follows s s' → waiting n s' ≤ waiting n s
unfolding waiting
waiting-Follows zero s s' f = omega arith
waiting-Follows (suc n) s s' f = ground (arith, waiting-Follows n s s' f, f.submits_none n)

-- A task that is not submitted any more.
waiting_less :
    (n t : ℕ) (s s' : System)
    → Follows s s'
    → has_state submitted (s.tasks t) ≡ true
    → has_state submitted (s'.tasks t) ≡ false
    → t < n
    → waiting n s' < waiting n s
unfolding waiting
waiting_less zero t s s' f e e' h = omega arith
waiting_less (suc n) t s s' f e e' h = elim (Bool-cases (t == n)) [
  | inl c ↦ ground (arith, waiting-Follows n s s' f)
  | inr c ↦ ground (arith, waiting_less n t s s' f e e', f.submits_none n)
]

-- All submitted tasks are below n, and fewer than k.
pub record Within (n k : ℕ) (s : System) : Type 0 where
  pub bounded : (t : ℕ) → has_state submitted (s.tasks t) ≡ true → t < n
  pub few : waiting n s < k

pub Follows-Within : (n k : ℕ) (s s' : System) → Follows s s' → Within n k s → Within n k s'
Follows-Within n k s s' f w = record {
  bounded = λ t e. w.bounded t (f.submits_none t e);
  few = omega (arith, w.few, waiting-Follows n s s' f);
}

abbrev pub Result : Option System → Type 0
Result o = (s : System) × (o ≡ some s)

abbrev pub Returns : ℕ → ℕ → Finishing → Type 0
Returns n k f = (t : ℕ) (s : System) → Within n k s → Result (f t s)

pub returning : {o : Option System} (o' : Option System) → o ≡ o' → Result o' → Result o
returning o' e r = (r.0, e ∙ r.1)

abbrev refuse : ℕ → System → System
refuse t s = modify t (λ u. record u { state = canceled }) (set_enqueued t s)

refuse-Follows : (t : ℕ) (s : System) → Follows s (refuse t s)
unfolding modify
refuse-Follows t s = record {
  once = λ i. ground arith;
  submits_none = λ i h. ground arith;
  stays = λ i h. ground arith;
}

refuse-Within :
    (n k t : ℕ) (s : System)
    → has_state submitted (s.tasks t) ≡ true
    → Within n (suc k) s
    → Within n k (refuse t s)
unfolding modify
refuse-Within n k t s e w = record {
  bounded = λ i h. w.bounded i ((refuse-Follows t s).submits_none i h);
  few = omega (
    arith,
    w.few,
    waiting_less n t s (refuse t s) (refuse-Follows t s) e (ground arith) (w.bounded t e),
  );
}

pub enque-Returns :
    (n k : ℕ) (again : Finishing) → Returns n k again → Returns n (suc k) (enque again)
unfolding enque push finish_in
enque-Returns n k again r t s w =
    elim (Bool-cases ((s.tasks t).queue && has_state submitted (s.tasks t))) [
      | inl e ↦ pushed e
      | inr e ↦ (s, ground arith)
    ]
  where
    pushed : (s.tasks t).queue && has_state submitted (s.tasks t) ≡ true → Result (enque again t s)
    pushed e = elim (Bool-cases s.closed) [
      | inl c ↦
          returning (again t (refuse t s)) (ground arith)
            (r t (refuse t s) (refuse-Within n k t s (ground arith) w))
      | inr c ↦ (record (set_enqueued t s) { queue = s.queue ++ t ∷ [] }, ground arith)
    ]

pub try_to_enque-Returns :
    (n k : ℕ) (again : Finishing) → Returns n k again → Returns n (suc k) (try_to_enque again)
unfolding try_to_enque
try_to_enque-Returns n k again r t s w =
    elim (Bool-cases (has_state submitted (s.tasks t) && is_ready_to_enque (s.tasks t))) [
      | inl e ↦ returning (enque again t s) (ground arith) (enque-Returns n k again r t s w)
      | inr e ↦ (s, ground arith)
    ]

pub each-Returns :
    (n k : ℕ) (f : Finishing)
    → Sound f
    → Returns n k f
    → (ts : List ℕ) (s : System) → Within n k s
    → Result (each f ts s)
each-Returns n k f sound r [] s w = (s, refl)
each-Returns n k f sound r (t ∷ ts) s w =
    let one = r t s w in
    let others =
      each-Returns n k f sound r ts one.0 (Follows-Within n k s one.0 (sound t s one.0 one.1) w) in
    (others.0, ground (arith, one.1, others.1))

abbrev released : ℕ → System → System
released t s =
    modify t (λ u. record u { dependencies_cnt = (u.dependencies_cnt + 2 ^ 64 - 1) % 2 ^ 64 }) s

abbrev activated : ℕ → System → System
activated t s = modify t (λ u. record u { triggers_activated = true }) s

release_dependency-Returns :
    (n k : ℕ) (again : Finishing) → Returns n k again → Returns n (suc k) (release_dependency again)
unfolding release_dependency
release_dependency-Returns n k again r t s w = elim (Bool-cases (s.tasks t).alive) [
  | inl e ↦ returning (try_to_enque again t (released t s)) (ground arith) (
      try_to_enque-Returns n k again r t (released t s) (
        Follows-Within n (suc k) s (released t s)
          (modify-Follows t
            (λ u. record u { dependencies_cnt = (u.dependencies_cnt + 2 ^ 64 - 1) % 2 ^ 64 }) s
            (λ u. refl))
          w))
  | inr e ↦ (s, ground arith)
]

activate_trigger-Returns :
    (n k : ℕ) (again : Finishing) → Returns n k again → Returns n (suc k) (activate_trigger again)
unfolding activate_trigger
activate_trigger-Returns n k again r t s w = elim (Bool-cases (s.tasks t).alive) [
  | inl e ↦ returning (try_to_enque again t (activated t s)) (ground arith) (
      try_to_enque-Returns n k again r t (activated t s) (
        Follows-Within n (suc k) s (activated t s)
          (modify-Follows t (λ u. record u { triggers_activated = true }) s (λ u. refl)) w))
  | inr e ↦ (s, ground arith)
]

finish_triggers-Returns :
    (n k : ℕ) (again : Finishing)
    → Sound again
    → Returns n k again
    → Returns n (suc k) (finish_triggers again)
finish_triggers-Returns n k again sound r t s w =
    let all =
      each-Returns n (suc k) (activate_trigger again) (activate_trigger-Sound again sound)
        (activate_trigger-Returns n k again r) (s.tasks t).triggered s w in
    (clear_triggered t all.0, ground (arith, all.1))

-- With more fuel than submitted tasks below n, where no other task is submitted.
pub on_finished-Returns : (n fuel : ℕ) → Returns n fuel (λ t s. on_finished fuel t s)
unfolding on_finished
on_finished-Returns n zero t s w = absurd (omega (arith, w.few))
on_finished-Returns n (suc fuel) t s w = go (λ u. on_finished-Returns n fuel u)
  where
    again : Finishing
    again u s1 = on_finished fuel u s1

    go : Returns n fuel again → Result (on_finished (suc fuel) t s)
    go r =
        let sound = release_dependency-Sound again (on_finished-Sound fuel) in
        let deps =
          each-Returns n (suc fuel) (release_dependency again) sound
            (release_dependency-Returns n fuel again r) (s.tasks t).depended s w in
        let follows =
          each-Sound (release_dependency again) sound (s.tasks t).depended s deps.0 deps.1 in
        let rest =
          finish_triggers-Returns n fuel again (on_finished-Sound fuel) r t
            (clear_depended t deps.0)
            (Follows-Within n (suc fuel) deps.0 (clear_depended t deps.0)
              (modify-Follows t (λ u. record u { depended = [] }) deps.0 (λ u. refl))
              (Follows-Within n (suc fuel) s deps.0 follows w)) in
        (rest.0, ground (arith, deps.1, rest.1))
