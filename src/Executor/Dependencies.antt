-- ===== src/Executor/Dependencies.antt =====
-- executor/executor: what the counter of a task counts.
pub mod Changes
pub mod Finishing
pub mod Adding
pub mod Tracks
pub mod Histories
pub mod Calls
pub mod Loops
use mathlib.Core.Path.{subst}
use cpp_many_tasks.Prelude.{
  ℕ, zero, suc, ◌+◌, ◌-◌, ◌^◌, ◌%◌, ◌≤◌, ◌<◌, ◌≡◌, refl, sym, ◌∙◌, ◌⊎◌, inl, inr, Bool, true, false,
  not, Option, none, some, List, [], ◌∷◌, ◌++◌, arith, Bool-cases, ltb, ◌==◌, if◌then◌else◌,
}
use cpp_many_tasks.Executor.{
  TaskStates, submitted, rank, Task, System, is_finished, modify, add_depended, add_dependency,
}
use cpp_many_tasks.Executor.Once.{count, count-append}

-- How many tasks of a list are not finished.
unfoldable pub unfinished : System → List ℕ → ℕ
unfinished s [] = 0
unfinished s (d ∷ ds) = (if is_finished (s.tasks d) then 0 else 1) + unfinished s ds

-- Created or submitted.
abbrev pub is_waiting : Task → Bool
is_waiting task = not (ltb (rank submitted) (rank task.state))

-- The counter of a task that waits is the number of its dependencies that are not finished, and of those
-- that are but whose `OnFinished` has not come to it yet, which `pending` gives; a task that is
-- not finished knows who depends on it.
pub record IsCounted (pending : ℕ → ℕ) (s : System) : Type 0 where
  pub counts :
      (t : ℕ)
      → is_waiting (s.tasks t) ≡ true
      → (s.tasks t).alive ≡ true
      → (s.tasks t).dependencies_cnt ≡ (unfinished s (s.tasks t).dependencies + pending t) % 2 ^ 64
  pub links :
      (t d : ℕ)
      → is_waiting (s.tasks t) ≡ true
      → is_finished (s.tasks d) ≡ false
      → count t (s.tasks d).depended ≡ count d (s.tasks t).dependencies

-- Who is finished in the second state knows nobody who depends on it, or as in the first.
pub record Keeps (s s' : System) : Type 0 where
  pub keeps :
      (d : ℕ)
      → is_finished (s'.tasks d) ≡ true
      → ((s'.tasks d).depended ≡ [])
        ⊎ ((is_finished (s.tasks d) ≡ true) × ((s'.tasks d).depended ≡ (s.tasks d).depended))

pub Keeps-refl : (s : System) → Keeps s s
Keeps-refl s = record { keeps = λ d e. inr (e, refl) }

pub Keeps-trans : (s t u : System) → Keeps s t → Keeps t u → Keeps s u
Keeps-trans s t u f g = record { keeps = λ d e. go d (g.keeps d e) }
  where
    go :
        (d : ℕ)
        → ((u.tasks d).depended ≡ [])
          ⊎ ((is_finished (t.tasks d) ≡ true) × ((u.tasks d).depended ≡ (t.tasks d).depended))
        → ((u.tasks d).depended ≡ [])
          ⊎ ((is_finished (s.tasks d) ≡ true) × ((u.tasks d).depended ≡ (s.tasks d).depended))
    go d (inl e) = inl e
    go d (inr (e, h)) = elim (f.keeps d e) [ inl g ↦ inl (h ∙ g) | inr (g, k) ↦ inr (g, h ∙ k) ]

-- What a change keeps of a task.
pub record Same (u u' : Task) : Type 0 where
  pub finished : is_finished u' ≡ is_finished u
  pub depended : is_finished u' ≡ false → u'.depended ≡ u.depended
  pub waiting : is_waiting u' ≡ true → is_waiting u ≡ true
  pub dependencies : is_waiting u' ≡ true → u'.dependencies ≡ u.dependencies
  pub alive : u'.alive ≡ u.alive

pub unfinished-cong :
    (s s' : System) (ds : List ℕ)
    → ((d : ℕ) → is_finished (s'.tasks d) ≡ is_finished (s.tasks d))
    → unfinished s' ds ≡ unfinished s ds
unfolding unfinished
unfinished-cong s s' [] e = refl
unfinished-cong s s' (d ∷ ds) e = ground (arith, e d, unfinished-cong s s' ds e)

-- The counters of the second state count c' where those of the first count c.
abbrev pub Counters : (ℕ → ℕ) → (ℕ → ℕ) → System → System → Type 0
Counters c c' s s' =
    (t a : ℕ)
    → (s'.tasks t).alive ≡ true
    → (s.tasks t).dependencies_cnt ≡ (a + c t) % 2 ^ 64
    → (s'.tasks t).dependencies_cnt ≡ (a + c' t) % 2 ^ 64

pub Same-IsCounted :
    (c c' : ℕ → ℕ) (s s' : System)
    → ((t : ℕ) → Same (s.tasks t) (s'.tasks t))
    → Counters c c' s s'
    → IsCounted c s
    → IsCounted c' s'
Same-IsCounted c c' s s' same counters v = record {
  counts = λ t w a.
      let h =
        counters t (unfinished s (s.tasks t).dependencies) a
          (v.counts t ((same t).waiting w) (sym (same t).alive ∙ a)) in
      cc (
        h,
        (same t).dependencies w,
        unfinished-cong s s' (s.tasks t).dependencies (λ d. (same d).finished),
      );
  links = λ t d w f. cc (
    (same d).depended f,
    (same t).dependencies w,
    v.links t d ((same t).waiting w) (sym (same d).finished ∙ f),
  );
}

pub Same-Keeps :
    (s s' : System)
    → ((t : ℕ) → Same (s.tasks t) (s'.tasks t))
    → ((t : ℕ) → (s'.tasks t).depended ≡ (s.tasks t).depended)
    → Keeps s s'
Same-Keeps s s' same kept = record { keeps = λ d e. inr (sym (same d).finished ∙ e, kept d) }

pub unchanged : (u : Task) → Same u u
unchanged u = record {
  finished = refl;
  depended = λ e. refl;
  waiting = λ e. e;
  dependencies = λ e. refl;
  alive = refl;
}

refl_test : (t : ℕ) → (t == t) ≡ true
refl_test t = ground arith

pub modify-Same :
    (t : ℕ) (f : Task → Task) (s : System)
    → Same (s.tasks t) (f (s.tasks t))
    → (i : ℕ) → Same (s.tasks i) ((modify t f s).tasks i)
unfolding modify
modify-Same t f s same i = elim (Bool-cases (i == t)) [
  | inl e ↦
      let h : i ≡ t = ground arith in
      subst (λ j. Same (s.tasks j) (if j == t then f (s.tasks j) else s.tasks j)) (sym h)
        (rw (refl_test t) same)
  | inr e ↦ rw e (unchanged (s.tasks i))
]

finish_step :
    (b b' p : Bool) (l m n : ℕ)
    → (p ≡ true → b ≡ false)
    → (p ≡ true → b' ≡ true)
    → (p ≡ false → b' ≡ b)
    → l ≡ m + n
    → (if b then 0 else 1) + l ≡ ((if b' then 0 else 1) + m) + ((if p then 1 else 0) + n)
finish_step true true true l m n f g h e = ground (arith, f refl)
finish_step true true false l m n f g h e = omega (arith, e)
finish_step true false p l m n f g h e = ground (arith, f, g, h)
finish_step false true true l m n f g h e = omega (arith, e)
finish_step false true false l m n f g h e = ground (arith, h refl)
finish_step false false true l m n f g h e = ground (arith, g refl)
finish_step false false false l m n f g h e = omega (arith, e)

pub unfinished-finish :
    (s s' : System) (t : ℕ) (ds : List ℕ)
    → is_finished (s.tasks t) ≡ false
    → is_finished (s'.tasks t) ≡ true
    → ((d : ℕ) → (d == t) ≡ false → is_finished (s'.tasks d) ≡ is_finished (s.tasks d))
    → unfinished s ds ≡ unfinished s' ds + count t ds
unfolding unfinished count
unfinished-finish s s' t [] f f' o = refl
unfinished-finish s s' t (d ∷ ds) f f' o =
    finish_step (is_finished (s.tasks d)) (is_finished (s'.tasks d)) (d == t) (unfinished s ds)
      (unfinished s' ds) (count t ds)
      (λ e. subst (λ i. is_finished (s.tasks i) ≡ false) (sym (equal d e)) f)
      (λ e. subst (λ i. is_finished (s'.tasks i) ≡ true) (sym (equal d e)) f') (o d)
      (unfinished-finish s s' t ds f f' o)
  where
    equal : (d : ℕ) → (d == t) ≡ true → d ≡ t
    equal d e = ground arith
