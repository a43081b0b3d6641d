-- ===== src/Executor.antt =====
-- executor/executor: `Task`, `TasksQueue` and `Executor`. Tasks are numbers, and `tasks` is the store of
-- their fields. Calls do not interleave here. A call that may pass from task to task takes what it
-- does on the next one as its argument `again`, and the whole runs on fuel.
pub mod Once
pub mod Timer
pub mod Dependencies
pub mod Total
pub mod Threads
pub mod Futures
mod Tests
use cpp_many_tasks.Prelude.{
  ℕ, zero, suc, ◌+◌, ◌-◌, ◌^◌, ◌%◌, Bool, true, false, not, ◌&&◌, ◌||◌, Option, none, some, List,
  [], ◌∷◌, ◌++◌, leb, ltb, ◌==◌, if◌then◌else◌,
}

pub data TaskStates : Type 0 where
  created submitted enqueued completed failed canceled : TaskStates

-- The numbers that the enumeration gives.
abbrev pub rank : TaskStates → ℕ
rank created = 0
rank submitted = 1
rank enqueued = 2
rank completed = 3
rank failed = 4
rank canceled = 5

-- `alive` tells whether a weak pointer to the task can be locked; `queue` is whether `queue_` is set and
-- its executor still there.
pub record Task : Type 0 where
  pub state : TaskStates
  pub queue : Bool
  pub dependencies : List ℕ
  pub depended : List ℕ
  pub dependencies_cnt : ℕ
  pub has_dependencies : Bool
  pub triggers : List ℕ
  pub triggered : List ℕ
  pub has_triggers : Bool
  pub triggers_activated : Bool
  pub start_at : ℕ
  pub has_time_trigger : Bool
  pub alive : Bool

pub record System : Type 0 where
  pub tasks : ℕ → Task
  pub queue : List ℕ
  pub closed : Bool
  pub timers : List ℕ
  pub timers_closed : Bool

abbrev pub new_task : Task
new_task = record {
  state = created;
  queue = false;
  dependencies = [];
  depended = [];
  dependencies_cnt = 0;
  has_dependencies = false;
  triggers = [];
  triggered = [];
  has_triggers = false;
  triggers_activated = false;
  start_at = 0;
  has_time_trigger = false;
  alive = true;
}

-- `Executor` before any call.
abbrev pub init : System
init = record {
  tasks = λ t. new_task;
  queue = [];
  closed = false;
  timers = [];
  timers_closed = false;
}

abbrev pub has_state : TaskStates → Task → Bool
has_state s task = rank task.state == rank s

abbrev pub is_finished : Task → Bool
is_finished task = ltb (rank enqueued) (rank task.state)

pub modify : ℕ → (Task → Task) → System → System
modify t f s = record s { tasks = λ u. if u == t then f (s.tasks u) else s.tasks u }

-- `dep->AddDepended(task)`, then the rest of `task->AddDependency(dep)`; a `size_t` wraps.
pub add_depended : ℕ → ℕ → System → System
unfolding modify
add_depended dep task s =
    if is_finished (s.tasks dep)
    then s
    else modify dep (λ d. record d { depended = d.depended ++ task ∷ [] })
        (modify task (λ t. record t { dependencies_cnt = (t.dependencies_cnt + 1) % 2 ^ 64 }) s)

pub add_dependency : ℕ → ℕ → System → System
unfolding add_depended
add_dependency task dep s =
    modify task
      (λ t. record t { dependencies = t.dependencies ++ dep ∷ []; has_dependencies = true })
      (add_depended dep task s)

pub add_triggered : ℕ → ℕ → System → System
unfolding modify
add_triggered dep task s =
    if is_finished (s.tasks dep)
    then modify task (λ t. record t { triggers_activated = true }) s
    else modify dep (λ d. record d { triggered = d.triggered ++ task ∷ [] }) s

pub add_trigger : ℕ → ℕ → System → System
unfolding add_triggered
add_trigger task dep s =
    modify task (λ t. record t { triggers = t.triggers ++ dep ∷ []; has_triggers = true })
      (add_triggered dep task s)

pub set_time_trigger : ℕ → ℕ → System → System
unfolding modify
set_time_trigger task at' s =
    modify task (λ t. record t { has_time_trigger = true; start_at = at' }) s

abbrev pub is_ready_to_enque : Task → Bool
is_ready_to_enque t =
    (t.has_triggers && t.triggers_activated)
    || (t.has_dependencies && t.dependencies_cnt == 0)
    || (not t.has_triggers && not t.has_dependencies && not t.has_time_trigger)

-- What `OnFinished` is for the calls below: the tasks that it is called on come from `again`.
abbrev pub Finishing : Type 0
Finishing = ℕ → System → Option System

-- `Cancel`, `Complete` and `Fail`.
pub finish_in : TaskStates → Finishing → Finishing
unfolding modify
finish_in state again t s = again t (modify t (λ u. record u { state = state }) s)

-- `TasksQueue::Push`.
pub push : Finishing → Finishing
unfolding finish_in
push again t s =
    let refused = finish_in canceled again t s in
    if not s.closed then some (record s { queue = s.queue ++ t ∷ [] }) else refused

-- `Enque`: the exchange of the state, and what follows if it succeeds.
pub enque : Finishing → Finishing
unfolding push
enque again t s =
    let pushed =
      push again t
        (modify t (λ u. record u { state = enqueued; dependencies = []; triggers = [] }) s) in
    if (s.tasks t).queue && has_state submitted (s.tasks t) then pushed else some s

pub try_to_enque : Finishing → Finishing
unfolding enque
try_to_enque again t s =
    let ready = enque again t s in
    if has_state submitted (s.tasks t) && is_ready_to_enque (s.tasks t) then ready else some s

-- A step for each task of a list, as long as none fails.
abbrev pub each : Finishing → List ℕ → System → Option System
each f [] s = some s
each f (t ∷ ts) s = elim (f t s) [ none ↦ none | some s' ↦ each f ts s' ]

-- One round of each of the two loops of `OnFinished`.
pub release_dependency : Finishing → Finishing
unfolding try_to_enque
release_dependency again t s =
    let released = try_to_enque again t (
      modify t (λ u. record u { dependencies_cnt = (u.dependencies_cnt + 2 ^ 64 - 1) % 2 ^ 64 })
        s) in
    if (s.tasks t).alive then released else some s

pub activate_trigger : Finishing → Finishing
unfolding try_to_enque
activate_trigger again t s =
    let activated =
      try_to_enque again t (modify t (λ u. record u { triggers_activated = true }) s) in
    if (s.tasks t).alive then activated else some s

abbrev pub clear_depended : ℕ → System → System
clear_depended t s = modify t (λ u. record u { depended = [] }) s

abbrev pub clear_triggered : ℕ → System → System
clear_triggered t s = modify t (λ u. record u { triggered = [] }) s

abbrev pub finish_triggers : Finishing → Finishing
finish_triggers again t s = elim (each (activate_trigger again) (s.tasks t).triggered s) [
  | none ↦ none
  | some s' ↦ some (clear_triggered t s')
]

-- `OnFinished`; `none` if the fuel runs out.
pub on_finished : ℕ → Finishing
unfolding release_dependency activate_trigger
on_finished zero t s = none
on_finished (suc fuel) t s =
    elim (each (release_dependency (λ u s'. on_finished fuel u s')) (s.tasks t).depended s) [
      | none ↦ none
      | some s' ↦ finish_triggers (λ u s''. on_finished fuel u s'') t (clear_depended t s')
    ]

-- `Task::Submit`.
pub submit_task : ℕ → Finishing
unfolding try_to_enque on_finished
submit_task fuel t s =
    let s' = modify t (λ u. record u { queue = true }) s in
    let tried =
      try_to_enque (λ u s''. on_finished fuel u s'') t
        (modify t (λ u. record u { state = submitted }) s') in
    if has_state created (s.tasks t) then tried else some s'
