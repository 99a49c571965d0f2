-- ===== src/Tasks/States.antt =====
-- `task_schedule`, `task_sleep`, `task_kill`, `task_create_new` and `task_select` of
-- kernel/src/proc/task/task.c, on numbered tasks.
use skylight.Base.{
  ℕ, zero, suc, ◌+◌, ◌-◌, ◌^◌, ◌≤◌, ◌<◌, ◌≡◌, ◌⊎◌, ◌∙◌, refl, ap, sym, inl, inr, List, [], ◌∷◌,
  ◌++◌, none, some, ◌==◌, ==_refl, ==_of_ne, ==_of_eq, if◌then◌else◌, length, arith, Bool-cases,
  add64,
}
use native.Mathlib.Decide.{dec_lt}
use mathlib.Core.Option.{map}
use skylight.Tasks.{
  Task, TaskState, Scheduler, Resources, waiting, sleeping, dead, task_schedule, task_sleep,
  task_kill, set_state, find_task, get_elem?, task_create_new, task_select, new_task, new_gs,
}
use skylight.Tasks.Numbering.{
  IsNumbered, create-IsNumbered, head_of, tail_of, ids, count_up, find_task-count_up,
  find_task-none,
}

abbrev pub with_state : TaskState → Task → Task
with_state state t = record t { state = state }

-- Which of the tasks numbered from `first` on the walk changes.
get_elem?-set_state :
    (state : TaskState) (id first n j : ℕ) (ts : List Task)
    → ids ts ≡ count_up first n
    → first ≤ id
    → get_elem? (set_state state id ts) j
      ≡ (if first + j == id then map (with_state state) (get_elem? ts j) else get_elem? ts j)
unfolding set_state head_of tail_of
get_elem?-set_state state id first n j [] same low = elim (Bool-cases (first + j == id)) [
  | inl e ↦ rw e
  | inr ne ↦ rw ne
]
get_elem?-set_state state id first zero j (t ∷ ts) same low = absurd (omega (arith, ap length same))
get_elem?-set_state state id first (suc n) zero (t ∷ ts) same low =
    let here = ap head_of same in
    elim (dec_lt first id) [
      | yes below ↦
          rw (==_of_ne t.id id (omega (arith, here)), ==_of_ne (first + 0) id (omega arith))
      | no above ↦
          rw (==_of_eq t.id id (omega (arith, here)), ==_of_eq (first + 0) id (omega arith))
    ]
get_elem?-set_state state id first (suc n) (suc k) (t ∷ ts) same low =
    let here = ap head_of same in
    elim (dec_lt first id) [
      | yes below ↦ rw (==_of_ne t.id id (omega (arith, here))) (
          get_elem?-set_state state id (suc first) n k ts (ap tail_of same) (omega arith)
          ∙ ap (λ m. if m == id then map (with_state state) (get_elem? ts k) else get_elem? ts k)
              (omega arith))
      | no above ↦
          rw (==_of_eq t.id id (omega (arith, here)), ==_of_ne (first + suc k) id (omega arith))
    ]

-- The task that a call changes is the one with the number `id`.
changed :
    (state : TaskState) (id j : ℕ) (s : Scheduler)
    → IsNumbered s
    → get_elem? (set_state state id s.tasks) j
      ≡ (if j == id then map (with_state state) (get_elem? s.tasks j) else get_elem? s.tasks j)
changed state id j s v =
    get_elem?-set_state state id 0 s.task_count j s.tasks v.ids (omega arith)
    ∙ ap
        (λ m. if m == id then map (with_state state) (get_elem? s.tasks j) else get_elem? s.tasks j)
        (omega arith)

-- On numbered tasks, `task_schedule`, `task_sleep` and `task_kill` set the state of the task with
-- the number `id`, if there is one, to waiting, sleeping and dead; no other task changes, nor
-- anything else of that one.
pub states_lem :
    (id j : ℕ) (s : Scheduler)
    → IsNumbered s
    → let result = λ (state : TaskState).
      if j == id then map (with_state state) (get_elem? s.tasks j) else get_elem? s.tasks j in
      (get_elem? (task_schedule id s).tasks j ≡ result waiting)
      × (get_elem? (task_sleep id s).tasks j ≡ result sleeping)
      × (get_elem? (task_kill id s).tasks j ≡ result dead)
states_lem id j s v = (changed waiting id j s v, changed sleeping id j s v, changed dead id j s v)

pub get_elem?-below :
    (j : ℕ) (ts : List Task) → j < length ts → (t : Task) × (get_elem? ts j ≡ some t)
get_elem?-below j [] h = absurd (omega arith)
get_elem?-below zero (t ∷ ts) h = (t, refl)
get_elem?-below (suc j) (t ∷ ts) h = get_elem?-below j ts (omega arith)

pub get_elem?-last : (ts : List Task) (t : Task) → get_elem? (ts ++ t ∷ []) (length ts) ≡ some t
get_elem?-last [] t = refl
get_elem?-last (u ∷ ts) t = get_elem?-last ts t

task_select-found :
    (id i : ℕ) (s : Scheduler) (t : Task)
    → find_task id s.tasks ≡ some i
    → get_elem? s.tasks i ≡ some t
    → task_select id s
      ≡ some (record s {
        current_task_id = id;
        msr_kernel_gs_base = t.gs_base;
        msr_gs_base = 0;
        running = t.ctx;
      })
unfolding task_select
task_select-found id i s t found there = rw (task_select, found, there)

-- On numbered tasks, `task_select` of a number that was given out makes that task current, puts
-- its page of `gs` into the kernel's register, 0 into the other, and switches to its context; with
-- any other number it reads through a null pointer.
pub task_select_lem :
    (id : ℕ) (s : Scheduler)
    → IsNumbered s
    → ((id < s.task_count)
        × ((t : Task) × (get_elem? s.tasks id ≡ some t)
            × (task_select id s
                ≡ some (record s {
                  current_task_id = id;
                  msr_kernel_gs_base = t.gs_base;
                  msr_gs_base = 0;
                  running = t.ctx;
                }))))
      ⊎ ((s.task_count ≤ id) × (task_select id s ≡ none))
unfolding task_select
task_select_lem id s v = elim (dec_lt id s.task_count) [
  | yes given ↦
      let (t, there) = get_elem?-below id s.tasks (omega (arith, v.count)) in
      let found : find_task id s.tasks ≡ some id =
        find_task-count_up 0 s.task_count id s.tasks v.ids (omega arith) (omega arith)
        ∙ ap some (omega arith) in
      inl (given, (t, there, task_select-found id id s t found there))
  | no free ↦
      inr (
        omega arith,
        rw (task_select, find_task-none id 0 s.task_count s.tasks v.ids (omega arith)),
      )
]

-- On numbered tasks, fewer than `2 ^ 64 - 1`, a task that was just created is the one with the
-- number returned, as `new_task` describes it; its page of `gs` is the one that `new_gs`
-- describes; and selecting that number switches to its context with that page.
pub task_select-task_create_new :
    (entry : ℕ) (r : Resources) (s : Scheduler)
    → IsNumbered s
    → s.task_count < 2 ^ 64 - 1
    → let (id, t) = task_create_new entry r s in
      (get_elem? t.tasks id ≡ some (new_task entry r s))
      × (t.gs_pages r.gs_page ≡ new_gs entry r s)
      × (task_select id t
          ≡ some (record t {
            current_task_id = id;
            msr_kernel_gs_base = r.gs_page;
            msr_gs_base = 0;
            running = r.ctx_block;
          }))
unfolding task_create_new
task_select-task_create_new entry r s v small =
    let w = create-IsNumbered entry r s v small in
    let there : get_elem? (s.tasks ++ new_task entry r s ∷ []) s.task_count
        ≡ some (new_task entry r s) =
      ap (λ k. get_elem? (s.tasks ++ new_task entry r s ∷ []) k) (sym v.count)
      ∙ get_elem?-last s.tasks (new_task entry r s) in
    let found : find_task s.task_count (s.tasks ++ new_task entry r s ∷ []) ≡ some s.task_count =
      find_task-count_up 0 (add64 s.task_count 1) s.task_count _ w.ids (omega arith) (omega arith)
      ∙ ap some (omega arith) in
    (
      there,
      rw (==_refl r.gs_page),
      task_select-found s.task_count s.task_count (task_create_new entry r s).1 (new_task entry r s)
          found there,
    )
