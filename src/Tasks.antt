-- ===== src/Tasks.antt =====
-- The scheduler, kernel/src/proc/task/task.c: the list of tasks, the calls that change their
-- states and the choice of the next one. The linked list is a list; nodes are only ever added behind
-- its end. The blocks that `malloc`, `pmm_alloc_page` and `pmm_alloc_pool` return, the page
-- table that `task_new_page_table` builds and the stack pointer of the TSS are arguments.
pub mod Numbering
pub mod States
pub mod Switching
mod Tests
use skylight.Base.{
  ℕ, zero, suc, ◌+◌, ◌-◌, ◌*◌, ◌^◌, Bool, true, false, List, [], ◌∷◌, ◌++◌, Option, none, some,
  ◌==◌, if◌then◌else◌, length, add64,
}
use mathlib.Core.Option.{map}

-- `TASK_STATE_EXECUTION` to `TASK_STATE_DEAD`
pub data TaskState : Type 0 where
  execution waiting sleeping dead : TaskState

-- `task_context_t`, less the general registers, which are 0 in a new one.
pub record Context : Type 0 where
  pub rsp : ℕ
  pub rbp : ℕ
  pub rip : ℕ
  pub cr3 : ℕ

-- `task_t`, with the context that its field `ctx` points to.
pub record Task : Type 0 where
  pub id : ℕ
  pub state : TaskState
  pub priority : ℕ
  pub ctx : ℕ
  pub context : Context
  pub gs_base : ℕ

-- `gs_kernel_base_t`
pub record GsBase : Type 0 where
  pub tss : ℕ
  pub pid : ℕ
  pub rsp : ℕ
  pub pc : ℕ
  pub ctx : ℕ

-- The statics, the pages that `gs_base` pointers point to, and the two registers `IA32_GS_BASE` and
-- `IA32_KERNEL_GS_BASE`. `running` is the context that `_finalize_task_switch` was last given.
pub record Scheduler : Type 0 where
  pub tasks : List Task
  pub task_count : ℕ
  pub current_task_id : ℕ
  pub gs_pages : ℕ → GsBase
  pub msr_gs_base : ℕ
  pub msr_kernel_gs_base : ℕ
  pub running : ℕ

abbrev pub write_gs : ℕ → GsBase → (ℕ → GsBase) → ℕ → GsBase
write_gs p v pages q = if q == p then v else pages q

abbrev pub scheduler_preconfigure : Scheduler → Scheduler
scheduler_preconfigure s = record s { task_count = 0 }

abbrev pub megabyte : ℕ
megabyte = 1024 * 1024

-- What a new task is given: `task_new_stack` is the end of a pool of a megabyte.
pub record Resources : Type 0 where
  pub ctx_block : ℕ
  pub gs_page : ℕ
  pub pool : ℕ
  pub page_table : ℕ
  pub tss_rsp : ℕ

abbrev pub task_new_stack : Resources → ℕ
task_new_stack r = add64 r.pool megabyte

abbrev pub new_task : (entry : ℕ) → Resources → Scheduler → Task
new_task entry r s = record {
  id = s.task_count;
  state = sleeping;
  priority = 0;
  ctx = r.ctx_block;
  context = record {
    rsp = task_new_stack r;
    rbp = task_new_stack r;
    rip = entry;
    cr3 = r.page_table;
  };
  gs_base = r.gs_page;
}

abbrev pub new_gs : (entry : ℕ) → Resources → Scheduler → GsBase
new_gs entry r s = record {
  tss = 0;
  pid = s.task_count;
  rsp = r.tss_rsp;
  pc = entry;
  ctx = r.ctx_block;
}

unfoldable pub task_create_new : (entry : ℕ) → Resources → Scheduler → ℕ × Scheduler
task_create_new entry r s = (
  s.task_count,
  record s {
    tasks = s.tasks ++ new_task entry r s ∷ [];
    task_count = add64 s.task_count 1;
    gs_pages = write_gs r.gs_page (new_gs entry r s) s.gs_pages;
  },
)

-- The walk of `task_schedule`, `task_sleep` and `task_kill`: the first task with the id changes.
unfoldable pub set_state : TaskState → ℕ → List Task → List Task
set_state state id [] = []
set_state state id (t ∷ ts) =
    let rest = set_state state id ts in
    if t.id == id then record t { state = state } ∷ ts else t ∷ rest

abbrev pub task_schedule : ℕ → Scheduler → Scheduler
task_schedule id s = record s { tasks = set_state waiting id s.tasks }

abbrev pub task_sleep : ℕ → Scheduler → Scheduler
task_sleep id s = record s { tasks = set_state sleeping id s.tasks }

abbrev pub task_kill : ℕ → Scheduler → Scheduler
task_kill id s = record s { tasks = set_state dead id s.tasks }

-- The place of the first task with the id.
unfoldable pub find_task : ℕ → List Task → Option ℕ
find_task id [] = none
find_task id (t ∷ ts) = let rest = find_task id ts in if t.id == id then some 0 else map suc rest

abbrev pub get_elem? : List Task → ℕ → Option Task
get_elem? [] i = none
get_elem? (t ∷ ts) zero = some t
get_elem? (t ∷ ts) (suc i) = get_elem? ts i

abbrev pub update : (Task → Task) → ℕ → List Task → List Task
update f i [] = []
update f zero (t ∷ ts) = f t ∷ ts
update f (suc i) (t ∷ ts) = t ∷ update f i ts

-- Without such a task, the code reads through a null pointer.
unfoldable pub task_select : ℕ → Scheduler → Option Scheduler
task_select id s = elim (find_task id s.tasks) [
  | none ↦ none
  | some i ↦ elim (get_elem? s.tasks i) [
    | none ↦ none
    | some t ↦ some (record s {
      current_task_id = id;
      msr_kernel_gs_base = t.gs_base;
      msr_gs_base = 0;
      running = t.ctx;
    })
  ]
]

abbrev pub suspend : (gs_base : ℕ) → Task → Task
suspend gs_base t = record t { state = waiting; gs_base = gs_base }

abbrev pub resume : Task → Task
resume t = record t { state = execution }

-- `-1` as a `uint64_t`
abbrev pub no_task : ℕ
no_task = 2 ^ 64 - 1

-- The end of `task_select_next`, for the task `t` chosen.
abbrev pub enter_task : (tss_rsp : ℕ) → Task → List Task → Scheduler → ℕ × Scheduler
enter_task tss_rsp t tasks s = (
  t.id,
  record s {
    tasks = tasks;
    current_task_id = t.id;
    msr_gs_base = t.gs_base;
    msr_kernel_gs_base = 0;
    gs_pages =
        write_gs t.gs_base
          (record { tss = 0; ctx = t.ctx; pid = t.id; rsp = tss_rsp; pc = t.context.rip })
          s.gs_pages;
  },
)

-- Its middle, for the task at a place of the list.
abbrev pub enter_at : (tss_rsp thread : ℕ) → List Task → Scheduler → ℕ × Scheduler
enter_at tss_rsp thread tasks s = elim (get_elem? tasks thread) as (λ _. ℕ × Scheduler) [
  | none ↦ (no_task, s)
  | some t ↦ enter_task tss_rsp t tasks s
]

-- `thread` moves to the first task where it stands on the last, and else stays.
abbrev pub next_place : ℕ → List Task → ℕ
next_place i tasks = if suc i == length tasks then 0 else i

abbrev pub after_suspend : ℕ → Scheduler → List Task
after_suspend i s = update resume (next_place i s.tasks) (update (suspend s.msr_gs_base) i s.tasks)

unfoldable pub task_select_next : (tss_rsp : ℕ) → Scheduler → ℕ × Scheduler
task_select_next tss_rsp s = elim (find_task s.current_task_id s.tasks) [
  | none ↦ (no_task, s)
  | some i ↦ enter_at tss_rsp (next_place i s.tasks) (after_suspend i s) s
]
