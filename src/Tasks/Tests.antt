-- ===== src/Tasks/Tests.antt =====
-- Examples for kernel/src/proc/task/task.c.
use skylight.Base.{ℕ, ◌*◌, ◌≡◌, refl, [], some, replicate, arith}
use skylight.Tasks.{
  get_elem?, Task, Scheduler, Resources, execution, task_create_new, task_select_next,
}
use skylight.Tasks.Numbering.{IsNumbered, select_next, run, run-IsNumbered}
use skylight.Tasks.Switching.{next_id, select_rounds, task_select_next_lem, task_select_next-stays}

abbrev resources : ℕ → Resources
resources n = record {
  ctx_block = n;
  gs_page = 0x1000 * n;
  pool = 0x100000 * n;
  page_table = 0x2000 * n;
  tss_rsp = 0x9000;
}

abbrev empty : Scheduler
empty = record {
  tasks = [];
  task_count = 0;
  current_task_id = 0;
  gs_pages = λ p. record { tss = 0; pid = 0; rsp = 0; pc = 0; ctx = 0 };
  msr_gs_base = 0x1000;
  msr_kernel_gs_base = 0;
  running = 0;
}

abbrev three : Scheduler
three =
    (task_create_new 0x403000 (resources 3)
      (task_create_new 0x402000 (resources 2) (task_create_new 0x401000 (resources 1) empty).1).1).1

three-IsNumbered : IsNumbered three
unfolding task_create_new
three-IsNumbered = record { ids = refl; count = refl }

run-IsNumbered_example : IsNumbered (run (select_next 0x9000) three)
unfolding task_create_new
run-IsNumbered_example = run-IsNumbered (select_next 0x9000) three three-IsNumbered (omega arith)

-- The last of the three tasks is current.
abbrev at_last : Scheduler
at_last = record three { current_task_id = 2 }

task_select_next_lem_example :
    let (returned, s') = task_select_next 0x9000 at_last in
    (returned ≡ next_id at_last)
    × (s'.current_task_id ≡ next_id at_last)
    × ((t : Task) × (get_elem? s'.tasks (next_id at_last) ≡ some t)
        × (t.state ≡ execution)
        × (s'.msr_gs_base ≡ t.gs_base)
        × ((s'.gs_pages t.gs_base).pid ≡ next_id at_last)
        × ((s'.gs_pages t.gs_base).ctx ≡ t.ctx))
unfolding task_create_new
task_select_next_lem_example =
    task_select_next_lem 0x9000 at_last
      (record { ids = three-IsNumbered.ids; count = three-IsNumbered.count }) (omega arith)

task_select_next-stays_example : select_rounds 0x9000 5 three ≡ replicate 5 three.current_task_id
unfolding task_create_new
task_select_next-stays_example =
    task_select_next-stays 0x9000 5 three three-IsNumbered (omega arith)
