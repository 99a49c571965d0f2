-- ===== src/Tasks/Switching.antt =====
-- `task_select_next` of kernel/src/proc/task/task.c.
use skylight.Base.{
  ℕ, zero, suc, ◌+◌, ◌<◌, ◌≡◌, ◌∙◌, refl, ap, sym, inl, inr, List, [], ◌∷◌, some, ◌==◌, ==_refl,
  ==_of_ne, if◌then◌else◌, length, replicate, arith, Bool-cases,
}
use mathlib.Core.Option.{none-ne-some, some-injective}
use skylight.Tasks.{
  Task, execution, Scheduler, find_task, get_elem?, update, suspend, resume, enter_task, enter_at,
  next_place, after_suspend, task_select_next,
}
use skylight.Tasks.Numbering.{
  IsNumbered, ids, count_up, head_of, tail_of, update-IsNumbered, length-update, find_task-count_up,
  select_next-IsNumbered,
}
use skylight.Tasks.States.{get_elem?-below}

get_elem?-update :
    (f : Task → Task) (i : ℕ) (ts : List Task) (t : Task)
    → get_elem? ts i ≡ some t
    → get_elem? (update f i ts) i ≡ some (f t)
get_elem?-update f i [] t there = absurd (none-ne-some t there)
get_elem?-update f zero (u ∷ ts) t there = ap some (ap f (some-injective u t there))
get_elem?-update f (suc i) (u ∷ ts) t there = get_elem?-update f i ts t there

-- The task that is current is found at its number.
current :
    (s : Scheduler)
    → IsNumbered s
    → s.current_task_id < s.task_count
    → find_task s.current_task_id s.tasks ≡ some s.current_task_id
current s v given =
    find_task-count_up 0 s.task_count s.current_task_id s.tasks v.ids (omega arith) (omega arith)
    ∙ ap some (omega arith)

get_elem?-id :
    (first n j : ℕ) (ts : List Task) (t : Task)
    → ids ts ≡ count_up first n
    → get_elem? ts j ≡ some t
    → t.id ≡ first + j
unfolding head_of tail_of
get_elem?-id first n j [] t same there = absurd (none-ne-some t there)
get_elem?-id first zero j (u ∷ ts) t same there = absurd (omega (arith, ap length same))
get_elem?-id first (suc n) zero (u ∷ ts) t same there =
    ap (λ w. w.id) (sym (some-injective u t there)) ∙ ap head_of same ∙ omega arith
get_elem?-id first (suc n) (suc j) (u ∷ ts) t same there =
    get_elem?-id (suc first) n j ts t (ap tail_of same) there ∙ omega arith

next_place-below : (i : ℕ) (ts : List Task) → i < length ts → next_place i ts < length ts
next_place-below i ts below = elim (Bool-cases (suc i == length ts)) [
  | inl e ↦ rw e (omega arith)
  | inr ne ↦ rw ne below
]

-- The number of the task that `task_select_next` moves to.
abbrev pub next_id : Scheduler → ℕ
next_id s = if suc s.current_task_id == s.task_count then 0 else s.current_task_id

-- The task that `task_select_next` chooses, as the scheduler is left.
record Chosen (tss_rsp : ℕ) (s : Scheduler) (t : Task) : Type 0 where
  there : get_elem? (after_suspend s.current_task_id s) (next_id s) ≡ some t
  number : t.id ≡ next_id s
  state : t.state ≡ execution
  entered : task_select_next tss_rsp s ≡ enter_task tss_rsp t (after_suspend s.current_task_id s) s

chosen :
    (tss_rsp : ℕ) (s : Scheduler)
    → IsNumbered s
    → s.current_task_id < s.task_count
    → (t : Task) × Chosen tss_rsp s t
unfolding task_select_next
chosen tss_rsp s v given =
    let c = s.current_task_id in
    let inner = update (suspend s.msr_gs_base) c s.tasks in
    let place : next_place c s.tasks ≡ next_id s = ap (λ n. if suc c == n then 0 else c) v.count in
    let (numbers, _) =
      update-IsNumbered (suspend s.msr_gs_base) resume c (next_place c s.tasks) s (λ u. refl)
        (λ u. refl) v in
    let (u, at_next) = get_elem?-below (next_place c s.tasks) inner (
      omega (
        arith,
        length-update (suspend s.msr_gs_base) c s.tasks,
        next_place-below c s.tasks (omega (arith, v.count)),
      )) in
    let resumed = get_elem?-update resume (next_place c s.tasks) inner u at_next in
    (
      resume u,
      record {
        there = ap (get_elem? (after_suspend c s)) (sym place) ∙ resumed;
        number =
            get_elem?-id 0 s.task_count (next_place c s.tasks) _ (resume u) numbers resumed
            ∙ omega (arith, place);
        state = refl;
        entered = rw (task_select_next, current s v given, enter_at, resumed);
      },
    )

-- On numbered tasks, one of which is current, `task_select_next` returns the next number, which is
-- 0 after the last task and else the current one again. The task with that number is then current
-- and in execution, and its page of `gs`, which names it and its context, is the one in
-- `IA32_GS_BASE`.
pub task_select_next_lem :
    (tss_rsp : ℕ) (s : Scheduler)
    → IsNumbered s
    → s.current_task_id < s.task_count
    → let (returned, s') = task_select_next tss_rsp s in
      (returned ≡ next_id s)
      × (s'.current_task_id ≡ next_id s)
      × ((t : Task) × (get_elem? s'.tasks (next_id s) ≡ some t)
          × (t.state ≡ execution)
          × (s'.msr_gs_base ≡ t.gs_base)
          × ((s'.gs_pages t.gs_base).pid ≡ next_id s)
          × ((s'.gs_pages t.gs_base).ctx ≡ t.ctx))
task_select_next_lem tss_rsp s v given =
    let (t, c) = chosen tss_rsp s v given in
    rw c.entered (
      c.number,
      c.number,
      (t, c.there, c.state, refl, rw (==_refl t.gs_base) c.number, rw (==_refl t.gs_base) refl),
    )

-- So many calls of `task_select_next`, and the ids that they return.
abbrev pub select_rounds : (tss_rsp rounds : ℕ) → Scheduler → List ℕ
select_rounds tss_rsp zero s = []
select_rounds tss_rsp (suc n) s =
    (task_select_next tss_rsp s).0 ∷ select_rounds tss_rsp n (task_select_next tss_rsp s).1

-- On numbered tasks, while the current one is not the last, any number of calls of
-- `task_select_next` return its number again and again: no other task is ever selected.
pub task_select_next-stays :
    (tss_rsp rounds : ℕ) (s : Scheduler)
    → IsNumbered s
    → suc s.current_task_id < s.task_count
    → select_rounds tss_rsp rounds s ≡ replicate rounds s.current_task_id
task_select_next-stays tss_rsp zero s v more = refl
task_select_next-stays tss_rsp (suc n) s v more =
    let s' = (task_select_next tss_rsp s).1 in
    let (returned, same, _) = task_select_next_lem tss_rsp s v (omega arith) in
    let stays : next_id s ≡ s.current_task_id =
      rw (==_of_ne (suc s.current_task_id) s.task_count (omega arith)) in
    let count : s'.task_count ≡ s.task_count =
      ap (λ r. r.1.task_count) (chosen tss_rsp s v (omega arith)).1.entered in
    ap (λ k. k ∷ select_rounds tss_rsp n s') (returned ∙ stays)
    ∙ ap (λ l. s.current_task_id ∷ l)
        (task_select_next-stays tss_rsp n s' (select_next-IsNumbered tss_rsp s v)
            (omega (arith, same, stays, count))
          ∙ ap (replicate n) (same ∙ stays))
