-- ===== src/Tasks/Numbering.antt =====
-- The ids of the tasks of kernel/src/proc/task/task.c: they count up along the list.
use skylight.Base.{
  ℕ, zero, suc, ◌+◌, ◌-◌, ◌^◌, ◌≤◌, ◌<◌, ◌≡◌, ◌≢◌, ◌∙◌, refl, ap, inl, inr, List, [], ◌∷◌, ◌++◌,
  none, some, ◌==◌, ==_of_ne, ==_of_eq, length, length-append, arith, Bool-cases, Option-cases,
  add64,
}
use skylight.Tasks.{
  Task, TaskState, waiting, sleeping, dead, Scheduler, Resources, set_state, find_task, get_elem?,
  update, task_create_new, task_schedule, task_sleep, task_kill, task_select_next, suspend, resume,
  enter_at, next_place, after_suspend, new_task,
}
use native.Mathlib.Decide.{dec_lt}

abbrev pub count_up : (first count : ℕ) → List ℕ
count_up first zero = []
count_up first (suc n) = first ∷ count_up (suc first) n

abbrev pub ids : List Task → List ℕ
ids [] = []
ids (t ∷ ts) = t.id ∷ ids ts

-- As many tasks as counted, with the ids from 0 on in the order of the list.
pub record IsNumbered (s : Scheduler) : Type 0 where
  pub ids : ids s.tasks ≡ count_up 0 s.task_count
  pub count : length s.tasks ≡ s.task_count

pub ids-set_state :
    (state : TaskState) (id : ℕ) (ts : List Task) → ids (set_state state id ts) ≡ ids ts
unfolding set_state
ids-set_state state id [] = refl
ids-set_state state id (t ∷ ts) = elim (Bool-cases (t.id == id)) [
  | inl e ↦ rw e
  | inr ne ↦ rw (ne, ids-set_state state id ts)
]

pub length-set_state :
    (state : TaskState) (id : ℕ) (ts : List Task) → length (set_state state id ts) ≡ length ts
unfolding set_state
length-set_state state id [] = refl
length-set_state state id (t ∷ ts) = elim (Bool-cases (t.id == id)) [
  | inl e ↦ rw e
  | inr ne ↦ rw (ne, length-set_state state id ts)
]

pub ids-update :
    (f : Task → Task)
    → ((t : Task) → (f t).id ≡ t.id)
    → (i : ℕ) (ts : List Task) → ids (update f i ts) ≡ ids ts
ids-update f keeps i [] = refl
ids-update f keeps zero (t ∷ ts) = ap (λ k. k ∷ ids ts) (keeps t)
ids-update f keeps (suc i) (t ∷ ts) = ap (λ l. t.id ∷ l) (ids-update f keeps i ts)

pub length-update : (f : Task → Task) (i : ℕ) (ts : List Task) → length (update f i ts) ≡ length ts
length-update f i [] = refl
length-update f zero (t ∷ ts) = refl
length-update f (suc i) (t ∷ ts) = ap suc (length-update f i ts)

ids-append : (ts us : List Task) → ids (ts ++ us) ≡ ids ts ++ ids us
ids-append [] us = refl
ids-append (t ∷ ts) us = ap (λ l. t.id ∷ l) (ids-append ts us)

count_up-suc : (first n : ℕ) → count_up first n ++ (first + n) ∷ [] ≡ count_up first (suc n)
count_up-suc first zero = ap (λ k. k ∷ []) (omega arith)
count_up-suc first (suc n) =
    ap (λ k. first ∷ (count_up (suc first) n ++ k ∷ [])) (omega arith)
    ∙ ap (λ l. first ∷ l) (count_up-suc (suc first) n)

unfoldable pub head_of : List ℕ → ℕ
head_of [] = 0
head_of (x ∷ xs) = x

unfoldable pub tail_of : List ℕ → List ℕ
tail_of [] = []
tail_of (x ∷ xs) = xs

find_task-cons :
    (id i : ℕ) (t : Task) (ts : List Task)
    → t.id ≢ id
    → find_task id ts ≡ some i
    → find_task id (t ∷ ts) ≡ some (suc i)
unfolding find_task
find_task-cons id i t ts other found = rw (==_of_ne t.id id other, found)

-- A task with an id that was given out is found at the place of that number.
pub find_task-count_up :
    (first n id : ℕ) (ts : List Task)
    → ids ts ≡ count_up first n
    → first ≤ id
    → id < first + n
    → find_task id ts ≡ some (id - first)
unfolding find_task head_of tail_of
find_task-count_up first zero id ts same low high = absurd (omega arith)
find_task-count_up first (suc n) id [] same low high = absurd (omega (arith, ap length same))
find_task-count_up first (suc n) id (t ∷ ts) same low high =
    let here : t.id ≡ first = ap head_of same in
    elim (dec_lt first id) [
      | yes below ↦
          find_task-cons id (id - suc first) t ts (omega (arith, here))
            (find_task-count_up (suc first) n id ts (ap tail_of same) (omega arith) (omega arith))
          ∙ ap some (omega arith)
      | no above ↦ rw (==_of_eq t.id id (omega (arith, here))) (ap some (omega arith))
    ]

pub create-IsNumbered :
    (entry : ℕ) (r : Resources) (s : Scheduler)
    → IsNumbered s
    → s.task_count < 2 ^ 64 - 1
    → IsNumbered (task_create_new entry r s).1
unfolding task_create_new
create-IsNumbered entry r s v small =
    let next : add64 s.task_count 1 ≡ suc s.task_count = omega arith in
    rw next (record {
      ids =
          ids-append s.tasks (new_task entry r s ∷ [])
          ∙ ap (λ l. l ++ s.task_count ∷ []) v.ids
          ∙ ap (λ k. count_up 0 s.task_count ++ k ∷ []) (omega arith)
          ∙ count_up-suc 0 s.task_count;
      count = omega (arith, v.count, length-append s.tasks (new_task entry r s ∷ []));
    })

pub set_state-IsNumbered :
    (state : TaskState) (id : ℕ) (s : Scheduler)
    → IsNumbered s
    → IsNumbered (record s { tasks = set_state state id s.tasks })
set_state-IsNumbered state id s v = record {
  ids = ids-set_state state id s.tasks ∙ v.ids;
  count = length-set_state state id s.tasks ∙ v.count;
}

pub update-IsNumbered :
    (f g : Task → Task) (i j : ℕ) (s : Scheduler)
    → ((t : Task) → (f t).id ≡ t.id)
    → ((t : Task) → (g t).id ≡ t.id)
    → IsNumbered s
    → (ids (update g j (update f i s.tasks)) ≡ count_up 0 s.task_count)
      × (length (update g j (update f i s.tasks)) ≡ s.task_count)
update-IsNumbered f g i j s f-keeps g-keeps v = (
  ids-update g g-keeps j (update f i s.tasks) ∙ ids-update f f-keeps i s.tasks ∙ v.ids,
  length-update g j (update f i s.tasks) ∙ length-update f i s.tasks ∙ v.count,
)

enter_at-IsNumbered :
    (tss_rsp thread : ℕ) (ts : List Task) (s : Scheduler)
    → IsNumbered s
    → ids ts ≡ count_up 0 s.task_count
    → length ts ≡ s.task_count
    → IsNumbered (enter_at tss_rsp thread ts s).1
enter_at-IsNumbered tss_rsp thread ts s v numbers size = elim (Option-cases (get_elem? ts thread)) [
  | inl missing ↦ rw (enter_at, missing) v
  | inr (t, found) ↦ rw (enter_at, found) (record { ids = numbers; count = size })
]

pub select_next-IsNumbered :
    (tss_rsp : ℕ) (s : Scheduler) → IsNumbered s → IsNumbered (task_select_next tss_rsp s).1
unfolding task_select_next
select_next-IsNumbered tss_rsp s v = elim (Option-cases (find_task s.current_task_id s.tasks)) [
  | inl missing ↦ rw (task_select_next, missing) v
  | inr (i, found) ↦
      let (numbers, size) =
        update-IsNumbered (suspend s.msr_gs_base) resume i (next_place i s.tasks) s (λ u. refl)
          (λ u. refl) v in
      rw (task_select_next, found)
        (enter_at-IsNumbered tss_rsp (next_place i s.tasks) (after_suspend i s) s v numbers size)
]

pub find_task-none :
    (id first n : ℕ) (ts : List Task)
    → ids ts ≡ count_up first n
    → first + n ≤ id
    → find_task id ts ≡ none
unfolding find_task head_of tail_of
find_task-none id first n [] same high = refl
find_task-none id first zero (t ∷ ts) same high = absurd (omega (arith, ap length same))
find_task-none id first (suc n) (t ∷ ts) same high = rw (
  ==_of_ne t.id id (omega (arith, ap head_of same)),
  find_task-none id (suc first) n ts (ap tail_of same) (omega arith),
)

-- One call on the scheduler.
pub data Operation : Type 0 where
  create : (entry : ℕ) (r : Resources) → Operation
  schedule sleep kill : (id : ℕ) → Operation
  select_next : (tss_rsp : ℕ) → Operation

abbrev pub run : Operation → Scheduler → Scheduler
run (create entry r) s = (task_create_new entry r s).1
run (schedule id) s = task_schedule id s
run (sleep id) s = task_sleep id s
run (kill id) s = task_kill id s
run (select_next tss_rsp) s = (task_select_next tss_rsp s).1

-- As long as fewer than `2 ^ 64 - 1` tasks were created, each call that creates a task, schedules,
-- puts to sleep or kills one, or selects the next, leaves the tasks numbered from 0 on in the
-- order of the list, as many as `task_count` says.
pub run-IsNumbered :
    (o : Operation) (s : Scheduler)
    → IsNumbered s
    → s.task_count < 2 ^ 64 - 1
    → IsNumbered (run o s)
run-IsNumbered (create entry r) s v small = create-IsNumbered entry r s v small
run-IsNumbered (schedule id) s v small = set_state-IsNumbered waiting id s v
run-IsNumbered (sleep id) s v small = set_state-IsNumbered sleeping id s v
run-IsNumbered (kill id) s v small = set_state-IsNumbered dead id s v
run-IsNumbered (select_next tss_rsp) s v small = select_next-IsNumbered tss_rsp s v
