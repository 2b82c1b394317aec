-- ===== src/Task/Ends.antt =====
-- When `task_schedule` of kernel/task.c ends, and at which task.
use rotary_os.Base.{
  ℕ, zero, suc, ◌+◌, ◌≤◌, ◌<◌, ◌≡◌, ◌≢◌, inl, inr, refl, ap, sym, true, false, arith, ◌==◌,
  if◌then◌else◌, Bool-cases, some, update_same, update_other, add32,
}
use mathlib.Core.Path.{◌∙◌}
use rotary_os.Task.{
  Task, System, state_of, is_skipped, task_schedule, purge_all, count_tick, next_task, switch_to,
  state_killed,
}
use rotary_os.Task.Next.{skips, IsNext, next_task_lem}

ticked : System → Task
ticked s = record (s.tasks s.current_task) { ticks = add32 (s.tasks s.current_task).ticks 1 }

tick_id : (s : System) → ((count_tick s).tasks s.current_task).id ≡ (s.tasks s.current_task).id
unfolding ticked
tick_id s = ap (λ t. t.id) (update_same s.tasks s.current_task (ticked s))

pub tick_state : (s : System) (i : ℕ) → state_of (count_tick s) i ≡ state_of s i
unfolding ticked
tick_state s i = elim (Bool-cases (i == s.current_task)) [
  | inl same ↦
      let q : i ≡ s.current_task = ground (arith, same) in
      rw q (ap (λ t. t.state) (update_same s.tasks s.current_task (ticked s)))
  | inr differ ↦
      let n : i ≢ s.current_task = ground (arith, differ) in
      ap (λ t. t.state) (update_other s.tasks s.current_task i (ticked s) n)
]

-- With no killed task the loop of purges changes nothing.
purge_all_nothing :
    (n fuel : ℕ) (s : System) (i : ℕ)
    → ((j : ℕ) → j < i + n → state_of s j ≢ 5)
    → purge_all n fuel s i ≡ some s
unfolding purge_all
purge_all_nothing zero fuel s i h = refl
purge_all_nothing (suc n) fuel s i h =
    let here = h i (omega arith) in
    let keep : (state_of s i == state_killed) ≡ false = ground (arith, here) in
    rw (keep, purge_all) (purge_all_nothing n fuel s (i + 1) λ j b. h j (omega arith))

-- The index at which the search of a call starts.
abbrev first_id : System → ℕ
first_id s = let first = add32 (s.tasks s.current_task).id 1 in if first == 256 then 0 else first

schedule_with :
    (fuel : ℕ) (s s₁ : System) (next : ℕ)
    → s.scheduler_ready ≡ true
    → purge_all 8 fuel (count_tick s) 0 ≡ some s₁
    → next_task fuel s₁.tasks (first_id s₁) ≡ some next
    → task_schedule fuel s ≡ some (switch_to s₁ next)
unfolding task_schedule
schedule_with fuel s s₁ next r p n = rw (p, n, r) refl

switch_to_current : (s : System) (next : ℕ) → (switch_to s next).current_task ≡ next
unfolding switch_to
switch_to_current s next = refl

-- With the scheduler ready, no killed task at an index below 8, a current task whose id is below 8
-- and a task at an index from 0 to 8 that may run, `task_schedule` ends, with nine rounds or more
-- as the bound, and the current task is the first that may run from the next id on.
pub task_schedule_ends :
    (fuel : ℕ) (s : System) (i : ℕ)
    → 9 ≤ fuel
    → s.scheduler_ready ≡ true
    → ((j : ℕ) → j < 8 → state_of s j ≢ 5)
    → (s.tasks s.current_task).id < 8
    → i < 9
    → skips s.tasks i ≡ false
    → (s' : System) × (task_schedule fuel s ≡ some s')
      × IsNext (count_tick s).tasks ((s.tasks s.current_task).id + 1) 9 s'.current_task
task_schedule_ends fuel s i f r alive low b run =
    go (next_task_lem s₁.tasks fuel start i f (omega arith) b may_run)
  where
    s₁ : System
    s₁ = count_tick s

    start : ℕ
    start = (s.tasks s.current_task).id + 1

    may_run : skips s₁.tasks i ≡ false
    may_run = ap is_skipped (tick_state s i) ∙ run

    first : first_id s₁ ≡ start
    first =
        let small : (add32 (s.tasks s.current_task).id 1 == 256) ≡ false = ground (arith, low) in
        let plain : add32 (s.tasks s.current_task).id 1 ≡ start = omega (arith, low) in
        rw (tick_id s, small) plain

    purged : purge_all 8 fuel s₁ 0 ≡ some s₁
    purged = purge_all_nothing 8 fuel s₁ 0 λ j l e. alive j l (sym (tick_state s j) ∙ e)

    go :
        (next : ℕ) × (next_task fuel s₁.tasks start ≡ some next) × IsNext s₁.tasks start 9 next
        → (s' : System) × (task_schedule fuel s ≡ some s') × IsNext s₁.tasks start 9 s'.current_task
    go (next, q, n) = (
      switch_to s₁ next,
      schedule_with fuel s s₁ next r purged (ap (next_task fuel s₁.tasks) first ∙ q),
      rw (switch_to_current s₁ next) n,
    )
