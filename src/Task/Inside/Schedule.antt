-- ===== src/Task/Inside/Schedule.antt =====
-- `task_schedule` of kernel/task.c writes inside the array of tasks.
use rotary_os.Base.{
  by_if, ℕ, zero, suc, ◌+◌, ◌≤◌, ◌<◌, ◌≡◌, ◌≢◌, inl, inr, refl, ap, true, false, arith, ◌==◌,
  if◌then◌else◌, Bool-cases, Option-cases, update_same, update_other, add32,
}
use mathlib.Core.Path.{◌∙◌}
use rotary_os.Task.{
  Task, System, task_max, state_of, task_purge, task_schedule, purge_all, count_tick, pause_current,
  switch_to, next_task, state_killed, state_running,
}
use rotary_os.Task.Next.{skips}
use rotary_os.Task.Running.{After, no_end, ends, after}
use rotary_os.Task.Inside.{
  IsInside, id_of, set_task-IsInside, set_state-IsInside, task_purge-IsInside,
}

count_tick-IsInside : (s : System) → IsInside s → IsInside (count_tick s)
count_tick-IsInside s h =
    set_task-IsInside s s.current_task
      (record (s.tasks s.current_task) { ticks = add32 (s.tasks s.current_task).ticks 1 }) h
      h.current (λ e. h.current_id) (inr h.current_id)

purge_all-IsInside :
    (n fuel : ℕ) (s : System) (i : ℕ)
    → IsInside s
    → i + n ≤ task_max
    → After IsInside (purge_all n fuel s i)
unfolding purge_all
purge_all-IsInside zero fuel s i h l = ends h
purge_all-IsInside (suc n) fuel s i h l = elim (Bool-cases (state_of s i == state_killed)) [
  | inr keep ↦ rw (keep, purge_all) (purge_all-IsInside n fuel s (i + 1) h (omega arith))
  | inl dead ↦ elim (Option-cases (task_purge fuel s i)) [
    | inl q ↦ rw (dead, q, purge_all) no_end
    | inr ((r, s₁), q) ↦
        let one = after (task_purge-IsInside fuel s i h (omega arith)) q in
        rw (dead, q, purge_all) (purge_all-IsInside n fuel s₁ (i + 1) one (omega arith))
  ]
]

-- The search ends at a task that may run.
pub next_task-runs :
    (k : ℕ) (tasks : ℕ → Task) (start : ℕ)
    → start < 9
    → After (λ next. (next < 9) × (skips tasks next ≡ false)) (next_task k tasks start)
unfolding next_task
next_task-runs zero tasks start l = no_end
next_task-runs (suc k) tasks start l = elim (Bool-cases (skips tasks start)) [
  | inr stop ↦ rw stop (ends (l, stop))
  | inl go ↦
      let around : (if add32 start 1 == 9 then 0 else add32 start 1) < 9 = ground arith in
      rw go (next_task-runs k tasks (if add32 start 1 == 9 then 0 else add32 start 1) around)
]

module _ (s : System) (h : IsInside s) where
  pause_current-IsInside : IsInside (pause_current s)
  pause_current-IsInside =
      by_if IsInside (state_of s s.current_task == state_running)
        (set_state-IsInside s s.current_task 2 h h.current h.current_id) h

  pause_current_id : (j : ℕ) → ((pause_current s).tasks j).id ≡ (s.tasks j).id
  pause_current_id j =
      by_if (λ (u : System). (u.tasks j).id ≡ (s.tasks j).id)
        (state_of s s.current_task == state_running)
        (elim (Bool-cases (j == s.current_task)) [
          | inl same ↦
              let q : j ≡ s.current_task = ground (arith, same) in
              rw q (
                ap (λ u. u.id)
                  (update_same s.tasks s.current_task
                    (record (s.tasks s.current_task) { state = 2 })))
          | inr differ ↦
              let n : j ≢ s.current_task = ground (arith, differ) in
              ap (λ u. u.id)
                (update_other s.tasks s.current_task j
                  (record (s.tasks s.current_task) { state = 2 }) n)
        ])
        refl

  switch_to-IsInside :
      (next : ℕ) → next < 9 → skips s.tasks next ≡ false → IsInside (switch_to s next)
  unfolding switch_to
  switch_to-IsInside next l run =
      let full : state_of s next ≢ 0 = λ z. ground (arith, z, run) in
      let small : next < task_max =
        let there : next ≢ 8 = λ e. full (ap (state_of s) e ∙ h.behind) in omega (arith, there) in
      let id = pause_current_id next ∙ id_of h next full in
      let one = set_state-IsInside (pause_current s) next 1 pause_current-IsInside small id in
      record {
        inside = one.inside;
        current = small;
        current_id =
            ap (λ u. u.id)
              (update_same (pause_current s).tasks next
                (record ((pause_current s).tasks next) { state = 1 }))
            ∙ id;
        behind = one.behind;
        ids = one.ids;
      }

pub task_schedule-IsInside :
    (fuel : ℕ) (s : System)
    → IsInside s
    → s.scheduler_ready ≡ true
    → After IsInside (task_schedule fuel s)
unfolding task_schedule
task_schedule-IsInside fuel s h r = elim (Option-cases (purge_all 8 fuel (count_tick s) 0)) [
  | inl e ↦ rw (e, r) no_end
  | inr (s₁, e) ↦
      let one =
        after (purge_all-IsInside 8 fuel (count_tick s) 0 (count_tick-IsInside s h) (omega arith))
          e in
      let first = add32 (s₁.tasks s₁.current_task).id 1 in
      let start = if first == 256 then 0 else first in
      let low : start < 9 = let c = one.current in let i = one.current_id in ground (arith, c, i) in
      elim (Option-cases (next_task fuel s₁.tasks start)) [
        | inl n ↦ rw (e, n, r) no_end
        | inr (next, n) ↦
            let (l, run) = after (next_task-runs fuel s₁.tasks start low) n in
            rw (e, n, r) (ends (switch_to-IsInside s₁ one next l run))
      ]
]
