-- ===== src/Task/Tests.antt =====
-- Runs of the functions of kernel/task.c, and its theorems at concrete systems.
use rotary_os.Base.{
  ℕ, ◌+◌, ◌<◌, ◌≡◌, ◌≢◌, inr, refl, true, false, arith, Option, none, some, update, ◌==◌,
  if◌then◌else◌,
}
use rotary_os.Heap.{
  Heap, kfree, mark_free, memset_zero, link_free, free_walk, heap_coalesce_free_block,
  coalesce_next, coalesce_prev,
}
use rotary_os.Pmm.{initial}
use rotary_os.Task.{
  Task, System, zero_task, state_of, task_init, task_kill, task_purge, task_schedule, next_task,
  count_tick, purge_all, switch_to,
}
use rotary_os.Task.Kill.{IsKill, IsPurged, task_kill_lem, task_purge-task_kill}
use rotary_os.Task.Next.{IsNext, next_task_hangs}
use rotary_os.Task.Running.{IsSingle}
use rotary_os.Task.Reach.{Run, start, and_then, kills, schedules, Run-IsSingle}
use rotary_os.Task.Ends.{task_schedule_ends}

-- A heap of one free block of 100 bytes at 0x1000, with its tags.
abbrev small_heap : Heap
small_heap = record {
  mem = λ y. if y == 0x1000 then 100 else if y == 0x1000 + 116 then 100 else 0;
  start_vaddr = 0x1000;
  end_vaddr = 0x2000;
}

-- Before `task_init`.
abbrev boot : System
boot = record {
  tasks = λ i. zero_task;
  current_task = 0;
  last_task_id = 1;
  scheduler_ready = false;
  task_lock = false;
  heap = small_heap;
  pmm = initial;
  vmm_kernel_pd = 0xC0100000;
  leaf1_edx = 8;
  overrun = false;
}

abbrev task_in : ℕ → ℕ → Task
task_in i state = record zero_task { id = i; state = state; stack_frame = 0x1010 }

-- Task 0 runs, 2 and 3 wait, 4 is paused.
abbrev busy : System
busy = record boot {
  tasks =
      update
        (update (update (update (λ i. zero_task) 0 (task_in 0 1)) 2 (task_in 2 2)) 3 (task_in 3 2))
        4 (task_in 4 4);
  scheduler_ready = true;
}

kill_runs : ((task_kill busy 4).0 ≡ 1) × ((task_kill busy 1).0 ≡ 0) × ((task_kill busy 9).0 ≡ 0)
unfolding task_kill
kill_runs = (refl, refl, refl)

dispatched : Option System → ℕ
dispatched none = 99
dispatched (some s) = s.current_task

schedule_runs : dispatched (task_schedule 9 busy) ≡ 2
unfolding dispatched task_schedule purge_all next_task switch_to
schedule_runs = refl

busy_state :
    (i : ℕ)
    → state_of busy i
      ≡ (if i == 4 then 4 else if i == 3 then 2 else if i == 2 then 2 else if i == 0 then 1 else 0)
busy_state i = ground arith

busy-IsSingle : IsSingle busy
busy-IsSingle i k = ground (arith, busy_state i, k)

busy_alive : (i : ℕ) → i < 8 → state_of busy i ≢ 5
busy_alive i b k = ground (arith, busy_state i, k)

task_kill_lem_example : IsKill busy 4 (task_kill busy 4)
task_kill_lem_example = task_kill_lem busy 4

-- A free block of 100 bytes and a used one of 8 behind it, which is the stack of task 4.
abbrev two_blocks : Heap
two_blocks = record {
  mem = λ y.
      if y == 0x1000
      then 100
      else if y == 0x1074
      then 100
      else if y == 0x107c
      then 8
      else if y == 0x1080
      then 1
      else if y == 0x1094
      then 8
      else if y == 0x1098
      then 1
      else 0;
  start_vaddr = 0x1000;
  end_vaddr = 0x2000;
}

abbrev stacked : System
stacked = record busy {
  tasks = update busy.tasks 4 (record (task_in 4 4) { stack_frame = 0x108c });
  heap = two_blocks;
}

heap_after : Option (ℕ × Heap) → Heap
heap_after none = small_heap
heap_after (some (r, h)) = h

task_purge-task_kill_example :
    (s' : System) × (task_purge 4 (task_kill stacked 4).1 4 ≡ some (1, s'))
    × IsPurged stacked 4 (heap_after (kfree 4 two_blocks 0x108c)) s'
unfolding heap_after kfree mark_free memset_zero link_free free_walk heap_coalesce_free_block
    coalesce_next coalesce_prev
task_purge-task_kill_example =
    task_purge-task_kill stacked 4 4 1 (heap_after (kfree 4 two_blocks 0x108c))
      (record { not_idle = omega arith; in_bound = omega arith; alive = inr (inr refl) }) refl

next_task_hangs_example : next_task 100 (λ i. zero_task) 3 ≡ none
next_task_hangs_example = next_task_hangs 100 (λ i. zero_task) 3 (omega arith) λ i b. refl

task_schedule_ends_example :
    (s' : System) × (task_schedule 9 busy ≡ some s')
    × IsNext (count_tick busy).tasks 1 9 s'.current_task
task_schedule_ends_example =
    task_schedule_ends 9 busy 3 (omega arith) refl busy_alive (omega arith) (omega arith) refl

abbrev big_heap : Heap
big_heap = record small_heap { mem = λ y. if y == 0x1000 then 10000 else 0 }

letters : ℕ → ℕ
letters i = 65 + i

abbrev idle : System
idle = task_init boot letters

two_steps : Run 9 idle (switch_to (count_tick (task_kill idle 4).1) 0)
unfolding task_init task_kill task_schedule purge_all next_task
two_steps = and_then (and_then start (kills 4 (omega arith))) (schedules refl refl)

Run-IsSingle_example :
    let s' = switch_to (count_tick (task_kill idle 4).1) 0 in
    IsSingle s' × (s'.current_task < 8) × (s'.overrun ≡ false)
Run-IsSingle_example =
    Run-IsSingle 9 boot letters (λ i. refl) refl refl
      (switch_to (count_tick (task_kill idle 4).1) 0) two_steps
