-- ===== src/Task.antt =====
-- The operations on tasks and the scheduler of kernel/task.c. A stack comes from
-- the kernel heap, a page directory from the physical memory manager.
pub mod Table
pub mod Kill
pub mod Next
pub mod Running
pub mod Create
pub mod Inside
pub mod Reach
pub mod Ends
pub mod Print
mod Tests
use rotary_os.Base.{
  ℕ, zero, suc, ◌+◌, Bool, true, false, not, ◌&&◌, ◌||◌, Option, none, some, ltb, leb, ◌==◌,
  if◌then◌else◌, add32, sub32, update,
}
use rotary_os.Heap.{Mem, memset_zero, kmalloc, kfree}
use rotary_os.Pmm.{alloc_frame}
use rotary_os.Paging.{phy_to_vir, vir_to_phy, paging_init_directory, vmm_map_kernel}
pub use rotary_os.Task.Table.{
  state_empty, state_running, state_waiting, state_paused, state_killed, task_max, task_kernel,
  task_usermode, task_stack_size, kmalloc_fail, Task, zero_task, System, set_task, state_of,
  set_state,
}
unfoldable pub use rotary_os.Task.Table.{lock, unlock, strncpy}

unfoldable pub task_init : System → (ℕ → ℕ) → System
task_init s kernel_idle = record s {
  tasks = update s.tasks 0 (record (s.tasks 0) {
    state = state_running;
    name = strncpy (s.tasks 0).name kernel_idle 16;
  });
  current_task = 0;
  scheduler_ready = true;
}

pub task_kill : System → ℕ → ℕ × System
task_kill s task_id =
    if ltb task_max task_id
    then (0, s)
    else if task_id == 0
    then (0, s)
    else if state_of s task_id == state_empty
    then (0, s)
    else if not (state_of s task_id == state_running)
        && (not (state_of s task_id == state_waiting) && not (state_of s task_id == state_paused))
    then (0, s)
    else (1, set_state s task_id state_killed)

-- The writes of `task_purge` to the task once its state is reset; `kfree` stands between the two.
abbrev pub reset_task : Task → Task
reset_task t = record t { kernel_esp = 0; kernel_ebp = 0; stack_frame = 0; cr3 = 0; ticks = 0 }

-- `none` when the walk of `kfree` outlasts the fuel.
pub task_purge : (fuel : ℕ) → System → ℕ → Option (ℕ × System)
task_purge fuel s task_id =
    if ltb task_max task_id
    then some (0, s)
    else if task_id == 0
    then some (0, s)
    else if not (state_of s task_id == state_killed)
    then some (0, s)
    else (let s₁ = set_state s task_id state_empty in
        elim (kfree fuel s.heap (s.tasks task_id).stack_frame) [
          | none ↦ none
          | some (r, h) ↦
              some (1, set_task (record s₁ { heap = h }) task_id (reset_task (s₁.tasks task_id)))
        ])

pub task_exit_current : (fuel : ℕ) → System → Option System
task_exit_current fuel s = elim (lock fuel s.task_lock) [
  | none ↦ none
  | some held ↦ some (record (set_state s s.current_task state_killed) { task_lock = unlock held })
]

-- The loop of `task_schedule` that purges killed tasks: `rounds` tasks from `i` on.
pub purge_all : (rounds fuel : ℕ) → System → ℕ → Option System
purge_all zero fuel s i = some s
purge_all (suc n) fuel s i = elim (state_of s i == state_killed) [
  | false ↦ purge_all n fuel s (i + 1)
  | true ↦ elim (task_purge fuel s i) [ none ↦ none | some (r, s') ↦ purge_all n fuel s' (i + 1) ]
]

abbrev pub is_skipped : ℕ → Bool
is_skipped state = (state == state_empty) || ((state == state_paused) || (state == state_killed))

-- The search for the next task; `none` when the fuel ends.
pub next_task : (fuel : ℕ) → (ℕ → Task) → ℕ → Option ℕ
next_task zero tasks next_task_id = none
next_task (suc k) tasks next_task_id =
    let bumped = add32 next_task_id 1 in
    let rest = next_task k tasks (if bumped == 9 then 0 else bumped) in
    if is_skipped (tasks next_task_id).state then rest else some next_task_id

-- The previous task waits, if it was running.
abbrev pub pause_current : System → System
pause_current s =
    if state_of s s.current_task == state_running
    then set_state s s.current_task state_waiting
    else s

-- The states after a switch to the task `next`.
pub switch_to : System → ℕ → System
switch_to s next = record (set_state (pause_current s) next state_running) { current_task = next }

abbrev pub count_tick : System → System
count_tick s =
    set_task s s.current_task
      (record (s.tasks s.current_task) { ticks = add32 (s.tasks s.current_task).ticks 1 })

-- `task_schedule` up to the call of `task_switch`, which swaps the stacks.
pub task_schedule : (fuel : ℕ) → System → Option System
task_schedule fuel s =
    if not s.scheduler_ready then some s else elim (purge_all task_max fuel (count_tick s) 0) [
      | none ↦ none
      | some s₁ ↦
          let first = add32 (s₁.tasks s₁.current_task).id 1 in
          elim (next_task fuel s₁.tasks (if first == 256 then 0 else first)) [
            | none ↦ none
            | some next ↦ some (switch_to s₁ next)
          ]
    ]

-- What `task_create` returns: `(void*)1`, `(void*)0` or the address of the task at an index.
pub data Created : Type 0 where
  invalid_state : Created
  no_stack : Created
  created : ℕ → Created

-- The two frames on a new kernel stack: the registers for `isr_exit`, below them those for
-- `task_switch`.
pub new_stack : Mem → (esp start_addr isr_exit : ℕ) → Mem
new_stack m esp start_addr isr_exit =
    let registers = sub32 esp 52 in
    let m₁ = memset_zero m registers 52 in
    let m₂ = update m₁ (add32 registers 48) 0x200 in
    let m₃ = update m₂ (add32 registers 40) start_addr in
    let m₄ = update m₃ (add32 registers 44) 8 in
    let context = sub32 registers 20 in
    let m₅ = memset_zero m₄ context 20 in update m₅ (add32 context 16) isr_exit

-- The page directory of a task: the kernel's, or a new frame with the kernel mapped.
unfoldable pub task_directory : System → (type : ℕ) → ℕ × System
task_directory s type =
    if type == task_kernel
    then (vir_to_phy s.vmm_kernel_pd, s)
    else (let frame = (alloc_frame s.pmm).0 in
        let page_directory = phy_to_vir frame in
        let m₁ = (paging_init_directory s.heap.mem page_directory).1 in
        let m₂ = (vmm_map_kernel s.leaf1_edx m₁ page_directory).1 in
        (
          vir_to_phy page_directory,
          record s { pmm = (alloc_frame s.pmm).1; heap = record (s.heap) { mem = m₂ } },
        ))

-- The part of `task_create` behind the allocation of the stack.
unfoldable pub set_up_task :
    System → (task_id type kernel_stack start_addr isr_exit state : ℕ) → System
set_up_task s task_id type kernel_stack start_addr isr_exit state =
    let top = add32 kernel_stack task_stack_size in
    let (cr3, s₁) = task_directory s type in
    record s₁ {
      tasks = update s₁.tasks task_id (record (s₁.tasks task_id) {
        stack_frame = kernel_stack;
        kernel_esp = sub32 (sub32 top 52) 20;
        kernel_ebp = top;
        cr3 = cr3;
        state = state;
      });
      heap = record (s₁.heap) { mem = new_stack s₁.heap.mem top start_addr isr_exit };
      overrun = s₁.overrun || leb task_max task_id;
      last_task_id = add32 s₁.last_task_id 1;
      task_lock = unlock s₁.task_lock;
    }

-- `name` is the source array of the name, `isr_exit` the address of that routine. `none` when a
-- wait or a walk outlasts the fuel.
pub task_create :
    (fuel : ℕ)
    → System
    → (name : ℕ → ℕ) → (type start_addr isr_exit state : ℕ) → Option (Created × System)
task_create fuel s name type start_addr isr_exit state =
    if not (state == state_paused) && not (state == state_waiting)
    then some (invalid_state, s)
    else elim (lock fuel s.task_lock) [
      | none ↦ none
      | some held ↦
          let task_id = s.last_task_id in
          let s₁ = record s {
            task_lock = held;
            overrun = s.overrun || leb task_max task_id;
            tasks =
                update s.tasks task_id
                  (record zero_task { id = task_id; name = strncpy (λ i. 0) name 16 });
          } in
          elim (kmalloc fuel s₁.heap task_stack_size) [
            | none ↦ none
            | some (kernel_stack, h) ↦
                let s₂ = record s₁ { heap = h } in
                if kernel_stack == kmalloc_fail
                then some (no_stack, s₂)
                else some (
                  created task_id,
                  set_up_task s₂ task_id type kernel_stack start_addr isr_exit state,
                )
          ]
    ]
