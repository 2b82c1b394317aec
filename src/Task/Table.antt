-- ===== src/Task/Table.antt =====
-- The table of the tasks of kernel/task.c with the globals beside it, and the lock of kernel/sync.c.
use rotary_os.Base.{
  ℕ, zero, suc, ◌-◌, ◌^◌, Bool, true, false, Option, none, some, ltb, leb, ◌||◌, if◌then◌else◌,
  update,
}
use rotary_os.Heap.{Heap}
use rotary_os.Pmm.{Pmm}

abbrev pub state_empty : ℕ
state_empty = 0

abbrev pub state_running : ℕ
state_running = 1

abbrev pub state_waiting : ℕ
state_waiting = 2

abbrev pub state_paused : ℕ
state_paused = 4

abbrev pub state_killed : ℕ
state_killed = 5

abbrev pub task_max : ℕ
task_max = 8

abbrev pub task_kernel : ℕ
task_kernel = 0

abbrev pub task_usermode : ℕ
task_usermode = 1

abbrev pub task_stack_size : ℕ
task_stack_size = 8192

-- `KMALLOC_FAIL`, -1 converted to `uint32`
abbrev pub kmalloc_fail : ℕ
kmalloc_fail = 2 ^ 32 - 1

-- The name is the array of its 16 bytes.
pub record Task : Type 0 where
  pub id : ℕ
  pub kernel_esp : ℕ
  pub kernel_ebp : ℕ
  pub stack_frame : ℕ
  pub cr3 : ℕ
  pub state : ℕ
  pub ticks : ℕ
  pub name : ℕ → ℕ

abbrev pub zero_task : Task
zero_task = record {
  id = 0;
  kernel_esp = 0;
  kernel_ebp = 0;
  stack_frame = 0;
  cr3 = 0;
  state = 0;
  ticks = 0;
  name = λ i. 0;
}

-- The globals. `tasks` gives the task at each index, `current_task` is an index. The array has
-- `TASK_MAX` tasks; what stands behind it in memory is read as a further task. `overrun` is not a variable of the
-- program: it holds once a task behind the array was written, from when on the other globals are no longer what
-- the model says.
pub record System : Type 0 where
  pub tasks : ℕ → Task
  pub current_task : ℕ
  pub last_task_id : ℕ
  pub scheduler_ready : Bool
  pub task_lock : Bool
  pub heap : Heap
  pub pmm : Pmm
  pub vmm_kernel_pd : ℕ
  pub leaf1_edx : ℕ
  pub overrun : Bool

abbrev pub set_task : System → ℕ → Task → System
set_task s i t = record s { tasks = update s.tasks i t; overrun = s.overrun || leb task_max i }

abbrev pub state_of : System → ℕ → ℕ
state_of s i = (s.tasks i).state

abbrev pub set_state : System → ℕ → ℕ → System
set_state s i v = set_task s i (record (s.tasks i) { state = v })

-- `lock`: `atomic_flag_test_and_set_explicit` returns the old flag and sets it. `none` when the
-- rounds end, which they do if nobody else clears the flag.
unfoldable pub lock : (fuel : ℕ) → Bool → Option Bool
lock zero flag = none
lock (suc k) flag = elim flag [ true ↦ lock k true | false ↦ some true ]

unfoldable pub unlock : Bool → Bool
unlock flag = false

-- The first `n` bytes of the source, whatever they are.
unfoldable pub strncpy : (ℕ → ℕ) → (ℕ → ℕ) → ℕ → ℕ → ℕ
strncpy dest src n i = if ltb i n then src i else dest i
