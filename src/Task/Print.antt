-- ===== src/Task/Print.antt =====
-- `task_print` of kernel/task.c: the lines that it prints of the tasks.
use rotary_os.Base.{ℕ, zero, suc, ◌+◌, ◌==◌, if◌then◌else◌, sub32, List, [], ◌∷◌}
use rotary_os.Task.{
  Task, task_max, state_empty, state_running, state_waiting, state_paused, state_killed,
}

-- The name of a state; the code leaves it empty for other numbers.
pub data StateName : Type 0 where
  running : StateName
  waiting : StateName
  paused : StateName
  killed : StateName
  nameless : StateName

pub name_of_state : (state : ℕ) → StateName
name_of_state state =
    if state == state_running
    then running
    else if state == state_waiting
    then waiting
    else if state == state_paused
    then paused
    else if state == state_killed
    then killed
    else nameless

pub record TaskLine : Type 0 where
  pub index : ℕ
  pub name : ℕ → ℕ
  pub state : StateName
  pub kernel_esp : ℕ
  pub kernel_ebp : ℕ
  pub stack : ℕ
  pub cr3 : ℕ
  pub ticks : ℕ

abbrev pub task_line : (index : ℕ) → Task → TaskLine
task_line i t = record {
  index = i;
  name = t.name;
  state = name_of_state t.state;
  kernel_esp = t.kernel_esp;
  kernel_ebp = t.kernel_ebp;
  stack = sub32 t.kernel_ebp t.kernel_esp;
  cr3 = t.cr3;
  ticks = t.ticks;
}

-- The loop over `rounds` tasks from index `i` on.
pub print_tasks : (rounds : ℕ) → (ℕ → Task) → (i : ℕ) → List TaskLine
print_tasks zero tasks i = []
print_tasks (suc n) tasks i =
    let rest = print_tasks n tasks (i + 1) in
    if (tasks i).state == state_empty then rest else task_line i (tasks i) ∷ rest

pub task_print : (ℕ → Task) → List TaskLine
task_print tasks = print_tasks task_max tasks 0
