-- ===== src/Shell/Commands.antt =====
-- What the commands of kernel/shell.c do.
use rotary_os.Base.{ℕ, Bool, if◌then◌else◌, ◌-◌, Option, none, some, List, [], ◌∷◌, ◌++◌}
use rotary_os.Keyboard.{driver_keyboard_register_handler}
use rotary_os.Screen.{vga_height, vga_scroll_up, top_line}
use rotary_os.Shell.{
  Shell, Command, tss, apple, banana, testkill, lol2, clear, die, Names, find_command, clear_lines,
  shell_print_prompt,
}
use rotary_os.Task.{System, task_create, task_kill, task_kernel, task_usermode, state_waiting}
use rotary_os.Tss.{Tss, tss_set_esp0, tss_set_ss0}

-- The globals that the commands change, and the commands that have printed something, the first one first.
pub record Console : Type 0 where
  pub shell : Shell
  pub system : System
  pub task_state : Tss
  pub handlers : ℕ → ℕ
  pub printed : List Command

-- The addresses of the two functions, their names, and the exit of interrupts.
pub record Programs : Type 0 where
  pub apple_addr : ℕ
  pub banana_addr : ℕ
  pub apple_name : ℕ → ℕ
  pub banana_name : ℕ → ℕ
  pub isr_exit : ℕ

-- What the processor does beside the program: the interrupt of the instruction `int $32`, whether an address is
-- mapped, and the page fault of a read at one that is not.
pub record Processor : Type 0 where
  pub interrupt : Console → Option Console
  pub is_mapped : ℕ → Bool
  pub page_fault : (address : ℕ) → Console → Option Console

-- The address that the command `die` reads.
abbrev pub die_address : ℕ
die_address = 0xB0000000

-- `shell_init` up to its last loop: the line of the shell, its handler of keys, the prompt.
pub shell_init : (handler prompt : ℕ) → Console → Console
shell_init handler prompt w =
    let screen = w.shell.screen in
    let s = record screen { cells = vga_scroll_up 1 screen.cells top_line } in
    record w {
      handlers = driver_keyboard_register_handler w.handlers handler;
      shell = record (w.shell) { screen = shell_print_prompt prompt w.shell.bytes s };
    }

-- A new task that waits; what `task_create` returns is not looked at.
pub launch : (fuel : ℕ) → (name : ℕ → ℕ) → (type start_addr isr_exit : ℕ) → Console → Option Console
launch fuel name type start_addr isr_exit w =
    elim (task_create fuel w.system name type start_addr isr_exit state_waiting) [
      | none ↦ none
      | some (answer, s) ↦ some (record w { system = s })
    ]

-- The branch of a command. `lol2` raises the interrupt of the timer, `die` reads an address before it prints; the
-- commands that are not named here only print. `none` when the fuel ends.
pub run_command : (fuel : ℕ) → Programs → Processor → Command → Console → Option Console
run_command fuel p c tss w =
    some (record w { task_state = (tss_set_ss0 (tss_set_esp0 w.task_state 0xdeadbeef).1 0x10).1 })
run_command fuel p c apple w = launch fuel p.apple_name task_kernel p.apple_addr p.isr_exit w
run_command fuel p c banana w = launch fuel p.banana_name task_usermode p.banana_addr p.isr_exit w
run_command fuel p c testkill w = some (record w { system = (task_kill w.system 2).1 })
run_command fuel p c lol2 w = c.interrupt w
run_command fuel p c clear w =
    let screen = w.shell.screen in
    some (record w {
      shell = record (w.shell) {
        screen = record screen { cells = clear_lines (vga_height - 4) screen.cells 4 };
      };
    })
run_command fuel p c die w =
    if c.is_mapped die_address
    then some (record w { printed = w.printed ++ die ∷ [] })
    else c.page_fault die_address w
run_command fuel p c other w = some (record w { printed = w.printed ++ other ∷ [] })

unfoldable pub shell_process_command :
    (fuel : ℕ) → Programs → Processor → Names → (command : ℕ) → Console → Option Console
shell_process_command fuel p c t command w =
    run_command fuel p c (find_command t w.shell.bytes command) w
