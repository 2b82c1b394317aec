-- ===== src/Shell/Tests.antt =====
-- Runs of kernel/shell.c, and its theorem at a few keys.
use rotary_os.Base.{
  ℕ, zero, suc, leb, ◌/◌, ◌%◌, ◌==◌, if◌then◌else◌, true, false, none, some, ◌≡◌, refl, arith, List,
  [], ◌∷◌,
}
use mathlib.Core.List.{foldl}
use rotary_os.Ports.{no_ports}
use rotary_os.Pmm.{initial}
use rotary_os.Task.{zero_task}
use rotary_os.Strings.{Bytes}
use rotary_os.Shell.Commands.{Console, Programs, Processor, run_command, shell_process_command}
use rotary_os.Shell.Dispatch.{name_of, named, short_clear, IsTable, shell_process_command_lem}
use rotary_os.Shell.{
  Command, Names, tss, apple, banana, testkill, gdt, cr0, lol2, clear, build, tasks, pmm, vmm, die,
  heap, unknown, Shell, shell_keyboard_handler,
}
use rotary_os.Shell.Line.{Spells}
use rotary_os.Shell.Edit.{edit, shell_keyboard_handler-edit}

abbrev start : Shell
start = record {
  bytes = λ a. 0;
  screen = record {
    cells = λ i. 32;
    current_fg_colour = 7;
    cursor_x = 7;
    cursor_y = 24;
    ports = no_ports;
  };
}

-- `h`, `o`, backspace, `i`
abbrev keys : List ℕ
keys = 104 ∷ 111 ∷ 0x0e ∷ 105 ∷ []

edit_runs : foldl edit [] keys ≡ 104 ∷ 105 ∷ []
edit_runs = refl

shell_keyboard_handler-edit_example :
    Spells
      (foldl (shell_keyboard_handler (λ command s. s) 0x1000 0x2000 0x3000) start keys).bytes
      0x1000
      (foldl edit [] keys)
shell_keyboard_handler-edit_example =
    shell_keyboard_handler-edit (λ command s. s) 0x1000 0x2000 0x3000 (omega arith, omega arith)
      keys start [] refl (omega arith)
      (
        (λ e. omega arith),
        omega arith,
        (
          (λ e. omega arith),
          omega arith,
          ((λ e. omega arith), omega arith, ((λ e. omega arith), omega arith, tt)),
        ),
      )

-- The names at multiples of 16, `cls` behind them, and the line `cls` in the buffer at 512.
abbrev text_at : ℕ → List ℕ
text_at k =
    if k == 0
    then name_of tss
    else if k == 1
    then name_of apple
    else if k == 2
    then name_of banana
    else if k == 3
    then name_of testkill
    else if k == 4
    then name_of gdt
    else if k == 5
    then name_of cr0
    else if k == 6
    then name_of lol2
    else if k == 7
    then name_of clear
    else if k == 8
    then name_of build
    else if k == 9
    then name_of tasks
    else if k == 10
    then name_of pmm
    else if k == 11
    then name_of vmm
    else if k == 12
    then name_of die
    else if k == 13
    then name_of heap
    else if k == 14
    then name_of unknown
    else if k == 15
    then short_clear
    else if k == 32
    then short_clear
    else []

abbrev nth : List ℕ → ℕ → ℕ
nth [] i = 0
nth (c ∷ cs) zero = c
nth (c ∷ cs) (suc i) = nth cs i

abbrev texts : Bytes
texts a = nth (text_at (a / 16)) (a % 16)

abbrev place : Command → ℕ
place tss = 0
place apple = 16
place banana = 32
place testkill = 48
place gdt = 64
place cr0 = 80
place lol2 = 96
place clear = 112
place build = 128
place tasks = 144
place pmm = 160
place vmm = 176
place die = 192
place heap = 208
place unknown = 224

abbrev table : Names
table = record { at = place; cls = 240 }

texts_spelled : (c : Command) → Spells texts (place c) (name_of c)
texts_spelled tss = (refl, omega arith, (refl, omega arith, (refl, omega arith, refl)))
texts_spelled apple = (
  refl,
  omega arith,
  (refl, omega arith, (refl, omega arith, (refl, omega arith, (refl, omega arith, refl)))),
)
texts_spelled banana = (
  refl,
  omega arith,
  (
    refl,
    omega arith,
    (refl, omega arith, (refl, omega arith, (refl, omega arith, (refl, omega arith, refl)))),
  ),
)
texts_spelled testkill = (
  refl,
  omega arith,
  (
    refl,
    omega arith,
    (
      refl,
      omega arith,
      (
        refl,
        omega arith,
        (refl, omega arith, (refl, omega arith, (refl, omega arith, (refl, omega arith, refl)))),
      ),
    ),
  ),
)
texts_spelled gdt = (refl, omega arith, (refl, omega arith, (refl, omega arith, refl)))
texts_spelled cr0 = (refl, omega arith, (refl, omega arith, (refl, omega arith, refl)))
texts_spelled lol2 =
    (refl, omega arith, (refl, omega arith, (refl, omega arith, (refl, omega arith, refl))))
texts_spelled clear = (
  refl,
  omega arith,
  (refl, omega arith, (refl, omega arith, (refl, omega arith, (refl, omega arith, refl)))),
)
texts_spelled build = (
  refl,
  omega arith,
  (refl, omega arith, (refl, omega arith, (refl, omega arith, (refl, omega arith, refl)))),
)
texts_spelled tasks = (
  refl,
  omega arith,
  (refl, omega arith, (refl, omega arith, (refl, omega arith, (refl, omega arith, refl)))),
)
texts_spelled pmm = (refl, omega arith, (refl, omega arith, (refl, omega arith, refl)))
texts_spelled vmm = (refl, omega arith, (refl, omega arith, (refl, omega arith, refl)))
texts_spelled die = (refl, omega arith, (refl, omega arith, (refl, omega arith, refl)))
texts_spelled heap =
    (refl, omega arith, (refl, omega arith, (refl, omega arith, (refl, omega arith, refl))))
texts_spelled unknown = refl

texts-IsTable : IsTable texts table
texts-IsTable = record {
  spelled = texts_spelled;
  short = (refl, omega arith, (refl, omega arith, (refl, omega arith, refl)));
}

abbrev console : Console
console = record {
  shell = record start { bytes = texts };
  system = record {
    tasks = λ i. zero_task;
    current_task = 0;
    last_task_id = 1;
    scheduler_ready = true;
    task_lock = false;
    heap = record { mem = λ a. 0; start_vaddr = 0; end_vaddr = 0 };
    pmm = initial;
    vmm_kernel_pd = 0;
    leaf1_edx = 0;
    overrun = false;
  };
  task_state = record { esp0 = 0; ss0 = 0 };
  handlers = λ i. 0;
  printed = [];
}

abbrev programs : Programs
programs = record {
  apple_addr = 0;
  banana_addr = 0;
  apple_name = λ i. 0;
  banana_name = λ i. 0;
  isr_exit = 0;
}

-- Mapped is what lies above the kernel's base, and a page fault does not end.
abbrev processor : Processor
processor = record { interrupt = some; is_mapped = λ a. leb 0xC0000000 a; page_fault = λ a w. none }

shell_process_command_lem_example :
    (shell_process_command 2 programs processor table 512 console
      ≡ run_command 2 programs processor clear console)
    × ((c : Command) → named (name_of c) ≡ c)
    × (named short_clear ≡ clear)
shell_process_command_lem_example =
    shell_process_command_lem 2 programs processor table 512 console short_clear texts-IsTable
      (refl, omega arith, (refl, omega arith, (refl, omega arith, refl))) (omega arith)
