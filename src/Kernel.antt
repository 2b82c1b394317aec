-- ===== src/Kernel.antt =====
-- The start of the kernel: `kernel_main` of kernel/main.c, which calls the other parts one after
-- another.
pub mod State
pub mod Runs
pub mod Loaded
pub mod Ready
pub mod Boot
pub mod FirstTick
pub mod Passes
pub mod Errors
mod Tests
use rotary_os.Base.{ℕ, ◌==◌, if◌then◌else◌, true, Option, none, some, List, [], ◌∷◌}
use rotary_os.Pmm.{init}
use rotary_os.Screen.{
  vga_colour_black, vga_colour_cyan, vga_colour_red, vga_clear_screen, vga_set_cursor,
  vga_overwrite_line, vga_print_separator,
}
use rotary_os.Serial.{serial_init}
use rotary_os.Multiboot.Map.{multiboot_parse}
use rotary_os.Cpuid.{cpuid_init}
use rotary_os.Gdt.{gdt_init}
use rotary_os.Interrupts.{idt_init, idt_load}
use rotary_os.Pic.{pic_init}
use rotary_os.Timer.{timer_init}
use rotary_os.Keyboard.{driver_keyboard_init}
use rotary_os.Vmm.{vmm_init}
use rotary_os.Task.{task_init, task_create, task_kernel, state_waiting}
pub use rotary_os.Kernel.State.{
  Part, serial_ports, multiboot_structs, cpuid_leaves, segments, idt_gates, idt_loading, legacy_pic,
  timer, keyboard_driver, interrupts, physical_memory, virtual_memory, task_scheduler, Report,
  starts, fails, works, complete, Machine, Platform, system_of, set_system, say,
}

-- A call with its result, which `kernel_main` compares with 0, or a call without one.
pub data Action : Type 0 where
  checked : Part → (Machine → Option (ℕ × Machine)) → Action
  silent : (Machine → Machine) → Action

-- The function returns, or has done all of it.
pub data Outcome : Type 0 where
  returned : Machine → Outcome
  done : Machine → Outcome

-- The actions one after another, up to the first that gives 0; `none` when the fuel of one ends.
pub run_actions : List Action → Machine → Option Outcome
run_actions [] m = some (done m)
run_actions (silent f ∷ rest) m = run_actions rest (f m)
run_actions (checked part f ∷ rest) m = elim (f (say m (starts part))) [
  | none ↦ none
  | some (result, m₁) ↦
      if result == 0
      then some (returned (say m₁ (fails part)))
      else run_actions rest (say m₁ (works part))
]

module _ (fuel : ℕ) (p : Platform) where
  pub start_screen : Machine → Machine
  start_screen m =
      let cells = vga_clear_screen m.screen.cells vga_colour_black in
      record m { screen = vga_set_cursor (record (m.screen) { cells = cells }) 0 23 }

  pub start_serial : Machine → Option (ℕ × Machine)
  start_serial m =
      let (result, initialised, ports) = serial_init p.device m.screen.ports in
      some (
        result,
        record m { serial_initialised = initialised; screen = record (m.screen) { ports = ports } },
      )

  pub print_banner : Machine → Machine
  print_banner m =
      let cells =
        vga_overwrite_line m.screen.cells p.bytes p.kernel_name vga_colour_red vga_colour_black 0 in
      record m {
        screen = record (m.screen) { cells = vga_print_separator cells vga_colour_cyan 1 };
      }

  pub start_multiboot : (mboot_magic mboot_info : ℕ) → Machine → Option (ℕ × Machine)
  start_multiboot mboot_magic mboot_info m =
      elim (multiboot_parse fuel m.vmm.mem p.kernel_phys_end mboot_magic mboot_info m.vmm.pmm) [
        | none ↦ none
        | some (result, frames) ↦ some (result, record m { vmm = record (m.vmm) { pmm = frames } })
      ]

  pub start_cpuid : Machine → Option (ℕ × Machine)
  start_cpuid m =
      let (result, leaves) = cpuid_init p.cpuid m.leaves in
      some (result, record m { leaves = leaves })

  pub start_gdt : Machine → Option (ℕ × Machine)
  start_gdt m = some (1, record m { gdt = gdt_init p.gdt_address p.tss_address p.tss_size })

  pub start_idt : Machine → Option (ℕ × Machine)
  start_idt m = let (result, idt) = idt_init m.idt p.isr in some (result, record m { idt = idt })

  pub load_idt : Machine → Option (ℕ × Machine)
  load_idt m =
      let (result, pointer) = idt_load p.idt_address in
      some (result, record m { idt_ptr = pointer })

  -- `PIC_MASTER_OFFSET` and `PIC_SLAVE_OFFSET`
  pub start_pic : Machine → Option (ℕ × Machine)
  start_pic m =
      let (result, ports) = pic_init m.screen.ports 32 40 in
      some (result, record m { screen = record (m.screen) { ports = ports } })

  pub start_timer : Machine → Option (ℕ × Machine)
  start_timer m =
      let (result, ports, handlers) = timer_init m.screen.ports m.interrupt_handlers p.timer_tick in
      some (
        result,
        record m { interrupt_handlers = handlers; screen = record (m.screen) { ports = ports } },
      )

  pub start_keyboard : Machine → Option (ℕ × Machine)
  start_keyboard m =
      let (result, handlers) = driver_keyboard_init m.interrupt_handlers p.keyboard_isr in
      some (result, record m { interrupt_handlers = handlers })

  pub enable_hardware_interrupts : Machine → Option (ℕ × Machine)
  enable_hardware_interrupts m = some (1, record m { interrupts_enabled = true })

  pub start_pmm : Machine → Option (ℕ × Machine)
  start_pmm m = some ((init m.vmm.pmm).0, m)

  pub start_vmm : Machine → Option (ℕ × Machine)
  start_vmm m =
      let (result, vmm) = vmm_init p.kernel_virt_end m.leaves.leaf1.edx m.vmm in
      some (result, record m { vmm = vmm })

  pub start_tasks : Machine → Option (ℕ × Machine)
  start_tasks m = some (1, set_system m (task_init (system_of m) p.idle_name))

  -- The calls of `kernel_main` in their order.
  pub actions : (mboot_magic mboot_info : ℕ) → List Action
  actions mboot_magic mboot_info =
      silent start_screen
      ∷ checked serial_ports start_serial
      ∷ silent print_banner
      ∷ checked multiboot_structs (start_multiboot mboot_magic mboot_info)
      ∷ checked cpuid_leaves start_cpuid
      ∷ checked segments start_gdt
      ∷ checked idt_gates start_idt
      ∷ checked idt_loading load_idt
      ∷ checked legacy_pic start_pic
      ∷ checked timer start_timer
      ∷ checked keyboard_driver start_keyboard
      ∷ checked interrupts enable_hardware_interrupts
      ∷ checked physical_memory start_pmm
      ∷ checked virtual_memory start_vmm
      ∷ checked task_scheduler start_tasks
      ∷ silent (λ m. say m complete)
      ∷ []

  -- The shell is a task of its own; `kernel_main` then stays in a loop, as the idle task.
  pub start_shell : Machine → Option Machine
  start_shell m =
      elim (task_create fuel (system_of m) p.shell_name task_kernel p.shell_init p.isr_exit
        state_waiting) [ none ↦ none | some (answer, s) ↦ some (set_system m s) ]

  pub kernel_main : (mboot_magic mboot_info : ℕ) → Machine → Option Outcome
  kernel_main mboot_magic mboot_info m = elim (run_actions (actions mboot_magic mboot_info) m) [
    | none ↦ none
    | some (returned m₁) ↦ some (returned m₁)
    | some (done m₁) ↦ elim (start_shell m₁) [ none ↦ none | some m₂ ↦ some (done m₂) ]
  ]
