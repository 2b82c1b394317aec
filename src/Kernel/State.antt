-- ===== src/Kernel/State.antt =====
-- The globals of the kernel that `kernel_main` of kernel/main.c sets up, what it is linked with and runs
-- on, and the messages that it prints.
use rotary_os.Base.{ℕ, Bool, Option, List, [], ◌∷◌, ◌++◌}
use rotary_os.Ports.{Device}
use rotary_os.Strings.{Bytes}
use rotary_os.Screen.{Screen}
use rotary_os.Cpuid.{Leaf, Leaves}
use rotary_os.Gdt.{Gdt}
use rotary_os.Interrupts.{IdtGate, IdtPointer}
use rotary_os.Vmm.{Vmm}
use rotary_os.Task.{System, Task}

-- The parts that `kernel_main` sets up and checks.
pub data Part : Type 0 where
  serial_ports : Part
  multiboot_structs : Part
  cpuid_leaves : Part
  segments : Part
  idt_gates : Part
  idt_loading : Part
  legacy_pic : Part
  timer : Part
  keyboard_driver : Part
  interrupts : Part
  physical_memory : Part
  virtual_memory : Part
  task_scheduler : Part

pub data Report : Type 0 where
  starts : Part → Report
  fails : Part → Report
  works : Part → Report
  complete : Report

-- The globals of the kernel. `vmm` has the memory, the frames and `CR3` too; `task_overrun` is that of `System`.
pub record Machine : Type 0 where
  pub reports : List Report
  pub screen : Screen
  pub serial_initialised : Bool
  pub leaves : Leaves
  pub gdt : Gdt
  pub idt : ℕ → IdtGate
  pub idt_ptr : IdtPointer
  pub interrupt_handlers : ℕ → ℕ
  pub interrupts_enabled : Bool
  pub vmm : Vmm
  pub tasks : ℕ → Task
  pub current_task : ℕ
  pub last_task_id : ℕ
  pub scheduler_ready : Bool
  pub task_lock : Bool
  pub task_overrun : Bool

-- What the kernel is linked with and runs on: addresses of the code and of the tables, the end of the
-- kernel, texts, the devices and the processor.
pub record Platform : Type 0 where
  pub device : Device
  pub cpuid : ℕ → Option Leaf
  pub bytes : Bytes
  pub kernel_name : ℕ
  pub kernel_phys_end : ℕ
  pub kernel_virt_end : ℕ
  pub gdt_address : ℕ
  pub tss_address : ℕ
  pub tss_size : ℕ
  pub idt_address : ℕ
  pub isr : ℕ → ℕ
  pub timer_tick : ℕ
  pub keyboard_isr : ℕ
  pub shell_init : ℕ
  pub isr_exit : ℕ
  pub idle_name : ℕ → ℕ
  pub shell_name : ℕ → ℕ

-- The part of the globals that the tasks work on.
abbrev pub system_of : Machine → System
system_of m = record {
  tasks = m.tasks;
  current_task = m.current_task;
  last_task_id = m.last_task_id;
  scheduler_ready = m.scheduler_ready;
  task_lock = m.task_lock;
  heap = record {
    mem = m.vmm.mem;
    start_vaddr = m.vmm.heap_start_vaddr;
    end_vaddr = m.vmm.heap_end_vaddr;
  };
  pmm = m.vmm.pmm;
  vmm_kernel_pd = m.vmm.vmm_kernel_pd;
  leaf1_edx = m.leaves.leaf1.edx;
  overrun = m.task_overrun;
}

abbrev pub set_system : Machine → System → Machine
set_system m s = record m {
  tasks = s.tasks;
  current_task = s.current_task;
  last_task_id = s.last_task_id;
  scheduler_ready = s.scheduler_ready;
  task_lock = s.task_lock;
  task_overrun = s.overrun;
  vmm = record (m.vmm) { mem = s.heap.mem; pmm = s.pmm };
}

abbrev pub say : Machine → Report → Machine
say m r = record m { reports = m.reports ++ r ∷ [] }
