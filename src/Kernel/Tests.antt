-- ===== src/Kernel/Tests.antt =====
-- `kernel_main` of kernel/main.c on a machine of 128 MiB with the tick behind it, and refused by a wrong
-- magic number.
use rotary_os.Base.{
  ℕ, ◌+◌, ◌%◌, ◌^◌, ◌≡◌, ◌≢◌, refl, arith, false, Option, none, some, List, [], ◌∷◌,
}
use rotary_os.Ports.{no_ports}
use rotary_os.Pmm.{initial}
use rotary_os.Cpuid.{Leaf}
use rotary_os.Interrupts.{IdtGate}
use rotary_os.Multiboot.Map.{Region}
use rotary_os.Multiboot.Map.Tests.{loader, regions}
use rotary_os.Paging.{kernel_base}
use rotary_os.Task.{System, zero_task}
use rotary_os.Task.Running.{IsDispatched}
use rotary_os.Timer.{timer_tick}
use rotary_os.Gdt.{GdtEntry}
use rotary_os.Kernel.{Platform, Machine, kernel_main, done, returned, system_of}
use rotary_os.Kernel.Loaded.{IsLoaded}
use rotary_os.Kernel.Boot.{IsUp, kernel_main-IsUp}
use rotary_os.Kernel.FirstTick.{timer_tick-kernel_main}
use rotary_os.Kernel.Errors.{IsUntouched, kernel_main_returned}

-- The features that the processor reports have page size extensions, bit 3.
abbrev features : Leaf
features = record { eax = 0; ebx = 0; ecx = 0; edx = 0x78bfbff }

abbrev no_leaf : Leaf
no_leaf = record { eax = 0; ebx = 0; ecx = 0; edx = 0 }

abbrev platform : Platform
platform = record {
  device = λ p q. 0xae;
  cpuid = λ l. some features;
  bytes = λ a. 0;
  kernel_name = 0;
  kernel_phys_end = 0x14f123;
  kernel_virt_end = kernel_base + 0x14f123;
  gdt_address = 0xC010F000;
  tss_address = 0xC0110000;
  tss_size = 104;
  idt_address = 0xC0111000;
  isr = λ j. 0xC0100000;
  timer_tick = 0xC0101000;
  keyboard_isr = 0xC0102000;
  shell_init = 0xC0103000;
  isr_exit = 0xC0104000;
  idle_name = λ i. 0;
  shell_name = λ i. 0;
}

abbrev no_segment : GdtEntry
no_segment = record {
  limit_low = 0;
  base_low = 0;
  base_middle = 0;
  access_flags = 0;
  granularity = 0;
  base_high = 0;
}

abbrev no_gate : IdtGate
no_gate = record {
  low_offset = 0;
  segment_selector = 0;
  reserved = 0;
  attributes = 0;
  high_offset = 0;
}

abbrev image : Machine
image = record {
  reports = [];
  screen = record {
    cells = λ a. 0;
    current_fg_colour = 15;
    cursor_x = 0;
    cursor_y = 0;
    ports = no_ports;
  };
  serial_initialised = false;
  leaves = record { leaf0 = no_leaf; leaf1 = no_leaf; leaf2 = no_leaf; leaf3 = no_leaf };
  gdt = record {
    size = 0;
    address = 0;
    kernel_code_entry = no_segment;
    kernel_data_entry = no_segment;
    user_code_entry = no_segment;
    user_data_entry = no_segment;
    tss_entry = no_segment;
  };
  idt = λ j. no_gate;
  idt_ptr = record { limit = 0; base = 0 };
  interrupt_handlers = λ j. 0;
  interrupts_enabled = false;
  vmm = record {
    mem = loader;
    pmm = initial;
    cr3 = 0;
    vmm_current_pd = 0;
    vmm_kernel_pd = 0;
    heap_start_vaddr = 0;
    heap_end_vaddr = 0;
  };
  tasks = λ i. zero_task;
  current_task = 0;
  last_task_id = 1;
  scheduler_ready = false;
  task_lock = false;
  task_overrun = false;
}

-- The memory from 1 MiB on.
abbrev high_memory : Region
high_memory = record { size = 20; addr = 0x100000; len = 0x7f00000; type = 1 }

image-IsLoaded : IsLoaded 9 platform 0x1000 image regions high_memory
unfolding rotary_os.Base.Bits.bit rotary_os.Multiboot.Map.region_at rotary_os.Pmm.align_4k
    rotary_os.Multiboot.Map.holds_kernel
image-IsLoaded = record {
  map_flag = refl;
  regions = (refl, omega arith, omega arith, (refl, omega arith, omega arith, omega arith));
  enough = omega arith;
  two = omega arith;
  holds = refl;
  room = omega arith;
  above = omega arith;
  small = omega arith;
  linked = refl;
  segment = omega arith;
  routines = λ j. omega arith;
  leaf = features;
  reported = refl;
  pages = refl;
  frames = refl;
  next_task = refl;
  no_tasks = λ j. refl;
  unlocked = refl;
}

kernel_main-IsUp_example :
    (m' : Machine) × (kernel_main 9 platform 0x2BADB002 0x1000 image ≡ some (done m'))
    × IsUp platform high_memory m'
kernel_main-IsUp_example =
    kernel_main-IsUp 9 platform 0x1000 image regions high_memory image-IsLoaded

kernel_main_returned_example :
    ((m' : Machine) × (kernel_main 9 platform 0x1BADB002 0x1000 image ≡ some (returned m'))
      × IsUntouched image m')
    × ((m' : Machine) → kernel_main 9 platform 0x2BADB002 0x1000 image ≢ some (returned m'))
kernel_main_returned_example = kernel_main_returned 9 platform 0x1BADB002 0x1000 image (omega arith)

timer_tick-kernel_main_example :
    (m' : Machine) × (kernel_main 9 platform 0x2BADB002 0x1000 image ≡ some (done m'))
    × (s' : System) × (timer_tick 9 0 (system_of m') ≡ some ((0 + 1) % 2 ^ 64, s'))
    × (s'.current_task ≡ 1)
    × IsDispatched s'
timer_tick-kernel_main_example =
    timer_tick-kernel_main 9 0 platform 0x1000 image regions high_memory image-IsLoaded
      (omega arith)
