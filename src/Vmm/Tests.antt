-- ===== src/Vmm/Tests.antt =====
-- `vmm_init` of kernel/vmm.c for a kernel that ends in the second MiB.
use rotary_os.Base.{false, ℕ, ◌*◌, ◌≡◌}
use rotary_os.Pmm.{Pmm}
use rotary_os.Vmm.{Vmm}

-- 512 frames behind the kernel.
abbrev frames : Pmm
frames = record {
  memory_bitmap = λ i. 0;
  memory_start = 0x150000;
  memory_end = 0x350000;
  frames_max = 512;
  frames_used = 0;
  overrun = false;
}

abbrev before : Vmm
before = record {
  mem = λ a. 0xffffffff;
  pmm = frames;
  cr3 = 0;
  vmm_current_pd = 0;
  vmm_kernel_pd = 0;
  heap_start_vaddr = 0;
  heap_end_vaddr = 0;
}
