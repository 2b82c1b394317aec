-- ===== src/Paging/Tests.antt =====
-- Runs of the page directory code, and its theorem at one directory.
use rotary_os.Base.{ℕ, ◌≡◌, refl, arith}
use rotary_os.Heap.{Mem}
use rotary_os.Paging.{vmm_map_kernel, paging_init_directory, cpuid_check_pse, kernel_entry}
use rotary_os.Paging.Kernel.{IsTaskDirectory, map_kernel-IsTaskDirectory}

abbrev dirty : Mem
dirty = λ a. 0xffffffff

-- What CPUID reports with page size extensions.
abbrev features : ℕ
features = 0x78bfbff

kernel_entry_runs : kernel_entry 2 0x400000 ≡ 0x400083
kernel_entry_runs = refl

pse_runs : cpuid_check_pse features ≡ 8
unfolding cpuid_check_pse
pse_runs = refl

map_kernel-IsTaskDirectory_example :
    IsTaskDirectory
      (vmm_map_kernel features (paging_init_directory dirty 0xC0300000).1 0xC0300000).1
      0xC0300000
unfolding rotary_os.Base.Bits.bit
map_kernel-IsTaskDirectory_example =
    map_kernel-IsTaskDirectory features dirty 0xC0300000 (omega arith) refl refl
