-- ===== src/Paging/Map/Tests.antt =====
-- Runs of `paging_map` of arch/x86/kernel/paging.c, and its theorem at an empty directory.
use rotary_os.Base.{
  ℕ, ltb, if◌then◌else◌, ◌-◌, ◌<◌, none, Option, ◌+◌, ◌*◌, ◌≡◌, false, refl, arith, some,
}
use rotary_os.Heap.{Mem}
use rotary_os.Pmm.{Pmm}
use rotary_os.Pmm.Alloc.{HasFree}
use rotary_os.Paging.Map.{paging_map, page_directory_index, page_table_index, align_up_4k}
use rotary_os.Paging.{kernel_base}
use rotary_os.Paging.Map.Faults.{paging_map_faults}

abbrev clear : Mem
clear = λ a. 0

-- 64 frames from 4 MiB on, all of them free.
abbrev frames : Pmm
frames = record {
  memory_bitmap = λ i. 0;
  memory_start = 0x400000;
  memory_end = 0x440000;
  frames_max = 64;
  frames_used = 0;
  overrun = false;
}

index_runs :
    (page_directory_index 0x40002345 ≡ 256)
    × (page_table_index 0x40002345 ≡ 2)
    × (align_up_4k 4097 ≡ 8192)
    × (paging_map some clear frames 0xC0300000 0x40002000 0x800000 100
        ≡ some (0xffffffff, clear, frames))
unfolding paging_map
index_runs = (refl, refl, refl, refl)

first_free : HasFree frames
unfolding rotary_os.Base.Bits.bit
first_free = (0, omega arith, refl)

-- The kernel's directory, in which only the addresses from `kernel_base` on are mapped.
kernel_view : ℕ → Option ℕ
kernel_view a = if ltb a kernel_base then none else some (a - kernel_base)

kernel_view-low : (a : ℕ) → a < kernel_base → kernel_view a ≡ none
unfolding kernel_view
kernel_view-low a h = ground (arith, h)

kernel_view-directory : kernel_view 0xC0300000 ≡ some 0x300000
unfolding kernel_view
kernel_view-directory = refl

paging_map_faults_example :
    paging_map kernel_view clear frames 0xC0300000 0x40002000 0x800000 (2 * 4096) ≡ none
paging_map_faults_example =
    paging_map_faults kernel_view clear frames 0xC0300000 0x300000 0x40002000 0x800000 2
      kernel_view-low kernel_view-directory (record { fits = omega arith }) first_free (omega arith)
      (λ e. omega arith) (omega arith) (omega arith)
