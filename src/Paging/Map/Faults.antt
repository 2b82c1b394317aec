-- ===== src/Paging/Map/Faults.antt =====
-- `paging_map` of arch/x86/kernel/paging.c on the running kernel, whose directories map only the upper part of the
-- addresses.
use rotary_os.Base.{
  ℕ, zero, suc, ◌+◌, ◌*◌, ◌/◌, ◌%◌, ◌^◌, ◌≤◌, ◌<◌, ◌≡◌, inl, inr, refl, arith, true, ◌==◌, Option,
  none, some, bit_and, Bool-cases,
}
use rotary_os.Base.Bits.{bit_and-low_mask}
use rotary_os.Heap.{Mem}
use rotary_os.Pmm.{Pmm, alloc_frame}
use rotary_os.Pmm.Alloc.{IsRange, HasFree, alloc_frame-IsAllocated}
use rotary_os.Paging.{kernel_base, entry_at}
use rotary_os.Paging.Map.{
  new_table, table_for, map_page, map_pages, paging_map, align_up_4k, page_directory_index,
}
use rotary_os.Paging.Map.Range.{align_up_exact}

-- The pointer to a table that the code takes from an entry of the directory.
abbrev pub pointer_in : ℕ → ℕ
pointer_in w = w / 4096 % 2 ^ 20 * 4096 % 2 ^ 32

module _ (translate : ℕ → Option ℕ) (low : (a : ℕ) → a < kernel_base → translate a ≡ none) where
  table_for_faults :
      (m : Mem) (s : Pmm) (pd d : ℕ)
      → (m (entry_at pd d) % 2 ≡ 0 → (alloc_frame s).0 < kernel_base)
      → (m (entry_at pd d) % 2 ≡ 1 → pointer_in (m (entry_at pd d)) < kernel_base)
      → table_for translate m s pd d ≡ none
  unfolding table_for new_table
  table_for_faults m s pd d fresh old = elim (Bool-cases (m (entry_at pd d) % 2 == 0)) [
    | inl absent ↦ rw (absent, low (alloc_frame s).0 (fresh (ground arith))) refl
    | inr there ↦ rw (there, low (pointer_in (m (entry_at pd d))) (old (ground arith))) refl
  ]

-- On a kernel that maps nothing below `kernel_base` but has its directory mapped, with a free frame, with all frames
-- below `kernel_base`, and with the table of the address below it too if there is one, `paging_map` of 1 to 1024 pages
-- ends in a page fault.
pub paging_map_faults :
    (translate : ℕ → Option ℕ) (m : Mem) (s : Pmm) (page_directory directory v p n : ℕ)
    → ((a : ℕ) → a < kernel_base → translate a ≡ none)
    → translate page_directory ≡ some directory
    → IsRange s
    → HasFree s
    → s.memory_start + 4096 * s.frames_max ≤ kernel_base
    → (m (entry_at directory (page_directory_index v)) % 2 ≡ 1
        → pointer_in (m (entry_at directory (page_directory_index v))) < kernel_base)
    → 0 < n
    → n ≤ 1024
    → paging_map translate m s page_directory v p (n * 4096) ≡ none
unfolding paging_map map_pages map_page
paging_map_faults translate m s page_directory directory v p zero low at r has fit old pos b =
    absurd (omega arith)
paging_map_faults translate m s page_directory directory v p (suc k) low at r has fit old pos b =
    let mask : bit_and (suc k * 4096) 0xfff ≡ suc k * 4096 % 4096 =
      bit_and-low_mask 12 (suc k * 4096) in
    let aligned : (bit_and (suc k * 4096) 0xfff == 0) ≡ true = ground (arith, mask) in
    let size : align_up_4k (suc k * 4096) / 4096 ≡ suc k = align_up_exact (suc k) b in
    let (f, a) = alloc_frame-IsAllocated s r has in
    let frame : (alloc_frame s).0 < kernel_base = omega (arith, a.address, a.below, fit) in
    let fault =
      table_for_faults translate low m s directory (page_directory_index v) (λ e. frame) old in
    rw (aligned, size, at, fault, paging_map, map_pages, map_page) refl
