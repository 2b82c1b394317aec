-- ===== src/Vmm.antt =====
-- The start of the virtual memory manager: `vmm_init` of kernel/vmm.c.
pub mod Frames
pub mod Init
mod Tests
use rotary_os.Base.{ℕ, zero, suc, ◌-◌, ◌/◌, ◌^◌, ◌==◌, not, if◌then◌else◌, add32}
use rotary_os.Heap.{Mem, heap_init, heap_max_size, header_size, trailer_size, memset_zero}
use rotary_os.Pmm.{Pmm, alloc_frame, pmm_frame_size}
use rotary_os.Paging.{
  phy_to_vir, vir_to_phy, paging_init_directory, paging_load_directory, vmm_map_kernel,
}
use rotary_os.Paging.Map.{align_up_4k}

-- The memory, the frames, `CR3`, and the globals.
pub record Vmm : Type 0 where
  pub mem : Mem
  pub pmm : Pmm
  pub cr3 : ℕ
  pub vmm_current_pd : ℕ
  pub vmm_kernel_pd : ℕ
  pub heap_start_vaddr : ℕ
  pub heap_end_vaddr : ℕ

-- The loop of `vmm_init` over the pages of the heap, which takes frames and maps none of them. The
-- result is -1 where the code returns from it.
pub take_frames : (rounds : ℕ) → Pmm → ℕ × Pmm
take_frames zero s = (0, s)
take_frames (suc n) s =
    let (phys_page_addr, s₁) = alloc_frame s in
    let rest = take_frames n s₁ in if phys_page_addr == 0 then (2 ^ 32 - 1, s₁) else rest

-- The directory of the kernel, at `pd`.
pub init_kernel_directory : (leaf1_edx : ℕ) → Vmm → (pd : ℕ) → Vmm
init_kernel_directory leaf1_edx s pd =
    let m₁ = (paging_init_directory s.mem pd).1 in
    let m₂ = (vmm_map_kernel leaf1_edx m₁ pd).1 in
    record s { mem = m₂; cr3 = (paging_load_directory s.cr3 (vir_to_phy pd)).1 }

-- The heap behind the kernel, which ends at `kernel_virt_end`.
pub init_kernel_heap : (kernel_virt_end : ℕ) → Vmm → ℕ × Vmm
init_kernel_heap kernel_virt_end s =
    let heap_size = add32 (add32 heap_max_size header_size) trailer_size in
    let start = align_up_4k (add32 kernel_virt_end pmm_frame_size) in
    let (result, pmm₁) = take_frames (align_up_4k heap_size / 4096) s.pmm in
    let s₁ = record s {
      pmm = pmm₁;
      heap_start_vaddr = start;
      heap_end_vaddr = add32 start heap_size;
    } in
    if not (result == 0) then (result, s₁) else (1, record s₁ { mem = heap_init s.mem start })

pub vmm_init : (kernel_virt_end leaf1_edx : ℕ) → Vmm → ℕ × Vmm
vmm_init kernel_virt_end leaf1_edx s =
    let (frame, pmm₁) = alloc_frame s.pmm in
    let pd = phy_to_vir frame in
    let s₁ = record s {
      mem = memset_zero s.mem pd 4096;
      pmm = pmm₁;
      vmm_current_pd = pd;
      vmm_kernel_pd = pd;
    } in
    if pd == 0
    then (2 ^ 32 - 1, s₁)
    else init_kernel_heap kernel_virt_end (init_kernel_directory leaf1_edx s₁ pd)
