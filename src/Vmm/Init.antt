-- ===== src/Vmm/Init.antt =====
-- What `vmm_init` of kernel/vmm.c leaves: the kernel's directory, the heap behind it, and the frames under
-- both in use.
use rotary_os.Base.{
  ℕ, ◌+◌, ◌-◌, ◌*◌, ◌/◌, ◌%◌, ◌^◌, ◌≤◌, ◌<◌, ◌≡◌, ◌≢◌, refl, sym, arith, true, false, ltb, ◌==◌,
  add32, bit_and, [], ◌∷◌,
}
use mathlib.Core.Path.{◌∙◌}
use rotary_os.Base.Bits.{bit, bit_and-low_mask, bit_and-high_mask}
use rotary_os.Heap.{Mem, Heap, heap_init, heap_max_size, memset_zero}
use rotary_os.Heap.Tiling.{block}
use rotary_os.Heap.Contract.{IsHeap}
use rotary_os.Heap.Init.{heap_init_lem, heap_init_before}
use rotary_os.Pmm.{Pmm, alloc_frame, align_4k}
use rotary_os.Pmm.Bitmap.{is_used}
use rotary_os.Pmm.Search.{searched}
use rotary_os.Pmm.Range.{align_4k_least}
use rotary_os.Paging.{
  phy_to_vir, vir_to_phy, entry_at, paging_init_directory, paging_load_directory, vmm_map_kernel,
  kernel_base,
}
use rotary_os.Paging.Kernel.{IsTaskDirectory, map_kernel-IsTaskDirectory}
use rotary_os.Paging.Map.{align_up_4k}
use rotary_os.Vmm.{Vmm, vmm_init, init_kernel_directory, init_kernel_heap}
use rotary_os.Vmm.Frames.{IsFilled, IsTaken, alloc_frame-IsTaken, take_frames-IsTaken}

-- The heap of the kernel.
abbrev pub heap_of : Vmm → Heap
heap_of s = record { mem = s.mem; start_vaddr = s.heap_start_vaddr; end_vaddr = s.heap_end_vaddr }

-- The frames start at `p`. The directory is the first frame, which the kernel sees at `kernel_base + p`, and
-- the heap stands behind it on the 257 next ones; those 258 frames and no others are in use.
pub record IsStarted (p : ℕ) (s : Pmm) (r : ℕ × Vmm) : Type 0 where
  pub result : r.0 ≡ 1
  pub kernel_pd : r.1.vmm_kernel_pd ≡ kernel_base + p
  pub current_pd : r.1.vmm_current_pd ≡ kernel_base + p
  pub loaded : r.1.cr3 ≡ p
  pub directory : IsTaskDirectory (r.1.mem) (kernel_base + p)
  pub heap_start : r.1.heap_start_vaddr ≡ kernel_base + p + 4096
  pub heap :
      IsHeap
        (heap_of (r.1))
        (block heap_max_size 0 ∷ [])
        (r.1.heap_start_vaddr + 24 + heap_max_size)
        (r.1.heap_start_vaddr ∷ [])
  pub frames : IsTaken s 258 (r.1.pmm)
  pub apart :
      (f : ℕ)
      → f < r.1.pmm.frames_max
      → is_used (r.1.pmm) f ≡ false
      → r.1.heap_end_vaddr ≤ kernel_base + (r.1.pmm.memory_start + 4096 * f)

align_up_value : (x : ℕ) → x + 4096 ≤ 2 ^ 32 → align_up_4k x ≡ (x + 4095) / 4096 * 4096
align_up_value x h =
    let high = bit_and-high_mask 12 (x + 4095) (2 ^ 20 - 1) in
    let low = bit_and-low_mask 20 ((x + 4095) / 4096) in
    let sum : add32 x 4095 ≡ x + 4095 = omega arith in rw sum (omega (arith, high, low))

-- The heap starts a page behind the directory.
heap_place :
    (k : ℕ)
    → k < 2 ^ 30 - 2 ^ 22
    → align_up_4k (add32 (kernel_base + k) 4096) ≡ kernel_base + align_4k k + 4096
heap_place k h =
    let (above, whole, least) = align_4k_least k (omega arith) in
    let near = least ((k + 4095) / 4096 * 4096) (omega arith) (omega arith) in
    let sum : add32 (kernel_base + k) 4096 ≡ kernel_base + k + 4096 = omega arith in
    rw sum (omega (arith, align_up_value (kernel_base + k + 4096) (omega arith)))

-- A directory stays one when the memory at its entries stays.
IsTaskDirectory-same :
    (m n : Mem) (pd : ℕ)
    → pd + 4096 ≤ 2 ^ 32
    → ((a : ℕ) → a < pd + 4096 → n a ≡ m a)
    → IsTaskDirectory m pd
    → IsTaskDirectory n pd
IsTaskDirectory-same m n pd b e h = record {
  user_half = λ j l.
      let same : n (entry_at pd j) ≡ m (entry_at pd j) = e (entry_at pd j) (omega arith) in
      rw same (h.user_half j l);
  kernel_half = λ k l.
      let same : n (entry_at pd (768 + k)) ≡ m (entry_at pd (768 + k)) =
        e (entry_at pd (768 + k)) (omega arith) in
      rw same (h.kernel_half k l);
}

module _ (k : ℕ) (small : k < 2 ^ 30 - 2 ^ 22) where
  -- `init_kernel_heap` when the directory has taken the first frame.
  heap-IsStarted :
      (v : Vmm) (s : Pmm)
      → s.memory_start ≡ align_4k k
      → 258 ≤ searched s
      → IsTaken s 1 v.pmm
      → v.vmm_kernel_pd ≡ kernel_base + align_4k k
      → v.vmm_current_pd ≡ kernel_base + align_4k k
      → v.cr3 ≡ align_4k k
      → IsTaskDirectory v.mem (kernel_base + align_4k k)
      → IsStarted (align_4k k) s (init_kernel_heap (kernel_base + k) v)
  unfolding init_kernel_heap
  heap-IsStarted v s e b one kernel current cr3 dir =
      let (above, whole, least) = align_4k_least k (omega arith) in
      let near = least ((k + 4095) / 4096 * 4096) (omega arith) (omega arith) in
      let max = one.max in
      let (result, taken) = take_frames-IsTaken 257 v.pmm 1 one.now (omega (arith, max)) in
      let place = heap_place k small in
      let fits : kernel_base + align_4k k + 4096 + heap_max_size + 24 < 2 ^ 32 = omega arith in
      let fresh = heap_init_lem v.mem (kernel_base + align_4k k + 4096) (omega arith) fits in
      let start = kernel_base + align_4k k + 4096 in
      let stop : add32 start (heap_max_size + 24) ≡ start + heap_max_size + 24 = omega arith in
      let same = λ (a : ℕ) (l : a < kernel_base + align_4k k + 4096).
        heap_init_before v.mem start a fits l in
      rw (result, place, stop)
        (record {
          result = refl;
          kernel_pd = kernel;
          current_pd = current;
          loaded = cr3;
          directory =
              IsTaskDirectory-same v.mem (heap_init v.mem start) (kernel_base + align_4k k)
                (omega arith) same dir;
          heap_start = refl;
          heap = fresh;
          frames = record {
            now = taken.now;
            start = taken.start ∙ one.start;
            max = taken.max ∙ one.max;
          };
          apart = λ f l free.
              let taken_start = taken.start ∙ one.start ∙ e in
              let low : ltb f 258 ≡ false = sym (taken.now.filled f l) ∙ free in
              let high : 258 ≤ f = ground (arith, low) in omega arith;
        })

pub vmm_init-IsStarted :
    (k leaf1_edx : ℕ) (v : Vmm)
    → k < 2 ^ 30 - 2 ^ 22
    → v.pmm.memory_start ≡ align_4k k
    → IsFilled v.pmm 0
    → 258 ≤ searched v.pmm
    → bit leaf1_edx 3 ≡ 1
    → IsStarted (align_4k k) v.pmm (vmm_init (kernel_base + k) leaf1_edx v)
unfolding vmm_init init_kernel_directory paging_load_directory
vmm_init-IsStarted k leaf1_edx v small e none_used b p =
    let (above, whole, least) = align_4k_least k (omega arith) in
    let near = least ((k + 4095) / 4096 * 4096) (omega arith) (omega arith) in
    let (address, one) = alloc_frame-IsTaken v.pmm 0 none_used (omega arith) in
    let first : (alloc_frame v.pmm).0 ≡ align_4k k = omega arith in
    let pd : phy_to_vir (align_4k k) ≡ kernel_base + align_4k k = omega arith in
    let live : (kernel_base + align_4k k == 0) ≡ false = ground arith in
    let back : vir_to_phy (kernel_base + align_4k k) ≡ align_4k k = omega arith in
    let low : bit_and (align_4k k) 0xfff ≡ align_4k k % 4096 = bit_and-low_mask 12 (align_4k k) in
    let aligned : (bit_and (align_4k k) 0xfff == 0) ≡ true = ground (arith, low, whole) in
    let clear = memset_zero v.mem (kernel_base + align_4k k) 4096 in
    let dir =
      map_kernel-IsTaskDirectory leaf1_edx clear (kernel_base + align_4k k) (omega arith)
        (omega arith) p in
    let started = record v {
      mem =
          (vmm_map_kernel leaf1_edx (paging_init_directory clear (kernel_base + align_4k k)).1
            (kernel_base + align_4k k)).1;
      pmm = (alloc_frame v.pmm).1;
      cr3 = align_4k k;
      vmm_current_pd = kernel_base + align_4k k;
      vmm_kernel_pd = kernel_base + align_4k k;
    } in
    rw (first, pd, live, back, aligned)
      (heap-IsStarted k small started v.pmm e b one refl refl refl dir)

init_kernel_heap_answer :
    (kernel_virt_end : ℕ) (v : Vmm) → (init_kernel_heap kernel_virt_end v).0 ≢ 0
unfolding init_kernel_heap
init_kernel_heap_answer kernel_virt_end v = ground arith

-- The answer is never 0: the two failures are -1.
pub vmm_init_answer :
    (kernel_virt_end leaf1_edx : ℕ) (v : Vmm) → (vmm_init kernel_virt_end leaf1_edx v).0 ≢ 0
unfolding vmm_init
vmm_init_answer kernel_virt_end leaf1_edx v =
    let pd = phy_to_vir (alloc_frame v.pmm).0 in
    let s = record v {
      mem = memset_zero v.mem pd 4096;
      pmm = (alloc_frame v.pmm).1;
      vmm_current_pd = pd;
      vmm_kernel_pd = pd;
    } in
    ground (arith, init_kernel_heap_answer kernel_virt_end (init_kernel_directory leaf1_edx s pd))
