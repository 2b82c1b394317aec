-- ===== src/Kernel/Loaded.antt =====
-- The machine that `kernel_main` of kernel/main.c starts from, and the frames that it gets.
use rotary_os.Base.{
  ℕ, ◌+◌, ◌-◌, ◌*◌, ◌%◌, ◌^◌, ◌≤◌, ◌<◌, ◌≡◌, refl, sym, arith, false, add32, some, List,
}
use mathlib.Core.Path.{◌∙◌}
use rotary_os.Base.Bits.{bit}
use rotary_os.Base.Lists.{length}
use rotary_os.Pmm.{Pmm, initial, set_memory_range, align_4k}
use rotary_os.Pmm.Range.{set_memory_range-IsRange, align_4k_least}
use rotary_os.Multiboot.Map.{Region, region_end}
use rotary_os.Multiboot.Map.Parse.{IsMap, last_holding}
use rotary_os.Cpuid.{Leaf}
use rotary_os.Paging.{kernel_base}
use rotary_os.Vmm.Frames.{IsFilled}
use rotary_os.Task.{zero_task}
use rotary_os.Kernel.{Platform, Machine}

-- The kernel is started: the memory map of the boot loader is that of the regions, of which `r` holds the end of
-- the kernel and has 288 pages behind it; the processor has page size extensions; and the globals
-- are those of the image.
pub record IsLoaded (fuel : ℕ) (p : Platform) (info : ℕ) (m : Machine) (rs : List Region)
    (r : Region) : Type 0 where
  pub map_flag : bit (m.vmm.mem info) 6 ≡ 1
  pub regions :
      IsMap
        (m.vmm.mem)
        (m.vmm.mem (info + 48))
        (add32 (m.vmm.mem (info + 48)) (m.vmm.mem (info + 44)))
        rs
  pub enough : length rs < fuel
  pub two : 2 ≤ fuel
  pub holds : last_holding p.kernel_phys_end rs ≡ some r
  pub room : align_4k p.kernel_phys_end + 288 * 4096 ≤ region_end r % 2 ^ 32
  pub above : 0 < p.kernel_phys_end
  pub small : p.kernel_phys_end < 2 ^ 30 - 2 ^ 22
  pub linked : p.kernel_virt_end ≡ kernel_base + p.kernel_phys_end
  pub segment : p.tss_address < 2 ^ 32
  pub routines : (j : ℕ) → p.isr j < 2 ^ 32
  pub leaf : Leaf
  pub reported : p.cpuid 1 ≡ some leaf
  pub pages : bit leaf.edx 3 ≡ 1
  pub frames : m.vmm.pmm ≡ initial
  pub next_task : m.last_task_id ≡ 1
  pub no_tasks : (j : ℕ) → m.tasks j ≡ zero_task
  pub unlocked : m.task_lock ≡ false

-- The frames that the region gives.
abbrev pub frames_at : Platform → Region → Pmm
frames_at p r = set_memory_range initial (align_4k p.kernel_phys_end) (region_end r % 2 ^ 32)

pub frames_at-IsFilled :
    (fuel : ℕ) (p : Platform) (info : ℕ) (m : Machine) (rs : List Region) (r : Region)
    → IsLoaded fuel p info m rs r
    → IsFilled (frames_at p r) 0
      × (288 ≤ (frames_at p r).frames_max)
      × ((frames_at p r).memory_start ≡ align_4k p.kernel_phys_end)
unfolding set_memory_range
frames_at-IsFilled fuel p info m rs r h =
    let above = h.above in
    let small = h.small in
    let room = h.room in
    let up = align_4k_least p.kernel_phys_end (omega arith) in
    let (range, counted, free, inside, whole) =
      set_memory_range-IsRange (align_4k p.kernel_phys_end) (region_end r % 2 ^ 32) (omega arith)
        (omega arith) in
    (
      record {
        range = range;
        above = omega (arith, up);
        filled = λ g l. free g ∙ sym (ground arith);
      },
      omega arith,
      refl,
    )
