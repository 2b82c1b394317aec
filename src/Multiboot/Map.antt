-- ===== src/Multiboot/Map.antt =====
-- `multiboot_parse` of kernel/multiboot.c: the choice of the memory for the frames. The structures of the
-- boot loader are words of memory, and a number of 64 bits is two of them.
pub mod Parse
pub mod Tests
use rotary_os.Base.{
  ℕ, zero, suc, ◌+◌, ◌*◌, ◌%◌, ◌^◌, Bool, ◌&&◌, not, leb, ltb, ◌==◌, if◌then◌else◌, add32, bit_and,
  Option, none, some,
}
use rotary_os.Heap.{Mem}
use rotary_os.Pmm.{Pmm, set_memory_range, align_4k}

-- `multiboot_memory_map_t`
pub record Region : Type 0 where
  pub size : ℕ
  pub addr : ℕ
  pub len : ℕ
  pub type : ℕ

unfoldable pub region_at : Mem → ℕ → Region
region_at m mmap = record {
  size = m mmap;
  addr = m (mmap + 4) + m (mmap + 8) * 2 ^ 32;
  len = m (mmap + 12) + m (mmap + 16) * 2 ^ 32;
  type = m (mmap + 20);
}

-- The end of a region, in 64 bits.
abbrev pub region_end : Region → ℕ
region_end r = (r.addr + r.len) % 2 ^ 64

-- The region is available and the end of the kernel lies in it.
unfoldable pub holds_kernel : (kernel_phys_end : ℕ) → Region → Bool
holds_kernel kernel_phys_end r =
    leb r.addr kernel_phys_end && (leb kernel_phys_end (region_end r) && (r.type == 1))

-- The end is converted to 32 bits.
pub use_region : (kernel_phys_end : ℕ) → Pmm → Region → Pmm
use_region kernel_phys_end s r =
    if holds_kernel kernel_phys_end r
    then set_memory_range s (align_4k kernel_phys_end) (region_end r % 2 ^ 32)
    else s

-- The loop over the regions up to the address `stop`; `none` when the fuel ends.
pub parse_map : (fuel : ℕ) → Mem → (kernel_phys_end mmap stop : ℕ) → Pmm → Option Pmm
parse_map zero m kernel_phys_end mmap stop s = none
parse_map (suc n) m kernel_phys_end mmap stop s =
    let rest =
      parse_map n m kernel_phys_end (add32 (add32 mmap (m mmap)) 4) stop
        (use_region kernel_phys_end s (region_at m mmap)) in
    if ltb mmap stop then rest else some s

-- `info` is the address of the `multiboot_info_t`, of which `flags`, `mmap_length` and `mmap_addr` are read.
unfoldable pub multiboot_parse :
    (fuel : ℕ) → Mem → (kernel_phys_end mboot_magic info : ℕ) → Pmm → Option (ℕ × Pmm)
multiboot_parse fuel m kernel_phys_end mboot_magic info s =
    if not (mboot_magic == 0x2BADB002)
    then some (0, s)
    else if bit_and (m info) 0x40 == 0
    then some (1, s)
    else elim (parse_map fuel m kernel_phys_end (m (info + 48))
        (add32 (m (info + 48)) (m (info + 44))) s) [ none ↦ none | some s' ↦ some (1, s') ]
