-- ===== src/Paging.antt =====
-- The page directories of arch/x86/kernel/paging.c and kernel/vmm.c. A directory is 1024 words of
-- memory, and a bit field of an entry is its bits of the word.
pub mod Kernel
pub mod Map
mod Tests
use rotary_os.Base.{
  ℕ, zero, suc, ◌+◌, ◌-◌, ◌*◌, ◌/◌, ◌%◌, ◌^◌, Bool, Option, ◌==◌, not, if◌then◌else◌, add32, sub32,
  mul32, update, bit_and,
}
use rotary_os.Heap.{Mem}

-- `PHY_TO_VIR` and `VIR_TO_PHY`
abbrev pub kernel_base : ℕ
kernel_base = 0xC0000000

abbrev pub phy_to_vir : ℕ → ℕ
phy_to_vir a = add32 a kernel_base

abbrev pub vir_to_phy : ℕ → ℕ
vir_to_phy a = sub32 a kernel_base

-- `IS_4K_ALIGNED`
abbrev pub is_4k_aligned : ℕ → Bool
is_4k_aligned a = bit_and a 0xfff == 0

-- `present`, `writable` and `user` are the bits 0, 1 and 2 of an entry, `page_size` is bit 7 and
-- `address` the bits from 12 on.
abbrev pub set_flags : ℕ → (present writable user : ℕ) → ℕ
set_flags w p wr u = w / 8 * 8 + u * 4 + wr * 2 + p

abbrev pub set_page_size : ℕ → ℕ → ℕ
set_page_size w v = w / 256 * 256 + v * 128 + w % 128

abbrev pub set_address : ℕ → ℕ → ℕ
set_address w a = a % 2 ^ 20 * 4096 + w % 4096

abbrev pub entry_at : ℕ → ℕ → ℕ
entry_at pd i = add32 pd (mul32 i 4)

-- The loop over the entries from `i` on.
pub init_entries : (rounds : ℕ) → Mem → (pd i : ℕ) → Mem
init_entries zero m pd i = m
init_entries (suc n) m pd i =
    init_entries n (update m (entry_at pd i) (set_flags (m (entry_at pd i)) 0 1 0)) pd (i + 1)

-- The result, 0 or -1, and the memory.
pub paging_init_directory : Mem → ℕ → ℕ × Mem
paging_init_directory m pd =
    if is_4k_aligned pd then (0, init_entries 1024 m pd 0) else (2 ^ 32 - 1, m)

pub paging_init_table : Mem → ℕ → ℕ × Mem
paging_init_table m page_table =
    if is_4k_aligned page_table then (0, init_entries 1024 m page_table 0) else (2 ^ 32 - 1, m)

-- `CR3` of the processor, which holds the address of the directory in use. The result, 0 or -1.
unfoldable pub paging_load_directory : (cr3 : ℕ) → ℕ → ℕ × ℕ
paging_load_directory cr3 pd = if is_4k_aligned pd then (0, pd) else (2 ^ 32 - 1, cr3)

-- One round of `vmm_map_kernel`: the assignments in their order.
abbrev pub kernel_entry : ℕ → ℕ → ℕ
kernel_entry w current_addr =
    set_address (set_page_size (set_flags w 1 1 0) 1) (current_addr / 2 ^ 12)

pub map_entries : (rounds : ℕ) → Mem → (pd i current_addr : ℕ) → Mem
map_entries zero m pd i current_addr = m
map_entries (suc n) m pd i current_addr =
    map_entries n (update m (entry_at pd i) (kernel_entry (m (entry_at pd i)) current_addr)) pd
      (i + 1) (add32 current_addr (4096 * 1024))

-- `leaf1_edx` is what CPUID reported; bit 3 is `CPUID_FEAT_EDX_PSE`.
pub cpuid_check_pse : ℕ → ℕ
cpuid_check_pse leaf1_edx = bit_and leaf1_edx 8

pub vmm_map_kernel : (leaf1_edx : ℕ) → Mem → ℕ → ℕ × Mem
vmm_map_kernel leaf1_edx m pd =
    (1, if not (cpuid_check_pse leaf1_edx == 0) then map_entries 256 m pd 768 0 else m)
