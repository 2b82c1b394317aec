-- ===== src/Paging/Map.antt =====
-- `paging_map` of arch/x86/kernel/paging.c, and the calls of it in kernel/vmm.c. The memory is that at physical
-- addresses, its places; `translate` gives the place of the page that a pointer of the code leads to, and `none`
-- where nothing is mapped.
pub mod Flat
pub mod Faults
pub mod Walk
pub mod Tree
pub mod Written
pub mod Mapped
pub mod Range
mod Tests
use rotary_os.Base.{
  ℕ, zero, suc, ◌+◌, ◌-◌, ◌*◌, ◌/◌, ◌%◌, ◌^◌, Bool, true, false, Option, none, some, ◌==◌, not,
  if◌then◌else◌, add32, mul32, not32, update, bit_and, shr,
}
use rotary_os.Heap.{Mem, heap_max_size, header_size, trailer_size}
use rotary_os.Pmm.{Pmm, alloc_frame}
use rotary_os.Paging.{
  entry_at, set_flags, set_address, is_4k_aligned, paging_init_table, paging_load_directory,
  vir_to_phy,
}

abbrev pub page_directory_index : ℕ → ℕ
page_directory_index x = bit_and (shr x 22) 0x3ff

abbrev pub page_table_index : ℕ → ℕ
page_table_index x = bit_and (shr x 12) 0x3ff

abbrev pub align_up_4k : ℕ → ℕ
align_up_4k value = bit_and (add32 value 0xfff) (not32 0xfff)

-- `present`, bit 0 of an entry.
abbrev pub set_present : ℕ → ℕ → ℕ
set_present w p = w / 2 * 2 + p

-- The entry of the directory for a new table: the assignments in their order.
abbrev pub directory_entry : (w page_table : ℕ) → ℕ
directory_entry w page_table = set_present (set_address w (page_table / 2 ^ 12)) 1

-- The frame at `page_table` as a new table for the directory entry at the place `e`: the place of the table and the
-- memory. A page fault ends in `none`.
pub new_table : (ℕ → Option ℕ) → Mem → (e page_table : ℕ) → Option (ℕ × Mem)
new_table translate m e page_table = elim (translate page_table) [
  | none ↦ none
  | some table ↦
      let m₁ = (paging_init_table m table).1 in
      some (table, update m₁ e (directory_entry (m₁ e) page_table))
]

-- The place of the table of an entry of the directory at the place `directory`, a new table if there is none.
pub table_for : (ℕ → Option ℕ) → Mem → Pmm → (directory dir_index : ℕ) → Option (ℕ × Mem × Pmm)
table_for translate m s directory dir_index =
    let e = entry_at directory dir_index in
    if m e % 2 == 0
    then elim (new_table translate m e (alloc_frame s).0) [
      | none ↦ none
      | some (table, m₁) ↦ some (table, m₁, (alloc_frame s).1)
    ]
    else elim (translate (m e / 4096 % 2 ^ 20 * 4096 % 2 ^ 32)) [
      | none ↦ none
      | some table ↦ some (table, m, s)
    ]

-- The entry of a table for a page: the assignments in their order.
abbrev pub table_entry : (w physical_addr : ℕ) → ℕ
table_entry w physical_addr = set_address (set_flags w 1 1 0) (physical_addr / 2 ^ 12)

-- One round of the loop of `paging_map`.
pub map_page :
    (ℕ → Option ℕ)
    → Mem
    → Pmm
    → (page_directory virtual_addr physical_addr : ℕ) → Option (Mem × Pmm)
map_page translate m s page_directory virtual_addr physical_addr = elim (translate page_directory) [
  | none ↦ none
  | some directory ↦ elim (table_for translate m s directory (page_directory_index virtual_addr)) [
    | none ↦ none
    | some (table, m₁, s₁) ↦
        let e = entry_at table (page_table_index virtual_addr) in
        some (update m₁ e (table_entry (m₁ e) physical_addr), s₁)
  ]
]

pub map_pages :
    (ℕ → Option ℕ)
    → (rounds : ℕ) → Mem
    → Pmm
    → (page_directory virtual_addr physical_addr : ℕ) → Option (Mem × Pmm)
map_pages translate zero m s page_directory v p = some (m, s)
map_pages translate (suc n) m s page_directory v p =
    elim (map_page translate m s page_directory v p) [
      | none ↦ none
      | some (m₁, s₁) ↦ map_pages translate n m₁ s₁ page_directory (add32 v 4096) (add32 p 4096)
    ]

-- The result, 0 or -1, the memory and the frames; `none` for a page fault.
pub paging_map :
    (ℕ → Option ℕ)
    → Mem
    → Pmm
    → (page_directory virtual_addr physical_addr size : ℕ) → Option (ℕ × Mem × Pmm)
paging_map translate m s page_directory virtual_addr physical_addr size =
    if is_4k_aligned size
    then elim (map_pages translate (align_up_4k size / 4096) m s page_directory virtual_addr
        physical_addr) [ none ↦ none | some (m₁, s₁) ↦ some (0, m₁, s₁) ]
    else some (2 ^ 32 - 1, m, s)

pub vmm_map :
    (ℕ → Option ℕ)
    → Mem
    → Pmm
    → (vmm_current_pd virtual_addr physical_addr size : ℕ) → Option (ℕ × Mem × Pmm)
vmm_map translate m s vmm_current_pd virtual_addr physical_addr size =
    elim (paging_map translate m s vmm_current_pd virtual_addr physical_addr size) [
      | none ↦ none
      | some (result, m₁, s₁) ↦ some (0, m₁, s₁)
    ]

-- The loop of `vmm_alloc_pages`. The result is -1 where the code returns from it.
pub alloc_pages :
    (ℕ → Option ℕ)
    → (rounds : ℕ) → Mem
    → Pmm
    → (vmm_current_pd current_vaddr : ℕ) → Option (ℕ × Mem × Pmm)
alloc_pages translate zero m s vmm_current_pd current_vaddr = some (0, m, s)
alloc_pages translate (suc n) m s vmm_current_pd current_vaddr =
    let (phys_page_addr, s₁) = alloc_frame s in
    elim (phys_page_addr == 0) [
      | true ↦ some (2 ^ 32 - 1, m, s₁)
      | false ↦ elim (paging_map translate m s₁ vmm_current_pd current_vaddr phys_page_addr 4096) [
        | none ↦ none
        | some (result, m₂, s₂) ↦
            alloc_pages translate n m₂ s₂ vmm_current_pd (add32 current_vaddr 4096)
      ]
    ]

-- The result, the memory, the frames and `CR3`.
pub vmm_alloc_pages :
    (ℕ → Option ℕ)
    → Mem
    → Pmm
    → (cr3 vmm_current_pd virtual_addr size : ℕ) → Option (ℕ × Mem × Pmm × ℕ)
vmm_alloc_pages translate m s cr3 vmm_current_pd virtual_addr size =
    if size == 0
    then some (2 ^ 32 - 3, m, s, cr3)
    else elim (alloc_pages translate (align_up_4k size / 4096) m s vmm_current_pd virtual_addr) [
      | none ↦ none
      | some (result, m₁, s₁) ↦
          if not (result == 0)
          then some (result, m₁, s₁, cr3)
          else some (0, m₁, s₁, (paging_load_directory cr3 (vir_to_phy vmm_current_pd)).1)
    ]
