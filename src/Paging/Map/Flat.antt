-- ===== src/Paging/Map/Flat.antt =====
-- `paging_map` of arch/x86/kernel/paging.c where every address is mapped to itself, without the page faults.
use rotary_os.Base.{ℕ, zero, suc, ◌*◌, ◌/◌, ◌%◌, ◌^◌, ◌==◌, if◌then◌else◌, add32, update}
use rotary_os.Heap.{Mem}
use rotary_os.Pmm.{Pmm, alloc_frame}
use rotary_os.Paging.{entry_at, paging_init_table}
use rotary_os.Paging.Map.{directory_entry, table_entry, page_directory_index, page_table_index}

-- A new table for the directory entry at `e`: its address, the memory and the frames.
unfoldable pub flat_new : Mem → Pmm → (e : ℕ) → ℕ × Mem × Pmm
flat_new m s e =
    let (page_table, s₁) = alloc_frame s in
    let m₁ = (paging_init_table m page_table).1 in
    (page_table, update m₁ e (directory_entry (m₁ e) page_table), s₁)

-- The table of a directory entry, a new one if there is none.
unfoldable pub flat_table : Mem → Pmm → (page_directory dir_index : ℕ) → ℕ × Mem × Pmm
flat_table m s page_directory dir_index =
    let e = entry_at page_directory dir_index in
    if m e % 2 == 0 then flat_new m s e else (m e / 4096 % 2 ^ 20 * 4096 % 2 ^ 32, m, s)

-- One round of the loop of the pages.
unfoldable pub flat_page : Mem → Pmm → (page_directory virtual_addr physical_addr : ℕ) → Mem × Pmm
flat_page m s page_directory virtual_addr physical_addr =
    let (page_table, m₁, s₁) = flat_table m s page_directory (page_directory_index virtual_addr) in
    let e = entry_at page_table (page_table_index virtual_addr) in
    (update m₁ e (table_entry (m₁ e) physical_addr), s₁)

unfoldable pub flat_pages :
    (rounds : ℕ) → Mem → Pmm → (page_directory virtual_addr physical_addr : ℕ) → Mem × Pmm
flat_pages zero m s page_directory v p = (m, s)
flat_pages (suc n) m s page_directory v p =
    let (m₁, s₁) = flat_page m s page_directory v p in
    flat_pages n m₁ s₁ page_directory (add32 v 4096) (add32 p 4096)
