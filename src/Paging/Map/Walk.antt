-- ===== src/Paging/Map/Walk.antt =====
-- How the processor walks the tables that `paging_map` of arch/x86/kernel/paging.c builds.
use rotary_os.Base.{
  ℕ, zero, suc, ◌+◌, ◌*◌, ◌/◌, ◌%◌, ◌^◌, ◌≤◌, ◌<◌, ◌≡◌, ◌≢◌, ◌⊎◌, inl, inr, refl, ap, arith, ◌==◌,
  if◌then◌else◌, Option, none, some, update, update_same, update_other, leb-cases,
}
use mathlib.Core.Path.{◌∙◌}
use rotary_os.Base.Bits.{bit_and-low_mask}
use rotary_os.Heap.{Mem}
use rotary_os.Paging.{init_entries, set_flags, entry_at}
use rotary_os.Paging.Map.{directory_entry, table_entry, page_directory_index, page_table_index}

-- The physical address that the directory gives a virtual address, through a page of 4 MiB or
-- through a table, and `none` where it gives none.
pub walk : Mem → (pd v : ℕ) → Option ℕ
walk m pd v =
    let e = m (pd + v / 2 ^ 22 * 4) in
    let w = m (e / 4096 * 4096 + v / 4096 % 1024 * 4) in
    if e % 2 == 0
    then none
    else if e / 128 % 2 == 1
    then some (e / 2 ^ 22 * 2 ^ 22 + v % 2 ^ 22)
    else if w % 2 == 0
    then none
    else some (w / 4096 * 4096 + v % 4096)

-- Entry `d` of the directory leads to a table.
abbrev pub IsTable : Mem → (pd d : ℕ) → Type 0
IsTable m pd d = (m (pd + d * 4) % 2 ≡ 1) × (m (pd + d * 4) / 128 % 2 ≡ 0)

abbrev pub table_of : Mem → (pd d : ℕ) → ℕ
table_of m pd d = m (pd + d * 4) / 4096 * 4096

-- Two memories give an address the same page if the entry of the directory is the same, and the entry of
-- the table where there is one.
pub walk_eq :
    (m n : Mem) (pd v : ℕ)
    → n (pd + v / 2 ^ 22 * 4) ≡ m (pd + v / 2 ^ 22 * 4)
    → (IsTable m pd (v / 2 ^ 22)
        → n (table_of m pd (v / 2 ^ 22) + v / 4096 % 1024 * 4)
          ≡ m (table_of m pd (v / 2 ^ 22) + v / 4096 % 1024 * 4))
    → walk n pd v ≡ walk m pd v
unfolding walk
walk_eq m n pd v e h = rw e (ground (arith, h))

pub walk_absent : (m : Mem) (pd v : ℕ) → m (pd + v / 2 ^ 22 * 4) % 2 ≡ 0 → walk m pd v ≡ none
unfolding walk
walk_absent m pd v h = ground (arith, h)

pub walk_empty :
    (m : Mem) (pd v : ℕ)
    → IsTable m pd (v / 2 ^ 22)
    → m (table_of m pd (v / 2 ^ 22) + v / 4096 % 1024 * 4) % 2 ≡ 0
    → walk m pd v ≡ none
unfolding walk
walk_empty m pd v (a, b) h = ground (arith, a, b, h)

pub walk_page :
    (m : Mem) (pd v w : ℕ)
    → IsTable m pd (v / 2 ^ 22)
    → m (table_of m pd (v / 2 ^ 22) + v / 4096 % 1024 * 4) ≡ w
    → w % 2 ≡ 1
    → walk m pd v ≡ some (w / 4096 * 4096 + v % 4096)
unfolding walk
walk_page m pd v w (a, b) e h = ground (arith, a, b, e, h)

-- The indices that the code takes of an address.
pub directory_index_lem : (v : ℕ) → v < 2 ^ 32 → page_directory_index v ≡ v / 2 ^ 22
directory_index_lem v h = omega (arith, bit_and-low_mask 10 (v / 2 ^ 22))

pub table_index_lem : (v : ℕ) → page_table_index v ≡ v / 4096 % 1024
table_index_lem v = bit_and-low_mask 10 (v / 4096)

-- The entries that the code writes.
pub directory_entry_fields :
    (w t : ℕ)
    → t % 4096 ≡ 0
    → t < 2 ^ 32
    → (directory_entry w t % 2 ≡ 1)
      × (directory_entry w t / 128 % 2 ≡ w / 128 % 2)
      × (directory_entry w t / 4096 * 4096 ≡ t)
directory_entry_fields w t a b = (omega arith, omega arith, omega arith)

pub table_entry_fields :
    (w p : ℕ)
    → p < 2 ^ 32
    → (table_entry w p % 2 ≡ 1) × (table_entry w p / 4096 * 4096 ≡ p / 4096 * 4096)
table_entry_fields w p b = (omega arith, omega arith)

-- The memory around a table stays when its entries are cleared, and these are absent then.
pub init_entries_outside :
    (n : ℕ) (m : Mem) (t i a : ℕ)
    → i + n ≤ 1024
    → t + 4096 ≤ 2 ^ 32
    → (a < t) ⊎ (t + 4096 ≤ a)
    → init_entries n m t i a ≡ m a
unfolding init_entries
init_entries_outside zero m t i a b f o = refl
init_entries_outside (suc n) m t i a b f o =
    let apart : a ≢ entry_at t i = omega (arith, o) in
    init_entries_outside n (update m (entry_at t i) (set_flags (m (entry_at t i)) 0 1 0)) t (i + 1)
      a (omega arith) f o
    ∙ update_other m (entry_at t i) a (set_flags (m (entry_at t i)) 0 1 0) apart

-- Clearing from entry `i` on keeps the entries before it.
init_entries_kept :
    (n : ℕ) (m : Mem) (t i j : ℕ)
    → i + n ≤ 1024
    → t + 4096 ≤ 2 ^ 32
    → j < i
    → init_entries n m t i (t + j * 4) ≡ m (t + j * 4)
unfolding init_entries
init_entries_kept zero m t i j b f l = refl
init_entries_kept (suc n) m t i j b f l =
    let apart : t + j * 4 ≢ entry_at t i = omega arith in
    init_entries_kept n (update m (entry_at t i) (set_flags (m (entry_at t i)) 0 1 0)) t (i + 1) j
      (omega arith) f (omega arith)
    ∙ update_other m (entry_at t i) (t + j * 4) (set_flags (m (entry_at t i)) 0 1 0) apart

pub init_entries_absent :
    (n : ℕ) (m : Mem) (t i j : ℕ)
    → i + n ≤ 1024
    → t + 4096 ≤ 2 ^ 32
    → i ≤ j
    → j < i + n
    → init_entries n m t i (t + j * 4) % 2 ≡ 0
unfolding init_entries
init_entries_absent zero m t i j b f l h = absurd (omega arith)
init_entries_absent (suc n) m t i j b f l h =
    let written = set_flags (m (entry_at t i)) 0 1 0 in
    let place : entry_at t i ≡ t + i * 4 = omega arith in
    elim (leb-cases j i) [
      | inl first ↦
          let e : j ≡ i = omega arith in
          rw e (
            omega (
              arith,
              init_entries_kept n (update m (entry_at t i) written) t (i + 1) i (omega arith) f
                  (omega arith),
              update_same m (entry_at t i) written,
              place,
              ap (update m (entry_at t i) written) place,
            ))
      | inr later ↦
          init_entries_absent n (update m (entry_at t i) written) t (i + 1) j (omega arith) f
            (omega arith) (omega arith)
    ]
