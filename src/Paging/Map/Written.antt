-- ===== src/Paging/Map/Written.antt =====
-- An entry of a page table that `paging_map` of arch/x86/kernel/paging.c writes.
use rotary_os.Base.{ℕ, ◌+◌, ◌*◌, ◌/◌, ◌%◌, ◌^◌, ◌<◌, ◌≡◌, ◌≢◌, ◌⊎◌, inl, inr, ap, arith, some}
use rotary_os.Heap.{Mem}
use rotary_os.Pmm.{Pmm}
use rotary_os.Paging.Map.Walk.{walk, walk_eq, walk_page, IsTable, table_of}
use rotary_os.Paging.Map.Tree.{IsTree, frame_place}

-- `n` is the memory `m` with the word `w` as the entry `i` of the table of the directory entry `d`.
module _ (m n : Mem) (s : Pmm) (pd d i w : ℕ) (tree : IsTree m s pd) (below : d < 1024)
    (inside : i < 1024) (table : IsTable m pd d) (at : n (table_of m pd d + i * 4) ≡ w)
    (far : (a : ℕ) → a ≢ table_of m pd d + i * 4 → n a ≡ m a) where
  directory_same : (k : ℕ) → k < 1024 → n (pd + k * 4) ≡ m (pd + k * 4)
  directory_same k b =
      let apart = tree.outside d below table in
      let place =
        frame_place s (table_of m pd d) tree.range tree.start (tree.tables d below table) in
      let aligned = tree.aligned in far (pd + k * 4) (omega arith)

  pub written-IsTree : IsTree n s pd
  written-IsTree = record {
    range = tree.range;
    start = tree.start;
    aligned = tree.aligned;
    fits = tree.fits;
    taken = tree.taken;
    plain = λ k b. rw (directory_same k (omega arith)) (tree.plain k b);
    tables = λ k b. rw (directory_same k b) (tree.tables k b);
    outside = λ k b. rw (directory_same k b) (tree.outside k b);
    apart = λ k j b c. rw (directory_same k b, directory_same j c) (tree.apart k j b c);
  }

  pub written-IsTable : IsTable n pd d
  written-IsTable = rw (directory_same d below) table

  pub written_walk : (v : ℕ) → v < 2 ^ 32 → v / 4096 ≢ d * 1024 + i → walk n pd v ≡ walk m pd v
  written_walk v b ne = walk_eq m n pd v (directory_same (v / 2 ^ 22) (omega arith)) λ h.
      far (table_of m pd (v / 2 ^ 22) + v / 4096 % 1024 * 4) λ q. elim (same_or (v / 2 ^ 22)) [
        | inl e ↦
            let t : table_of m pd (v / 2 ^ 22) ≡ table_of m pd d = ap (table_of m pd) e in
            absurd (omega arith)
        | inr nd ↦
            let one =
              frame_place s (table_of m pd d) tree.range tree.start (tree.tables d below table) in
            let two =
              frame_place s (table_of m pd (v / 2 ^ 22)) tree.range tree.start
                (tree.tables (v / 2 ^ 22) (omega arith) h) in
            let three = tree.apart (v / 2 ^ 22) d (omega arith) below nd h table in
            absurd (omega arith)
      ]
    where
      same_or : (k : ℕ) → (k ≡ d) ⊎ (k ≢ d)
      same_or k = omega arith

  pub written_page :
      (v : ℕ)
      → v / 4096 ≡ d * 1024 + i
      → w % 2 ≡ 1
      → walk n pd v ≡ some (w / 4096 * 4096 + v % 4096)
  written_page v e o =
      let k : v / 2 ^ 22 ≡ d = omega arith in
      let j : v / 4096 % 1024 ≡ i = omega arith in
      let there : IsTable n pd (v / 2 ^ 22) = rw k written-IsTable in
      let word : n (table_of n pd (v / 2 ^ 22) + v / 4096 % 1024 * 4) ≡ w =
        rw (k, j, directory_same d below) at in
      walk_page n pd v w there word o
