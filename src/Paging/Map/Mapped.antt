-- ===== src/Paging/Map/Mapped.antt =====
-- What `paging_map` of arch/x86/kernel/paging.c maps.
use rotary_os.Base.{
  ℕ, ◌+◌, ◌*◌, ◌/◌, ◌%◌, ◌^◌, ◌≤◌, ◌<◌, ◌≡◌, ◌≢◌, ◌⊎◌, inl, inr, refl, sym, ap, arith, true, false,
  ◌==◌, some, update, update_same, update_other, bit_and,
}
use mathlib.Core.Path.{◌∙◌}
use rotary_os.Base.Bits.{bit_and-low_mask}
use rotary_os.Heap.{Mem}
use rotary_os.Pmm.{Pmm}
use rotary_os.Pmm.Alloc.{HasFree, alloc_frame-IsAllocated}
use rotary_os.Paging.{init_entries, paging_init_table, entry_at}
use rotary_os.Paging.Map.{directory_entry, table_entry}
use rotary_os.Paging.Map.Flat.{flat_new, flat_table, flat_page}
use rotary_os.Paging.Map.Walk.{
  walk, IsTable, table_of, directory_index_lem, table_index_lem, directory_entry_fields,
  table_entry_fields, init_entries_outside, init_entries_absent,
}
use rotary_os.Paging.Map.Tree.{IsTree, frame_place, grown-IsTree, grown_walk}
use rotary_os.Paging.Map.Written.{written-IsTree, written-IsTable, written_walk, written_page}

-- A table for entry `d`: the memory maps what it did.
record IsReady (m : Mem) (pd d : ℕ) (r : ℕ × Mem × Pmm) : Type 0 where
  tree : IsTree (r.1) (r.2) pd
  table : IsTable (r.1) pd d
  place : r.0 ≡ table_of (r.1) pd d
  same : (v : ℕ) → v < 2 ^ 32 → walk (r.1) pd v ≡ walk m pd v

init_table-memory :
    (m : Mem) (t : ℕ) → t % 4096 ≡ 0 → (paging_init_table m t).1 ≡ init_entries 1024 m t 0
unfolding paging_init_table
init_table-memory m t a =
    let low : bit_and t 0xfff ≡ t % 4096 = bit_and-low_mask 12 t in
    let aligned : (bit_and t 0xfff == 0) ≡ true = ground (arith, low, a) in rw aligned refl

module _ (m : Mem) (s : Pmm) (pd d : ℕ) (tree : IsTree m s pd) (below : d < 768) where
  flat_new-IsReady : m (pd + d * 4) % 2 ≡ 0 → HasFree s → IsReady m pd d (flat_new m s (pd + d * 4))
  unfolding flat_new
  flat_new-IsReady absent has =
      let (f, a) = alloc_frame-IsAllocated s (tree.range) has in
      let start = tree.start in
      let range = tree.range.fits in
      let aligned = tree.aligned in
      let fits = tree.fits in
      let room : f < s.frames_max = omega (arith, a.below) in
      let clear : t f % 4096 ≡ 0 = omega arith in
      let apart = tree.taken f room a.free in
      let plain = tree.plain d below in
      let old : cleared f (pd + d * 4) ≡ m (pd + d * 4) =
        init_entries_outside 1024 m (t f) 0 (pd + d * 4) (omega arith) (omega arith)
          (omega arith) in
      let entry : grown f (pd + d * 4) ≡ directory_entry (m (pd + d * 4)) (t f) =
        update_same (cleared f) (pd + d * 4) (directory_entry (cleared f (pd + d * 4)) (t f))
        ∙ ap (λ w. directory_entry w (t f)) old in
      let (b₀, b₁, b₂) = directory_entry_fields (m (pd + d * 4)) (t f) clear (omega arith) in
      let here : IsTable (grown f) pd d = rw entry (b₀, b₁ ∙ plain) in
      let place : table_of (grown f) pd d ≡ t f = rw entry b₂ in
      let far : (x : ℕ) → (x < t f) ⊎ (t f + 4096 ≤ x) → x ≢ pd + d * 4 → grown f x ≡ m x =
        λ x o ne.
          update_other (cleared f) (pd + d * 4) x (directory_entry (cleared f (pd + d * 4)) (t f))
            ne
          ∙ init_entries_outside 1024 m (t f) 0 x (omega arith) (omega arith) o in
      let empty : (i : ℕ) → i < 1024 → grown f (t f + i * 4) % 2 ≡ 0 = λ i l.
        let e =
          update_other (cleared f) (pd + d * 4) (t f + i * 4)
            (directory_entry (cleared f (pd + d * 4)) (t f)) (omega arith) in
        ap (λ w. w % 2) e
        ∙ init_entries_absent 1024 m (t f) 0 i (omega arith) (omega arith) (omega arith) l in
      rw (a.address, a.state, init_table-memory m (t f) clear)
        (record {
          tree = grown-IsTree m (grown f) s pd d f tree below absent room a.free here place far;
          table = here;
          place = sym place;
          same = grown_walk m (grown f) s pd d f tree below absent room a.free here place far empty;
        })
    where
      t : ℕ → ℕ
      t f = s.memory_start + 4096 * f

      cleared : ℕ → Mem
      cleared f = init_entries 1024 m (t f) 0

      grown : ℕ → Mem
      grown f = update (cleared f) (pd + d * 4) (directory_entry (cleared f (pd + d * 4)) (t f))

  flat_table-IsReady : HasFree s ⊎ IsTable m pd d → IsReady m pd d (flat_table m s pd d)
  unfolding flat_table
  flat_table-IsReady o =
      let fits = tree.fits in
      let e : entry_at pd d ≡ pd + d * 4 = omega arith in
      elim (parity (m (pd + d * 4))) [
        | inl absent ↦
            let go : (m (pd + d * 4) % 2 == 0) ≡ true = ground (arith, absent) in
            let has : HasFree s = elim o [
              | inl has ↦ has
              | inr there ↦ absurd (omega (arith, there.0))
            ] in
            rw (e, go) (flat_new-IsReady absent has)
        | inr present ↦
            let go : (m (pd + d * 4) % 2 == 0) ≡ false = ground (arith, present) in
            let there : IsTable m pd d = (present, tree.plain d below) in
            let (one, two) =
              frame_place s (table_of m pd d) tree.range tree.start
                (tree.tables d (omega arith) there) in
            rw (e, go)
              (record { tree = tree; table = there; place = omega arith; same = λ v b. refl })
      ]
    where
      parity : (w : ℕ) → (w % 2 ≡ 0) ⊎ (w % 2 ≡ 1)
      parity w = omega arith

-- Page `v` leads to the frame of `p`, and no other page leads elsewhere than before.
pub record IsPage (m : Mem) (pd v p : ℕ) (r : Mem × Pmm) : Type 0 where
  pub tree : IsTree (r.0) (r.1) pd
  pub table : IsTable (r.0) pd (v / 2 ^ 22)
  pub page : (u : ℕ) → u / 4096 ≡ v / 4096 → walk (r.0) pd u ≡ some (p / 4096 * 4096 + u % 4096)
  pub others : (u : ℕ) → u < 2 ^ 32 → u / 4096 ≢ v / 4096 → walk (r.0) pd u ≡ walk m pd u

pub flat_page-IsPage :
    (m : Mem) (s : Pmm) (pd v p : ℕ)
    → IsTree m s pd
    → v < 0xC0000000
    → p < 2 ^ 32
    → HasFree s ⊎ IsTable m pd (v / 2 ^ 22)
    → IsPage m pd v p (flat_page m s pd v p)
unfolding flat_page
flat_page-IsPage m s pd v p tree b c o =
    rw (directory_index_lem v (omega arith), table_index_lem v)
      (write (flat_table m s pd (v / 2 ^ 22))
        (flat_table-IsReady m s pd (v / 2 ^ 22) tree (omega arith) o))
  where
    write :
        (r : ℕ × Mem × Pmm)
        → IsReady m pd (v / 2 ^ 22) r
        → IsPage m pd v p (
          update
              (r.1)
              (entry_at (r.0) (v / 4096 % 1024))
              (table_entry ((r.1) (entry_at (r.0) (v / 4096 % 1024))) p),
          r.2,
        )
    write (t, n, s') h =
        let d = v / 2 ^ 22 in
        let i = v / 4096 % 1024 in
        let inside : i < 1024 = omega arith in
        let below : d < 1024 = omega arith in
        let (aligned, fits) =
          frame_place s' (table_of n pd d) h.tree.range h.tree.start
            (h.tree.tables d below h.table) in
        let plain : entry_at t i ≡ table_of n pd d + i * 4 = omega (arith, h.place) in
        let w = table_entry (n (table_of n pd d + i * 4)) p in
        let n' = update n (table_of n pd d + i * 4) w in
        let at = update_same n (table_of n pd d + i * 4) w in
        let far : (a : ℕ) → a ≢ table_of n pd d + i * 4 → n' a ≡ n a =
          λ a ne. update_other n (table_of n pd d + i * 4) a w ne in
        let (one, two) = table_entry_fields (n (table_of n pd d + i * 4)) p c in
        let frame = written_page n n' s' pd d i w h.tree below inside h.table at far in
        let other = written_walk n n' s' pd d i w h.tree below inside h.table at far in
        rw plain (record {
          tree = written-IsTree n n' s' pd d i w h.tree below inside h.table at far;
          table = written-IsTable n n' s' pd d i w h.tree below inside h.table at far;
          page = λ u e. frame u (omega arith) one ∙ ap (λ x. some (x + u % 4096)) two;
          others = λ u l ne. other u l (omega arith) ∙ h.same u l;
        })
