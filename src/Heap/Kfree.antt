-- ===== src/Heap/Kfree.antt =====
-- What `kfree` of kernel/kheap.c does to the row of blocks, by the neighbours of the freed block.
use rotary_os.Base.{
  ℕ, ◌+◌, ◌^◌, ◌≤◌, ◌<◌, ◌≡◌, ◌≢◌, inl, inr, refl, List, [], ◌∷◌, ◌++◌, ◌==◌, if◌then◌else◌, arith,
  Bool-cases, some,
}
use rotary_os.Base.Lists.{length, length-append}
use rotary_os.Heap.{Mem, Heap, kfree, heap_coalesce_free_block}
use rotary_os.Heap.Tiling.{Block, block, behind, Tiles, Tiles-append}
use rotary_os.Heap.Free.{AllSized}
use rotary_os.Heap.Linked.{Tiles-cut, linked, kfree-linked}
use rotary_os.Heap.Coalesce.{
  Between, keep_both, merge_next-Tiles, merge_both-Tiles, merge_prev-breaks,
}

-- The block `b` between the blocks `p` and `n` of the heap's row.
pub record IsInside (s : Heap) (front : List Block) (xp : ℕ) (p b n : Block) (back : List Block)
    (e : ℕ) : Type 0 where
  pub front_tiles : Tiles s.mem s.start_vaddr front xp
  pub tiles : Tiles s.mem xp (p ∷ (b ∷ (n ∷ back))) e
  pub below : e < 2 ^ 32
  pub bounds : behind xp p + 16 ≤ s.end_vaddr
  pub front_sized : AllSized front
  pub sized : AllSized (p ∷ (b ∷ (n ∷ [])))

-- The blocks in the place of `p`, the freed block of `size` bytes, and `n`.
abbrev pub freed : Block → ℕ → Block → List Block
freed p size n =
    if n.used == 0
    then (if p.used == 0
        then block (p.size + 24 + (size + 24 + n.size)) 0 ∷ []
        else p ∷ (block (size + 24 + n.size) 0 ∷ []))
    else p ∷ (block size 0 ∷ (n ∷ []))

AllSized-append : (xs ys : List Block) → AllSized xs → AllSized ys → AllSized (xs ++ ys)
AllSized-append [] ys h k = k
AllSized-append (x ∷ xs) ys (h, hs) k = (h, AllSized-append xs ys hs k)

module _ (s : Heap) (front : List Block) (xp : ℕ) (p b n : Block) (back : List Block) (e : ℕ)
    (v : IsInside s front xp p b n back e) where
  abbrev handed : Mem
  handed = linked s.mem s.start_vaddr (front ++ (p ∷ [])) (behind xp p)

  row : Tiles s.mem s.start_vaddr (front ++ (p ∷ [])) (behind xp p)
  row =
      Tiles-append s.mem s.start_vaddr front xp (p ∷ []) (behind xp p) v.front_tiles
        (v.tiles.0, refl)

  run :
      (fuel : ℕ)
      → length front + 1 < fuel
      → (kfree fuel s (behind xp p + 16)
          ≡ some (1, record s { mem = heap_coalesce_free_block handed (behind xp p) }))
        × Between handed s.start_vaddr front xp p b.size n back e
  run fuel enough =
      let (result, r) =
        kfree-linked fuel s (front ++ (p ∷ [])) (behind xp p) b (n ∷ back) e
          (record { front_tiles = row; holds = v.tiles.1.0; back_tiles = v.tiles.1.1 }) v.below
          v.bounds (AllSized-append front (p ∷ []) v.front_sized (v.sized.0, tt)) v.sized.1.0
          (omega (arith, length-append front (p ∷ []), enough)) in
      let (l, o) =
        Tiles-cut s.mem handed s.start_vaddr front xp (p ∷ []) (behind xp p) v.front_tiles
          r.front_tiles in
      (
        result,
        record {
          front_tiles = l;
          prev_holds = o.0;
          holds = r.holds;
          next_holds = r.back_tiles.0;
          back_tiles = r.back_tiles.1;
          below = v.below;
          sized = v.sized.0;
          next_sized = v.sized.1.1.0;
        },
      )

  pub kfree_inside :
      (fuel : ℕ)
      → length front + 1 < fuel
      → (n.used ≢ 0 → p.used ≢ 0)
      → Tiles
          (heap_coalesce_free_block handed (behind xp p))
          s.start_vaddr
          (front ++ (freed p b.size n ++ back))
          e
  kfree_inside fuel enough sound =
      let w = (run fuel enough).1 in
      elim (Bool-cases (n.used == 0)) [
        | inl nf ↦ elim (Bool-cases (p.used == 0)) [
          | inl pf ↦
              rw (nf, pf)
                (merge_both-Tiles handed s.start_vaddr front xp p b.size n back e w (ground arith)
                  (ground arith))
          | inr pu ↦
              rw (nf, pu)
                (merge_next-Tiles handed s.start_vaddr front xp p b.size n back e w (ground arith)
                  (ground arith))
        ]
        | inr nu ↦
            let used : n.used ≢ 0 = ground arith in
            rw (nu, keep_both handed s.start_vaddr front xp p b.size n back e w (sound used) used)
              (Tiles-append handed s.start_vaddr front xp
                ((p ∷ (block b.size 0 ∷ (n ∷ []))) ++ back) e w.front_tiles
                (w.prev_holds, (w.holds, (w.next_holds, w.back_tiles))))
      ]

-- `kfree` of a block between two others of a well-formed row, where neither it nor the one behind it nor any block in
-- front has size 0 and the fuel exceeds the number of those in front, ends and returns 1. If the block in front is in use, or the
-- one behind is free too, the heap is again a well-formed row of blocks over the same memory: the
-- freed block is free, merged with the block behind if that is free, and then with the block in
-- front if that is free.
pub kfree_lem :
    (fuel : ℕ) (s : Heap) (front : List Block) (xp : ℕ) (p b n : Block) (back : List Block) (e : ℕ)
    → IsInside s front xp p b n back e
    → length front + 1 < fuel
    → (n.used ≢ 0 → p.used ≢ 0)
    → (m : Mem) × (kfree fuel s (behind xp p + 16) ≡ some (1, record s { mem = m }))
      × Tiles m s.start_vaddr (front ++ (freed p b.size n ++ back)) e
kfree_lem fuel s front xp p b n back e v enough sound = (
  heap_coalesce_free_block (handed s front xp p b n back e v) (behind xp p),
  (run s front xp p b n back e v fuel enough).0,
  kfree_inside s front xp p b n back e v fuel enough sound,
)

-- `kfree` of a block with a free block in front and a used one behind, in a well-formed row where neither it nor the
-- one behind it nor any block in front has size 0, and with fuel for more than the blocks in front, ends and returns
-- 1: the used block's header still says that it is in use, and its trailer says that it is free and has the size of the merged block.
-- So that block's header and trailer no longer agree.
pub kfree_breaks_next :
    (fuel : ℕ) (s : Heap) (front : List Block) (xp : ℕ) (p b n : Block) (back : List Block) (e : ℕ)
    → IsInside s front xp p b n back e
    → length front + 1 < fuel
    → p.used ≡ 0
    → n.used ≢ 0
    → (m : Mem) × (kfree fuel s (behind xp p + 16) ≡ some (1, record s { mem = m }))
      × (m (behind xp p + 24 + b.size + 4) ≡ n.used)
      × (m (behind xp p + 24 + b.size + 20 + n.size) ≡ 0)
      × (m (behind xp p + 24 + b.size + 16 + n.size) ≡ p.size + 24 + b.size)
kfree_breaks_next fuel s front xp p b n back e v enough pf nu =
    let (result, w) = run s front xp p b n back e v fuel enough in
    let (h, t, z) =
      merge_prev-breaks (handed s front xp p b n back e v) s.start_vaddr front xp p b.size n back e
        w pf nu in
    (heap_coalesce_free_block (handed s front xp p b n back e v) (behind xp p), result, h, t, z)
