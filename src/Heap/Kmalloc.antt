-- ===== src/Heap/Kmalloc.antt =====
-- `kmalloc` of kernel/kheap.c on a heap that is a row of blocks.
use mathlib.Core.Path.{subst, sym}
use rotary_os.Base.{
  ℕ, ◌+◌, ◌-◌, ◌^◌, ◌≤◌, ◌<◌, ◌≡◌, ◌≢◌, ◌⊎◌, inl, inr, refl, true, false, List, [], ◌∷◌, ◌++◌, ◌==◌,
  ltb, arith, ◌∙◌, add32, sub32,
}
use rotary_os.Heap.{Mem, heap_update_block, heap_create_new_block, allocate_in, next_at}
use rotary_os.Heap.Tiling.{
  Block, block, Holds, behind, Tiles, Tiles-le, Tiles-frame, Tiles-append, Tiles-replace, BlockAt,
  BlockAt-retag,
}
use rotary_os.Heap.Split.{
  IsLink, heap_update_block_lem, heap_update_block-outside, heap_update_block-Holds,
  heap_create_new_block-outside, heap_create_new_block-Holds, heap_remove_free_block-Tiles,
}

-- Perfect fit: the block is marked used and taken off the list.
pub allocate_in_perfect :
    (m : Mem) (a : ℕ) (front : List Block) (here : Block) (back : List Block) (e x : ℕ)
    → Tiles m a front x
    → Holds m x here
    → Tiles m (behind x here) back e
    → e < 2 ^ 32
    → x ≢ 0
    → IsLink a (front ++ (here ∷ back)) (m (x + 8))
    → IsLink a (front ++ (here ∷ back)) (m (x + 12))
    → ((allocate_in m here.size x).0 ≡ x + 16)
      × Tiles (allocate_in m here.size x).1 a (front ++ (block here.size 1 ∷ back)) e
unfolding allocate_in
allocate_in_perfect m a front here back e x f (h0, h1, h2, h3) b bound ne prev next =
    rw (zero_test, size_test)
      (
        omega (arith, le),
        heap_remove_free_block-Tiles m₁ a row e x tiles₁ bound (omega (arith, le))
            (link 8 prev (kept 8 (omega arith) (omega arith)))
            (link 12 next (kept 12 (omega arith) (omega arith))),
      )
  where
    size : ℕ
    size = here.size

    row : List Block
    row = front ++ (block size 1 ∷ back)

    m₁ : Mem
    m₁ = heap_update_block m x size 1

    le : behind x here ≤ e
    le = Tiles-le m (behind x here) back e b

    small : x + 24 + size < 2 ^ 32
    small = omega (arith, le, bound)

    zero_test : (x == 0) ≡ false
    zero_test = ground (arith, ne)

    size_test : (m x == size) ≡ true
    size_test = ground (arith, h0)

    tiles₁ : Tiles m₁ a row e
    tiles₁ =
        Tiles-replace m m₁ a front (block size 1 ∷ []) back e x (behind x here) f b
          (heap_update_block-Holds m x size 1 small, refl)
          (λ y o. heap_update_block-outside m x size 1 y small o)

    kept : (k : ℕ) → 8 ≤ k → k < 16 → m₁ (x + k) ≡ m (x + k)
    kept k l u = rw (heap_update_block_lem m x size 1 (x + k) small) (ground arith)

    link :
        (k : ℕ)
        → IsLink a (front ++ (here ∷ back)) (m (x + k))
        → m₁ (x + k) ≡ m (x + k)
        → IsLink a row (m₁ (x + k))
    link k (inl z) q = inl (q ∙ z)
    link k (inr i) q = inr (
        subst (BlockAt a row) (sym q)
          (BlockAt-retag a front here (block size 1) back (m (x + k)) refl i))

-- A block that is larger by 24 bytes or more is split: the front part stays free and keeps its
-- place in the list, the back part is the new block.
pub allocate_in_split :
    (m : Mem) (a : ℕ) (front : List Block) (here : Block) (back : List Block) (e x size : ℕ)
    → Tiles m a front x
    → Holds m x here
    → Tiles m (behind x here) back e
    → e < 2 ^ 32
    → x ≢ 0
    → size + 24 ≤ here.size
    → ((allocate_in m size x).0 ≡ x + 16 + (here.size - size))
      × Tiles
          (allocate_in m size x).1
          a
          (front ++ (block (here.size - size - 24) 0 ∷ (block size 1 ∷ back)))
          e
      × ((allocate_in m size x).1 (x + 8) ≡ m (x + 8))
      × ((allocate_in m size x).1 (x + 12) ≡ m (x + 12))
unfolding allocate_in
allocate_in_split m a front here back e x size f (h0, h1, h2, h3) b bound ne large =
    rw (zero_test, size_test, large_test, new_addr, old_size)
      (
        omega (arith, le),
        tiles₂,
        kept 8 (omega arith) (omega arith),
        kept 12 (omega arith) (omega arith),
      )
  where
    old : ℕ
    old = here.size - size - 24

    x' : ℕ
    x' = x + (here.size - size)

    m₁ : Mem
    m₁ = heap_update_block m x old 0

    m₂ : Mem
    m₂ = heap_create_new_block m₁ x' size 1 x (m₁ (next_at x))

    le : behind x here ≤ e
    le = Tiles-le m (behind x here) back e b

    small : x + 24 + old < 2 ^ 32
    small = omega (arith, le, bound, large)

    small' : x' + 24 + size < 2 ^ 32
    small' = omega (arith, le, bound, large)

    zero_test : (x == 0) ≡ false
    zero_test = ground (arith, ne)

    size_test : (m x == size) ≡ false
    size_test = ground (arith, h0, large)

    large_test : ltb size (m x) ≡ true
    large_test = ground (arith, h0, large)

    new_addr : sub32 (sub32 (add32 (add32 x 16) (m x)) 16) size ≡ x'
    new_addr = omega (arith, h0, le, bound, large)

    old_size : sub32 (sub32 (sub32 (m x) 16) size) 8 ≡ old
    old_size = omega (arith, h0, le, bound, large)

    meet : x + 24 + old ≡ x'
    meet = omega (arith, large)

    end : x' + 24 + size ≡ behind x here
    end = omega (arith, large)

    free_part : Tiles m₂ x (block old 0 ∷ []) (x + 24 + old)
    free_part =
        Tiles-frame m₁ m₂ x (block old 0 ∷ []) (x + 24 + old)
          (heap_update_block-Holds m x old 0 small, refl)
          (λ y l u.
            heap_create_new_block-outside m₁ x' size 1 x (m₁ (next_at x)) y small'
              (inl (omega (arith, u, meet))))

    used_part : Tiles m₂ x' (block size 1 ∷ []) (x' + 24 + size)
    used_part = (heap_create_new_block-Holds m₁ x' size 1 x (m₁ (next_at x)) small', refl)

    pair : Tiles m₂ x (block old 0 ∷ (block size 1 ∷ [])) (behind x here)
    pair =
        Tiles-append m₂ x (block old 0 ∷ []) (x + 24 + old) (block size 1 ∷ []) (behind x here)
          free_part
          (subst (λ c. Tiles m₂ c (block size 1 ∷ []) (behind x here)) (sym meet)
            (subst (Tiles m₂ x' (block size 1 ∷ [])) end used_part))

    outside : (y : ℕ) → (y < x) ⊎ (behind x here ≤ y) → m₂ y ≡ m y
    outside y (inl o) =
        heap_create_new_block-outside m₁ x' size 1 x (m₁ (next_at x)) y small'
          (inl (omega (arith, o)))
        ∙ heap_update_block-outside m x old 0 y small (inl o)
    outside y (inr o) =
        heap_create_new_block-outside m₁ x' size 1 x (m₁ (next_at x)) y small'
          (inr (omega (arith, o, end)))
        ∙ heap_update_block-outside m x old 0 y small (inr (omega (arith, o, large)))

    tiles₂ : Tiles m₂ a (front ++ (block old 0 ∷ (block size 1 ∷ back))) e
    tiles₂ =
        Tiles-replace m m₂ a front (block old 0 ∷ (block size 1 ∷ [])) back e x (behind x here) f b
          pair outside

    kept : (k : ℕ) → 8 ≤ k → k < 16 → m₂ (x + k) ≡ m (x + k)
    kept k l u =
        heap_create_new_block-outside m₁ x' size 1 x (m₁ (next_at x)) (x + k) small'
          (inl (omega (arith, large, u)))
        ∙ (rw (heap_update_block_lem m x old 0 (x + k) small) (ground (arith, l, u)))
