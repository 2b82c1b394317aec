-- ===== src/Heap/Sliver.antt =====
-- `kmalloc` of kernel/kheap.c on a free block that is larger than the request by less than the
-- 24 bytes of a header and a trailer.
use rotary_os.Base.{
  ℕ, ◌+◌, ◌-◌, ◌^◌, ◌≤◌, ◌<◌, ◌≡◌, ◌≢◌, inl, ◌∙◌, true, false, List, arith, ◌==◌, ltb, add32, sub32,
}
use rotary_os.Heap.{Mem, allocate_in, heap_update_block, next_at}
use rotary_os.Heap.Split.{heap_create_new_block-outside}
use rotary_os.Heap.Tiling.{Block, behind, Tiles, Tiles-le, BlockAt, cut}

-- The trailer that the wrapped size leads to stands behind the header's size field.
update_sliver :
    (m : Mem) (x old d : ℕ)
    → old + 24 ≡ 2 ^ 32 + d
    → 8 ≤ d
    → d < 24
    → x + 48 < 2 ^ 32
    → heap_update_block m x old 0 x ≡ old
unfolding heap_update_block
update_sliver m x old d e lo hi h = ground arith

-- The size that the code computes for the rest of the block wraps round.
sliver_size :
    (m : Mem) (e x size : ℕ)
    → x ≢ 0
    → x + 24 + m x ≤ e
    → e + 24 < 2 ^ 32
    → size + 8 ≤ m x
    → m x < size + 24
    → (allocate_in m size x).1 x ≡ 2 ^ 32 + m x - size - 24
unfolding allocate_in
sliver_size m e x size ne le h lo hi =
    rw (zero_test, size_test, large_test, new_addr, old_size)
      (heap_create_new_block-outside m₁ (x + (m x - size)) size 1 x (m₁ (next_at x)) x
          (omega (arith, lo, le, h)) (inl (omega (arith, lo)))
        ∙ update_sliver m x old (m x - size) (omega (arith, lo, hi)) (omega (arith, lo))
            (omega (arith, hi)) (omega (arith, le, h)))
  where
    old : ℕ
    old = 2 ^ 32 + m x - size - 24

    m₁ : Mem
    m₁ = heap_update_block m x old 0

    zero_test : (x == 0) ≡ false
    zero_test = ground (arith, ne)

    size_test : (m x == size) ≡ false
    size_test = ground (arith, lo)

    large_test : ltb size (m x) ≡ true
    large_test = ground (arith, lo)

    new_addr : sub32 (sub32 (add32 (add32 x 16) (m x)) 16) size ≡ x + (m x - size)
    new_addr = omega (arith, le, h, lo)

    old_size : sub32 (sub32 (sub32 (m x) 16) size) 8 ≡ old
    old_size = omega (arith, le, h, lo, hi)

-- Where a block of a row that ends more than 24 bytes below 4 GiB is larger than the rounded request
-- by 8 to 23 bytes, the part of `kmalloc` behind the search breaks the heap: no row of blocks that
-- fills the same memory has a header at the place of that block any more.
pub allocate_in_sliver :
    (m : Mem) (a : ℕ) (bs : List Block) (e x size : ℕ)
    → Tiles m a bs e
    → e + 24 < 2 ^ 32
    → BlockAt a bs x
    → x ≢ 0
    → size + 8 ≤ m x
    → m x < size + 24
    → (bs' : List Block) → BlockAt a bs' x
    → ¬ (Tiles (allocate_in m size x).1 a bs' e)
allocate_in_sliver m a bs e x size t h i ne lo hi bs' i' t' =
    let c = cut m a bs e x t i in
    let c' = cut (allocate_in m size x).1 a bs' e x t' i' in
    let le = Tiles-le m (behind x c.here) c.back e c.back_tiles in
    let le' = Tiles-le (allocate_in m size x).1 (behind x c'.here) c'.back e c'.back_tiles in
    let w = sliver_size m e x size ne (omega (arith, le, c.holds)) h lo hi in
    absurd (omega (arith, w, c'.holds, le', hi, h))
