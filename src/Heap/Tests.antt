-- ===== src/Heap/Tests.antt =====
-- Runs of kernel/kheap.c on small heaps, and its theorems at these.
use rotary_os.Base.{
  ℕ, ◌+◌, ◌-◌, ◌≡◌, ◌⊎◌, inl, inr, refl, List, [], ◌∷◌, ◌==◌, if◌then◌else◌, arith, Option, some,
  none,
}
use rotary_os.Heap.{
  Mem, Heap, kmalloc, kfree, search, better, heap_init, memset_zero, allocate_in, round_up_4,
  heap_update_block, heap_create_new_block, heap_remove_free_block, heap_max_size, mark_free,
  link_free, free_walk, heap_coalesce_free_block, coalesce_next, coalesce_prev,
}
use rotary_os.Heap.Best.{In}
use rotary_os.Heap.Tiling.{Block, block, behind, Tiles}
use rotary_os.Heap.Contract.{IsHeap, IsRefused, IsPlaced, NoSliver, kmalloc_lem}
use rotary_os.Heap.Init.{fresh_heap}
use rotary_os.Heap.Sliver.{allocate_in_sliver}
use rotary_os.Heap.Print.{heap_print, lines_of, heap_print_lem}
use rotary_os.Heap.Kfree.{IsInside, kfree_lem, kfree_breaks_next}

-- The tags of a row of blocks from `a` on; all other words are 0.
abbrev lay : ℕ → List Block → Mem
lay a [] y = 0
lay a (b ∷ bs) y =
    if y == a
    then b.size
    else if y == a + 4
    then b.used
    else if y == a + 16 + b.size
    then b.size
    else if y == a + 20 + b.size
    then b.used
    else lay (behind a b) bs y

abbrev heap_of : List Block → Heap
heap_of bs = record { mem = lay 0x1000 bs; start_vaddr = 0x1000; end_vaddr = 0x2000 }

abbrev ends_free : List Block
ends_free = block 16 1 ∷ (block 32 1 ∷ (block 8 0 ∷ []))

abbrev starts_free : List Block
starts_free = block 16 0 ∷ (block 32 1 ∷ (block 8 1 ∷ []))

abbrev one_free : List Block
one_free = block 100 0 ∷ []

abbrev pointer : Option (ℕ × Heap) → ℕ
pointer none = 1
pointer (some (p, s)) = p

abbrev after : Option (ℕ × Heap) → Heap
after none = heap_of []
after (some (p, s)) = s

abbrev words : Heap → ℕ → List ℕ
words s a = s.mem a ∷ (s.mem (a + 4) ∷ (s.mem (a + 8) ∷ (s.mem (a + 12) ∷ [])))

-- The end of the fresh heap is split off, a multiple of 4 is allocated, and 0 bytes are refused.
kmalloc_runs :
    (pointer (kmalloc 3 (fresh_heap (λ a. 0) 0x1000) 101) ≡ 0x1000 + 16 + heap_max_size - 104)
    × (pointer (kmalloc 3 (fresh_heap (λ a. 0) 0x1000) 0) ≡ 0)
    × (pointer (kmalloc 3 (fresh_heap (λ a. 0) 0x1000) 0x200000) ≡ 0)
unfolding kmalloc search better heap_init memset_zero allocate_in round_up_4 heap_update_block
    heap_create_new_block heap_remove_free_block
kmalloc_runs = (refl, refl, refl)

-- A freed block between a used and a free one takes in the free one.
kfree_runs :
    words (after (kfree 4 (heap_of ends_free) 0x1038)) 0x1028 ≡ 64 ∷ (0 ∷ (0x1000 ∷ (0 ∷ [])))
unfolding kfree mark_free memset_zero link_free free_walk heap_coalesce_free_block coalesce_next
    coalesce_prev
kfree_runs = refl

only : {x : ℕ} → In x (0x1000 ∷ []) → x ≡ 0x1000
only (inl e) = e
only (inr i) = absurd i

one_free-IsHeap : IsHeap (heap_of one_free) one_free (0x1000 + 124) (0x1000 ∷ [])
one_free-IsHeap = record {
  tiles = ((refl, refl, refl, refl), refl);
  below = omega arith;
  chain = (refl, omega arith, refl);
  blocks = λ x i. inl (only i);
  prev_links = λ x i. inl (rw (only i));
  next_links = λ x i. inl (rw (only i));
}

one_free-gap : NoSliver (heap_of one_free) (0x1000 ∷ []) 40
one_free-gap x i f = inr (rw (only i) (omega arith))

kmalloc_example :
    (r : ℕ × Heap) × (kmalloc 2 (heap_of one_free) 38 ≡ some r)
    × (IsRefused (heap_of one_free) (0x1000 ∷ []) 40 r
        ⊎ IsPlaced (heap_of one_free) one_free (0x1000 + 124) (0x1000 ∷ []) 40 r)
kmalloc_example =
    kmalloc_lem 2 38 (heap_of one_free) one_free (0x1000 + 124) (0x1000 ∷ []) one_free-IsHeap
      (omega arith) (omega arith) (omega arith) one_free-gap

-- 92 bytes of a block of 100.
allocate_in_sliver_example :
    ¬ (Tiles (allocate_in (lay 0x1000 one_free) 92 0x1000).1 0x1000 one_free (0x1000 + 124))
allocate_in_sliver_example =
    allocate_in_sliver (lay 0x1000 one_free) 0x1000 one_free (0x1000 + 124) 0x1000 92
      ((refl, refl, refl, refl), refl) (omega arith) (inl refl) (omega arith) (omega arith)
      (omega arith) one_free (inl refl)

ends_free-IsInside :
    IsInside (heap_of ends_free) [] 0x1000 (block 16 1) (block 32 1) (block 8 0) [] (0x1000 + 128)
ends_free-IsInside = record {
  front_tiles = refl;
  tiles = ((refl, refl, refl, refl), ((refl, refl, refl, refl), ((refl, refl, refl, refl), refl)));
  below = omega arith;
  bounds = omega arith;
  front_sized = tt;
  sized = omega arith;
}

kfree_example :
    (m : Mem) × (kfree 4 (heap_of ends_free) 0x1038
      ≡ some (1, record (heap_of ends_free) { mem = m }))
    × Tiles m 0x1000 (block 16 1 ∷ (block 64 0 ∷ [])) (0x1000 + 128)
kfree_example =
    kfree_lem 4 (heap_of ends_free) [] 0x1000 (block 16 1) (block 32 1) (block 8 0) []
      (0x1000 + 128) ends_free-IsInside (omega arith) (λ ne. absurd (ne refl))

starts_free-IsInside :
    IsInside (heap_of starts_free) [] 0x1000 (block 16 0) (block 32 1) (block 8 1) [] (0x1000 + 128)
starts_free-IsInside = record {
  front_tiles = refl;
  tiles = ((refl, refl, refl, refl), ((refl, refl, refl, refl), ((refl, refl, refl, refl), refl)));
  below = omega arith;
  bounds = omega arith;
  front_sized = tt;
  sized = omega arith;
}

-- The trailer of the used block of 8 bytes says that it is free and has 72.
kfree_breaks_next_example :
    (m : Mem) × (kfree 4 (heap_of starts_free) 0x1038
      ≡ some (1, record (heap_of starts_free) { mem = m }))
    × (m 0x1064 ≡ 1)
    × (m 0x107c ≡ 0)
    × (m 0x1078 ≡ 72)
kfree_breaks_next_example =
    kfree_breaks_next 4 (heap_of starts_free) [] 0x1000 (block 16 0) (block 32 1) (block 8 1) []
      (0x1000 + 128) starts_free-IsInside (omega arith) refl (omega arith)

abbrev all_used : List Block
all_used = block 16 1 ∷ (block 32 1 ∷ [])

heap_print_lem_example :
    heap_print 3 (heap_of (block 40 0 ∷ block 8 1 ∷ []))
    ≡ some
        (lines_of (heap_of (block 40 0 ∷ block 8 1 ∷ [])).mem 0x1000 (block 40 0 ∷ block 8 1 ∷ []))
heap_print_lem_example =
    heap_print_lem 3 (heap_of (block 40 0 ∷ block 8 1 ∷ [])) (block 40 0 ∷ block 8 1 ∷ []) 0x1060
      ((refl, refl, refl, refl), ((refl, refl, refl, refl), refl)) (omega arith) refl
      (omega arith, (omega arith, tt)) (omega arith)
