-- ===== src/Heap/Init.antt =====
-- `heap_init` of kernel/kheap.c sets up a well-formed heap.
use mathlib.Core.Path.{subst, sym}
use rotary_os.Base.{add32, ℕ, ◌+◌, ◌^◌, ◌<◌, ◌≡◌, inl, inr, refl, [], ◌∷◌, arith}
use rotary_os.Heap.{Mem, Heap, heap_init, heap_max_size, memset_zero}
use rotary_os.Heap.Best.{In}
use rotary_os.Heap.Tiling.{block, BlockAt}
use rotary_os.Heap.Contract.{IsHeap}

abbrev pub fresh_heap : Mem → ℕ → Heap
fresh_heap m start = record {
  mem = heap_init m start;
  start_vaddr = start;
  end_vaddr = start + heap_max_size + 24;
}

heap_init_words :
    (m : Mem) (start : ℕ)
    → start + heap_max_size + 24 < 2 ^ 32
    → (heap_init m start start ≡ heap_max_size)
      × (heap_init m start (start + 4) ≡ 0)
      × (heap_init m start (start + 8) ≡ 0)
      × (heap_init m start (start + 12) ≡ 0)
      × (heap_init m start (start + 16 + heap_max_size) ≡ heap_max_size)
      × (heap_init m start (start + 20 + heap_max_size) ≡ 0)
unfolding heap_init memset_zero
heap_init_words m start h =
    (ground arith, ground arith, ground arith, ground arith, ground arith, ground arith)

-- At any start above 0 whose heap ends below 4 GiB, whatever the memory held, `heap_init` leaves
-- one free block of `HEAP_MAX_SIZE` bytes that fills the heap, alone on the list.
pub heap_init_lem :
    (m : Mem) (start : ℕ)
    → 0 < start
    → start + heap_max_size + 24 < 2 ^ 32
    → IsHeap
        (fresh_heap m start)
        (block heap_max_size 0 ∷ [])
        (start + 24 + heap_max_size)
        (start ∷ [])
heap_init_lem m start pos h =
    let (w0, w4, w8, w12, w16, w20) = heap_init_words m start h in
    let next : add32 start 12 ≡ start + 12 = omega arith in
    record {
      tiles = ((w0, w4, w16, w20), refl);
      below = omega arith;
      chain = (refl, omega arith, rw next w12);
      blocks = λ x i. at_start x i;
      prev_links = λ x i. inl (subst (λ y. heap_init m start (y + 8) ≡ 0) (sym (only x i)) w8);
      next_links = λ x i. inl (subst (λ y. heap_init m start (y + 12) ≡ 0) (sym (only x i)) w12);
    }
  where
    only : (x : ℕ) → In x (start ∷ []) → x ≡ start
    only x (inl e) = e
    only x (inr i) = absurd i

    at_start : (x : ℕ) → In x (start ∷ []) → BlockAt start (block heap_max_size 0 ∷ []) x
    at_start x i = inl (only x i)

-- The memory in front of the heap stays.
pub heap_init_before :
    (m : Mem) (start a : ℕ)
    → start + heap_max_size + 24 < 2 ^ 32
    → a < start
    → heap_init m start a ≡ m a
unfolding heap_init memset_zero
heap_init_before m start a h l = ground arith
