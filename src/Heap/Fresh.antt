-- ===== src/Heap/Fresh.antt =====
-- The first `kmalloc` of kernel/kheap.c on a heap that is one free block.
use mathlib.Core.Path.{subst, sym, ap}
use rotary_os.Base.{
  ℕ, ◌+◌, ◌-◌, ◌*◌, ◌/◌, ◌≤◌, ◌<◌, ◌≡◌, ◌≢◌, inl, inr, refl, false, List, [], ◌∷◌, ◌++◌, arith, ◌∙◌,
  some,
}
use rotary_os.Heap.{Heap, kmalloc, used_at}
use rotary_os.Heap.Best.{In, fits}
use rotary_os.Heap.Tiling.{Block, block, Tiles}
use rotary_os.Heap.Contract.{IsHeap, IsPlaced, kmalloc_lem}

-- The list cut in front of `here` has one element.
one_block :
    (b here : Block) (front back : List Block)
    → b ∷ [] ≡ front ++ (here ∷ back)
    → (front ≡ []) × (b ≡ here) × (back ≡ [])
one_block b here [] back e = (refl, cc, cc)
one_block b here (c ∷ []) back e = absurd cc
one_block b here (c ∷ d ∷ front) back e = absurd cc

module _ (s : Heap) (n e : ℕ) (v : IsHeap s (block n 0 ∷ []) e (s.start_vaddr ∷ [])) where
  first_words : (x : ℕ) → In x (s.start_vaddr ∷ []) → (s.mem x ≡ n) × (s.mem (used_at x) ≡ 0)
  first_words x (inl at) =
      let ((size, used, size_end, used_end), last) = v.tiles in
      let below = v.below in
      let next : used_at s.start_vaddr ≡ s.start_vaddr + 4 = omega arith in
      rw (at, next) (size, used)
  first_words x (inr i) = absurd i

  placed_fresh :
      (k : ℕ) (r : ℕ × Heap)
      → k + 24 ≤ n
      → IsPlaced s (block n 0 ∷ []) e (s.start_vaddr ∷ []) k r
      → (r.0 ≡ s.start_vaddr + 16 + (n - k))
        × (r.1.start_vaddr ≡ s.start_vaddr)
        × Tiles r.1.mem s.start_vaddr (block (n - k - 24) 0 ∷ (block k 1 ∷ [])) e
  placed_fresh k r room p =
      let (front, here, back) = one_block (block n 0) p.here p.front p.back p.before in
      let size : p.here.size ≡ n = sym (ap (λ b. b.size) here) in
      let first : s.start_vaddr ≡ p.x =
        subst (λ f. Tiles s.mem s.start_vaddr f p.x) front p.front_tiles in
      let rest : p.rest ≡ block (n - k - 24) 0 ∷ [] = elim (p.rest_lem) [
        | inl (whole, none) ↦ absurd (omega arith)
        | inr (part, one) ↦ one ∙ ap (λ z. block (z - k - 24) 0 ∷ []) size
      ] in
      let row : p.front ++ (p.rest ++ (block k 1 ∷ p.back))
          ≡ block (n - k - 24) 0 ∷ (block k 1 ∷ []) =
        rw (front, rest, back) refl in
      (
        p.address ∙ omega (arith, size, first),
        p.start_same,
        subst (λ bs. Tiles r.1.mem s.start_vaddr bs e) row (p.after),
      )

  large : (k : ℕ) → k ≤ n → fits s.mem k s.start_vaddr ≢ false
  large k room = ground (arith, first_words s.start_vaddr (inl refl))

  -- A request that leaves room for a block in front is placed at the end of the heap.
  pub kmalloc_fresh :
      (fuel size : ℕ)
      → 2 ≤ fuel
      → 0 < size
      → size + 28 ≤ n
      → (h : Heap) × (kmalloc fuel s size ≡ some (s.start_vaddr + 16 + (n - (size + 3) / 4 * 4), h))
        × (h.start_vaddr ≡ s.start_vaddr)
        × Tiles h.mem s.start_vaddr
            (block (n - (size + 3) / 4 * 4 - 24) 0 ∷ (block ((size + 3) / 4 * 4) 1 ∷ []))
            e
  kmalloc_fresh fuel size enough pos room =
      let below = v.below in
      let (tags, last) = v.tiles in
      let (r, q, o) =
        kmalloc_lem fuel size s (block n 0 ∷ []) e (s.start_vaddr ∷ []) v (omega arith) pos
          (omega arith) λ x i f. inr (omega (arith, first_words x i)) in
      elim o [
        | inl refused ↦
            absurd (
              large ((size + 3) / 4 * 4) (omega arith) (refused.none_fits s.start_vaddr (inl refl)))
        | inr placed ↦
            let (address, start, tiles) =
              placed_fresh ((size + 3) / 4 * 4) r (omega arith) placed in
            (r.1, q ∙ ap (λ a. some (a, r.1)) address, start, tiles)
      ]
