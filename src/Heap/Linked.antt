-- ===== src/Heap/Linked.antt =====
-- The block that `kfree` (kernel/kheap.c) has marked free gets its place on the list of free blocks.
use mathlib.Core.Path.{subst, sym}
use rotary_os.Base.{
  ℕ, ◌+◌, ◌^◌, ◌≤◌, ◌<◌, ◌≡◌, ◌≢◌, ◌⊎◌, inl, inr, refl, false, List, [], ◌∷◌, ◌++◌, ◌==◌, ltb, ◌||◌,
  if◌then◌else◌, arith, Bool-cases, ◌∙◌, update, sub32, some,
}
use rotary_os.Base.Lists.{length}
use rotary_os.Heap.{
  Mem, Heap, kfree, free_walk, mark_free, link_free, heap_coalesce_free_block, prev_at, next_at,
}
use rotary_os.Heap.Tiling.{Block, block, behind, Tiles, Tiles-le, BlockAt, BlockAt-end, Tiles-link}
use rotary_os.Heap.Free.{
  mark_free-Around, BlockAt-middle, last_free, AllSized, free_walk_lem, Around, Around-row,
}

last_free-cases :
    (init a : ℕ) (front : List Block)
    → (last_free init a front ≡ init) ⊎ BlockAt a front (last_free init a front)
unfolding last_free
last_free-cases init a [] = inl refl
last_free-cases init a (b ∷ bs) =
    elim (last_free-cases (if b.used == 0 then a else init) (behind a b) bs) [
      | inr i ↦ inr (inr i)
      | inl e ↦ elim (Bool-cases (b.used == 0)) [
        | inl f ↦ inr (inl (e ∙ rw f))
        | inr f ↦ inl (e ∙ rw f)
      ]
    ]

BlockAt-append :
    (a : ℕ) (front cs : List Block) (y : ℕ) → BlockAt a front y → BlockAt a (front ++ cs) y
BlockAt-append a [] cs y i = absurd i
BlockAt-append a (b ∷ front) cs y (inl e) = inl e
BlockAt-append a (b ∷ front) cs y (inr i) = inr (BlockAt-append (behind a b) front cs y i)

BlockAt-head :
    (a : ℕ) (front : List Block) (b : Block) (back : List Block) → BlockAt a (front ++ (b ∷ back)) a
BlockAt-head a [] b back = inl refl
BlockAt-head a (c ∷ front) b back = inl refl

-- The last free block is a header of the row, the first one if there is none.
last_free-BlockAt :
    (a : ℕ) (front : List Block) (b : Block) (back : List Block)
    → BlockAt a (front ++ (b ∷ back)) (last_free a a front)
last_free-BlockAt a front b back = elim (last_free-cases a a front) [
  | inl e ↦ subst (BlockAt a (front ++ (b ∷ back))) (sym e) (BlockAt-head a front b back)
  | inr i ↦ BlockAt-append a front (b ∷ back) (last_free a a front) i
]

-- A row cut where the same row is known to be cut.
pub Tiles-cut :
    (m m' : Mem) (a : ℕ) (front : List Block) (x : ℕ) (cs : List Block) (e : ℕ)
    → Tiles m a front x
    → Tiles m' a (front ++ cs) e
    → Tiles m' a front x × Tiles m' x cs e
Tiles-cut m m' a [] x cs e t u = (t, subst (λ y. Tiles m' y cs e) t u)
Tiles-cut m m' a (b ∷ front) x cs e (h, t) (h', u) =
    let (l, r) = Tiles-cut m m' (behind a b) front x cs e t u in ((h', l), r)

link_free-Tiles :
    (m : Mem) (a : ℕ) (bs : List Block) (e x last : ℕ)
    → Tiles m a bs e
    → e < 2 ^ 32
    → BlockAt a bs x
    → BlockAt a bs last
    → Tiles (link_free m x last) a bs e
unfolding link_free
link_free-Tiles m a bs e x last t h i j =
    rw (n12, n8, l12)
      (Tiles-link m₂ a bs e last 12 x
        (Tiles-link m₁ a bs e x 8 last
          (Tiles-link m a bs e x 12 (m (last + 12)) t i (omega arith) (omega arith)) i (omega arith)
          (omega arith))
        j (omega arith) (omega arith))
  where
    n12 : next_at x ≡ x + 12
    n12 = omega (arith, BlockAt-end m a bs e x t i, h)

    n8 : prev_at x ≡ x + 8
    n8 = omega (arith, BlockAt-end m a bs e x t i, h)

    l12 : next_at last ≡ last + 12
    l12 = omega (arith, BlockAt-end m a bs e last t j, h)

    m₁ : Mem
    m₁ = update m (x + 12) (m (last + 12))

    m₂ : Mem
    m₂ = update m₁ (x + 8) last

-- The memory that `kfree` hands to the merge.
unfoldable pub linked : Mem → ℕ → List Block → ℕ → Mem
linked m a front x = link_free (mark_free m (x + 16)) x (last_free a a front)

linked-Around :
    (m : Mem) (a : ℕ) (front : List Block) (x : ℕ) (b : Block) (back : List Block) (e : ℕ)
    → e < 2 ^ 32
    → Around m a front x b back e
    → Around (linked m a front x) a front x (block b.size 0) back e
unfolding linked
linked-Around m a front x b back e h r =
    let marked = mark_free-Around m a front x b back e h r in
    let m₁ = mark_free m (x + 16) in
    let row = front ++ (block b.size 0 ∷ back) in
    let t =
      link_free-Tiles m₁ a row e x (last_free a a front)
        (Around-row m₁ a front x (block b.size 0) back e marked) h
        (BlockAt-middle m₁ a front x (block b.size 0) back marked.front_tiles)
        (last_free-BlockAt a front (block b.size 0) back) in
    let (l, o) =
      Tiles-cut m (link_free m₁ x (last_free a a front)) a front x (block b.size 0 ∷ back) e
        r.front_tiles t in
    record { front_tiles = l; holds = o.0; back_tiles = o.1 }

-- `kfree` of a used block of the row ends and returns 1. What it hands to the merge is the same row
-- with the block free, linked behind the last free block in front of it.
pub kfree-linked :
    (fuel : ℕ) (s : Heap) (front : List Block) (x : ℕ) (b : Block) (back : List Block) (e : ℕ)
    → Around s.mem s.start_vaddr front x b back e
    → e < 2 ^ 32
    → x + 16 ≤ s.end_vaddr
    → AllSized front
    → b.size ≢ 0
    → length front < fuel
    → (kfree fuel s (x + 16)
        ≡ some
            (1, record s { mem = heap_coalesce_free_block (linked s.mem s.start_vaddr front x) x }))
      × Around (linked s.mem s.start_vaddr front x) s.start_vaddr front x (block b.size 0) back e
unfolding kfree linked
kfree-linked fuel s front x b back e r h u sized nz enough =
    (rw (not_null, inside, pointer, walked), linked-Around s.mem s.start_vaddr front x b back e h r)
  where
    a : ℕ
    a = s.start_vaddr

    marked : Around (mark_free s.mem (x + 16)) a front x (block b.size 0) back e
    marked = mark_free-Around s.mem a front x b back e h r

    le : a ≤ x
    le = Tiles-le s.mem a front x r.front_tiles

    fit : x + 24 + b.size ≤ e
    fit = Tiles-le s.mem (behind x b) back e r.back_tiles

    not_null : (x + 16 == 0) ≡ false
    not_null = ground arith

    inside : (ltb (x + 16) a || ltb s.end_vaddr (x + 16)) ≡ false
    inside = ground (arith, le, u)

    pointer : sub32 (x + 16) 16 ≡ x
    pointer = omega (arith, fit, h)

    walked :
        free_walk fuel (mark_free s.mem (x + 16)) x a a
        ≡ some (
            heap_coalesce_free_block
              (link_free (mark_free s.mem (x + 16)) x (last_free a a front))
              x)
    walked =
        free_walk_lem fuel (mark_free s.mem (x + 16)) a front x a marked.front_tiles sized
          (λ z. nz (sym (marked.holds.0) ∙ z)) (omega (arith, fit, h)) enough
