-- ===== src/Heap/Coalesce.antt =====
-- `heap_coalesce_free_block` of kernel/kheap.c between two neighbours.
use rotary_os.Base.{
  ℕ, ◌+◌, ◌^◌, ◌≤◌, ◌<◌, ◌≡◌, ◌≢◌, ◌⊎◌, inl, inr, List, [], ◌∷◌, ◌++◌, ◌==◌, if◌then◌else◌, arith,
  ◌∙◌, add32, sub32,
}
use rotary_os.Heap.{Mem, coalesce_next, coalesce_prev, heap_coalesce_free_block, used_at, next_at}
use rotary_os.Heap.Tiling.{Block, block, Holds, behind, Tiles, Tiles-le, Tiles-replace}

-- A free block of `size` bytes between the blocks `p` and `n` of a row.
pub record Between (m : Mem) (a : ℕ) (front : List Block) (xp : ℕ) (p : Block) (size : ℕ)
    (n : Block) (back : List Block) (e : ℕ) : Type 0 where
  pub front_tiles : Tiles m a front xp
  pub prev_holds : Holds m xp p
  pub holds : Holds m (behind xp p) (block size 0)
  pub next_holds : Holds m (behind xp p + 24 + size) n
  pub back_tiles : Tiles m (behind xp p + 24 + size + 24 + n.size) back e
  pub below : e < 2 ^ 32
  pub sized : p.size ≢ 0
  pub next_sized : n.size ≢ 0

module _ (m : Mem) (a : ℕ) (front : List Block) (xp : ℕ) (p : Block) (size : ℕ) (n : Block)
    (back : List Block) (e : ℕ) (w : Between m a front xp p size n back e) where
  -- The block, the one behind it, the trailer of that, and the end of that.
  abbrev pub x : ℕ
  x = behind xp p

  abbrev pub nx : ℕ
  nx = x + 24 + size

  abbrev pub nt : ℕ
  nt = nx + 16 + n.size

  pub fit : nt + 8 ≤ e
  fit = omega (arith, Tiles-le m (nx + 24 + n.size) back e w.back_tiles)

  -- The pointers that the code computes.
  pub pointers : heap_coalesce_free_block m x ≡ coalesce_prev (coalesce_next m x nx nt) x xp nt
  unfolding heap_coalesce_free_block
  pointers = rw (trailer_eq, prev_size, prev_eq, size_eq, next_eq, next_size, next_trailer_eq)
    where
      trailer_eq : sub32 x 8 ≡ xp + 16 + p.size
      trailer_eq = omega (arith, fit, w.below)

      prev_size : m (xp + 16 + p.size) ≡ p.size
      prev_size = w.prev_holds.2

      prev_eq : sub32 (sub32 (xp + 16 + p.size) p.size) 16 ≡ xp
      prev_eq = omega (arith, fit, w.below)

      size_eq : m x ≡ size
      size_eq = w.holds.0

      next_eq : add32 (add32 (add32 x 16) size) 8 ≡ nx
      next_eq = omega (arith, fit, w.below)

      next_size : m nx ≡ n.size
      next_size = w.next_holds.0

      next_trailer_eq : add32 (add32 nx 16) n.size ≡ nt
      next_trailer_eq = omega (arith, fit, w.below)

  -- A used neighbour is left alone.
  pub keep_next : n.used ≢ 0 → coalesce_next m x nx nt ≡ m
  unfolding coalesce_next
  keep_next u =
      let f : used_at nx ≡ nx + 4 = omega (arith, fit, w.below) in
      rw (f, w.next_holds.1) (ground (arith, u))

  pub keep_prev : (m' : Mem) → m' (xp + 4) ≡ p.used → p.used ≢ 0 → coalesce_prev m' x xp nt ≡ m'
  unfolding coalesce_prev
  keep_prev m' h u =
      let f : used_at xp ≡ xp + 4 = omega (arith, fit, w.below) in rw (f, h) (ground (arith, u))

  -- The merge with the block behind, word by word.
  pub merge_next :
      (y : ℕ)
      → n.used ≡ 0
      → coalesce_next m x nx nt y ≡ (
          if y == nt + 4
          then 0
          else if y == nt
          then size + 24 + n.size
          else if y == x
          then size + 24 + n.size
          else if y == x + 12
          then m (nx + 12)
          else m y)
  unfolding coalesce_next
  merge_next y u =
      rw (f4, f12, f12', w.holds.0, w.next_holds.0, w.next_holds.1, sum)
        (ground (arith, u, w.next_sized, t4))
    where
      f4 : used_at nx ≡ nx + 4
      f4 = omega (arith, fit, w.below)

      f12 : next_at nx ≡ nx + 12
      f12 = omega (arith, fit, w.below)

      f12' : next_at x ≡ x + 12
      f12' = omega (arith, fit, w.below)

      t4 : used_at nt ≡ nt + 4
      t4 = omega (arith, fit, w.below)

      sum : add32 (add32 (add32 size 8) 16) n.size ≡ size + 24 + n.size
      sum = omega (arith, fit, w.below)

  -- The merge with the block in front, on a memory whose header at the block says `z`.
  pub merge_prev :
      (m' : Mem) (z y : ℕ)
      → m' xp ≡ p.size
      → m' (xp + 4) ≡ 0
      → m' x ≡ z
      → p.size + 24 + z < 2 ^ 32
      → coalesce_prev m' x xp nt y ≡ (
          if y == nt + 4
          then 0
          else if y == nt
          then p.size + 24 + z
          else if y == xp + 12
          then m' (x + 12)
          else if y == xp
          then p.size + 24 + z
          else m' y)
  unfolding coalesce_prev
  merge_prev m' z y h0 h4 hz small =
      rw (f4, f12, f12', h0, h4, hz, sum) (ground (arith, w.sized, t4, fit))
    where
      f4 : used_at xp ≡ xp + 4
      f4 = omega (arith, fit, w.below)

      f12 : next_at xp ≡ xp + 12
      f12 = omega (arith, fit, w.below)

      f12' : next_at x ≡ x + 12
      f12' = omega (arith, fit, w.below)

      t4 : used_at nt ≡ nt + 4
      t4 = omega (arith, fit, w.below)

      sum : add32 (add32 (add32 p.size 8) 16) z ≡ p.size + 24 + z
      sum = omega (arith, small)

  -- The four outcomes, each with its row of blocks or with what breaks.
  pub keep_both : p.used ≢ 0 → n.used ≢ 0 → heap_coalesce_free_block m x ≡ m
  keep_both u v = pointers ∙ rw (keep_next v) (keep_prev m w.prev_holds.1 u)

  abbrev joined : ℕ
  joined = size + 24 + n.size

  m₁ : Mem
  m₁ = coalesce_next m x nx nt

  end : ℕ
  end = nx + 24 + n.size

  outside₁ : n.used ≡ 0 → (y : ℕ) → (y < x) ⊎ (nt + 8 ≤ y) → m₁ y ≡ m y
  unfolding m₁
  outside₁ v y (inl o) = rw (merge_next y v) (ground arith)
  outside₁ v y (inr o) = rw (merge_next y v) (ground arith)

  pub merge_next-Tiles :
      p.used ≢ 0
      → n.used ≡ 0
      → Tiles (heap_coalesce_free_block m x) a (front ++ ((p ∷ (block joined 0 ∷ [])) ++ back)) e
  unfolding m₁ end
  merge_next-Tiles u v =
      rw (pointers, keep_prev m₁ (outside₁ v (xp + 4) (inl (omega arith)) ∙ w.prev_holds.1) u)
        (Tiles-replace m m₁ a front (p ∷ (block joined 0 ∷ [])) back e xp end w.front_tiles
          w.back_tiles (prev_same, (merged, omega arith)) around)
    where
      around : (y : ℕ) → (y < xp) ⊎ (end ≤ y) → m₁ y ≡ m y
      around y (inl o) = outside₁ v y (inl (omega (arith, o)))
      around y (inr o) = outside₁ v y (inr (omega (arith, o)))

      prev_same : Holds m₁ xp p
      prev_same = (
        outside₁ v xp (inl (omega arith)) ∙ w.prev_holds.0,
        outside₁ v (xp + 4) (inl (omega arith)) ∙ w.prev_holds.1,
        outside₁ v (xp + 16 + p.size) (inl (omega arith)) ∙ w.prev_holds.2,
        outside₁ v (xp + 20 + p.size) (inl (omega arith)) ∙ w.prev_holds.3,
      )

      merged : Holds m₁ x (block joined 0)
      merged = (
        rw (merge_next x v) (ground arith),
        rw (merge_next (x + 4) v) (ground (arith, w.holds.1)),
        rw (merge_next (x + 16 + joined) v) (ground arith),
        rw (merge_next (x + 20 + joined) v) (ground arith),
      )

  pub merge_both-Tiles :
      p.used ≡ 0
      → n.used ≡ 0
      → Tiles
          (heap_coalesce_free_block m x)
          a
          (front ++ ((block (p.size + 24 + joined) 0 ∷ []) ++ back))
          e
  unfolding m₁ end
  merge_both-Tiles u v = rw pointers (
      Tiles-replace m m₂ a front (block total 0 ∷ []) back e xp end w.front_tiles w.back_tiles
        (merged, omega arith) around)
    where
      total : ℕ
      total = p.size + 24 + joined

      m₂ : Mem
      m₂ = coalesce_prev m₁ x xp nt

      small : total < 2 ^ 32
      small = omega (arith, fit, w.below)

      words :
          (y : ℕ)
          → m₂ y ≡ (
              if y == nt + 4
              then 0
              else if y == nt
              then total
              else if y == xp + 12
              then m₁ (x + 12)
              else if y == xp
              then total
              else m₁ y)
      words y =
          merge_prev m₁ joined y (outside₁ v xp (inl (omega arith)) ∙ w.prev_holds.0)
            (outside₁ v (xp + 4) (inl (omega arith)) ∙ w.prev_holds.1 ∙ u)
            (rw (merge_next x v) (ground arith)) small

      around : (y : ℕ) → (y < xp) ⊎ (end ≤ y) → m₂ y ≡ m y
      around y (inl o) = words y ∙ ground (arith, outside₁ v y (inl (omega (arith, o))))
      around y (inr o) = words y ∙ ground (arith, outside₁ v y (inr (omega (arith, o))))

      flag : m₁ (xp + 4) ≡ 0
      flag = outside₁ v (xp + 4) (inl (omega arith)) ∙ w.prev_holds.1 ∙ u

      merged : Holds m₂ xp (block total 0)
      merged = (
        words xp ∙ ground arith,
        words (xp + 4) ∙ ground (arith, flag),
        words (xp + 16 + total) ∙ ground arith,
        words (xp + 20 + total) ∙ ground arith,
      )

  -- With a free block in front and a used one behind, the merge writes the trailer of the used one.
  pub merge_prev-breaks :
      p.used ≡ 0
      → n.used ≢ 0
      → (heap_coalesce_free_block m x (nx + 4) ≡ n.used)
        × (heap_coalesce_free_block m x (nx + 20 + n.size) ≡ 0)
        × (heap_coalesce_free_block m x (nx + 16 + n.size) ≡ p.size + 24 + size)
  merge_prev-breaks u v =
      rw (pointers, keep_next v)
        (
          words (nx + 4) ∙ ground (arith, w.next_holds.1),
          words (nx + 20 + n.size) ∙ ground arith,
          words (nx + 16 + n.size) ∙ ground arith,
        )
    where
      words :
          (y : ℕ)
          → coalesce_prev m x xp nt y ≡ (
              if y == nt + 4
              then 0
              else if y == nt
              then p.size + 24 + size
              else if y == xp + 12
              then m (x + 12)
              else if y == xp
              then p.size + 24 + size
              else m y)
      words y =
          merge_prev m size y w.prev_holds.0 (w.prev_holds.1 ∙ u) w.holds.0
            (omega (arith, fit, w.below))
