-- ===== src/Heap/Free.antt =====
-- The parts of `kfree` (kernel/kheap.c) in front of the merge with the neighbours: the checks of
-- the pointer, the clearing of the block, the walk to it and the links that it gets.
use mathlib.Core.Path.{sym}
use rotary_os.Base.{
  ℕ, zero, suc, ◌+◌, ◌^◌, ◌≤◌, ◌<◌, ◌≡◌, ◌≢◌, ◌⊎◌, inl, inr, true, false, List, [], ◌∷◌, ◌++◌, ◌==◌,
  ◌&&◌, if◌then◌else◌, arith, add32, some,
}
use rotary_os.Base.Lists.{length}
use rotary_os.Heap.{
  Mem, Heap, kfree, free_walk, mark_free, link_free, memset_zero, heap_coalesce_free_block, used_at,
}
use rotary_os.Heap.Tiling.{
  Block, block, Holds, behind, Tiles, Tiles-le, Tiles-frame, Tiles-append, BlockAt,
}

-- For a null pointer and for one outside the heap's bounds, `kfree` returns 0 and changes nothing.
pub kfree_rejects :
    (fuel : ℕ) (s : Heap) (ptr : ℕ)
    → (ptr ≡ 0) ⊎ ((ptr < s.start_vaddr) ⊎ (s.end_vaddr < ptr))
    → kfree fuel s ptr ≡ some (0, s)
unfolding kfree
kfree_rejects fuel s ptr (inl z) = rw z
kfree_rejects fuel s ptr (inr (inl l)) = ground arith
kfree_rejects fuel s ptr (inr (inr l)) = ground arith

-- Clearing a block's bytes and its flags keeps its size and its links, and all other memory.
module _ (m : Mem) (x : ℕ) (b : Block) (h : Holds m x b) (fit : x + 24 + b.size < 2 ^ 32) where
  pub mark_free-outside :
      (y : ℕ) → (y < x + 4) ⊎ (x + 24 + b.size ≤ y) → mark_free m (x + 16) y ≡ m y
  unfolding mark_free memset_zero
  mark_free-outside y (inl o) = ground (arith, h.0)
  mark_free-outside y (inr o) = ground (arith, h.0)

  pub mark_free-links : (k : ℕ) → 8 ≤ k → k < 16 → mark_free m (x + 16) (x + k) ≡ m (x + k)
  unfolding mark_free memset_zero
  mark_free-links k l u = ground (arith, h.0)

  pub mark_free-Holds : Holds (mark_free m (x + 16)) x (block b.size 0)
  unfolding mark_free memset_zero
  mark_free-Holds =
      (ground (arith, h.0), ground (arith, h.0), ground (arith, h.0, h.2), ground (arith, h.0))

-- The last free block in front of a block, from `init` on.
unfoldable pub last_free : ℕ → ℕ → List Block → ℕ
last_free init a [] = init
last_free init a (b ∷ bs) = last_free (if b.used == 0 then a else init) (behind a b) bs

-- No block of the row has size 0, which the walk reads as the end.
abbrev pub AllSized : List Block → Type 0
AllSized [] = Unit
AllSized (b ∷ bs) = (b.size ≢ 0) × AllSized bs

pub free_walk_lem :
    (k : ℕ) (m : Mem) (a : ℕ) (front : List Block) (x init : ℕ)
    → Tiles m a front x
    → AllSized front
    → m x ≢ 0
    → x < 2 ^ 32
    → length front < k
    → free_walk k m x a init
      ≡ some (heap_coalesce_free_block (link_free m x (last_free init a front)) x)
unfolding free_walk last_free
free_walk_lem zero m a front x init t sized ne h fuel = absurd (omega arith)
free_walk_lem (suc k) m a [] x init t sized ne h fuel = rw t (ground (arith, ne))
free_walk_lem (suc k) m a (b ∷ front) x init (hb, t) (nz, sized) ne h fuel =
    rw (going, before, next, flag, and_true)
      (free_walk_lem k m (behind a b) front x (if b.used == 0 then a else init) t sized ne h
        (omega arith))
  where
    le : behind a b ≤ x
    le = Tiles-le m (behind a b) front x t

    going : (m a == 0) ≡ false
    going = ground (arith, nz, hb.0)

    before : (a == x) ≡ false
    before = ground (arith, le)

    next : add32 (add32 (add32 a 16) (m a)) 8 ≡ behind a b
    next = omega (arith, hb.0, le, h)

    flag : m (used_at a) ≡ b.used
    flag = let w : used_at a ≡ a + 4 = omega (arith, le, h) in rw w (hb.1)

    and_true : ((b.used == 0) && true) ≡ (b.used == 0)
    and_true = ground arith

-- The row in front of a header, that header's block and the row behind it.
pub record Around (m : Mem) (a : ℕ) (front : List Block) (x : ℕ) (b : Block) (back : List Block)
    (e : ℕ) : Type 0 where
  pub front_tiles : Tiles m a front x
  pub holds : Holds m x b
  pub back_tiles : Tiles m (behind x b) back e

pub Around-row :
    (m : Mem) (a : ℕ) (front : List Block) (x : ℕ) (b : Block) (back : List Block) (e : ℕ)
    → Around m a front x b back e
    → Tiles m a (front ++ (b ∷ back)) e
Around-row m a front x b back e r =
    Tiles-append m a front x (b ∷ back) e r.front_tiles (r.holds, r.back_tiles)

pub mark_free-Around :
    (m : Mem) (a : ℕ) (front : List Block) (x : ℕ) (b : Block) (back : List Block) (e : ℕ)
    → e < 2 ^ 32
    → Around m a front x b back e
    → Around (mark_free m (x + 16)) a front x (block b.size 0) back e
mark_free-Around m a front x b back e h r = record {
  front_tiles =
      Tiles-frame m m' a front x r.front_tiles
        (λ y l u. mark_free-outside m x b r.holds fit y (inl (omega (arith, u))));
  holds = mark_free-Holds m x b r.holds fit;
  back_tiles =
      Tiles-frame m m' (behind x b) back e r.back_tiles
        (λ y l u. mark_free-outside m x b r.holds fit y (inr l));
}
  where
    m' : Mem
    m' = mark_free m (x + 16)

    fit : x + 24 + b.size < 2 ^ 32
    fit = omega (arith, Tiles-le m (behind x b) back e r.back_tiles, h)

pub BlockAt-middle :
    (m : Mem) (a : ℕ) (front : List Block) (x : ℕ) (b : Block) (back : List Block)
    → Tiles m a front x
    → BlockAt a (front ++ (b ∷ back)) x
BlockAt-middle m a [] x b back t = inl (sym t)
BlockAt-middle m a (c ∷ front) x b back (h, t) =
    inr (BlockAt-middle m (behind a c) front x b back t)
