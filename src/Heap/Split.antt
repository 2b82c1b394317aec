-- ===== src/Heap/Split.antt =====
-- What the writes of `kmalloc` (kernel/kheap.c) do to the row of blocks.
use mathlib.Core.Path.{subst}
use rotary_os.Base.{
  ℕ, ◌+◌, ◌^◌, ◌≤◌, ◌<◌, ◌≡◌, ◌⊎◌, inl, inr, List, ◌==◌, if◌then◌else◌, arith, Bool-cases, update,
  add32,
}
use rotary_os.Heap.{
  Mem, heap_update_block, heap_create_new_block, heap_remove_free_block, prev_at, next_at,
}
use rotary_os.Heap.Tiling.{Block, block, Holds, Tiles, BlockAt, BlockAt-end, Tiles-link}

-- The four words of a block that does not wrap.
pub heap_update_block_lem :
    (m : Mem) (x size used y : ℕ)
    → x + 24 + size < 2 ^ 32
    → heap_update_block m x size used y ≡ (
        if y == x + 20 + size
        then used
        else if y == x + 16 + size
        then size
        else if y == x + 4
        then used
        else if y == x
        then size
        else m y)
unfolding heap_update_block
heap_update_block_lem m x size used y h = ground arith

pub heap_create_new_block_lem :
    (m : Mem) (x size used prev next y : ℕ)
    → x + 24 + size < 2 ^ 32
    → heap_create_new_block m x size used prev next y ≡ (
        if y == x + 20 + size
        then used
        else if y == x + 16 + size
        then size
        else if y == x + 12
        then next
        else if y == x + 8
        then prev
        else if y == x + 4
        then used
        else if y == x
        then size
        else m y)
unfolding heap_create_new_block
heap_create_new_block_lem m x size used prev next y h = ground arith

-- Both leave the memory outside the block alone.
pub heap_update_block-outside :
    (m : Mem) (x size used y : ℕ)
    → x + 24 + size < 2 ^ 32
    → (y < x) ⊎ (x + 24 + size ≤ y)
    → heap_update_block m x size used y ≡ m y
heap_update_block-outside m x size used y h (inl o) =
    rw (heap_update_block_lem m x size used y h) (ground arith)
heap_update_block-outside m x size used y h (inr o) =
    rw (heap_update_block_lem m x size used y h) (ground arith)

pub heap_create_new_block-outside :
    (m : Mem) (x size used prev next y : ℕ)
    → x + 24 + size < 2 ^ 32
    → (y < x) ⊎ (x + 24 + size ≤ y)
    → heap_create_new_block m x size used prev next y ≡ m y
heap_create_new_block-outside m x size used p n y h (inl o) =
    rw (heap_create_new_block_lem m x size used p n y h) (ground arith)
heap_create_new_block-outside m x size used p n y h (inr o) =
    rw (heap_create_new_block_lem m x size used p n y h) (ground arith)

pub heap_update_block-Holds :
    (m : Mem) (x size used : ℕ)
    → x + 24 + size < 2 ^ 32
    → Holds (heap_update_block m x size used) x (block size used)
heap_update_block-Holds m x size used h = (
  rw (heap_update_block_lem m x size used x h) (ground arith),
  rw (heap_update_block_lem m x size used (x + 4) h) (ground arith),
  rw (heap_update_block_lem m x size used (x + 16 + size) h) (ground arith),
  rw (heap_update_block_lem m x size used (x + 20 + size) h) (ground arith),
)

pub heap_create_new_block-Holds :
    (m : Mem) (x size used p n : ℕ)
    → x + 24 + size < 2 ^ 32
    → Holds (heap_create_new_block m x size used p n) x (block size used)
heap_create_new_block-Holds m x size used p n h = (
  rw (heap_create_new_block_lem m x size used p n x h) (ground arith),
  rw (heap_create_new_block_lem m x size used p n (x + 4) h) (ground arith),
  rw (heap_create_new_block_lem m x size used p n (x + 16 + size) h) (ground arith),
  rw (heap_create_new_block_lem m x size used p n (x + 20 + size) h) (ground arith),
)

-- The links of a header lead to headers or to 0.
abbrev pub IsLink : ℕ → List Block → ℕ → Type 0
IsLink a bs p = (p ≡ 0) ⊎ BlockAt a bs p

write_link : Mem → ℕ → ℕ → ℕ → Mem
write_link m p k v = if p == 0 then m else update m (add32 p k) v

write_link-Tiles :
    (m : Mem) (a : ℕ) (bs : List Block) (e p k v : ℕ)
    → Tiles m a bs e
    → e < 2 ^ 32
    → IsLink a bs p
    → 8 ≤ k
    → k < 16
    → Tiles (write_link m p k v) a bs e
unfolding write_link
write_link-Tiles m a bs e p k v t h (inl z) l u = rw z t
write_link-Tiles m a bs e p k v t h (inr i) l u = elim (Bool-cases (p == 0)) [
  | inl z ↦ rw z t
  | inr nz ↦
      let w : add32 p k ≡ p + k = omega (arith, BlockAt-end m a bs e p t i) in
      rw (nz, w) (Tiles-link m a bs e p k v t i l u)
]

-- Taking a block off the list writes link fields alone.
pub heap_remove_free_block-Tiles :
    (m : Mem) (a : ℕ) (bs : List Block) (e x : ℕ)
    → Tiles m a bs e
    → e < 2 ^ 32
    → x + 24 ≤ e
    → IsLink a bs (m (x + 8))
    → IsLink a bs (m (x + 12))
    → Tiles (heap_remove_free_block m x) a bs e
unfolding heap_remove_free_block write_link
heap_remove_free_block-Tiles m a bs e x t h u prev next =
    write_link-Tiles m₁ a bs e (m₁ (next_at x)) 8 (m₁ (prev_at x))
      (write_link-Tiles m a bs e (m (prev_at x)) 12 (m (next_at x)) t h
        (subst (λ y. IsLink a bs (m y)) p8 prev) (omega arith) (omega arith))
      h (subst (IsLink a bs) same next) (omega arith) (omega arith)
  where
    m₁ : Mem
    m₁ = write_link m (m (prev_at x)) 12 (m (next_at x))

    p8 : x + 8 ≡ prev_at x
    p8 = omega (arith, u, h)

    p12 : x + 12 ≡ next_at x
    p12 = omega (arith, u, h)

    same : m (x + 12) ≡ m₁ (next_at x)
    same = rw p12 (ground arith)
