-- ===== src/Heap/Print.antt =====
-- `heap_print` of kernel/kheap.c: the lines that it prints, and which blocks they show.
use rotary_os.Base.{
  ℕ, zero, suc, ◌+◌, ◌^◌, ◌<◌, ◌≡◌, ◌≢◌, refl, ap, arith, true, false, ◌==◌, add32, Option, none,
  some, List, [], ◌∷◌,
}
use rotary_os.Base.Lists.{length}
use rotary_os.Heap.{Mem, Heap, header_size, trailer_size, used_at, prev_at, next_at}
use rotary_os.Heap.Tiling.{Block, Holds, behind, Tiles, Tiles-le}

-- One line of the list.
pub record BlockLine : Type 0 where
  pub addr : ℕ
  pub size : ℕ
  pub used : ℕ
  pub prev : ℕ
  pub next : ℕ
  pub trailer : ℕ

-- The line of the block at `b`.
abbrev pub line_at : Mem → (b : ℕ) → BlockLine
line_at m b = record {
  addr = b;
  size = m b;
  used = m (used_at b);
  prev = m (prev_at b);
  next = m (next_at b);
  trailer = add32 (add32 b header_size) (m b);
}

-- The loop from the block at `b` on; `none` when the fuel ends before a size of 0.
pub print_from : (fuel : ℕ) → Mem → (b : ℕ) → Option (List BlockLine)
print_from zero m b = none
print_from (suc n) m b = elim (m b == 0) [
  | true ↦ some []
  | false ↦ elim (print_from n m (add32 (add32 (add32 b header_size) (m b)) trailer_size)) [
    | none ↦ none
    | some lines ↦ some (line_at m b ∷ lines)
  ]
]

pub heap_print : (fuel : ℕ) → Heap → Option (List BlockLine)
heap_print fuel s = print_from fuel s.mem s.start_vaddr

-- The line of a block of a row.
abbrev pub line_of : Mem → (a : ℕ) → Block → BlockLine
line_of m a b = record {
  addr = a;
  size = b.size;
  used = b.used;
  prev = m (a + 8);
  next = m (a + 12);
  trailer = a + 16 + b.size;
}

-- The lines of a row of blocks from `a` on.
abbrev pub lines_of : Mem → (a : ℕ) → List Block → List BlockLine
lines_of m a [] = []
lines_of m a (b ∷ bs) = line_of m a b ∷ lines_of m (behind a b) bs

-- Every block has room.
abbrev pub NonEmpty : List Block → Type 0
NonEmpty [] = Unit
NonEmpty (b ∷ bs) = (b.size ≢ 0) × NonEmpty bs

line_at-Holds :
    (m : Mem) (a : ℕ) (b : Block)
    → Holds m a b
    → a + 24 + b.size < 2 ^ 32
    → line_at m a ≡ line_of m a b
line_at-Holds m a b (h0, h1, h2, h3) fits =
    let used : add32 a 4 ≡ a + 4 = omega arith in
    let prev : add32 a 8 ≡ a + 8 = omega arith in
    let next : add32 a 12 ≡ a + 12 = omega arith in
    let trailer : add32 (add32 a 16) b.size ≡ a + 16 + b.size = omega arith in
    rw (used, prev, next, h0, trailer, h1) refl

print_from-lines_of :
    (fuel : ℕ) (m : Mem) (a : ℕ) (bs : List Block) (e : ℕ)
    → Tiles m a bs e
    → e < 2 ^ 32
    → m e ≡ 0
    → NonEmpty bs
    → length bs < fuel
    → print_from fuel m a ≡ some (lines_of m a bs)
unfolding print_from
print_from-lines_of zero m a bs e t b z room h = absurd (omega arith)
print_from-lines_of (suc n) m a [] e t b z room h =
    let stop : (m a == 0) ≡ true = rw t (ground (arith, z)) in rw (stop, print_from) refl
print_from-lines_of (suc n) m a (c ∷ bs) e ((h0, h1, h2, h3), t) b z (some_room, room) h =
    let le = Tiles-le m (behind a c) bs e t in
    let go : (m a == 0) ≡ false = ground (arith, h0, some_room) in
    let behind_it : add32 (add32 (add32 a 16) c.size) 8 ≡ behind a c = omega (arith, le) in
    let rest = print_from-lines_of n m (behind a c) bs e t b z room (omega arith) in
    rw (go, h0, behind_it, rest, print_from)
      (ap (λ l. some (l ∷ lines_of m (behind a c) bs))
        (line_at-Holds m a c (h0, h1, h2, h3) (omega (arith, le))))

-- On a row of blocks, none of them empty, that fills the heap up to an address below 4 GiB where the memory holds
-- 0, and with more fuel than blocks, `heap_print` ends and prints one line for each block, in the order of
-- the row, with its size, its state and its trailer.
pub heap_print_lem :
    (fuel : ℕ) (s : Heap) (bs : List Block) (e : ℕ)
    → Tiles s.mem s.start_vaddr bs e
    → e < 2 ^ 32
    → s.mem e ≡ 0
    → NonEmpty bs
    → length bs < fuel
    → heap_print fuel s ≡ some (lines_of s.mem s.start_vaddr bs)
unfolding heap_print
heap_print_lem fuel s bs e t b z room h =
    print_from-lines_of fuel s.mem s.start_vaddr bs e t b z room h
