-- ===== src/Heap/Contract.antt =====
-- What `kmalloc` of kernel/kheap.c promises on a well-formed heap, and where it fails.
use mathlib.Core.Path.{subst, sym}
use rotary_os.Base.{
  ℕ, ◌+◌, ◌-◌, ◌*◌, ◌/◌, ◌^◌, ◌≤◌, ◌<◌, ◌≡◌, ◌≢◌, ◌⊎◌, inl, inr, refl, true, false, List, [], ◌∷◌,
  ◌++◌, ◌==◌, arith, Bool-cases, ◌∙◌, add32, some,
}
use rotary_os.Base.Lists.{length}
use rotary_os.Base.Bits.{bit_and-high_mask, bit_and-low_mask}
use rotary_os.Heap.{Heap, allocate_in, kmalloc, round_up_4, search, used_at}
use rotary_os.Heap.Best.{Chain, In, fits, IsBest, search_lem}
use rotary_os.Heap.Tiling.{Block, block, behind, Tiles, Tiles-le, BlockAt, Cut, cut}
use rotary_os.Heap.Split.{IsLink}
use rotary_os.Heap.Kmalloc.{allocate_in_perfect, allocate_in_split}

-- The blocks `bs` fill the heap from its start to `e`, below 4 GiB, and the list that starts at
-- the first header runs through the headers `xs`, whose links lead to headers or to 0.
pub record IsHeap (s : Heap) (bs : List Block) (e : ℕ) (xs : List ℕ) : Type 0 where
  pub tiles : Tiles s.mem s.start_vaddr bs e
  pub below : e < 2 ^ 32
  pub chain : Chain s.mem s.start_vaddr xs
  pub blocks : (x : ℕ) → In x xs → BlockAt s.start_vaddr bs x
  pub prev_links : (x : ℕ) → In x xs → IsLink s.start_vaddr bs (s.mem (x + 8))
  pub next_links : (x : ℕ) → In x xs → IsLink s.start_vaddr bs (s.mem (x + 12))

-- `r` is the answer that finds no block: 0 and the heap as it was.
pub record IsRefused (s : Heap) (xs : List ℕ) (size : ℕ) (r : ℕ × Heap) : Type 0 where
  pub null : r.0 ≡ 0
  pub same : r.1 ≡ s
  pub none_fits : (x : ℕ) → In x xs → fits s.mem size x ≡ false

-- `r` is the answer that places a used block of `size` bytes at the end of a free block `here`,
-- the smallest of the list that is large enough: `here` is replaced by the new block, behind a free
-- rest if it is larger, and all other blocks are as before.
pub record IsPlaced (s : Heap) (bs : List Block) (e : ℕ) (xs : List ℕ) (size : ℕ) (r : ℕ × Heap)
    : Type 0 where
  pub x : ℕ
  pub front : List Block
  pub here : Block
  pub back : List Block
  pub rest : List Block
  pub before : bs ≡ front ++ (here ∷ back)
  pub front_tiles : Tiles s.mem s.start_vaddr front x
  pub was_free : here.used ≡ 0
  pub address : r.0 ≡ x + 16 + (here.size - size)
  pub start_same : r.1.start_vaddr ≡ s.start_vaddr
  pub after : Tiles r.1.mem s.start_vaddr (front ++ (rest ++ (block size 1 ∷ back))) e
  pub rest_lem :
      ((here.size ≡ size) × (rest ≡ []))
      ⊎ ((size + 24 ≤ here.size) × (rest ≡ block (here.size - size - 24) 0 ∷ []))
  pub best : (y : ℕ) → In y xs → fits s.mem size y ≡ true → here.size ≤ s.mem y

pub round_up_4_lem : (size : ℕ) → size ≤ 2 ^ 32 - 4 → round_up_4 size ≡ (size + 3) / 4 * 4
unfolding round_up_4
round_up_4_lem size h = omega (
  arith,
  bit_and-high_mask 2 (add32 size 3) (2 ^ 30 - 1),
  bit_and-low_mask 30 (add32 size 3 / 2 ^ 2),
)

-- No free block of the list is larger than the request by less than a header and a trailer.
abbrev pub NoSliver : Heap → List ℕ → ℕ → Type 0
NoSliver s xs size =
    (x : ℕ) → In x xs → fits s.mem size x ≡ true → (s.mem x ≡ size) ⊎ (size + 24 ≤ s.mem x)

module _ (s : Heap) (bs : List Block) (e : ℕ) (xs : List ℕ) (size : ℕ) (v : IsHeap s bs e xs) where
  abbrev answer : ℕ → ℕ × Heap
  answer b = ((allocate_in s.mem size b).0, record s { mem = (allocate_in s.mem size b).1 })

  module _ (b : ℕ) (ne : b ≢ 0) (i : In b xs) (best : IsBest s.mem size 0 xs b) where
    -- The row cut at the block that the search found.
    abbrev c : Cut s.mem s.start_vaddr bs e b
    c = cut s.mem s.start_vaddr bs e b v.tiles (v.blocks b i)

    found_free : c.here.used ≡ 0
    found_free =
        let w : used_at b ≡ b + 4 =
          omega (arith, Tiles-le s.mem (behind b c.here) c.back e c.back_tiles, v.below) in
        let f = best.large ne in
        let free : s.mem (used_at b) ≡ 0 = ground (arith, f) in
        sym c.holds.1 ∙ subst (λ y. s.mem y ≡ 0) w free

    least : (y : ℕ) → In y xs → fits s.mem size y ≡ true → c.here.size ≤ s.mem y
    least y j f = omega (arith, best.smallest y j f, c.holds)

    place_perfect : s.mem b ≡ size → IsPlaced s bs e xs size (answer b)
    place_perfect q = record {
      x = b;
      front = c.front;
      here = c.here;
      back = c.back;
      rest = [];
      before = c.split;
      front_tiles = c.front_tiles;
      was_free = found_free;
      address = done.0 ∙ omega (arith, same);
      start_same = refl;
      after = done.1;
      rest_lem = inl (same, refl);
      best = least;
    }
      where
        same : c.here.size ≡ size
        same = sym c.holds.0 ∙ q

        link :
            (k : ℕ)
            → IsLink s.start_vaddr bs (s.mem (b + k))
            → IsLink s.start_vaddr (c.front ++ (c.here ∷ c.back)) (s.mem (b + k))
        link k = subst (λ l. IsLink s.start_vaddr l (s.mem (b + k))) c.split

        done :
            ((allocate_in s.mem size b).0 ≡ b + 16)
            × Tiles
                (allocate_in s.mem size b).1
                s.start_vaddr
                (c.front ++ (block size 1 ∷ c.back))
                e
        done =
            subst
              (λ z.
                ((allocate_in s.mem z b).0 ≡ b + 16)
                × Tiles (allocate_in s.mem z b).1 s.start_vaddr (c.front ++ (block z 1 ∷ c.back)) e)
              same
              (allocate_in_perfect s.mem s.start_vaddr c.front c.here c.back e b c.front_tiles
                c.holds c.back_tiles v.below ne (link 8 (v.prev_links b i))
                (link 12 (v.next_links b i)))

    place_split : size + 24 ≤ s.mem b → IsPlaced s bs e xs size (answer b)
    place_split large = record {
      x = b;
      front = c.front;
      here = c.here;
      back = c.back;
      rest = block (c.here.size - size - 24) 0 ∷ [];
      before = c.split;
      front_tiles = c.front_tiles;
      was_free = found_free;
      address = done.0;
      start_same = refl;
      after = done.1;
      rest_lem = inr (large', refl);
      best = least;
    }
      where
        large' : size + 24 ≤ c.here.size
        large' = omega (arith, large, c.holds)

        done :
            ((allocate_in s.mem size b).0 ≡ b + 16 + (c.here.size - size))
            × Tiles
                (allocate_in s.mem size b).1
                s.start_vaddr
                (c.front ++ (block (c.here.size - size - 24) 0 ∷ (block size 1 ∷ c.back)))
                e
            × ((allocate_in s.mem size b).1 (b + 8) ≡ s.mem (b + 8))
            × ((allocate_in s.mem size b).1 (b + 12) ≡ s.mem (b + 12))
        done =
            allocate_in_split s.mem s.start_vaddr c.front c.here c.back e b size c.front_tiles
              c.holds c.back_tiles v.below ne large'

  refuse : (b : ℕ) → IsBest s.mem size 0 xs b → b ≡ 0 → IsRefused s xs size (answer b)
  unfolding allocate_in
  refuse b best z = rw z (record { null = refl; same = refl; none_fits = none_fits })
    where
      none_fits : (x : ℕ) → In x xs → fits s.mem size x ≡ false
      none_fits x j = elim (Bool-cases (fits s.mem size x)) [
        | inl f ↦ absurd ((best.smallest x j f).0 z)
        | inr f ↦ f
      ]

  decide_best :
      (b : ℕ)
      → IsBest s.mem size 0 xs b
      → NoSliver s xs size
      → IsRefused s xs size (answer b) ⊎ IsPlaced s bs e xs size (answer b)
  decide_best b best gap = elim (Bool-cases (b == 0)) [
    | inl z ↦ inl (refuse b best (ground arith))
    | inr nz ↦
        let ne : b ≢ 0 = ground arith in
        elim best.member [
          | inl z ↦ absurd (ne z)
          | inr i ↦ elim (gap b i (best.large ne)) [
            | inl q ↦ inr (place_perfect b ne i best q)
            | inr l ↦ inr (place_split b ne i best l)
          ]
        ]
  ]

kmalloc_found :
    (fuel size n b : ℕ) (s : Heap)
    → 0 < size
    → round_up_4 size ≡ n
    → search fuel s.mem n s.start_vaddr 0 ≡ some b
    → kmalloc fuel s size
      ≡ some ((allocate_in s.mem n b).0, record s { mem = (allocate_in s.mem n b).1 })
unfolding kmalloc
kmalloc_found fuel size n b s pos r found =
    let nonzero : (size == 0) ≡ false = ground (arith, pos) in
    rw (nonzero, subst (λ k. search fuel s.mem k s.start_vaddr 0 ≡ some b) (sym r) found, r)

-- On a well-formed heap whose list has fewer blocks than the fuel, for a size from 1 to 2^32 - 4
-- that no free block of the list exceeds by less than 24 bytes once it is rounded up to a multiple
-- of 4, `kmalloc` ends. Either no free block of the list is large enough, and it returns 0 and
-- changes nothing; or it places a used block of the rounded size at the end of a smallest such
-- block, and all other blocks stay as they were.
pub kmalloc_lem :
    (fuel size : ℕ) (s : Heap) (bs : List Block) (e : ℕ) (xs : List ℕ)
    → IsHeap s bs e xs
    → length xs < fuel
    → 0 < size
    → size ≤ 2 ^ 32 - 4
    → NoSliver s xs ((size + 3) / 4 * 4)
    → (r : ℕ × Heap) × (kmalloc fuel s size ≡ some r)
      × (IsRefused s xs ((size + 3) / 4 * 4) r ⊎ IsPlaced s bs e xs ((size + 3) / 4 * 4) r)
unfolding kmalloc
kmalloc_lem fuel size s bs e xs v enough pos small gap =
    let n = (size + 3) / 4 * 4 in
    let (b, found, best) = search_lem fuel s.mem n s.start_vaddr xs v.chain enough in
    (
      answer s bs e xs n v b,
      kmalloc_found fuel size n b s pos (round_up_4_lem size small) found,
      decide_best s bs e xs n v b best gap,
    )
