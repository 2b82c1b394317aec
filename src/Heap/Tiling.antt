-- ===== src/Heap/Tiling.antt =====
-- The heap of kernel/kheap.c as a row of blocks that cover it without gaps, each with a header and
-- a trailer that agree.
use mathlib.Core.Path.{subst, sym, ap}
use rotary_os.Base.{
  ℕ, ◌+◌, ◌≤◌, ◌<◌, ◌≡◌, ◌⊎◌, inl, inr, refl, List, [], ◌∷◌, ◌++◌, arith, ◌∙◌, update,
}
use rotary_os.Heap.{Mem}

pub record Block : Type 0 where
  pub size : ℕ
  pub used : ℕ

abbrev pub block : ℕ → ℕ → Block
block size used = record { size = size; used = used }

-- The header at `a` and its trailer say `b`. The addresses are plain sums: the heap ends below
-- 4 GiB.
abbrev pub Holds : Mem → ℕ → Block → Type 0
Holds m a b =
    (m a ≡ b.size)
    × (m (a + 4) ≡ b.used)
    × (m (a + 16 + b.size) ≡ b.size)
    × (m (a + 20 + b.size) ≡ b.used)

-- The address behind a block at `a`.
abbrev pub behind : ℕ → Block → ℕ
behind a b = a + 24 + b.size

-- The blocks fill the memory from `a` to `e`.
abbrev pub Tiles : Mem → ℕ → List Block → ℕ → Type 0
Tiles m a [] e = a ≡ e
Tiles m a (b ∷ bs) e = Holds m a b × Tiles m (behind a b) bs e

pub Tiles-le : (m : Mem) (a : ℕ) (bs : List Block) (e : ℕ) → Tiles m a bs e → a ≤ e
Tiles-le m a [] e t = omega arith
Tiles-le m a (b ∷ bs) e (h, t) = omega (arith, Tiles-le m (behind a b) bs e t)

-- Only the words of the blocks matter.
pub Tiles-frame :
    (m m' : Mem) (a : ℕ) (bs : List Block) (e : ℕ)
    → Tiles m a bs e
    → ((x : ℕ) → a ≤ x → x < e → m' x ≡ m x)
    → Tiles m' a bs e
Tiles-frame m m' a [] e t same = t
Tiles-frame m m' a (b ∷ bs) e ((h0, h1, h2, h3), t) same =
    let le = Tiles-le m (behind a b) bs e t in
    (
      (
        same a (omega arith) (omega arith) ∙ h0,
        same (a + 4) (omega arith) (omega arith) ∙ h1,
        same (a + 16 + b.size) (omega arith) (omega arith) ∙ h2,
        same (a + 20 + b.size) (omega arith) (omega arith) ∙ h3,
      ),
      Tiles-frame m m' (behind a b) bs e t (λ x l u. same x (omega arith) u),
    )

-- Two rows that meet are one.
pub Tiles-append :
    (m : Mem) (a : ℕ) (bs : List Block) (c : ℕ) (cs : List Block) (e : ℕ)
    → Tiles m a bs c
    → Tiles m c cs e
    → Tiles m a (bs ++ cs) e
Tiles-append m a [] c cs e t u = subst (λ x. Tiles m x cs e) (sym t) u
Tiles-append m a (b ∷ bs) c cs e (h, t) u = (h, Tiles-append m (behind a b) bs c cs e t u)

-- The blocks `mids` from `x` to `z`, written without touching the memory around them.
pub Tiles-replace :
    (m m' : Mem) (a : ℕ) (front mids back : List Block) (e x z : ℕ)
    → Tiles m a front x
    → Tiles m z back e
    → Tiles m' x mids z
    → ((y : ℕ) → (y < x) ⊎ (z ≤ y) → m' y ≡ m y)
    → Tiles m' a (front ++ (mids ++ back)) e
Tiles-replace m m' a front mids back e x z f b mid same =
    Tiles-append m' a front x (mids ++ back) e
      (Tiles-frame m m' a front x f (λ y l u. same y (inl u)))
      (Tiles-append m' x mids z back e mid (Tiles-frame m m' z back e b (λ y l u. same y (inr l))))

-- A header of the row stands at `x`.
abbrev pub BlockAt : ℕ → List Block → ℕ → Type 0
BlockAt a [] x = ⊥
BlockAt a (b ∷ bs) x = (x ≡ a) ⊎ BlockAt (behind a b) bs x

pub BlockAt-le : (a : ℕ) (bs : List Block) (x : ℕ) → BlockAt a bs x → a ≤ x
BlockAt-le a [] x i = absurd i
BlockAt-le a (b ∷ bs) x (inl e) = omega arith
BlockAt-le a (b ∷ bs) x (inr i) = omega (arith, BlockAt-le (behind a b) bs x i)

-- A block lies inside the row.
pub BlockAt-end :
    (m : Mem) (a : ℕ) (bs : List Block) (e x : ℕ) → Tiles m a bs e → BlockAt a bs x → x + 24 ≤ e
BlockAt-end m a [] e x t i = absurd i
BlockAt-end m a (b ∷ bs) e x (h, t) (inl q) = omega (arith, Tiles-le m (behind a b) bs e t)
BlockAt-end m a (b ∷ bs) e x (h, t) (inr i) = BlockAt-end m (behind a b) bs e x t i

-- Where the headers stand depends on the sizes alone.
pub BlockAt-retag :
    (a : ℕ) (front : List Block) (b c : Block) (back : List Block) (x : ℕ)
    → b.size ≡ c.size
    → BlockAt a (front ++ (b ∷ back)) x
    → BlockAt a (front ++ (c ∷ back)) x
BlockAt-retag a [] b c back x q (inl e) = inl e
BlockAt-retag a [] b c back x q (inr i) = inr (subst (λ s. BlockAt (a + 24 + s) back x) q i)
BlockAt-retag a (d ∷ front) b c back x q (inl e) = inl e
BlockAt-retag a (d ∷ front) b c back x q (inr i) =
    inr (BlockAt-retag (behind a d) front b c back x q i)

-- The row cut at a block.
pub record Cut (m : Mem) (a : ℕ) (bs : List Block) (e x : ℕ) : Type 0 where
  pub front : List Block
  pub here : Block
  pub back : List Block
  pub split : bs ≡ front ++ (here ∷ back)
  pub front_tiles : Tiles m a front x
  pub holds : Holds m x here
  pub back_tiles : Tiles m (behind x here) back e

pub cut :
    (m : Mem) (a : ℕ) (bs : List Block) (e x : ℕ) → Tiles m a bs e → BlockAt a bs x → Cut m a bs e x
cut m a [] e x t i = absurd i
cut m a (b ∷ bs) e x (h, t) (inl q) = record {
  front = [];
  here = b;
  back = bs;
  split = refl;
  front_tiles = sym q;
  holds = subst (λ y. Holds m y b) (sym q) h;
  back_tiles = subst (λ y. Tiles m (behind y b) bs e) (sym q) t;
}
cut m a (b ∷ bs) e x (h, t) (inr i) =
    let c = cut m (behind a b) bs e x t i in
    record {
      front = b ∷ c.front;
      here = c.here;
      back = c.back;
      split = ap (λ l. b ∷ l) c.split;
      front_tiles = (h, c.front_tiles);
      holds = c.holds;
      back_tiles = c.back_tiles;
    }

-- A write to a link field of a block's header is no write to the row.
pub Tiles-link :
    (m : Mem) (a : ℕ) (bs : List Block) (e x k v : ℕ)
    → Tiles m a bs e
    → BlockAt a bs x
    → 8 ≤ k
    → k < 16
    → Tiles (update m (x + k) v) a bs e
Tiles-link m a [] e x k v t i l u = absurd i
Tiles-link m a (b ∷ bs) e x k v (h, t) (inl q) l u =
    (ground arith, Tiles-frame m (update m (x + k) v) (behind a b) bs e t (λ y l' u'. ground arith))
Tiles-link m a (b ∷ bs) e x k v (h, t) (inr i) l u =
    let le = BlockAt-le (behind a b) bs x i in
    (ground arith, Tiles-link m (behind a b) bs e x k v t i l u)
