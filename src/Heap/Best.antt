-- ===== src/Heap/Best.antt =====
-- The search of `kmalloc` (kernel/kheap.c): it ends on any free list that ends, and finds a
-- smallest free block that is large enough.
use mathlib.Core.Path.{subst, sym}
use rotary_os.Base.{
  ℕ, zero, suc, ◌≤◌, ◌<◌, ◌≡◌, ◌≢◌, ◌⊎◌, inl, inr, refl, Bool, true, ◌&&◌, some, List, [], ◌∷◌, leb,
  ◌==◌, arith, le_refl, ◌∙◌,
}
use rotary_os.Base.Lists.{length}
use rotary_os.Heap.{Mem, used_at, next_at, better, search}

-- From `a` the `next_free_block` fields lead through the headers of the list to 0.
abbrev pub Chain : Mem → ℕ → List ℕ → Type 0
Chain m a [] = a ≡ 0
Chain m a (x ∷ xs) = (a ≡ x) × (x ≢ 0) × Chain m (m (next_at x)) xs

abbrev pub In : ℕ → List ℕ → Type 0
In a [] = ⊥
In a (x ∷ xs) = (a ≡ x) ⊎ In a xs

-- The block at `x` is free and has `size` bytes.
abbrev pub fits : Mem → ℕ → ℕ → Bool
fits m size x = (m (used_at x) == 0) && leb size (m x)

-- The rounds of the search over a list.
best_of : Mem → ℕ → ℕ → List ℕ → ℕ
best_of m size best [] = best
best_of m size best (x ∷ xs) = best_of m size (better m size x best) xs

search-best_of :
    (k : ℕ) (m : Mem) (size a best : ℕ) (xs : List ℕ)
    → Chain m a xs
    → length xs < k
    → search k m size a best ≡ some (best_of m size best xs)
unfolding search best_of
search-best_of zero m size a best xs c h = absurd (omega arith)
search-best_of (suc k) m size a best [] c h = ground (arith, c)
search-best_of (suc k) m size a best (x ∷ xs) (e, ne, c) h = rw e (
    ground (
      arith,
      ne,
      search-best_of k m size (m (next_at x)) (better m size x best) xs c (omega arith),
    ))

-- What the search has found, from `best` on, when it returns `r`.
pub record IsBest (m : Mem) (size best : ℕ) (xs : List ℕ) (r : ℕ) : Type 0 where
  pub member : (r ≡ best) ⊎ In r xs
  pub large : r ≢ 0 → fits m size r ≡ true
  pub kept : best ≢ 0 → (r ≢ 0) × (m r ≤ m best)
  pub smallest : (x : ℕ) → In x xs → fits m size x ≡ true → (r ≢ 0) × (m r ≤ m x)

-- One round.
record IsBetter (m : Mem) (size x best r : ℕ) : Type 0 where
  member : (r ≡ best) ⊎ (r ≡ x)
  large : r ≢ 0 → fits m size r ≡ true
  kept : best ≢ 0 → (r ≢ 0) × (m r ≤ m best)
  smaller : fits m size x ≡ true → (r ≢ 0) × (m r ≤ m x)

better-IsBetter :
    (m : Mem) (size x best : ℕ)
    → x ≢ 0
    → (best ≢ 0 → fits m size best ≡ true)
    → IsBetter m size x best (better m size x best)
unfolding better
better-IsBetter m size x best ne good = record {
  member = ground arith;
  large = ground arith;
  kept = ground arith;
  smaller = ground arith;
}

IsBest-cons :
    (m : Mem) (size x best b r : ℕ) (xs : List ℕ)
    → IsBetter m size x best b
    → IsBest m size b xs r
    → IsBest m size best (x ∷ xs) r
IsBest-cons m size x best b r xs step rest = record {
  member = from rest.member step.member;
  large = rest.large;
  kept = λ ne. ground (arith, step.kept ne, rest.kept);
  smallest = least;
}
  where
    from : (r ≡ b) ⊎ In r xs → (b ≡ best) ⊎ (b ≡ x) → (r ≡ best) ⊎ ((r ≡ x) ⊎ In r xs)
    from (inl e) (inl e') = inl (e ∙ e')
    from (inl e) (inr e') = inr (inl (e ∙ e'))
    from (inr i) j = inr (inr i)

    new : fits m size x ≡ true → (r ≢ 0) × (m r ≤ m x)
    new f = ground (arith, step.smaller f, rest.kept)

    least : (y : ℕ) → (y ≡ x) ⊎ In y xs → fits m size y ≡ true → (r ≢ 0) × (m r ≤ m y)
    least y (inl e) f =
        subst (λ t. (r ≢ 0) × (m r ≤ m t)) (sym e) (new (subst (λ t. fits m size t ≡ true) e f))
    least y (inr i) f = rest.smallest y i f

best_of-IsBest :
    (m : Mem) (size a best : ℕ) (xs : List ℕ)
    → Chain m a xs
    → (best ≢ 0 → fits m size best ≡ true)
    → IsBest m size best xs (best_of m size best xs)
unfolding best_of
best_of-IsBest m size a best [] c good = record {
  member = inl refl;
  large = good;
  kept = λ ne. (ne, le_refl (m best));
  smallest = λ x i. absurd i;
}
best_of-IsBest m size a best (x ∷ xs) (e, ne, c) good =
    let step = better-IsBetter m size x best ne good in
    IsBest-cons m size x best (better m size x best) (best_of m size (better m size x best) xs) xs
      step (best_of-IsBest m size (m (next_at x)) (better m size x best) xs c step.large)

-- On a list of headers that ends, the search of `kmalloc` ends within as many rounds as the list
-- has blocks and one more; the block that it returns is a free block of the list with at least
-- `size` bytes and no more than any other such block, and it returns 0 only if there is none.
pub search_lem :
    (fuel : ℕ) (m : Mem) (size start : ℕ) (xs : List ℕ)
    → Chain m start xs
    → length xs < fuel
    → (r : ℕ) × (search fuel m size start 0 ≡ some r) × IsBest m size 0 xs r
search_lem fuel m size start xs c h = (
  best_of m size 0 xs,
  search-best_of fuel m size start 0 xs c h,
  best_of-IsBest m size start 0 xs c (λ ne. absurd (ne refl)),
)
