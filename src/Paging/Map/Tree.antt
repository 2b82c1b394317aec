-- ===== src/Paging/Map/Tree.antt =====
-- The page directory and the tables below it, as `paging_map` of arch/x86/kernel/paging.c keeps them: each
-- table is a frame of its own.
use rotary_os.Base.{
  ℕ, ◌+◌, ◌*◌, ◌/◌, ◌%◌, ◌^◌, ◌≤◌, ◌<◌, ◌≡◌, ◌≢◌, ◌⊎◌, inl, inr, sym, arith, Bool, true, false,
}
use mathlib.Core.Path.{◌∙◌, subst}
use rotary_os.Heap.{Mem}
use rotary_os.Pmm.{Pmm, set_frame_used}
use rotary_os.Pmm.Bitmap.{is_used, is_used-set_frame_used}
use rotary_os.Pmm.Alloc.{IsRange, set_frame_used_range}
use rotary_os.Paging.Map.Walk.{walk, walk_eq, walk_absent, walk_empty, IsTable, table_of}

-- The address of a frame of the range that is in use.
abbrev pub IsFrame : Pmm → ℕ → Type 0
IsFrame s a = (f : ℕ) × (a ≡ s.memory_start + 4096 * f) × (f < s.frames_max) × (is_used s f ≡ true)

-- The directory is a page, none of the free ones, and no entry below the kernel's half is a page of
-- 4 MiB. Its tables are frames in use, each of one entry, and not the directory.
pub record IsTree (m : Mem) (s : Pmm) (pd : ℕ) : Type 0 where
  pub range : IsRange s
  pub start : s.memory_start % 4096 ≡ 0
  pub aligned : pd % 4096 ≡ 0
  pub fits : pd + 4096 ≤ 2 ^ 32
  pub taken : (f : ℕ) → f < s.frames_max → is_used s f ≡ false → pd ≢ s.memory_start + 4096 * f
  pub plain : (d : ℕ) → d < 768 → m (pd + d * 4) / 128 % 2 ≡ 0
  pub tables : (d : ℕ) → d < 1024 → IsTable m pd d → IsFrame s (table_of m pd d)
  pub outside : (d : ℕ) → d < 1024 → IsTable m pd d → table_of m pd d ≢ pd
  pub apart :
      (d e : ℕ)
      → d < 1024
      → e < 1024
      → d ≢ e
      → IsTable m pd d
      → IsTable m pd e
      → table_of m pd d ≢ table_of m pd e

pub frame_place :
    (s : Pmm) (a : ℕ)
    → IsRange s
    → s.memory_start % 4096 ≡ 0
    → IsFrame s a
    → (a % 4096 ≡ 0) × (a + 4096 ≤ 2 ^ 32)
frame_place s a r h (f, e, l, u) = let fits = r.fits in (omega arith, omega arith)

not_free : (s : Pmm) {f g : ℕ} → is_used s f ≡ true → is_used s g ≡ false → f ≢ g
not_free s {f} {g} p q e = absurd (clash (subst (λ k. is_used s k ≡ true) e p) q)
  where
    clash : {b : Bool} → b ≡ true → b ≡ false → ⊥
    clash x y = cc

-- `n` is the memory `m` with an empty table at the free frame `f` for entry `d`.
module _ (m n : Mem) (s : Pmm) (pd d f : ℕ) (tree : IsTree m s pd) (below : d < 768)
    (absent : m (pd + d * 4) % 2 ≡ 0) (room : f < s.frames_max) (free : is_used s f ≡ false)
    (entry : IsTable n pd d) (place : table_of n pd d ≡ s.memory_start + 4096 * f)
    (far : (a : ℕ)
      → (a < s.memory_start + 4096 * f) ⊎ (s.memory_start + 4096 * f + 4096 ≤ a)
      → a ≢ pd + d * 4
      → n a ≡ m a) where
  other : (k : ℕ) → k < 1024 → k ≢ d → n (pd + k * 4) ≡ m (pd + k * 4)
  other k b ne =
      let p = tree.taken f room free in
      let q = tree.aligned in let r = tree.start in far (pd + k * 4) (omega arith) (omega arith)

  kept-IsFrame : (a : ℕ) → IsFrame s a → IsFrame (set_frame_used s f) a
  kept-IsFrame a (g, e, l, u) = (
    g,
    ground (arith, set_frame_used_range s f),
    ground (arith, set_frame_used_range s f),
    ground (arith, is_used-set_frame_used s f g room),
  )

  new-IsFrame : IsFrame (set_frame_used s f) (s.memory_start + 4096 * f)
  new-IsFrame = (
    f,
    ground (arith, set_frame_used_range s f),
    ground (arith, set_frame_used_range s f),
    ground (arith, is_used-set_frame_used s f f room),
  )

  -- The new frame is the table of no other entry.
  new_apart : (k : ℕ) → k < 1024 → IsTable m pd k → table_of m pd k ≢ s.memory_start + 4096 * f
  new_apart k b h =
      let (g, e, l, u) = tree.tables k b h in let ne : g ≢ f = not_free s u free in omega arith

  same_or : (k : ℕ) → (k ≡ d) ⊎ (k ≢ d)
  same_or k = omega arith

  pub grown-IsTree : IsTree n (set_frame_used s f) pd
  grown-IsTree = record {
    range = omega (arith, set_frame_used_range s f, tree.range.fits);
    start = omega (arith, set_frame_used_range s f, tree.start);
    aligned = tree.aligned;
    fits = tree.fits;
    taken = λ g l u e.
        let l' : g < s.frames_max = ground (arith, set_frame_used_range s f) in
        let u' : is_used s g ≡ false = ground (arith, is_used-set_frame_used s f g room) in
        tree.taken g l' u' (omega (arith, e, set_frame_used_range s f));
    plain = λ k b. elim (same_or k) [
      | inl e ↦ rw e entry.1
      | inr ne ↦ rw (other k (omega arith) ne) (tree.plain k b)
    ];
    tables = λ k b. elim (same_or k) [
      | inl e ↦ λ h. rw (e, place) new-IsFrame
      | inr ne ↦ rw (other k b ne) (λ h. kept-IsFrame (table_of m pd k) (tree.tables k b h))
    ];
    outside = λ k b. elim (same_or k) [
      | inl e ↦ λ h. rw (e, place) (λ q. tree.taken f room free (sym q))
      | inr ne ↦ rw (other k b ne) (tree.outside k b)
    ];
    apart = λ k j b c ne. elim (same_or k) [
      | inl e ↦ rw (e, place, other j c (omega arith)) (λ h h' q. new_apart j c h' (sym q))
      | inr nk ↦ elim (same_or j) [
        | inl e ↦ rw (e, place, other k b nk) (λ h h'. new_apart k b h)
        | inr nj ↦ rw (other k b nk, other j c nj) (tree.apart k j b c ne)
      ]
    ];
  }

  -- No address is mapped otherwise.
  pub grown_walk :
      ((i : ℕ) → i < 1024 → n (s.memory_start + 4096 * f + i * 4) % 2 ≡ 0)
      → (v : ℕ) → v < 2 ^ 32
      → walk n pd v ≡ walk m pd v
  grown_walk empty v b = elim (same_or (v / 2 ^ 22)) [
    | inl e ↦
        let there : IsTable n pd (v / 2 ^ 22) = rw e entry in
        let nothing : n (table_of n pd (v / 2 ^ 22) + v / 4096 % 1024 * 4) % 2 ≡ 0 =
          rw (e, place) (empty (v / 4096 % 1024) (omega arith)) in
        walk_empty n pd v there nothing ∙ sym (walk_absent m pd v (rw e absent))
    | inr ne ↦ walk_eq m n pd v (other (v / 2 ^ 22) (omega arith) ne) λ h.
        let (g, q, l, u) = tree.tables (v / 2 ^ 22) (omega arith) h in
        let start = tree.start in
        let aligned = tree.aligned in
        let na = new_apart (v / 2 ^ 22) (omega arith) h in
        let no = tree.outside (v / 2 ^ 22) (omega arith) h in
        far (table_of m pd (v / 2 ^ 22) + v / 4096 % 1024 * 4) (omega arith) (omega arith)
  ]
