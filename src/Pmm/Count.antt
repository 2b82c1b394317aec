-- ===== src/Pmm/Count.antt =====
-- The counter `pmm_frames_used` of kernel/pmm.c against the bitmap.
use mathlib.Core.Path.{subst}
use rotary_os.Base.{
  ℕ, zero, suc, ◌+◌, ◌*◌, ◌^◌, ◌≤◌, ◌<◌, ◌≡◌, ◌≢◌, inl, inr, refl, Bool, true, false, arith, ◌==◌,
  if◌then◌else◌, Bool-cases, sub32, add32, sym, ◌∙◌,
}
use rotary_os.Pmm.{Pmm, set_frame_used, set_frame_free, alloc_frame, dealloc_frame}
use rotary_os.Pmm.Bitmap.{is_used, is_used-set_frame_used}
use rotary_os.Pmm.Alloc.{
  IsRange, HasFree, alloc_frame-IsAllocated, is_used-dealloc_frame, set_frame_used_range,
  dealloc_frame_range,
}

-- How many of the frames below `n` are in use.
unfoldable pub count_used : (ℕ → Bool) → ℕ → ℕ
count_used used zero = 0
count_used used (suc n) = if used n then count_used used n + 1 else count_used used n

-- The counter is the number of frames whose bit is set.
pub record IsCounted (s : Pmm) : Type 0 where
  pub exact : s.frames_used ≡ count_used (is_used s) s.frames_max

count_used-le : (used : ℕ → Bool) (n : ℕ) → count_used used n ≤ n
unfolding count_used
count_used-le used zero = omega arith
count_used-le used (suc n) = ground (arith, count_used-le used n)

pub count_used-none : (used : ℕ → Bool) (n : ℕ) → ((g : ℕ) → used g ≡ false) → count_used used n ≡ 0
unfolding count_used
count_used-none used zero h = refl
count_used-none used (suc n) h = ground (arith, h n, count_used-none used n h)

module _ (u v : ℕ → Bool) where
  count_used-same : (n : ℕ) → ((g : ℕ) → g < n → v g ≡ u g) → count_used v n ≡ count_used u n
  unfolding count_used
  count_used-same zero h = refl
  count_used-same (suc n) h = rw (h n (omega arith), count_used-same n (λ g l. h g (omega arith)))

  -- One more frame in use.
  count_used-insert :
      (n f : ℕ)
      → ((g : ℕ) → v g ≡ (if g == f then true else u g))
      → f < n
      → u f ≡ false
      → count_used v n ≡ count_used u n + 1
  unfolding count_used
  count_used-insert zero f h l free = absurd (omega arith)
  count_used-insert (suc n) f h l free = elim (Bool-cases (n == f)) [
    | inl e ↦
        let e' : n ≡ f = ground arith in
        let free' = subst (λ x. u x ≡ false) (sym e') free in
        ground (arith, h n, free', count_used-same n (λ g k. below e' g k))
    | inr ne ↦ ground (arith, h n, count_used-insert n f h (ground arith) free)
  ]
    where
      below : n ≡ f → (g : ℕ) → g < n → v g ≡ u g
      below e g k = ground (arith, h g)

count_used-pos : (u : ℕ → Bool) (n f : ℕ) → f < n → u f ≡ true → 0 < count_used u n
unfolding count_used
count_used-pos u zero f l h = absurd (omega arith)
count_used-pos u (suc n) f l h = elim (Bool-cases (n == f)) [
  | inl e ↦
      let e' : n ≡ f = ground arith in
      let h' = subst (λ x. u x ≡ true) (sym e') h in ground (arith, h')
  | inr ne ↦ ground (arith, count_used-pos u n f (ground arith) h)
]

frames_used-set_frame_used :
    (s : Pmm) (f : ℕ) → f < s.frames_max → (set_frame_used s f).frames_used ≡ add32 s.frames_used 1
unfolding set_frame_used
frames_used-set_frame_used s f h = ground arith

frames_used-dealloc_frame :
    (s : Pmm) (f : ℕ)
    → IsRange s
    → f < s.frames_max
    → (dealloc_frame s (s.memory_start + 4096 * f)).frames_used ≡ sub32 s.frames_used 1
unfolding dealloc_frame set_frame_free
frames_used-dealloc_frame s f v h = ground (arith, v.fits)

set-IsCounted :
    (s : Pmm) (f : ℕ)
    → s.frames_max ≤ 2 ^ 20
    → f < s.frames_max
    → is_used s f ≡ false
    → IsCounted s
    → IsCounted (set_frame_used s f)
set-IsCounted s f small h free c = record {
  exact =
      rw
        (
          frames_used-set_frame_used s f h,
          (set_frame_used_range s f).2,
          count_used-insert (is_used s) (is_used (set_frame_used s f)) s.frames_max f
              (λ g. is_used-set_frame_used s f g h) h free,
        )
        bounded;
}
  where
    bounded : add32 s.frames_used 1 ≡ count_used (is_used s) s.frames_max + 1
    bounded = omega (arith, c.exact, count_used-le (is_used s) s.frames_max, small)

-- Where the frames fit below 4 GiB and one that the search covers is free, `pmm_alloc_frame` keeps
-- `pmm_frames_used` the number of frames whose bit is set.
pub alloc_frame-IsCounted :
    (s : Pmm) → IsRange s → HasFree s → IsCounted s → IsCounted (alloc_frame s).1
alloc_frame-IsCounted s v has c =
    let (f, a) = alloc_frame-IsAllocated s v has in
    rw (a.state) (set-IsCounted s f (omega (arith, v.fits)) (omega (arith, a.below)) a.free c)

-- Clearing a frame in use takes it off the count.
count_used-dealloc_frame :
    (s : Pmm) (f : ℕ)
    → IsRange s
    → f < s.frames_max
    → is_used s f ≡ true
    → count_used (is_used s) s.frames_max
      ≡ count_used (is_used (dealloc_frame s (s.memory_start + 4096 * f))) s.frames_max + 1
count_used-dealloc_frame s f v h used =
    count_used-insert (is_used t) (is_used s) s.frames_max f back h
      (ground (arith, is_used-dealloc_frame s f f v h))
  where
    t : Pmm
    t = dealloc_frame s (s.memory_start + 4096 * f)

    back : (g : ℕ) → is_used s g ≡ (if g == f then true else is_used t g)
    back g = elim (Bool-cases (g == f)) [
      | inl e ↦
          let e' : g ≡ f = ground arith in rw e (subst (λ x. is_used s x ≡ true) (sym e') used)
      | inr ne ↦ ground (arith, is_used-dealloc_frame s f g v h)
    ]

-- Where the frames fit below 4 GiB, `pmm_dealloc_frame` of the address of a frame in use keeps
-- `pmm_frames_used` the number of frames whose bit is set.
pub dealloc_frame-IsCounted :
    (s : Pmm) (f : ℕ)
    → IsRange s
    → f < s.frames_max
    → is_used s f ≡ true
    → IsCounted s
    → IsCounted (dealloc_frame s (s.memory_start + 4096 * f))
dealloc_frame-IsCounted s f v h used c = record {
  exact =
      rw (frames_used-dealloc_frame s f v h, (dealloc_frame_range s (s.memory_start + 4096 * f)).2)
        (omega (
          arith,
          c.exact,
          v.fits,
          count_used-le (is_used s) s.frames_max,
          count_used-dealloc_frame s f v h used,
        ));
}

-- Where the frames fit below 4 GiB, `pmm_dealloc_frame` of the address of a frame that is already
-- free clears no bit and still lowers the counter (modulo 2^32), which then is no longer the number
-- of frames in use.
pub dealloc_frame_twice :
    (s : Pmm) (f : ℕ)
    → IsRange s
    → f < s.frames_max
    → is_used s f ≡ false
    → IsCounted s
    → let t = dealloc_frame s (s.memory_start + 4096 * f) in
      ((g : ℕ) → is_used t g ≡ is_used s g)
      × (t.frames_used ≡ sub32 s.frames_used 1)
      × (t.frames_used ≢ count_used (is_used t) t.frames_max)
dealloc_frame_twice s f v h free c = (
  same,
  frames_used-dealloc_frame s f v h,
  rw
      (
        frames_used-dealloc_frame s f v h,
        (dealloc_frame_range s a).2,
        count_used-same (is_used s) (is_used t) s.frames_max (λ g l. same g),
      )
      (omega (arith, c.exact, v.fits, count_used-le (is_used s) s.frames_max)),
)
  where
    a : ℕ
    a = s.memory_start + 4096 * f

    t : Pmm
    t = dealloc_frame s a

    same : (g : ℕ) → is_used t g ≡ is_used s g
    same g = elim (Bool-cases (g == f)) [
      | inl e ↦
          let e' : g ≡ f = ground arith in
          is_used-dealloc_frame s f g v h
          ∙ rw e (sym (subst (λ x. is_used s x ≡ false) (sym e') free))
      | inr ne ↦ ground (arith, is_used-dealloc_frame s f g v h)
    ]
