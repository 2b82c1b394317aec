-- ===== src/Pmm/Alloc.antt =====
-- `pmm_alloc_frame` and `pmm_dealloc_frame` of kernel/pmm.c.
use mathlib.Core.Path.{subst}
use rotary_os.Base.{
  ℕ, ◌+◌, ◌-◌, ◌*◌, ◌/◌, ◌%◌, ◌^◌, ◌≤◌, ◌<◌, ◌≡◌, refl, Bool, true, false, leb, arith, ◌==◌,
  if◌then◌else◌, Option, none, some, sub32, ap, ◌∙◌,
}
use rotary_os.Pmm.{
  Pmm, set_frame_used, set_frame_free, get_first_free_frame, pmm_no_frames_avail, alloc_frame,
  dealloc_frame, frame_address, bitmap_words,
}
use rotary_os.Pmm.Bitmap.{is_used, is_used-set_frame_used, is_used-set_frame_free}
use rotary_os.Pmm.Search.{
  IsFirstFree, all_used, first, searched, found, get_first_free_frame-IsFirstFree,
}

-- The frames lie below 4 GiB, so that no frame address wraps.
pub record IsRange (s : Pmm) : Type 0 where
  pub fits : s.memory_start + 4096 * s.frames_max ≤ 2 ^ 32

-- The bitmap has a bit for each frame.
abbrev pub FitsBitmap : Pmm → Type 0
FitsBitmap s = s.frames_max ≤ 32 * bitmap_words

-- Some frame that the search covers is free.
abbrev pub HasFree : Pmm → Type 0
HasFree s = (f : ℕ) × (f < searched s) × (is_used s f ≡ false)

-- What an allocation that succeeds returns and does: the least free frame `f`.
pub record IsAllocated (s : Pmm) (r : ℕ × Pmm) (f : ℕ) : Type 0 where
  pub below : f < searched s
  pub free : is_used s f ≡ false
  pub least : (g : ℕ) → g < f → is_used s g ≡ true
  pub address : r.0 ≡ s.memory_start + 4096 * f
  pub state : r.1 ≡ set_frame_used s f

frames_max_bound : {s : Pmm} → IsRange s → s.frames_max < 2 ^ 32
frames_max_bound v = omega arith

alloc_found :
    {s : Pmm} (o : Option ℕ)
    → IsRange s
    → HasFree s
    → get_first_free_frame s ≡ found o
    → IsFirstFree (is_used s) 0 (searched s) o
    → (f : ℕ) × IsAllocated s (alloc_frame s) f
unfolding alloc_frame
alloc_found none v (f, h, free) e (all_used all) = absurd (clash (all f (omega arith) h) free)
  where
    clash : {b : Bool} → b ≡ true → b ≡ false → ⊥
    clash p q = cc
alloc_found {s} (some f) v has e (first l h free least) = (
  f,
  record {
    below = h;
    free = free;
    least = λ g. least g (omega arith);
    address = address;
    state = ap (set_frame_used s) e;
  },
)
  where
    address : frame_address s (get_first_free_frame s) ≡ s.memory_start + 4096 * f
    address = rw e (omega (arith, v.fits, h))

pub alloc_frame-IsAllocated :
    (s : Pmm) → IsRange s → HasFree s → (f : ℕ) × IsAllocated s (alloc_frame s) f
alloc_frame-IsAllocated s v has =
    let (o, e, h) = get_first_free_frame-IsFirstFree s (frames_max_bound v) in
    alloc_found o v has e h

-- Marking a frame writes inside the bitmap.
pub set_frame_used_inside :
    (s : Pmm) (f : ℕ)
    → FitsBitmap s
    → f < s.frames_max
    → (f / 32 < bitmap_words) × ((set_frame_used s f).overrun ≡ s.overrun)
unfolding set_frame_used
set_frame_used_inside s f fit h = (omega arith, ground arith)

pub dealloc_frame_inside :
    (s : Pmm) (f : ℕ)
    → IsRange s
    → FitsBitmap s
    → f < s.frames_max
    → (dealloc_frame s (s.memory_start + 4096 * f)).overrun ≡ s.overrun
unfolding dealloc_frame set_frame_free
dealloc_frame_inside s f v fit h =
    let e : sub32 (s.memory_start + 4096 * f) s.memory_start / 4096 ≡ f = omega (arith, v.fits) in
    let low : leb bitmap_words (f / 32) ≡ false = ground (arith, fit, h) in
    rw e (ground (arith, low, h))

pub alloc_frame_lem :
    (s : Pmm)
    → IsRange s
    → FitsBitmap s
    → HasFree s
    → (f : ℕ) × IsAllocated s (alloc_frame s) f
      × (f / 32 < bitmap_words)
      × ((alloc_frame s).1.overrun ≡ s.overrun)
alloc_frame_lem s v fit has =
    let (f, a) = alloc_frame-IsAllocated s v has in
    let (word, same) = set_frame_used_inside s f fit (omega (arith, a.below)) in
    (f, a, word, rw (a.state) same)

-- When every frame that the search covers is in use, `pmm_alloc_frame` changes nothing and still
-- returns an address: the one a frame below the start of the range, modulo 2^32.
pub alloc_frame_exhausted :
    (s : Pmm)
    → IsRange s
    → ((f : ℕ) → f < searched s → is_used s f ≡ true)
    → alloc_frame s ≡ ((s.memory_start + 2 ^ 32 - 4096) % 2 ^ 32, s)
unfolding alloc_frame set_frame_used
alloc_frame_exhausted s v all =
    let (o, e, h) = get_first_free_frame-IsFirstFree s (frames_max_bound v) in
    let none_found = no_free o h in
    let e' : get_first_free_frame s ≡ pmm_no_frames_avail = e ∙ none_found in
    rw e' (ground (arith, v.fits))
  where
    no_free :
        (o : Option ℕ) → IsFirstFree (is_used s) 0 (searched s) o → found o ≡ pmm_no_frames_avail
    no_free none h = refl
    no_free (some f) (first l h free least) = cc (all f h)

-- Freeing the address of frame `f` clears exactly that frame's bit.
pub is_used-dealloc_frame :
    (s : Pmm) (f g : ℕ)
    → IsRange s
    → f < s.frames_max
    → is_used (dealloc_frame s (s.memory_start + 4096 * f)) g
      ≡ (if g == f then false else is_used s g)
unfolding dealloc_frame
is_used-dealloc_frame s f g v h =
    let e : sub32 (s.memory_start + 4096 * f) s.memory_start / 4096 ≡ f = omega (arith, v.fits) in
    rw e (is_used-set_frame_free s f g h)

-- Setting a frame keeps the range of frames.
pub set_frame_used_range :
    (s : Pmm) (f : ℕ)
    → ((set_frame_used s f).memory_start ≡ s.memory_start)
      × ((set_frame_used s f).memory_end ≡ s.memory_end)
      × ((set_frame_used s f).frames_max ≡ s.frames_max)
unfolding set_frame_used
set_frame_used_range s f = ground arith

pub dealloc_frame_range :
    (s : Pmm) (a : ℕ)
    → ((dealloc_frame s a).memory_start ≡ s.memory_start)
      × ((dealloc_frame s a).memory_end ≡ s.memory_end)
      × ((dealloc_frame s a).frames_max ≡ s.frames_max)
unfolding dealloc_frame set_frame_free
dealloc_frame_range s a = ground arith

-- After a successful allocation the returned frame is used, and no other frame changes.
pub is_used-alloc_frame :
    (s : Pmm) {f : ℕ} (g : ℕ)
    → IsAllocated s (alloc_frame s) f
    → is_used (alloc_frame s).1 g ≡ (if g == f then true else is_used s g)
is_used-alloc_frame s {f} g a = rw (a.state) (is_used-set_frame_used s f g (omega (arith, a.below)))

-- `t` has the frames, the counter and the range of `s`, and nothing was written behind the bitmap on the way.
abbrev pub Restores : Pmm → Pmm → Type 0
Restores s t =
    ((g : ℕ) → is_used t g ≡ is_used s g)
    × (t.frames_used ≡ s.frames_used)
    × (t.frames_max ≡ s.frames_max)
    × (t.memory_start ≡ s.memory_start)
    × (t.overrun ≡ s.overrun)

set_frame_used-IsRange : (s : Pmm) (f : ℕ) → IsRange s → IsRange (set_frame_used s f)
set_frame_used-IsRange s f v = omega (arith, set_frame_used_range s f, v.fits)

frames_used-dealloc_frame-set :
    (s : Pmm) (f : ℕ)
    → IsRange s
    → f < s.frames_max
    → s.frames_used < 2 ^ 32
    → (dealloc_frame (set_frame_used s f) (s.memory_start + 4096 * f)).frames_used ≡ s.frames_used
unfolding dealloc_frame set_frame_free set_frame_used
frames_used-dealloc_frame-set s f v h u = ground (arith, v.fits)

dealloc-set :
    (s : Pmm) (f : ℕ)
    → IsRange s
    → f < s.frames_max
    → is_used s f ≡ false
    → s.frames_used < 2 ^ 32
    → FitsBitmap s
    → Restores s (dealloc_frame (set_frame_used s f) (s.memory_start + 4096 * f))
dealloc-set s f v h free u fit = (
  λ g. same g,
  frames_used-dealloc_frame-set s f v h u,
  (dealloc_frame_range t a).2 ∙ (set_frame_used_range s f).2,
  (dealloc_frame_range t a).0 ∙ (set_frame_used_range s f).0,
  subst (λ b. (dealloc_frame t (b + 4096 * f)).overrun ≡ s.overrun) start
      (dealloc_frame_inside t f (set_frame_used-IsRange s f v)
          (omega (arith, set_frame_used_range s f, fit)) bound
        ∙ (set_frame_used_inside s f fit h).1),
)
  where
    t : Pmm
    t = set_frame_used s f

    a : ℕ
    a = s.memory_start + 4096 * f

    start : t.memory_start ≡ s.memory_start
    start = (set_frame_used_range s f).0

    bound : f < t.frames_max
    bound = omega (arith, set_frame_used_range s f, h)

    same : (g : ℕ) → is_used (dealloc_frame t a) g ≡ is_used s g
    same g =
        subst (λ b. is_used (dealloc_frame t (b + 4096 * f)) g ≡ is_used s g) start
          (ground (
            arith,
            is_used-dealloc_frame t f g (set_frame_used-IsRange s f v) bound,
            is_used-set_frame_used s f g h,
            free,
          ))

-- For a range below 4 GiB of at most as many frames as the bitmap has bits, while a frame of the whole words is free,
-- `pmm_dealloc_frame` of the address that `pmm_alloc_frame` returns undoes the allocation: every frame is in use or
-- free as before, the counter and the range are as before, and both write inside the bitmap only.
pub dealloc-alloc :
    (s : Pmm)
    → IsRange s
    → HasFree s
    → FitsBitmap s
    → s.frames_used < 2 ^ 32
    → Restores s (dealloc_frame (alloc_frame s).1 (alloc_frame s).0)
dealloc-alloc s v has fit u =
    let (f, a) = alloc_frame-IsAllocated s v has in
    rw (a.state, a.address) (dealloc-set s f v (omega (arith, a.below)) a.free u fit)
