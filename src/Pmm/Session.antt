-- ===== src/Pmm/Session.antt =====
-- Users of kernel/pmm.c as a step relation: the allocator, and the addresses that its users hold.
use mathlib.Core.Path.{subst, ◌∙◌}
use rotary_os.Base.{
  ℕ, ◌+◌, ◌*◌, ◌<◌, ◌≡◌, inl, inr, Bool, true, false, arith, ◌==◌, Bool-cases, update, sym,
}
use rotary_os.Pmm.{Pmm, set_frame_used, alloc_frame, dealloc_frame}
use rotary_os.Pmm.Bitmap.{is_used, is_used-set_frame_used}
use rotary_os.Pmm.Alloc.{
  IsRange, HasFree, IsAllocated, alloc_frame-IsAllocated, is_used-dealloc_frame,
  set_frame_used_range, dealloc_frame_range, FitsBitmap, set_frame_used_inside,
  dealloc_frame_inside, alloc_frame_lem,
}

-- `live a` holds when a user holds the frame at address `a`.
pub record Session : Type 0 where
  pub pmm : Pmm
  pub live : ℕ → Bool

-- A user takes a frame while one is free, or gives back a frame that it holds.
pub data Step : Session → Session → Type 0 where
  take :
      (u : Session)
      → HasFree u.pmm
      → Step u
          (record { pmm = (alloc_frame u.pmm).1; live = update u.live (alloc_frame u.pmm).0 true })
  give :
      (u : Session) (a : ℕ)
      → u.live a ≡ true
      → Step u (record { pmm = dealloc_frame u.pmm a; live = update u.live a false })

pub data Reach (u : Session) : Session → Type 0 where
  here : Reach u u
  next : {v w : Session} → Reach u v → Step v w → Reach u w

-- The bitmap has room for the range and nothing was written behind it; what is held is a frame of the range
-- that is in use.
pub record IsSafe (u : Session) : Type 0 where
  pub range : IsRange u.pmm
  pub bitmap : FitsBitmap u.pmm
  pub inside : u.pmm.overrun ≡ false
  pub held :
      (a : ℕ)
      → u.live a ≡ true
      → (f : ℕ) × (a ≡ u.pmm.memory_start + 4096 * f)
        × (f < u.pmm.frames_max)
        × (is_used u.pmm f ≡ true)

take-IsSafe :
    (s : Pmm) (live : ℕ → Bool) (f : ℕ)
    → IsAllocated s (alloc_frame s) f
    → IsSafe (record { pmm = s; live = live })
    → IsSafe (record { pmm = (alloc_frame s).1; live = update live (alloc_frame s).0 true })
take-IsSafe s live f a safe =
    rw (a.state, a.address)
      (record {
        range = omega (arith, set_frame_used_range s f, safe.range.fits);
        bitmap = omega (arith, set_frame_used_range s f, safe.bitmap);
        inside = (set_frame_used_inside s f safe.bitmap below).1 ∙ safe.inside;
        held = held';
      })
  where
    t : Pmm
    t = set_frame_used s f

    below : f < s.frames_max
    below = omega (arith, a.below)

    held' :
        (b : ℕ)
        → update live (s.memory_start + 4096 * f) true b ≡ true
        → (g : ℕ) × (b ≡ t.memory_start + 4096 * g) × (g < t.frames_max) × (is_used t g ≡ true)
    held' b h = elim (Bool-cases (b == s.memory_start + 4096 * f)) [
      | inl same ↦ (
        f,
        ground (arith, set_frame_used_range s f),
        ground (arith, set_frame_used_range s f, below),
        ground (arith, is_used-set_frame_used s f f below),
      )
      | inr other ↦
          let (g, e, l, used) = safe.held b (ground arith) in
          (
            g,
            ground (arith, set_frame_used_range s f),
            ground (arith, set_frame_used_range s f),
            ground (arith, is_used-set_frame_used s f g below),
          )
    ]

give-IsSafe :
    (s : Pmm) (live : ℕ → Bool) (a : ℕ)
    → live a ≡ true
    → IsSafe (record { pmm = s; live = live })
    → IsSafe (record { pmm = dealloc_frame s a; live = update live a false })
give-IsSafe s live a h safe =
    let (f, e, l, used) = safe.held a h in
    record {
      range = omega (arith, dealloc_frame_range s a, safe.range.fits);
      bitmap = omega (arith, dealloc_frame_range s a, safe.bitmap);
      inside =
          subst (λ b. (dealloc_frame s b).overrun ≡ false) (sym e)
            (dealloc_frame_inside s f safe.range safe.bitmap l ∙ safe.inside);
      held = λ b hb. held' f e l b hb;
    }
  where
    t : Pmm
    t = dealloc_frame s a

    held' :
        (f : ℕ)
        → a ≡ s.memory_start + 4096 * f
        → f < s.frames_max
        → (b : ℕ) → update live a false b ≡ true
        → (g : ℕ) × (b ≡ t.memory_start + 4096 * g) × (g < t.frames_max) × (is_used t g ≡ true)
    held' f e l b hb =
        let other : (b == a) ≡ false = ground arith in
        let (g, e', l', used) = safe.held b (ground arith) in
        (
          g,
          ground (arith, dealloc_frame_range s a),
          ground (arith, dealloc_frame_range s a),
          subst (λ c. is_used (dealloc_frame s c) g ≡ true) (sym e)
              (ground (arith, is_used-dealloc_frame s f g safe.range l)),
        )

Step-IsSafe : {u v : Session} → Step u v → IsSafe u → IsSafe v
Step-IsSafe (take u has) safe =
    let (f, a) = alloc_frame-IsAllocated u.pmm safe.range has in take-IsSafe u.pmm u.live f a safe
Step-IsSafe (give u a h) safe = give-IsSafe u.pmm u.live a h safe

-- Whatever the users took and gave back before, held addresses stay those of frames in use.
pub Reach-IsSafe : {u v : Session} → IsSafe u → Reach u v → IsSafe v
Reach-IsSafe safe here = safe
Reach-IsSafe safe (next r st) = Step-IsSafe st (Reach-IsSafe safe r)

-- From a safe state, which has a range below 4 GiB of at most as many frames as the bitmap has bits, after any
-- sequence of allocations that find a frame and of frees of held addresses, an allocation that finds a frame never
-- returns an address that is still held, and up to then nothing was written behind the bitmap.
pub alloc_frame-not_live :
    {u v : Session}
    → IsSafe u
    → Reach u v
    → HasFree v.pmm
    → (v.live (alloc_frame v.pmm).0 ≡ false) × ((alloc_frame v.pmm).1.overrun ≡ false)
alloc_frame-not_live {v} safe r has =
    let now = Reach-IsSafe safe r in
    let (f, a, word, same) = alloc_frame_lem v.pmm now.range now.bitmap has in
    (
      elim (Bool-cases (v.live (alloc_frame v.pmm).0)) [
        | inl held ↦
            let (g, e, l, used) = now.held (alloc_frame v.pmm).0 held in
            let same : g ≡ f = omega (arith, e, a.address) in
            let busy : is_used v.pmm f ≡ true = subst (λ x. is_used v.pmm x ≡ true) same used in
            absurd (clash busy a.free)
        | inr fresh ↦ fresh
      ],
      same ∙ now.inside,
    )
  where
    clash : {b : Bool} → b ≡ true → b ≡ false → ⊥
    clash p q = cc
