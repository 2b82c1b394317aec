-- ===== src/Pmm/Totals.antt =====
-- The counter `pmm_frames_used` of kernel/pmm.c over what the users of the allocator do.
use mathlib.Core.Path.{subst, sym}
use rotary_os.Pmm.{dealloc_frame}
use rotary_os.Pmm.Count.{IsCounted, alloc_frame-IsCounted, dealloc_frame-IsCounted}
use rotary_os.Pmm.Session.{Session, Step, take, give, Reach, here, next, IsSafe, Reach-IsSafe}

Step-IsCounted : {u v : Session} → Step u v → IsSafe u → IsCounted u.pmm → IsCounted v.pmm
Step-IsCounted (take u has) safe c = alloc_frame-IsCounted u.pmm safe.range has c
Step-IsCounted (give u a h) safe c =
    let (f, e, l, used) = safe.held a h in
    subst (λ b. IsCounted (dealloc_frame u.pmm b)) (sym e)
      (dealloc_frame-IsCounted u.pmm f safe.range l used c)

-- From a safe state with the right counter, whose range lies below 4 GiB and has at most as many frames as the bitmap
-- has bits, after any sequence of allocations that find a frame and of frees of held addresses, `pmm_frames_used` is
-- the number of frames whose bit is set, what is held are addresses of frames in use, and nothing was written behind
-- the bitmap.
pub Reach-IsCounted :
    {u v : Session} → IsSafe u → IsCounted u.pmm → Reach u v → IsCounted v.pmm × IsSafe v
Reach-IsCounted safe c here = (c, safe)
Reach-IsCounted safe c (next r st) =
    let (counted, safe') = Reach-IsCounted safe c r in
    (Step-IsCounted st safe' counted, Reach-IsSafe safe (next r st))
