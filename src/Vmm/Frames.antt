-- ===== src/Vmm/Frames.antt =====
-- The frames that `vmm_init` of kernel/vmm.c takes: the first ones, one after another.
use rotary_os.Base.{
  ℕ, zero, suc, ◌+◌, ◌*◌, ◌≤◌, ◌<◌, ◌≡◌, refl, sym, ap, arith, Bool, true, false, ltb, ◌==◌,
}
use mathlib.Core.Path.{◌∙◌}
use rotary_os.Pmm.{Pmm, alloc_frame}
use rotary_os.Pmm.Bitmap.{is_used, is_used-set_frame_used}
use rotary_os.Pmm.Search.{searched}
use rotary_os.Pmm.Alloc.{IsRange, alloc_frame-IsAllocated, set_frame_used_range}
use rotary_os.Vmm.{take_frames}

-- The frames in use are those below `k`, in a range that starts above 0.
pub record IsFilled (s : Pmm) (k : ℕ) : Type 0 where
  pub range : IsRange s
  pub above : 0 < s.memory_start
  pub filled : (g : ℕ) → g < s.frames_max → is_used s g ≡ ltb g k

-- `t` has the range of `s`, and the frames below `k` in use.
pub record IsTaken (s : Pmm) (k : ℕ) (t : Pmm) : Type 0 where
  pub now : IsFilled t k
  pub start : t.memory_start ≡ s.memory_start
  pub max : t.frames_max ≡ s.frames_max

-- The next frame is `k`.
pub alloc_frame-IsTaken :
    (s : Pmm) (k : ℕ)
    → IsFilled s k
    → k < searched s
    → ((alloc_frame s).0 ≡ s.memory_start + 4096 * k) × IsTaken s (suc k) (alloc_frame s).1
alloc_frame-IsTaken s k h b =
    let small : k < s.frames_max = omega arith in
    let free : is_used s k ≡ false = h.filled k small ∙ ground arith in
    let (f, a) = alloc_frame-IsAllocated s h.range (k, b, free) in
    let room : f < s.frames_max = omega (arith, a.below) in
    let low : ltb f k ≡ false = sym (h.filled f room) ∙ a.free in
    let same : f ≡ k = first f low λ l. clash (a.least k l) free in
    let range = set_frame_used_range s f in
    (
      a.address ∙ ap (λ x. s.memory_start + 4096 * x) same,
      rw (a.state) (record {
        now = record {
          range = omega (arith, range, h.range.fits);
          above = omega (arith, range, h.above);
          filled = λ g l.
              let l' : g < s.frames_max = omega (arith, range) in
              ground (arith, is_used-set_frame_used s f g room, h.filled g l', same);
        };
        start = range.0;
        max = range.2;
      }),
    )
  where
    clash : {b : Bool} → b ≡ true → b ≡ false → ⊥
    clash p q = cc

    first : (f : ℕ) → ltb f k ≡ false → (k < f → ⊥) → f ≡ k
    first f l u = ground (arith, l, u)

-- The loop takes `n` frames more.
pub take_frames-IsTaken :
    (n : ℕ) (s : Pmm) (k : ℕ)
    → IsFilled s k
    → k + n ≤ searched s
    → ((take_frames n s).0 ≡ 0) × IsTaken s (k + n) (take_frames n s).1
unfolding take_frames
take_frames-IsTaken zero s k h b =
    let e : k + 0 ≡ k = omega arith in (refl, record { now = rw e h; start = refl; max = refl })
take_frames-IsTaken (suc n) s k h b =
    let (address, one) = alloc_frame-IsTaken s k h (omega arith) in
    let above = h.above in
    let max = one.max in
    let live : ((alloc_frame s).0 == 0) ≡ false = rw address (ground arith) in
    let (result, rest) =
      take_frames-IsTaken n (alloc_frame s).1 (suc k) one.now (omega (arith, max)) in
    let e : k + suc n ≡ suc k + n = omega arith in
    rw (live, e)
      (result, record { now = rest.now; start = rest.start ∙ one.start; max = rest.max ∙ one.max })
