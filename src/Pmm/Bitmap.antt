-- ===== src/Pmm/Bitmap.antt =====
-- What `pmm_set_frame_used` and `pmm_set_frame_free` of kernel/pmm.c do to each frame.
use rotary_os.Base.{ℕ, ◌/◌, ◌%◌, ◌<◌, ◌≡◌, Bool, true, false, arith, ◌==◌, if◌then◌else◌}
use rotary_os.Base.Bits.{bit, bit-set_mask, bit-clear_mask}
use rotary_os.Pmm.{Pmm, set_frame_used, set_frame_free}

-- A frame is in use when its bit is set.
abbrev pub is_used : Pmm → ℕ → Bool
is_used s f = bit (s.memory_bitmap (f / 32)) (f % 32) == 1

-- Below `frames_max`, setting a frame used sets its bit and no other.
pub is_used-set_frame_used :
    (s : Pmm) (f g : ℕ)
    → f < s.frames_max
    → is_used (set_frame_used s f) g ≡ (if g == f then true else is_used s g)
unfolding set_frame_used
is_used-set_frame_used s f g h =
    ground (arith, bit-set_mask (s.memory_bitmap (f / 32)) (g % 32) (f % 32))

pub is_used-set_frame_free :
    (s : Pmm) (f g : ℕ)
    → f < s.frames_max
    → is_used (set_frame_free s f) g ≡ (if g == f then false else is_used s g)
unfolding set_frame_free
is_used-set_frame_free s f g h =
    ground (arith, bit-clear_mask (s.memory_bitmap (f / 32)) (g % 32) (f % 32))
