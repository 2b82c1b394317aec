-- ===== src/Pmm/Print.antt =====
-- The numbers that `pmm_print` of kernel/pmm.c prints.
use rotary_os.Base.{ℕ, mul32, List, [], ◌∷◌}
use rotary_os.Pmm.{Pmm, pmm_frame_size}

-- The ends of the kernel and the address of the bitmap are arguments.
pub pmm_print : (kernel_phys_start kernel_phys_end bitmap : ℕ) → Pmm → List ℕ
pmm_print kernel_phys_start kernel_phys_end bitmap s =
    pmm_frame_size
    ∷ s.frames_max
    ∷ s.frames_used
    ∷ kernel_phys_start
    ∷ kernel_phys_end
    ∷ mul32 s.frames_used pmm_frame_size
    ∷ s.memory_start
    ∷ s.memory_end
    ∷ bitmap
    ∷ []
