-- ===== src/Pmm/Range.antt =====
-- The range of frames of kernel/pmm.c: what `pmm_set_memory_range` sets up, which frames and words
-- lie in it, and `pmm_align_4k`.
use rotary_os.Base.{ℕ, ◌+◌, ◌-◌, ◌*◌, ◌/◌, ◌%◌, ◌^◌, ◌≤◌, ◌<◌, ◌≡◌, false, arith, sub32, add32, sym}
use rotary_os.Base.Bits.{zero-bit, bit_and-high_mask, bit_and-low_mask}
use rotary_os.Pmm.{Pmm, initial, set_memory_range, align_4k, frame_address}
use rotary_os.Pmm.Bitmap.{is_used}
use rotary_os.Pmm.Alloc.{IsRange, FitsBitmap}
use rotary_os.Pmm.Count.{IsCounted, count_used-none}

-- A range below 4 GiB, whatever its size.
pub set_memory_range-IsRange :
    (start_addr end_addr : ℕ)
    → start_addr ≤ end_addr
    → end_addr < 2 ^ 32
    → let s = set_memory_range initial start_addr end_addr in
      IsRange s
      × IsCounted s
      × ((f : ℕ) → is_used s f ≡ false)
      × ((f : ℕ)
          → f < s.frames_max
          → (start_addr ≤ frame_address s f) × (frame_address s f + 4096 ≤ end_addr))
      × (end_addr < start_addr + 4096 * s.frames_max + 4096)
unfolding set_memory_range
set_memory_range-IsRange a b le lt = (
  omega arith,
  record { exact = sym (count_used-none (is_used s) s.frames_max free) },
  free,
  λ f h. (omega arith, omega arith),
  omega arith,
)
  where
    s : Pmm
    s = set_memory_range initial a b

    free : (f : ℕ) → is_used s f ≡ false
    free f = ground (arith, zero-bit (f % 32))

-- From the initial state, with `start_addr ≤ end_addr` below 4 GiB and at most 512 MiB between them,
-- `pmm_set_memory_range` leaves a range whose addresses do not wrap and that the bitmap has room for, no frame in use
-- and the counter right; every frame lies inside the range, and the frames use all of it but less than one frame.
pub set_memory_range_frames :
    (start_addr end_addr : ℕ)
    → start_addr ≤ end_addr
    → end_addr < 2 ^ 32
    → end_addr ≤ start_addr + 2 ^ 29
    → let s = set_memory_range initial start_addr end_addr in
      IsRange s
      × FitsBitmap s
      × IsCounted s
      × ((f : ℕ) → is_used s f ≡ false)
      × ((f : ℕ)
          → f < s.frames_max
          → (start_addr ≤ frame_address s f) × (frame_address s f + 4096 ≤ end_addr))
      × (end_addr < start_addr + 4096 * s.frames_max + 4096)
unfolding set_memory_range
set_memory_range_frames a b le lt small =
    let (range, counted, free, places, all) = set_memory_range-IsRange a b le lt in
    (range, omega arith, counted, free, places, all)

-- For an address of at most 2^32 - 4096, `pmm_align_4k` is the least multiple of 4096 that is not
-- below it.
pub align_4k_least :
    (a : ℕ)
    → a ≤ 2 ^ 32 - 4096
    → (a ≤ align_4k a) × (align_4k a % 4096 ≡ 0) × ((b : ℕ) → a ≤ b → b % 4096 ≡ 0 → align_4k a ≤ b)
unfolding align_4k
align_4k_least a h =
    let up : align_4k a ≡ (a + 4095) / 4096 * 4096 = value in
    (omega (arith, up), omega (arith, up), λ b l m. omega (arith, up))
  where
    x : ℕ
    x = sub32 (add32 a 4096) 1

    value : align_4k a ≡ (a + 4095) / 4096 * 4096
    value = omega (arith, bit_and-high_mask 12 x (2 ^ 20 - 1), bit_and-low_mask 20 (x / 2 ^ 12))

-- The last of two ranges holds.
pub set_memory_range_twice :
    (s : Pmm) (a b c d : ℕ) → set_memory_range (set_memory_range s a b) c d ≡ set_memory_range s c d
unfolding set_memory_range
set_memory_range_twice s a b c d = λ i. set_memory_range s c d
