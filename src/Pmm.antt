-- ===== src/Pmm.antt =====
-- The physical memory manager of kernel/pmm.c: a bitmap with one bit for each 4096-byte frame.
-- Its global variables are the fields of `Pmm`; each function takes and returns them.
pub mod Bitmap
pub mod Search
pub mod Alloc
pub mod Range
pub mod Session
pub mod Totals
pub mod Print
pub mod Count
mod Tests
use rotary_os.Base.{
  ℕ, zero, suc, ◌+◌, ◌-◌, ◌/◌, ◌%◌, ◌^◌, ◌<◌, bit_and, bit_or, Bool, false, ◌&&◌, ◌||◌, Option,
  none, some, leb, ◌==◌, if◌then◌else◌, add32, sub32, mul32, not32, update,
}
use rotary_os.Base.Bits.{bit_mask}

abbrev pub pmm_frame_size : ℕ
pmm_frame_size = 4096

-- `PMM_NO_FRAMES_AVAIL`, -1 as a `uint32`
abbrev pub pmm_no_frames_avail : ℕ
pmm_no_frames_avail = 2 ^ 32 - 1

-- The number of words of `pmm_memory_bitmap`.
abbrev pub bitmap_words : ℕ
bitmap_words = 4096

-- `memory_bitmap` gives the word at each index, behind the `bitmap_words` of the array the words that stand
-- there in memory. `overrun` is not a variable of the program: it holds once a word behind the array was written,
-- from when on the other globals are no longer what the model says.
pub record Pmm : Type 0 where
  pub memory_bitmap : ℕ → ℕ
  pub memory_start : ℕ
  pub memory_end : ℕ
  pub frames_max : ℕ
  pub frames_used : ℕ
  pub overrun : Bool

-- The initial values of the global variables.
abbrev pub initial : Pmm
initial = record {
  memory_bitmap = λ i. 0;
  memory_start = 0;
  memory_end = 0;
  frames_max = 0;
  frames_used = 0;
  overrun = false;
}

unfoldable pub set_memory_range : Pmm → ℕ → ℕ → Pmm
set_memory_range s start_addr end_addr = record s {
  memory_start = start_addr;
  memory_end = end_addr;
  frames_max = sub32 end_addr start_addr / pmm_frame_size;
}

-- The result, and whether the unconfigured range was met, where the code calls `debug_break`.
unfoldable pub init : Pmm → ℕ × Bool
init s = (1, (s.memory_start == 0) && (s.memory_end == 0))

pub set_frame_used : Pmm → ℕ → Pmm
set_frame_used s frame_num = if leb s.frames_max frame_num then s else record s {
  memory_bitmap =
      update s.memory_bitmap (frame_num / 32)
        (bit_or (s.memory_bitmap (frame_num / 32)) (bit_mask (frame_num % 32)));
  frames_used = add32 s.frames_used 1;
  overrun = s.overrun || leb bitmap_words (frame_num / 32);
}

pub set_frame_free : Pmm → ℕ → Pmm
set_frame_free s frame_num = if leb s.frames_max frame_num then s else record s {
  memory_bitmap =
      update s.memory_bitmap (frame_num / 32)
        (bit_and (s.memory_bitmap (frame_num / 32)) (not32 (bit_mask (frame_num % 32))));
  frames_used = sub32 s.frames_used 1;
  overrun = s.overrun || leb bitmap_words (frame_num / 32);
}

-- The inner loop: `rounds` bits of `word` from `b` on are left. `none` when it ends.
scan_word : (rounds word b : ℕ) → Option ℕ
scan_word zero word b = none
scan_word (suc n) word b =
    let rest = scan_word n word (b + 1) in if bit_and word (bit_mask b) == 0 then some b else rest

-- The outer loop: `rounds` words from index `i` on are left.
scan_words : (rounds : ℕ) → (ℕ → ℕ) → ℕ → Option ℕ
scan_words zero bitmap i = none
scan_words (suc n) bitmap i =
    let rest = scan_words n bitmap (i + 1) in
    elim (scan_word 32 (bitmap i) 0) [ some b ↦ some (add32 (mul32 (mul32 i 4) 8) b) | none ↦ rest ]

pub get_first_free_frame : Pmm → ℕ
unfolding scan_words scan_word
get_first_free_frame s = elim (scan_words (s.frames_max / 32) s.memory_bitmap 0) [
  | some frame ↦ frame
  | none ↦ pmm_no_frames_avail
]

-- The physical address of a frame.
abbrev pub frame_address : Pmm → ℕ → ℕ
frame_address s frame_num = add32 s.memory_start (mul32 frame_num pmm_frame_size)

pub alloc_frame : Pmm → ℕ × Pmm
alloc_frame s =
    let frame = get_first_free_frame s in (frame_address s frame, set_frame_used s frame)

pub dealloc_frame : Pmm → ℕ → Pmm
dealloc_frame s frame_phys_addr =
    set_frame_free s (sub32 frame_phys_addr s.memory_start / pmm_frame_size)

unfoldable pub align_4k : ℕ → ℕ
align_4k address = bit_and (sub32 (add32 address 4096) 1) (not32 (4096 - 1))
