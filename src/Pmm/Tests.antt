-- ===== src/Pmm/Tests.antt =====
-- Runs of the functions of kernel/pmm.c on small ranges, and its theorems at these.
use rotary_os.Base.{
  ℕ, ◌+◌, ◌*◌, ◌≤◌, ◌<◌, ◌≡◌, ◌≢◌, refl, true, false, Option, arith, ◌==◌, update, update_same,
  if◌then◌else◌,
}
use rotary_os.Base.Bits.{bit}
use rotary_os.Base.Digits.{holds_below, test_of_holds_below}
use rotary_os.Pmm.{
  Pmm, initial, init, set_memory_range, alloc_frame, dealloc_frame, align_4k, get_first_free_frame,
  frame_address, set_frame_used,
}
use rotary_os.Pmm.Bitmap.{is_used}
use rotary_os.Pmm.Search.{IsFirstFree, found, searched, get_first_free_frame-IsFirstFree}
use rotary_os.Pmm.Alloc.{
  IsRange, HasFree, Restores, FitsBitmap, alloc_frame_exhausted, dealloc-alloc,
}
use rotary_os.Pmm.Session.{Session, take, give, here, next, IsSafe, alloc_frame-not_live}
use rotary_os.Pmm.Count.{count_used, IsCounted, dealloc_frame_twice}
use rotary_os.Pmm.Totals.{Reach-IsCounted}
use rotary_os.Pmm.Range.{set_memory_range_frames}

-- 64 frames from 2 MiB on, of which the first three are in use.
abbrev pool : Pmm
pool = record {
  memory_bitmap = λ i. if i == 0 then 7 else 0;
  memory_start = 0x200000;
  memory_end = 0x240000;
  frames_max = 64;
  frames_used = 3;
  overrun = false;
}

-- 32 frames, all in use.
abbrev full : Pmm
full = record {
  memory_bitmap = λ i. 0xffffffff;
  memory_start = 0x200000;
  memory_end = 0x220000;
  frames_max = 32;
  frames_used = 32;
  overrun = false;
}

abbrev empty : Session
empty = record { pmm = pool; live = λ a. false }

init_unconfigured : init initial ≡ (1, true)
unfolding init
init_unconfigured = refl

range_runs : (set_memory_range initial 0x200000 0x240000).frames_max ≡ 64
unfolding set_memory_range
range_runs = refl

first_free_runs : get_first_free_frame pool ≡ 3
unfolding get_first_free_frame
first_free_runs = refl

alloc_runs : (alloc_frame pool).0 ≡ 0x203000
unfolding alloc_frame get_first_free_frame
alloc_runs = refl

align_runs : align_4k 0x123001 ≡ 0x124000
unfolding align_4k
align_runs = refl

pool-IsRange : IsRange pool
pool-IsRange = omega arith

pool-HasFree : HasFree pool
unfolding bit
pool-HasFree = (5, omega arith, refl)

pool-IsCounted : IsCounted pool
unfolding count_used bit
pool-IsCounted = record { exact = refl }

full_table : holds_below (is_used full) 32 ≡ true
unfolding holds_below bit
full_table = refl

full-used : (f : ℕ) → f < searched full → is_used full f ≡ true
full-used f h = test_of_holds_below (is_used full) 32 f full_table h

empty-IsSafe : IsSafe empty
empty-IsSafe = record {
  range = pool-IsRange;
  bitmap = omega arith;
  inside = refl;
  held = λ a h. cc;
}

later-HasFree : HasFree (alloc_frame pool).1
unfolding alloc_frame get_first_free_frame set_frame_used bit
later-HasFree = (5, omega arith, refl)

get_first_free_frame-IsFirstFree_example :
    (o : Option ℕ) × (get_first_free_frame pool ≡ found o) × IsFirstFree (is_used pool) 0 64 o
get_first_free_frame-IsFirstFree_example = get_first_free_frame-IsFirstFree pool (omega arith)

alloc_frame_exhausted_example : alloc_frame full ≡ (0x1ff000, full)
alloc_frame_exhausted_example = alloc_frame_exhausted full (omega arith) full-used

dealloc-alloc_example : Restores pool (dealloc_frame (alloc_frame pool).1 (alloc_frame pool).0)
dealloc-alloc_example = dealloc-alloc pool pool-IsRange pool-HasFree (omega arith) (omega arith)

alloc_frame-not_live_example :
    (update (λ a. false) (alloc_frame pool).0 true (alloc_frame (alloc_frame pool).1).0 ≡ false)
    × ((alloc_frame (alloc_frame pool).1).1.overrun ≡ false)
alloc_frame-not_live_example =
    alloc_frame-not_live {u = empty} empty-IsSafe (next here (take empty pool-HasFree))
      later-HasFree

frame_5_free : is_used pool 5 ≡ false
unfolding bit
frame_5_free = refl

dealloc_frame_twice_example :
    let t = dealloc_frame pool 0x205000 in
    ((g : ℕ) → is_used t g ≡ is_used pool g)
    × (t.frames_used ≡ 2)
    × (t.frames_used ≢ count_used (is_used t) t.frames_max)
dealloc_frame_twice_example =
    dealloc_frame_twice pool 5 pool-IsRange (omega arith) frame_5_free pool-IsCounted

set_memory_range_frames_example :
    let s = set_memory_range initial 0x200800 0x240000 in
    IsRange s
    × FitsBitmap s
    × IsCounted s
    × ((f : ℕ) → is_used s f ≡ false)
    × ((f : ℕ)
        → f < s.frames_max
        → (0x200800 ≤ frame_address s f) × (frame_address s f + 4096 ≤ 0x240000))
    × (0x240000 < 0x200800 + 4096 * s.frames_max + 4096)
set_memory_range_frames_example =
    set_memory_range_frames 0x200800 0x240000 (omega arith) (omega arith) (omega arith)

Reach-IsCounted_example :
    IsCounted (dealloc_frame (alloc_frame pool).1 (alloc_frame pool).0)
    × IsSafe (record {
      pmm = dealloc_frame (alloc_frame pool).1 (alloc_frame pool).0;
      live = update (update (λ a. false) (alloc_frame pool).0 true) (alloc_frame pool).0 false;
    })
Reach-IsCounted_example = Reach-IsCounted {u = empty} empty-IsSafe pool-IsCounted (
    next (next here (take empty pool-HasFree)) (
      give
        (record {
          pmm = (alloc_frame pool).1;
          live = update (λ a. false) (alloc_frame pool).0 true;
        })
        (alloc_frame pool).0 (update_same (λ a. false) (alloc_frame pool).0 true)))
