-- ===== src/Multiboot/Map/Parse.antt =====
-- The memory that `multiboot_parse` of kernel/multiboot.c hands to the frame allocator.
use rotary_os.Base.{
  ℕ, zero, suc, ◌+◌, ◌*◌, ◌%◌, ◌^◌, ◌≤◌, ◌<◌, ◌≡◌, ◌≢◌, refl, ap, arith, true, false, Bool-cases,
  inl, inr, ltb, ◌==◌, if◌then◌else◌, add32, bit_and, Option, none, some, List, [], ◌∷◌,
}
use mathlib.Core.Path.{◌∙◌}
use rotary_os.Base.Lists.{length}
use rotary_os.Base.Bits.{bit, bit_and-mask}
use rotary_os.Heap.{Mem}
use rotary_os.Pmm.{Pmm, set_memory_range, align_4k}
use rotary_os.Pmm.Range.{set_memory_range_twice}
use rotary_os.Multiboot.Map.{
  Region, region_at, region_end, holds_kernel, use_region, parse_map, multiboot_parse,
}

-- From `a` on the memory holds the regions of the list, up to `stop`.
abbrev pub IsMap : Mem → (a stop : ℕ) → List Region → Type 0
IsMap m a stop [] = stop ≤ a
IsMap m a stop (r ∷ rs) =
    (region_at m a ≡ r) × (a < stop) × (a + m a + 4 < 2 ^ 32) × IsMap m (a + m a + 4) stop rs

-- The last region of the list that is available and holds the end of the kernel.
abbrev pub last_holding : (kernel_phys_end : ℕ) → List Region → Option Region
last_holding k [] = none
last_holding k (r ∷ rs) = elim (last_holding k rs) [
  | some q ↦ some q
  | none ↦ if holds_kernel k r then some r else none
]

-- The range of the frames: from the first page behind the kernel to the end of the region.
abbrev pub frames_of : (kernel_phys_end : ℕ) → Pmm → Option Region → Pmm
frames_of k s none = s
frames_of k s (some r) = set_memory_range s (align_4k k) (region_end r % 2 ^ 32)

use_region-frames :
    (k : ℕ) (s : Pmm) (r : Region) (o : Option Region)
    → frames_of k (use_region k s r) o
      ≡ frames_of k s
          (elim o [ some q ↦ some q | none ↦ if holds_kernel k r then some r else none ])
unfolding use_region
use_region-frames k s r (some q) = elim (Bool-cases (holds_kernel k r)) [
  | inl fits ↦ rw fits (
      set_memory_range_twice s (align_4k k) (region_end r % 2 ^ 32) (align_4k k)
        (region_end q % 2 ^ 32))
  | inr outside ↦ rw outside refl
]
use_region-frames k s r none = elim (Bool-cases (holds_kernel k r)) [
  | inl fits ↦ rw fits refl
  | inr outside ↦ rw outside refl
]

parse_map-last :
    (fuel : ℕ) (m : Mem) (k a stop : ℕ) (rs : List Region) (s : Pmm)
    → IsMap m a stop rs
    → length rs < fuel
    → parse_map fuel m k a stop s ≡ some (frames_of k s (last_holding k rs))
unfolding parse_map
parse_map-last zero m k a stop rs s h l = absurd (omega arith)
parse_map-last (suc n) m k a stop [] s h l =
    let done : ltb a stop ≡ false = ground arith in rw done refl
parse_map-last (suc n) m k a stop (r ∷ rs) s (e, b, c, h) l =
    let on : ltb a stop ≡ true = ground arith in
    let next : add32 (add32 a (m a)) 4 ≡ a + m a + 4 = omega arith in
    rw (on, next, e)
      (parse_map-last n m k (a + m a + 4) stop rs (use_region k s r) h (omega arith)
        ∙ ap some (use_region-frames k s r (last_holding k rs)))

pub multiboot_parse_lem :
    (fuel : ℕ) (m : Mem) (k info : ℕ) (rs : List Region) (s : Pmm)
    → bit (m info) 6 ≡ 1
    → IsMap m (m (info + 48)) (add32 (m (info + 48)) (m (info + 44))) rs
    → length rs < fuel
    → multiboot_parse fuel m k 0x2BADB002 info s ≡ some (1, frames_of k s (last_holding k rs))
unfolding multiboot_parse
multiboot_parse_lem fuel m k info rs s f h l =
    let mask : bit_and (m info) 0x40 ≡ bit (m info) 6 * 64 =
      bit_and-mask (m info) 6 (omega arith) in
    let has_map : (bit_and (m info) 0x40 == 0) ≡ false = ground (arith, mask, f) in
    rw
      (
        has_map,
        parse_map-last fuel m k (m (info + 48)) (add32 (m (info + 48)) (m (info + 44))) rs s h l,
      )
      refl

-- With the magic number, the answer is never 0.
pub multiboot_parse_answer :
    (fuel : ℕ) (m : Mem) (k info : ℕ) (s : Pmm) (result : ℕ) (s' : Pmm)
    → multiboot_parse fuel m k 0x2BADB002 info s ≡ some (result, s')
    → result ≢ 0
unfolding multiboot_parse
multiboot_parse_answer fuel m k info s result s' e z = ground (arith, e, z)

pub multiboot_parse_refused :
    (fuel : ℕ) (m : Mem) (k mboot_magic info : ℕ) (s : Pmm)
    → mboot_magic ≢ 0x2BADB002
    → multiboot_parse fuel m k mboot_magic info s ≡ some (0, s)
unfolding multiboot_parse
multiboot_parse_refused fuel m k mboot_magic info s h =
    let other : (mboot_magic == 0x2BADB002) ≡ false = ground (arith, h) in rw other refl
