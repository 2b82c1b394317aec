-- ===== src/Pmm/Search.antt =====
-- `pmm_get_first_free_frame` of kernel/pmm.c finds the least free frame of the whole words.
use rotary_os.Base.{
  ℕ, zero, suc, ◌+◌, ◌*◌, ◌/◌, ◌%◌, ◌^◌, ◌≤◌, ◌<◌, ◌≡◌, inl, inr, refl, Bool, true, false, bit_and,
  arith, leb-cases, le_refl, ◌==◌, Bool-cases, Option-cases, Option, none, some, add32, mul32,
}
use mathlib.Core.Path.{subst}
use mathlib.Core.Option
use rotary_os.Base.Bits.{bit, bit-lt, bit_mask, bit_and-mask}
use native.Mathlib.Nat.{one-le-pow}
use rotary_os.Pmm.{Pmm, scan_word, scan_words, get_first_free_frame, pmm_no_frames_avail}
use rotary_os.Pmm.Bitmap.{is_used}

-- The result is the least index from `lo` up to `hi` (not included) that is not in use, and `none`
-- if all are.
pub data IsFirstFree (used : ℕ → Bool) (lo hi : ℕ) : Option ℕ → Type 0 where
  all_used : ((j : ℕ) → lo ≤ j → j < hi → used j ≡ true) → IsFirstFree used lo hi none
  first :
      {r : ℕ}
      → lo ≤ r
      → r < hi
      → used r ≡ false
      → ((j : ℕ) → lo ≤ j → j < r → used j ≡ true)
      → IsFirstFree used lo hi (some r)

module _ (used : ℕ → Bool) (lo mid hi : ℕ) where
  -- A search of two adjacent ranges, the second only if the first fails.
  later :
      {o : Option ℕ}
      → lo ≤ mid
      → IsFirstFree used lo mid none
      → IsFirstFree used mid hi o
      → IsFirstFree used lo hi o
  later m (all_used front) (all_used back) = all_used λ j l h. elim (leb-cases mid j) [
    | inl behind ↦ back j behind h
    | inr before ↦ front j l before
  ]
  later m (all_used front) (first l h free least) = first (omega arith) h free λ j a b.
      elim (leb-cases mid j) [ inl behind ↦ least j behind b | inr before ↦ front j a before ]

  earlier : {r : ℕ} → mid ≤ hi → IsFirstFree used lo mid (some r) → IsFirstFree used lo hi (some r)
  earlier m (first l h free least) = first l (omega arith) free least

abbrev word_used : ℕ → ℕ → Bool
word_used word b = bit word b == 1

scan_word-IsFirstFree :
    (n word b hi : ℕ)
    → b + n ≡ hi
    → hi ≤ 32
    → IsFirstFree (word_used word) b hi (scan_word n word b)
unfolding scan_word
scan_word-IsFirstFree zero word b hi e h = all_used λ j l u. absurd (omega arith)
scan_word-IsFirstFree (suc n) word b hi e h = elim (Bool-cases (bit_and word (bit_mask b) == 0)) [
  | inl free ↦ rw free (
      first (le_refl b) (omega arith) (ground (arith, bit_and-mask word b, pos))
        λ j l u. absurd (omega arith))
  | inr busy ↦ rw busy (
      later (word_used word) b (b + 1) hi (omega arith) (only busy)
        (scan_word-IsFirstFree n word (b + 1) hi (omega arith) h))
]
  where
    small : b < 32
    small = omega (arith, e, h)

    pos : 1 ≤ 2 ^ b
    pos = one-le-pow b 2 (omega arith)

    only : (bit_and word (bit_mask b) == 0) ≡ false → IsFirstFree (word_used word) b (b + 1) none
    only busy = all_used λ j l u.
        let e : b ≡ j = omega arith in
        rw (← e) (ground (arith, bit_and-mask word b small, bit-lt word b, pos))

-- The bit of a word is the frame at `32 * i`, that bit further.
word_frame : ℕ → ℕ → ℕ
word_frame i b = add32 (mul32 (mul32 i 4) 8) b

scan_one_word :
    (s : Pmm) (i : ℕ) {o : Option ℕ}
    → 32 * i + 32 ≤ 2 ^ 32
    → IsFirstFree (word_used (s.memory_bitmap i)) 0 32 o
    → IsFirstFree (is_used s) (32 * i) (32 * i + 32) (Option.map (word_frame i) o)
unfolding word_frame
scan_one_word s i bound (all_used all) =
    all_used
      λ j l h. let e : j / 32 ≡ i = omega arith in rw e (all (j % 32) (omega arith) (omega arith))
scan_one_word s i bound (first {r} l h free least) =
    let e : add32 (mul32 (mul32 i 4) 8) r ≡ 32 * i + r = omega arith in
    let d : (32 * i + r) / 32 ≡ i = omega arith in
    let m : (32 * i + r) % 32 ≡ r = omega arith in
    rw e (first (omega arith) (omega arith) (rw (d, m) free) before)
  where
    before : (j : ℕ) → 32 * i ≤ j → j < 32 * i + r → is_used s j ≡ true
    before j a b =
        let e : j / 32 ≡ i = omega arith in rw e (least (j % 32) (omega arith) (omega arith))

scan_words-IsFirstFree :
    (s : Pmm) (n i hi : ℕ)
    → 32 * i + 32 * n ≡ hi
    → hi ≤ 2 ^ 32
    → IsFirstFree (is_used s) (32 * i) hi (scan_words n s.memory_bitmap i)
unfolding scan_words word_frame
scan_words-IsFirstFree s zero i hi e h = all_used λ j l u. absurd (omega arith)
scan_words-IsFirstFree s (suc n) i hi e h = elim (Option-cases (scan_word 32 word 0)) [
  | inl q ↦
      rw (q, scan_words)
        (later (is_used s) (32 * i) (32 * i + 32) hi (omega arith) (here q)
          (rw next (scan_words-IsFirstFree s n (i + 1) hi (omega arith) h)))
  | inr (b, q) ↦
      rw (q, scan_words) (earlier (is_used s) (32 * i) (32 * i + 32) hi (omega arith) (here q))
]
  where
    word : ℕ
    word = s.memory_bitmap i

    next : 32 * i + 32 ≡ 32 * (i + 1)
    next = omega arith

    fits : 32 * i + 32 ≤ 2 ^ 32
    fits = omega (arith, e, h)

    here :
        {o : Option ℕ}
        → scan_word 32 word 0 ≡ o
        → IsFirstFree (is_used s) (32 * i) (32 * i + 32) (Option.map (word_frame i) o)
    here q = scan_one_word s i fits (
        subst (IsFirstFree (word_used word) 0 32) q
          (scan_word-IsFirstFree 32 word 0 32 refl (le_refl 32)))

-- The frames that the search covers: the bits of the whole words below `frames_max`.
abbrev pub searched : Pmm → ℕ
searched s = 32 * (s.frames_max / 32)

-- The number that a search returns.
abbrev pub found : Option ℕ → ℕ
found none = pmm_no_frames_avail
found (some frame) = frame

pub get_first_free_frame-IsFirstFree :
    (s : Pmm)
    → s.frames_max < 2 ^ 32
    → (o : Option ℕ) × (get_first_free_frame s ≡ found o) × IsFirstFree (is_used s) 0 (searched s) o
unfolding get_first_free_frame
get_first_free_frame-IsFirstFree s h = (
  scan_words (s.frames_max / 32) s.memory_bitmap 0,
  same (scan_words (s.frames_max / 32) s.memory_bitmap 0),
  scan_words-IsFirstFree s (s.frames_max / 32) 0 (searched s) (omega arith) (omega arith),
)
  where
    same : (o : Option ℕ) → elim o [ some frame ↦ frame | none ↦ pmm_no_frames_avail ] ≡ found o
    same none = refl
    same (some frame) = refl
