-- ===== src/Screen/Scroll.antt =====
-- What `vga_scroll_up` of arch/x86/kernel/vga.c does to each cell of the screen.
use rotary_os.Base.{
  ℕ, zero, suc, ◌+◌, ◌-◌, ◌*◌, ◌/◌, ◌%◌, ◌^◌, ◌≤◌, ◌<◌, ◌≡◌, inl, inr, refl, ap, arith, Bool, true,
  false, ◌&&◌, leb-cases, leb, ltb, if◌then◌else◌, sub32, update, bit_and, bit_or, shr,
}
use rotary_os.Base.Bits.{bit_and-low_mask}
use rotary_os.Base.Joins.{bit_or-shifted, shifted-bit_or}
use rotary_os.Screen.{
  Cells, cell_index, cell_of, background, fill_line, vga_clear_line, move_line, scroll_lines,
  vga_scroll_up, vga_set_character,
}

-- A cell has 16 bits.
abbrev pub IsCells : Cells → Type 0
IsCells m = (i : ℕ) → m i < 2 ^ 16

-- A cell taken apart as the loop does it and written again.
recode : ℕ → ℕ
recode cell = cell_of (cell % 2 ^ 8) (bit_and (shr cell 8) 0x0f) (background (shr cell 8))

recode_same : (cell : ℕ) → cell < 2 ^ 16 → recode cell ≡ cell
unfolding recode cell_of
recode_same cell h =
    let colour = cell / 2 ^ 8 in
    let low : bit_and colour 15 ≡ colour % 16 = bit_and-low_mask 4 colour in
    let again : bit_and (colour % 16) 15 ≡ colour % 16 % 16 = bit_and-low_mask 4 (colour % 16) in
    let bg = background colour in
    let attrib : bit_or (bg * 16) (colour % 16 % 16) ≡ bg * 16 + colour % 16 % 16 =
      shifted-bit_or 4 (colour % 16 % 16) bg (omega arith) in
    let whole = bit_or-shifted 8 (cell % 2 ^ 8) (bg * 16 + colour % 16 % 16) (omega arith) in
    rw (low, again, attrib, whole)
      (elim (leb-cases 128 colour) [
        | inl high ↦ let b : leb 128 colour ≡ true = ground arith in rw b (omega arith)
        | inr low ↦ let b : leb 128 colour ≡ false = ground arith in rw b (omega arith)
      ])

abbrev pub between : (lo hi i : ℕ) → Bool
between lo hi i = leb lo i && ltb i hi

pub fill_line_cell :
    (n : ℕ) (m : Cells) (x line i : ℕ)
    → x + n ≡ 80
    → line < 25
    → fill_line n m 0 x line i ≡ (if between (line * 80 + x) (line * 80 + 80) i then 32 else m i)
unfolding fill_line cell_of
fill_line_cell zero m x line i e b = ground arith
fill_line_cell (suc n) m x line i e b =
    ground (arith, fill_line_cell n (vga_set_character m 32 0 0 x line) (x + 1) line i)

recode_cell : (m : Cells) (i : ℕ) → IsCells m → recode (m i) ≡ m i
recode_cell m i h = recode_same (m i) (h i)

pub update-IsCells : (m : Cells) (d v : ℕ) → IsCells m → v < 2 ^ 16 → IsCells (update m d v)
update-IsCells m d v h b i = ground (arith, h i, b)

-- A copy writes the cell as it was one line below.
copied : Cells → (line x : ℕ) → Cells
copied m line x = update m ((line - 1) * 80 + x) (m (line * 80 + x))

copy_is :
    (m : Cells) (line x : ℕ)
    → IsCells m
    → 1 ≤ line
    → line < 25
    → x < 80
    → (let cell = m (cell_index x line) in
        let colour = shr cell 8 in
        vga_set_character m
          (cell % 2 ^ 8)
          (bit_and colour 0x0f)
          (background colour)
          x
          (sub32 line 1))
      ≡ copied m line x
unfolding copied recode
copy_is m line x h a b c =
    let source : (line * 80 + x) % 2 ^ 31 ≡ line * 80 + x = omega arith in
    let dest : (sub32 line 1 * 80 + x) % 2 ^ 31 ≡ (line - 1) * 80 + x = omega arith in
    rw (source, dest) (ap (update m ((line - 1) * 80 + x)) (recode_cell m (line * 80 + x) h))

move_line_cell :
    (n : ℕ) (m : Cells) (x line i : ℕ)
    → IsCells m
    → x + n ≡ 80
    → 1 ≤ line
    → line < 25
    → move_line n m line x i
      ≡ (if between ((line - 1) * 80 + x) (line * 80) i then m (i + 80) else m i)
unfolding move_line copied
move_line_cell zero m x line i h e a b = ground arith
move_line_cell (suc n) m x line i h e a b =
    let small : x < 80 = omega arith in
    let cells = update-IsCells m ((line - 1) * 80 + x) (m (line * 80 + x)) h (h (line * 80 + x)) in
    rw (copy_is m line x h a b small)
      (ground (arith, move_line_cell n (copied m line x) (x + 1) line i cells))

-- One round of the middle loop.
one_line : Cells → ℕ → Cells
one_line m line = vga_clear_line (move_line 80 m line 0) line

one_line_cell :
    (m : Cells) (line i : ℕ)
    → IsCells m
    → 1 ≤ line
    → line < 25
    → one_line m line i ≡ (
        if between ((line - 1) * 80) (line * 80) i
        then m (i + 80)
        else if between (line * 80) (line * 80 + 80) i
        then 32
        else m i)
unfolding one_line vga_clear_line
one_line_cell m line i h a b = ground (
  arith,
  fill_line_cell 80 (move_line 80 m line 0) 0 line i refl b,
  move_line_cell 80 m 0 line i h refl a b,
)

one_line-IsCells :
    (m : Cells) (line : ℕ) → IsCells m → 1 ≤ line → line < 25 → IsCells (one_line m line)
one_line-IsCells m line h a b i = ground (arith, one_line_cell m line i h a b, h i, h (i + 80))

scroll_lines_cell :
    (n : ℕ) (m : Cells) (line i : ℕ)
    → IsCells m
    → line + n ≡ 25
    → 1 ≤ line
    → scroll_lines n m line i ≡ (
        if between ((line - 1) * 80) 1920 i
        then m (i + 80)
        else if between 1920 2000 i && leb line 24
        then 32
        else m i)
unfolding scroll_lines one_line
scroll_lines_cell zero m line i h e a = ground arith
scroll_lines_cell (suc n) m line i h e a =
    let small : line < 25 = omega arith in
    let cells = one_line-IsCells m line h a small in
    ground (
      arith,
      scroll_lines_cell n (one_line m line) (line + 1) i cells,
      one_line_cell m line i h a small,
      one_line_cell m line (i + 80) h a small,
    )

-- The screen once the lines from `top - 1` on have moved up by one.
abbrev pub scrolled : Cells → (top : ℕ) → Cells
scrolled m top i =
    if between ((top - 1) * 80) 1920 i then m (i + 80) else if between 1920 2000 i then 32 else m i

pub scroll_up_lem :
    (m : Cells) (top i : ℕ)
    → IsCells m
    → 1 ≤ top
    → top < 25
    → vga_scroll_up 1 m top i ≡ scrolled m top i
unfolding vga_scroll_up
scroll_up_lem m top i h a b = ground (arith, scroll_lines_cell (25 - top) m top i h)
