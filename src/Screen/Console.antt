-- ===== src/Screen/Console.antt =====
-- The screen of arch/x86/kernel/vga.c as a console: a row of lines, of which the oldest goes when a
-- new one comes.
use rotary_os.Base.{
  ℕ, zero, suc, ◌+◌, ◌-◌, ◌*◌, ◌≤◌, ◌<◌, ◌≡◌, refl, ap, ◌⊎◌, arith, List, [], ◌∷◌, ◌++◌, ltb,
  if◌then◌else◌,
}
use mathlib.Core.Path.{◌∙◌}
use rotary_os.Strings.{Bytes}
use rotary_os.Strings.Compare.{IsString, strlen-IsString}
use rotary_os.Screen.{
  Cells, cell_of, write_text, vga_clear_line, vga_overwrite_line, vga_print_line, vga_scroll_up,
  vga_set_character, fill_line,
}
use rotary_os.Screen.Scroll.{IsCells, scroll_up_lem, fill_line_cell, between}

-- `n` cells from index `i` on.
abbrev pub cells_from : (ℕ → ℕ) → (i n : ℕ) → List ℕ
cells_from m i zero = []
cells_from m i (suc n) = m i ∷ cells_from m (i + 1) n

-- `n` lines from line `y` on.
abbrev pub lines_from : Cells → (y n : ℕ) → List (List ℕ)
lines_from m y zero = []
lines_from m y (suc n) = cells_from m (y * 80) 80 ∷ lines_from m (y + 1) n

-- The lines that scroll: 2 to 24, below the banner.
abbrev pub console : Cells → List (List ℕ)
console m = lines_from m 2 23

-- A new line at the end, for the first one.
abbrev pub push : {A : Type 0} → A → List A → List A
push line [] = line ∷ []
push line (old ∷ rest) = rest ++ line ∷ []

-- A line of text, white on black, and blanks behind it.
abbrev pub text_line : Bytes → (string n : ℕ) → List ℕ
text_line b string n = cells_from (λ x. if ltb x n then cell_of (b (string + x)) 7 0 else 32) 0 80

-- Two rows of cells are the same if the cells at the same places are.
cells_from_eq :
    (f g : ℕ → ℕ) (n i k : ℕ)
    → ((a b : ℕ) → i ≤ a → a < i + n → a + k ≡ b + i → f a ≡ g b)
    → cells_from f i n ≡ cells_from g k n
cells_from_eq f g zero i k h = refl
cells_from_eq f g (suc n) i k h =
    let first : f i ≡ g k = h i k (omega arith) (omega arith) (omega arith) in
    let rest : cells_from f (i + 1) n ≡ cells_from g (k + 1) n =
      cells_from_eq f g n (i + 1) (k + 1)
        λ a b l u e. h a b (omega arith) (omega arith) (omega arith) in
    rw (first, rest) refl

lines_from_eq :
    (f g : Cells) (n y z : ℕ)
    → ((a b : ℕ) → y * 80 ≤ a → a < (y + n) * 80 → a + z * 80 ≡ b + y * 80 → f a ≡ g b)
    → lines_from f y n ≡ lines_from g z n
lines_from_eq f g zero y z h = refl
lines_from_eq f g (suc n) y z h =
    let first : cells_from f (y * 80) 80 ≡ cells_from g (z * 80) 80 =
      cells_from_eq f g 80 (y * 80) (z * 80)
        λ a b l u e. h a b (omega arith) (omega arith) (omega arith) in
    let rest : lines_from f (y + 1) n ≡ lines_from g (z + 1) n =
      lines_from_eq f g n (y + 1) (z + 1)
        λ a b l u e. h a b (omega arith) (omega arith) (omega arith) in
    rw (first, rest) refl

lines_from-snoc :
    (m : Cells) (n y : ℕ)
    → lines_from m y (suc n) ≡ lines_from m y n ++ cells_from m ((y + n) * 80) 80 ∷ []
lines_from-snoc m zero y =
    let e : y * 80 ≡ (y + 0) * 80 = omega arith in ap (λ i. cells_from m i 80 ∷ []) e
lines_from-snoc m (suc n) y =
    let e : (y + 1 + n) * 80 ≡ (y + suc n) * 80 = omega arith in
    ap (cells_from m (y * 80) 80 ∷◌)
      (lines_from-snoc m n (y + 1) ∙ ap (λ i. lines_from m (y + 1) n ++ cells_from m i 80 ∷ []) e)

-- A buffer whose lines 2 to 23 are those below of another one, with `line` as its last.
pushes :
    (f m : Cells) (line : List ℕ)
    → ((i : ℕ) → 160 ≤ i → i < 1920 → f i ≡ m (i + 80))
    → cells_from f 1920 80 ≡ line
    → console f ≡ push line (console m)
pushes f m line h e =
    lines_from-snoc f 22 2
    ∙ rw e (
        ap (λ ls. ls ++ line ∷ [])
          (lines_from_eq f m 22 2 3 λ a b l u q.
            let e : b ≡ a + 80 = omega arith in rw e (h a (omega arith) (omega arith))))

write_text_cell :
    (n : ℕ) (m : Cells) (b : Bytes) (string fg bg i y j : ℕ)
    → i + n ≤ 80
    → y < 25
    → write_text n m b string fg bg i y j ≡ (
        if between (y * 80 + i) (y * 80 + i + n) j
        then cell_of (b (string + (j - y * 80))) fg bg
        else m j)
unfolding write_text
write_text_cell zero m b string fg bg i y j h l = ground arith
write_text_cell (suc n) m b string fg bg i y j h l =
    let here : j ≡ y * 80 + i
        → cell_of (b (string + (j - y * 80))) fg bg ≡ cell_of (b (string + i)) fg bg =
      λ e. ap (λ k. cell_of (b (string + k)) fg bg) (omega arith) in
    ground (
      arith,
      here,
      write_text_cell n (vga_set_character m (b (string + i)) fg bg i y) b string fg bg (i + 1) y j,
    )

-- The cells below line 24 and in it once a line of `n` characters is printed.
printed_cell :
    (m : Cells) (b : Bytes) (string n i : ℕ)
    → IsCells m
    → IsString b string n
    → n ≤ 80
    → vga_print_line m b string i ≡ (
        if between 160 1920 i
        then m (i + 80)
        else if between 1920 (1920 + n) i
        then cell_of (b (string + (i - 1920))) 7 0
        else if between 1920 2000 i
        then 32
        else m i)
unfolding vga_print_line vga_overwrite_line vga_clear_line
printed_cell m b string n i h s l =
    let length = strlen-IsString b string n s (omega arith) in
    let up = vga_scroll_up 1 m 3 in
    let clear = fill_line 80 up 0 0 24 in
    rw (length) (
      ground (
        arith,
        write_text_cell n clear b string 7 0 0 24 i (omega arith) (omega arith),
        fill_line_cell 80 up 0 24 i refl (omega arith),
        scroll_up_lem m 3 i h (omega arith) (omega arith),
      ))

-- `vga_print_line` of a string of at most 80 bytes, on any screen: of the lines below the banner the
-- first is dropped, the others move up and the text is the last, followed by blanks. The banner and
-- the memory behind the screen stay.
pub vga_print_line-push :
    (m : Cells) (b : Bytes) (string n : ℕ)
    → IsCells m
    → IsString b string n
    → n ≤ 80
    → (console (vga_print_line m b string) ≡ push (text_line b string n) (console m))
      × ((i : ℕ) → (i < 160) ⊎ (2000 ≤ i) → vga_print_line m b string i ≡ m i)
vga_print_line-push m b string n h s l = (
  pushes (vga_print_line m b string) m (text_line b string n)
      (λ i a c. ground (arith, printed_cell m b string n i h s l))
      (cells_from_eq (vga_print_line m b string)
        (λ x. if ltb x n then cell_of (b (string + x)) 7 0 else 32) 80 1920 0
        λ i x a c e.
          let q : i - 1920 ≡ x = omega arith in
          ground
            (arith, printed_cell m b string n i h s l, ap (λ k. cell_of (b (string + k)) 7 0) q)),
  λ i o. ground (arith, printed_cell m b string n i h s l),
)
