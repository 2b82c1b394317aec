-- ===== src/Screen/Cursor.antt =====
-- The cursor of arch/x86/kernel/vga.c stays on the screen, and so do the writes of `vga_write`.
use rotary_os.Base.{
  ℕ, zero, suc, ◌+◌, ◌^◌, ◌≤◌, ◌<◌, ◌≡◌, refl, arith, ◌==◌, Bool, true, false, by_if, if◌then◌else◌,
}
use mathlib.Core.Path.{◌∙◌}
use rotary_os.Strings.{Bytes, strlen}
use rotary_os.Screen.{
  Screen, cell_of, cell_index, new_line, put_character, vga_print_char_at_cursor, print_chars,
  vga_write,
}
use rotary_os.Screen.Scroll.{IsCells, update-IsCells, scroll_up_lem}

-- The cursor is in a line of the screen, at a column of it or right behind the last.
pub record IsOnScreen (s : Screen) : Type 0 where
  pub column : s.cursor_x ≤ 80
  pub line : s.cursor_y < 25
  pub cells : IsCells s.cells

-- What printing leaves: the line of the cursor, and the memory behind the screen.
pub record IsPrinted (s s' : Screen) : Type 0 where
  pub on_screen : IsOnScreen s'
  pub same_line : s'.cursor_y ≡ s.cursor_y
  pub behind : (i : ℕ) → 2000 ≤ i → s'.cells i ≡ s.cells i

IsPrinted-refl : (s : Screen) → IsOnScreen s → IsPrinted s s
IsPrinted-refl s h = record { on_screen = h; same_line = refl; behind = λ i b. refl }

IsPrinted-trans : {s₁ s₂ s₃ : Screen} → IsPrinted s₁ s₂ → IsPrinted s₂ s₃ → IsPrinted s₁ s₃
IsPrinted-trans p q = record {
  on_screen = q.on_screen;
  same_line = q.same_line ∙ p.same_line;
  behind = λ i b. q.behind i b ∙ p.behind i b;
}

cell_of-lt : (character fg bg : ℕ) → cell_of character fg bg < 2 ^ 16
unfolding cell_of
cell_of-lt character fg bg = omega arith

new_line-IsPrinted : (s : Screen) → IsOnScreen s → IsPrinted s (new_line s)
new_line-IsPrinted s h = record {
  on_screen = record {
    column = omega arith;
    line = h.line;
    cells = λ i. ground (arith, scroll_up_lem s.cells 3 i h.cells, h.cells i, h.cells (i + 80));
  };
  same_line = refl;
  behind = λ i b. ground (arith, scroll_up_lem s.cells 3 i h.cells);
}

put_character-IsPrinted :
    (s : Screen) (c : ℕ) → IsOnScreen s → s.cursor_x < 80 → IsPrinted s (put_character s c)
put_character-IsPrinted s c h small = record {
  on_screen = record {
    column = omega (arith, small);
    line = h.line;
    cells =
        update-IsCells s.cells (cell_index s.cursor_x s.cursor_y) (cell_of c s.current_fg_colour 0)
          h.cells (cell_of-lt c s.current_fg_colour 0);
  };
  same_line = refl;
  behind = λ i b.
      let line = h.line in
      let apart : (i == cell_index s.cursor_x s.cursor_y) ≡ false = ground (arith, line) in
      rw apart refl;
}

coloured-IsPrinted :
    (s : Screen) (fg : ℕ) → IsOnScreen s → IsPrinted s (record s { current_fg_colour = fg })
coloured-IsPrinted s fg h = record {
  on_screen = record { column = h.column; line = h.line; cells = h.cells };
  same_line = refl;
  behind = λ i b. refl;
}

-- A character that is shown: the cursor wraps first where it stands behind the last column.
shown-IsPrinted :
    (s : Screen) (c : ℕ)
    → IsOnScreen s
    → IsPrinted s (put_character (if s.cursor_x == 80 then new_line s else s) c)
shown-IsPrinted s c h = go (s.cursor_x == 80) refl
  where
    go :
        (b : Bool)
        → (s.cursor_x == 80) ≡ b
        → IsPrinted s (put_character (if b then new_line s else s) c)
    go true e =
        let wrapped = new_line-IsPrinted s h in
        IsPrinted-trans wrapped
          (put_character-IsPrinted (new_line s) c wrapped.on_screen (omega arith))
    go false e = let column = h.column in put_character-IsPrinted s c h (ground (arith, column, e))

print_char-IsPrinted :
    (s : Screen) (c : ℕ) → IsOnScreen s → IsPrinted s (vga_print_char_at_cursor s c)
unfolding vga_print_char_at_cursor
print_char-IsPrinted s c h = by_if (IsPrinted s) (c == 10) (new_line-IsPrinted s h) (
    by_if (IsPrinted s) (c == 12) (coloured-IsPrinted s 2 h) (
      by_if (IsPrinted s) (c == 13) (coloured-IsPrinted s 4 h)
        (by_if (IsPrinted s) (c == 11) (coloured-IsPrinted s 7 h) (shown-IsPrinted s c h))))

print_chars-IsPrinted :
    (n : ℕ) (s : Screen) (b : Bytes) (string i : ℕ)
    → IsOnScreen s
    → IsPrinted s (print_chars n s b string i)
unfolding print_chars
print_chars-IsPrinted zero s b string i h = IsPrinted-refl s h
print_chars-IsPrinted (suc n) s b string i h =
    let first = print_char-IsPrinted s (b (string + i)) h in
    IsPrinted-trans first (
      print_chars-IsPrinted n (vga_print_char_at_cursor s (b (string + i))) b string (i + 1)
        first.on_screen)

-- From a cursor on the screen, `vga_write` of any bytes leaves it in the same line of the screen and
-- writes no memory behind the screen's 2000 cells.
pub vga_write-IsPrinted :
    (s : Screen) (b : Bytes) (string : ℕ) → IsOnScreen s → IsPrinted s (vga_write s b string)
unfolding vga_write
vga_write-IsPrinted s b string h = print_chars-IsPrinted (strlen b string) s b string 0 h
