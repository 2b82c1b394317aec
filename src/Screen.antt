-- ===== src/Screen.antt =====
-- The text screen of arch/x86/kernel/vga.c. The buffer is a function from the index of a cell to its
-- 16 bits: the character below, the colours above.
pub mod Scroll
pub mod Console
pub mod Cursor
mod Tests
use rotary_os.Base.{
  ℕ, zero, suc, ◌+◌, ◌-◌, ◌*◌, ◌/◌, ◌%◌, ◌^◌, Bool, true, false, ◌==◌, leb, if◌then◌else◌, add32,
  sub32, update, bit_and, bit_or, shr,
}
use rotary_os.Strings.{Bytes, strlen}
use rotary_os.Ports.{Ports, io_port_out}

abbrev pub vga_width : ℕ
vga_width = 80

abbrev pub vga_height : ℕ
vga_height = 25

abbrev pub top_line : ℕ
top_line = 3

abbrev pub vga_colour_black : ℕ
vga_colour_black = 0

abbrev pub vga_colour_blue : ℕ
vga_colour_blue = 1

abbrev pub vga_colour_green : ℕ
vga_colour_green = 2

abbrev pub vga_colour_cyan : ℕ
vga_colour_cyan = 3

abbrev pub vga_colour_red : ℕ
vga_colour_red = 4

abbrev pub vga_colour_white : ℕ
vga_colour_white = 7

abbrev pub Cells : Type 0
Cells = ℕ → ℕ

-- The buffer, `current_fg_colour` and `vga_state`, with the ports that move the hardware's cursor.
pub record Screen : Type 0 where
  pub cells : Cells
  pub current_fg_colour : ℕ
  pub cursor_x : ℕ
  pub cursor_y : ℕ
  pub ports : Ports

-- The address wraps at 2 ^ 32, so the index of a cell of two bytes wraps at 2 ^ 31.
abbrev pub cell_index : (x y : ℕ) → ℕ
cell_index x y = (y * 80 + x) % 2 ^ 31

pub cell_of : (character fg_colour bg_colour : ℕ) → ℕ
cell_of character fg_colour bg_colour =
    let attrib = bit_or (bg_colour * 2 ^ 4) (bit_and fg_colour 0x0f) in
    bit_or character (attrib * 2 ^ 8) % 2 ^ 16

abbrev pub vga_set_character : Cells → (character fg_colour bg_colour x y : ℕ) → Cells
vga_set_character m character fg_colour bg_colour x y =
    update m (cell_index x y) (cell_of character fg_colour bg_colour)

-- The loop that writes one cell in the columns from `i` on: `vga_clear_line` and
-- `vga_print_separator`.
pub fill_line : (rounds : ℕ) → Cells → (bg_colour i line : ℕ) → Cells
fill_line zero m bg_colour i line = m
fill_line (suc n) m bg_colour i line =
    fill_line n (vga_set_character m b' ' vga_colour_black bg_colour i line) bg_colour (i + 1) line

pub vga_clear_line : Cells → ℕ → Cells
vga_clear_line m line = fill_line 80 m vga_colour_black 0 line

pub vga_print_separator : Cells → (colour y : ℕ) → Cells
vga_print_separator m colour y = fill_line 80 m colour 0 y

-- `colour >> 4` for a `char`, which has a sign, converted to a `uchar`.
abbrev pub background : ℕ → ℕ
background colour = if leb 128 colour then shr colour 4 + 240 else shr colour 4

-- The copies of `vga_scroll_up` from one line to the line above, in the columns from `x` on.
pub move_line : (rounds : ℕ) → Cells → (line x : ℕ) → Cells
move_line zero m line x = m
move_line (suc n) m line x =
    let cell = m (cell_index x line) in
    let character = cell % 2 ^ 8 in
    let colour = shr cell 8 in
    move_line n
      (vga_set_character m character (bit_and colour 0x0f) (background colour) x (sub32 line 1))
      line (x + 1)

-- One round of `vga_scroll_up`: the lines from `line` on.
pub scroll_lines : (rounds : ℕ) → Cells → ℕ → Cells
scroll_lines zero m line = m
scroll_lines (suc n) m line =
    scroll_lines n (vga_clear_line (move_line vga_width m line 0) line) (line + 1)

pub vga_scroll_up : (line_count : ℕ) → Cells → (top : ℕ) → Cells
vga_scroll_up zero m top = m
vga_scroll_up (suc n) m top = vga_scroll_up n (scroll_lines (vga_height - top) m top) top

-- The inner loop of `vga_clear_screen`, then the outer one.
pub clear_column : (rounds : ℕ) → Cells → (colour x y : ℕ) → Cells
clear_column zero m colour x y = m
clear_column (suc n) m colour x y =
    clear_column n (vga_set_character m b' ' vga_colour_black colour x y) colour x (y + 1)

pub clear_columns : (rounds : ℕ) → Cells → (colour x : ℕ) → Cells
clear_columns zero m colour x = m
clear_columns (suc n) m colour x = clear_columns n (clear_column 25 m colour x 0) colour (x + 1)

pub vga_clear_screen : Cells → (colour : ℕ) → Cells
vga_clear_screen m colour = clear_columns 80 m colour 0

-- The loop of `vga_overwrite_line` over the characters from index `i` on.
pub write_text : (rounds : ℕ) → Cells → Bytes → (string fg_colour bg_colour i y : ℕ) → Cells
write_text zero m b string fg_colour bg_colour i y = m
write_text (suc n) m b string fg_colour bg_colour i y =
    write_text n (vga_set_character m (b (string + i)) fg_colour bg_colour i y) b string fg_colour
      bg_colour (i + 1) y

pub vga_overwrite_line : Cells → Bytes → (string fg_colour bg_colour y : ℕ) → Cells
vga_overwrite_line m b string fg_colour bg_colour y =
    write_text (strlen b string) (vga_clear_line m y) b string fg_colour bg_colour 0 y

pub vga_print_line : Cells → Bytes → (string : ℕ) → Cells
vga_print_line m b string =
    vga_overwrite_line (vga_scroll_up 1 m top_line) b string vga_colour_white vga_colour_black 24

pub vga_set_cursor : Screen → (x y : ℕ) → Screen
vga_set_cursor s x y =
    let position = (y * vga_width + x) % 2 ^ 16 in
    let p₁ = io_port_out s.ports 0x3d4 0x0f in
    let p₂ = io_port_out p₁ 0x3d5 (bit_and position 0xff) in
    let p₃ = io_port_out p₂ 0x3d4 0x0e in
    record s {
      cursor_x = x;
      cursor_y = y;
      ports = io_port_out p₃ 0x3d5 (bit_and (shr position 8) 0xff);
    }

-- The next line: the cursor goes to the left, and the lines from `TOP_LINE` on move up.
abbrev pub new_line : Screen → Screen
new_line s = record s { cursor_x = 0; cells = vga_scroll_up 1 s.cells top_line }

-- The character is written and the cursor moves right.
abbrev pub put_character : Screen → ℕ → Screen
put_character s tchar = record s {
  cells =
      vga_set_character s.cells tchar s.current_fg_colour vga_colour_black s.cursor_x s.cursor_y;
  cursor_x = add32 s.cursor_x 1;
}

pub vga_print_char_at_cursor : Screen → (tchar : ℕ) → Screen
vga_print_char_at_cursor s tchar =
    if tchar == 10
    then new_line s
    else if tchar == 12
    then record s { current_fg_colour = vga_colour_green }
    else if tchar == 13
    then record s { current_fg_colour = vga_colour_red }
    else if tchar == 11
    then record s { current_fg_colour = vga_colour_white }
    else put_character (if s.cursor_x == vga_width then new_line s else s) tchar

-- The loop of `vga_write` and of `vga_print_string_at_cursor`.
pub print_chars : (rounds : ℕ) → Screen → Bytes → (string i : ℕ) → Screen
print_chars zero s b string i = s
print_chars (suc n) s b string i =
    print_chars n (vga_print_char_at_cursor s (b (string + i))) b string (i + 1)

pub vga_write : Screen → Bytes → (string : ℕ) → Screen
vga_write s b string = print_chars (strlen b string) s b string 0

pub vga_delete_char_at_cursor : Screen → Screen
vga_delete_char_at_cursor s = if s.cursor_x == 0 then s else record s {
  cells =
      vga_set_character s.cells b' ' vga_colour_black vga_colour_black (sub32 s.cursor_x 1)
        s.cursor_y;
  cursor_x = sub32 s.cursor_x 1;
}
