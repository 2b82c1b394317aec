-- ===== src/Screen/Tests.antt =====
-- Runs of arch/x86/kernel/vga.c, and its theorems on a blank screen.
use rotary_os.Base.{ℕ, ◌≤◌, ◌<◌, ◌≡◌, ◌⊎◌, refl, arith, ◌==◌, if◌then◌else◌}
use rotary_os.Ports.{no_ports}
use rotary_os.Strings.{Bytes}
use rotary_os.Strings.Compare.{IsString}
use rotary_os.Screen.{
  Screen, Cells, cell_of, vga_set_cursor, vga_print_line, vga_print_char_at_cursor, vga_write,
}
use rotary_os.Screen.Console.{console, push, text_line, vga_print_line-push}
use rotary_os.Screen.Cursor.{IsPrinted, vga_write-IsPrinted}

abbrev blank : Cells
blank = λ i. 32

-- "hi" at 16; all other bytes are 0.
abbrev hi : Bytes
hi = λ a. if a == 16 then 104 else if a == 17 then 105 else 0

abbrev start : Screen
start = record {
  cells = blank;
  current_fg_colour = 7;
  cursor_x = 0;
  cursor_y = 24;
  ports = no_ports;
}

screen_runs :
    (cell_of 104 7 0 ≡ 0x768)
    × ((vga_set_cursor start 7 24).cursor_x ≡ 7)
    × ((vga_print_char_at_cursor start 104).cells 1920 ≡ 0x768)
    × ((vga_print_char_at_cursor start 13).current_fg_colour ≡ 4)
unfolding cell_of vga_set_cursor vga_print_char_at_cursor
screen_runs = (refl, refl, refl, refl)

hi-IsString : IsString hi 16 2
hi-IsString = record { end = refl; inside = λ i b e. ground (arith, b, e) }

vga_print_line-push_example :
    (console (vga_print_line blank hi 16) ≡ push (text_line hi 16 2) (console blank))
    × ((i : ℕ) → (i < 160) ⊎ (2000 ≤ i) → vga_print_line blank hi 16 i ≡ 32)
vga_print_line-push_example =
    vga_print_line-push blank hi 16 2 (λ i. omega arith) hi-IsString (omega arith)

vga_write-IsPrinted_example : IsPrinted start (vga_write start hi 16)
vga_write-IsPrinted_example =
    vga_write-IsPrinted start hi 16
      (record { column = omega arith; line = omega arith; cells = λ i. omega arith })
