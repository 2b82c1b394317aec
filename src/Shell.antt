-- ===== src/Shell.antt =====
-- The shell of kernel/shell.c: the line that the user types, and the command that it names.
pub mod Line
pub mod Edit
pub mod Commands
pub mod Dispatch
mod Tests
use rotary_os.Base.{
  ℕ, zero, suc, ◌+◌, ◌-◌, ◌*◌, ◌^◌, Bool, ◌==◌, ◌||◌, not, if◌then◌else◌, update, add32, sub32,
  List, [], ◌∷◌,
}
use rotary_os.Strings.{Bytes, strlen, strcmp}
use rotary_os.Strings.Copy.{memset, strcat}
use rotary_os.Keyboard.{key_enter, key_backspace}
use rotary_os.Screen.{
  Screen, top_line, vga_height, vga_colour_white, vga_colour_black, vga_scroll_up,
  vga_overwrite_line, vga_set_cursor, vga_print_char_at_cursor, vga_delete_char_at_cursor,
  vga_clear_line, Cells,
}

-- The memory of bytes, which holds `input_buffer`, and the screen.
pub record Shell : Type 0 where
  pub bytes : Bytes
  pub screen : Screen

-- `prompt` is the address of the text of the prompt.
pub shell_print_prompt : (prompt : ℕ) → Bytes → Screen → Screen
shell_print_prompt prompt m s =
    vga_set_cursor
      (record s {
        cells = vga_overwrite_line s.cells m prompt vga_colour_white vga_colour_black 24;
      })
      7 24

-- In an empty buffer the second write goes to the byte in front of it.
pub shell_delete_from_input_buffer : Bytes → (input_buffer : ℕ) → Bytes
shell_delete_from_input_buffer m input_buffer =
    let m₁ = update m (input_buffer + strlen m input_buffer) 0 in
    update m₁ (add32 input_buffer (sub32 (strlen m₁ input_buffer) 1)) 0

pub shell_clear_input_buffer : Bytes → (input_buffer : ℕ) → Bytes
shell_clear_input_buffer m input_buffer = memset 256 m input_buffer 0

-- The lines from `i` on that the command clears.
pub clear_lines : (rounds : ℕ) → Cells → (i : ℕ) → Cells
clear_lines zero m i = m
clear_lines (suc n) m i = clear_lines n (vga_clear_line m i) (i + 1)

pub data Command : Type 0 where
  tss : Command
  apple : Command
  banana : Command
  testkill : Command
  gdt : Command
  cr0 : Command
  lol2 : Command
  clear : Command
  build : Command
  tasks : Command
  pmm : Command
  vmm : Command
  die : Command
  heap : Command
  unknown : Command

-- The addresses of the names, in the order of the tests.
pub record Names : Type 0 where
  pub at : Command → ℕ
  pub cls : ℕ

-- `strcmp` of this repository gives 1 for equal strings.
abbrev pub names : Bytes → (name command : ℕ) → Bool
names m name command = not (strcmp m command name == 0)

-- Which branch of `shell_process_command` runs.
pub find_command : Names → Bytes → (command : ℕ) → Command
find_command t m command =
    if names m (t.at tss) command
    then tss
    else if names m (t.at apple) command
    then apple
    else if names m (t.at banana) command
    then banana
    else if names m (t.at testkill) command
    then testkill
    else if names m (t.at gdt) command
    then gdt
    else if names m (t.at cr0) command
    then cr0
    else if names m (t.at lol2) command
    then lol2
    else if names m (t.at clear) command || names m t.cls command
    then clear
    else if names m (t.at build) command
    then build
    else if names m (t.at tasks) command
    then tasks
    else if names m (t.at pmm) command
    then pmm
    else if names m (t.at vmm) command
    then vmm
    else if names m (t.at die) command
    then die
    else if names m (t.at heap) command
    then heap
    else unknown

-- `key_address` is the address of the parameter `key`, which the code makes a string of one byte.
pub shell_keyboard_handler :
    (process : (command : ℕ) → Shell → Shell)
    → (input_buffer prompt key_address : ℕ) → Shell
    → (key : ℕ) → Shell
shell_keyboard_handler process input_buffer prompt key_address s key =
    if key == key_enter
    then (let up = vga_scroll_up 1 s.screen.cells top_line in
        let s₁ = record s { screen = record (s.screen) { cells = up; cursor_x = 0 } } in
        let s₂ = process input_buffer s₁ in
        let m = shell_clear_input_buffer s₂.bytes input_buffer in
        record { bytes = m; screen = shell_print_prompt prompt m s₂.screen })
    else if key == key_backspace
    then record {
      bytes = shell_delete_from_input_buffer s.bytes input_buffer;
      screen = vga_delete_char_at_cursor s.screen;
    }
    else if not (key == 0)
    then record {
      bytes =
          strcat (update (update s.bytes key_address key) (key_address + 1) 0) input_buffer
            key_address;
      screen = vga_print_char_at_cursor s.screen key;
    }
    else s
