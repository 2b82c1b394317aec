-- ===== src/Logging.antt =====
-- Printing to the screen and to the serial ports: kernel/logging.c, and `vga_printf` of
-- include/rotary/vga.h.
use rotary_os.Base.{ℕ, Bool, leb, add32, if◌then◌else◌, Option, none, some, List, [], ◌∷◌}
use rotary_os.Ports.{Device}
use rotary_os.Strings.{Bytes, strlen}
use rotary_os.Strings.Copy.{memset, memcpy}
use rotary_os.Strings.Format.{sprintf}
use rotary_os.Screen.{Screen, vga_write}
use rotary_os.Serial.{serial_com1, serial_com2, serial_write_line}
use rotary_os.Task.{lock, unlock}

abbrev pub log_debug : ℕ
log_debug = 1

abbrev pub log_info : ℕ
log_info = 2

-- The memory of bytes, the screen with the ports, `serial_initialised` and `print_lock`.
pub record Log : Type 0 where
  pub bytes : Bytes
  pub screen : Screen
  pub serial_initialised : Bool
  pub print_lock : Bool

-- Where the local buffers and the format of a line of the log stand.
pub record Buffers : Type 0 where
  pub tmp : ℕ
  pub vga_tmp : ℕ
  pub num : ℕ
  pub final_message : ℕ
  pub final_tag : ℕ
  pub vga_message : ℕ
  pub log_format : ℕ

-- `fmt_str` is the address of a format.
pub vga_printf : (fuel : ℕ) → Buffers → (fmt_str : ℕ) → List ℕ → Log → Option Log
vga_printf fuel b fmt_str arguments s =
    elim (sprintf fuel b.num (memset 512 s.bytes b.vga_tmp 0) b.vga_tmp fmt_str arguments) [
      | none ↦ none
      | some m ↦ some (record s { bytes = m; screen = vga_write s.screen m b.vga_tmp })
    ]

-- A line for a serial port.
pub log_serial : (fuel : ℕ) → Device → Buffers → (port : ℕ) → Log → Option Log
log_serial fuel d b port s =
    elim (serial_write_line fuel fuel d s.serial_initialised s.screen.ports port s.bytes
      b.final_message) [
        | none ↦ none
        | some (result, p) ↦ some (record s { screen = record (s.screen) { ports = p } })
      ]

-- What is done under the lock. The message is taken for a format once more.
pub log_out : (fuel : ℕ) → Device → Buffers → (level : ℕ) → Log → Option Log
log_out fuel d b level s =
    if leb log_info level
    then elim (vga_printf fuel b b.vga_message [] s) [
      | none ↦ none
      | some s₁ ↦ log_serial fuel d b serial_com1 s₁
    ]
    else if leb level log_debug
    then log_serial fuel d b serial_com2 s
    else some s

-- `_printk`; its call of `strncpy` copies as `memcpy` does. `none` when the fuel ends.
pub log_message : (fuel : ℕ) → Device → Buffers → (level tag message : ℕ) → Log → Option Log
log_message fuel d b level tag message s =
    let m₁ = memset 512 s.bytes b.final_message 0 in
    let m₂ = memset 16 m₁ b.final_tag 0 in
    let m₃ = memset 512 m₂ b.vga_message 0 in
    elim (sprintf fuel b.num m₃ b.final_message b.log_format (tag ∷ message ∷ [])) [
      | none ↦ none
      | some m₄ ↦
          let m₅ = memcpy (add32 (strlen m₄ message) 1) m₄ b.vga_message message in
          elim (lock fuel s.print_lock) [
            | none ↦ none
            | some held ↦
                elim (log_out fuel d b level (record s { bytes = m₅; print_lock = held })) [
                  | none ↦ none
                  | some s₁ ↦ some (record s₁ { print_lock = unlock s₁.print_lock })
                ]
          ]
    ]

-- The formatted message stands in `tmp`, which `_printk` then reads.
pub printk : (fuel : ℕ) → Device → Buffers → (level tag fmt_str : ℕ) → List ℕ → Log → Option Log
printk fuel d b level tag fmt_str arguments s =
    elim (sprintf fuel b.num (memset 512 s.bytes b.tmp 0) b.tmp fmt_str arguments) [
      | none ↦ none
      | some m ↦ log_message fuel d b level tag b.tmp (record s { bytes = m })
    ]
