-- ===== src/Panic.antt =====
-- The screen that `kpanic` of kernel/panic.c draws.
use rotary_os.Base.{ℕ, Option, none, some, [], ◌∷◌}
use rotary_os.Strings.{Bytes}
use rotary_os.Strings.Format.{sprintf}
use rotary_os.Screen.{
  Cells, vga_colour_blue, vga_colour_white, vga_clear_screen, vga_overwrite_line,
}
use rotary_os.Interrupts.{IsrRegisters}

-- The addresses of the two texts, of the format of the address, and of the buffers of the code.
pub record Texts : Type 0 where
  pub headline : ℕ
  pub rule : ℕ
  pub eip_format : ℕ
  pub line : ℕ
  pub num : ℕ

-- The memory of bytes and the screen; `title` and `message` are not looked at. `none` when the fuel of `sprintf`
-- ends. The `debug_break` at the end changes nothing.
pub kpanic :
    (fuel : ℕ) → Texts → (title message : ℕ) → IsrRegisters → Bytes → Cells → Option (Bytes × Cells)
kpanic fuel t title message regs m cells =
    let c₁ = vga_clear_screen cells vga_colour_blue in
    let c₂ = vga_overwrite_line c₁ m t.headline vga_colour_white vga_colour_blue 3 in
    let c₃ = vga_overwrite_line c₂ m t.rule vga_colour_white vga_colour_blue 4 in
    elim (sprintf fuel t.num m t.line t.eip_format (regs.eip ∷ [])) [
      | none ↦ none
      | some m₁ ↦ some (m₁, vga_overwrite_line c₃ m₁ t.line vga_colour_white vga_colour_blue 5)
    ]
