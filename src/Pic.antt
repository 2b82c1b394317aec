-- ===== src/Pic.antt =====
-- The interrupt controllers of arch/x86/kernel/pic8259.c.
use rotary_os.Base.{ℕ, ◌%◌, ◌^◌, leb, bit_or, if◌then◌else◌}
use rotary_os.Ports.{Ports, io_port_out}

-- `IO_PORT_PIC1_CMD` and the three other ports, and `IO_CMD_PIC_EOI`
abbrev pub pic1_cmd : ℕ
pic1_cmd = 0x20

abbrev pub pic1_data : ℕ
pic1_data = 0x21

abbrev pub pic2_cmd : ℕ
pic2_cmd = 0xa0

abbrev pub pic2_data : ℕ
pic2_data = 0xa1

abbrev pub pic_eoi : ℕ
pic_eoi = 0x20

-- The argument is converted to `uint8`.
unfoldable pub pic_send_eoi : Ports → (irq : ℕ) → Ports
pic_send_eoi p irq =
    io_port_out (if leb 8 (irq % 2 ^ 8) then io_port_out p pic2_cmd pic_eoi else p) pic1_cmd pic_eoi

-- The result and the ports.
unfoldable pub pic_init : Ports → (master_offset slave_offset : ℕ) → ℕ × Ports
pic_init p master_offset slave_offset =
    let p₁ = io_port_out p pic1_cmd (bit_or 0x10 0x01) in
    let p₂ = io_port_out p₁ pic2_cmd (bit_or 0x10 0x01) in
    let p₃ = io_port_out p₂ pic1_data master_offset in
    let p₄ = io_port_out p₃ pic2_data slave_offset in
    let p₅ = io_port_out p₄ pic1_data 0x04 in
    let p₆ = io_port_out p₅ pic2_data 0x02 in
    let p₇ = io_port_out p₆ pic1_data 0x01 in
    let p₈ = io_port_out p₇ pic2_data 0x01 in
    let p₉ = io_port_out p₈ pic1_data 0x00 in (1, io_port_out p₉ pic2_data 0x00)
