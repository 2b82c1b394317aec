-- ===== src/Serial.antt =====
-- The serial ports of kernel/serial.c.
pub mod Uart
pub mod Lines
mod Tests
use rotary_os.Base.{
  ℕ, zero, suc, ◌+◌, Bool, true, false, Option, none, some, ◌==◌, not, if◌then◌else◌, bit_and,
  bit_or,
}
use rotary_os.Ports.{Ports, Device, io_port_out, io_port_in}
use rotary_os.Strings.{Bytes}
use rotary_os.Serial.Uart.{
  uart_ier, uart_fcr, uart_lcr, uart_mcr, uart_lsr, uart_lsr_tx_holding_empty, uart_lcr_dlab,
  uart_lcr_break_disable, uart_lcr_parity_none, uart_lcr_stop_bit_1, uart_lcr_word_length_8b,
  uart_mcr_force_dtr, uart_mcr_force_rts, uart_mcr_aux_output_1, uart_mcr_aux_output_2,
  uart_mcr_loopback_mode, uart_fcr_baud_38400_high, uart_fcr_baud_38400_low, uart_fcr_fifo_enable,
  uart_fcr_fifo64_disable, uart_fcr_clear_rx_fifo, uart_fcr_clear_tx_fifo, uart_fcr_int_trig_14b,
}

-- `IO_PORT_SERIAL_COM1` and `IO_PORT_SERIAL_COM2`
abbrev pub serial_com1 : ℕ
serial_com1 = 0x3f8

abbrev pub serial_com2 : ℕ
serial_com2 = 0x2f8

-- The result, 1 if the chip does not send the test byte back and 0 if it does, and the ports.
pub serial_init_port : Device → Ports → (port : ℕ) → ℕ × Ports
serial_init_port d p port =
    let p₁ = io_port_out p (port + uart_ier) 0x00 in
    let p₂ = io_port_out p₁ (port + uart_lcr) uart_lcr_dlab in
    let p₃ = io_port_out p₂ (port + 0) uart_fcr_baud_38400_low in
    let p₄ = io_port_out p₃ (port + 1) uart_fcr_baud_38400_high in
    let connection =
      bit_or (bit_or (bit_or uart_lcr_word_length_8b uart_lcr_stop_bit_1) uart_lcr_parity_none)
        uart_lcr_break_disable in
    let p₅ = io_port_out p₄ (port + uart_lcr) connection in
    let buffers =
      bit_or
        (bit_or
          (bit_or (bit_or uart_fcr_fifo_enable uart_fcr_fifo64_disable) uart_fcr_clear_rx_fifo)
          uart_fcr_clear_tx_fifo)
        uart_fcr_int_trig_14b in
    let p₆ = io_port_out p₅ (port + uart_fcr) buffers in
    let forced = bit_or (bit_or uart_mcr_force_dtr uart_mcr_force_rts) uart_mcr_aux_output_2 in
    let p₇ = io_port_out p₆ (port + uart_mcr) forced in
    let loopback =
      bit_or (bit_or (bit_or uart_mcr_force_rts uart_mcr_aux_output_1) uart_mcr_aux_output_2)
        uart_mcr_loopback_mode in
    let p₈ = io_port_out p₇ (port + uart_mcr) loopback in
    let p₉ = io_port_out p₈ (port + 0) 0xae in
    let (answer, p₁₀) = io_port_in d p₉ port in
    let normal =
      bit_or (bit_or (bit_or uart_mcr_force_dtr uart_mcr_force_rts) uart_mcr_aux_output_1)
        uart_mcr_aux_output_2 in
    if not (answer == 0xae) then (1, p₁₀) else (0, io_port_out p₁₀ (port + uart_mcr) normal)

-- The result, `serial_initialised`, and the ports: what `serial_init_port` returns is not looked at.
unfoldable pub serial_init : Device → Ports → ℕ × Bool × Ports
serial_init d p =
    let p₁ = (serial_init_port d p serial_com1).1 in
    (1, true, (serial_init_port d p₁ serial_com2).1)

pub serial_is_transmit_empty : Device → Ports → (port : ℕ) → ℕ × Ports
serial_is_transmit_empty d p port =
    let (status, p₁) = io_port_in d p (port + uart_lsr) in
    (if bit_and status uart_lsr_tx_holding_empty == 0x20 then 1 else 0, p₁)

-- The wait for an empty transmitter; `none` when the fuel ends.
pub wait_empty : (fuel : ℕ) → Device → Ports → (port : ℕ) → Option Ports
wait_empty zero d p port = none
wait_empty (suc k) d p port =
    let (empty, p₁) = serial_is_transmit_empty d p port in
    let rest = wait_empty k d p₁ port in if empty == 0 then rest else some p₁

-- The loop over the bytes of the line; the number of bytes is bounded by the rounds.
pub write_bytes :
    (rounds fuel : ℕ) → Device → Ports → (port : ℕ) → Bytes → (line : ℕ) → Option Ports
write_bytes zero fuel d p port m line = none
write_bytes (suc n) fuel d p port m line = elim (m line == 0) [
  | true ↦ some p
  | false ↦ elim (wait_empty fuel d p port) [
    | none ↦ none
    | some p₁ ↦ write_bytes n fuel d (io_port_out p₁ port (m line)) port m (line + 1)
  ]
]

pub serial_write_line :
    (rounds fuel : ℕ)
    → Device
    → (serial_initialised : Bool) → Ports
    → (port : ℕ) → Bytes
    → (line : ℕ) → Option (ℕ × Ports)
serial_write_line rounds fuel d serial_initialised p port m line =
    if not serial_initialised
    then some (0, p)
    else elim (write_bytes rounds fuel d p port m line) [ none ↦ none | some p₁ ↦ some (1, p₁) ]
