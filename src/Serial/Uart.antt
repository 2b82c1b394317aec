-- ===== src/Serial/Uart.antt =====
-- The registers of the serial chip and the bits in them, from include/rotary/serial.h.
use rotary_os.Base.{ℕ}

abbrev pub uart_ier : ℕ
uart_ier = 1

abbrev pub uart_fcr : ℕ
uart_fcr = 2

abbrev pub uart_lcr : ℕ
uart_lcr = 3

abbrev pub uart_mcr : ℕ
uart_mcr = 4

abbrev pub uart_lsr : ℕ
uart_lsr = 5

abbrev pub uart_lsr_tx_holding_empty : ℕ
uart_lsr_tx_holding_empty = 0x20

abbrev pub uart_lcr_dlab : ℕ
uart_lcr_dlab = 0x80

abbrev pub uart_lcr_break_disable : ℕ
uart_lcr_break_disable = 0

abbrev pub uart_lcr_parity_none : ℕ
uart_lcr_parity_none = 0

abbrev pub uart_lcr_stop_bit_1 : ℕ
uart_lcr_stop_bit_1 = 0

abbrev pub uart_lcr_word_length_8b : ℕ
uart_lcr_word_length_8b = 3

abbrev pub uart_mcr_force_dtr : ℕ
uart_mcr_force_dtr = 1

abbrev pub uart_mcr_force_rts : ℕ
uart_mcr_force_rts = 2

abbrev pub uart_mcr_aux_output_1 : ℕ
uart_mcr_aux_output_1 = 4

abbrev pub uart_mcr_aux_output_2 : ℕ
uart_mcr_aux_output_2 = 8

abbrev pub uart_mcr_loopback_mode : ℕ
uart_mcr_loopback_mode = 0x10

abbrev pub uart_fcr_baud_38400_high : ℕ
uart_fcr_baud_38400_high = 0

abbrev pub uart_fcr_baud_38400_low : ℕ
uart_fcr_baud_38400_low = 3

abbrev pub uart_fcr_fifo_enable : ℕ
uart_fcr_fifo_enable = 1

abbrev pub uart_fcr_fifo64_disable : ℕ
uart_fcr_fifo64_disable = 0

abbrev pub uart_fcr_clear_rx_fifo : ℕ
uart_fcr_clear_rx_fifo = 2

abbrev pub uart_fcr_clear_tx_fifo : ℕ
uart_fcr_clear_tx_fifo = 4

abbrev pub uart_fcr_int_trig_14b : ℕ
uart_fcr_int_trig_14b = 0xc0
