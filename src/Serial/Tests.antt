-- ===== src/Serial/Tests.antt =====
-- A line on a serial port of kernel/serial.c whose transmitter is empty at every second question.
use rotary_os.Base.{
  ℕ, ◌+◌, ◌%◌, ◌≡◌, inl, inr, refl, arith, leb-cases, ◌==◌, if◌then◌else◌, true, false, some, ◌++◌,
}
use rotary_os.Base.Bits.{bit}
use rotary_os.Ports.{Ports, Device, no_ports}
use rotary_os.Strings.{Bytes}
use rotary_os.Strings.Compare.{IsString}
use rotary_os.Serial.{serial_write_line, serial_com1}
use rotary_os.Serial.Lines.{Empties, outs, serial_write_line_lem}

abbrev slow : Device
slow read port = if read % 2 == 0 then 0 else 0x20

-- "OK" at 100.
abbrev ok_text : Bytes
ok_text a = if a == 100 then 79 else if a == 101 then 75 else 0

slow-Empties : Empties 2 slow serial_com1
unfolding rotary_os.Base.Bits.bit
slow-Empties read = elim (leb-cases (read % 2) 0) [
  | inl even ↦ (1, omega arith, ground arith)
  | inr odd ↦ (0, omega arith, ground arith)
]

ok_text-IsString : IsString ok_text 100 2
ok_text-IsString = record { end = refl; inside = λ i l. ground (arith, l) }

serial_write_line_lem_example :
    ((q : Ports) × (serial_write_line 3 2 slow true no_ports serial_com1 ok_text 100 ≡ some (1, q))
      × (q.written ≡ no_ports.written ++ outs serial_com1 ok_text 100 2))
    × (serial_write_line 3 2 slow false no_ports serial_com1 ok_text 100 ≡ some (0, no_ports))
serial_write_line_lem_example =
    serial_write_line_lem 3 2 slow no_ports serial_com1 ok_text 100 2 slow-Empties ok_text-IsString
      (omega arith)
