-- ===== src/Ports.antt =====
-- The ports of arch/x86/kernel/io_port.c: what was written to them, in order, and what they answer.
use rotary_os.Base.{ℕ, ◌+◌, ◌%◌, ◌^◌, List, [], ◌∷◌, ◌++◌}

-- One `out`: a byte for a port of 16 bits.
pub record Out : Type 0 where
  pub port : ℕ
  pub value : ℕ

-- The writes so far, the first one first, and the number of reads so far.
pub record Ports : Type 0 where
  pub written : List Out
  pub reads : ℕ

abbrev pub no_ports : Ports
no_ports = record { written = []; reads = 0 }

-- The arguments are converted to `uint16` and `uint8`.
abbrev pub io_port_out : Ports → (port_num value : ℕ) → Ports
io_port_out p port_num value = record p {
  written = p.written ++ record { port = port_num % 2 ^ 16; value = value % 2 ^ 8 } ∷ [];
}

-- What the devices answer: the byte of the read with this number from this port.
abbrev pub Device : Type 0
Device = (read port_num : ℕ) → ℕ

abbrev pub io_port_in : Device → Ports → (port_num : ℕ) → ℕ × Ports
io_port_in d p port_num = (d p.reads (port_num % 2 ^ 16) % 2 ^ 8, record p { reads = p.reads + 1 })
