-- ===== src/Serial/Lines.antt =====
-- `serial_write_line` of kernel/serial.c: what reaches the port.
use rotary_os.Base.{
  ℕ, zero, suc, ◌+◌, ◌-◌, ◌*◌, ◌%◌, ◌^◌, ◌<◌, ◌≡◌, ◌≢◌, inl, inr, refl, sym, arith, Bool-cases,
  leb-cases, true, false, ◌==◌, bit_and, some, List, [], ◌∷◌, ◌++◌,
}
use mathlib.Core.Path.{◌∙◌, subst}
use mathlib.Core.List.{append-nil, append_assoc}
use rotary_os.Base.Bits.{bit, bit_and-mask}
use rotary_os.Ports.{Out, Ports, Device, io_port_out}
use rotary_os.Strings.{Bytes}
use rotary_os.Strings.Compare.{IsString}
use rotary_os.Serial.{serial_is_transmit_empty, wait_empty, write_bytes, serial_write_line}

-- The line status register of the port.
abbrev pub line_status : (port : ℕ) → ℕ
line_status port = (port + 5) % 2 ^ 16

-- Whenever the code starts to ask, one of the next `fuel` answers has bit 5, the empty transmitter.
abbrev pub Empties : (fuel : ℕ) → Device → (port : ℕ) → Type 0
Empties fuel d port =
    (read : ℕ) → (j : ℕ) × (j < fuel) × (bit (d (read + j) (line_status port) % 2 ^ 8) 5 ≡ 1)

-- One write to the port for each byte.
abbrev pub outs : (port : ℕ) → Bytes → (line n : ℕ) → List Out
outs port m line zero = []
outs port m line (suc n) =
    record { port = port % 2 ^ 16; value = m line % 2 ^ 8 } ∷ outs port m (line + 1) n

module _ (d : Device) (port : ℕ) where
  transmit_empty :
      (p : Ports)
      → bit (d p.reads (line_status port) % 2 ^ 8) 5 ≡ 1
      → (serial_is_transmit_empty d p port).0 ≡ 1
  unfolding serial_is_transmit_empty
  transmit_empty p h =
      let status = d p.reads (line_status port) % 2 ^ 8 in
      let mask : bit_and status 0x20 ≡ bit status 5 * 32 = bit_and-mask status 5 (omega arith) in
      let set : (bit_and status 0x20 == 0x20) ≡ true = ground (arith, mask, h) in rw set refl

  wait_empty_lem :
      (fuel : ℕ) (p : Ports) (j : ℕ)
      → j < fuel
      → bit (d (p.reads + j) (line_status port) % 2 ^ 8) 5 ≡ 1
      → (q : Ports) × (wait_empty fuel d p port ≡ some q) × (q.written ≡ p.written)
  unfolding wait_empty serial_is_transmit_empty
  wait_empty_lem zero p j b h = absurd (omega arith)
  wait_empty_lem (suc k) p j b h = elim (Bool-cases ((serial_is_transmit_empty d p port).0 == 0)) [
    | inr empty ↦ (record p { reads = p.reads + 1 }, rw empty refl, refl)
    | inl full ↦
        let (q, e, same) =
          wait_empty_lem k (record p { reads = p.reads + 1 }) (j - 1) (later full)
            (subst (λ r. bit (d r (line_status port) % 2 ^ 8) 5 ≡ 1) (place full) h) in
        (q, rw full e, same)
  ]
    where
      clash : {x : ℕ} → x ≡ 1 → (x == 0) ≡ true → ⊥
      clash a b = ground (arith, a, b)

      positive : ((serial_is_transmit_empty d p port).0 == 0) ≡ true → 0 < j
      positive full = elim (leb-cases j 0) [
        | inr above ↦ above
        | inl none_left ↦
            let zero_left : p.reads + j ≡ p.reads = omega arith in
            let answer =
              transmit_empty p
                (subst (λ r. bit (d r (line_status port) % 2 ^ 8) 5 ≡ 1) zero_left h) in
            absurd (clash answer full)
      ]

      later : ((serial_is_transmit_empty d p port).0 == 0) ≡ true → j - 1 < k
      later full = let pos = positive full in omega arith

      place :
          ((serial_is_transmit_empty d p port).0 == 0) ≡ true → p.reads + j ≡ p.reads + 1 + (j - 1)
      place full = let pos = positive full in omega arith

  -- The loop over the bytes of a text.
  write_bytes_lem :
      (rounds fuel : ℕ) (p : Ports) (m : Bytes) (line n : ℕ)
      → Empties fuel d port
      → IsString m line n
      → n < rounds
      → (q : Ports) × (write_bytes rounds fuel d p port m line ≡ some q)
        × (q.written ≡ p.written ++ outs port m line n)
  unfolding write_bytes
  write_bytes_lem zero fuel p m line n e s b = absurd (omega arith)
  write_bytes_lem (suc k) fuel p m line zero e s b =
      let stop : (m line == 0) ≡ true = ground (arith, s.end) in
      (p, rw (stop, write_bytes) refl, sym (append-nil p.written))
  write_bytes_lem (suc k) fuel p m line (suc n) e s b =
      let (j, early, ready) = e p.reads in
      let (q, waited, same) = wait_empty_lem fuel p j early ready in
      let go : (m line == 0) ≡ false = ground (arith, s.inside 0 (omega arith)) in
      let (r, rest, sent) =
        write_bytes_lem k fuel (io_port_out q port (m line)) m (line + 1) n e (tail s)
          (omega arith) in
      (
        r,
        rw (go, waited, write_bytes) rest,
        sent ∙ rw same (append_assoc p.written (out ∷ []) (outs port m (line + 1) n)),
      )
    where
      out : Out
      out = record { port = port % 2 ^ 16; value = m line % 2 ^ 8 }

      tail : IsString m line (suc n) → IsString m (line + 1) n
      tail s = record {
        end = subst (λ a. m a ≡ 0) (omega arith) s.end;
        inside = λ i l. subst (λ a. m a ≢ 0) (omega arith) (s.inside (i + 1) (omega arith));
      }

-- A text of `n` bytes, more rounds than that, and a transmitter that is empty within the fuel whenever the code
-- waits for it: `serial_write_line` ends, returns 1, and writes exactly the bytes of the text to the port, in
-- order and without the 0 at the end. Before the ports are set up it returns 0 and writes nothing.
pub serial_write_line_lem :
    (rounds fuel : ℕ) (d : Device) (p : Ports) (port : ℕ) (m : Bytes) (line n : ℕ)
    → Empties fuel d port
    → IsString m line n
    → n < rounds
    → ((q : Ports) × (serial_write_line rounds fuel d true p port m line ≡ some (1, q))
        × (q.written ≡ p.written ++ outs port m line n))
      × (serial_write_line rounds fuel d false p port m line ≡ some (0, p))
unfolding serial_write_line
serial_write_line_lem rounds fuel d p port m line n e s b =
    let (q, ran, sent) = write_bytes_lem d port rounds fuel p m line n e s b in
    ((q, rw (ran, serial_write_line) refl, sent), refl)
