-- ===== src/Interrupts/Idt.antt =====
-- The table that `idt_init` of arch/x86/kernel/interrupts.c fills.
use rotary_os.Base.{
  ℕ, zero, suc, ◌+◌, ◌*◌, ◌/◌, ◌%◌, ◌^◌, ◌≤◌, ◌<◌, ◌≡◌, ◌≢◌, ◌⊎◌, inl, inr, refl, arith, true,
  false, ◌==◌, leb-cases, bit_and,
}
use mathlib.Core.Path.{◌∙◌}
use rotary_os.Base.Bits.{bit_and-low_mask}
use rotary_os.Interrupts.{IdtGate, set_idt_gate, set_gates, idt_init}

-- A gate as the processor reads it: a present 32-bit interrupt gate of the kernel's code segment
-- that leads to the address.
pub record IsGate (g : IdtGate) (address : ℕ) : Type 0 where
  pub offset : g.low_offset + g.high_offset * 2 ^ 16 ≡ address
  pub segment : g.segment_selector ≡ 8
  pub kind : (g.attributes ≡ 0x8e) × (g.reserved ≡ 0)

set_idt_gate-IsGate :
    (idt : ℕ → IdtGate) (n address : ℕ)
    → address < 2 ^ 32
    → IsGate (set_idt_gate idt n address n) address
unfolding set_idt_gate
set_idt_gate-IsGate idt n address h =
    let here : (n == n) ≡ true = ground arith in
    let low : bit_and address 0xffff ≡ address % 2 ^ 16 = bit_and-low_mask 16 address in
    let high : bit_and (address / 2 ^ 16) 0xffff ≡ address / 2 ^ 16 % 2 ^ 16 =
      bit_and-low_mask 16 (address / 2 ^ 16) in
    rw here (record { offset = omega (arith, low, high); segment = refl; kind = (refl, refl) })

set_idt_gate_other :
    (idt : ℕ → IdtGate) (n address j : ℕ) → j ≢ n → set_idt_gate idt n address j ≡ idt j
unfolding set_idt_gate
set_idt_gate_other idt n address j h =
    let apart : (j == n) ≡ false = ground (arith, h) in rw apart refl

set_gates_outside :
    (n : ℕ) (idt : ℕ → IdtGate) (isr : ℕ → ℕ) (i j : ℕ)
    → (j < i) ⊎ (i + n ≤ j)
    → set_gates n idt isr i j ≡ idt j
unfolding set_gates
set_gates_outside zero idt isr i j o = refl
set_gates_outside (suc n) idt isr i j o =
    set_gates_outside n (set_idt_gate idt i (isr i)) isr (i + 1) j (omega arith)
    ∙ set_idt_gate_other idt i (isr i) j (omega arith)

set_gates-IsGate :
    (n : ℕ) (idt : ℕ → IdtGate) (isr : ℕ → ℕ) (i j : ℕ)
    → ((k : ℕ) → isr k < 2 ^ 32)
    → i ≤ j
    → j < i + n
    → IsGate (set_gates n idt isr i j) (isr j)
unfolding set_gates
set_gates-IsGate zero idt isr i j h l u = absurd (omega arith)
set_gates-IsGate (suc n) idt isr i j h l u = elim (leb-cases j i) [
  | inl first ↦
      let e : j ≡ i = omega arith in
      rw (e, set_gates_outside n (set_idt_gate idt i (isr i)) isr (i + 1) i (omega arith))
        (set_idt_gate-IsGate idt i (isr i) (h i))
  | inr later ↦
      set_gates-IsGate n (set_idt_gate idt i (isr i)) isr (i + 1) j h (omega arith) (omega arith)
]

-- After `idt_init` each gate from 0 to 47 leads to the routine of its number, as an interrupt gate
-- of the kernel; the gates from 48 on are as before.
pub idt_init-IsGate :
    (idt : ℕ → IdtGate) (isr : ℕ → ℕ)
    → ((k : ℕ) → isr k < 2 ^ 32)
    → ((j : ℕ) → j < 48 → IsGate ((idt_init idt isr).1 j) (isr j))
      × ((j : ℕ) → 48 ≤ j → (idt_init idt isr).1 j ≡ idt j)
unfolding idt_init
idt_init-IsGate idt isr h = (
  λ j b. set_gates-IsGate 48 idt isr 0 j h (omega arith) (omega arith),
  λ j b. set_gates_outside 48 idt isr 0 j (omega arith),
)
