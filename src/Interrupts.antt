-- ===== src/Interrupts.antt =====
-- The interrupt table and the handlers of arch/x86/kernel/interrupts.c.
pub mod Idt
pub mod Dispatch
mod Tests
use rotary_os.Base.{
  ℕ, zero, suc, ◌+◌, ◌-◌, ◌*◌, ◌/◌, ◌%◌, ◌^◌, Bool, true, false, not, ◌==◌, ltb, if◌then◌else◌,
  update, bit_and, shr, List, [], ◌∷◌, ◌++◌,
}
use rotary_os.Ports.{Ports}
use rotary_os.Pic.{pic_send_eoi}

pub record IdtGate : Type 0 where
  pub low_offset : ℕ
  pub segment_selector : ℕ
  pub reserved : ℕ
  pub attributes : ℕ
  pub high_offset : ℕ

pub record IdtPointer : Type 0 where
  pub limit : ℕ
  pub base : ℕ

abbrev pub int_page_fault : ℕ
int_page_fault = 14

abbrev pub int_pit : ℕ
int_pit = 32

abbrev pub int_keyboard : ℕ
int_keyboard = 33

abbrev pub low_16 : ℕ → ℕ
low_16 address = bit_and address 0xffff

abbrev pub high_16 : ℕ → ℕ
high_16 address = bit_and (shr address 16) 0xffff

pub set_idt_gate : (ℕ → IdtGate) → (int_num handle_addr : ℕ) → ℕ → IdtGate
set_idt_gate idt int_num handle_addr = update idt int_num (record {
  low_offset = low_16 handle_addr;
  segment_selector = 0x08;
  reserved = 0x00;
  attributes = 0x8e;
  high_offset = high_16 handle_addr;
})

-- `idt` is the address of the table, of 256 gates of 8 bytes.
abbrev pub idt_load : (idt : ℕ) → ℕ × IdtPointer
idt_load idt = (1, record { base = idt; limit = 256 * 8 - 1 })

-- The calls of `set_idt_gate` one after another: `rounds` of them, for the numbers from `i` on. `isr`
-- gives the addresses of the assembly routines `isr0` to `isr47`.
pub set_gates : (rounds : ℕ) → (ℕ → IdtGate) → (isr : ℕ → ℕ) → (i : ℕ) → ℕ → IdtGate
set_gates zero idt isr i = idt
set_gates (suc n) idt isr i = set_gates n (set_idt_gate idt i (isr i)) isr (i + 1)

unfoldable pub idt_init : (ℕ → IdtGate) → (isr : ℕ → ℕ) → ℕ × (ℕ → IdtGate)
idt_init idt isr = (1, set_gates 48 idt isr 0)

abbrev pub register_interrupt_handler : (ℕ → ℕ) → (int_num handler_addr : ℕ) → ℕ → ℕ
register_interrupt_handler interrupt_handlers int_num handler_addr =
    update interrupt_handlers int_num handler_addr

pub record IsrRegisters : Type 0 where
  pub edi : ℕ
  pub esi : ℕ
  pub ebp : ℕ
  pub esp : ℕ
  pub ebx : ℕ
  pub edx : ℕ
  pub ecx : ℕ
  pub eax : ℕ
  pub int_num : ℕ
  pub error_code : ℕ
  pub eip : ℕ
  pub cs : ℕ
  pub eflags : ℕ

-- What `isr_handler` prints of an exception: its number, its name, the registers, and of a page
-- fault the address and the causes that the error code tells.
pub data Message : Type 0 where
  isr_called : ℕ → Message
  exception_name : ℕ → Message
  dump : IsrRegisters → Message
  fault_at : ℕ → Message
  protection_violation : Message
  non_present : Message
  was_write : Message
  was_read : Message
  user_mode : Message
  supervisor_mode : Message
  reserved_bit : Message
  instruction_fetch : Message
  protection_key : Message
  shadow_stack : Message

-- Bit `k` of the error code is set.
abbrev pub has_bit : (error_code k : ℕ) → Bool
has_bit error_code k = bit_and (shr error_code k) 0x1 == 1

abbrev pub when_set : Bool → Message → List Message
when_set b m = if b then m ∷ [] else []

pub page_fault_report : (error_code cr2 : ℕ) → List Message
page_fault_report e cr2 =
    fault_at cr2
    ∷ (if has_bit e 0 then protection_violation else non_present)
    ∷ (if has_bit e 1 then was_write else was_read)
    ∷ (if has_bit e 2 then user_mode else supervisor_mode)
    ∷ (when_set (has_bit e 3) reserved_bit
        ++ (when_set (has_bit e 4) instruction_fetch
            ++ (when_set (has_bit e 5) protection_key ++ when_set (has_bit e 6) shadow_stack)))

-- The names that the code knows are those of the exceptions from 0 to 14.
pub exception_report : IsrRegisters → (cr2 : ℕ) → List Message
exception_report r cr2 =
    isr_called r.int_num
    ∷ (when_set (ltb r.int_num 15) (exception_name r.int_num)
        ++ dump r
          ∷ (if r.int_num == int_page_fault then page_fault_report r.error_code cr2 else []))

-- The ports, and what the handlers keep.
abbrev pub World : Type 0 → Type 0
World S = Ports × S

-- `call` is the code at an address. The messages are what is printed of an exception; the
-- `debug_break` behind them changes nothing.
pub isr_handler :
    {S : Type 0}
    → (call : ℕ → IsrRegisters → World S → World S) → (interrupt_handlers : ℕ → ℕ) → IsrRegisters
    → (cr2 : ℕ) → World S
    → List Message × World S
isr_handler call interrupt_handlers r cr2 w =
    let w₁ = if r.int_num == int_pit then (pic_send_eoi (w.0) r.int_num, w.1) else w in
    let handler = interrupt_handlers r.int_num in
    let w₂ = if not (handler == 0) then call handler r w₁ else w₁ in
    (if ltb r.int_num 32 then exception_report r cr2 else [], (pic_send_eoi (w₂.0) r.int_num, w₂.1))
