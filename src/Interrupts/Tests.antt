-- ===== src/Interrupts/Tests.antt =====
-- Runs of arch/x86/kernel/interrupts.c, and its theorems at concrete tables.
use rotary_os.Base.{ℕ, ◌+◌, ◌≡◌, ◌≢◌, refl, arith, [], ◌∷◌}
use rotary_os.Ports.{no_ports}
use rotary_os.Interrupts.{
  IdtGate, IsrRegisters, fault_at, non_present, was_write, user_mode, World, isr_handler,
  register_interrupt_handler, page_fault_report,
}
use rotary_os.Interrupts.Dispatch.{acknowledged, isr_handler-register}

abbrev blank : IdtGate
blank = record {
  low_offset = 0;
  segment_selector = 0;
  reserved = 0;
  attributes = 0;
  high_offset = 0;
}

-- A write by user code to a page that is not there.
page_fault_run :
    page_fault_report 6 0xB0000000
    ≡ fault_at 0xB0000000 ∷ (non_present ∷ (was_write ∷ (user_mode ∷ [])))
unfolding page_fault_report
page_fault_run = refl

abbrev timer_interrupt : IsrRegisters
timer_interrupt = record {
  edi = 0;
  esi = 0;
  ebp = 0;
  esp = 0;
  ebx = 0;
  edx = 0;
  ecx = 0;
  eax = 0;
  int_num = 32;
  error_code = 0;
  eip = 0;
  cs = 8;
  eflags = 0;
}

-- A handler adds its address.
abbrev add_address : ℕ → IsrRegisters → World ℕ → World ℕ
add_address a r w = (w.0, w.1 + a)

abbrev quiet : World ℕ
quiet = (no_ports, 0)

isr_handler-register_example :
    (timer_interrupt.int_num ≡ 32
      → isr_handler add_address (register_interrupt_handler (λ k. 0) 32 7) timer_interrupt 0 quiet
        ≡ ([], acknowledged (add_address 7 timer_interrupt (acknowledged quiet))))
    × (timer_interrupt.int_num ≢ 32
        → isr_handler add_address (register_interrupt_handler (λ k. 0) 32 7) timer_interrupt 0 quiet
          ≡ isr_handler add_address (λ k. 0) timer_interrupt 0 quiet)
isr_handler-register_example =
    isr_handler-register add_address (λ k. 0) 32 7 timer_interrupt 0 quiet (omega arith)
      (omega arith) (omega arith)
