-- ===== src/Interrupts/Dispatch.antt =====
-- How `isr_handler` of arch/x86/kernel/interrupts.c finds the handler of an interrupt.
use rotary_os.Base.{
  ℕ, ◌%◌, ◌^◌, ◌≤◌, ◌<◌, ◌≡◌, ◌≢◌, refl, ap, arith, true, false, ◌==◌, leb, ltb, if◌then◌else◌, [],
  ◌∷◌, ◌++◌,
}
use rotary_os.Pic.{pic_send_eoi}
use rotary_os.Interrupts.{World, IsrRegisters, isr_handler, register_interrupt_handler}

-- The acknowledgement: the command `0x20` for the second controller, then for the first.
abbrev pub acknowledged : {S : Type 0} → World S → World S
acknowledged w =
    let p = w.0 in
    (
      record p {
        written =
            (p.written ++ record { port = 0xa0; value = 0x20 } ∷ [])
            ++ record { port = 0x20; value = 0x20 } ∷ [];
      },
      w.1,
    )

-- The number of an interrupt, which is 8 or more below 256, is taken for that of a line of the second
-- controller.
send_eoi-acknowledged :
    {S : Type 0} (w : World S) (n : ℕ)
    → 8 ≤ n
    → n < 256
    → (pic_send_eoi (w.0) n, w.1) ≡ acknowledged w
unfolding pic_send_eoi
send_eoi-acknowledged w n a b = let slave : leb 8 (n % 2 ^ 8) ≡ true = ground arith in rw slave refl

-- A hardware interrupt, of a number from 32 to 255, with a handler `a` registered for it last: the
-- handler is called once, the controllers are both acknowledged behind it, in the case of the timer
-- also before it, and nothing is reported. Any other interrupt is handled as if `a` had not been
-- registered.
pub isr_handler-register :
    {S : Type 0} (call : ℕ → IsrRegisters → World S → World S) (t : ℕ → ℕ) (n a : ℕ)
    (r : IsrRegisters) (cr2 : ℕ) (w : World S)
    → 32 ≤ n
    → n < 256
    → a ≢ 0
    → (r.int_num ≡ n
        → isr_handler call (register_interrupt_handler t n a) r cr2 w
          ≡ ([], acknowledged (call a r (if n == 32 then acknowledged w else w))))
      × (r.int_num ≢ n
          → isr_handler call (register_interrupt_handler t n a) r cr2 w
            ≡ isr_handler call t r cr2 w)
unfolding isr_handler
isr_handler-register call t n a r cr2 w l u h = (
  λ e.
      let same : (r.int_num == n) ≡ true = ground (arith, e) in
      let live : (a == 0) ≡ false = ground (arith, h) in
      let high : ltb r.int_num 32 ≡ false = ground (arith, e, l) in
      let pit : (r.int_num == 32) ≡ (n == 32) = ap (λ k. k == 32) e in
      let early = send_eoi-acknowledged w r.int_num (omega arith) (omega arith) in
      let late =
        send_eoi-acknowledged (call a r (if n == 32 then acknowledged w else w)) r.int_num
          (omega arith) (omega arith) in
      rw (same, live, high, pit, early) (ap (λ v. ([], v)) late),
  λ e. let apart : (r.int_num == n) ≡ false = ground (arith, e) in rw apart refl,
)
