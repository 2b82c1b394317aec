-- ===== src/Timer.antt =====
-- The timer of arch/x86/kernel/timer.c, which calls the scheduler.
use rotary_os.Base.{ℕ, ◌+◌, ◌/◌, ◌%◌, ◌^◌, Option, none, some, bit_and, shr}
use rotary_os.Ports.{Ports, io_port_out}
use rotary_os.Interrupts.{int_pit, register_interrupt_handler}
use rotary_os.Task.{System, task_schedule}

-- `timer_tick` is the address of that function. The result, the ports and the handlers.
unfoldable pub timer_init :
    Ports → (interrupt_handlers : ℕ → ℕ) → (timer_tick : ℕ) → ℕ × Ports × (ℕ → ℕ)
timer_init p interrupt_handlers timer_tick =
    let divisor = 1193180 / 1 in
    let p₁ = io_port_out p 0x43 0x36 in
    let l = bit_and divisor 0xff in
    let h = bit_and (shr divisor 8) 0xff in
    let p₂ = io_port_out p₁ 0x40 l in
    (1, io_port_out p₂ 0x40 h, register_interrupt_handler interrupt_handlers int_pit timer_tick)

-- The count of ticks has 64 bits. `none` when the scheduler outlasts the fuel.
unfoldable pub timer_tick : (fuel ticks : ℕ) → System → Option (ℕ × System)
timer_tick fuel ticks s = elim (task_schedule fuel s) [
  | none ↦ none
  | some s' ↦ some ((ticks + 1) % 2 ^ 64, s')
]
