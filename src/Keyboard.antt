-- ===== src/Keyboard.antt =====
-- The keyboard driver of kernel/keyboard.c.
pub mod Handlers
mod Tests
use rotary_os.Base.{
  ℕ, zero, suc, ◌+◌, Bool, true, false, not, ◌==◌, if◌then◌else◌, update, List, [], ◌∷◌,
}
use rotary_os.Ports.{Device, io_port_in}
use rotary_os.Interrupts.{World, int_keyboard, register_interrupt_handler}

-- `IO_PORT_PS2_KEYBOARD`
abbrev pub ps2_keyboard : ℕ
ps2_keyboard = 0x60

abbrev pub key_enter : ℕ
key_enter = 0x1c

abbrev pub key_backspace : ℕ
key_backspace = 0x0e

-- `driver_keyboard_isr` is the address of that function.
unfoldable pub driver_keyboard_init :
    (interrupt_handlers : ℕ → ℕ) → (driver_keyboard_isr : ℕ) → ℕ × (ℕ → ℕ)
driver_keyboard_init interrupt_handlers driver_keyboard_isr =
    (1, register_interrupt_handler interrupt_handlers int_keyboard driver_keyboard_isr)

-- The cases of the switch in `driver_keyboard_translate_scan_code`: scan codes and characters.
abbrev pub scan_codes : List (ℕ × ℕ)
scan_codes =
    (0x01, 0x00)
    ∷ (0x02, 0x02)
    ∷ (0x03, b'2')
    ∷ (0x04, b'3')
    ∷ (0x05, b'4')
    ∷ (0x06, b'5')
    ∷ (0x07, b'6')
    ∷ (0x08, b'7')
    ∷ (0x09, b'8')
    ∷ (0x0a, b'9')
    ∷ (0x0b, b'0')
    ∷ (0x0c, b'-')
    ∷ (0x0d, b'=')
    ∷ (0x0e, 0x0e)
    ∷ (0x0f, 0x0f)
    ∷ (0x10, b'q')
    ∷ (0x11, b'w')
    ∷ (0x12, b'e')
    ∷ (0x13, b'r')
    ∷ (0x14, b't')
    ∷ (0x15, b'y')
    ∷ (0x16, b'u')
    ∷ (0x17, b'i')
    ∷ (0x18, b'o')
    ∷ (0x19, b'p')
    ∷ (0x1a, b'[')
    ∷ (0x1b, b']')
    ∷ (0x1c, 0x1c)
    ∷ (0x1d, 0x1d)
    ∷ (0x1e, b'a')
    ∷ (0x1f, b's')
    ∷ (0x20, b'd')
    ∷ (0x21, b'f')
    ∷ (0x22, b'g')
    ∷ (0x23, b'h')
    ∷ (0x24, b'j')
    ∷ (0x25, b'k')
    ∷ (0x26, b'l')
    ∷ (0x27, b';')
    ∷ (0x28, 39)
    ∷ (0x29, b'`')
    ∷ (0x2a, 0x2a)
    ∷ (0x2b, 92)
    ∷ (0x2c, b'z')
    ∷ (0x2d, b'x')
    ∷ (0x2e, b'c')
    ∷ (0x2f, b'v')
    ∷ (0x30, b'b')
    ∷ (0x31, b'n')
    ∷ (0x32, b'm')
    ∷ (0x33, b',')
    ∷ (0x34, b'.')
    ∷ (0x35, b'/')
    ∷ (0x36, 0x36)
    ∷ (0x37, b'*')
    ∷ (0x38, 0x38)
    ∷ (0x39, b' ')
    ∷ (0x3a, 0x3a)
    ∷ (0x3b, 0x3b)
    ∷ (0x3c, 0x3c)
    ∷ []

-- The case of a scan code, and 0 if there is none.
pub find_code : List (ℕ × ℕ) → (scan_code : ℕ) → ℕ
find_code [] scan_code = 0x00
find_code ((code, character) ∷ rest) scan_code =
    if scan_code == code then character else find_code rest scan_code

pub driver_keyboard_translate_scan_code : (scan_code : ℕ) → ℕ
driver_keyboard_translate_scan_code scan_code = find_code scan_codes scan_code

-- The loop of `driver_keyboard_register_handler` from index `i` on: the first slot that is 0.
pub register_from : (rounds : ℕ) → (ℕ → ℕ) → (handler_addr i : ℕ) → ℕ → ℕ
register_from zero t handler_addr i = t
register_from (suc n) t handler_addr i =
    let rest = register_from n t handler_addr (i + 1) in
    if t i == 0x00 then update t i handler_addr else rest

pub driver_keyboard_register_handler : (ℕ → ℕ) → (handler_addr : ℕ) → ℕ → ℕ
driver_keyboard_register_handler keyboard_event_handlers handler_addr =
    register_from 256 keyboard_event_handlers handler_addr 0

-- The loop of `driver_keyboard_isr` from index `i` on. `call` is the code at an address, which
-- registers no further handler meanwhile.
pub call_from :
    {S : Type 0}
    → (rounds : ℕ) → (call : (handler key : ℕ) → World S → World S) → (ℕ → ℕ)
    → (key i : ℕ) → World S
    → World S
call_from zero call t key i w = w
call_from (suc n) call t key i w =
    call_from n call t key (i + 1) (if not (t i == 0x00) then call (t i) key w else w)

-- The ports are read once, before the handlers run.
pub driver_keyboard_isr :
    {S : Type 0}
    → Device
    → (call : (handler key : ℕ) → World S → World S) → (keyboard_event_handlers : ℕ → ℕ) → World S
    → World S
driver_keyboard_isr d call keyboard_event_handlers w =
    let (keypress, p) = io_port_in d (w.0) ps2_keyboard in
    call_from 256 call keyboard_event_handlers (driver_keyboard_translate_scan_code keypress) 0
      (p, w.1)
