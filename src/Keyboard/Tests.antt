-- ===== src/Keyboard/Tests.antt =====
-- Runs of kernel/keyboard.c, and its theorem at two handlers.
use rotary_os.Base.{ℕ, ◌≡◌, refl, arith, List, [], ◌∷◌}
use mathlib.Core.List.{foldl}
use rotary_os.Ports.{Device, no_ports}
use rotary_os.Interrupts.{World}
use rotary_os.Keyboard.{
  driver_keyboard_init, driver_keyboard_translate_scan_code, find_code, driver_keyboard_isr,
}
use rotary_os.Keyboard.Handlers.{register_all, driver_keyboard_isr-register}

-- The key `h` is down.
abbrev pressed : Device
pressed = λ read port. 0x23

abbrev idle : World (List (ℕ × ℕ))
idle = (no_ports, [])

-- A handler writes down its address and the key.
abbrev note : (handler key : ℕ) → World (List (ℕ × ℕ)) → World (List (ℕ × ℕ))
note h k w = (w.0, (h, k) ∷ w.1)

keyboard_runs :
    (driver_keyboard_translate_scan_code 0x23 ≡ 104)
    × (driver_keyboard_translate_scan_code 0xa3 ≡ 0)
    × (driver_keyboard_translate_scan_code 0x02 ≡ 2)
    × ((driver_keyboard_init (λ n. 0) 0x500).1 33 ≡ 0x500)
unfolding driver_keyboard_translate_scan_code find_code driver_keyboard_init
keyboard_runs = (refl, refl, refl, refl)

driver_keyboard_isr-register_example :
    driver_keyboard_isr pressed note (register_all (0x100 ∷ 0x200 ∷ []) (λ i. 0)) idle
    ≡ foldl
        (λ v h. note h (driver_keyboard_translate_scan_code 0x23) v)
        (record no_ports { reads = 1 }, [])
        (0x100 ∷ 0x200 ∷ [])
driver_keyboard_isr-register_example =
    driver_keyboard_isr-register pressed note (0x100 ∷ 0x200 ∷ []) idle (omega arith)
      (omega arith, (omega arith, tt))
