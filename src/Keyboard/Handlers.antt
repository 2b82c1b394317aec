-- ===== src/Keyboard/Handlers.antt =====
-- The table of handlers of kernel/keyboard.c as a list: who is told of a key, and in which order.
use rotary_os.Base.{
  ℕ, zero, suc, ◌+◌, ◌%◌, ◌^◌, ◌≤◌, ◌<◌, ◌≡◌, ◌≢◌, refl, arith, true, false, ◌==◌, update_same,
  update_other, List, [], ◌∷◌, ◌++◌,
}
use mathlib.Core.Path.{◌∙◌, subst}
use mathlib.Core.List.{foldl, append-nil, append_assoc}
use rotary_os.Base.Lists.{length, length-append}
use rotary_os.Ports.{Device}
use rotary_os.Interrupts.{World}
use rotary_os.Keyboard.{
  register_from, driver_keyboard_register_handler, call_from, driver_keyboard_isr,
  driver_keyboard_translate_scan_code,
}

-- From index `i` on the table holds the handlers of the list, none of them 0, and then zeros.
abbrev pub Holds : (ℕ → ℕ) → (i : ℕ) → List ℕ → Type 0
Holds t i [] = (j : ℕ) → i ≤ j → t j ≡ 0
Holds t i (h ∷ hs) = (t i ≡ h) × (h ≢ 0) × Holds t (i + 1) hs

Holds-same :
    (hs : List ℕ) (t u : ℕ → ℕ) (i : ℕ)
    → ((j : ℕ) → i ≤ j → u j ≡ t j)
    → Holds t i hs
    → Holds u i hs
Holds-same [] t u i e h = λ j l. e j l ∙ h j l
Holds-same (x ∷ hs) t u i e (a, b, h) =
    (e i (omega arith) ∙ a, b, Holds-same hs t u (i + 1) (λ j l. e j (omega arith)) h)

register_from_below : (n : ℕ) (t : ℕ → ℕ) (a i j : ℕ) → j < i → register_from n t a i j ≡ t j
unfolding register_from
register_from_below zero t a i j h = refl
register_from_below (suc n) t a i j h = ground (arith, register_from_below n t a (i + 1) j)

register_from-Holds :
    (n : ℕ) (t : ℕ → ℕ) (a i : ℕ) (hs : List ℕ)
    → Holds t i hs
    → length hs < n
    → a ≢ 0
    → Holds (register_from n t a i) i (hs ++ a ∷ [])
unfolding register_from
register_from-Holds zero t a i hs h l b = absurd (omega arith)
register_from-Holds (suc n) t a i [] h l b =
    let here = h i (omega arith) in
    let free : (t i == 0x00) ≡ true = ground (arith, here) in
    rw free (update_same t i a, b, λ j u. update_other t i j a (omega arith) ∙ h j (omega arith))
register_from-Holds (suc n) t a i (x ∷ hs) (e, c, h) l b =
    let taken : (t i == 0x00) ≡ false = ground (arith, e, c) in
    let step : register_from n t a (i + 1) ≡ register_from (suc n) t a i = rw taken refl in
    subst (λ u. Holds u i (x ∷ (hs ++ a ∷ []))) step
      (
        register_from_below n t a (i + 1) i (omega arith) ∙ e,
        c,
        register_from-Holds n t a (i + 1) hs h (omega arith) b,
      )

call_from-Holds :
    {S : Type 0} (n : ℕ) (call : (handler key : ℕ) → World S → World S) (t : ℕ → ℕ) (key i : ℕ)
    (hs : List ℕ) (w : World S)
    → Holds t i hs
    → length hs ≤ n
    → call_from n call t key i w ≡ foldl (λ v h. call h key v) w hs
unfolding call_from
call_from-Holds zero call t key i [] w h l = refl
call_from-Holds zero call t key i (x ∷ hs) w h l = absurd (omega arith)
call_from-Holds (suc n) call t key i [] w h l =
    let here = h i (omega arith) in
    let free : (t i == 0x00) ≡ true = ground (arith, here) in
    rw free (call_from-Holds n call t key (i + 1) [] w (λ j u. h j (omega arith)) (omega arith))
call_from-Holds (suc n) call t key i (x ∷ hs) w (e, c, h) l =
    let taken : (x == 0x00) ≡ false = ground (arith, c) in
    rw (e, taken) (call_from-Holds n call t key (i + 1) hs (call x key w) h (omega arith))

-- Registered one after another.
abbrev pub register_all : List ℕ → (ℕ → ℕ) → ℕ → ℕ
register_all [] t = t
register_all (a ∷ hs) t = register_all hs (driver_keyboard_register_handler t a)

-- Handlers of which none is 0.
abbrev pub AllLive : List ℕ → Type 0
AllLive [] = Unit {0}
AllLive (a ∷ hs) = (a ≢ 0) × AllLive hs

register_all-Holds :
    (new old : List ℕ) (t : ℕ → ℕ)
    → Holds t 0 old
    → length old + length new ≤ 256
    → AllLive new
    → Holds (register_all new t) 0 (old ++ new)
unfolding driver_keyboard_register_handler
register_all-Holds [] old t h l v = rw (append-nil old) h
register_all-Holds (a ∷ new) old t h l (v, vs) =
    let longer = length-append old (a ∷ []) in
    let first = register_from-Holds 256 t a 0 old h (omega arith) v in
    let all =
      register_all-Holds new (old ++ a ∷ []) (driver_keyboard_register_handler t a) first
        (omega arith) vs in
    rw⁻¹ (append_assoc old (a ∷ []) new) all

-- Up to 256 handlers that are registered in a fresh table are called by the keyboard's interrupt, each
-- once and in the order of their registration, with the character of the scan code that the port
-- gives.
pub driver_keyboard_isr-register :
    {S : Type 0} (d : Device) (call : (handler key : ℕ) → World S → World S) (hs : List ℕ)
    (w : World S)
    → length hs ≤ 256
    → AllLive hs
    → driver_keyboard_isr d call (register_all hs (λ i. 0)) w
      ≡ foldl
          (λ v h. call h (driver_keyboard_translate_scan_code (d ((w.0).reads) 0x60 % 2 ^ 8)) v)
          (record (w.0) { reads = (w.0).reads + 1 }, w.1)
          hs
unfolding driver_keyboard_isr
driver_keyboard_isr-register d call hs w l v =
    call_from-Holds 256 call (register_all hs (λ i. 0))
      (driver_keyboard_translate_scan_code (d ((w.0).reads) 0x60 % 2 ^ 8)) 0 hs
      (record (w.0) { reads = (w.0).reads + 1 }, w.1)
      (register_all-Holds hs [] (λ i. 0) (λ j u. refl) (omega arith) v) l
