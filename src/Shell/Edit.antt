-- ===== src/Shell/Edit.antt =====
-- The keys that `shell_keyboard_handler` of kernel/shell.c takes, as edits of a line.
use rotary_os.Base.{
  ℕ, zero, suc, ◌+◌, ◌-◌, ◌^◌, ◌≤◌, ◌<◌, ◌≡◌, ◌≢◌, ◌⊎◌, inl, inr, refl, sym, ap, arith, ◌==◌, not,
  Bool-cases, if◌then◌else◌, leb-cases, update, update_same, update_other, add32, sub32, List, [],
  ◌∷◌, ◌++◌,
}
use mathlib.Core.Path.{◌∙◌}
use mathlib.Core.List.{foldl}
use rotary_os.Base.Lists.{length, length-append}
use rotary_os.Strings.{Bytes}
use rotary_os.Strings.Copy.{strcat, concat_from, memset}
use rotary_os.Strings.Compare.{strlen-IsString}
use rotary_os.Keyboard.{key_enter, key_backspace}
use rotary_os.Screen.{vga_scroll_up, top_line}
use rotary_os.Shell.{
  Shell, shell_keyboard_handler, shell_delete_from_input_buffer, shell_clear_input_buffer,
}
use rotary_os.Shell.Line.{
  Spells, Spells-same, Spells-IsString, Spells-snoc, Spells-drop_last, drop_last,
}

-- What a key does to the line.
abbrev pub edit : (line : List ℕ) → (key : ℕ) → List ℕ
edit line key =
    if key == key_enter
    then []
    else if key == key_backspace
    then drop_last line
    else if not (key == 0)
    then line ++ key ∷ []
    else line

-- The keys never delete from an empty line, nor make a line of more than 255 characters.
abbrev pub Fits : (line keys : List ℕ) → Type 0
Fits line [] = Unit {0}
Fits line (key ∷ keys) =
    (key ≡ 0x0e → 1 ≤ length line) × (length (edit line key) ≤ 255) × Fits (edit line key) keys

memset_other : (n : ℕ) (m : Bytes) (dest val a : ℕ) → a < dest → memset n m dest val a ≡ m a
unfolding memset
memset_other zero m dest val a h = refl
memset_other (suc n) m dest val a h =
    memset_other n (update m dest val) (dest + 1) val a (omega arith)
    ∙ update_other m dest a val (omega arith)

module _ (input_buffer : ℕ) (fits : input_buffer + 256 ≤ 2 ^ 32) where
  clear-Spells : (m : Bytes) → Spells (shell_clear_input_buffer m input_buffer) input_buffer []
  unfolding shell_clear_input_buffer memset
  clear-Spells m =
      memset_other 255 (update m input_buffer 0) (input_buffer + 1) 0 input_buffer (omega arith)
      ∙ update_same m input_buffer 0

  module _ (m : Bytes) (line : List ℕ) (s : Spells m input_buffer line)
      (short : length line ≤ 255) where
    delete-Spells :
        1 ≤ length line
        → Spells (shell_delete_from_input_buffer m input_buffer) input_buffer (drop_last line)
    unfolding shell_delete_from_input_buffer
    delete-Spells l =
        let n = length line in
        let one =
          strlen-IsString m input_buffer n (Spells-IsString m input_buffer line s) (omega arith) in
        let m₁ = update m (input_buffer + n) 0 in
        let still : Spells m₁ input_buffer line =
          Spells-same m m₁ input_buffer line
            (λ b p q. elim (leb-cases (input_buffer + n) b) [
              | inl last ↦
                  let e : b ≡ input_buffer + n = omega arith in
                  let zero_there = (Spells-IsString m input_buffer line s).end in
                  rw e (update_same m (input_buffer + n) 0 ∙ sym zero_there)
              | inr before ↦ update_other m (input_buffer + n) b 0 (omega arith)
            ])
            s in
        let two =
          strlen-IsString m₁ input_buffer n (Spells-IsString m₁ input_buffer line still)
            (omega arith) in
        let place : add32 input_buffer (sub32 n 1) ≡ input_buffer + n - 1 = omega arith in
        rw (one, two, place)
          (Spells-drop_last m₁ (update m₁ (input_buffer + n - 1) 0) input_buffer line still l
            (λ b p q. update_other m₁ (input_buffer + n - 1) b 0 (omega arith))
            (update_same m₁ (input_buffer + n - 1) 0))

    module _ (key_address key : ℕ)
        (apart : (key_address + 1 < input_buffer) ⊎ (input_buffer + 256 ≤ key_address))
        (live : key ≢ 0) where
      append-Spells :
          length line < 255
          → Spells
              (strcat
                (update (update m key_address key) (key_address + 1) 0)
                input_buffer
                key_address)
              input_buffer
              (line ++ key ∷ [])
      unfolding strcat concat_from
      append-Spells room =
          let n = length line in
          let m₀ = update m key_address key in
          let m₁ = update m₀ (key_address + 1) 0 in
          let still : Spells m₁ input_buffer line =
            Spells-same m m₁ input_buffer line
              (λ b p q.
                update_other m₀ (key_address + 1) b 0 (omega arith)
                ∙ update_other m key_address b key (omega arith))
              s in
          let typed : m₁ key_address ≡ key =
            update_other m₀ (key_address + 1) key_address 0 (omega arith)
            ∙ update_same m key_address key in
          let word : Spells m₁ key_address (key ∷ []) =
            (typed, live, update_same m₀ (key_address + 1) 0) in
          let one =
            strlen-IsString m₁ input_buffer n (Spells-IsString m₁ input_buffer line still)
              (omega arith) in
          let two =
            strlen-IsString m₁ key_address 1 (Spells-IsString m₁ key_address (key ∷ []) word)
              (omega arith) in
          let m₂ = update m₁ (input_buffer + (n + 0)) (m₁ (key_address + 0)) in
          let plain : key_address + 0 ≡ key_address = omega arith in
          rw (one, two)
            (Spells-snoc m₁ (update m₂ (input_buffer + (n + 1)) 0) input_buffer key line still live
              (λ b p q.
                update_other m₂ (input_buffer + (n + 1)) b 0 (omega arith)
                ∙ update_other m₁ (input_buffer + (n + 0)) b (m₁ (key_address + 0)) (omega arith))
              (update_other m₂ (input_buffer + (n + 1)) (input_buffer + n) 0 (omega arith)
                ∙ ap m₂ (omega arith)
                ∙ update_same m₁ (input_buffer + (n + 0)) (m₁ (key_address + 0))
                ∙ ap m₁ plain
                ∙ typed)
              (ap (update m₂ (input_buffer + (n + 1)) 0) (omega arith)
                ∙ update_same m₂ (input_buffer + (n + 1)) 0))

-- The two bytes of the parameter `key` lie outside the buffer, which does not wrap.
abbrev pub IsApart : (input_buffer key_address : ℕ) → Type 0
IsApart input_buffer key_address =
    (input_buffer + 256 ≤ 2 ^ 32)
    × ((key_address + 1 < input_buffer) ⊎ (input_buffer + 256 ≤ key_address))

module _ (process : (command : ℕ) → Shell → Shell) (input_buffer prompt key_address : ℕ)
    (apart : IsApart input_buffer key_address) where
  key-Spells :
      (s : Shell) (line : List ℕ) (key : ℕ)
      → Spells s.bytes input_buffer line
      → length line ≤ 255
      → (key ≡ 0x0e → 1 ≤ length line)
      → length (edit line key) ≤ 255
      → Spells
          (shell_keyboard_handler process input_buffer prompt key_address s key).bytes
          input_buffer
          (edit line key)
  unfolding shell_keyboard_handler
  key-Spells s line key h a b c = elim (Bool-cases (key == 0x1c)) [
    | inl enter ↦ rw enter (
        clear-Spells input_buffer apart.0
          (process input_buffer (record s {
            screen = record (s.screen) {
              cells = vga_scroll_up 1 s.screen.cells top_line;
              cursor_x = 0;
            };
          })).bytes)
    | inr text ↦ elim (Bool-cases (key == 0x0e)) [
      | inl back ↦
          rw (text, back) (delete-Spells input_buffer apart.0 s.bytes line h a (b (ground arith)))
      | inr other ↦ elim (Bool-cases (key == 0)) [
        | inl none_typed ↦ rw (text, other, none_typed) h
        | inr typed ↦
            let longer : length (edit line key) ≡ length (line ++ key ∷ []) =
              rw (text, other, typed) refl in
            let sum = length-append line (key ∷ []) in
            rw (text, other, typed)
              (append-Spells input_buffer apart.0 s.bytes line h a key_address key apart.1
                (ground arith) (omega arith))
      ]
    ]
  ]

  -- Whatever the commands do, keys that never delete from an empty line nor make it longer than 255
  -- characters leave in the input buffer exactly the line that the edits give: a character is appended,
  -- backspace deletes the last one, enter clears the line, and a key without a character changes nothing.
  pub shell_keyboard_handler-edit :
      (keys : List ℕ) (s : Shell) (line : List ℕ)
      → Spells s.bytes input_buffer line
      → length line ≤ 255
      → Fits line keys
      → Spells
          (foldl (shell_keyboard_handler process input_buffer prompt key_address) s keys).bytes
          input_buffer
          (foldl edit line keys)
  shell_keyboard_handler-edit [] s line h a f = h
  shell_keyboard_handler-edit (key ∷ keys) s line h a (b, c, f) =
      shell_keyboard_handler-edit keys
        (shell_keyboard_handler process input_buffer prompt key_address s key) (edit line key)
        (key-Spells s line key h a b c) c f
