-- ===== src/Shell/Dispatch.antt =====
-- Which command a typed line names in kernel/shell.c.
use rotary_os.Base.{
  ℕ, ◌+◌, ◌<◌, ◌≡◌, ◌≢◌, refl, sym, ap, arith, Bool, true, false, not, ◌&&◌, ◌||◌, ◌==◌,
  if◌then◌else◌, Bool-cases, inl, inr, List, [], ◌∷◌,
}
use mathlib.Core.Path.{subst}
use rotary_os.Base.Lists.{length}
use rotary_os.Strings.{Bytes, strcmp, same_from}
use rotary_os.Strings.Compare.{strlen-IsString}
use rotary_os.Shell.{
  Command, tss, apple, banana, testkill, gdt, cr0, lol2, clear, build, tasks, pmm, vmm, die, heap,
  unknown, Names, names, find_command,
}
use rotary_os.Shell.Line.{Spells, Spells-IsString}
use rotary_os.Shell.Commands.{Console, Programs, Processor, run_command, shell_process_command}

abbrev pub same_text : List ℕ → List ℕ → Bool
same_text [] [] = true
same_text [] (b ∷ bs) = false
same_text (a ∷ as_) [] = false
same_text (a ∷ as_) (b ∷ bs) = (a == b) && same_text as_ bs

-- The names of the commands.
abbrev pub name_of : Command → List ℕ
name_of tss = b't' ∷ b's' ∷ b's' ∷ []
name_of apple = b'a' ∷ b'p' ∷ b'p' ∷ b'l' ∷ b'e' ∷ []
name_of banana = b'b' ∷ b'a' ∷ b'n' ∷ b'a' ∷ b'n' ∷ b'a' ∷ []
name_of testkill = b't' ∷ b'e' ∷ b's' ∷ b't' ∷ b'k' ∷ b'i' ∷ b'l' ∷ b'l' ∷ []
name_of gdt = b'g' ∷ b'd' ∷ b't' ∷ []
name_of cr0 = b'c' ∷ b'r' ∷ b'0' ∷ []
name_of lol2 = b'l' ∷ b'o' ∷ b'l' ∷ b'2' ∷ []
name_of clear = b'c' ∷ b'l' ∷ b'e' ∷ b'a' ∷ b'r' ∷ []
name_of build = b'b' ∷ b'u' ∷ b'i' ∷ b'l' ∷ b'd' ∷ []
name_of tasks = b't' ∷ b'a' ∷ b's' ∷ b'k' ∷ b's' ∷ []
name_of pmm = b'p' ∷ b'm' ∷ b'm' ∷ []
name_of vmm = b'v' ∷ b'm' ∷ b'm' ∷ []
name_of die = b'd' ∷ b'i' ∷ b'e' ∷ []
name_of heap = b'h' ∷ b'e' ∷ b'a' ∷ b'p' ∷ []
name_of unknown = []

abbrev pub short_clear : List ℕ
short_clear = b'c' ∷ b'l' ∷ b's' ∷ []

-- The table holds the addresses of the names; that of the unknown command is the empty text.
pub record IsTable (m : Bytes) (t : Names) : Type 0 where
  pub spelled : (c : Command) → Spells m (t.at c) (name_of c)
  pub short : Spells m t.cls short_clear

different_length : (s t : List ℕ) → length s ≢ length t → same_text s t ≡ false
different_length [] [] h = absurd (h refl)
different_length [] (b ∷ bs) h = refl
different_length (a ∷ as_) [] h = refl
different_length (a ∷ as_) (b ∷ bs) h =
    let rest = different_length as_ bs (λ e. h (omega (arith, e))) in ground (arith, rest)

same_from-Spells :
    (m : Bytes) (a b i : ℕ) (s t : List ℕ)
    → Spells m (a + i) s
    → Spells m (b + i) t
    → length s ≡ length t
    → same_from (length s) m a b i ≡ same_text s t
unfolding same_from
same_from-Spells m a b i [] [] p q e = refl
same_from-Spells m a b i [] (y ∷ ys) p q e = absurd (omega arith)
same_from-Spells m a b i (x ∷ xs) [] p q e = absurd (omega arith)
same_from-Spells m a b i (x ∷ xs) (y ∷ ys) (px, nx, ps) (qy, ny, qs) e =
    let first : a + i + 1 ≡ a + (i + 1) = omega arith in
    let second : b + i + 1 ≡ b + (i + 1) = omega arith in
    let rest =
      same_from-Spells m a b (i + 1) xs ys (subst (λ c. Spells m c xs) first ps)
        (subst (λ c. Spells m c ys) second qs) (omega arith) in
    rw (px, qy, rest) (ground arith)

-- `strcmp` of two texts.
names_lem :
    (m : Bytes) (name command : ℕ) (s t : List ℕ)
    → Spells m name s
    → Spells m command t
    → length s < 512
    → length t < 512
    → names m name command ≡ same_text t s
unfolding strcmp
names_lem m name command s t p q u v =
    let len1 = strlen-IsString m command (length t) (Spells-IsString m command t q) v in
    let len2 = strlen-IsString m name (length s) (Spells-IsString m name s p) u in
    elim (Bool-cases (length t == length s)) [
      | inl same ↦
          let start_command : command + 0 ≡ command = omega arith in
          let start_name : name + 0 ≡ name = omega arith in
          let e : length t ≡ length s = ground arith in
          let all =
            same_from-Spells m command name 0 t s (subst (λ c. Spells m c t) (sym start_command) q)
              (subst (λ c. Spells m c s) (sym start_name) p) e in
          rw (strcmp, len1, len2, same, all) (answer (same_text t s))
      | inr differ ↦
          let apart = different_length t s (λ e. absurd (ground arith)) in
          rw (strcmp, len1, len2, differ, apart) refl
    ]
  where
    answer : (b : Bool) → not ((if b then 1 else 0) == 0) ≡ b
    answer true = refl
    answer false = refl

-- The command whose name the text is, the unknown one if it is none of them.
abbrev pub named : List ℕ → Command
named text =
    if same_text text (name_of tss)
    then tss
    else if same_text text (name_of apple)
    then apple
    else if same_text text (name_of banana)
    then banana
    else if same_text text (name_of testkill)
    then testkill
    else if same_text text (name_of gdt)
    then gdt
    else if same_text text (name_of cr0)
    then cr0
    else if same_text text (name_of lol2)
    then lol2
    else if same_text text (name_of clear) || same_text text short_clear
    then clear
    else if same_text text (name_of build)
    then build
    else if same_text text (name_of tasks)
    then tasks
    else if same_text text (name_of pmm)
    then pmm
    else if same_text text (name_of vmm)
    then vmm
    else if same_text text (name_of die)
    then die
    else if same_text text (name_of heap)
    then heap
    else unknown

find_command-named :
    (t : Names) (m : Bytes) (command : ℕ) (text : List ℕ)
    → IsTable m t
    → Spells m command text
    → length text < 512
    → find_command t m command ≡ named text
unfolding find_command
find_command-named t m command text h p l =
    let test = λ (c : Command) (b : length (name_of c) < 512).
      names_lem m (t.at c) command (name_of c) text (h.spelled c) p b l in
    let cls = names_lem m t.cls command short_clear text h.short p (omega arith) l in
    rw
      (
        test tss (omega arith),
        test apple (omega arith),
        test banana (omega arith),
        test testkill (omega arith),
        test gdt (omega arith),
        test cr0 (omega arith),
        test lol2 (omega arith),
        test clear (omega arith),
        cls,
        test build (omega arith),
        test tasks (omega arith),
        test pmm (omega arith),
        test vmm (omega arith),
        test die (omega arith),
        test heap (omega arith),
      )
      refl

named-name_of : (c : Command) → named (name_of c) ≡ c
named-name_of tss = refl
named-name_of apple = refl
named-name_of banana = refl
named-name_of testkill = refl
named-name_of gdt = refl
named-name_of cr0 = refl
named-name_of lol2 = refl
named-name_of clear = refl
named-name_of build = refl
named-name_of tasks = refl
named-name_of pmm = refl
named-name_of vmm = refl
named-name_of die = refl
named-name_of heap = refl
named-name_of unknown = refl

-- With the table of names in memory and a line of less than 512 characters in the buffer,
-- `shell_process_command` runs the command whose name the line is, and the branch of the unknown command if it is
-- no name. Each name runs its own command, and `cls` runs that of `clear`.
pub shell_process_command_lem :
    (fuel : ℕ) (p : Programs) (processor : Processor) (t : Names) (command : ℕ) (w : Console)
    (text : List ℕ)
    → IsTable w.shell.bytes t
    → Spells w.shell.bytes command text
    → length text < 512
    → (shell_process_command fuel p processor t command w
        ≡ run_command fuel p processor (named text) w)
      × ((c : Command) → named (name_of c) ≡ c)
      × (named short_clear ≡ clear)
unfolding shell_process_command
shell_process_command_lem fuel p processor t command w text h s l = (
  ap (λ c. run_command fuel p processor c w)
      (find_command-named t w.shell.bytes command text h s l),
  named-name_of,
  refl,
)
