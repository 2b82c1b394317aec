-- ===== src/Shell/Line.antt =====
-- The input buffer of kernel/shell.c as a line that the user edits.
use rotary_os.Base.{
  ℕ, ◌+◌, ◌-◌, ◌≤◌, ◌<◌, ◌≡◌, ◌≢◌, inl, inr, sym, ap, arith, leb-cases, List, [], ◌∷◌, ◌++◌,
}
use mathlib.Core.Path.{◌∙◌}
use rotary_os.Base.Lists.{length}
use rotary_os.Strings.{Bytes}
use rotary_os.Strings.Compare.{IsString}

-- The bytes from `a` on are those of the line, none of them 0, and a 0 behind them.
abbrev pub Spells : Bytes → (a : ℕ) → List ℕ → Type 0
Spells m a [] = m a ≡ 0
Spells m a (c ∷ cs) = (m a ≡ c) × (c ≢ 0) × Spells m (a + 1) cs

pub Spells-same :
    (m n : Bytes) (a : ℕ) (line : List ℕ)
    → ((b : ℕ) → a ≤ b → b ≤ a + length line → n b ≡ m b)
    → Spells m a line
    → Spells n a line
Spells-same m n a [] h s = h a (omega arith) (omega arith) ∙ s
Spells-same m n a (c ∷ cs) h (e, z, s) = (
  h a (omega arith) (omega arith) ∙ e,
  z,
  Spells-same m n (a + 1) cs (λ b l u. h b (omega arith) (omega arith)) s,
)

spelled_end : (m : Bytes) (a : ℕ) (line : List ℕ) → Spells m a line → m (a + length line) ≡ 0
spelled_end m a [] s = let e : a + 0 ≡ a = omega arith in rw e s
spelled_end m a (c ∷ cs) (e, z, s) =
    let q : a + length (c ∷ cs) ≡ a + 1 + length cs = omega arith in
    rw q (spelled_end m (a + 1) cs s)

spelled_inside :
    (m : Bytes) (a : ℕ) (line : List ℕ) (i : ℕ) → Spells m a line → i < length line → m (a + i) ≢ 0
spelled_inside m a [] i s b = absurd (omega arith)
spelled_inside m a (c ∷ cs) i (e, z, s) b = elim (leb-cases i 0) [
  | inl first ↦ let q : a + i ≡ a = omega arith in rw (q, e) z
  | inr later ↦
      let q : a + i ≡ a + 1 + (i - 1) = omega arith in
      rw q (spelled_inside m (a + 1) cs (i - 1) s (omega arith))
]

pub Spells-IsString :
    (m : Bytes) (a : ℕ) (line : List ℕ) → Spells m a line → IsString m a (length line)
Spells-IsString m a line s = record {
  end = spelled_end m a line s;
  inside = λ i b. spelled_inside m a line i s b;
}

pub Spells-snoc :
    (m n : Bytes) (a c : ℕ) (line : List ℕ)
    → Spells m a line
    → c ≢ 0
    → ((b : ℕ) → a ≤ b → b < a + length line → n b ≡ m b)
    → n (a + length line) ≡ c
    → n (a + length line + 1) ≡ 0
    → Spells n a (line ++ c ∷ [])
Spells-snoc m n a c [] s z h e f =
    let q : a + 0 ≡ a = omega arith in
    let r : a + 0 + 1 ≡ a + 1 = omega arith in (ap n (sym q) ∙ e, z, ap n (sym r) ∙ f)
Spells-snoc m n a c (x ∷ cs) (p, y, s) z h e f =
    let q : a + length (x ∷ cs) ≡ a + 1 + length cs = omega arith in
    let r : a + length (x ∷ cs) + 1 ≡ a + 1 + length cs + 1 = omega arith in
    (
      h a (omega arith) (omega arith) ∙ p,
      y,
      Spells-snoc m n (a + 1) c cs s z (λ b l u. h b (omega arith) (omega arith)) (ap n (sym q) ∙ e)
          (ap n (sym r) ∙ f),
    )

-- The line without its last character.
abbrev pub drop_last : List ℕ → List ℕ
drop_last [] = []
drop_last (c ∷ []) = []
drop_last (c ∷ (d ∷ rest)) = c ∷ drop_last (d ∷ rest)

pub Spells-drop_last :
    (m n : Bytes) (a : ℕ) (line : List ℕ)
    → Spells m a line
    → 1 ≤ length line
    → ((b : ℕ) → a ≤ b → b + 1 < a + length line → n b ≡ m b)
    → n (a + length line - 1) ≡ 0
    → Spells n a (drop_last line)
Spells-drop_last m n a [] s l h e = absurd (omega arith)
Spells-drop_last m n a (c ∷ []) s l h e =
    let q : a + length (c ∷ []) - 1 ≡ a = omega arith in ap n (sym q) ∙ e
Spells-drop_last m n a (c ∷ (d ∷ rest)) (p, y, s) l h e =
    let q : a + length (c ∷ (d ∷ rest)) - 1 ≡ a + 1 + length (d ∷ rest) - 1 = omega arith in
    (
      h a (omega arith) (omega arith) ∙ p,
      y,
      Spells-drop_last m n (a + 1) (d ∷ rest) s (omega arith)
          (λ b l u. h b (omega arith) (omega arith)) (ap n (sym q) ∙ e),
    )
