-- ===== src/Strings/Format/Tests.antt =====
-- Runs of `sprintf` of kernel/string.c.
use rotary_os.Base.{
  ℕ, zero, suc, ◌+◌, ◌≡◌, refl, ◌==◌, if◌then◌else◌, Option, none, some, List, [], ◌∷◌,
}
use rotary_os.Strings.{Bytes, strlen, length_from}
use rotary_os.Strings.Number.{int_to_str, digits_from, swap_from}
use rotary_os.Strings.Copy.{memset, fill_buffer}
use rotary_os.Strings.Format.{
  sprintf, format_from, put_directive, put_argument, put_text, padding_from, copy_format,
  copy_string,
}

abbrev spell : (a : ℕ) → List ℕ → Bytes
spell a [] b = 0
spell a (c ∷ cs) b = if b == a then c else spell (a + 1) cs b

-- `n` bytes from `a` on.
abbrev read : (n : ℕ) → Bytes → (a : ℕ) → List ℕ
read zero m a = []
read (suc n) m a = m a ∷ read n m (a + 1)

abbrev written : Option Bytes → (n : ℕ) → List ℕ
written none n = []
written (some m) n = read n m 1000

-- The format `a%3d!` with 42: two digits after a padding of one.
sprintf_runs :
    written (sprintf 40 500 (spell 16 (b'a' ∷ b'%' ∷ b'3' ∷ b'd' ∷ b'!' ∷ [])) 1000 16 (42 ∷ [])) 6
    ≡ b'a' ∷ b'0' ∷ b'4' ∷ b'2' ∷ b'!' ∷ 0 ∷ []
unfolding sprintf format_from put_directive put_argument put_text padding_from copy_format
    copy_string strlen length_from int_to_str digits_from swap_from memset fill_buffer
sprintf_runs = refl
