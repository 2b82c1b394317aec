-- ===== src/Strings/Compare.antt =====
-- `strlen` and `strcmp` of kernel/string.c on strings that end.
use rotary_os.Base.{
  ℕ, zero, suc, ◌+◌, ◌-◌, ◌^◌, ◌<◌, ◌≤◌, ◌≡◌, ◌≢◌, ◌↔◌, refl, sym, inl, inr, arith, true, false,
  Bool-cases, leb-cases, le_refl, ◌==◌,
}
use mathlib.Core.Path.{◌∙◌}
use mathlib.Core.Bool.{false≢true}
use rotary_os.Strings.{Bytes, strlen, length_from, strcmp, same_from}

-- The bytes from `string` on are `n` others and then a 0.
pub record IsString (m : Bytes) (string n : ℕ) : Type 0 where
  pub end : m (string + n) ≡ 0
  pub inside : (i : ℕ) → i < n → m (string + i) ≢ 0

module _ (m : Bytes) (string n : ℕ) (s : IsString m string n) where
  length_from-IsString : (rounds i : ℕ) → i ≤ n → n < i + rounds → length_from rounds m string i ≡ n
  unfolding length_from
  length_from-IsString zero i b h = absurd (omega arith)
  length_from-IsString (suc k) i b h = elim (leb-cases n i) [
    | inl last ↦
        let q : i ≡ n = omega arith in
        let stop : (m (string + n) == 0) ≡ true = ground (arith, s.end) in rw (q, stop) refl
    | inr before ↦
        let other = s.inside i before in
        let go : (m (string + i) == 0) ≡ false = ground (arith, other) in
        rw (go, length_from) (length_from-IsString k (i + 1) (omega arith) (omega arith))
  ]

  pub strlen-IsString : n < 512 → strlen m string ≡ n
  unfolding strlen
  strlen-IsString b = length_from-IsString 512 0 (omega arith) (omega arith)

-- If no byte of the first 512 is 0, `strlen` returns -1.
length_from_open :
    (rounds : ℕ) (m : Bytes) (string i : ℕ)
    → ((j : ℕ) → j < i + rounds → m (string + j) ≢ 0)
    → length_from rounds m string i ≡ 2 ^ 32 - 1
unfolding length_from
length_from_open zero m string i h = refl
length_from_open (suc k) m string i h =
    let other = h i (omega arith) in
    let go : (m (string + i) == 0) ≡ false = ground (arith, other) in
    rw (go, length_from) (length_from_open k m string (i + 1) λ j b. h j (omega arith))

module _ (m : Bytes) (str1 str2 : ℕ) where
  same_from_iff :
      (n i : ℕ)
      → (same_from n m str1 str2 i ≡ true)
        ↔ ((j : ℕ) → i ≤ j → j < i + n → m (str1 + j) ≡ m (str2 + j))
  unfolding same_from
  same_from_iff zero i = (λ e j l b. absurd (omega arith), λ h. refl)
  same_from_iff (suc n) i = elim (Bool-cases (m (str1 + i) == m (str2 + i))) [
    | inr differ ↦
        rw (differ, same_from)
          (
            λ e. absurd (false≢true e),
            λ h.
                let same = h i (le_refl i) (omega arith) in
                let both : (m (str1 + i) == m (str2 + i)) ≡ true = ground (arith, same) in
                sym differ ∙ both,
          )
    | inl same ↦
        let rest = same_from_iff n (i + 1) in
        rw (same, same_from)
          (
            λ e j l b. elim (leb-cases j i) [
              | inl here ↦ let q : j ≡ i = omega arith in rw q (ground (arith, same))
              | inr behind ↦ rest.0 e j (omega arith) (omega arith)
            ],
            λ h. rest.1 λ j l b. h j (omega arith) (omega arith),
          )
  ]

-- `strcmp` of two strings below 512 bytes returns 1 exactly if they have the same length and the
-- same bytes.
pub strcmp_lem :
    (m : Bytes) (str1 str2 n k : ℕ)
    → IsString m str1 n
    → IsString m str2 k
    → n < 512
    → k < 512
    → (strcmp m str1 str2 ≡ 1) ↔ ((n ≡ k) × ((j : ℕ) → j < n → m (str1 + j) ≡ m (str2 + j)))
unfolding strcmp
strcmp_lem m str1 str2 n k a b p q =
    let len1 = strlen-IsString m str1 n a p in
    let len2 = strlen-IsString m str2 k b q in
    rw (strcmp, len1, len2)
      (elim (Bool-cases (n == k)) [
        | inr differ ↦
            rw differ (
              λ e. absurd (omega arith),
              λ h. let one = h.0 in absurd (ground (arith, differ, one)),
            )
        | inl same ↦ elim (Bool-cases (same_from n m str1 str2 0)) [
          | inl r ↦
              rw (same, r)
                (
                  λ e. (
                    ground (arith, same),
                    λ j l. (same_from_iff m str1 str2 n 0).0 r j (omega arith) (omega arith),
                  ),
                  λ h. refl,
                )
          | inr r ↦
              rw (same, r)
                (
                  λ e. absurd (omega arith),
                  λ h.
                      let all = (same_from_iff m str1 str2 n 0).1 λ j l b. h.1 j (omega arith) in
                      absurd (false≢true (sym r ∙ all)),
                )
        ]
      ])
