-- ===== src/Strings/Copy.antt =====
-- Copies of kernel/string.c: `memset`, `memcpy`, `strcpy`, `strcat` and `fill_buffer` on bytes.
use rotary_os.Base.{ℕ, zero, suc, ◌+◌, ◌==◌, not, if◌then◌else◌, update, Option, none, some}
use rotary_os.Strings.{Bytes, strlen}

unfoldable pub memset : (len : ℕ) → Bytes → (dest val : ℕ) → Bytes
memset zero m dest val = m
memset (suc n) m dest val = memset n (update m dest val) (dest + 1) val

pub memcpy : (size : ℕ) → Bytes → (dest src : ℕ) → Bytes
memcpy zero m dest src = m
memcpy (suc n) m dest src = memcpy n (update m dest (m src)) (dest + 1) (src + 1)

-- The loop of `strcpy` from index `i` on: the bytes, and the index at its end. It looks at the bytes of the
-- destination. `none` when the fuel ends.
pub copy_from : (fuel : ℕ) → Bytes → (dest_buf src_buf i : ℕ) → Option (Bytes × ℕ)
copy_from zero m dest_buf src_buf i = none
copy_from (suc n) m dest_buf src_buf i =
    let rest = copy_from n (update m (dest_buf + i) (m (src_buf + i))) dest_buf src_buf (i + 1) in
    if not (m (dest_buf + i) == 0) then rest else some (m, i)

pub strcpy : (fuel : ℕ) → Bytes → (dest_buf src_buf : ℕ) → Option Bytes
strcpy fuel m dest_buf src_buf = elim (copy_from fuel m dest_buf src_buf 0) [
  | none ↦ none
  | some (m₁, i) ↦ some (update m₁ (dest_buf + (i + 1)) 0)
]

-- The loop of `strcat` from index `i` on, which writes behind `str1_len` bytes of the first string.
unfoldable pub concat_from : (rounds : ℕ) → Bytes → (str1 str1_len str2 i : ℕ) → Bytes
concat_from zero m str1 str1_len str2 i = m
concat_from (suc n) m str1 str1_len str2 i =
    concat_from n (update m (str1 + (str1_len + i)) (m (str2 + i))) str1 str1_len str2 (i + 1)

unfoldable pub strcat : Bytes → (str1 str2 : ℕ) → Bytes
strcat m str1 str2 =
    let str1_len = strlen m str1 in
    let str2_len = strlen m str2 in
    update (concat_from str2_len m str1 str1_len str2 0) (str1 + (str1_len + str2_len)) 0

-- The bytes, and the index in the buffer behind them.
unfoldable pub fill_buffer : (count : ℕ) → Bytes → (dest_buf dest_index c : ℕ) → Bytes × ℕ
fill_buffer zero m dest_buf dest_index c = (m, dest_index)
fill_buffer (suc n) m dest_buf dest_index c =
    fill_buffer n (update m (dest_buf + dest_index) c) dest_buf (dest_index + 1) c
