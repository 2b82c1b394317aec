-- ===== src/Strings/Format.antt =====
-- `sprintf` of kernel/string.c. The buffer `num` of the code stands at an address of its own.
mod Tests
use rotary_os.Base.{
  ℕ, zero, suc, ◌+◌, ◌-◌, ◌*◌, ◌%◌, ◌^◌, Bool, true, false, ◌&&◌, leb, ltb, ◌==◌, not,
  if◌then◌else◌, update, Option, none, some, List, [], ◌∷◌,
}
use rotary_os.Strings.{Bytes, strlen, int_to_hex_str}
use rotary_os.Strings.Number.{int_to_str}
use rotary_os.Strings.Copy.{memset, fill_buffer}

-- The bytes, `index`, `processed`, `dest_index`, and the arguments that are left.
pub record Format : Type 0 where
  pub bytes : Bytes
  pub index : ℕ
  pub processed : ℕ
  pub dest_index : ℕ
  pub arguments : List ℕ

-- The loop that copies the format up to `index`: `rounds` bytes of it are left.
pub copy_format : (rounds : ℕ) → (dest_buf format_str : ℕ) → Format → Format
copy_format zero dest_buf format_str s = s
copy_format (suc n) dest_buf format_str s = copy_format n dest_buf format_str (record s {
  bytes = update s.bytes (dest_buf + s.dest_index) (s.bytes (format_str + s.processed));
  processed = s.processed + 1;
  dest_index = s.dest_index + 1;
})

-- The width in front of the letter, and the index of the letter; `none` when the fuel ends.
pub padding_from : (fuel : ℕ) → Bytes → (format_str padding index : ℕ) → Option (ℕ × ℕ)
padding_from zero m format_str padding index = none
padding_from (suc n) m format_str padding index =
    let c = m (format_str + index) in
    let rest = padding_from n m format_str (padding * 10 + (c - b'0')) (index + 1) in
    if leb b'0' c && leb c b'9' then rest else some (padding, index)

-- The loop that copies a string; `none` when the fuel ends.
pub copy_string : (fuel : ℕ) → Bytes → (dest_buf dest_index text : ℕ) → Option (Bytes × ℕ)
copy_string zero m dest_buf dest_index text = none
copy_string (suc n) m dest_buf dest_index text =
    let rest =
      copy_string n (update m (dest_buf + dest_index) (m text)) dest_buf (dest_index + 1)
        (text + 1) in
    if not (m text == 0) then rest else some (m, dest_index)

-- How many characters are filled in front of a text: `strlen` gives -1 for a text without an end.
abbrev pub fill_count : (padding length : ℕ) → ℕ
fill_count padding length = if length == 2 ^ 32 - 1 then padding + 1 else padding - length

-- A text with its padding.
pub put_text : (fuel dest_buf padding text : ℕ) → Format → Option Format
put_text fuel dest_buf padding text s =
    let (m₁, i₁) =
      fill_buffer (fill_count padding (strlen s.bytes text)) s.bytes dest_buf s.dest_index b'0' in
    elim (copy_string fuel m₁ dest_buf i₁ text) [
      | none ↦ none
      | some (m₂, i₂) ↦ some (record s { bytes = m₂; dest_index = i₂ })
    ]

-- The letter behind the percent sign; `none` also when an argument is missing.
pub put_argument : (fuel num dest_buf padding letter : ℕ) → Format → Option Format
put_argument fuel num dest_buf padding letter s = elim s.arguments [
  | [] ↦
      if letter == b's'
      then none
      else if letter == b'd'
      then none
      else if letter == b'x'
      then none
      else if letter == b'c'
      then none
      else some s
  | argument ∷ rest ↦
      let s₁ = record s { arguments = rest } in
      if letter == b's'
      then put_text fuel dest_buf padding argument s₁
      else if letter == b'd'
      then put_text fuel dest_buf padding num
          (record s₁ { bytes = int_to_str s.bytes argument num })
      else if letter == b'x'
      then put_text fuel dest_buf padding num
          (record s₁ { bytes = int_to_hex_str s.bytes argument num })
      else if letter == b'c'
      then (let (m₁, i₁) = fill_buffer (padding - 1) s.bytes dest_buf s.dest_index b'0' in
          some (record s₁ {
            bytes = update m₁ (dest_buf + i₁) (argument % 2 ^ 8);
            dest_index = i₁ + 1;
          }))
      else some s
]

-- A percent sign at `index`, and what belongs to it.
pub put_directive : (fuel num dest_buf format_str : ℕ) → Format → Option Format
put_directive fuel num dest_buf format_str s =
    let s₁ =
      copy_format (s.index - s.processed) dest_buf format_str
        (record s { bytes = memset 32 s.bytes num 0 }) in
    elim (padding_from fuel s₁.bytes format_str 0 (s.index + 1)) [
      | none ↦ none
      | some (padding, i) ↦
          elim (put_argument fuel num dest_buf padding (s₁.bytes (format_str + i)) s₁) [
            | none ↦ none
            | some s₂ ↦ some (record s₂ { index = i; processed = i + 1 })
          ]
    ]

-- The outer loop; `none` when the fuel ends.
pub format_from : (fuel num dest_buf format_str : ℕ) → Format → Option Format
format_from zero num dest_buf format_str s = none
format_from (suc n) num dest_buf format_str s = elim (s.bytes (format_str + s.index) == 0) [
  | true ↦ some s
  | false ↦ elim (s.bytes (format_str + s.index) == b'%') [
    | false ↦ format_from n num dest_buf format_str (record s { index = s.index + 1 })
    | true ↦ elim (put_directive n num dest_buf format_str s) [
      | none ↦ none
      | some s' ↦ format_from n num dest_buf format_str (record s' { index = s'.index + 1 })
    ]
  ]
]

-- The arguments are numbers and the addresses of texts.
pub sprintf : (fuel num : ℕ) → Bytes → (dest_buf format_str : ℕ) → List ℕ → Option Bytes
sprintf fuel num m dest_buf format_str arguments =
    elim (format_from fuel num dest_buf format_str
      (record { bytes = m; index = 0; processed = 0; dest_index = 0; arguments = arguments })) [
        | none ↦ none
        | some s ↦
            let s₁ = copy_format (s.index - s.processed) dest_buf format_str s in
            some (update s₁.bytes (dest_buf + s₁.dest_index) 0)
      ]
