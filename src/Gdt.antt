-- ===== src/Gdt.antt =====
-- The global descriptor table of arch/x86/kernel/gdt.c: the encoding of a segment, and the table
-- that `gdt_init` fills.
pub mod Table
mod Tests
use rotary_os.Base.{ℕ, ◌+◌, ◌-◌, ◌*◌, ◌/◌, ◌%◌, ◌^◌, ◌<◌, ◌≡◌, refl, arith, bit_and, bit_or, shr}
use rotary_os.Base.Joins.{bit_or-shifted}
use rotary_os.Base.Bits.{bit_and-low_mask, bit_and-high_mask}

pub record GdtEntry : Type 0 where
  pub limit_low : ℕ
  pub base_low : ℕ
  pub base_middle : ℕ
  pub access_flags : ℕ
  pub granularity : ℕ
  pub base_high : ℕ

-- Every field is written, so the entry does not depend on what it was.
pub gdt_encode_entry : (base limit flags access : ℕ) → GdtEntry
gdt_encode_entry base limit flags access = record {
  base_low = bit_and base 0xffff;
  base_middle = bit_and (shr base 16) 0xff;
  base_high = bit_and (shr base 24) 0xff;
  limit_low = bit_and limit 0xffff;
  granularity = bit_or (bit_and (shr limit 16) 0x0f) (bit_and flags 0xf0);
  access_flags = access;
}

-- The descriptor, and the table behind the null entry.
pub record Gdt : Type 0 where
  pub size : ℕ
  pub address : ℕ
  pub kernel_code_entry : GdtEntry
  pub kernel_data_entry : GdtEntry
  pub user_code_entry : GdtEntry
  pub user_data_entry : GdtEntry
  pub tss_entry : GdtEntry

-- `GDT_ACCESS_TYPE_SEGMENT | GDT_ACCESS_PRESENT`, a privilege, then code that is readable or data
-- that is writable.
abbrev pub access_of : (privilege kind : ℕ) → ℕ
access_of privilege kind = bit_or (bit_or (bit_or (bit_or 0x10 0x80) privilege) kind) 0x02

-- `null_entry` is the address of that entry, `task_seg` the one that `tss_get` returns, and `tss_size` the size of
-- the structure.
pub gdt_init : (null_entry task_seg tss_size : ℕ) → Gdt
gdt_init null_entry task_seg tss_size = record {
  size = 8 * 6 - 1;
  address = null_entry;
  kernel_code_entry = gdt_encode_entry 0 0xffffffff 0xcf (access_of 0 8);
  kernel_data_entry = gdt_encode_entry 0 0xffffffff 0xcf (access_of 0 0);
  user_code_entry = gdt_encode_entry 0 0xffffffff 0xcf (access_of 0x60 8);
  user_data_entry = gdt_encode_entry 0 0xffffffff 0xcf (access_of 0x60 0);
  tss_entry = gdt_encode_entry task_seg tss_size 0x40 0x89;
}

-- How the processor puts a descriptor together: the base, the limit of 20 bits, the four flags.
abbrev pub base_of : GdtEntry → ℕ
base_of e = e.base_low + e.base_middle * 2 ^ 16 + e.base_high * 2 ^ 24

abbrev pub limit_of : GdtEntry → ℕ
limit_of e = e.limit_low + e.granularity % 16 * 2 ^ 16

abbrev pub flags_of : GdtEntry → ℕ
flags_of e = e.granularity / 16

granularity-split :
    (base limit flags access : ℕ)
    → (gdt_encode_entry base limit flags access).granularity
      ≡ limit / 2 ^ 16 % 16 + flags / 16 % 16 * 16
unfolding gdt_encode_entry
granularity-split base limit flags access =
    let low : bit_and (limit / 2 ^ 16) 0x0f ≡ limit / 2 ^ 16 % 16 =
      bit_and-low_mask 4 (limit / 2 ^ 16) in
    let nibble : bit_and (flags / 16) 15 ≡ flags / 16 % 16 = bit_and-low_mask 4 (flags / 16) in
    let high : bit_and flags 0xf0 ≡ bit_and (flags / 16) 15 * 16 = bit_and-high_mask 4 flags 15 in
    rw (low, high, nibble) (bit_or-shifted 4 (limit / 2 ^ 16 % 16) (flags / 16 % 16) (omega arith))

-- The processor reads back what was encoded: the whole base, the low 20 bits of the limit, the high
-- four bits of the flags and the access byte.
pub gdt_encode_entry_lem :
    (base limit flags access : ℕ)
    → base < 2 ^ 32
    → flags < 2 ^ 8
    → let e = gdt_encode_entry base limit flags access in
      (base_of e ≡ base)
      × (limit_of e ≡ limit % 2 ^ 20)
      × (flags_of e ≡ flags / 16)
      × (e.access_flags ≡ access)
unfolding gdt_encode_entry
gdt_encode_entry_lem base limit flags access a b =
    let low : bit_and base 0xffff ≡ base % 2 ^ 16 = bit_and-low_mask 16 base in
    let middle : bit_and (base / 2 ^ 16) 0xff ≡ base / 2 ^ 16 % 2 ^ 8 =
      bit_and-low_mask 8 (base / 2 ^ 16) in
    let high : bit_and (base / 2 ^ 24) 0xff ≡ base / 2 ^ 24 % 2 ^ 8 =
      bit_and-low_mask 8 (base / 2 ^ 24) in
    let limit_low : bit_and limit 0xffff ≡ limit % 2 ^ 16 = bit_and-low_mask 16 limit in
    let split = granularity-split base limit flags access in
    (omega (arith, low, middle, high), omega (arith, limit_low, split), omega (arith, split), refl)
