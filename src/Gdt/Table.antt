-- ===== src/Gdt/Table.antt =====
-- The table that `gdt_init` of arch/x86/kernel/gdt.c fills.
use rotary_os.Base.{ℕ, ◌-◌, ◌/◌, ◌%◌, ◌^◌, ◌<◌, ◌≡◌, refl, arith, bit_and}
use rotary_os.Base.Bits.{bit_and-low_mask}
use rotary_os.Gdt.{
  GdtEntry, Gdt, gdt_encode_entry, gdt_init, base_of, limit_of, flags_of, granularity-split,
  gdt_encode_entry_lem,
}

-- Every field has the width of its C type.
pub record Fits (e : GdtEntry) : Type 0 where
  pub limit_low : e.limit_low < 2 ^ 16
  pub base_low : e.base_low < 2 ^ 16
  pub base_middle : e.base_middle < 2 ^ 8
  pub access_flags : e.access_flags < 2 ^ 8
  pub granularity : e.granularity < 2 ^ 8
  pub base_high : e.base_high < 2 ^ 8

-- An entry as the processor reads it.
pub record IsSegment (e : GdtEntry) (base limit flags access : ℕ) : Type 0 where
  pub fits : Fits e
  pub base_is : base_of e ≡ base
  pub limit_is : limit_of e ≡ limit
  pub flags_is : flags_of e ≡ flags
  pub access_is : e.access_flags ≡ access

gdt_encode_entry-Fits :
    (base limit flags access : ℕ) → access < 2 ^ 8 → Fits (gdt_encode_entry base limit flags access)
unfolding gdt_encode_entry
gdt_encode_entry-Fits base limit flags access h =
    let low : bit_and base 0xffff ≡ base % 2 ^ 16 = bit_and-low_mask 16 base in
    let middle : bit_and (base / 2 ^ 16) 0xff ≡ base / 2 ^ 16 % 2 ^ 8 =
      bit_and-low_mask 8 (base / 2 ^ 16) in
    let high : bit_and (base / 2 ^ 24) 0xff ≡ base / 2 ^ 24 % 2 ^ 8 =
      bit_and-low_mask 8 (base / 2 ^ 24) in
    let limit_low : bit_and limit 0xffff ≡ limit % 2 ^ 16 = bit_and-low_mask 16 limit in
    let split = granularity-split base limit flags access in
    record {
      limit_low = omega (arith, limit_low);
      base_low = omega (arith, low);
      base_middle = omega (arith, middle);
      access_flags = h;
      granularity = omega (arith, split);
      base_high = omega (arith, high);
    }

gdt_encode_entry-IsSegment :
    (base limit flags access : ℕ)
    → base < 2 ^ 32
    → flags < 2 ^ 8
    → access < 2 ^ 8
    → IsSegment (gdt_encode_entry base limit flags access) base (limit % 2 ^ 20) (flags / 16) access
gdt_encode_entry-IsSegment base limit flags access b f a =
    let (base_is, limit_is, flags_is, access_is) =
      gdt_encode_entry_lem base limit flags access b f in
    record {
      fits = gdt_encode_entry-Fits base limit flags access a;
      base_is = base_is;
      limit_is = limit_is;
      flags_is = flags_is;
      access_is = access_is;
    }

-- Four flat segments of 2^20 pages, code and data of the kernel and of the user, and the task state
-- segment, behind a descriptor of six entries.
pub record IsFlat (g : Gdt) (null_entry task_seg tss_size : ℕ) : Type 0 where
  pub descriptor : (g.size ≡ 47) × (g.address ≡ null_entry)
  pub kernel_code : IsSegment (g.kernel_code_entry) 0 (2 ^ 20 - 1) 12 0x9a
  pub kernel_data : IsSegment (g.kernel_data_entry) 0 (2 ^ 20 - 1) 12 0x92
  pub user_code : IsSegment (g.user_code_entry) 0 (2 ^ 20 - 1) 12 0xfa
  pub user_data : IsSegment (g.user_data_entry) 0 (2 ^ 20 - 1) 12 0xf2
  pub task : IsSegment (g.tss_entry) task_seg (tss_size % 2 ^ 20) 4 0x89

-- For an address of the task state segment below 4 GiB, `gdt_init` leaves a table that the processor reads as flat
-- segments of 4 GiB for the code and the data of the kernel and of the user, each with the access byte of its kind,
-- and a task state segment at that address with the low 20 bits of its size; every field of every entry fits the
-- width of its C type; and the descriptor gives the address of the null entry and six entries of 8 bytes.
pub gdt_init-IsFlat :
    (null_entry task_seg tss_size : ℕ)
    → task_seg < 2 ^ 32
    → IsFlat (gdt_init null_entry task_seg tss_size) null_entry task_seg tss_size
unfolding gdt_init
gdt_init-IsFlat null_entry task_seg tss_size h = record {
  descriptor = (refl, refl);
  kernel_code =
      gdt_encode_entry-IsSegment 0 0xffffffff 0xcf 0x9a (omega arith) (omega arith) (omega arith);
  kernel_data =
      gdt_encode_entry-IsSegment 0 0xffffffff 0xcf 0x92 (omega arith) (omega arith) (omega arith);
  user_code =
      gdt_encode_entry-IsSegment 0 0xffffffff 0xcf 0xfa (omega arith) (omega arith) (omega arith);
  user_data =
      gdt_encode_entry-IsSegment 0 0xffffffff 0xcf 0xf2 (omega arith) (omega arith) (omega arith);
  task = gdt_encode_entry-IsSegment task_seg tss_size 0x40 0x89 h (omega arith) (omega arith);
}
