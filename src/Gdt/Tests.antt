-- ===== src/Gdt/Tests.antt =====
-- The table of arch/x86/kernel/gdt.c by evaluation, and its theorem at one segment.
use rotary_os.Base.{◌/◌, ◌%◌, ◌^◌, ◌≡◌, refl, arith}
use rotary_os.Gdt.Table.{IsFlat, gdt_init-IsFlat}
use rotary_os.Gdt.{gdt_encode_entry, gdt_init, base_of, limit_of, flags_of, gdt_encode_entry_lem}

-- The access bytes: 0x9a and 0x92 of the kernel's code and data, 0xfa and 0xf2 of the user's.
table_runs :
    ((gdt_init 0xC0104000 0xC0105000 104).kernel_code_entry.access_flags ≡ 0x9a)
    × ((gdt_init 0xC0104000 0xC0105000 104).kernel_data_entry.access_flags ≡ 0x92)
    × ((gdt_init 0xC0104000 0xC0105000 104).user_code_entry.access_flags ≡ 0xfa)
    × ((gdt_init 0xC0104000 0xC0105000 104).user_data_entry.access_flags ≡ 0xf2)
unfolding gdt_init gdt_encode_entry
table_runs = (refl, refl, refl, refl)

gdt_encode_entry_lem_example :
    let e = gdt_encode_entry 0xC0105000 104 0x40 0x89 in
    (base_of e ≡ 0xC0105000)
    × (limit_of e ≡ 104 % 2 ^ 20)
    × (flags_of e ≡ 0x40 / 16)
    × (e.access_flags ≡ 0x89)
gdt_encode_entry_lem_example =
    gdt_encode_entry_lem 0xC0105000 104 0x40 0x89 (omega arith) (omega arith)

gdt_init-IsFlat_example : IsFlat (gdt_init 0xC0104000 0xC0105000 104) 0xC0104000 0xC0105000 104
gdt_init-IsFlat_example = gdt_init-IsFlat 0xC0104000 0xC0105000 104 (omega arith)
