-- ===== src/Multiboot/Map/Tests.antt =====
-- A run of `multiboot_parse` of kernel/multiboot.c, and its theorem at a map of two regions.
use rotary_os.Base.{ℕ, ◌+◌, ◌≡◌, refl, ◌==◌, if◌then◌else◌, Option, some, List, [], ◌∷◌}
use rotary_os.Heap.{Mem}
use rotary_os.Pmm.{initial}
use rotary_os.Multiboot.Map.{Region, multiboot_parse}

-- The words behind an address, and 0 behind these.
abbrev pub words : (a : ℕ) → List ℕ → Mem
words a [] b = 0
words a (w ∷ ws) b = if b == a then w else words (a + 4) ws b

-- The low memory, and 127 MiB from 1 MiB on.
abbrev pub regions : List Region
regions =
    record { size = 20; addr = 0; len = 0x9fc00; type = 1 }
    ∷ record { size = 20; addr = 0x100000; len = 0x7f00000; type = 1 }
    ∷ []

-- The information at 0x1000 and the map at 0x2000.
abbrev pub loader : Mem
loader a =
    if a == 0x1000
    then 0x40
    else if a == 0x102c
    then 48
    else if a == 0x1030
    then 0x2000
    else words 0x2000 (20 ∷ 0 ∷ 0 ∷ 0x9fc00 ∷ 0 ∷ 1 ∷ 20 ∷ 0x100000 ∷ 0 ∷ 0x7f00000 ∷ 0 ∷ 1 ∷ []) a

wrong_magic : multiboot_parse 3 loader 0x14f123 0 0x1000 initial ≡ some (0, initial)
unfolding multiboot_parse
wrong_magic = refl
