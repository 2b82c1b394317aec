-- ===== src/Cpuid/Tests.antt =====
-- Runs of arch/x86/kernel/cpuid.c.
use rotary_os.Base.{ℕ, ◌≡◌, refl, Option, none, some, ◌==◌, if◌then◌else◌}
use rotary_os.Cpuid.{Leaf, Leaves, cpuid_init, get_cpuid, cpuid_check_apic, cpuid_check_x2apic}

abbrev nothing : Leaf
nothing = record { eax = 0; ebx = 0; ecx = 0; edx = 0 }

-- A processor with an x2APIC and without an APIC.
abbrev features : Leaf
features = record { eax = 0; ebx = 0; ecx = 0x200000; edx = 0 }

abbrev start : Leaves
start = record { leaf0 = nothing; leaf1 = nothing; leaf2 = nothing; leaf3 = nothing }

abbrev processor : ℕ → Option Leaf
processor n = if n == 1 then some features else none

cpuid_runs :
    ((cpuid_init processor start).1.leaf1.ecx ≡ 0x200000)
    × (cpuid_check_x2apic (cpuid_init processor start).1 ≡ 0)
    × (cpuid_check_apic (cpuid_init processor start).1 ≡ 0)
unfolding cpuid_init get_cpuid cpuid_check_x2apic cpuid_check_apic
cpuid_runs = (refl, refl, refl)
