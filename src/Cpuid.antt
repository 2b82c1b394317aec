-- ===== src/Cpuid.antt =====
-- What CPUID reports, as arch/x86/kernel/cpuid.c reads it. The instruction is a parameter.
mod Tests
use rotary_os.Base.{ℕ, ◌^◌, Option, none, some, bit_and, shr, List, [], ◌∷◌}
use rotary_os.Strings.{Bytes}
use rotary_os.Strings.Format.{sprintf}

-- The four registers that one leaf fills.
pub record Leaf : Type 0 where
  pub eax : ℕ
  pub ebx : ℕ
  pub ecx : ℕ
  pub edx : ℕ

-- The globals `leaf0_eax` to `leaf3_edx`.
pub record Leaves : Type 0 where
  pub leaf0 : Leaf
  pub leaf1 : Leaf
  pub leaf2 : Leaf
  pub leaf3 : Leaf

-- `cpuid` is `__get_cpuid` of the compiler, which leaves the registers as they were for a leaf that the
-- processor does not have.
unfoldable pub get_cpuid : (cpuid : ℕ → Option Leaf) → (leaf : ℕ) → Leaf → Leaf
get_cpuid cpuid leaf before = elim (cpuid leaf) [ none ↦ before | some r ↦ r ]

unfoldable pub cpuid_init : (cpuid : ℕ → Option Leaf) → Leaves → ℕ × Leaves
cpuid_init cpuid s = (
  1,
  record {
    leaf0 = get_cpuid cpuid 0 s.leaf0;
    leaf1 = get_cpuid cpuid 1 s.leaf1;
    leaf2 = get_cpuid cpuid 2 s.leaf2;
    leaf3 = get_cpuid cpuid 3 s.leaf3;
  },
)

-- The four bytes of a register, the lowest first.
abbrev pub bytes_of : (register : ℕ) → List ℕ → List ℕ
bytes_of r rest =
    bit_and r 0xff
    ∷ bit_and (shr r 8) 0xff
    ∷ bit_and (shr r 16) 0xff
    ∷ bit_and (shr r 24) 0xff
    ∷ rest

-- `format` is the address of twelve times `%c`, and `leaf` is what CPUID reports for leaf 0.
pub cpuid_get_cpu_name :
    (fuel num : ℕ) → Bytes → (dest_buf format : ℕ) → (leaf : Leaf) → Option Bytes
cpuid_get_cpu_name fuel num m dest_buf format leaf =
    sprintf fuel num m dest_buf format
      (bytes_of leaf.ebx (bytes_of leaf.edx (bytes_of leaf.ecx [])))

pub cpuid_check_apic : Leaves → ℕ
cpuid_check_apic s = bit_and (s.leaf1).edx (2 ^ 9)

-- The feature is one of `ecx`, and the code looks for it in `edx`.
pub cpuid_check_x2apic : Leaves → ℕ
cpuid_check_x2apic s = bit_and (s.leaf1).edx (2 ^ 21)
