-- ===== src/Paging/Map/Range.antt =====
-- The range of pages that `paging_map` of arch/x86/kernel/paging.c maps.
use rotary_os.Base.{ℕ, ◌+◌, ◌-◌, ◌*◌, ◌/◌, ◌^◌, ◌≤◌, ◌<◌, ◌≡◌, ◌⊎◌, arith, some, add32}
use rotary_os.Base.Bits.{bit_and-low_mask, bit_and-high_mask}
use rotary_os.Heap.{Mem}
use rotary_os.Pmm.{Pmm}
use rotary_os.Paging.Map.{align_up_4k}
use rotary_os.Paging.Map.Walk.{walk}
use rotary_os.Paging.Map.Tree.{IsTree}

-- The `n` pages from `v` on lead to those from `p` on, and all other addresses to what they did.
pub record IsMapped (m : Mem) (pd v p n : ℕ) (r : Mem × Pmm) : Type 0 where
  pub tree : IsTree (r.0) (r.1) pd
  pub mapped : (i : ℕ) → i < n * 4096 → walk (r.0) pd (v + i) ≡ some (p + i)
  pub others : (u : ℕ) → u < 2 ^ 32 → (u < v) ⊎ (v + n * 4096 ≤ u) → walk (r.0) pd u ≡ walk m pd u

pub align_up_exact : (n : ℕ) → n ≤ 1024 → align_up_4k (n * 4096) / 4096 ≡ n
align_up_exact n h =
    let high = bit_and-high_mask 12 (n * 4096 + 4095) (2 ^ 20 - 1) in
    let low = bit_and-low_mask 20 ((n * 4096 + 4095) / 4096) in
    let sum : add32 (n * 4096) 4095 ≡ n * 4096 + 4095 = omega arith in
    rw sum (omega (arith, high, low))
