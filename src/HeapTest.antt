-- ===== src/HeapTest.antt =====
-- The test of the kernel heap, tests/heap.c, which kernel/test.c runs.
use rotary_os.Base.{
  ℕ, ◌^◌, ◌≤◌, ◌<◌, ◌≡◌, inl, inr, refl, arith, leb, sub32, if◌then◌else◌, Option, none, some,
}
use rotary_os.Heap.{Heap, kmalloc, kfree}
use rotary_os.Heap.Free.{kfree_rejects}

-- `TEST_SUCCESS` and `TEST_FAILURE`
abbrev pub test_success : ℕ
test_success = 1

abbrev pub test_failure : ℕ
test_failure = 0

-- `none` when a walk over the heap outlasts the fuel.
pub test_kmalloc : (fuel : ℕ) → Heap → Option (ℕ × Heap)
test_kmalloc fuel s = elim (kmalloc fuel s 0) [
  | none ↦ none
  | some (retval, s₁) ↦
      if leb 1 retval
      then some (test_failure, s₁)
      else elim (kfree fuel s₁ (sub32 s₁.start_vaddr 256)) [
        | none ↦ none
        | some (kfree_retval, s₂) ↦
            if leb 1 kfree_retval then some (test_failure, s₂) else some (test_success, s₂)
      ]
]

-- The result of `test_kmalloc` is not looked at.
pub test_heap : (fuel : ℕ) → Heap → Option (ℕ × Heap)
test_heap fuel s = elim (test_kmalloc fuel s) [
  | none ↦ none
  | some (result, s₁) ↦ some (test_success, s₁)
]

pub test_init : (fuel : ℕ) → Heap → Option (ℕ × Heap)
test_init fuel s = elim (test_heap fuel s) [
  | none ↦ none
  | some (result, s₁) ↦ some (test_success, s₁)
]

-- On any heap from address 256 on, `test_kmalloc` succeeds and changes nothing, with any fuel.
test_kmalloc_lem :
    (fuel : ℕ) (s : Heap)
    → 256 ≤ s.start_vaddr
    → s.start_vaddr < 2 ^ 32
    → test_kmalloc fuel s ≡ some (test_success, s)
unfolding test_kmalloc kmalloc
test_kmalloc_lem fuel s l h =
    let below : sub32 s.start_vaddr 256 < s.start_vaddr = omega arith in
    let refused = kfree_rejects fuel s (sub32 s.start_vaddr 256) (inr (inl below)) in
    rw (refused, test_kmalloc) refl
