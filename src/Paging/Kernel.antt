-- ===== src/Paging/Kernel.antt =====
-- `paging_init_directory` of arch/x86/kernel/paging.c and `vmm_map_kernel` of kernel/vmm.c: the
-- entries that they leave.
use rotary_os.Base.{
  ℕ, zero, suc, ◌+◌, ◌*◌, ◌/◌, ◌%◌, ◌^◌, ◌≤◌, ◌<◌, ◌≡◌, ◌≢◌, refl, ap, sym, arith, true, false,
  ◌==◌, update, update_same, update_other, add32, bit_and,
}
use mathlib.Core.Path.{◌∙◌}
use rotary_os.Base.Bits.{bit, bit_and-low_mask, bit_and-mask}
use rotary_os.Heap.{Mem}
use rotary_os.Paging.{
  entry_at, kernel_entry, set_flags, map_entries, init_entries, vmm_map_kernel,
  paging_init_directory, cpuid_check_pse,
}

-- The address of an entry of a directory that does not wrap.
entry_plain : (pd i : ℕ) → i < 1024 → pd + 4096 ≤ 2 ^ 32 → entry_at pd i ≡ pd + i * 4
entry_plain pd i b h = omega arith

module _ (pd : ℕ) (fits : pd + 4096 ≤ 2 ^ 32) where
  entries_differ : (i j : ℕ) → i < j → j < 1024 → entry_at pd j ≢ entry_at pd i
  entries_differ i j l b = omega (arith, entry_plain pd i, entry_plain pd j, fits)

  map_entries_before :
      (n : ℕ) (m : Mem) (i current_addr k : ℕ)
      → i + n ≤ 1024
      → k < i
      → map_entries n m pd i current_addr (entry_at pd k) ≡ m (entry_at pd k)
  unfolding map_entries
  map_entries_before zero m i c k b l = refl
  map_entries_before (suc n) m i c k b l =
      map_entries_before n (update m (entry_at pd i) (kernel_entry (m (entry_at pd i)) c)) (i + 1)
        (add32 c (4096 * 1024)) k (omega arith) (omega arith)
      ∙ update_other m (entry_at pd i) (entry_at pd k) (kernel_entry (m (entry_at pd i)) c)
          λ e. entries_differ k i l (omega arith) (sym e)

  map_entries_at :
      (n : ℕ) (m : Mem) (i current_addr k j a : ℕ)
      → i + n ≤ 1024
      → current_addr + n * 2 ^ 22 ≤ 2 ^ 31
      → k < n
      → i + k ≡ j
      → current_addr + k * 2 ^ 22 ≡ a
      → map_entries n m pd i current_addr (entry_at pd j) ≡ kernel_entry (m (entry_at pd j)) a
  unfolding map_entries
  map_entries_at zero m i c k j a b u l e q = absurd (omega arith)
  map_entries_at (suc n) m i c zero j a b u l e q =
      let here : j ≡ i = omega arith in
      let addr : a ≡ c = omega arith in
      let written = kernel_entry (m (entry_at pd i)) c in
      rw (here, addr)
        (map_entries_before n (update m (entry_at pd i) written) (i + 1) (add32 c (4096 * 1024)) i
            (omega arith) (omega arith)
          ∙ update_same m (entry_at pd i) written)
  map_entries_at (suc n) m i c (suc k) j a b u l e q =
      let written = kernel_entry (m (entry_at pd i)) c in
      map_entries_at n (update m (entry_at pd i) written) (i + 1) (add32 c (4096 * 1024)) k j a
        (omega arith) (omega arith) (omega arith) (omega arith) (omega arith)
      ∙ ap (λ w. kernel_entry w a)
          (update_other m (entry_at pd i) (entry_at pd j) written
            (entries_differ i j (omega arith) (omega arith)))

  init_entries_before :
      (n : ℕ) (m : Mem) (i k : ℕ)
      → i + n ≤ 1024
      → k < i
      → init_entries n m pd i (entry_at pd k) ≡ m (entry_at pd k)
  unfolding init_entries
  init_entries_before zero m i k b l = refl
  init_entries_before (suc n) m i k b l =
      let written = set_flags (m (entry_at pd i)) 0 1 0 in
      init_entries_before n (update m (entry_at pd i) written) (i + 1) k (omega arith) (omega arith)
      ∙ update_other m (entry_at pd i) (entry_at pd k) written
          λ e. entries_differ k i l (omega arith) (sym e)

  init_entries_at :
      (n : ℕ) (m : Mem) (i k j : ℕ)
      → i + n ≤ 1024
      → k < n
      → i + k ≡ j
      → init_entries n m pd i (entry_at pd j) ≡ set_flags (m (entry_at pd j)) 0 1 0
  unfolding init_entries
  init_entries_at zero m i k j b l e = absurd (omega arith)
  init_entries_at (suc n) m i zero j b l e =
      let here : j ≡ i = omega arith in
      let written = set_flags (m (entry_at pd i)) 0 1 0 in
      rw here (
        init_entries_before n (update m (entry_at pd i) written) (i + 1) i (omega arith)
          (omega arith)
        ∙ update_same m (entry_at pd i) written)
  init_entries_at (suc n) m i (suc k) j b l e =
      let written = set_flags (m (entry_at pd i)) 0 1 0 in
      init_entries_at n (update m (entry_at pd i) written) (i + 1) k j (omega arith) (omega arith)
        (omega arith)
      ∙ ap (λ w. set_flags w 0 1 0)
          (update_other m (entry_at pd i) (entry_at pd j) written
            (entries_differ i j (omega arith) (omega arith)))

-- The fields of an entry, as the processor reads them.
pub record IsEntry (w present writable user page_size address : ℕ) : Type 0 where
  pub present_bit : w % 2 ≡ present
  pub writable_bit : w / 2 % 2 ≡ writable
  pub user_bit : w / 4 % 2 ≡ user
  pub size_bit : w / 128 % 2 ≡ page_size
  pub frame : w / 4096 * 4096 ≡ address

kernel_entry-IsEntry :
    (w k : ℕ) → k < 256 → IsEntry (kernel_entry w (k * 2 ^ 22)) 1 1 0 1 (k * 2 ^ 22)
kernel_entry-IsEntry w k b = record {
  present_bit = omega arith;
  writable_bit = omega arith;
  user_bit = omega arith;
  size_bit = omega arith;
  frame = omega arith;
}

-- What a task's own directory maps: below 768 no page, from there on the kernel's half, page
-- by page the first GiB of physical memory.
pub record IsTaskDirectory (m : Mem) (pd : ℕ) : Type 0 where
  pub user_half : (j : ℕ) → j < 768 → m (entry_at pd j) % 2 ≡ 0
  pub kernel_half : (k : ℕ) → k < 256 → IsEntry (m (entry_at pd (768 + k))) 1 1 0 1 (k * 2 ^ 22)

module _ (leaf1_edx : ℕ) (m : Mem) (pd : ℕ) where
  init_directory-memory : pd % 4096 ≡ 0 → (paging_init_directory m pd).1 ≡ init_entries 1024 m pd 0
  unfolding paging_init_directory
  init_directory-memory a =
      let low : bit_and pd 0xfff ≡ pd % 4096 = bit_and-low_mask 12 pd in
      let aligned : (bit_and pd 0xfff == 0) ≡ true = ground (arith, low, a) in rw aligned refl

  map_kernel-memory :
      bit leaf1_edx 3 ≡ 1 → (vmm_map_kernel leaf1_edx m pd).1 ≡ map_entries 256 m pd 768 0
  unfolding vmm_map_kernel cpuid_check_pse
  map_kernel-memory p =
      let mask : bit_and leaf1_edx 8 ≡ bit leaf1_edx 3 * 8 =
        bit_and-mask leaf1_edx 3 (omega arith) in
      let feature : (bit_and leaf1_edx 8 == 0) ≡ false = ground (arith, mask, p) in rw feature refl

-- With page size extensions, the directory of a new task, which stands on a page of its own,
-- maps nothing below the kernel's half, and in that half the first GiB of physical memory by
-- pages of 4 MiB that are writable and closed to user code, whatever the memory held before.
pub map_kernel-IsTaskDirectory :
    (leaf1_edx : ℕ) (m : Mem) (pd : ℕ)
    → pd + 4096 ≤ 2 ^ 32
    → pd % 4096 ≡ 0
    → bit leaf1_edx 3 ≡ 1
    → IsTaskDirectory (vmm_map_kernel leaf1_edx (paging_init_directory m pd).1 pd).1 pd
map_kernel-IsTaskDirectory leaf1_edx m pd fits a p =
    rw
      (
        map_kernel-memory leaf1_edx (paging_init_directory m pd).1 pd p,
        init_directory-memory leaf1_edx m pd a,
      )
      (record {
        user_half = λ j b.
            let one = map_entries_before pd fits 256 m₁ 768 0 j (omega arith) b in
            let two =
              init_entries_at pd fits 1024 m 0 j j (omega arith) (omega arith) (omega arith) in
            rw (one ∙ two) (omega arith);
        kernel_half = λ k b.
            let one =
              map_entries_at pd fits 256 m₁ 768 0 k (768 + k) (k * 2 ^ 22) (omega arith)
                (omega arith) b refl (omega arith) in
            rw one (kernel_entry-IsEntry (m₁ (entry_at pd (768 + k))) k b);
      })
  where
    m₁ : Mem
    m₁ = init_entries 1024 m pd 0
