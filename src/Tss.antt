-- ===== src/Tss.antt =====
-- The task state segment of arch/x86/kernel/tss.c: the stack that the processor takes in the kernel.
use rotary_os.Base.{ℕ, ◌%◌, ◌^◌}

-- The two fields that the code writes; `ss0` has 16 bits.
pub record Tss : Type 0 where
  pub esp0 : ℕ
  pub ss0 : ℕ

pub tss_set_esp0 : Tss → (esp0 : ℕ) → ℕ × Tss
tss_set_esp0 task_state esp0 = (1, record task_state { esp0 = esp0 })

pub tss_set_ss0 : Tss → (ss0 : ℕ) → ℕ × Tss
tss_set_ss0 task_state ss0 = (1, record task_state { ss0 = ss0 % 2 ^ 16 })
