-- ===== src/Task/Create/Started.antt =====
-- The new task of `task_create` of kernel/task.c: its stack, its directory, its name.
use rotary_os.Base.{
  ℕ, ◌+◌, ◌-◌, ◌≤◌, ◌<◌, ◌≡◌, ◌≢◌, ◌⊎◌, inl, inr, refl, arith, ◌==◌, if◌then◌else◌, Bool-cases,
}
use rotary_os.Heap.{Mem, Heap}
use rotary_os.Pmm.{alloc_frame}
use rotary_os.Paging.{phy_to_vir, vir_to_phy, paging_init_directory, vmm_map_kernel}
use rotary_os.Task.{Task, System, set_up_task, task_directory, task_kernel, task_max}
use rotary_os.Task.Create.{allocated, finished}

-- The stack below `top`: the words that `task_switch` pops and its return to `isr_exit`, and above them
-- the registers that `isr_exit` restores, with the start of the task, its segment and its flags.
pub record IsStack (m : Mem) (top start_addr isr_exit : ℕ) (m' : Mem) : Type 0 where
  pub returns : m' (top - 56) ≡ isr_exit
  pub starts_at : m' (top - 12) ≡ start_addr
  pub segment : m' (top - 8) ≡ 8
  pub flags : m' (top - 4) ≡ 0x200
  pub cleared :
      (a : ℕ) → top ≤ a + 72 → a + 4 < top → a + 56 ≢ top → a + 12 ≢ top → a + 8 ≢ top → m' a ≡ 0
  pub outside : (a : ℕ) → (a + 72 < top) ⊎ (top ≤ a) → m' a ≡ m a

-- The memory once the directory of the task is set up, in which a user task has a new one.
abbrev pub with_directory : System → (type : ℕ) → Mem → Mem
with_directory s type m =
    let page_directory = phy_to_vir (alloc_frame s.pmm).0 in
    if type == task_kernel
    then m
    else (vmm_map_kernel s.leaf1_edx (paging_init_directory m page_directory).1 page_directory).1

-- How the new task starts: with the stack pointer on a stack as `IsStack` says; with the kernel's directory, or
-- with a new one on a frame that was taken for it; with its name. Nothing was written behind the array.
pub record IsStarted (s : System) (text : ℕ → ℕ) (h : Heap) (type stack start_addr isr_exit : ℕ)
    (s' : System) : Type 0 where
  pub pointer : (s'.tasks s.last_task_id).kernel_esp ≡ stack + 8192 - 72
  pub stack_words :
      IsStack (with_directory s type h.mem) (stack + 8192) start_addr isr_exit s'.heap.mem
  pub cr3 :
      (s'.tasks s.last_task_id).cr3
      ≡ vir_to_phy
          (if type == task_kernel then s.vmm_kernel_pd else phy_to_vir (alloc_frame s.pmm).0)
  pub frames : s'.pmm ≡ (if type == task_kernel then s.pmm else (alloc_frame s.pmm).1)
  pub name : (i : ℕ) → i < 16 → (s'.tasks s.last_task_id).name i ≡ text i
  pub inside : s'.overrun ≡ s.overrun

-- What `task_directory` returns and leaves.
pub record IsDirectory (s : System) (type : ℕ) (r : ℕ × System) : Type 0 where
  pub address :
      r.0
      ≡ vir_to_phy
          (if type == task_kernel then s.vmm_kernel_pd else phy_to_vir (alloc_frame s.pmm).0)
  pub frames : r.1.pmm ≡ (if type == task_kernel then s.pmm else (alloc_frame s.pmm).1)
  pub memory : r.1.heap.mem ≡ with_directory s type s.heap.mem
  pub overrun : r.1.overrun ≡ s.overrun

pub task_directory-IsDirectory :
    (s : System) (type : ℕ) → IsDirectory s type (task_directory s type)
unfolding task_directory
task_directory-IsDirectory s type = elim (Bool-cases (type == 0)) [
  | inl kernel ↦ record {
    address = rw (kernel, task_directory) refl;
    frames = rw (kernel, task_directory) refl;
    memory = rw (kernel, task_directory) refl;
    overrun = rw (kernel, task_directory) refl;
  }
  | inr user ↦ record {
    address = rw (user, task_directory) refl;
    frames = rw (user, task_directory) refl;
    memory = rw (user, task_directory) refl;
    overrun = rw (user, task_directory) refl;
  }
]

module _ (s : System) (name : ℕ → ℕ) (h : Heap) (type stack start_addr isr_exit state : ℕ) where
  pub finished_inside :
      s.last_task_id < task_max
      → (finished s name h type stack start_addr isr_exit state).overrun ≡ s.overrun
  unfolding set_up_task
  finished_inside small =
      let same = (task_directory-IsDirectory (allocated s name h) type).overrun in
      rw same (ground (arith, small))
