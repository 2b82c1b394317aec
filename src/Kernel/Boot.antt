-- ===== src/Kernel/Boot.antt =====
-- What `kernel_main` of kernel/main.c leaves when it has set up everything.
use rotary_os.Base.{
  ◌≢◌, ℕ, zero, suc, ◌+◌, ◌-◌, ◌≡◌, refl, ap, arith, true, false, ◌==◌, add32, some, List,
}
use mathlib.Core.Path.{◌∙◌, subst}
use rotary_os.Heap.{heap_max_size}
use rotary_os.Heap.Fresh.{kmalloc_fresh}
use rotary_os.Pmm.{align_4k}
use rotary_os.Multiboot.Map.{Region}
use rotary_os.Paging.{kernel_base}
use rotary_os.Vmm.Frames.{IsTaken}
use rotary_os.Vmm.Init.{heap_of}
use rotary_os.Task.{
  state_running, state_empty, state_waiting, task_kernel, kmalloc_fail, set_up_task, task_directory,
  unlock,
}
use rotary_os.Task.Create.{IsCreated, create_with, finished, finished-IsCreated}
use rotary_os.Kernel.{Platform, Machine, done, set_system, kernel_main, start_shell, system_of}
use rotary_os.Kernel.Loaded.{IsLoaded, frames_at}
use rotary_os.Kernel.Ready.{IsWired, IsReady, run_actions-IsReady}

-- The kernel is up: beside `IsWired`, the kernel's directory is loaded, which stands on the first frame behind
-- the kernel, and 258 frames are in use; the scheduler is ready; task 0 runs, and task 1, the shell, waits
-- with a stack at the end of the heap; the lock is free.
pub record IsUp (p : Platform) (r : Region) (m : Machine) : Type 0 where
  pub wired : IsWired p m
  pub loaded : m.vmm.cr3 ≡ align_4k p.kernel_phys_end
  pub kernel_pd : m.vmm.vmm_kernel_pd ≡ kernel_base + align_4k p.kernel_phys_end
  pub frames : IsTaken (frames_at p r) 258 m.vmm.pmm
  pub scheduler : m.scheduler_ready ≡ true
  pub current : m.current_task ≡ 0
  pub idle : ((m.tasks 0).id ≡ 0) × ((m.tasks 0).state ≡ state_running)
  pub shell : ((m.tasks 1).id ≡ 1) × ((m.tasks 1).state ≡ state_waiting)
  pub stack : (m.tasks 1).stack_frame ≡ m.vmm.heap_start_vaddr + 16 + (heap_max_size - 8192)
  pub empty : (j : ℕ) → j ≢ 0 → j ≢ 1 → (m.tasks j).state ≡ state_empty
  pub next_task : m.last_task_id ≡ 2
  pub unlocked : m.task_lock ≡ false

-- The shell's task is created.
shell-IsUp :
    (fuel : ℕ) (p : Platform) (r : Region) (m : Machine)
    → IsReady p r m
    → (m' : Machine) × (start_shell (suc (suc fuel)) p m ≡ some m') × IsUp p r m'
unfolding set_up_task task_directory unlock start_shell
shell-IsUp fuel p r m h =
    let (h', q, start, tiles) =
      kmalloc_fresh (heap_of m.vmm) heap_max_size (m.vmm.heap_start_vaddr + 24 + heap_max_size)
        h.memory.heap (suc (suc fuel)) 8192 (omega arith) (omega arith) (omega arith) in
    let stack = m.vmm.heap_start_vaddr + 16 + (heap_max_size - 8192) in
    let below = h.memory.heap.below in
    let live : (stack == kmalloc_fail) ≡ false = ground arith in
    let s =
      finished (system_of m) p.shell_name h' task_kernel stack p.shell_init p.isr_exit
        state_waiting in
    let made : IsCreated (system_of m) stack state_waiting s =
      finished-IsCreated (system_of m) p.shell_name h' task_kernel stack p.shell_init p.isr_exit
        state_waiting in
    let answer =
      create_with (suc fuel) (system_of m) p.shell_name task_kernel p.shell_init p.isr_exit
        state_waiting stack h' refl h.unlocked q in
    (
      set_system m s,
      rw (answer, live, start_shell) refl,
      record {
        wired = record {
          segments = h.wired.segments;
          gates = h.wired.gates;
          table = h.wired.table;
          timer_handler = h.wired.timer_handler;
          keyboard_handler = h.wired.keyboard_handler;
          enabled = h.wired.enabled;
        };
        loaded = h.memory.loaded;
        kernel_pd = h.memory.kernel_pd;
        frames = h.memory.frames;
        scheduler = h.scheduler;
        current = h.current;
        idle =
            let same = made.others 0 λ e. omega (arith, e, h.next_task) in
            (ap (λ t. t.id) same ∙ h.idle.0, ap (λ t. t.state) same ∙ h.idle.1);
        empty = λ j a b. ap (λ t. t.state) (made.others j λ e. b (e ∙ h.next_task)) ∙ h.empty j a;
        shell = (
          subst (λ i. (s.tasks i).id ≡ i) h.next_task made.id,
          subst (λ i. (s.tasks i).state ≡ state_waiting) h.next_task made.started,
        );
        stack = subst (λ i. (s.tasks i).stack_frame ≡ stack) h.next_task made.stack_frame;
        next_task = made.next ∙ ap (λ n. add32 n 1) h.next_task;
        unlocked = made.released;
      },
    )

-- `kernel_main` ends in its last loop, with the magic number of the boot loader, with a map in memory whose last
-- available region that holds the end of the kernel has 288 pages behind it, for a kernel whose end lies below 2^30 -
-- 2^22 in physical memory and `kernel_base` higher in its own view, on a processor with page size extensions, with
-- the interrupt routines and the task state segment below 4 GiB, with the frames, the next task and the lock of the
-- tasks as in the image, with no task yet, and with fuel for 2 rounds and for more than the regions. Then the segments are flat, the
-- gates from 0 to 47 lead to their routines, the timer and the keyboard have handlers, interrupts are on, the
-- kernel's directory is loaded and stands on the first frame behind the kernel, the first 258 frames and no
-- others are in use, task 0 runs, task 1, the shell, waits with a stack of 8192 bytes at the end of the heap, and the
-- lock is free.
pub kernel_main-IsUp :
    (fuel : ℕ) (p : Platform) (info : ℕ) (m : Machine) (rs : List Region) (r : Region)
    → IsLoaded fuel p info m rs r
    → (m' : Machine) × (kernel_main fuel p 0x2BADB002 info m ≡ some (done m')) × IsUp p r m'
unfolding kernel_main
kernel_main-IsUp zero p info m rs r h = let two = h.two in absurd (omega arith)
kernel_main-IsUp (suc zero) p info m rs r h = let two = h.two in absurd (omega arith)
kernel_main-IsUp (suc (suc fuel)) p info m rs r h =
    let (m₁, ran, ready) = run_actions-IsReady (suc (suc fuel)) p info m rs r h in
    let (m₂, shell, up) = shell-IsUp fuel p r m₁ ready in
    (m₂, rw (ran, shell, kernel_main) refl, up)
