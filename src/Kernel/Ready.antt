-- ===== src/Kernel/Ready.antt =====
-- The calls of `kernel_main` (kernel/main.c) in front of the shell, when all of them work.
use rotary_os.Base.{
  ◌≢◌, update_other, ℕ, zero, suc, ◌<◌, ◌≡◌, refl, sym, arith, true, false, some, List,
}
use mathlib.Core.Path.{ap, ◌∙◌, subst}
use rotary_os.Pmm.{init}
use rotary_os.Serial.{serial_init}
use rotary_os.Timer.{timer_init}
use rotary_os.Pic.{pic_init}
use rotary_os.Keyboard.{driver_keyboard_init}
use rotary_os.Interrupts.{idt_init}
use rotary_os.Pmm.{Pmm, align_4k}
use rotary_os.Multiboot.Map.{Region, multiboot_parse}
use rotary_os.Multiboot.Map.Parse.{multiboot_parse_lem}
use rotary_os.Cpuid.{Leaf, cpuid_init, get_cpuid}
use rotary_os.Gdt.Table.{IsFlat, gdt_init-IsFlat}
use rotary_os.Interrupts.Idt.{IsGate, idt_init-IsGate}
use rotary_os.Vmm.{Vmm, vmm_init}
use rotary_os.Vmm.Init.{IsStarted, vmm_init-IsStarted}
use rotary_os.Task.{state_running, state_empty, strncpy, task_init}
use rotary_os.Kernel.{
  start_screen, start_serial, print_banner, start_multiboot, start_cpuid, start_gdt, start_idt,
  load_idt, start_pic, start_timer, start_keyboard, enable_hardware_interrupts, start_pmm,
  start_vmm, start_tasks, Platform, Machine, done, run_actions, actions,
}
use rotary_os.Kernel.Loaded.{IsLoaded, frames_at, frames_at-IsFilled}
use rotary_os.Kernel.Runs.{Leads, quiet, passes, ends, run_actions-Leads}

-- The segments are flat, the gates of the interrupts lead to their routines, the timer and the keyboard have handlers, and interrupts
-- are on.
pub record IsWired (p : Platform) (m : Machine) : Type 0 where
  pub segments : IsFlat (m.gdt) p.gdt_address p.tss_address p.tss_size
  pub gates : (j : ℕ) → j < 48 → IsGate (m.idt j) (p.isr j)
  pub table : (m.idt_ptr.base ≡ p.idt_address) × (m.idt_ptr.limit ≡ 2047)
  pub timer_handler : m.interrupt_handlers 32 ≡ p.timer_tick
  pub keyboard_handler : m.interrupt_handlers 33 ≡ p.keyboard_isr
  pub enabled : m.interrupts_enabled ≡ true

-- All calls in front of the shell are done.
pub record IsReady (p : Platform) (r : Region) (m : Machine) : Type 0 where
  pub wired : IsWired p m
  pub memory : IsStarted (align_4k p.kernel_phys_end) (frames_at p r) (1, m.vmm)
  pub scheduler : m.scheduler_ready ≡ true
  pub current : m.current_task ≡ 0
  pub idle : ((m.tasks 0).id ≡ 0) × ((m.tasks 0).state ≡ state_running)
  pub empty : (j : ℕ) → j ≢ 0 → (m.tasks j).state ≡ state_empty
  pub next_task : m.last_task_id ≡ 1
  pub unlocked : m.task_lock ≡ false

start_multiboot_lem :
    (fuel : ℕ) (p : Platform) (mboot_magic info : ℕ) (m : Machine) (s : Pmm)
    → multiboot_parse fuel m.vmm.mem p.kernel_phys_end mboot_magic info m.vmm.pmm ≡ some (1, s)
    → start_multiboot fuel p mboot_magic info m
      ≡ some (1, record m { vmm = record (m.vmm) { pmm = s } })
unfolding start_multiboot
start_multiboot_lem fuel p mboot_magic info m s e = rw (e, start_multiboot) refl

module _ (fuel : ℕ) (p : Platform) (info : ℕ) (m : Machine) (rs : List Region) (r : Region)
    (h : IsLoaded (suc fuel) p info m rs r) where
  parsed :
      multiboot_parse (suc fuel) m.vmm.mem p.kernel_phys_end 0x2BADB002 info m.vmm.pmm
      ≡ some (1, frames_at p r)
  parsed =
      multiboot_parse_lem (suc fuel) m.vmm.mem p.kernel_phys_end info rs m.vmm.pmm h.map_flag
        h.regions h.enough
      ∙ rw (h.holds, h.frames) refl

  before : Vmm
  before = record (m.vmm) { pmm = frames_at p r }

  started :
      IsStarted
        (align_4k p.kernel_phys_end)
        (frames_at p r)
        (vmm_init p.kernel_virt_end (h.leaf.edx) before)
  unfolding before
  started =
      let (filled, max, start) = frames_at-IsFilled (suc fuel) p info m rs r h in
      subst
        (λ e.
          IsStarted (align_4k p.kernel_phys_end) (frames_at p r) (vmm_init e (h.leaf.edx) before))
        (sym h.linked)
        (vmm_init-IsStarted p.kernel_phys_end (h.leaf.edx) before h.small start filled
          (omega (arith, max)) h.pages)

  edx : (l : Leaf) → (get_cpuid p.cpuid 1 l).edx ≡ h.leaf.edx
  unfolding get_cpuid
  edx l = rw (h.reported, get_cpuid) refl

  booted : Leads (IsReady p r) (actions (suc fuel) p 0x2BADB002 info) m
  unfolding actions start_screen start_serial print_banner start_cpuid start_gdt start_idt load_idt
      start_pic start_timer start_keyboard enable_hardware_interrupts start_pmm start_vmm
      start_tasks cpuid_init serial_init idt_init timer_init pic_init driver_keyboard_init init
      before task_init
  booted = quiet (
      passes _ refl refl (
        quiet (
          passes _ (start_multiboot_lem (suc fuel) p 0x2BADB002 info _ (frames_at p r) parsed) refl
            (passes _ refl refl (
              passes _ refl refl (
                passes _ refl refl (
                  passes _ refl refl (
                    passes _ refl refl (
                      passes _ refl refl (
                        passes _ refl refl (
                          passes _ refl refl (
                            passes _ refl refl (
                              passes _ refl (rw (edx m.leaves.leaf1, started.result) refl) (
                                passes _ refl refl (
                                  quiet (
                                    ends record {
                                      wired = record {
                                        segments =
                                            gdt_init-IsFlat p.gdt_address p.tss_address p.tss_size
                                              h.segment;
                                        gates = (idt_init-IsGate m.idt p.isr h.routines).0;
                                        table = (refl, refl);
                                        timer_handler = refl;
                                        keyboard_handler = refl;
                                        enabled = refl;
                                      };
                                      memory = state;
                                      scheduler = refl;
                                      current = refl;
                                      idle = (ap (λ t. t.id) (h.no_tasks 0), refl);
                                      empty = λ j ne.
                                          ap (λ t. t.state)
                                            (update_other m.tasks 0 j
                                                (record (m.tasks 0) {
                                                  state = state_running;
                                                  name = strncpy (m.tasks 0).name p.idle_name 16;
                                                })
                                                ne
                                              ∙ h.no_tasks j);
                                      next_task = h.next_task;
                                      unlocked = h.unlocked;
                                    }))))))))))))))))
    where
      vmm : ℕ × Vmm
      vmm = vmm_init p.kernel_virt_end ((get_cpuid p.cpuid 1 m.leaves.leaf1).edx) before

      memory : IsStarted (align_4k p.kernel_phys_end) (frames_at p r) vmm
      memory = rw (edx m.leaves.leaf1) started

      state : IsStarted (align_4k p.kernel_phys_end) (frames_at p r) (1, vmm.1)
      state =
          subst (λ a. IsStarted (align_4k p.kernel_phys_end) (frames_at p r) (a, vmm.1))
            memory.result memory

-- All calls in front of the shell work.
pub run_actions-IsReady :
    (fuel : ℕ) (p : Platform) (info : ℕ) (m : Machine) (rs : List Region) (r : Region)
    → IsLoaded fuel p info m rs r
    → (m' : Machine) × (run_actions (actions fuel p 0x2BADB002 info) m ≡ some (done m'))
      × IsReady p r m'
run_actions-IsReady zero p info m rs r h = let two = h.two in absurd (omega arith)
run_actions-IsReady (suc fuel) p info m rs r h = run_actions-Leads (booted fuel p info m rs r h)
