-- ===== src/Kernel/Errors.antt =====
-- Where `kernel_main` of kernel/main.c returns.
use rotary_os.Base.{ℕ, ◌≡◌, ◌≢◌, refl, Option, none, some, [], ◌∷◌, ◌++◌}
use mathlib.Core.Path.{◌∙◌}
use mathlib.Core.List.{append_assoc}
use rotary_os.Pmm.{Pmm, init}
use rotary_os.Serial.{serial_init}
use rotary_os.Timer.{timer_init}
use rotary_os.Pic.{pic_init}
use rotary_os.Keyboard.{driver_keyboard_init}
use rotary_os.Cpuid.{cpuid_init}
use rotary_os.Interrupts.{idt_init}
use rotary_os.Multiboot.Map.{multiboot_parse}
use rotary_os.Multiboot.Map.Parse.{multiboot_parse_answer, multiboot_parse_refused}
use rotary_os.Vmm.{vmm_init}
use rotary_os.Vmm.Init.{vmm_init_answer}
use rotary_os.Kernel.Passes.{Passes, run_actions-Passes, one_passes}
use rotary_os.Kernel.Runs.{Halts, quiet, passes, stops, run_actions-Halts}
use rotary_os.Kernel.{
  start_screen, start_serial, print_banner, start_multiboot, start_cpuid, start_gdt, start_idt,
  load_idt, start_pic, start_timer, start_keyboard, enable_hardware_interrupts, start_pmm,
  start_vmm, start_tasks, Platform, Machine, Outcome, done, returned, starts, fails, works,
  serial_ports, multiboot_structs, run_actions, actions, kernel_main, start_shell, system_of,
}

module _ (fuel : ℕ) (p : Platform) (mboot_info : ℕ) where
  start_vmm_answer :
      (m : Machine) (result : ℕ) (m' : Machine)
      → start_vmm fuel p m ≡ some (result, m')
      → result ≢ 0
  unfolding start_vmm
  start_vmm_answer m result m' e z =
      let same : (vmm_init p.kernel_virt_end (m.leaves.leaf1.edx) m.vmm).0 ≡ result = cc in
      vmm_init_answer p.kernel_virt_end (m.leaves.leaf1.edx) m.vmm (same ∙ z)

  start_multiboot_answer :
      (m : Machine) (result : ℕ) (m' : Machine)
      → start_multiboot fuel p 0x2BADB002 mboot_info m ≡ some (result, m')
      → result ≢ 0
  unfolding start_multiboot
  start_multiboot_answer m result m' =
      go (multiboot_parse fuel m.vmm.mem p.kernel_phys_end 0x2BADB002 mboot_info m.vmm.pmm) refl
    where
      go :
          (o : Option (ℕ × Pmm))
          → multiboot_parse fuel m.vmm.mem p.kernel_phys_end 0x2BADB002 mboot_info m.vmm.pmm ≡ o
          → ◌≡◌ {A = Option (ℕ × Machine)}
              (elim o [
                | none ↦ none
                | some (answer, frames) ↦
                    some (answer, record m { vmm = record (m.vmm) { pmm = frames } })
              ])
              (some (result, m'))
          → result ≢ 0
      go none q e z = absurd cc
      go (some (answer, frames)) q e z =
          let same : answer ≡ result = cc in
          multiboot_parse_answer fuel m.vmm.mem p.kernel_phys_end mboot_info m.vmm.pmm answer frames
            q (same ∙ z)

  actions-Passes : Passes (actions fuel p 0x2BADB002 mboot_info)
  unfolding actions start_serial start_cpuid start_gdt start_idt load_idt start_pic start_timer
      start_keyboard enable_hardware_interrupts start_pmm start_tasks cpuid_init serial_init
      idt_init timer_init pic_init driver_keyboard_init init
  actions-Passes = (
    one_passes _,
    (
      start_multiboot_answer,
      (
        one_passes _,
        (
          one_passes _,
          (
            one_passes _,
            (
              one_passes _,
              (
                one_passes _,
                (
                  one_passes _,
                  (
                    one_passes _,
                    (one_passes _, (one_passes _, (start_vmm_answer, (one_passes _, tt)))),
                  ),
                ),
              ),
            ),
          ),
        ),
      ),
    ),
  )

  kernel_main_stays :
      (m m' : Machine) → kernel_main fuel p 0x2BADB002 mboot_info m ≢ some (returned m')
  unfolding kernel_main
  kernel_main_stays m m' =
      go (run_actions (actions fuel p 0x2BADB002 mboot_info) m)
        λ n. run_actions-Passes (actions fuel p 0x2BADB002 mboot_info) m n actions-Passes
    where
      last :
          (o : Option Machine)
          → (elim o [ none ↦ none | some m₂ ↦ some (done m₂) ]) ≢ some (returned m')
      last none e = absurd cc
      last (some m₂) e = absurd cc

      go :
          (o : Option Outcome)
          → ((n : Machine) → o ≢ some (returned n))
          → (elim o [
            | none ↦ none
            | some (returned m₁) ↦ some (returned m₁)
            | some (done m₁) ↦ elim (start_shell fuel p m₁) [
              | none ↦ none
              | some m₂ ↦ some (done m₂)
            ]
          ])
            ≢ some (returned m')
      go none h e = absurd cc
      go (some (returned m₁)) h e = h m₁ refl
      go (some (done m₁)) h e = last (start_shell fuel p m₁) e

-- The machine behind a refusal of `multiboot_parse`: the serial ports, the screen and what was printed.
pub record IsUntouched (m m' : Machine) : Type 0 where
  pub memory : m'.vmm ≡ m.vmm
  pub gates : m'.idt ≡ m.idt
  pub handlers : m'.interrupt_handlers ≡ m.interrupt_handlers
  pub interrupts : m'.interrupts_enabled ≡ m.interrupts_enabled
  pub tasks : system_of m' ≡ system_of m
  pub reports :
      m'.reports
      ≡ m.reports
        ++ (starts serial_ports
            ∷ works serial_ports
            ∷ starts multiboot_structs
            ∷ fails multiboot_structs
            ∷ [])

start_multiboot_refused :
    (fuel : ℕ) (p : Platform) (mboot_magic mboot_info : ℕ) (m : Machine)
    → mboot_magic ≢ 0x2BADB002
    → start_multiboot fuel p mboot_magic mboot_info m ≡ some (0, m)
unfolding start_multiboot
start_multiboot_refused fuel p mboot_magic mboot_info m h =
    rw
      (
        multiboot_parse_refused fuel m.vmm.mem p.kernel_phys_end mboot_magic mboot_info m.vmm.pmm h,
        start_multiboot,
      )
      refl

module _ (fuel : ℕ) (p : Platform) (mboot_magic mboot_info : ℕ) (m : Machine)
    (h : mboot_magic ≢ 0x2BADB002) where
  refused : Halts (IsUntouched m) (actions fuel p mboot_magic mboot_info) m
  unfolding actions start_screen start_serial print_banner serial_init
  refused = quiet (
      passes _ refl refl (
        quiet (
          stops _ (start_multiboot_refused fuel p mboot_magic mboot_info _ h) record {
            memory = refl;
            gates = refl;
            handlers = refl;
            interrupts = refl;
            tasks = refl;
            reports = simp append_assoc;
          })))

  kernel_main_refuses :
      (m' : Machine) × (kernel_main fuel p mboot_magic mboot_info m ≡ some (returned m'))
      × IsUntouched m m'
  unfolding kernel_main
  kernel_main_refuses =
      let (m', ran, same) = run_actions-Halts refused in (m', rw (ran, kernel_main) refl, same)

-- With a wrong magic number `kernel_main` returns. It has then reported that the Multiboot structures failed,
-- and has touched nothing but the screen, the serial ports and their flag: no gate, no handler, no frame, no task, and
-- interrupts are as they were. With the right number it never returns, on the same machine and from
-- the same address.
pub kernel_main_returned :
    (fuel : ℕ) (p : Platform) (mboot_magic mboot_info : ℕ) (m : Machine)
    → mboot_magic ≢ 0x2BADB002
    → ((m' : Machine) × (kernel_main fuel p mboot_magic mboot_info m ≡ some (returned m'))
        × IsUntouched m m')
      × ((m' : Machine) → kernel_main fuel p 0x2BADB002 mboot_info m ≢ some (returned m'))
kernel_main_returned fuel p mboot_magic mboot_info m h =
    (kernel_main_refuses fuel p mboot_magic mboot_info m h, kernel_main_stays fuel p mboot_info m)
