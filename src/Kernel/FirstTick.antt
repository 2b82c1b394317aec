-- ===== src/Kernel/FirstTick.antt =====
-- The first interrupt of the timer behind `kernel_main` (kernel/main.c), which is `timer_tick` of
-- arch/x86/kernel/timer.c.
use rotary_os.Base.{
  ℕ, ◌+◌, ◌%◌, ◌^◌, ◌≤◌, ◌≡◌, ◌≢◌, refl, sym, ap, Bool, arith, inl, inr, leb-cases, true, false,
  some, List,
}
use mathlib.Core.Path.{◌∙◌, subst}
use rotary_os.Multiboot.Map.{Region}
use rotary_os.Task.{System, task_schedule, state_of, is_skipped, count_tick}
use rotary_os.Task.Next.{IsNext, skips, round}
use rotary_os.Task.Ends.{task_schedule_ends, tick_state}
use rotary_os.Task.Running.{IsSingle, IsDispatched, task_schedule-IsDispatched}
use rotary_os.Timer.{timer_tick}
use rotary_os.Kernel.{Platform, Machine, done, kernel_main, system_of}
use rotary_os.Kernel.Loaded.{IsLoaded}
use rotary_os.Kernel.Boot.{IsUp, kernel_main-IsUp}

module _ (p : Platform) (r : Region) (m : Machine) (up : IsUp p r m) where
  -- The states of all tasks.
  state_up : (j : ℕ) → (state_of (system_of m) j ≡ 1 → j ≡ 0) × (state_of (system_of m) j ≢ 5)
  state_up j = elim (leb-cases j 0) [
    | inl first ↦
        let at : j ≡ 0 = omega arith in
        (λ e. at, λ e. clash (ap (λ i. (m.tasks i).state) at ∙ up.idle.1) e (omega arith))
    | inr later ↦ elim (leb-cases j 1) [
      | inl second ↦
          let at : j ≡ 1 = omega arith in
          let waits = ap (λ i. (m.tasks i).state) at ∙ up.shell.1 in
          (λ e. absurd (clash waits e (omega arith)), λ e. clash waits e (omega arith))
      | inr behind ↦
          let none_there = up.empty j (omega arith) (omega arith) in
          (λ e. absurd (clash none_there e (omega arith)), λ e. clash none_there e (omega arith))
    ]
  ]
    where
      clash : {x a b : ℕ} → x ≡ a → x ≡ b → a ≢ b → ⊥
      clash p q n = n (sym p ∙ q)

  up-IsSingle : IsSingle (system_of m)
  up-IsSingle j e = (state_up j).0 e ∙ sym up.current

  current_id : (m.tasks m.current_task).id ≡ 0
  current_id = ap (λ i. (m.tasks i).id) up.current ∙ up.idle.0

  -- The search finds the shell at once.
  next-shell :
      (next : ℕ)
      → IsNext (count_tick (system_of m)).tasks ((m.tasks m.current_task).id + 1) 9 next
      → next ≡ 1
  next-shell next n = elim (leb-cases n.distance 0) [
    | inl here ↦ omega (arith, n.reached, current_id)
    | inr away ↦
        let place : round ((m.tasks m.current_task).id + 1) 0 ≡ 1 = omega (arith, current_id) in
        let skipped =
          subst (λ i. skips (count_tick (system_of m)).tasks i ≡ true) place
            (n.least 0 (omega arith)) in
        let runs : skips (count_tick (system_of m)).tasks 1 ≡ false =
          ap is_skipped (tick_state (system_of m) 1 ∙ up.shell.1) in
        absurd (apart runs skipped)
  ]
    where
      apart : {b : Bool} → b ≡ false → b ≡ true → ⊥
      apart p q = cc

  schedules :
      (fuel : ℕ)
      → 9 ≤ fuel
      → (s' : System) × (task_schedule fuel (system_of m) ≡ some s')
        × (s'.current_task ≡ 1)
        × IsDispatched s'
  schedules fuel f =
      let (s', q, n) =
        task_schedule_ends fuel (system_of m) 1 f up.scheduler (λ j l. (state_up j).1)
          (omega (arith, current_id)) (omega arith) (ap is_skipped up.shell.1) in
      (
        s',
        q,
        next-shell s'.current_task n,
        task_schedule-IsDispatched fuel (system_of m) s' up-IsSingle up.scheduler q,
      )

-- With the magic number of the boot loader, with a map in memory whose last available region that holds the end of the
-- kernel has 288 pages behind it, for a kernel whose end lies below 2^30 - 2^22 in physical memory and `kernel_base`
-- higher in its own view, on a processor with page size extensions, with the interrupt routines and the task state
-- segment below 4 GiB, with the frames, the next task and the lock of the tasks as in the image, with no task yet, and
-- with fuel for nine rounds and for more than the regions, `kernel_main` ends in its last loop. The first
-- `timer_tick` behind it, with the same fuel, ends too: it counts one tick modulo 2^64 and makes the shell, task 1,
-- the current task, which runs while no other task is running.
pub timer_tick-kernel_main :
    (fuel ticks : ℕ) (p : Platform) (info : ℕ) (m : Machine) (rs : List Region) (r : Region)
    → IsLoaded fuel p info m rs r
    → 9 ≤ fuel
    → (m' : Machine) × (kernel_main fuel p 0x2BADB002 info m ≡ some (done m'))
      × (s' : System) × (timer_tick fuel ticks (system_of m') ≡ some ((ticks + 1) % 2 ^ 64, s'))
      × (s'.current_task ≡ 1)
      × IsDispatched s'
unfolding timer_tick
timer_tick-kernel_main fuel ticks p info m rs r h f =
    let (m', ran, up) = kernel_main-IsUp fuel p info m rs r h in
    let (s', q, shell, dispatched) = schedules p r m' up fuel f in
    (m', ran, s', rw (q, timer_tick) refl, shell, dispatched)
