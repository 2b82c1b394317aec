-- ===== src/Task/Create/Cases.antt =====
-- The ways in which `task_create` of kernel/task.c ends.
use rotary_os.Base.{
  by_if, ℕ, zero, suc, ◌≡◌, inl, inr, refl, true, false, not, ◌&&◌, arith, ◌==◌, Bool-cases,
  Option-cases, Option, none, some,
}
use rotary_os.Heap.{Heap, kmalloc}
use rotary_os.Task.{
  System, Created, invalid_state, task_create, lock, kmalloc_fail, state_waiting, state_paused,
}
use rotary_os.Task.Create.{starts, valid, create_with, create_held, allocated, finished, lock_free}
use rotary_os.Task.Running.{After, no_end, ends}

-- Whatever holds of the globals before the call, once the slot is cleared, and at its end, holds of what
-- `task_create` leaves.
module _ (P : System → Type 0) (s : System) (name : ℕ → ℕ) (type start_addr isr_exit state : ℕ)
    (before : P s) (cleared : (h : Heap) → P (allocated s name h))
    (complete : (h : Heap) (stack : ℕ)
      → starts state ≡ true
      → P (finished s name h type stack start_addr isr_exit state)) where
  abbrev Kept : Option (Created × System) → Type 0
  Kept o = After (λ r. P (r.1)) o

  create_free :
      (fuel : ℕ)
      → starts state ≡ true
      → s.task_lock ≡ false
      → Kept (task_create (suc fuel) s name type start_addr isr_exit state)
  unfolding task_create
  create_free fuel a f = elim (Option-cases (kmalloc (suc fuel) s.heap 8192)) [
    | inl q ↦
        rw
          (
            valid fuel s name type start_addr isr_exit state 0 s.heap a,
            lock_free fuel s.task_lock f,
            q,
          )
          no_end
    | inr ((stack, h), q) ↦
        rw (create_with fuel s name type start_addr isr_exit state stack h a f q)
          (by_if Kept (stack == kmalloc_fail) (ends (cleared h)) (ends (complete h stack a)))
  ]

  create_no_fuel :
      starts state ≡ true → task_create zero s name type start_addr isr_exit state ≡ none
  unfolding task_create lock
  create_no_fuel a = rw (valid 0 s name type start_addr isr_exit state 0 s.heap a) refl

  create_invalid :
      (fuel : ℕ)
      → starts state ≡ false
      → task_create fuel s name type start_addr isr_exit state ≡ some (invalid_state, s)
  unfolding task_create
  create_invalid fuel a =
      let wrong : (not (state == state_paused) && not (state == state_waiting)) ≡ true =
        ground (arith, a) in
      rw wrong refl

  pub task_create-After : (fuel : ℕ) → Kept (task_create fuel s name type start_addr isr_exit state)
  task_create-After fuel = elim (Bool-cases (starts state)) [
    | inr a ↦ rw (create_invalid fuel a) (ends before)
    | inl a ↦ elim (Bool-cases s.task_lock) [
      | inl f ↦ rw (create_held fuel s name type start_addr isr_exit state 0 s.heap a fuel f) no_end
      | inr f ↦ go fuel a f
    ]
  ]
    where
      go :
          (k : ℕ)
          → starts state ≡ true
          → s.task_lock ≡ false
          → Kept (task_create k s name type start_addr isr_exit state)
      go zero a f = rw (create_no_fuel a) no_end
      go (suc k) a f = create_free k a f
