-- ===== src/Task/Create.antt =====
-- `task_create` of kernel/task.c: what it leaves when it succeeds and when the heap is exhausted.
pub mod Started
pub mod Cases
use rotary_os.Base.{
  ℕ, zero, suc, ◌≡◌, ◌≢◌, inl, inr, refl, ap, Bool, true, false, not, ◌&&◌, ◌||◌, leb, ◌-◌, ◌^◌,
  arith, ◌==◌, if◌then◌else◌, Bool-cases, none, some, update, update_same, update_other, add32,
  sub32,
}
use mathlib.Core.Path.{◌∙◌}
use rotary_os.Heap.{Heap, kmalloc}
use rotary_os.Task.{
  task_stack_size, task_max, Task, System, created, no_stack, state_of, task_create, set_up_task,
  task_directory, lock, unlock, kmalloc_fail, strncpy, zero_task, state_waiting, state_paused,
}

-- The starting states that `task_create` takes.
abbrev pub starts : ℕ → Bool
starts state = (state == 4) || (state == 2)

-- A page directory leaves the other globals.
pub record IsSame (s s' : System) : Type 0 where
  pub tasks : s'.tasks ≡ s.tasks
  pub current : s'.current_task ≡ s.current_task
  pub last : s'.last_task_id ≡ s.last_task_id

pub task_directory-IsSame : (s : System) (type : ℕ) → IsSame s (task_directory s type).1
unfolding task_directory
task_directory-IsSame s type = elim (Bool-cases (type == 0)) [
  | inl kernel ↦ rw (kernel, task_directory) (record { tasks = refl; current = refl; last = refl })
  | inr user ↦ rw (user, task_directory) (record { tasks = refl; current = refl; last = refl })
]

-- What a successful call leaves: a task with the index as its id, with the stack and the state
-- given, in its slot; the next index; the lock released; every other task as it was.
pub record IsCreated (s : System) (stack state : ℕ) (s' : System) : Type 0 where
  pub id : (s'.tasks s.last_task_id).id ≡ s.last_task_id
  pub stack_frame : (s'.tasks s.last_task_id).stack_frame ≡ stack
  pub stack_top : (s'.tasks s.last_task_id).kernel_ebp ≡ add32 stack 8192
  pub started : state_of s' s.last_task_id ≡ state
  pub released : s'.task_lock ≡ false
  pub next : s'.last_task_id ≡ add32 s.last_task_id 1
  pub others : (j : ℕ) → j ≢ s.last_task_id → s'.tasks j ≡ s.tasks j
  pub current : s'.current_task ≡ s.current_task

module _ (s : System) (task_id type stack start_addr isr_exit state : ℕ) where
  pub after_set_up : System
  after_set_up = set_up_task s task_id type stack start_addr isr_exit state

  same : IsSame s (task_directory s type).1
  same = task_directory-IsSame s type

  pub slot : Task
  slot = record ((task_directory s type).1.tasks task_id) {
    stack_frame = stack;
    kernel_esp = sub32 (sub32 (add32 stack task_stack_size) 52) 20;
    kernel_ebp = add32 stack task_stack_size;
    cr3 = (task_directory s type).0;
    state = state;
  }

  pub set_up_slot : after_set_up.tasks task_id ≡ slot
  unfolding set_up_task after_set_up slot
  set_up_slot = update_same (task_directory s type).1.tasks task_id slot

  set_up_id : (after_set_up.tasks task_id).id ≡ (s.tasks task_id).id
  unfolding slot
  set_up_id = ap (λ t. t.id) set_up_slot ∙ ap (λ f. (f task_id).id) same.tasks

  set_up_others : (j : ℕ) → j ≢ task_id → after_set_up.tasks j ≡ s.tasks j
  unfolding set_up_task after_set_up slot
  set_up_others j n =
      update_other (task_directory s type).1.tasks task_id j slot n ∙ ap (λ f. f j) same.tasks

-- The globals once the slot is cleared and the stack allocated.
abbrev pub allocated : System → (ℕ → ℕ) → Heap → System
allocated s name h = record s {
  task_lock = true;
  overrun = s.overrun || leb task_max s.last_task_id;
  tasks =
      update s.tasks s.last_task_id
        (record zero_task { id = s.last_task_id; name = strncpy (λ i. 0) name 16 });
  heap = h;
}

abbrev pub finished : System → (ℕ → ℕ) → Heap → (type stack start_addr isr_exit state : ℕ) → System
finished s name h = set_up_task (allocated s name h) s.last_task_id

module _ (s : System) (name : ℕ → ℕ) (h : Heap) (type stack start_addr isr_exit state : ℕ) where
  pub finished-IsCreated :
      IsCreated s stack state (finished s name h type stack start_addr isr_exit state)
  unfolding set_up_task unlock after_set_up slot
  finished-IsCreated = record {
    id =
        set_up_id s₁ s.last_task_id type stack start_addr isr_exit state
        ∙ ap (λ t. t.id) (update_same s.tasks s.last_task_id cleared);
    stack_frame = ap (λ t. t.stack_frame) here;
    stack_top = ap (λ t. t.kernel_ebp) here;
    started = ap (λ t. t.state) here;
    released = refl;
    next = ap (λ n. add32 n 1) (task_directory-IsSame s₁ type).last;
    others = λ j n.
        set_up_others s₁ s.last_task_id type stack start_addr isr_exit state j n
        ∙ update_other s.tasks s.last_task_id j cleared n;
    current = (task_directory-IsSame s₁ type).current;
  }
    where
      s₁ : System
      s₁ = allocated s name h

      cleared : Task
      cleared = record zero_task { id = s.last_task_id; name = strncpy (λ i. 0) name 16 }

      here :
          (finished s name h type stack start_addr isr_exit state).tasks s.last_task_id
          ≡ slot s₁ s.last_task_id type stack start_addr isr_exit state
      here = set_up_slot s₁ s.last_task_id type stack start_addr isr_exit state

pub lock_free : (fuel : ℕ) (flag : Bool) → flag ≡ false → lock (suc fuel) flag ≡ some true
unfolding lock
lock_free fuel flag f = rw f refl

-- A lock that is held is waited for as long as the fuel lasts.
lock_held : (fuel : ℕ) (flag : Bool) → flag ≡ true → lock fuel flag ≡ none
unfolding lock
lock_held zero flag f = refl
lock_held (suc k) flag f = rw f (lock_held k true refl)

module _ (fuel : ℕ) (s : System) (name : ℕ → ℕ) (type start_addr isr_exit state stack : ℕ)
    (h : Heap) (a : starts state ≡ true) where
  pub valid : (not (state == state_paused) && not (state == state_waiting)) ≡ false
  valid = ground (arith, a)

  pub create_with :
      s.task_lock ≡ false
      → kmalloc (suc fuel) s.heap 8192 ≡ some (stack, h)
      → task_create (suc fuel) s name type start_addr isr_exit state ≡ (
          if stack == kmalloc_fail
          then some (no_stack, allocated s name h)
          else some
              (created s.last_task_id, finished s name h type stack start_addr isr_exit state))
  unfolding task_create
  create_with b c = rw (valid, lock_free fuel s.task_lock b, c) refl

  pub create_held :
      (rounds : ℕ)
      → s.task_lock ≡ true
      → task_create rounds s name type start_addr isr_exit state ≡ none
  unfolding task_create
  create_held rounds b = rw (valid, lock_held rounds s.task_lock b) refl

-- With a starting state that is taken, the lock free and an answer of `kmalloc` other than -1,
-- `task_create` returns the task at the next index, set up as `IsCreated` says.
pub task_create-IsCreated :
    (fuel : ℕ) (s : System) (name : ℕ → ℕ) (type start_addr isr_exit state stack : ℕ) (h : Heap)
    → starts state ≡ true
    → s.task_lock ≡ false
    → kmalloc (suc fuel) s.heap 8192 ≡ some (stack, h)
    → stack ≢ 2 ^ 32 - 1
    → (s' : System) × (task_create (suc fuel) s name type start_addr isr_exit state
        ≡ some (created s.last_task_id, s'))
      × IsCreated s stack state s'
task_create-IsCreated fuel s name type start_addr isr_exit state stack h a b c d = (
  finished s name h type stack start_addr isr_exit state,
  create_with fuel s name type start_addr isr_exit state stack h a b c ∙ rw live refl,
  finished-IsCreated s name h type stack start_addr isr_exit state,
)
  where
    live : (stack == kmalloc_fail) ≡ false
    live = ground (arith, d)
