-- ===== src/Task/Kill.antt =====
-- `task_kill` and `task_purge` of kernel/task.c.
use rotary_os.Base.{
  ℕ, ◌≤◌, ◌≡◌, ◌≢◌, ◌⊎◌, inl, inr, refl, Bool, true, false, not, ◌&&◌, ◌||◌, arith, ◌==◌,
  if◌then◌else◌, ltb, sym, ap, Bool-cases, update_same, update_other, some,
}
use mathlib.Core.Path.{◌∙◌}
use mathlib.Core.Bool.{false≢true}
use rotary_os.Heap.{Heap, kfree}
use rotary_os.Task.{
  System, state_of, set_state, set_task, reset_task, task_kill, task_purge, state_killed,
}

-- A task that `task_kill` kills. The bound of the code lets the index 8 through.
pub record IsKillable (s : System) (i : ℕ) : Type 0 where
  pub not_idle : 1 ≤ i
  pub in_bound : i ≤ 8
  pub alive : (state_of s i ≡ 1) ⊎ ((state_of s i ≡ 2) ⊎ (state_of s i ≡ 4))

-- What a call returns, 1 or 0, and what it leaves.
pub data IsKill (s : System) (i : ℕ) : ℕ × System → Type 0 where
  killed : IsKillable s i → IsKill s i (1, set_state s i 5)
  refused : ¬ (IsKillable s i) → IsKill s i (0, s)

abbrev killable : ℕ → ℕ → Bool
killable i state =
    not (ltb 8 i) && (not (i == 0) && ((state == 1) || ((state == 2) || (state == 4))))

task_kill_cases :
    (s : System) (i : ℕ)
    → task_kill s i ≡ (if killable i (state_of s i) then (1, set_state s i 5) else (0, s))
unfolding task_kill
task_kill_cases s i = ground arith

killable-IsKillable : (s : System) (i : ℕ) → killable i (state_of s i) ≡ true → IsKillable s i
killable-IsKillable s i h = record {
  not_idle = ground (arith, h);
  in_bound = ground (arith, h);
  alive = ground (arith, h);
}

IsKillable-killable : (s : System) (i : ℕ) → IsKillable s i → killable i (state_of s i) ≡ true
IsKillable-killable s i k =
    let a = k.not_idle in let b = k.in_bound in let c = k.alive in ground (arith, a, b, c)

-- `task_kill` returns 1 and marks the task as killed, exactly if the index is from 1 to 8 and the
-- task is running, waiting or paused; otherwise it returns 0 and changes nothing.
pub task_kill_lem : (s : System) (i : ℕ) → IsKill s i (task_kill s i)
task_kill_lem s i = rw (task_kill_cases s i) (elim (Bool-cases (killable i (state_of s i))) [
  | inl a ↦ rw a (killed (killable-IsKillable s i a))
  | inr b ↦ rw b (refused λ k. false≢true (sym b ∙ IsKillable-killable s i k))
])

pub state_of-set_state : (s : System) (i v : ℕ) → state_of (set_state s i v) i ≡ v
state_of-set_state s i v =
    ap (λ t. t.state) (update_same s.tasks i (record (s.tasks i) { state = v }))

stack_frame-set_state :
    (s : System) (i v : ℕ) → ((set_state s i v).tasks i).stack_frame ≡ (s.tasks i).stack_frame
stack_frame-set_state s i v =
    ap (λ t. t.stack_frame) (update_same s.tasks i (record (s.tasks i) { state = v }))

-- What a purge leaves: the slot is empty and names no stack, no directory and no ticks, the heap is the one that `kfree`
-- returned, and every other task is as it was.
pub record IsPurged (s : System) (i : ℕ) (h : Heap) (s' : System) : Type 0 where
  pub is_empty : state_of s' i ≡ 0
  pub no_stack : (s'.tasks i).stack_frame ≡ 0
  pub no_pointers : ((s'.tasks i).kernel_esp ≡ 0) × ((s'.tasks i).kernel_ebp ≡ 0)
  pub no_directory : (s'.tasks i).cr3 ≡ 0
  pub no_ticks : (s'.tasks i).ticks ≡ 0
  pub freed : s'.heap ≡ h
  pub others : (j : ℕ) → j ≢ i → s'.tasks j ≡ s.tasks j
  pub current : s'.current_task ≡ s.current_task

-- The globals after a purge, `h` being the heap that `kfree` returned.
abbrev pub purged : System → ℕ → Heap → System
purged s i h =
    let s₁ = set_state s i 0 in set_task (record s₁ { heap = h }) i (reset_task (s₁.tasks i))

module _ (s : System) (i : ℕ) (h : Heap) where
  purged-IsPurged : IsPurged s i h (purged s i h)
  purged-IsPurged = record {
    is_empty = ap (λ t. t.state) slot ∙ state_of-set_state s i 0;
    no_stack = ap (λ t. t.stack_frame) slot;
    no_pointers = (ap (λ t. t.kernel_esp) slot, ap (λ t. t.kernel_ebp) slot);
    no_directory = ap (λ t. t.cr3) slot;
    no_ticks = ap (λ t. t.ticks) slot;
    freed = refl;
    others = λ j n.
        update_other s₁.tasks i j (reset_task (s₁.tasks i)) n
        ∙ update_other s.tasks i j (record (s.tasks i) { state = 0 }) n;
    current = refl;
  }
    where
      s₁ : System
      s₁ = set_state s i 0

      slot : (purged s i h).tasks i ≡ reset_task (s₁.tasks i)
      slot = update_same s₁.tasks i (reset_task (s₁.tasks i))

  task_purge_killed :
      (fuel r : ℕ)
      → 1 ≤ i
      → i ≤ 8
      → state_of s i ≡ 5
      → kfree fuel s.heap (s.tasks i).stack_frame ≡ some (r, h)
      → task_purge fuel s i ≡ some (1, purged s i h)
  unfolding task_purge
  task_purge_killed fuel r a b c q =
      let bound : ltb 8 i ≡ false = ground arith in
      let idle : (i == 0) ≡ false = ground arith in
      let dead : (state_of s i == state_killed) ≡ true = ground (arith, c) in
      rw (bound, idle, dead, q) refl

-- A task that `task_kill` accepts is purged by the next `task_purge`, if the walk of `kfree` over
-- its stack ends: `task_purge` returns 1, the slot is empty again and names no stack, no directory and no ticks, the
-- heap is the one that `kfree` returned, and neither call changes another task.
pub task_purge-task_kill :
    (s : System) (i fuel r : ℕ) (h : Heap)
    → IsKillable s i
    → kfree fuel s.heap (s.tasks i).stack_frame ≡ some (r, h)
    → (s' : System) × (task_purge fuel (task_kill s i).1 i ≡ some (1, s')) × IsPurged s i h s'
task_purge-task_kill s i fuel r h k q =
    rw (task_kill_cases s i, IsKillable-killable s i k)
      (
        purged marked i h,
        task_purge_killed marked i h fuel r k.not_idle k.in_bound state stack,
        record {
          is_empty = whole.is_empty;
          no_stack = whole.no_stack;
          no_pointers = whole.no_pointers;
          no_directory = whole.no_directory;
          no_ticks = whole.no_ticks;
          freed = refl;
          others = λ j n.
              whole.others j n ∙ update_other s.tasks i j (record (s.tasks i) { state = 5 }) n;
          current = refl;
        },
      )
  where
    marked : System
    marked = set_state s i 5

    whole : IsPurged marked i h (purged marked i h)
    whole = purged-IsPurged marked i h

    state : state_of marked i ≡ 5
    state = state_of-set_state s i 5

    stack : kfree fuel marked.heap (marked.tasks i).stack_frame ≡ some (r, h)
    stack = rw (stack_frame-set_state s i 5) q
