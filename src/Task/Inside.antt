-- ===== src/Task/Inside.antt =====
-- The array of tasks of kernel/task.c: which calls write inside it.
pub mod Schedule
use rotary_os.Base.{
  by_if, ℕ, zero, suc, ◌+◌, ◌%◌, ◌≤◌, ◌<◌, ◌≡◌, ◌≢◌, ◌⊎◌, inl, inr, refl, sym, ap, Bool, true,
  false, not, arith, ◌==◌, ◌||◌, leb, if◌then◌else◌, Bool-cases, Option-cases, Option, none, some,
  ltb, update_same, update_other, add32,
}
use mathlib.Core.Path.{◌∙◌}
use rotary_os.Heap.{Heap, kfree}
use rotary_os.Task.{
  Task, System, task_max, state_of, set_state, set_task, reset_task, task_init, task_kill,
  task_purge, task_exit_current, task_schedule, purge_all, count_tick, pause_current, switch_to,
  next_task, lock, state_killed, state_running, is_skipped, strncpy,
}
use rotary_os.Task.Kill.{IsKill, killed, refused, task_kill_lem, purged, state_of-set_state}
use rotary_os.Task.Next.{skips}
use rotary_os.Task.Running.{After, no_end, ends, after, After-map}

-- Nothing was written behind the array. The current task is in it, the slot behind it is empty, and each task that
-- is not empty has its index as its id, as the current one does.
pub record IsInside (s : System) : Type 0 where
  pub inside : s.overrun ≡ false
  pub current : s.current_task < task_max
  pub current_id : (s.tasks s.current_task).id ≡ s.current_task
  pub behind : state_of s 8 ≡ 0
  pub ids : (j : ℕ) → (state_of s j ≡ 0) ⊎ ((s.tasks j).id ≡ j)

-- A task that is not empty.
pub id_of : {s : System} → IsInside s → (i : ℕ) → state_of s i ≢ 0 → (s.tasks i).id ≡ i
id_of {s} h i n = go (h.ids i)
  where
    go : {A : Type 0} → (state_of s i ≡ 0) ⊎ A → A
    go (inl z) = absurd (n z)
    go (inr e) = e

-- A write to one task.
pub set_task-IsInside :
    (s : System) (i : ℕ) (t : Task)
    → IsInside s
    → i < task_max
    → (i ≡ s.current_task → t.id ≡ i)
    → (t.state ≡ 0) ⊎ (t.id ≡ i)
    → IsInside (set_task s i t)
set_task-IsInside s i t h l c o = record {
  inside = let before = h.inside in ground (arith, before, l);
  current = h.current;
  current_id = elim (Bool-cases (s.current_task == i)) [
    | inl same ↦
        let q : s.current_task ≡ i = ground (arith, same) in
        rw q (ap (λ u. u.id) (update_same s.tasks i t) ∙ c (sym q))
    | inr differ ↦
        let n : s.current_task ≢ i = ground (arith, differ) in
        ap (λ u. u.id) (update_other s.tasks i s.current_task t n) ∙ h.current_id
  ];
  behind = ap (λ u. u.state) (update_other s.tasks i 8 t λ e. omega (arith, e, l)) ∙ h.behind;
  ids = λ j. elim (Bool-cases (j == i)) [
    | inl same ↦
        let q : j ≡ i = ground (arith, same) in
        let at = update_same s.tasks i t in
        rw q (moved (ap (λ u. u.state) at) (ap (λ u. u.id) at) o)
    | inr differ ↦
        let n : j ≢ i = ground (arith, differ) in
        let at = update_other s.tasks i j t n in
        moved (ap (λ u. u.state) at) (ap (λ u. u.id) at) (h.ids j)
  ];
}
  where
    moved : {a b x y k : ℕ} → a ≡ x → b ≡ y → (x ≡ 0) ⊎ (y ≡ k) → (a ≡ 0) ⊎ (b ≡ k)
    moved p q (inl z) = inl (p ∙ z)
    moved p q (inr e) = inr (q ∙ e)

-- A write of a state other than the empty one to a task that is not empty, or to the current one.
pub set_state-IsInside :
    (s : System) (i v : ℕ)
    → IsInside s
    → i < task_max
    → (s.tasks i).id ≡ i
    → IsInside (set_state s i v)
set_state-IsInside s i v h l e =
    set_task-IsInside s i (record (s.tasks i) { state = v }) h l (λ c. e) (inr e)

pub task_kill-IsInside :
    (s : System) (i : ℕ) → IsInside s → i < task_max → IsInside (task_kill s i).1
task_kill-IsInside s i h l = go (task_kill_lem s i)
  where
    go : {r : ℕ × System} → IsKill s i r → IsInside (r.1)
    go (killed k) =
        let alive = k.alive in set_state-IsInside s i 5 h l (id_of h i λ z. omega (arith, alive, z))
    go (refused n) = h

purged-IsInside :
    (s : System) (i : ℕ) (b : Heap) → IsInside s → i < task_max → IsInside (purged s i b)
purged-IsInside s i b h l =
    let s₁ = set_state s i 0 in
    let one = set_task-IsInside s i (record (s.tasks i) { state = 0 }) h l (own s h) (inl refl) in
    let two =
      set_task-IsInside s₁ i (reset_task (s₁.tasks i)) one l (own s₁ one)
        (inl (state_of-set_state s i 0)) in
    record {
      inside = two.inside;
      current = two.current;
      current_id = two.current_id;
      behind = two.behind;
      ids = two.ids;
    }
  where
    own : (u : System) → IsInside u → i ≡ u.current_task → (u.tasks i).id ≡ i
    own u k e = ap (λ j. (u.tasks j).id) e ∙ k.current_id ∙ sym e

pub task_purge-IsInside :
    (fuel : ℕ) (s : System) (i : ℕ)
    → IsInside s
    → i < task_max
    → After (λ r. IsInside (r.1)) (task_purge fuel s i)
unfolding task_purge
task_purge-IsInside fuel s i h l = by_if Kept (ltb 8 i) same (
    by_if Kept (i == 0) same (
      by_if Kept (not (state_of s i == 5)) same
        (elim (Option-cases (kfree fuel s.heap (s.tasks i).stack_frame)) [
          | inl q ↦ rw q no_end
          | inr ((r, b), q) ↦ rw q (ends (purged-IsInside s i b h l))
        ])))
  where
    Kept : Option (ℕ × System) → Type 0
    Kept o = After (λ r. IsInside (r.1)) o

    same : Kept (some (0, s))
    same = ends h

pub task_exit_current-IsInside :
    (fuel : ℕ) (s : System) → IsInside s → After IsInside (task_exit_current fuel s)
unfolding task_exit_current
task_exit_current-IsInside fuel s h = elim (Option-cases (lock fuel s.task_lock)) [
  | inl q ↦ rw (q, task_exit_current) no_end
  | inr (held, q) ↦
      let one = set_state-IsInside s s.current_task 5 h h.current h.current_id in
      rw (q, task_exit_current)
        (ends (record {
          inside = one.inside;
          current = one.current;
          current_id = one.current_id;
          behind = one.behind;
          ids = one.ids;
        }))
]

-- The idle task is the first one.
pub task_init-IsInside :
    (s : System) (kernel_idle : ℕ → ℕ)
    → ((i : ℕ) → state_of s i ≡ 0)
    → (s.tasks 0).id ≡ 0
    → s.overrun ≡ false
    → IsInside (task_init s kernel_idle)
unfolding task_init
task_init-IsInside s kernel_idle none_yet first o =
    let idle = record (s.tasks 0) { state = 1; name = strncpy (s.tasks 0).name kernel_idle 16 } in
    let start : IsInside (record s { current_task = 0 }) = record {
      inside = o;
      current = omega arith;
      current_id = first;
      behind = none_yet 8;
      ids = λ j. inl (none_yet j);
    } in
    let one =
      set_task-IsInside (record s { current_task = 0 }) 0 idle start (omega arith) (λ e. first)
        (inr first) in
    record {
      inside = o;
      current = one.current;
      current_id = one.current_id;
      behind = one.behind;
      ids = one.ids;
    }
