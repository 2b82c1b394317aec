-- ===== src/Task/Running.antt =====
-- Which task runs: every function of kernel/task.c keeps at most the current task in the state
-- `TASK_STATE_RUNNING`.
use rotary_os.Base.{
  by_if, ℕ, zero, suc, ◌+◌, ◌≡◌, ◌≢◌, inl, inr, refl, sym, ap, Bool, true, false, not, arith, ◌==◌,
  if◌then◌else◌, Bool-cases, Option-cases, Option, none, some, ltb, update_same, update_other,
  add32,
}
use mathlib.Core.Path.{◌∙◌, subst}
use rotary_os.Heap.{Heap, kfree}
use rotary_os.Task.{
  Task, System, state_of, set_state, set_task, reset_task, task_kill, task_purge, task_exit_current,
  task_schedule, purge_all, count_tick, pause_current, switch_to, next_task, lock, state_killed,
}
use rotary_os.Task.Kill.{IsKill, killed, refused, task_kill_lem, purged}

-- What holds of the result, if there is one.
pub data After {A : Type 0} (P : A → Type 0) : Option A → Type 0 where
  no_end : After P none
  ends : {x : A} → P x → After P (some x)

pub after : {A : Type 0} {P : A → Type 0} {o : Option A} {x : A} → After P o → o ≡ some x → P x
after {P = P} a q = go (subst (After P) q a)
  where
    go : {A : Type 0} {P : A → Type 0} {x : A} → After P (some x) → P x
    go (ends p) = p

pub After-map :
    {A : Type 0} {P Q : A → Type 0} {o : Option A} → ((x : A) → P x → Q x) → After P o → After Q o
After-map f no_end = no_end
After-map f (ends {x} p) = ends (f x p)

-- The current task stays, and no task starts to run.
pub record IsQuiet (s s' : System) : Type 0 where
  pub current : s'.current_task ≡ s.current_task
  pub runs : (i : ℕ) → state_of s' i ≡ 1 → state_of s i ≡ 1

-- The results of a function that gives such globals.
abbrev pub Quiet : {A : Type 0} → System → Option (A × System) → Type 0
Quiet s = After (λ r. IsQuiet s (r.1))

pub IsQuiet-refl : (s : System) → IsQuiet s s
IsQuiet-refl s = record { current = refl; runs = λ i h. h }

pub IsQuiet-trans : {s₁ s₂ s₃ : System} → IsQuiet s₁ s₂ → IsQuiet s₂ s₃ → IsQuiet s₁ s₃
IsQuiet-trans p q = record { current = q.current ∙ p.current; runs = λ i h. p.runs i (q.runs i h) }

-- A write to one task that does not start it.
pub set_task-IsQuiet :
    (s : System) (i : ℕ) (t : Task) → (t.state ≡ 1 → state_of s i ≡ 1) → IsQuiet s (set_task s i t)
set_task-IsQuiet s i t h = record {
  current = refl;
  runs = λ j k. elim (Bool-cases (j == i)) [
    | inl same ↦
        let q : j ≡ i = ground (arith, same) in
        rw q (h (sym (ap (λ u. u.state) (update_same s.tasks i t)) ∙ rw q at k))
    | inr differ ↦
        let n : j ≢ i = ground (arith, differ) in
        sym (ap (λ u. u.state) (update_other s.tasks i j t n)) ∙ k
  ];
}

set_state-IsQuiet : (s : System) (i v : ℕ) → v ≢ 1 → IsQuiet s (set_state s i v)
set_state-IsQuiet s i v n =
    set_task-IsQuiet s i (record (s.tasks i) { state = v }) λ h. absurd (n h)

purged-IsQuiet : (s : System) (i : ℕ) (h : Heap) → IsQuiet s (purged s i h)
purged-IsQuiet s i h =
    let s₁ = set_state s i 0 in
    let one = set_state-IsQuiet s i 0 (omega arith) in
    let two = set_task-IsQuiet s₁ i (reset_task (s₁.tasks i)) λ k. k in
    let all = IsQuiet-trans one two in record { current = refl; runs = all.runs }

pub task_kill-IsQuiet : (s : System) (i : ℕ) → IsQuiet s (task_kill s i).1
task_kill-IsQuiet s i = go (task_kill_lem s i)
  where
    go : {r : ℕ × System} → IsKill s i r → IsQuiet s (r.1)
    go (killed k) = set_state-IsQuiet s i 5 (omega arith)
    go (refused n) = IsQuiet-refl s

pub task_purge-IsQuiet : (fuel : ℕ) (s : System) (i : ℕ) → Quiet s (task_purge fuel s i)
unfolding task_purge
task_purge-IsQuiet fuel s i = by_if (Quiet s) (ltb 8 i) same (
    by_if (Quiet s) (i == 0) same (
      by_if (Quiet s) (not (state_of s i == 5)) same
        (elim (Option-cases (kfree fuel s.heap (s.tasks i).stack_frame)) [
          | inl q ↦ rw q no_end
          | inr ((r, h), q) ↦ rw q (ends (purged-IsQuiet s i h))
        ])))
  where
    same : Quiet {A = ℕ} s (some (0, s))
    same = ends (IsQuiet-refl s)

pub task_exit_current-IsQuiet :
    (fuel : ℕ) (s : System) → After (IsQuiet s) (task_exit_current fuel s)
unfolding task_exit_current
task_exit_current-IsQuiet fuel s = elim (Option-cases (lock fuel s.task_lock)) [
  | inl q ↦ rw (q, task_exit_current) no_end
  | inr (held, q) ↦
      let one = set_state-IsQuiet s s.current_task 5 (omega arith) in
      rw (q, task_exit_current) (ends (record { current = refl; runs = one.runs }))
]

purge_all-IsQuiet : (n fuel : ℕ) (s : System) (i : ℕ) → After (IsQuiet s) (purge_all n fuel s i)
unfolding purge_all
purge_all-IsQuiet zero fuel s i = ends (IsQuiet-refl s)
purge_all-IsQuiet (suc n) fuel s i = elim (Bool-cases (state_of s i == state_killed)) [
  | inr keep ↦ rw (keep, purge_all) (purge_all-IsQuiet n fuel s (i + 1))
  | inl dead ↦ elim (Option-cases (task_purge fuel s i)) [
    | inl q ↦ rw (dead, q, purge_all) no_end
    | inr ((r, s₁), q) ↦
        let one = after (task_purge-IsQuiet fuel s i) q in
        let rest = purge_all-IsQuiet n fuel s₁ (i + 1) in
        rw (dead, q, purge_all) (After-map (λ s₂ two. IsQuiet-trans one two) rest)
  ]
]

-- No other task than the current one is running.
abbrev pub IsSingle : System → Type 0
IsSingle s = (i : ℕ) → state_of s i ≡ 1 → i ≡ s.current_task

pub quiet-IsSingle : {s s' : System} → IsQuiet s s' → IsSingle s → IsSingle s'
quiet-IsSingle q h i k = h i (q.runs i k) ∙ sym q.current

-- The current task of the result runs, and no other does.
pub record IsDispatched (s : System) : Type 0 where
  pub running : state_of s s.current_task ≡ 1
  pub single : IsSingle s

module _ (s : System) (next : ℕ) (h : IsSingle s) where
  pause_current-none : (i : ℕ) → state_of (pause_current s) i ≢ 1
  pause_current-none i = go (state_of s s.current_task == 1) refl
    where
      go :
          (b : Bool)
          → (state_of s s.current_task == 1) ≡ b
          → state_of (if b then set_state s s.current_task 2 else s) i ≢ 1
      go true e k =
          let q : i ≡ s.current_task =
            h i ((set_state-IsQuiet s s.current_task 2 (omega arith)).runs i k) in
          let w : ◌≡◌ {A = ℕ} 2 1 =
            sym (
              ap (λ t. t.state)
                (update_same s.tasks s.current_task
                  (record (s.tasks s.current_task) { state = 2 })))
            ∙ rw q at k in
          absurd (omega arith)
      go false e k =
          let q : state_of s s.current_task ≡ 1 = rw (h i k) at k in absurd (ground (arith, e, q))

  switch_to-IsDispatched : IsDispatched (switch_to s next)
  unfolding switch_to
  switch_to-IsDispatched = record {
    running =
        ap (λ t. t.state)
          (update_same (pause_current s).tasks next
            (record ((pause_current s).tasks next) { state = 1 }));
    single = λ i k. elim (Bool-cases (i == next)) [
      | inl same ↦ ground (arith, same)
      | inr differ ↦
          let n : i ≢ next = ground (arith, differ) in
          let other =
            update_other (pause_current s).tasks next i
              (record ((pause_current s).tasks next) { state = 1 }) n in
          absurd (pause_current-none i (sym (ap (λ t. t.state) other) ∙ k))
    ];
  }

count_tick-IsQuiet : (s : System) → IsQuiet s (count_tick s)
count_tick-IsQuiet s =
    set_task-IsQuiet s s.current_task
      (record (s.tasks s.current_task) { ticks = add32 (s.tasks s.current_task).ticks 1 }) λ k. k

dispatches :
    (fuel : ℕ) (s : System)
    → IsSingle s
    → s.scheduler_ready ≡ true
    → After IsDispatched (task_schedule fuel s)
unfolding task_schedule
dispatches fuel s h r = elim (Option-cases (purge_all 8 fuel (count_tick s) 0)) [
  | inl e ↦ rw (e, r) no_end
  | inr (s₁, e) ↦
      let one = after (purge_all-IsQuiet 8 fuel (count_tick s) 0) e in
      let single = quiet-IsSingle (IsQuiet-trans (count_tick-IsQuiet s) one) h in
      let start = add32 (s₁.tasks s₁.current_task).id 1 in
      elim (Option-cases (next_task fuel s₁.tasks (if start == 256 then 0 else start))) [
        | inl n ↦ rw (e, n, r) no_end
        | inr (next, n) ↦ rw (e, n, r) (ends (switch_to-IsDispatched s₁ next single))
      ]
]

-- If no other task than the current one is running, then after `task_schedule` the current task
-- is running and no other, whenever the scheduler is ready and the call ends.
pub task_schedule-IsDispatched :
    (fuel : ℕ) (s s' : System)
    → IsSingle s
    → s.scheduler_ready ≡ true
    → task_schedule fuel s ≡ some s'
    → IsDispatched s'
task_schedule-IsDispatched fuel s s' h r q = after (dispatches fuel s h r) q
