-- ===== src/Task/Reach.antt =====
-- The runs of the system: the calls of kernel/task.c in any order from the end of `task_init` on.
use rotary_os.Base.{
  ◌⊎◌, ℕ, ◌<◌, ◌≡◌, ◌≢◌, inl, inr, refl, ap, sym, true, false, arith, ◌==◌, Bool-cases, some,
  update_other,
}
use mathlib.Core.Path.{◌∙◌, subst}
use rotary_os.Heap.{Heap}
use rotary_os.Task.{
  System, task_max, Created, state_of, task_init, task_create, task_kill, task_purge,
  task_exit_current, task_schedule, strncpy, zero_task,
}
use rotary_os.Task.Create.{starts, finished-IsCreated, IsCreated, allocated, finished}
use rotary_os.Task.Create.Cases.{task_create-After}
use rotary_os.Task.Create.Started.{finished_inside}
use rotary_os.Task.Inside.{
  IsInside, set_task-IsInside, task_kill-IsInside, task_purge-IsInside, task_exit_current-IsInside,
  task_init-IsInside,
}
use rotary_os.Task.Inside.Schedule.{task_schedule-IsInside}
use rotary_os.Task.Running.{
  After, after, IsQuiet, Quiet, IsQuiet-refl, quiet-IsSingle, set_task-IsQuiet, IsSingle,
  task_kill-IsQuiet, task_purge-IsQuiet, task_exit_current-IsQuiet, task_schedule-IsDispatched,
}

allocated-IsQuiet : (s : System) (name : ℕ → ℕ) (h : Heap) → IsQuiet s (allocated s name h)
allocated-IsQuiet s name h =
    let t = record zero_task { id = s.last_task_id; name = strncpy (λ i. 0) name 16 } in
    let one = set_task-IsQuiet s s.last_task_id t λ k. absurd (omega arith) in
    record { current = refl; runs = one.runs }

created-IsQuiet :
    (s s' : System) (stack state : ℕ)
    → starts state ≡ true
    → IsCreated s stack state s'
    → IsQuiet s s'
created-IsQuiet s s' stack state a c = record {
  current = c.current;
  runs = λ i k. elim (Bool-cases (i == s.last_task_id)) [
    | inl same ↦
        let q : i ≡ s.last_task_id = ground (arith, same) in
        let one : state ≡ 1 = sym c.started ∙ rw q at k in absurd (ground (arith, a, one))
    | inr differ ↦
        let n : i ≢ s.last_task_id = ground (arith, differ) in
        sym (ap (λ t. t.state) (c.others i n)) ∙ k
  ];
}

task_create-IsQuiet :
    (s : System) (name : ℕ → ℕ) (type start_addr isr_exit state fuel : ℕ)
    → Quiet s (task_create fuel s name type start_addr isr_exit state)
task_create-IsQuiet s name type start_addr isr_exit state =
    task_create-After (IsQuiet s) s name type start_addr isr_exit state (IsQuiet-refl s)
      (allocated-IsQuiet s name)
      λ h stack a.
        created-IsQuiet s (finished s name h type stack start_addr isr_exit state) stack state a
          (finished-IsCreated s name h type stack start_addr isr_exit state)

allocated-IsInside :
    (s : System) (name : ℕ → ℕ)
    → IsInside s
    → s.last_task_id < task_max
    → (h : Heap) → IsInside (allocated s name h)
allocated-IsInside s name k l h =
    let t = record zero_task { id = s.last_task_id; name = strncpy (λ i. 0) name 16 } in
    let one = set_task-IsInside s s.last_task_id t k l (λ e. refl) (inl refl) in
    record {
      inside = one.inside;
      current = one.current;
      current_id = one.current_id;
      behind = one.behind;
      ids = one.ids;
    }

created-IsInside :
    (s s' : System) (stack state : ℕ)
    → IsInside s
    → s.last_task_id < task_max
    → IsCreated s stack state s'
    → s'.overrun ≡ false
    → IsInside s'
created-IsInside s s' stack state k l c o = record {
  inside = o;
  current = let q = c.current in let b = k.current in omega (arith, q, b);
  current_id = elim (Bool-cases (s.current_task == s.last_task_id)) [
    | inl same ↦
        let q : s.current_task ≡ s.last_task_id = ground (arith, same) in
        let r = c.current ∙ q in ap (λ i. (s'.tasks i).id) r ∙ c.id ∙ sym r
    | inr differ ↦
        let n : s.current_task ≢ s.last_task_id = ground (arith, differ) in
        ap (λ i. (s'.tasks i).id) c.current
        ∙ ap (λ t. t.id) (c.others s.current_task n)
        ∙ k.current_id
        ∙ sym c.current
  ];
  behind = ap (λ t. t.state) (c.others 8 λ e. omega (arith, e, l)) ∙ k.behind;
  ids = λ j. elim (Bool-cases (j == s.last_task_id)) [
    | inl same ↦
        let q : j ≡ s.last_task_id = ground (arith, same) in
        inr (ap (λ i. (s'.tasks i).id) q ∙ c.id ∙ sym q)
    | inr differ ↦
        let n : j ≢ s.last_task_id = ground (arith, differ) in
        subst (λ t. (t.state ≡ 0) ⊎ (t.id ≡ j)) (sym (c.others j n)) (k.ids j)
  ];
}

task_create-IsInside :
    (s : System) (name : ℕ → ℕ) (type start_addr isr_exit state : ℕ)
    → IsInside s
    → s.last_task_id < task_max
    → (fuel : ℕ)
    → After (λ r. IsInside (r.1)) (task_create fuel s name type start_addr isr_exit state)
task_create-IsInside s name type start_addr isr_exit state k l =
    task_create-After IsInside s name type start_addr isr_exit state k
      (allocated-IsInside s name k l)
      λ h stack a.
        created-IsInside s (finished s name h type stack start_addr isr_exit state) stack state k l
          (finished-IsCreated s name h type stack start_addr isr_exit state)
          (finished_inside s name h type stack start_addr isr_exit state l ∙ k.inside)

-- One call that returns, with `fuel` as the bound of its waits and walks, for a task inside the array.
pub data Step (fuel : ℕ) (s : System) : System → Type 0 where
  creates :
      s.last_task_id < task_max
      → (name : ℕ → ℕ) (type start_addr isr_exit state : ℕ) {c : Created} {s' : System}
      → task_create fuel s name type start_addr isr_exit state ≡ some (c, s')
      → Step fuel s s'
  kills : (i : ℕ) → i < task_max → Step fuel s (task_kill s i).1
  purges :
      (i : ℕ)
      → i < task_max
      → {r : ℕ} {s' : System} → task_purge fuel s i ≡ some (r, s')
      → Step fuel s s'
  exits : {s' : System} → task_exit_current fuel s ≡ some s' → Step fuel s s'
  schedules :
      {s' : System} → s.scheduler_ready ≡ true → task_schedule fuel s ≡ some s' → Step fuel s s'

pub data Run (fuel : ℕ) (s : System) : System → Type 0 where
  start : Run fuel s s
  and_then : {s₁ s₂ : System} → Run fuel s s₁ → Step fuel s₁ s₂ → Run fuel s s₂

Step-IsInside : {fuel : ℕ} {s s' : System} → Step fuel s s' → IsInside s → IsInside s'
Step-IsInside {fuel} {s} (creates l name type start_addr isr_exit state q) =
    λ k. after (task_create-IsInside s name type start_addr isr_exit state k l fuel) q
Step-IsInside {fuel} {s} (kills i l) = λ k. task_kill-IsInside s i k l
Step-IsInside {fuel} {s} (purges i l q) = λ k. after (task_purge-IsInside fuel s i k l) q
Step-IsInside {fuel} {s} (exits q) = λ k. after (task_exit_current-IsInside fuel s k) q
Step-IsInside {fuel} {s} (schedules r q) = λ k. after (task_schedule-IsInside fuel s k r) q

Step-IsSingle : {fuel : ℕ} {s s' : System} → Step fuel s s' → IsSingle s → IsSingle s'
Step-IsSingle {fuel} {s} (creates l name type start_addr isr_exit state q) =
    quiet-IsSingle (after (task_create-IsQuiet s name type start_addr isr_exit state fuel) q)
Step-IsSingle {fuel} {s} (kills i l) = quiet-IsSingle (task_kill-IsQuiet s i)
Step-IsSingle {fuel} {s} (purges i l q) = quiet-IsSingle (after (task_purge-IsQuiet fuel s i) q)
Step-IsSingle {fuel} {s} (exits q) = quiet-IsSingle (after (task_exit_current-IsQuiet fuel s) q)
Step-IsSingle {fuel} {s} {s'} (schedules r q) =
    λ h. (task_schedule-IsDispatched fuel s s' h r q).single

task_init-IsSingle :
    (s : System) (kernel_idle : ℕ → ℕ)
    → ((i : ℕ) → state_of s i ≡ 0)
    → IsSingle (task_init s kernel_idle)
unfolding task_init
task_init-IsSingle s kernel_idle empty i k = elim (Bool-cases (i == 0)) [
  | inl same ↦ ground (arith, same)
  | inr differ ↦
      let n : i ≢ 0 = ground (arith, differ) in
      let idle = record (s.tasks 0) { state = 1; name = strncpy (s.tasks 0).name kernel_idle 16 } in
      let running : ◌≡◌ {A = ℕ} 0 1 =
        sym (empty i) ∙ sym (ap (λ t. t.state) (update_other s.tasks 0 i idle n)) ∙ k in
      absurd (omega arith)
]

-- What holds after `task_init` and is kept by every call holds of every run.
by_run :
    {P : System → Type 0} {fuel : ℕ} {s s' : System}
    → ((s₁ s₂ : System) → Step fuel s₁ s₂ → P s₁ → P s₂)
    → P s
    → Run fuel s s'
    → P s'
by_run keeps p start = p
by_run keeps p (and_then {s₁} {s₂} run step) = keeps s₁ s₂ step (by_run keeps p run)

-- From the end of `task_init` on, with no task before it, the first slot with the id 0, the slot behind the array
-- read as empty and no write there, whatever calls of the scheduler, of `task_create` with the next index in the
-- array, of `task_kill` and `task_purge` of indices in the array, and of `task_exit_current` return and in whatever
-- order, no other task than the current one is in the running state, the current task is in the array, and no call
-- wrote behind the array.
pub Run-IsSingle :
    (fuel : ℕ) (s : System) (kernel_idle : ℕ → ℕ)
    → ((i : ℕ) → state_of s i ≡ 0)
    → (s.tasks 0).id ≡ 0
    → s.overrun ≡ false
    → (s' : System) → Run fuel (task_init s kernel_idle) s'
    → IsSingle s' × (s'.current_task < task_max) × (s'.overrun ≡ false)
Run-IsSingle fuel s kernel_idle empty first o s' run =
    let k = by_run (λ a b. Step-IsInside) (task_init-IsInside s kernel_idle empty first o) run in
    (
      by_run (λ a b. Step-IsSingle) (task_init-IsSingle s kernel_idle empty) run,
      k.current,
      k.inside,
    )
