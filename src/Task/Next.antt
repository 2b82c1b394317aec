-- ===== src/Task/Next.antt =====
-- The search of `task_schedule` for the next task (kernel/task.c), which goes round the indices from
-- 0 to 8.
use rotary_os.Base.{
  ℕ, zero, suc, ◌+◌, ◌-◌, ◌%◌, ◌≤◌, ◌<◌, ◌≡◌, inl, inr, refl, Bool, true, false, arith, ◌==◌,
  Bool-cases, none, some, add32, if◌then◌else◌,
}
use mathlib.Core.Path.{subst, ◌∙◌}
use rotary_os.Task.{Task, is_skipped, next_task}

-- The index after `d` rounds of the search.
abbrev pub round : ℕ → ℕ → ℕ
round start d = (start + d) % 9

abbrev pub skips : (ℕ → Task) → ℕ → Bool
skips tasks i = is_skipped (tasks i).state

-- The result is the first index in the order of the rounds whose task is not skipped.
pub record IsNext (tasks : ℕ → Task) (start rounds next : ℕ) : Type 0 where
  pub distance : ℕ
  pub short : distance < rounds
  pub reached : next ≡ round start distance
  pub runnable : skips tasks next ≡ false
  pub least : (e : ℕ) → e < distance → skips tasks (round start e) ≡ true

bumped : (i : ℕ) → i < 9 → (if add32 i 1 == 9 then 0 else add32 i 1) ≡ round i 1
bumped i h = ground arith

round-round : (start d : ℕ) → round (round start 1) d ≡ round start (suc d)
round-round start d = omega arith

module _ (tasks : ℕ → Task) (start : ℕ) (s : start < 9) where
  here : (k : ℕ) → skips tasks start ≡ false → IsNext tasks start (suc k) start
  here k stop = record {
    distance = 0;
    short = omega arith;
    reached = omega (arith, s);
    runnable = stop;
    least = λ e b. absurd (omega arith);
  }

  further :
      {k next d : ℕ}
      → skips tasks start ≡ true
      → d < k
      → next ≡ round (round start 1) d
      → skips tasks next ≡ false
      → ((e : ℕ) → e < d → skips tasks (round (round start 1) e) ≡ true)
      → IsNext tasks start (suc k) next
  further {d = d} go short reached runnable least = record {
    distance = suc d;
    short = omega arith;
    reached = reached ∙ round-round start d;
    runnable = runnable;
    least = before;
  }
    where
      before : (e : ℕ) → e < suc d → skips tasks (round start e) ≡ true
      before zero b = let q : round start 0 ≡ start = omega (arith, s) in rw q go
      before (suc e) b =
          subst (λ i. skips tasks i ≡ true) (round-round start e) (least e (omega arith))

-- The search stops at a task that may run, if there is one within its rounds.
stops :
    (k : ℕ) (tasks : ℕ → Task) (start d : ℕ)
    → start < 9
    → d < k
    → skips tasks (round start d) ≡ false
    → (next : ℕ) × (next_task k tasks start ≡ some next) × IsNext tasks start (suc d) next
unfolding next_task
stops zero tasks start d s l r = absurd (omega arith)
stops (suc k) tasks start zero s l r =
    let q : start ≡ round start 0 = omega arith in
    let stop : skips tasks start ≡ false = rw q r in
    (start, rw stop refl, here tasks start s 0 stop)
stops (suc k) tasks start (suc d) s l r = elim (Bool-cases (skips tasks start)) [
  | inr stop ↦ (start, rw stop refl, here tasks start s (suc d) stop)
  | inl go ↦
      rw (go, bumped start s)
        (later go (stops k tasks (round start 1) d (omega arith) (omega arith) found))
]
  where
    later :
        skips tasks start ≡ true
        → (next : ℕ) × (next_task k tasks (round start 1) ≡ some next)
          × IsNext tasks (round start 1) (suc d) next
        → (next : ℕ) × (next_task k tasks (round start 1) ≡ some next)
          × IsNext tasks start (suc (suc d)) next
    later go (next, q, n) = (next, q, further tasks start s go n.short n.reached n.runnable n.least)

    found : skips tasks (round (round start 1) d) ≡ false
    found = rw (round-round start d) r

-- If a task at an index from 0 to 8 may run, the search from any of these indices ends with nine
-- rounds or more as the bound, at the first such task in the order of the rounds.
pub next_task_lem :
    (tasks : ℕ → Task) (fuel start i : ℕ)
    → 9 ≤ fuel
    → start < 9
    → i < 9
    → skips tasks i ≡ false
    → (next : ℕ) × (next_task fuel tasks start ≡ some next) × IsNext tasks start 9 next
next_task_lem tasks fuel start i f s l r =
    let q : round start ((i + 9 - start) % 9) ≡ i = omega arith in
    let (next, e, n) = stops fuel tasks start ((i + 9 - start) % 9) s (omega arith) (rw q r) in
    (
      next,
      e,
      record {
        distance = n.distance;
        short = omega (arith, n.short);
        reached = n.reached;
        runnable = n.runnable;
        least = n.least;
      },
    )

-- If no task at an index from 0 to 8 may run, the search from any of these indices outlasts every
-- number of rounds.
pub next_task_hangs :
    (fuel : ℕ) (tasks : ℕ → Task) (start : ℕ)
    → start < 9
    → ((i : ℕ) → i < 9 → skips tasks i ≡ true)
    → next_task fuel tasks start ≡ none
unfolding next_task
next_task_hangs zero tasks start s all = refl
next_task_hangs (suc k) tasks start s all =
    rw (all start s, bumped start s) (next_task_hangs k tasks (round start 1) (omega arith) all)
