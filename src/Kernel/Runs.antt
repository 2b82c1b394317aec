-- ===== src/Kernel/Runs.antt =====
-- Runs of the list of calls of `kernel_main` (kernel/main.c): to the end, or up to a call that gives 0.
use rotary_os.Base.{ℕ, ◌≡◌, refl, false, ◌==◌, Option, some, List, [], ◌∷◌}
use rotary_os.Kernel.{
  Part, Machine, Action, silent, checked, done, returned, say, starts, fails, works, run_actions,
}

-- Every call of the list works, and the last leaves a machine in `P`.
pub data Leads (P : Machine → Type 0) : List Action → Machine → Type 0 where
  ends : {m : Machine} → P m → Leads P [] m
  quiet :
      {f : Machine → Machine} {rest : List Action} {m : Machine}
      → Leads P rest (f m)
      → Leads P (silent f ∷ rest) m
  passes :
      {f : Machine → Option (ℕ × Machine)} {part : Part} {rest : List Action} {m : Machine}
      (x : ℕ × Machine)
      → f (say m (starts part)) ≡ some x
      → (x.0 == 0) ≡ false
      → Leads P rest (say x.1 (works part))
      → Leads P (checked part f ∷ rest) m

pub run_actions-Leads :
    {P : Machine → Type 0} {calls : List Action} {m : Machine}
    → Leads P calls m
    → (m' : Machine) × (run_actions calls m ≡ some (done m')) × P m'
unfolding run_actions
run_actions-Leads (ends {m} h) = (m, refl, h)
run_actions-Leads (quiet h) = run_actions-Leads h
run_actions-Leads (passes {part = part} {rest = rest} (result, m₁) e live h) =
    let (m', q, k) = run_actions-Leads h in (m', rw (e, live) q, k)

-- A call of the list gives 0, those in front of it do not, and the machine behind it is in `P`.
pub data Halts (P : Machine → Type 0) : List Action → Machine → Type 0 where
  quiet :
      {f : Machine → Machine} {rest : List Action} {m : Machine}
      → Halts P rest (f m)
      → Halts P (silent f ∷ rest) m
  passes :
      {f : Machine → Option (ℕ × Machine)} {part : Part} {rest : List Action} {m : Machine}
      (x : ℕ × Machine)
      → f (say m (starts part)) ≡ some x
      → (x.0 == 0) ≡ false
      → Halts P rest (say x.1 (works part))
      → Halts P (checked part f ∷ rest) m
  stops :
      {f : Machine → Option (ℕ × Machine)} {part : Part} {rest : List Action} {m : Machine}
      (m₁ : Machine)
      → f (say m (starts part)) ≡ some (0, m₁)
      → P (say m₁ (fails part))
      → Halts P (checked part f ∷ rest) m

pub run_actions-Halts :
    {P : Machine → Type 0} {calls : List Action} {m : Machine}
    → Halts P calls m
    → (m' : Machine) × (run_actions calls m ≡ some (returned m')) × P m'
unfolding run_actions
run_actions-Halts (Halts.quiet h) = run_actions-Halts h
run_actions-Halts (Halts.passes (result, m₁) e live h) =
    let (m', q, k) = run_actions-Halts h in (m', rw (e, live) q, k)
run_actions-Halts (stops {part = part} m₁ e h) = (say m₁ (fails part), rw e refl, h)
