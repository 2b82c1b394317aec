-- ===== src/Kernel/Passes.antt =====
-- Lists of calls that `kernel_main` of kernel/main.c makes, none of which gives 0.
use rotary_os.Base.{
  ℕ, ◌≡◌, ◌≢◌, refl, sym, arith, false, ◌==◌, Option, none, some, List, [], ◌∷◌, if◌then◌else◌,
}
use rotary_os.Kernel.{
  Machine, Action, silent, checked, returned, say, starts, fails, works, run_actions,
}

-- No call of the list gives 0.
abbrev pub Passes : List Action → Type 0
Passes [] = Unit
Passes (silent f ∷ rest) = Passes rest
Passes (checked part f ∷ rest) =
    ((m : Machine) (result : ℕ) (m' : Machine) → f m ≡ some (result, m') → result ≢ 0) × Passes rest

pub run_actions-Passes :
    (calls : List Action) (m m' : Machine) → Passes calls → run_actions calls m ≢ some (returned m')
unfolding run_actions
run_actions-Passes [] m m' h = λ e. absurd cc
run_actions-Passes (silent f ∷ rest) m m' h = run_actions-Passes rest (f m) m' h
run_actions-Passes (checked part f ∷ rest) m m' (live, h) =
    step (λ n. run_actions-Passes rest n m' h) (f (say m (starts part))) refl
  where
    step :
        ((n : Machine) → run_actions rest n ≢ some (returned m'))
        → (o : Option (ℕ × Machine)) → f (say m (starts part)) ≡ o
        → (elim o [
          | none ↦ none
          | some (result, m₁) ↦
              if result == 0
              then some (returned (say m₁ (fails part)))
              else run_actions rest (say m₁ (works part))
        ])
          ≢ some (returned m')
    step later none e = λ q. absurd cc
    step later (some (result, m₁)) e =
        let nonzero : (result == 0) ≡ false =
          ground (arith, live (say m (starts part)) result m₁ e) in
        rw nonzero (later (say m₁ (works part)))

-- A call that always answers 1.
pub one_passes :
    (g : Machine → Machine) (m : Machine) (result : ℕ) (m' : Machine)
    → ◌≡◌ {A = Option (ℕ × Machine)} (some (1, g m)) (some (result, m'))
    → result ≢ 0
one_passes g m result m' e z = let same : result ≡ 1 = sym cc in omega arith
