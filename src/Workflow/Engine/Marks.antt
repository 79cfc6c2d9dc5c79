-- ===== src/Workflow/Engine/Marks.antt =====
-- The marks of completed and failed steps.
use mboot_core.Prelude.{ℕ, zero, suc, ◌≡◌, refl, ap, Bool, true, List, [], ◌∷◌, length}
use mboot_core.Workflow.Engine.{StepEntry}
use mboot_core.Workflow.Engine.Attempt.{complete_at, fail_at}

module _ {W : Type 0} where
  abbrev pub completed_at : ℕ → List (StepEntry W) → Bool
  completed_at k [] = true
  completed_at zero (n ∷ ns) = n.completed
  completed_at (suc k) (n ∷ ns) = completed_at k ns

  pub length-complete_at : (i : ℕ) (ns : List (StepEntry W)) → length (complete_at i ns) ≡ length ns
  length-complete_at zero [] = refl
  length-complete_at (suc i) [] = refl
  length-complete_at zero (n ∷ ns) = refl
  length-complete_at (suc i) (n ∷ ns) = ap suc (length-complete_at i ns)

  pub length-fail_at : (i : ℕ) (ns : List (StepEntry W)) → length (fail_at i ns) ≡ length ns
  length-fail_at zero [] = refl
  length-fail_at (suc i) [] = refl
  length-fail_at zero (n ∷ ns) = refl
  length-fail_at (suc i) (n ∷ ns) = ap suc (length-fail_at i ns)

  pub completed_at-complete_at :
      (i k : ℕ) (ns : List (StepEntry W))
      → completed_at k ns ≡ true
      → completed_at k (complete_at i ns) ≡ true
  completed_at-complete_at zero k [] h = h
  completed_at-complete_at (suc i) k [] h = h
  completed_at-complete_at zero zero (n ∷ ns) h = refl
  completed_at-complete_at zero (suc k) (n ∷ ns) h = h
  completed_at-complete_at (suc i) zero (n ∷ ns) h = h
  completed_at-complete_at (suc i) (suc k) (n ∷ ns) h = completed_at-complete_at i k ns h

  pub complete_at_self :
      (i : ℕ) (ns : List (StepEntry W)) → completed_at i (complete_at i ns) ≡ true
  complete_at_self zero [] = refl
  complete_at_self (suc i) [] = refl
  complete_at_self zero (n ∷ ns) = refl
  complete_at_self (suc i) (n ∷ ns) = complete_at_self i ns

  pub completed_at-fail_at :
      (i k : ℕ) (ns : List (StepEntry W)) → completed_at k (fail_at i ns) ≡ completed_at k ns
  completed_at-fail_at zero k [] = refl
  completed_at-fail_at (suc i) k [] = refl
  completed_at-fail_at zero zero (n ∷ ns) = refl
  completed_at-fail_at zero (suc k) (n ∷ ns) = refl
  completed_at-fail_at (suc i) zero (n ∷ ns) = refl
  completed_at-fail_at (suc i) (suc k) (n ∷ ns) = completed_at-fail_at i k ns
