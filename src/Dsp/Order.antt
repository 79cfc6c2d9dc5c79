-- ===== src/Dsp/Order.antt =====
-- The order of `topoSort`: it is found, and every package comes after all that depend on it.
pub mod Rounds
pub mod Measure
pub mod Sound
pub mod Ready
pub mod Drains
pub mod Distinct
pub mod Resolves
use Prim.Native.String.{String}
use text.Mathlib.Text.{◌==◌ as same_text}
use text.Mathlib.TextEquality.{eq_iff}
use text.Mathlib.TextPositions.{eq_refl}
use mathlib.Core.Path.{subst}
use mboot_core.Prelude.{
  ℕ, zero, suc, ◌+◌, ◌≤◌, ◌<◌, ◌≡◌, ◌≢◌, ◌⊎◌, refl, sym, ap, ◌∙◌, inl, inr, arith, ℤ, pos, negsuc,
  Bool, true, false, ◌&&◌, ◌||◌, List, [], ◌∷◌, ◌++◌, append_assoc, append-nil, length,
  length-append, All, All-append, Bool-cases,
}
use mboot_core.Dsp.Graph.{
  DependencyNode, has_id, is_node, dependencies_of, Degrees, succ, pred, change, is_zero,
  count_dependencies, count_all, in_degrees, start_queue, release, drain,
}

abbrev pub one : Bool → ℕ
one true = 1
one false = 0

-- How often an identifier stands in a list.
abbrev pub occurrences : String → List String → ℕ
occurrences x [] = 0
occurrences x (d ∷ ds) = one (same_text x d) + occurrences x ds

-- The dependencies on a package that nodes outside a list have.
abbrev pub waiting : List String → String → List DependencyNode → ℕ
waiting done x [] = 0
waiting done x (n ∷ ns) =
    elim (has_id n.package_id done) [ true ↦ 0 | false ↦ occurrences x n.dependencies ]
    + waiting done x ns

pub is_node_same :
    (x y : String) (ns : List DependencyNode) → same_text x y ≡ true → is_node y ns ≡ is_node x ns
is_node_same x y ns h = ap (λ z. is_node z ns) (sym ((eq_iff x y).0 h))

pub change_same :
    (f : ℤ → ℤ) (x d : String) (g : Degrees) → same_text x d ≡ true → change f d g x ≡ f (g x)
change_same f x d g h = rw h refl

pub change_other :
    (f : ℤ → ℤ) (x d : String) (g : Degrees) → same_text x d ≡ false → change f d g x ≡ g x
change_other f x d g h = rw h refl

-- Counting the dependencies of a node adds their occurrences.
count_dependencies_lem :
    (nodes : List DependencyNode) (ds : List String) (g : Degrees) (x : String) (k : ℕ)
    → is_node x nodes ≡ true
    → g x ≡ pos k
    → count_dependencies nodes ds g x ≡ pos (k + occurrences x ds)
unfolding count_dependencies
count_dependencies_lem nodes [] g x k n h = h ∙ ap pos (omega arith)
count_dependencies_lem nodes (d ∷ ds) g x k n h = elim (Bool-cases (same_text x d)) [
  | inl same ↦
      let node : is_node d nodes ≡ true = is_node_same x d nodes same ∙ n in
      let next : change succ d g x ≡ pos (suc k) = change_same succ x d g same ∙ ap succ h in
      rw (node, same)
        (count_dependencies_lem nodes ds (change succ d g) x (suc k) n next ∙ ap pos (omega arith))
  | inr other ↦ elim (Bool-cases (is_node d nodes)) [
    | inl node ↦
        rw (node, other)
          (count_dependencies_lem nodes ds (change succ d g) x k n
              (change_other succ x d g other ∙ h)
            ∙ ap pos (omega arith))
    | inr none ↦ rw (none, other) (count_dependencies_lem nodes ds g x k n h ∙ ap pos (omega arith))
  ]
]

pub count_all_lem :
    (nodes rest : List DependencyNode) (g : Degrees) (x : String) (k : ℕ)
    → is_node x nodes ≡ true
    → g x ≡ pos k
    → count_all nodes rest g x ≡ pos (k + waiting [] x rest)
unfolding count_all
count_all_lem nodes [] g x k n h = h ∙ ap pos (omega arith)
count_all_lem nodes (m ∷ rest) g x k n h =
    count_all_lem nodes rest (count_dependencies nodes m.dependencies g) x
      (k + occurrences x m.dependencies) n (count_dependencies_lem nodes m.dependencies g x k n h)
    ∙ ap pos (omega arith)

-- Taken up one by one, each identifier of a list is not yet done.
abbrev pub Fresh : List String → List String → Type 0
Fresh done [] = Unit
Fresh done (q ∷ qs) = (has_id q done ≡ false) × Fresh (done ++ q ∷ []) qs

pub has_id-append :
    (x : String) (xs ys : List String) → has_id x (xs ++ ys) ≡ (has_id x xs || has_id x ys)
has_id-append x [] ys = refl
has_id-append x (y ∷ xs) ys = elim (Bool-cases (same_text x y)) [
  | inl h ↦ rw h refl
  | inr h ↦ rw h (has_id-append x xs ys)
]

pub Fresh-snoc :
    (done queue : List String) (x : String)
    → Fresh done queue
    → has_id x (done ++ queue) ≡ false
    → Fresh done (queue ++ x ∷ [])
Fresh-snoc done [] x f h = (ap (has_id x) (sym (append-nil done)) ∙ h, tt)
Fresh-snoc done (q ∷ queue) x f h = (
  f.0,
  Fresh-snoc (done ++ q ∷ []) queue x f.1 (ap (has_id x) (append_assoc done (q ∷ []) queue) ∙ h),
)

pub is_head : (n : DependencyNode) (ns : List DependencyNode) → is_node n.package_id (n ∷ ns) ≡ true
is_head n ns = ap (λ b. b || is_node n.package_id ns) (eq_refl n.package_id)

pub in_tail :
    (n : DependencyNode) (ns : List DependencyNode) (x : String)
    → is_node x ns ≡ true
    → is_node x (n ∷ ns) ≡ true
in_tail n ns x h = elim (Bool-cases (same_text x n.package_id)) [
  | inl same ↦ rw same refl
  | inr other ↦ rw other h
]
