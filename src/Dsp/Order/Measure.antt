-- ===== src/Dsp/Order/Measure.antt =====
-- Each round of the queue takes up one of the nodes that wait.
use Prim.Native.String.{String}
use text.Mathlib.Text.{◌==◌ as same_text}
use text.Mathlib.TextEquality.{eq_iff}
use text.Mathlib.TextPositions.{eq_refl}
use mboot_core.Prelude.{
  ℕ, zero, suc, ◌+◌, ◌≤◌, ◌≡◌, refl, sym, ap, ◌∙◌, inl, inr, arith, ℤ, pos, negsuc, Bool, true,
  false, List, [], ◌∷◌, ◌++◌, length, length-append, Bool-cases,
}
use mboot_core.Dsp.Graph.{
  DependencyNode, is_node, Degrees, pred, change, is_zero, start_queue, release,
}
use mboot_core.Dsp.Order.{one, change_same}

abbrev is_positive : ℤ → Bool
is_positive (pos zero) = false
is_positive (pos (suc n)) = true
is_positive (negsuc n) = false

-- The nodes that wait for another.
abbrev pub positives : Degrees → List DependencyNode → ℕ
positives g [] = 0
positives g (n ∷ ns) = one (is_positive (g n.package_id)) + positives g ns

pred_positive : (z : ℤ) → one (is_positive (pred z)) ≤ one (is_positive z)
pred_positive (pos zero) = omega arith
pred_positive (pos (suc zero)) = omega arith
pred_positive (pos (suc (suc n))) = omega arith
pred_positive (negsuc n) = omega arith

pred_zero :
    (z : ℤ) → is_zero (pred z) ≡ true → (is_positive z ≡ true) × (is_positive (pred z) ≡ false)
pred_zero (pos zero) h = absurd (cc)
pred_zero (pos (suc zero)) h = (refl, refl)
pred_zero (pos (suc (suc n))) h = absurd (cc)
pred_zero (negsuc n) h = absurd (cc)

change_positive :
    (d : String) (g : Degrees) (y : String)
    → one (is_positive (change pred d g y)) ≤ one (is_positive (g y))
change_positive d g y = elim (Bool-cases (same_text y d)) [
  | inl h ↦ rw h (pred_positive (g y))
  | inr h ↦ rw h (omega arith)
]

one-le : (b : Bool) → one b ≤ 1
one-le true = omega arith
one-le false = omega arith

zero_positive : (z : ℤ) → is_zero z ≡ true → is_positive z ≡ false
zero_positive (pos zero) h = refl
zero_positive (pos (suc n)) h = absurd (cc)
zero_positive (negsuc n) h = absurd (cc)

positives-change :
    (d : String) (g : Degrees) (ns : List DependencyNode)
    → positives (change pred d g) ns ≤ positives g ns
positives-change d g [] = omega arith
positives-change d g (n ∷ ns) =
    omega (arith, positives-change d g ns, change_positive d g n.package_id)

-- A node that is released waits no longer.
positives_released :
    (d : String) (g : Degrees) (ns : List DependencyNode)
    → is_node d ns ≡ true
    → is_zero (change pred d g d) ≡ true
    → suc (positives (change pred d g) ns) ≤ positives g ns
positives_released d g [] n z = absurd (cc)
positives_released d g (m ∷ ns) n z = elim (Bool-cases (same_text d m.package_id)) [
  | inl h ↦
      let e : d ≡ m.package_id = (eq_iff d m.package_id).0 h in
      let here : change pred d g d ≡ pred (g d) = change_same pred d d g (eq_refl d) in
      let (was, is) = pred_zero (g d) (ap is_zero (sym here) ∙ z) in
      let after : one (is_positive (change pred d g m.package_id)) ≡ 0 =
        ap (λ y. one (is_positive (change pred d g y))) (sym e)
        ∙ ap (λ v. one (is_positive v)) here
        ∙ ap one is in
      let before : one (is_positive (g m.package_id)) ≡ 1 =
        ap (λ y. one (is_positive (g y))) (sym e) ∙ ap one was in
      omega (arith, after, before, positives-change d g ns)
  | inr h ↦
      let later : is_node d ns ≡ true = rw h at n in
      omega (arith, positives_released d g ns later z, change_positive d g m.package_id)
]

pub release_measure :
    (nodes : List DependencyNode) (ds : List String) (g : Degrees) (queue : List String)
    → length (release nodes ds g queue).1 + positives (release nodes ds g queue).0 nodes
      ≤ length queue + positives g nodes
unfolding release
release_measure nodes [] g queue = omega arith
release_measure nodes (d ∷ ds) g queue = elim (Bool-cases (is_node d nodes)) [
  | inr none ↦ rw (none, release) (release_measure nodes ds g queue)
  | inl node ↦
      let next = change pred d g in
      elim (Bool-cases (is_zero (next d))) [
        | inl z ↦
            rw (node, release, z)
              (omega (
                arith,
                release_measure nodes ds next (queue ++ d ∷ []),
                positives_released d g nodes node z,
                length-append queue (d ∷ []),
              ))
        | inr z ↦
            rw (node, release, z)
              (omega (arith, release_measure nodes ds next queue, positives-change d g nodes))
      ]
]

pub start_queue_measure :
    (ns : List DependencyNode) (g : Degrees)
    → length (start_queue ns g) + positives g ns ≤ length ns
unfolding start_queue
start_queue_measure [] g = omega arith
start_queue_measure (n ∷ ns) g = elim (Bool-cases (is_zero (g n.package_id))) [
  | inl h ↦
      let still : one (is_positive (g n.package_id)) ≡ 0 =
        ap one (zero_positive (g n.package_id) h) in
      rw h (omega (arith, still, start_queue_measure ns g))
  | inr h ↦ rw h (omega (arith, one-le (is_positive (g n.package_id)), start_queue_measure ns g))
]
