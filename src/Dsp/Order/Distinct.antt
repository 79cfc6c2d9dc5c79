-- ===== src/Dsp/Order/Distinct.antt =====
-- `addPackage` and `removePackage` keep that no identifier stands twice.
use Prim.Native.String.{String}
use text.Mathlib.Text.{◌==◌ as same_text}
use mboot_core.Prelude.{◌≡◌, refl, sym, ap, ◌∙◌, inl, inr, false, ◌||◌, List, [], ◌∷◌, Bool-cases}
use mboot_core.Dsp.Graph.{
  DependencyNode, DspDependencyGraph, is_node, add_package, remove_package, without_node,
}
use mboot_core.Dsp.Order.Sound.{AreDistinct}

without_node-other :
    (id x : String) (ns : List DependencyNode)
    → is_node x ns ≡ false
    → is_node x (without_node id ns) ≡ false
unfolding without_node
without_node-other id x [] h = refl
without_node-other id x (n ∷ ns) h = elim (Bool-cases (same_text x n.package_id)) [
  | inl same ↦ absurd (cc (ap (λ b. b || is_node x ns) (sym same) ∙ h))
  | inr other ↦
      let rest : is_node x ns ≡ false = rw other at h in
      elim (Bool-cases (same_text id n.package_id)) [
        | inl this ↦ rw this rest
        | inr that ↦ rw (that, other) (without_node-other id x ns rest)
      ]
]

without_node-AreDistinct :
    (id : String) (ns : List DependencyNode) → AreDistinct ns → AreDistinct (without_node id ns)
unfolding without_node
without_node-AreDistinct id [] u = u
without_node-AreDistinct id (n ∷ ns) u = elim (Bool-cases (same_text id n.package_id)) [
  | inl this ↦ rw this u.1
  | inr that ↦
      rw that (without_node-other id n.package_id ns u.0, without_node-AreDistinct id ns u.1)
]

module _ (g : DspDependencyGraph) (u : AreDistinct g.nodes) where
  added :
      (id : String) (dependencies : List String)
      → AreDistinct (add_package id dependencies g).0.nodes
  unfolding add_package
  added id dependencies = elim (Bool-cases (same_text id "")) [
    | inl h ↦ rw h u
    | inr h ↦ elim (Bool-cases (is_node id g.nodes)) [
      | inl n ↦ rw (h, n) u
      | inr n ↦ rw (h, n) (n, u)
    ]
  ]

  removed : (id : String) → AreDistinct (remove_package id g).0.nodes
  unfolding remove_package
  removed id = elim (Bool-cases (is_node id g.nodes)) [
    | inl n ↦ rw n (without_node-AreDistinct id g.nodes u)
    | inr n ↦ rw n u
  ]

-- The operations that change a graph keep that no identifier stands twice in it.
pub change-AreDistinct :
    (g : DspDependencyGraph) (u : AreDistinct g.nodes) (id : String) (dependencies : List String)
    → AreDistinct (add_package id dependencies g).0.nodes
      × AreDistinct (remove_package id g).0.nodes
change-AreDistinct g u id dependencies = (added g u id dependencies, removed g u id)
