-- ===== src/Dsp/Order/Resolves.antt =====
-- `resolve` starts the queue so that it drains in order.
use Prim.Native.String.{String}
use text.Mathlib.Text.{◌==◌ as same_text}
use text.Mathlib.TextEquality.{eq_iff}
use mboot_core.Prelude.{
  ℕ, zero, suc, ◌+◌, ◌≡◌, refl, sym, ap, ◌∙◌, inl, inr, arith, pos, true, false, List, [], ◌∷◌,
  ◌++◌, length, All, Bool-cases,
}
use mboot_core.Domain.{Result, Gives, bind-Gives}
use mboot_core.Dsp.Graph.{
  DependencyNode, DspDependencyGraph, has_id, is_node, Degrees, is_zero, in_degrees, start_queue,
  drain, topo_sort, resolve,
}
use mboot_core.Dsp.Order.{waiting, Fresh, count_all_lem, is_head, in_tail}
use mboot_core.Dsp.Order.Rounds.{Holds}
use mboot_core.Dsp.Order.Measure.{start_queue_measure}
use mboot_core.Dsp.Order.Sound.{AreDistinct, has_id_snoc}
use mboot_core.Dsp.Order.Ready.{Ready}
use mboot_core.Dsp.Order.Drains.{IsMaximal, IsOrder, drain-IsOrder}

started :
    (ns : List DependencyNode) (g : Degrees) (x : String)
    → has_id x (start_queue ns g) ≡ true
    → (is_node x ns ≡ true) × (is_zero (g x) ≡ true)
unfolding start_queue
started [] g x h = absurd (cc)
started (n ∷ ns) g x h = elim (Bool-cases (same_text x n.package_id)) [
  | inl same ↦ elim (Bool-cases (is_zero (g n.package_id))) [
    | inl z ↦ (rw same refl, ap (λ y. is_zero (g y)) ((eq_iff x n.package_id).0 same) ∙ z)
    | inr z ↦ let (node, zero') = started ns g x (rw z at h) in (rw same refl, zero')
  ]
  | inr other ↦ elim (Bool-cases (is_zero (g n.package_id))) [
    | inl z ↦ let (node, zero') = started ns g x (rw (z, other) at h) in (rw other node, zero')
    | inr z ↦ let (node, zero') = started ns g x (rw z at h) in (rw other node, zero')
  ]
]

not_head :
    (n : DependencyNode) (ns : List DependencyNode) (x : String)
    → is_node n.package_id ns ≡ false
    → is_node x ns ≡ true
    → same_text x n.package_id ≡ false
not_head n ns x u h = elim (Bool-cases (same_text x n.package_id)) [
  | inr other ↦ other
  | inl same ↦
      let moved : is_node n.package_id ns ≡ true =
        ap (λ y. is_node y ns) (sym ((eq_iff x n.package_id).0 same)) ∙ h in
      absurd (cc)
]

starts :
    (ns : List DependencyNode) (g : Degrees) (x : String)
    → is_node x ns ≡ true
    → is_zero (g x) ≡ true
    → has_id x (start_queue ns g) ≡ true
unfolding start_queue
starts [] g x n z = absurd (cc)
starts (n ∷ ns) g x node z = elim (Bool-cases (same_text x n.package_id)) [
  | inl same ↦
      let here : is_zero (g n.package_id) ≡ true =
        ap (λ y. is_zero (g y)) (sym ((eq_iff x n.package_id).0 same)) ∙ z in
      rw (here, same) refl
  | inr other ↦
      let later : is_node x ns ≡ true = rw other at node in
      elim (Bool-cases (is_zero (g n.package_id))) [
        | inl first ↦ rw (first, other) (starts ns g x later z)
        | inr not_first ↦ rw not_first (starts ns g x later z)
      ]
]

start-Fresh :
    (ns : List DependencyNode) (g : Degrees) (done : List String)
    → AreDistinct ns
    → ((x : String) → is_node x ns ≡ true → has_id x done ≡ false)
    → Fresh done (start_queue ns g)
unfolding start_queue
start-Fresh [] g done u h = tt
start-Fresh (n ∷ ns) g done u h = elim (Bool-cases (is_zero (g n.package_id))) [
  | inr z ↦ rw z (start-Fresh ns g done u.1 (λ x node. h x (in_tail n ns x node)))
  | inl z ↦ rw z (
    h n.package_id (is_head n ns),
    start-Fresh ns g (done ++ n.package_id ∷ []) u.1 (λ x node.
        has_id_snoc x n.package_id done (not_head n ns x u.0 node) ∙ h x (in_tail n ns x node)),
  )
]

start-known :
    (ns nodes : List DependencyNode) (g : Degrees)
    → ((x : String) → is_node x ns ≡ true → is_node x nodes ≡ true)
    → All (λ x. is_node x nodes ≡ true) (start_queue ns g)
unfolding start_queue
start-known [] nodes g h = tt
start-known (n ∷ ns) nodes g h = elim (Bool-cases (is_zero (g n.package_id))) [
  | inr z ↦ rw z (start-known ns nodes g (λ x node. h x (in_tail n ns x node)))
  | inl z ↦
      rw z (
        h n.package_id (is_head n ns),
        start-known ns nodes g (λ x node. h x (in_tail n ns x node)),
      )
]

zero_pos : (k : ℕ) → is_zero (pos k) ≡ true → k ≡ 0
zero_pos zero h = refl
zero_pos (suc k) h = absurd (cc)

module _ (nodes : List DependencyNode) (u : AreDistinct nodes) where
  counted :
      (x : String) → is_node x nodes ≡ true → in_degrees nodes x ≡ pos (waiting [] x nodes + 0)
  unfolding in_degrees
  counted x n = count_all_lem nodes nodes (λ _. pos 0) x 0 n refl ∙ ap pos (omega arith)

  start-Holds : Holds nodes [] [] (in_degrees nodes) (start_queue nodes (in_degrees nodes))
  start-Holds = record {
    count = counted;
    quiet = λ x m.
        let (node, z) = started nodes (in_degrees nodes) x m in
        zero_pos _ (ap is_zero (sym (counted x node)) ∙ z);
    fresh = start-Fresh nodes (in_degrees nodes) [] u (λ x n. refl);
    known = start-known nodes nodes (in_degrees nodes) (λ x n. n);
  }

  start-Ready : Ready nodes [] [] (start_queue nodes (in_degrees nodes))
  start-Ready x n w = starts nodes (in_degrees nodes) x n (ap is_zero (counted x n ∙ ap pos w))

  pub drained : Gives (IsOrder nodes) (
      drain (suc (length nodes)) nodes (in_degrees nodes) (start_queue nodes (in_degrees nodes)) [])
  drained =
      drain-IsOrder (suc (length nodes)) nodes (in_degrees nodes)
        (start_queue nodes (in_degrees nodes)) [] u start-Holds start-Ready tt tt
        (omega (arith, start_queue_measure nodes (in_degrees nodes)))

topo_sort-IsOrder :
    (g : DspDependencyGraph)
    → AreDistinct g.nodes
    → Gives (λ g'. IsOrder g.nodes g'.resolution_order × (g'.nodes ≡ g.nodes)) (topo_sort g)
unfolding topo_sort
topo_sort-IsOrder g u =
    bind-Gives (IsOrder g.nodes) _ _ _ (drained g.nodes u) (λ order sound. (sound, refl))

empty-IsMaximal : (nodes : List DependencyNode) → nodes ≡ [] → IsMaximal nodes [] nodes
empty-IsMaximal [] e = tt
empty-IsMaximal (n ∷ ns) e = absurd (cc)

in_either :
    (P : DspDependencyGraph → Type 0) (ns : List DependencyNode) (a b : Result DspDependencyGraph)
    → (ns ≡ [] → Gives P a)
    → Gives P b
    → Gives P (elim ns [ [] ↦ a | n ∷ rest ↦ b ])
in_either P [] a b p q = p refl
in_either P (n ∷ ns) a b p q = q

-- A graph in which no identifier stands twice is resolved: its nodes stay as they are, and in the
-- order that is found no package stands twice, every package comes after all that depend on it, and
-- a package is left out only if another that is left out depends on it.
pub resolve-IsOrder :
    (g : DspDependencyGraph)
    → AreDistinct g.nodes
    → Gives (λ g'. IsOrder g.nodes g'.resolution_order × (g'.nodes ≡ g.nodes)) (resolve g)
unfolding resolve
resolve-IsOrder g u =
    in_either (λ g'. IsOrder g.nodes g'.resolution_order × (g'.nodes ≡ g.nodes)) g.nodes _ _
      (λ e. ((tt, tt, empty-IsMaximal g.nodes e), refl)) (topo_sort-IsOrder g u)
