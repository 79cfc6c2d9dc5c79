-- ===== src/Dsp/Order/Drains.antt =====
-- The loop over the queue gives an order.
use Prim.Native.String.{String}
use mboot_core.Prelude.{
  ℕ, zero, suc, ◌+◌, ◌<◌, ◌≡◌, ◌⊎◌, refl, sym, ap, ◌∙◌, inl, inr, arith, true, List, [], ◌∷◌, ◌++◌,
  append-nil, length, All,
}
use mboot_core.Domain.{Gives}
use mboot_core.Dsp.Graph.{DependencyNode, has_id, is_node, dependencies_of, Degrees, release, drain}
use mboot_core.Dsp.Order.{waiting, Fresh, Fresh-snoc, is_head, in_tail}
use mboot_core.Dsp.Order.Rounds.{Holds, release-Holds}
use mboot_core.Dsp.Order.Measure.{positives, release_measure}
use mboot_core.Dsp.Order.Sound.{AreDistinct, Follows, Follows-snoc, next-Holds, first_still}
use mboot_core.Dsp.Order.Ready.{Ready, release-Ready, next-Ready}

-- Every package is in the order, or a package outside the order depends on it.
abbrev pub IsMaximal : List DependencyNode → List String → List DependencyNode → Type 0
IsMaximal nodes order =
    All (λ n. (has_id n.package_id order ≡ true) ⊎ (0 < waiting order n.package_id nodes))

-- An order in which no package stands twice, none stands before one that depends on it, and from
-- which none is left out but what others outside it depend on.
abbrev pub IsOrder : List DependencyNode → List String → Type 0
IsOrder nodes order = Follows nodes [] order × Fresh [] order × IsMaximal nodes order nodes

either_way : {A : Type 0} → (k : ℕ) → (k ≡ 0 → A) → A ⊎ (0 < k)
either_way zero f = inl (f refl)
either_way (suc k) f = inr (omega arith)

maximal :
    (nodes ns : List DependencyNode) (order : List String)
    → ((x : String) → is_node x ns ≡ true → is_node x nodes ≡ true)
    → Ready nodes order [] []
    → IsMaximal nodes order ns
maximal nodes [] order h r = tt
maximal nodes (n ∷ ns) order h r = (
  either_way (waiting order n.package_id nodes) (λ w.
      ap (has_id n.package_id) (sym (append-nil order))
      ∙ r n.package_id (h n.package_id (is_head n ns)) (omega (arith, w))),
  maximal nodes ns order (λ x node. h x (in_tail n ns x node)) r,
)

pub drain-IsOrder :
    (k : ℕ) (nodes : List DependencyNode) (g : Degrees) (queue done : List String)
    → AreDistinct nodes
    → Holds nodes done [] g queue
    → Ready nodes done [] queue
    → Follows nodes [] done
    → Fresh [] done
    → length queue + positives g nodes < k
    → Gives (IsOrder nodes) (drain k nodes g queue done)
unfolding drain
drain-IsOrder zero nodes g queue done u h r o f m = absurd (omega (arith, m))
drain-IsOrder (suc k) nodes g [] done u h r o f m = (o, f, maximal nodes nodes done (λ x n. n) r)
drain-IsOrder (suc k) nodes g (id ∷ queue) done u h r o f m =
    let ds = dependencies_of id nodes in
    let order = done ++ id ∷ [] in
    let held = next-Holds nodes done g id queue u h in
    drain-IsOrder k nodes (release nodes ds g queue).0 (release nodes ds g queue).1 order u
      (release-Holds nodes order ds g queue held)
      (release-Ready nodes order ds g queue held (next-Ready nodes done g id queue u h r))
      (Follows-snoc nodes [] done id o (first_still nodes done g id queue h))
      (Fresh-snoc [] done id f h.fresh.0) (omega (arith, m, release_measure nodes ds g queue))
