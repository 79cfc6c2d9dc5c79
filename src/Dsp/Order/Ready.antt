-- ===== src/Dsp/Order/Ready.antt =====
-- No package that could be taken up is left out of the order.
use Prim.Native.String.{String}
use text.Mathlib.Text.{◌==◌ as same_text}
use text.Mathlib.TextEquality.{eq_iff}
use mboot_core.Prelude.{
  ◌+◌, ◌≡◌, refl, sym, ap, ◌∙◌, inl, inr, arith, pos, Bool, true, false, ◌||◌, List, [], ◌∷◌, ◌++◌,
  append_assoc, Bool-cases,
}
use mboot_core.Dsp.Graph.{
  DependencyNode, has_id, is_node, dependencies_of, Degrees, pred, change, is_zero, release,
}
use mboot_core.Dsp.Order.{one, occurrences, waiting, has_id-append, is_node_same}
use mboot_core.Dsp.Order.Rounds.{
  Holds, skip-Holds, count_next, step-Holds, push-Holds, pos_zero, is_new,
}
use mboot_core.Dsp.Order.Sound.{AreDistinct, has_id_last, waiting_done}

-- What waits for nothing is in the order or in the queue.
abbrev pub Ready : List DependencyNode → (done ds queue : List String) → Type 0
Ready nodes done ds queue =
    (x : String)
    → is_node x nodes ≡ true
    → waiting done x nodes + occurrences x ds ≡ 0
    → has_id x (done ++ queue) ≡ true

or_left : (a b : Bool) → a ≡ true → (a || b) ≡ true
or_left true b h = refl
or_left false b h = absurd (cc)

module _ (nodes : List DependencyNode) (done : List String) where
  -- A round whose package is not released leaves what is said of the others.
  others-Ready :
      (d : String) (ds queue : List String) (x : String)
      → Ready nodes done (d ∷ ds) queue
      → same_text x d ≡ false
      → is_node x nodes ≡ true
      → waiting done x nodes + occurrences x ds ≡ 0
      → has_id x (done ++ queue) ≡ true
  others-Ready d ds queue x r other n w =
      let uncounted : one (same_text x d) ≡ 0 = ap one other in r x n (omega (arith, w, uncounted))

  pushed :
      (d : String) (ds queue : List String)
      → Ready nodes done (d ∷ ds) queue
      → Ready nodes done ds (queue ++ d ∷ [])
  pushed d ds queue r x n w =
      ap (has_id x) (sym (append_assoc done queue (d ∷ []))) ∙ elim (Bool-cases (same_text x d)) [
        | inl same ↦ has_id_last x d (done ++ queue) same
        | inr other ↦
            has_id-append x (done ++ queue) (d ∷ [])
            ∙ or_left _ _ (others-Ready d ds queue x r other n w)
      ]

  skipped :
      (d : String) (ds queue : List String)
      → is_node d nodes ≡ false
      → Ready nodes done (d ∷ ds) queue
      → Ready nodes done ds queue
  skipped d ds queue absent r x n w = elim (Bool-cases (same_text x d)) [
    | inl same ↦ absurd (cc (is_node_same x d nodes same))
    | inr other ↦ others-Ready d ds queue x r other n w
  ]

  kept :
      (d : String) (ds : List String) (g : Degrees) (queue : List String)
      → Holds nodes done (d ∷ ds) g queue
      → is_zero (change pred d g d) ≡ false
      → Ready nodes done (d ∷ ds) queue
      → Ready nodes done ds queue
  kept d ds g queue h z r x n w = elim (Bool-cases (same_text x d)) [
    | inl same ↦
        let left : change pred d g x ≡ pos 0 =
          count_next nodes done d ds g queue x h n ∙ ap pos w in
        let here : is_zero (change pred d g d) ≡ true =
          ap (λ y. is_zero (change pred d g y)) (sym ((eq_iff x d).0 same)) ∙ ap is_zero left in
        absurd (cc)
    | inr other ↦ others-Ready d ds queue x r other n w
  ]

  pub release-Ready :
      (ds : List String) (g : Degrees) (queue : List String)
      → Holds nodes done ds g queue
      → Ready nodes done ds queue
      → Ready nodes done [] (release nodes ds g queue).1
  unfolding release
  release-Ready [] g queue h r = r
  release-Ready (d ∷ ds) g queue h r = elim (Bool-cases (is_node d nodes)) [
    | inr absent ↦
        rw (absent, release)
          (release-Ready ds g queue (skip-Holds nodes done d ds g queue absent h)
            (skipped d ds queue absent r))
    | inl node ↦
        let next = change pred d g in
        let stepped = step-Holds nodes done d ds g queue h in
        elim (Bool-cases (is_zero (next d))) [
          | inr z ↦
              rw (node, release, z) (release-Ready ds next queue stepped (kept d ds g queue h z r))
          | inl z ↦
              let left =
                pos_zero nodes done _
                  (ap is_zero (sym (count_next nodes done d ds g queue d h node)) ∙ z) in
              rw (node, release, z)
                (release-Ready ds next (queue ++ d ∷ [])
                  (push-Holds nodes done d ds next queue node (is_new nodes done d ds g queue h)
                    left stepped)
                  (pushed d ds queue r))
        ]
  ]

pub next-Ready :
    (nodes : List DependencyNode) (done : List String) (g : Degrees) (id : String)
    (queue : List String)
    → AreDistinct nodes
    → Holds nodes done [] g (id ∷ queue)
    → Ready nodes done [] (id ∷ queue)
    → Ready nodes (done ++ id ∷ []) (dependencies_of id nodes) queue
next-Ready nodes done g id queue u h r x n w =
    ap (has_id x) (append_assoc done (id ∷ []) queue)
    ∙ r x n (omega (arith, w, waiting_done done id x nodes u h.known.0 h.fresh.0))
