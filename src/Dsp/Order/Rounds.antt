-- ===== src/Dsp/Order/Rounds.antt =====
-- What holds while the queue is drained.
use Prim.Native.String.{String}
use text.Mathlib.Text.{◌==◌ as same_text}
use text.Mathlib.TextEquality.{eq_iff}
use text.Mathlib.TextPositions.{eq_refl}
use mboot_core.Prelude.{
  ℕ, zero, suc, ◌+◌, ◌≡◌, refl, sym, ap, ◌∙◌, inl, inr, arith, pos, Bool, true, false, ◌||◌, List,
  [], ◌∷◌, ◌++◌, append_assoc, All, All-append, Bool-cases,
}
use mboot_core.Dsp.Graph.{DependencyNode, has_id, is_node, Degrees, pred, change, is_zero, release}
use mboot_core.Dsp.Order.{
  one, occurrences, waiting, Fresh, Fresh-snoc, has_id-append, change_same, change_other,
  is_node_same,
}

-- `done` are the packages in the order, `ds` what is left of the dependencies of the last one. A
-- degree counts the dependencies that are not taken up; none is left on what is done or in the queue.
pub record Holds (nodes : List DependencyNode) (done ds : List String) (g : Degrees)
    (queue : List String) : Type 0 where
  pub count :
      (x : String) → is_node x nodes ≡ true → g x ≡ pos (waiting done x nodes + occurrences x ds)
  pub quiet :
      (x : String) → has_id x (done ++ queue) ≡ true → waiting done x nodes + occurrences x ds ≡ 0
  pub fresh : Fresh done queue
  pub known : All (λ x. is_node x nodes ≡ true) queue

or_last : (a b : Bool) → a ≡ false → (a || (b || false)) ≡ true → b ≡ true
or_last true b f t = absurd (cc)
or_last false true f t = refl
or_last false false f t = t

module _ (nodes : List DependencyNode) (done : List String) where
  pub skip-Holds :
      (d : String) (ds : List String) (g : Degrees) (queue : List String)
      → is_node d nodes ≡ false
      → Holds nodes done (d ∷ ds) g queue
      → Holds nodes done ds g queue
  skip-Holds d ds g queue none h = record {
    count = λ x n. elim (Bool-cases (same_text x d)) [
      | inl same ↦ absurd (cc (is_node_same x d nodes same))
      | inr other ↦
          h.count x n
          ∙ ap (λ b. pos (waiting done x nodes + (one b + occurrences x ds))) other
          ∙ ap pos (omega arith)
    ];
    quiet = λ x m. let still = h.quiet x m in omega (arith, still);
    fresh = h.fresh;
    known = h.known;
  }

  pub count_next :
      (d : String) (ds : List String) (g : Degrees) (queue : List String) (x : String)
      → Holds nodes done (d ∷ ds) g queue
      → is_node x nodes ≡ true
      → change pred d g x ≡ pos (waiting done x nodes + occurrences x ds)
  count_next d ds g queue x h n = elim (Bool-cases (same_text x d)) [
    | inl same ↦
        let before : g x ≡ pos (suc (waiting done x nodes + occurrences x ds)) =
          h.count x n
          ∙ ap (λ b. pos (waiting done x nodes + (one b + occurrences x ds))) same
          ∙ ap pos (omega arith) in
        change_same pred x d g same ∙ ap pred before
    | inr other ↦
        change_other pred x d g other
        ∙ h.count x n
        ∙ ap (λ b. pos (waiting done x nodes + (one b + occurrences x ds))) other
        ∙ ap pos (omega arith)
  ]

  pub step-Holds :
      (d : String) (ds : List String) (g : Degrees) (queue : List String)
      → Holds nodes done (d ∷ ds) g queue
      → Holds nodes done ds (change pred d g) queue
  step-Holds d ds g queue h = record {
    count = λ x n. count_next d ds g queue x h n;
    quiet = λ x m. let still = h.quiet x m in omega (arith, still);
    fresh = h.fresh;
    known = h.known;
  }

  pub push-Holds :
      (d : String) (ds : List String) (g : Degrees) (queue : List String)
      → is_node d nodes ≡ true
      → has_id d (done ++ queue) ≡ false
      → waiting done d nodes + occurrences d ds ≡ 0
      → Holds nodes done ds g queue
      → Holds nodes done ds g (queue ++ d ∷ [])
  push-Holds d ds g queue node new still h = record {
    count = h.count;
    quiet = λ x m. elim (Bool-cases (has_id x (done ++ queue))) [
      | inl old ↦ h.quiet x old
      | inr absent ↦
          let apart : has_id x (done ++ queue ++ d ∷ [])
              ≡ (has_id x (done ++ queue) || has_id x (d ∷ [])) =
            has_id-append x (done ++ queue) (d ∷ []) in
          let same : same_text x d ≡ true =
            or_last (has_id x (done ++ queue)) (same_text x d) absent
              (sym apart ∙ ap (has_id x) (append_assoc done queue (d ∷ [])) ∙ m) in
          ap (λ y. waiting done y nodes + occurrences y ds) ((eq_iff x d).0 same) ∙ still
    ];
    fresh = Fresh-snoc done queue d h.fresh new;
    known = All-append _ queue (d ∷ []) h.known (node, tt);
  }

  pub pos_zero : (k : ℕ) → is_zero (pos k) ≡ true → k ≡ 0
  pos_zero zero h = refl
  pos_zero (suc k) h = absurd (cc)

  pub is_new :
      (d : String) (ds : List String) (g : Degrees) (queue : List String)
      → Holds nodes done (d ∷ ds) g queue
      → has_id d (done ++ queue) ≡ false
  is_new d ds g queue h = elim (Bool-cases (has_id d (done ++ queue))) [
    | inr new ↦ new
    | inl seen ↦
        let left = h.quiet d seen in
        let counted : one (same_text d d) ≡ 1 = ap one (eq_refl d) in
        absurd (omega (arith, left, counted))
  ]

  pub release-Holds :
      (ds : List String) (g : Degrees) (queue : List String)
      → Holds nodes done ds g queue
      → Holds nodes done [] (release nodes ds g queue).0 (release nodes ds g queue).1
  unfolding release
  release-Holds [] g queue h = h
  release-Holds (d ∷ ds) g queue h = elim (Bool-cases (is_node d nodes)) [
    | inr none ↦ rw (none, release) (release-Holds ds g queue (skip-Holds d ds g queue none h))
    | inl node ↦
        let next = change pred d g in
        elim (Bool-cases (is_zero (next d))) [
          | inr z ↦ rw (node, release, z) (release-Holds ds next queue (step-Holds d ds g queue h))
          | inl z ↦
              let left = pos_zero _ (ap is_zero (sym (count_next d ds g queue d h node)) ∙ z) in
              rw (node, release, z)
                (release-Holds ds next (queue ++ d ∷ []) (
                  push-Holds d ds next queue node (is_new d ds g queue h) left
                    (step-Holds d ds g queue h)))
        ]
  ]
