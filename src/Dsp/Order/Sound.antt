-- ===== src/Dsp/Order/Sound.antt =====
-- The order that `topoSort` finds.
use Prim.Native.String.{String}
use text.Mathlib.Text.{◌==◌ as same_text}
use text.Mathlib.TextEquality.{eq_iff}
use text.Mathlib.TextPositions.{eq_refl}
use mboot_core.Prelude.{
  ℕ, ◌+◌, ◌≡◌, refl, sym, ap, ◌∙◌, inl, inr, arith, pos, Bool, true, false, ◌||◌, if◌then◌else◌,
  List, [], ◌∷◌, ◌++◌, append_assoc, append-nil, Bool-cases,
}
use mboot_core.Dsp.Graph.{DependencyNode, has_id, is_node, dependencies_of, Degrees}
use mboot_core.Dsp.Order.{occurrences, waiting, has_id-append}
use mboot_core.Dsp.Order.Rounds.{Holds}

-- The nodes of a map: no identifier stands twice.
abbrev pub AreDistinct : List DependencyNode → Type 0
AreDistinct [] = Unit
AreDistinct (n ∷ ns) = (is_node n.package_id ns ≡ false) × AreDistinct ns

or_false : (b : Bool) → (b || false) ≡ b
or_false true = refl
or_false false = refl

or_true : (b : Bool) → (b || true) ≡ true
or_true true = refl
or_true false = refl

other_way : (x y : String) → same_text x y ≡ false → same_text y x ≡ false
other_way x y h = elim (Bool-cases (same_text y x)) [
  | inr other ↦ other
  | inl same ↦
      let back : same_text x y ≡ true =
        ap (λ z. same_text z y) (sym ((eq_iff y x).0 same)) ∙ eq_refl y in
      absurd (cc)
]

pub has_id_snoc :
    (x id : String) (done : List String)
    → same_text x id ≡ false
    → has_id x (done ++ id ∷ []) ≡ has_id x done
has_id_snoc x id done h =
    has_id-append x done (id ∷ []) ∙ ap (λ b. has_id x done || (b || false)) h ∙ or_false _

pub has_id_last :
    (x id : String) (done : List String) → same_text x id ≡ true → has_id x (done ++ id ∷ []) ≡ true
has_id_last x id [] h = rw h refl
has_id_last x id (y ∷ done) h = elim (Bool-cases (same_text x y)) [
  | inl same ↦ rw same refl
  | inr other ↦ rw other (has_id_last x id done h)
]

-- What one node adds to the count.
abbrev share : Bool → ℕ → ℕ
share b k = elim b [ true ↦ 0 | false ↦ k ]

-- Nodes other than the package that is done wait as before.
waiting_other :
    (done : List String) (id x : String) (ns : List DependencyNode)
    → is_node id ns ≡ false
    → waiting (done ++ id ∷ []) x ns ≡ waiting done x ns
waiting_other done id x [] h = refl
waiting_other done id x (n ∷ ns) h = elim (Bool-cases (same_text id n.package_id)) [
  | inl same ↦ absurd (cc (ap (λ b. b || is_node id ns) (sym same) ∙ h))
  | inr other ↦
      let rest : is_node id ns ≡ false = rw other at h in
      let here : has_id n.package_id (done ++ id ∷ []) ≡ has_id n.package_id done =
        has_id_snoc n.package_id id done (other_way id n.package_id other) in
      omega (
        arith,
        ap (λ b. share b (occurrences x n.dependencies)) here,
        waiting_other done id x ns rest,
      )
]

pub waiting_done :
    (done : List String) (id x : String) (ns : List DependencyNode)
    → AreDistinct ns
    → is_node id ns ≡ true
    → has_id id done ≡ false
    → waiting done x ns ≡ waiting (done ++ id ∷ []) x ns + occurrences x (dependencies_of id ns)
waiting_done done id x [] u n f = absurd (cc)
waiting_done done id x (m ∷ ns) u n f = elim (Bool-cases (same_text id m.package_id)) [
  | inl same ↦
      let e : id ≡ m.package_id = (eq_iff id m.package_id).0 same in
      let was : has_id m.package_id done ≡ false = ap (λ y. has_id y done) (sym e) ∙ f in
      let is : has_id m.package_id (done ++ id ∷ []) ≡ true =
        has_id_last m.package_id id done
          (ap (λ y. same_text m.package_id y) e ∙ eq_refl m.package_id) in
      let rest : is_node id ns ≡ false = ap (λ y. is_node y ns) e ∙ u.0 in
      let named : occurrences x (dependencies_of id (m ∷ ns)) ≡ occurrences x m.dependencies =
        ap (λ b. occurrences x (if b then m.dependencies else dependencies_of id ns)) same in
      omega (
        arith,
        named,
        ap (λ b. share b (occurrences x m.dependencies)) was,
        ap (λ b. share b (occurrences x m.dependencies)) is,
        waiting_other done id x ns rest,
      )
  | inr other ↦
      let later : is_node id ns ≡ true = rw other at n in
      let here : has_id m.package_id (done ++ id ∷ []) ≡ has_id m.package_id done =
        has_id_snoc m.package_id id done (other_way id m.package_id other) in
      let named : occurrences x (dependencies_of id (m ∷ ns))
          ≡ occurrences x (dependencies_of id ns) =
        ap (λ b. occurrences x (if b then m.dependencies else dependencies_of id ns)) other in
      omega (
        arith,
        named,
        ap (λ b. share b (occurrences x m.dependencies)) here,
        waiting_done done id x ns u.1 later f,
      )
]

-- The next package of the queue is done, and its dependencies are gone through.
pub next-Holds :
    (nodes : List DependencyNode) (done : List String) (g : Degrees) (id : String)
    (queue : List String)
    → AreDistinct nodes
    → Holds nodes done [] g (id ∷ queue)
    → Holds nodes (done ++ id ∷ []) (dependencies_of id nodes) g queue
next-Holds nodes done g id queue u h = record {
  count = λ x n.
      h.count x n ∙ ap pos (omega (arith, waiting_done done id x nodes u h.known.0 h.fresh.0));
  quiet = λ x m.
      let still = h.quiet x (ap (has_id x) (sym (append_assoc done (id ∷ []) queue)) ∙ m) in
      omega (arith, still, waiting_done done id x nodes u h.known.0 h.fresh.0);
  fresh = h.fresh.1;
  known = h.known.1;
}

-- No package outside those before it depends on a package of the order.
abbrev pub Follows : List DependencyNode → List String → List String → Type 0
Follows nodes before [] = Unit
Follows nodes before (x ∷ xs) = (waiting before x nodes ≡ 0) × Follows nodes (before ++ x ∷ []) xs

pub Follows-snoc :
    (nodes : List DependencyNode) (before xs : List String) (x : String)
    → Follows nodes before xs
    → waiting (before ++ xs) x nodes ≡ 0
    → Follows nodes before (xs ++ x ∷ [])
Follows-snoc nodes before [] x f h =
    (ap (λ ys. waiting ys x nodes) (sym (append-nil before)) ∙ h, tt)
Follows-snoc nodes before (y ∷ xs) x f h = (
  f.0,
  Follows-snoc nodes (before ++ y ∷ []) xs x f.1
      (ap (λ ys. waiting ys x nodes) (append_assoc before (y ∷ []) xs) ∙ h),
)

pub first_still :
    (nodes : List DependencyNode) (done : List String) (g : Degrees) (id : String)
    (queue : List String)
    → Holds nodes done [] g (id ∷ queue)
    → waiting done id nodes ≡ 0
first_still nodes done g id queue h =
    let seen : has_id id (done ++ id ∷ queue) ≡ true =
      has_id-append id done (id ∷ queue)
      ∙ ap (λ b. has_id id done || (b || has_id id queue)) (eq_refl id)
      ∙ or_true (has_id id done) in
    let z = h.quiet id seen in omega (arith, z)
