-- ===== src/Jobs/History/Find.antt =====
-- The search of the history against a filter of the whole list.
use mboot_core.Prelude.{
  ℕ, suc, ◌-◌, ◌<◌, ◌≡◌, refl, sym, ap, ◌∙◌, inl, inr, arith, ltb, leb, ◌==◌, ◌&&◌, Bool, List, [],
  ◌∷◌, ◌++◌, length, take, take-nil, length-append, append_assoc, append-nil, if◌then◌else◌,
  Bool-cases, pos_part,
}
use mboot_core.Jobs.History.{JobHistoryEntry, JobHistory, HistoryFilter, matches, find_loop, find}

-- The elements that a test accepts, and the first of them if their number is limited.
abbrev pub select {ℓ} : {A : Type ℓ} → (A → Bool) → List A → List A
select p [] = []
select p (x ∷ xs) = if p x then x ∷ select p xs else select p xs

abbrev pub limit {ℓ} : {A : Type ℓ} → ℕ → List A → List A
limit n xs = if n == 0 then xs else take n xs

find_loop-select :
    (f : HistoryFilter) (es found : List JobHistoryEntry)
    → pos_part f.max_results ≡ 0
    → find_loop f es found ≡ found ++ select (matches f) es
unfolding find_loop
find_loop-select f [] found z = sym (append-nil found)
find_loop-select f (e ∷ es) found z = elim (Bool-cases (matches f e)) [
  | inl hit ↦
      rw (hit, find_loop, z)
        (find_loop-select f es (found ++ e ∷ []) z ∙ append_assoc found (e ∷ []) _)
  | inr miss ↦ rw (miss, find_loop) (find_loop-select f es found z)
]

find_loop-take :
    (f : HistoryFilter) (es found : List JobHistoryEntry)
    → length found < pos_part f.max_results
    → find_loop f es found
      ≡ found ++ take (pos_part f.max_results - length found) (select (matches f) es)
unfolding find_loop
find_loop-take f [] found b =
    sym (rw (take-nil (pos_part f.max_results - length found)) (append-nil found))
find_loop-take f (e ∷ es) found b = elim (Bool-cases (matches f e)) [
  | inr miss ↦ rw (miss, find_loop) (find_loop-take f es found b)
  | inl hit ↦
      let n = pos_part f.max_results in
      let grown = length-append found (e ∷ []) in
      elim (Bool-cases (ltb 0 n && leb n (length (found ++ e ∷ [])))) [
        | inl full ↦
            let one : n - length found ≡ 1 = ground arith in rw (hit, find_loop, full, one) refl
        | inr room ↦
            let more : n - length found ≡ suc (n - length (found ++ e ∷ [])) = ground arith in
            rw (hit, find_loop, room, more)
              (find_loop-take f es (found ++ e ∷ []) (ground arith) ∙ append_assoc found (e ∷ []) _)
      ]
]

-- The search gives the entries that the filter accepts, in the order of the log, and no more than
-- the first `maxResults` of them if that is positive.
pub find-select :
    (h : JobHistory) (f : HistoryFilter)
    → find h f ≡ limit (pos_part f.max_results) (select (matches f) h.entries)
unfolding find
find-select h f = elim (Bool-cases (pos_part f.max_results == 0)) [
  | inl none ↦ rw none (find_loop-select f h.entries [] (ground arith))
  | inr some ↦
      let whole : pos_part f.max_results - 0 ≡ pos_part f.max_results = omega arith in
      rw some (
        find_loop-take f h.entries [] (ground arith)
        ∙ ap (λ n. take n (select (matches f) h.entries)) whole)
]
