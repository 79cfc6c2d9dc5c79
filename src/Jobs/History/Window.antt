-- ===== src/Jobs/History/Window.antt =====
-- The history against a log without a bound.
use mboot_core.Prelude.{
  ℕ, zero, suc, ◌+◌, ◌-◌, ◌≤◌, ◌<◌, ◌^◌, ◌%◌, ◌≡◌, refl, sym, ap, ◌∙◌, inl, inr, arith, ltb, leb,
  List, [], ◌∷◌, ◌++◌, length, drop, length-append, length-drop, drop-drop, Bool-cases, pos, Bool,
  true, false, if◌then◌else◌, both_branches,
}
use mboot_core.Jobs.History.{
  JobHistoryEntry, JobHistory, add_entry, recent, clear, set_max_entries, empty_history,
}

abbrev pub last {ℓ} : {A : Type ℓ} → ℕ → List A → List A
last n xs = drop (length xs - n) xs

-- The entries are the last ones of a log, as many as the history may hold.
abbrev pub Shows : JobHistory → List JobHistoryEntry → Type 0
Shows h log = h.entries ≡ last h.max_entries log

drop-append_before {ℓ} :
    {A : Type ℓ} (n : ℕ) (xs ys : List A) → n ≤ length xs → drop n (xs ++ ys) ≡ drop n xs ++ ys
drop-append_before zero xs ys b = refl
drop-append_before (suc n) [] ys b = absurd (omega arith)
drop-append_before (suc n) (x ∷ xs) ys b = drop-append_before n xs ys (omega arith)

-- Adding to the window, and cutting it to the bound, is adding to the log.
last-snoc {ℓ} :
    {A : Type ℓ} (n : ℕ) (xs : List A) (x : A)
    → last n (last n xs ++ x ∷ []) ≡ last n (xs ++ x ∷ [])
last-snoc n xs x =
    let k = length xs - n in
    let kept : drop k xs ++ x ∷ [] ≡ drop k (xs ++ x ∷ []) =
      sym (drop-append_before k xs (x ∷ []) (omega arith)) in
    let over : k + (length (drop k (xs ++ x ∷ [])) - n) ≡ length (xs ++ x ∷ []) - n =
      omega (arith, length-drop k (xs ++ x ∷ []), length-append xs (x ∷ [])) in
    rw kept (drop-drop k _ (xs ++ x ∷ []) ∙ ap (λ i. drop i (xs ++ x ∷ [])) over)

add_entry-last :
    (e : JobHistoryEntry) (h : JobHistory)
    → (add_entry e h).entries ≡ last h.max_entries (h.entries ++ e ∷ [])
unfolding add_entry
add_entry-last e h =
    let entries = h.entries ++ e ∷ [] in
    elim (Bool-cases (ltb h.max_entries (length entries))) [
      | inl over ↦ rw over refl
      | inr fits ↦
          let whole : length entries - h.max_entries ≡ 0 = ground arith in rw (fits, whole) refl
    ]

-- If the history is the end of a log, it is so still when an entry is added to both.
pub add_entry-Shows :
    (e : JobHistoryEntry) (h : JobHistory) (log : List JobHistoryEntry)
    → Shows h log
    → Shows (add_entry e h) (log ++ e ∷ [])
unfolding add_entry
add_entry-Shows e h log s = add_entry-last e h ∙ rw s (last-snoc h.max_entries log e)

-- What `recent` gives for a count that the history may hold: the last entries of the log.
pub recent-Shows :
    (h : JobHistory) (log : List JobHistoryEntry) (n : ℕ)
    → n ≤ h.max_entries
    → n < 2 ^ 64
    → Shows h log
    → recent h (pos n) ≡ last n log
unfolding recent
recent-Shows h log n b w s =
    let k = length log - h.max_entries in
    let count : n % 2 ^ 64 ≡ n = omega arith in
    let size : length h.entries ≡ length log - k = rw s (length-drop k log) in
    elim (Bool-cases (leb (length h.entries) n)) [
      | inl all ↦
          let same : k ≡ length log - n = ground arith in
          rw (count, all) (s ∙ ap (λ i. drop i log) same)
      | inr some ↦
          let same : k + (length h.entries - n) ≡ length log - n = ground arith in
          rw (count, some)
            (ap (drop (length h.entries - n)) s ∙ drop-drop k _ log ∙ ap (λ i. drop i log) same)
    ]

-- What is done to a history.
pub data Change : Type 0 where
  adds : JobHistoryEntry → Change
  clears : Change
  bounds : ℕ → Change

abbrev pub change : Change → JobHistory → JobHistory
change (adds e) h = add_entry e h
change clears h = clear h
change (bounds m) h = set_max_entries m h

abbrev pub changes : List Change → JobHistory → JobHistory
changes [] h = h
changes (c ∷ cs) h = changes cs (change c h)

-- A log of what was added since it was last cleared. `cut` says whether the bound has been applied to
-- it, which only the next entry does.
pub record JobLog : Type 0 where
  pub logged : List JobHistoryEntry
  pub bound : ℕ
  pub cut : Bool

abbrev pub shown : JobLog → List JobHistoryEntry
shown l = if l.cut then last l.bound l.logged else l.logged

-- A new bound makes the log forget what the old one did not show.
abbrev pub log_change : Change → JobLog → JobLog
log_change (adds e) l = record l { logged = l.logged ++ e ∷ []; cut = true }
log_change clears l = record l { logged = []; cut = false }
log_change (bounds n) l = record { logged = shown l; bound = n; cut = false }

abbrev pub log_changes : List Change → JobLog → JobLog
log_changes [] l = l
log_changes (c ∷ cs) l = log_changes cs (log_change c l)

abbrev pub empty_log : JobLog
empty_log = record { logged = []; bound = 1000; cut = false }

abbrev Agrees : JobHistory → JobLog → Type 0
Agrees h l = (h.entries ≡ shown l) × (h.max_entries ≡ l.bound)

last-snoc_shown :
    (l : JobLog) (e : JobHistoryEntry)
    → last l.bound (shown l ++ e ∷ []) ≡ last l.bound (l.logged ++ e ∷ [])
last-snoc_shown l e =
    both_branches (λ s. last l.bound (s ++ e ∷ []) ≡ last l.bound (l.logged ++ e ∷ [])) l.cut _ _
      (last-snoc l.bound l.logged e) refl

change-Agrees :
    (c : Change) (h : JobHistory) (l : JobLog) → Agrees h l → Agrees (change c h) (log_change c l)
unfolding add_entry clear set_max_entries
change-Agrees (adds e) h l (same, bound) =
    (add_entry-last e h ∙ (λ i. last (bound i) (same i ++ e ∷ [])) ∙ last-snoc_shown l e, bound)
change-Agrees clears h l (same, bound) = (refl, bound)
change-Agrees (bounds n) h l (same, bound) = (same, refl)

changes-Agrees :
    (cs : List Change) (h : JobHistory) (l : JobLog)
    → Agrees h l
    → Agrees (changes cs h) (log_changes cs l)
changes-Agrees [] h l a = a
changes-Agrees (c ∷ cs) h l a =
    changes-Agrees cs (change c h) (log_change c l) (change-Agrees c h l a)

-- After any sequence of additions, clearings and changes of the bound, a history that was new shows the
-- entries added since it was last cleared, as many of the last ones as the bound lets; a new bound is
-- applied with the next addition, and what an older one cut off stays lost.
pub changes-shown :
    (cs : List Change)
    → ((changes cs empty_history).entries ≡ shown (log_changes cs empty_log))
      × ((changes cs empty_history).max_entries ≡ (log_changes cs empty_log).bound)
unfolding empty_history
changes-shown cs = changes-Agrees cs empty_history empty_log (refl, refl)
