-- ===== src/Jobs/History.antt =====
-- lib/src/job/JobHistory.cpp: the log of the last jobs. Its entries keep what the pipeline sets and
-- the filters read; a time is the number of ticks since the epoch of the clock.
pub mod Window
pub mod Find
use Prim.Native.String.{String}
use text.Mathlib.Text.{◌==◌ as same_text}
use mboot_core.Prelude.{
  ℕ, suc, ◌-◌, ◌==◌, ℤ, pos_part, as_unsigned, Bool, true, false, ◌&&◌, ◌||◌, not, ltb, leb, List,
  [], ◌∷◌, ◌++◌, length, drop, if◌then◌else◌,
}
use mboot_core.Domain.{ErrorCode}
use mboot_core.Jobs.Types.{JobType, type_id}

pub record JobHistoryEntry : Type 0 where
  pub job_id : String
  pub type : JobType
  pub start_time : ℕ
  pub success : Bool
  pub error : ErrorCode

pub record HistoryFilter : Type 0 where
  pub types : List JobType
  pub success_filter : List Bool
  pub from_time : ℕ
  pub to_time : ℕ
  pub job_id_filter : String
  pub max_results : ℤ

pub record JobHistory : Type 0 where
  pub entries : List JobHistoryEntry
  pub max_entries : ℕ

unfoldable pub empty_history : JobHistory
empty_history = record { entries = []; max_entries = 1000 }

unfoldable pub add_entry : JobHistoryEntry → JobHistory → JobHistory
add_entry e h =
    let entries = h.entries ++ e ∷ [] in
    record h {
      entries =
          if ltb h.max_entries (length entries)
          then drop (length entries - h.max_entries) entries
          else entries;
    }

unfoldable pub clear : JobHistory → JobHistory
clear h = record h { entries = [] }

unfoldable pub set_max_entries : ℕ → JobHistory → JobHistory
set_max_entries m h = record h { max_entries = m }

-- A negative `count` is a large number for the test.
unfoldable pub recent : JobHistory → ℤ → List JobHistoryEntry
recent h count =
    if leb (length h.entries) (as_unsigned 64 count)
    then h.entries
    else drop (length h.entries - pos_part count) h.entries

-- `std::find` over the types of the filter.
unfoldable pub has_type : List JobType → JobType → Bool
has_type [] t = false
has_type (u ∷ us) t = if type_id u == type_id t then true else has_type us t

abbrev same_outcome : Bool → Bool → Bool
same_outcome true b = b
same_outcome false b = not b

-- The loop over the outcomes of the filter.
unfoldable pub has_outcome : List Bool → Bool → Bool
has_outcome [] b = false
has_outcome (s ∷ ss) b = if same_outcome b s then true else has_outcome ss b

abbrev is_nil {ℓ} : {A : Type ℓ} → List A → Bool
is_nil [] = true
is_nil (x ∷ xs) = false

-- The body of the loop up to the `push_back`: true where no `continue` is reached.
unfoldable pub matches : HistoryFilter → JobHistoryEntry → Bool
unfolding has_type has_outcome
matches f e =
    if not (is_nil f.types) && not (has_type f.types e.type)
    then false
    else if not (is_nil f.success_filter) && not (has_outcome f.success_filter e.success)
    then false
    else if ltb 0 f.from_time && ltb e.start_time f.from_time
    then false
    else if ltb 0 f.to_time && ltb f.to_time e.start_time
    then false
    else if not (same_text f.job_id_filter "") && not (same_text e.job_id f.job_id_filter)
    then false
    else true

-- The loop; `found` holds the entries found so far.
unfoldable pub find_loop :
    HistoryFilter → List JobHistoryEntry → List JobHistoryEntry → List JobHistoryEntry
unfolding matches
find_loop f [] found = found
find_loop f (e ∷ es) found =
    let found' = found ++ e ∷ [] in
    elim (matches f e) [
      | false ↦ find_loop f es found
      | true ↦
          elim (ltb 0 (pos_part f.max_results) && leb (pos_part f.max_results) (length found')) [
            | true ↦ found'
            | false ↦ find_loop f es found'
          ]
    ]

unfoldable pub find : JobHistory → HistoryFilter → List JobHistoryEntry
find h f = find_loop f h.entries []

-- `std::copy_if` and `std::count_if`, on the outcome.
unfoldable pub with_outcome : Bool → List JobHistoryEntry → List JobHistoryEntry
with_outcome b [] = []
with_outcome b (e ∷ es) =
    let rest = with_outcome b es in if same_outcome b e.success then e ∷ rest else rest

unfoldable pub count_outcome : Bool → List JobHistoryEntry → ℕ
count_outcome b [] = 0
count_outcome b (e ∷ es) =
    let rest = count_outcome b es in if same_outcome b e.success then suc rest else rest

unfoldable pub completed : JobHistory → List JobHistoryEntry
completed h = with_outcome true h.entries

unfoldable pub failed : JobHistory → List JobHistoryEntry
failed h = with_outcome false h.entries

unfoldable pub success_count : JobHistory → ℕ
success_count h = count_outcome true h.entries

unfoldable pub failure_count : JobHistory → ℕ
failure_count h = count_outcome false h.entries
