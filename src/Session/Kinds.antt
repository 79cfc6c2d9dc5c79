-- ===== src/Session/Kinds.antt =====
-- How the names of operations begin, and what `updateStats` finds in them.
use Prim.Native.Char.{Char, code}
use Prim.Native.String.append
use Prim.Native.String.find
use Prim.Native.String.{String, [], ◌∷◌, ◌++◌, begins, find, len, same}
use Prim.Native.Nat.compare as compare_ℕ
use Prim.Native.Nat.{compare as compare_ℕ}
use text.Mathlib.Text.{starts_with, is_le, when}
use text.Mathlib.TextEquality.{starts_with_iff}
use text.Mathlib.TextPositions.{starts_with-append, compare_self}
use text.Mathlib.TextLemmas.{append_assoc, head-eq_of_cons-eq}
use mboot_core.Prelude.{
  ℕ, zero, suc, ◌≡◌, ◌≢◌, refl, sym, ap, ◌∙◌, inl, inr, arith, true, false, ◌&&◌, not, Bool-cases,
  none, some,
}
use mboot_core.Session.Device.{mentions}
use mboot_core.Session.Commands.{
  IsRequest, asks_reset, asks_read, asks_write, asks_erase, asks_read_from, asks_write_to,
  asks_erase_from, Command, name_of, write_to, erase_from,
}

not_beyond : (n : ℕ) → is_le (compare_ℕ 0 n) ≡ true
not_beyond zero = ap is_le compare_ℕ.zero-zero
not_beyond (suc n) = ap is_le (compare_ℕ.zero-suc n)

-- A text that begins with another is found to do so.
begins-append : (t u : String) (y n : ℕ) → begins (t ++ u) t y n ≡ y
begins-append [] u y n = refl
begins-append (c ∷ t) u y n =
    ap (λ s. begins s (c ∷ t) y n) (append.cons c t u)
    ∙ ap (λ o. same o (begins (t ++ u) t y n) n) (compare_self (code c))
    ∙ begins-append t u y n

starts_other :
    (c d : Char) (s t u : String) → code c ≢ code d → starts_with ((c ∷ s) ++ u) (d ∷ t) ≡ false
starts_other c d s t u apart = elim (Bool-cases (starts_with ((c ∷ s) ++ u) (d ∷ t))) [
  | inr no_start ↦ no_start
  | inl start ↦
      let (v, parts) = (starts_with_iff ((c ∷ s) ++ u) (d ∷ t)).0 start in
      absurd (
        apart
          (ap code (head-eq_of_cons-eq (sym (append.cons c s u) ∙ sym parts ∙ append.cons d t v))))
]

find-of_begins : (s t : String) → ((n : ℕ) → begins s t 0 n ≡ 0) → find s t ≡ 0
find-of_begins [] t h = find.nil t ∙ h 1
find-of_begins (c ∷ s) t h = find.cons c s t ∙ h _

mentions-append : (t u : String) → mentions t (t ++ u) ≡ true
unfolding mentions
mentions-append t u =
    let found : find (t ++ u) t ≡ 0 = find-of_begins (t ++ u) t (λ n. begins-append t u 0 n) in
    ap
      (λ k. elim (when {A = ℕ} (is_le (compare_ℕ k (len (t ++ u)))) k) [
        | none ↦ false
        | some i ↦ true
      ])
      found
    ∙ ap (λ b. elim (when {A = ℕ} b 0) [ none ↦ false | some i ↦ true ]) (not_beyond (len (t ++ u)))

-- A name of which the search for a kind, in the order of `updateStats`, finds only the beginning.
pub record IsPlain (name : String) : Type 0 where
  pub read_plain : mentions "read" name ≡ starts_with name "read"
  pub write_plain : (not (mentions "read" name) && mentions "write" name) ≡ starts_with name "write"
  pub erase_plain :
      (not (mentions "read" name) && not (mentions "write" name) && mentions "erase" name)
      ≡ starts_with name "erase"

-- A call is clear if the partition that it changes has no name that makes it look like another kind.
abbrev pub IsClear : Command → Type 0
IsClear (write_to name _) = mentions "read" ("writePartition:" ++ name) ≡ false
IsClear (erase_from name) =
    (mentions "read" ("erasePartition:" ++ name) ≡ false)
    × (mentions "write" ("erasePartition:" ++ name) ≡ false)
IsClear _ = Unit {0}

read_from-IsPlain : (name : String) → IsPlain ("readPartition:" ++ name)
read_from-IsPlain name =
    let found : mentions "read" ("readPartition:" ++ name) ≡ true =
      ap (mentions "read") (append_assoc "read" "Partition:" name)
      ∙ mentions-append "read" ("Partition:" ++ name) in
    let begun : starts_with ("readPartition:" ++ name) "read" ≡ true =
      ap (λ t. starts_with t "read") (append_assoc "read" "Partition:" name)
      ∙ starts_with-append "read" ("Partition:" ++ name) in
    record {
      read_plain = found ∙ sym begun;
      write_plain =
          ap (λ b. not b && mentions "write" ("readPartition:" ++ name)) found
          ∙ sym (starts_other "r" "w" "eadPartition:" "rite" name (omega arith));
      erase_plain =
          ap
            (λ b.
              not b
              && not (mentions "write" ("readPartition:" ++ name))
              && mentions "erase" ("readPartition:" ++ name))
            found
          ∙ sym (starts_other "r" "e" "eadPartition:" "rase" name (omega arith));
    }

write_to-IsPlain :
    (name : String)
    → mentions "read" ("writePartition:" ++ name) ≡ false
    → IsPlain ("writePartition:" ++ name)
write_to-IsPlain name clear =
    let found : mentions "write" ("writePartition:" ++ name) ≡ true =
      ap (mentions "write") (append_assoc "write" "Partition:" name)
      ∙ mentions-append "write" ("Partition:" ++ name) in
    let begun : starts_with ("writePartition:" ++ name) "write" ≡ true =
      ap (λ t. starts_with t "write") (append_assoc "write" "Partition:" name)
      ∙ starts_with-append "write" ("Partition:" ++ name) in
    record {
      read_plain = clear ∙ sym (starts_other "w" "r" "ritePartition:" "ead" name (omega arith));
      write_plain =
          ap (λ b. not b && mentions "write" ("writePartition:" ++ name)) clear ∙ found ∙ sym begun;
      erase_plain =
          ap
            (λ b.
              not b
              && not (mentions "write" ("writePartition:" ++ name))
              && mentions "erase" ("writePartition:" ++ name))
            clear
          ∙ ap (λ b. not b && mentions "erase" ("writePartition:" ++ name)) found
          ∙ sym (starts_other "w" "e" "ritePartition:" "rase" name (omega arith));
    }

erase_from-IsPlain :
    (name : String)
    → mentions "read" ("erasePartition:" ++ name) ≡ false
    → mentions "write" ("erasePartition:" ++ name) ≡ false
    → IsPlain ("erasePartition:" ++ name)
erase_from-IsPlain name clear unwritten =
    let found : mentions "erase" ("erasePartition:" ++ name) ≡ true =
      ap (mentions "erase") (append_assoc "erase" "Partition:" name)
      ∙ mentions-append "erase" ("Partition:" ++ name) in
    let begun : starts_with ("erasePartition:" ++ name) "erase" ≡ true =
      ap (λ t. starts_with t "erase") (append_assoc "erase" "Partition:" name)
      ∙ starts_with-append "erase" ("Partition:" ++ name) in
    record {
      read_plain = clear ∙ sym (starts_other "e" "r" "rasePartition:" "ead" name (omega arith));
      write_plain =
          ap (λ b. not b && mentions "write" ("erasePartition:" ++ name)) clear
          ∙ unwritten
          ∙ sym (starts_other "e" "w" "rasePartition:" "rite" name (omega arith));
      erase_plain =
          ap
            (λ b.
              not b
              && not (mentions "write" ("erasePartition:" ++ name))
              && mentions "erase" ("erasePartition:" ++ name))
            clear
          ∙ ap (λ b. not b && mentions "erase" ("erasePartition:" ++ name)) unwritten
          ∙ found
          ∙ sym begun;
    }

-- The name of a clear request is plain.
pub request-IsPlain : {c : Command} → IsRequest c → IsClear c → IsPlain (name_of c)
unfolding mentions
request-IsPlain asks_reset clear = record {
  read_plain = refl;
  write_plain = refl;
  erase_plain = refl;
}
request-IsPlain asks_read clear = record {
  read_plain = refl;
  write_plain = refl;
  erase_plain = refl;
}
request-IsPlain asks_write clear = record {
  read_plain = refl;
  write_plain = refl;
  erase_plain = refl;
}
request-IsPlain asks_erase clear = record {
  read_plain = refl;
  write_plain = refl;
  erase_plain = refl;
}
request-IsPlain (asks_read_from {name = name}) clear = read_from-IsPlain name
request-IsPlain (asks_write_to {name = name}) clear = write_to-IsPlain name clear
request-IsPlain (asks_erase_from {name = name}) clear = erase_from-IsPlain name clear.0 clear.1
