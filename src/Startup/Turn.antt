-- ===== src/Startup/Turn.antt =====
-- One turn of the loop that restores the DMaps of a snapshot: what it does to the loader's names and
-- to the node.
use native.Mathlib.Omega.{arith}
use olricdb.Prelude.{
  ℕ, ◌+◌, ◌≤◌, ◌<◌, ◌≡◌, refl, sym, ◌∙◌, Bool, true, false, Option, none, [], ◌∷◌, length, inl, inr,
  nat_eq, Text, text_eq, text_beq, text_beq_iff, ◌==◌, ==_iff, ◌&&◌, if◌then◌else◌, All, Bool-cases,
  ◌≢◌, ◌⊎◌,
}
use olricdb.Prelude.Dict.{Dict, lookup, insert, erase, lookup-insert, lookup-erase, All-erase}
use olricdb.Snapshot.{OnDiskDMaps}
use olricdb.Snapshot.Record.{names_of}
use olricdb.Snapshot.Loader.{processed}
use olricdb.Snapshot.Batches.{text_beq_refl}

-- The names that are still to be restored.
abbrev pub count : OnDiskDMaps → ℕ
count [] = 0
count ((p, names) ∷ m) = length names + count m

abbrev pub IsNamed : ℕ → Text → OnDiskDMaps → Type 0
IsNamed p name m = lookup name (names_of p m) ≢ none

-- No partition stands in the registry without a name.
abbrev pub Named : OnDiskDMaps → Type 0
Named m = All (λ e. e.1 ≢ []) m

erase_le : {V : Type 0} (name : Text) (ns : Dict Text V) → length (erase name ns) ≤ length ns
erase_le name [] = omega arith
erase_le name ((x, u) ∷ ns) = ground (arith, erase_le name ns)

count_erase_le : (p : ℕ) (m : OnDiskDMaps) → count (erase p m) ≤ count m
count_erase_le p [] = omega arith
count_erase_le p ((q, ns) ∷ m) = ground (arith, count_erase_le p m)

either_none : (c : Bool) → ◌≡◌ {A = Option (Unit {0})} (if c then none else none) none
either_none true = refl
either_none false = refl

module _ (p : ℕ) (name : Text) (u : Unit {0}) (names : Dict Text Unit) (m : OnDiskDMaps) where
  abbrev all_names : Dict Text Unit
  all_names = (name, u) ∷ names

  abbrev before : OnDiskDMaps
  before = (p, all_names) ∷ m

  -- The registry without the name, by the names of the partition that are left.
  abbrev left_of : Dict Text Unit → OnDiskDMaps
  left_of [] = erase p before
  left_of (x ∷ rest) = insert p (x ∷ rest) before

  same : (p == p) ≡ true
  same = (==_iff p p).1 refl

  processed-left_of : processed p name all_names before ≡ left_of (erase name all_names)
  unfolding processed
  processed-left_of = by_rest (erase name all_names)
    where
      by_rest :
          (r : Dict Text Unit)
          → elim r [ [] ↦ erase p before | x ∷ rest ↦ insert p (x ∷ rest) before ] ≡ left_of r
      by_rest [] = refl
      by_rest (x ∷ rest) = refl

  erase-before : erase p before ≡ erase p m
  erase-before = rw same refl

  insert-before : (v : Dict Text Unit) → insert p v before ≡ (p, v) ∷ m
  insert-before v = rw same refl

  count_left_of : (r : Dict Text Unit) → length r ≤ length names → count (left_of r) < count before
  count_left_of [] le = rw erase-before (omega (arith, count_erase_le p m))
  count_left_of (x ∷ rest) le = rw (insert-before (x ∷ rest)) (omega (arith, le))

  Named-left_of : (r : Dict Text Unit) → Named m → Named (left_of r)
  Named-left_of [] h = rw erase-before (All-erase _ p m h)
  Named-left_of (x ∷ rest) h = rw (insert-before (x ∷ rest)) ((λ e. ground arith), h)

  -- The names of a partition.
  names_of-left_of :
      (r : Dict Text Unit) (p' : ℕ)
      → names_of p' (left_of r) ≡ (if p == p' then r else names_of p' before)
  unfolding names_of
  names_of-left_of [] p' = elim (Bool-cases (p == p')) [
    | inl q ↦ rw (lookup-erase p p' before, names_of, q) refl
    | inr q ↦ rw (lookup-erase p p' before, names_of, q) refl
  ]
  names_of-left_of (x ∷ rest) p' = elim (Bool-cases (p == p')) [
    | inl q ↦ rw (lookup-insert p p' (x ∷ rest) before, names_of, q) refl
    | inr q ↦ rw (lookup-insert p p' (x ∷ rest) before, names_of, q) refl
  ]

  names_of_here : (p' : ℕ) → (p == p') ≡ true → names_of p' before ≡ all_names
  unfolding names_of
  names_of_here p' q = rw (names_of, q) refl

  pub names_left :
      (p' : ℕ) (name' : Text)
      → lookup name' (names_of p' (processed p name all_names before))
        ≡ (if (p == p') && text_beq name name' then none else lookup name' (names_of p' before))
  names_left p' name' = elim (Bool-cases (p == p')) [
    | inl q ↦
        rw (processed-left_of, names_of-left_of (erase name all_names) p', names_of_here p' q, q)
          (lookup-erase name name' all_names)
    | inr q ↦ rw (processed-left_of, names_of-left_of (erase name all_names) p', q) refl
  ]

  pub count-processed : count (processed p name all_names before) < count before
  count-processed =
      rw processed-left_of
        (count_left_of (erase name all_names) (rw (text_beq_refl name) (erase_le name names)))

  pub processed-Named : Named m → Named (processed p name all_names before)
  processed-Named h = rw processed-left_of (Named-left_of (erase name all_names) h)

  pub first-IsNamed : IsNamed p name before
  unfolding names_of
  first-IsNamed = rw (names_of, same, text_beq_refl name) (λ e. ground arith)

  pub processed-IsNamed :
      (p' : ℕ) (name' : Text)
      → IsNamed p' name' (processed p name all_names before)
      → IsNamed p' name' before
  processed-IsNamed p' name' i e =
      i (names_left p' name' ∙ rw e (either_none ((p == p') && text_beq name name')))

  -- A name is the one that is taken, or it is left.
  pub IsNamed-cases :
      (p' : ℕ) (name' : Text)
      → IsNamed p' name' before
      → ((p ≡ p') × (name ≡ name')) ⊎ IsNamed p' name' (processed p name all_names before)
  IsNamed-cases p' name' i = elim (Bool-cases (p == p')) [
    | inr q ↦ inr (λ e. i (sym (names_left p' name' ∙ rw q refl) ∙ e))
    | inl q ↦ elim (Bool-cases (text_beq name name')) [
      | inl q' ↦ inl ((==_iff p p').0 q, (text_beq_iff name name').0 q')
      | inr q' ↦ inr (λ e. i (sym (names_left p' name' ∙ rw (q, q') refl) ∙ e))
    ]
  ]
