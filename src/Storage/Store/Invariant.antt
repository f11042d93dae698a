-- ===== src/Storage/Store/Invariant.antt =====
-- A well-formed storage, and what its tables together have under a key.
use native.Mathlib.Omega.{arith}
use olricdb.Prelude.{
  ℕ, ◌≤◌, ◌≡◌, refl, Bool, true, false, Option, none, some, List, [], ◌∷◌, All, ltb, if◌then◌else◌,
  Outcome, ok, fails, nat_eq, Option-cases, inl, inr,
}
use olricdb.Prelude.Dict.{lookup}
use olricdb.Storage.Memory.{Error}
use olricdb.Storage.Memory
use olricdb.Storage.Entry.{VData}
use olricdb.Storage.Table.{Table, new_table, minimum_size}
use olricdb.Storage.Table
use olricdb.Storage.Table.Invariant.{IsWellFormed}
use olricdb.Storage.Table.Lookup.{Stored-at, get-none, get-some}
use olricdb.Storage.Store.{Storage, scan}

abbrev pub NonEmpty : List Table → Type 0
NonEmpty [] = ⊥
NonEmpty (t ∷ ts) = Unit

pub record IsSound (s : Storage) : Type 0 where
  pub nonempty : NonEmpty s.tables
  pub tables : All IsWellFormed s.tables

-- On a well-formed table a lookup gives a value or nothing.
pub Found : Table → ℕ → Type 0
Found t h = (o : Option VData) × (Table.get t h ≡ ok o)

pub get_total : (t : Table) (h : ℕ) → IsWellFormed t → Found t h
unfolding Found
get_total t h w = elim (Option-cases (lookup h t.hkeys)) [
  | inl absent ↦ (none, get-none t h absent)
  | inr (o, found) ↦
      let s = Stored-at t h o w found in
      (
        some s.entry,
        get-some t h o s.entry found s.encodable s.holds (omega (arith, s.below, w.mapped, w.room)),
      )
]

abbrev pub size_for : ℕ → ℕ
size_for n = if ltb n minimum_size then minimum_size else n

abbrev pub fresh_table : ℕ → Table
fresh_table n = record {
  hkeys = [];
  memory = Memory.zeroed (size_for n);
  offset = 0;
  allocated = size_for n;
  inuse = 0;
  garbage = 0;
}

pub new_table_granted :
    (mmap : ℕ → Bool) (n : ℕ) → mmap (size_for n) ≡ true → new_table mmap n ≡ ok (fresh_table n)
unfolding new_table
new_table_granted mmap n g = rw g

pub new_table_refused :
    (mmap : ℕ → Bool) (n : ℕ)
    → mmap (size_for n) ≡ false
    → new_table mmap n ≡ fails Memory.mmap_failed
unfolding new_table
new_table_refused mmap n g = rw g

pub minimum_size-le : (n : ℕ) → minimum_size ≤ size_for n
minimum_size-le n = ground arith

pub fresh_table-IsWellFormed : (n : ℕ) → IsWellFormed (fresh_table n)
fresh_table-IsWellFormed n = record {
  sized = minimum_size-le n;
  mapped = refl;
  room = omega (arith, minimum_size-le n);
  entries = tt;
  distinct = tt;
  accounted = omega arith;
  live = omega arith;
}

pub get-fresh_table : (n h : ℕ) → Table.get (fresh_table n) h ≡ ok none
get-fresh_table n h = get-none (fresh_table n) h refl

-- A new table does not hide what the older ones have.
pub scan-fresh_table :
    (n h : ℕ) (ts : List Table)
    → scan (λ t. Table.get t h) (fresh_table n ∷ ts) ≡ scan (λ t. Table.get t h) ts
unfolding scan
scan-fresh_table n h ts = rw (get-fresh_table n h) refl

-- What a key is mapped to, the last table first: the specification of a lookup.
abbrev pub content : ℕ → List Table → Outcome Error (Option VData)
content h = scan (λ t. Table.get t h)
