-- ===== src/Storage/Store.antt =====
-- internal/storage/storage.go: a list of tables. Writes go to the last, reads scan from the last.
pub mod Invariant
pub mod Retry
pub mod Raw
pub mod Put
pub mod Delete
use olricdb.Prelude.{
  ℕ, zero, suc, ◌+◌, ◌*◌, Bool, true, false, not, Option, none, some, List, [], ◌∷◌, ◌++◌, length,
  leb, ltb, ◌==◌, if◌then◌else◌, Outcome, ok, fails, panics, stuck, ◌>>=◌, nat_eq,
}
use olricdb.Prelude.Dict.{Dict, lookup}
use olricdb.Storage.Memory.{
  Error, not_enough_space, key_not_found, fragmented, decode_failed, Memory, copy, bytes, of_bytes,
}
use olricdb.Storage.Entry.{VData}
use olricdb.Storage.Table.{Table, new_table}
use olricdb.Storage.Table

-- `tables` is the slice backwards: its head is the slice's last element. `merging` is set while
-- the goroutine of `mergeTables` runs.
pub record Storage : Type 0 where
  pub tables : List Table
  pub merging : Bool

unfoldable pub new : (ℕ → Bool) → ℕ → Outcome Error Storage
new mmap size = do t ← new_table mmap size; ok (record { tables = t ∷ []; merging = false })

-- A write that may fail: the state that it leaves, and its error.
abbrev pub Written : Type 0
Written = Storage × Option Error

-- What follows an attempt on the last table `t`: `again` is the next turn of the loop.
unfoldable pub after_attempt :
    (ℕ → Bool)
    → (Storage → Outcome Error Written)
    → Storage
    → Table
    → List Table
    → Outcome Error Table
    → Outcome Error Written
after_attempt mmap again s t older (ok t') = ok (record s { tables = t' ∷ older }, none)
after_attempt mmap again s t older (fails not_enough_space) = elim (new_table mmap (t.inuse * 2)) [
  | ok nt ↦ again (record { tables = nt ∷ t ∷ older; merging = true })
  | fails e ↦ ok (s, some e)
  | panics ↦ panics
  | stuck ↦ stuck
]
after_attempt mmap again s t older (fails e) = ok (s, some e)
after_attempt mmap again s t older panics = panics
after_attempt mmap again s t older stuck = stuck

-- The loop that `Put` and `PutRaw` share, with fuel.
pub retry : (ℕ → Bool) → (Table → Outcome Error Table) → ℕ → Storage → Outcome Error Written
unfolding after_attempt
retry mmap attempt zero s = stuck
retry mmap attempt (suc fuel) s = elim s.tables [
  | [] ↦ panics
  | t ∷ older ↦ after_attempt mmap (retry mmap attempt fuel) s t older (attempt t)
]

-- `mmap`, the fuel, the storage, the key and the value.
unfoldable pub put : (ℕ → Bool) → ℕ → Storage → ℕ → VData → Outcome Error Written
put mmap fuel s hkey v = retry mmap (λ t. Table.put t hkey v) fuel s

unfoldable pub put_raw : (ℕ → Bool) → ℕ → Storage → ℕ → List ℕ → Outcome Error Written
put_raw mmap fuel s hkey raw = retry mmap (λ t. Table.put_raw t hkey raw) fuel s

-- The first table, from the last, that has the key.
unfoldable pub scan :
    {A : Type 0} → (Table → Outcome Error (Option A)) → List Table → Outcome Error (Option A)
scan look [] = ok none
scan look (t ∷ ts) = do found ← look t; elim found [ some a ↦ ok (some a) | none ↦ scan look ts ]

-- "tables cannot be empty"
unfoldable pub nonempty : {A : Type 0} → List Table → Outcome Error A → Outcome Error A
nonempty [] k = panics
nonempty (t ∷ ts) k = k

unfoldable pub or_not_found : {A : Type 0} → Option A → Outcome Error A
or_not_found none = fails key_not_found
or_not_found (some a) = ok a

unfoldable pub get : Storage → ℕ → Outcome Error VData
unfolding nonempty or_not_found
get s hkey = nonempty s.tables do found ← scan (λ t. Table.get t hkey) s.tables; or_not_found found

unfoldable pub get_raw : Storage → ℕ → Outcome Error (List ℕ)
unfolding nonempty or_not_found
get_raw s hkey =
    nonempty s.tables do found ← scan (λ t. Table.get_raw t hkey) s.tables; or_not_found found

-- `Delete` stops at the first table that has the key.
unfoldable pub delete_scan : ℕ → List Table → Outcome Error (List Table)
delete_scan hkey [] = ok []
delete_scan hkey (t ∷ ts) = do
  (t', prev) ← Table.delete t hkey
  elim prev [ true ↦ do ts' ← delete_scan hkey ts; ok (t' ∷ ts') | false ↦ ok (t' ∷ ts) ]

-- `maxGarbageRatio` is 0.40; the comparison is made on exact fractions.
abbrev pub is_wasteful : Table → Bool
is_wasteful t = leb (t.allocated * 2) (t.garbage * 5)

unfoldable pub compact : (ℕ → Bool) → Storage → Table → Outcome Error Written
compact mmap s t =
    if is_wasteful t
    then (if s.merging
        then ok (s, none)
        else let wanted = t.inuse * 2 in
          elim (new_table mmap (if ltb t.allocated wanted then t.allocated else wanted)) [
            | ok nt ↦ ok (record { tables = nt ∷ s.tables; merging = true }, none)
            | fails e ↦ ok (s, some e)
            | panics ↦ panics
            | stuck ↦ stuck
          ])
    else ok (s, none)

-- The garbage check at the end of `Delete`: only a single table is looked at.
unfoldable pub after_delete : (ℕ → Bool) → Storage → List Table → Outcome Error Written
unfolding compact
after_delete mmap s (t ∷ []) = compact mmap s t
after_delete mmap s _ = ok (s, none)

unfoldable pub delete : (ℕ → Bool) → Storage → ℕ → Outcome Error Written
unfolding nonempty after_delete
delete mmap s hkey =
    nonempty s.tables
      do ts ← delete_scan hkey s.tables; after_delete mmap (record s { tables = ts }) ts

-- `Len`
unfoldable pub total_keys : List Table → ℕ
total_keys [] = 0
total_keys (t ∷ ts) = length t.hkeys + total_keys ts

-- `Check`
unfoldable pub check_scan : ℕ → List Table → Bool
check_scan hkey [] = false
check_scan hkey (t ∷ ts) = elim (lookup hkey t.hkeys) [ some _ ↦ true | none ↦ check_scan hkey ts ]

unfoldable pub check : Storage → ℕ → Outcome Error Bool
unfolding nonempty check_scan
check s hkey = nonempty s.tables (ok (check_scan hkey s.tables))

module _ {S : Type 0} (f : ℕ → VData → S → S × Bool) where
  -- One table of `Range`: the `break` leaves the loop over its keys.
  unfoldable pub range_keys : Table → List (ℕ × ℕ) → S → Outcome Error S
  range_keys t [] acc = ok acc
  range_keys t ((hkey, _) ∷ rest) acc = do
    found ← Table.get t hkey
    elim found [
      | none ↦ panics
      | some v ↦
          let (acc', more) = f hkey v acc in
          elim more [ true ↦ range_keys t rest acc' | false ↦ ok acc' ]
    ]

  unfoldable pub range_tables : List Table → S → Outcome Error S
  range_tables [] acc = ok acc
  range_tables (t ∷ ts) acc = do acc' ← range_keys t t.hkeys acc; range_tables ts acc'

  unfoldable pub range : Storage → S → Outcome Error S
  unfolding nonempty
  range s acc = nonempty s.tables (range_tables s.tables acc)
