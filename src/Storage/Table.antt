-- ===== src/Storage/Table.antt =====
-- internal/storage/table.go: one mapped area, filled from the front, with an index of its entries.
pub mod Invariant
pub mod Lookup
pub mod Put
pub mod Raw
use olricdb.Prelude.{
  ℕ, ◌+◌, ◌-◌, ◌*◌, ◌^◌, ◌%◌, Bool, true, false, Option, none, some, List, [], ◌∷◌, ◌++◌, length,
  leb, ltb, if◌then◌else◌, Outcome, ok, fails, ◌>>=◌, nat_eq,
}
use olricdb.Prelude.Dict.{Dict, lookup, insert, erase}
use olricdb.Prelude.Bytes.{from_be}
use olricdb.Storage.Memory.{
  Error, not_enough_space, key_too_large, mmap_failed, Memory, zeroed, byte_at, read, copy, put_be,
}
use olricdb.Storage.Entry.{VData, read_vdata}

abbrev pub max_key_len : ℕ
max_key_len = 256

abbrev pub minimum_size : ℕ
minimum_size = 2 ^ 20

-- `inuse -= garbage` stops at 0 here. In a well-formed table it does not get there: see Invariant.
pub record Table : Type 0 where
  pub hkeys : Dict ℕ ℕ
  pub memory : Memory
  pub offset : ℕ
  pub allocated : ℕ
  pub inuse : ℕ
  pub garbage : ℕ

-- `mmap n` says whether the system grants a mapping of `n` bytes.
unfoldable pub new_table : (ℕ → Bool) → ℕ → Outcome Error Table
new_table mmap requested =
    let size = if ltb requested minimum_size then minimum_size else requested in
    if mmap size
    then ok (record {
      hkeys = [];
      memory = zeroed size;
      offset = 0;
      allocated = size;
      inuse = 0;
      garbage = 0;
    })
    else fails mmap_failed

unfoldable pub put_raw : Table → ℕ → List ℕ → Outcome Error Table
put_raw t hkey value =
    if leb t.allocated (length value + t.offset) then fails not_enough_space else do
      m ← copy t.memory t.offset value
      ok (record t {
        hkeys = insert hkey t.offset t.hkeys;
        memory = m;
        inuse = t.inuse + length value;
        offset = t.offset + length value;
      })

-- The new table, and whether the previous table is to be tried.
unfoldable pub delete : Table → ℕ → Outcome Error (Table × Bool)
delete t hkey = elim (lookup hkey t.hkeys) [
  | none ↦ ok (t, true)
  | some offset ↦ do
    klen ← byte_at t.memory offset
    vlen ← read t.memory (offset + 1 + klen + 8) 4
    let garbage = 1 + klen + 8 + (4 + from_be vlen)
    ok (
      record t {
        hkeys = erase hkey t.hkeys;
        garbage = t.garbage + garbage;
        inuse = t.inuse - garbage;
      },
      false,
    )
]

-- The writes of `put`, in their order.
unfoldable pub write_entry : Table → VData → Outcome Error Table
write_entry t v = do
  m1 ← copy t.memory t.offset (length v.key % 256 ∷ [])
  m2 ← copy m1 (t.offset + 1) v.key
  m3 ← put_be 8 m2 (t.offset + 1 + length v.key) v.ttl
  m4 ← put_be 4 m3 (t.offset + 1 + length v.key + 8) (length v.value)
  m5 ← copy m4 (t.offset + 1 + length v.key + 8 + 4) v.value
  ok (record t { memory = m5; offset = t.offset + 1 + length v.key + 8 + 4 + length v.value })

-- `put` first deletes the key's old entry.
unfoldable pub drop_old : Table → ℕ → Outcome Error Table
drop_old t hkey = elim (lookup hkey t.hkeys) [
  | none ↦ ok t
  | some _ ↦ do (t', _) ← delete t hkey; ok t'
]

unfoldable pub put : Table → ℕ → VData → Outcome Error Table
put t hkey v =
    if leb max_key_len (length v.key)
    then fails key_too_large
    else let inuse = length v.key + length v.value + 13 in
      if leb t.allocated (inuse + t.offset) then fails not_enough_space else do
        t1 ← drop_old t hkey
        write_entry (record t1 { hkeys = insert hkey t1.offset t1.hkeys; inuse = t1.inuse + inuse })
            v

-- `none` is the source's `nil, true`: try the previous table.
unfoldable pub get_raw : Table → ℕ → Outcome Error (Option (List ℕ))
get_raw t hkey = elim (lookup hkey t.hkeys) [
  | none ↦ ok none
  | some offset ↦ do
    klen ← byte_at t.memory offset
    vlen ← read t.memory (offset + 1 + klen + 8) 4
    raw ← read t.memory offset (1 + klen + 8 + 4 + from_be vlen)
    ok (some (raw ++ (0 ∷ [])))
]

unfoldable pub get : Table → ℕ → Outcome Error (Option VData)
get t hkey = elim (lookup hkey t.hkeys) [
  | none ↦ ok none
  | some offset ↦ do vdata ← read_vdata t.memory offset; ok (some vdata)
]
