-- ===== src/Storage/Transport/Tests.antt =====
-- The round trip of a table with a concrete serializer.
use native.Mathlib.Omega.{arith}
use olricdb.Prelude.{ℕ, ◌^◌, ◌≡◌, refl, Bool, true, false, List, [], ◌∷◌, ◌++◌, ok}
use olricdb.Storage.Memory.{bytes, len-write}
use olricdb.Storage.Entry.{VData, IsEncodable, encode, read_ok}
use olricdb.Storage.Table.{Table}
use olricdb.Storage.Table.Put.{added, added-IsWellFormed}
use olricdb.Storage.Store.{Storage, total_keys, get}
use olricdb.Storage.Store.Invariant.{IsSound, fresh_table, fresh_table-IsWellFormed}
use olricdb.Storage.Transport.{export, import, export_tables, or_encode_failed, pack}
use olricdb.Storage.Transport.RoundTrip.{import-export}
use olricdb.Storage.Transport.Flat.{flat, flat-IsLossless, flatten}

abbrev granted : ℕ → Bool
granted n = true

abbrev entry : VData
entry = record { key = 107 ∷ []; ttl = 0; value = 1 ∷ 2 ∷ [] }

entry-IsEncodable : IsEncodable entry
entry-IsEncodable = record {
  key_short = omega arith;
  ttl_word = omega arith;
  value_short = omega arith;
}

abbrev table : Table
table = added (fresh_table 0) 7 entry

table-IsSound : IsSound (record { tables = table ∷ []; merging = false })
table-IsSound = record {
  nonempty = tt;
  tables = (
    added-IsWellFormed (fresh_table 0) 7 entry (fresh_table-IsWellFormed 0) entry-IsEncodable
        (omega arith),
    tt,
  );
}

exported :
    (data' : List ℕ) × (export flat (record { tables = table ∷ []; merging = false }) ≡ ok data')
unfolding export export_tables pack or_encode_failed
exported = (
  flatten (record {
    hkeys = table.hkeys;
    memory = bytes table.memory 0 table.offset ++ (0 ∷ []);
    offset = table.offset;
    allocated = table.allocated;
    inuse = table.inuse;
    garbage = table.garbage;
  }),
  rw (read_ok table.memory 0 table.offset (omega (arith, sized))) refl,
)
  where
    sized : table.memory.len ≡ 2 ^ 20
    sized = len-write (fresh_table 0).memory 0 (encode entry)

import-export_example :
    (s' : Storage) × (import flat granted exported.0 ≡ ok s')
    × IsSound s'
    × (total_keys s'.tables ≡ total_keys (table ∷ []))
    × ((h : ℕ) → get s' h ≡ get (record { tables = table ∷ []; merging = false }) h)
import-export_example =
    import-export flat granted flat-IsLossless table false exported.0 table-IsSound refl exported.1
