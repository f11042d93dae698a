-- ===== src/Storage/Transport.antt =====
-- `Export` and `Import` of storage.go: a table on its way to another node.
pub mod RoundTrip
pub mod Flat
mod Tests
use olricdb.Prelude.{
  ℕ, Option, none, some, List, [], ◌∷◌, ◌++◌, Bool, Outcome, ok, fails, panics, ◌>>=◌,
}
use olricdb.Prelude.Codec.{Codec}
use olricdb.Prelude.Dict.{Dict}
use olricdb.Storage.Memory.{Error, fragmented, encode_failed, decode_failed, read, copy}
use olricdb.Storage.Table.{Table}
use olricdb.Storage.Store.{Storage, new}

pub record Transport : Type 0 where
  pub hkeys : Dict ℕ ℕ
  pub memory : List ℕ
  pub offset : ℕ
  pub allocated : ℕ
  pub inuse : ℕ
  pub garbage : ℕ

-- `make([]byte, t.offset+1)` is one byte longer than what is copied into it.
unfoldable pub pack : Table → Outcome Error Transport
pack t = do
  used ← read t.memory 0 t.offset
  ok (record {
    hkeys = t.hkeys;
    memory = used ++ (0 ∷ []);
    offset = t.offset;
    allocated = t.allocated;
    inuse = t.inuse;
    garbage = t.garbage;
  })

unfoldable pub or_encode_failed : Option (List ℕ) → Outcome Error (List ℕ)
or_encode_failed none = fails encode_failed
or_encode_failed (some data') = ok data'

or_decode_failed : {A : Type 0} → Option A → Outcome Error A
or_decode_failed none = fails decode_failed
or_decode_failed (some a) = ok a

unfoldable pub export_tables : Codec Transport → List Table → Outcome Error (List ℕ)
unfolding or_encode_failed
export_tables msgpack (t ∷ []) = do tr ← pack t; or_encode_failed (msgpack.marshal tr)
export_tables msgpack _ = fails fragmented

unfoldable pub export : Codec Transport → Storage → Outcome Error (List ℕ)
unfolding export_tables
export msgpack s = export_tables msgpack s.tables

-- The new table of `New(tr.Allocated)` with the fields and the bytes of the transport.
unfoldable pub unpack : Transport → Table → Outcome Error Table
unpack tr t = do
  m ← copy t.memory 0 tr.memory
  ok (record t {
    hkeys = tr.hkeys;
    offset = tr.offset;
    inuse = tr.inuse;
    garbage = tr.garbage;
    memory = m;
  })

unpack_first : Transport → Storage → List Table → Outcome Error Storage
unpack_first tr o [] = panics
unpack_first tr o (t ∷ ts) = do t' ← unpack tr t; ok (record o { tables = t' ∷ ts })

unfoldable pub import : Codec Transport → (ℕ → Bool) → List ℕ → Outcome Error Storage
unfolding or_decode_failed unpack_first
import msgpack mmap data' = do
  tr ← or_decode_failed (msgpack.unmarshal data')
  o ← new mmap tr.allocated
  unpack_first tr o o.tables
