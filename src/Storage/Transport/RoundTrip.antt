-- ===== src/Storage/Transport/RoundTrip.antt =====
-- What `Export` gives, `Import` takes back: the same keys with the same values.
use native.Mathlib.Omega.{arith}
use olricdb.Prelude.{
  ℕ, ◌+◌, ◌<◌, ◌≡◌, refl, sym, ap, ◌∙◌, Bool, true, false, none, some, List, [], ◌∷◌, ◌++◌, length,
  length-append, ok, ◌>>=◌, Option-cases, inl, inr, nat_eq,
}
use olricdb.Prelude.Codec.{Codec, IsLossless}
use olricdb.Storage.Memory.{zeroed, bytes, write, len-write, byte-write, length-bytes, get_or-bytes}
use olricdb.Storage.Entry.{read_ok}
use olricdb.Storage.Table.{Table}
use olricdb.Storage.Table
use olricdb.Storage.Table.Invariant.{IsWellFormed, entries-kept, live_size-kept}
use olricdb.Storage.Table.Lookup.{get-kept}
use olricdb.Storage.Table.Put.{copy_ok}
use olricdb.Storage.Table.Raw.{get_or-append}
use olricdb.Storage.Transport.{Transport, or_encode_failed, pack, export, unpack, import}
use olricdb.Storage.Store.{or_not_found, Storage, new, get, total_keys}
use olricdb.Storage.Store.Invariant.{IsSound, size_for, fresh_table, new_table_granted}
use olricdb.Storage.Store.Delete.{content-cons, get-content}

abbrev packed : Table → Transport
packed t = record {
  hkeys = t.hkeys;
  memory = bytes t.memory 0 t.offset ++ (0 ∷ []);
  offset = t.offset;
  allocated = t.allocated;
  inuse = t.inuse;
  garbage = t.garbage;
}

abbrev restored : Table → Table
restored t = record {
  hkeys = t.hkeys;
  memory = write (zeroed (size_for t.allocated)) 0 (packed t).memory;
  offset = t.offset;
  allocated = size_for t.allocated;
  inuse = t.inuse;
  garbage = t.garbage;
}

module _ (t : Table) (w : IsWellFormed t) where
  same_size : size_for t.allocated ≡ t.allocated
  same_size = ground (arith, w.sized)

  length-packed : length (packed t).memory ≡ t.offset + 1
  length-packed = omega (
    arith,
    length-append {0} (bytes t.memory 0 t.offset) (0 ∷ []),
    length-bytes t.memory 0 t.offset,
  )

  same_bytes : (i : ℕ) → i < t.offset → (restored t).memory.byte i ≡ t.memory.byte i
  same_bytes i lt =
      ap (restored t).memory.byte (omega arith)
      ∙ byte-write (zeroed (size_for t.allocated)) 0 (packed t).memory i
          (omega (arith, length-packed))
      ∙ get_or-append (bytes t.memory 0 t.offset) (0 ∷ []) i
          (omega (arith, length-bytes t.memory 0 t.offset))
      ∙ get_or-bytes t.memory 0 t.offset i lt
      ∙ ap t.memory.byte (omega arith)

  same_len : (restored t).memory.len ≡ size_for t.allocated
  same_len = len-write (zeroed (size_for t.allocated)) 0 (packed t).memory

  restored-IsWellFormed : IsWellFormed (restored t)
  restored-IsWellFormed = record {
    sized = omega (arith, same_size, w.sized);
    mapped = same_len;
    room = omega (arith, same_size, w.room);
    entries =
        entries-kept t.memory (restored t).memory t.offset t.offset t.hkeys (omega arith) same_bytes
          w.entries;
    distinct = w.distinct;
    accounted = w.accounted;
    live = omega (
      arith,
      w.live,
      live_size-kept t.memory (restored t).memory t.offset t.hkeys same_bytes w.entries,
    );
  }

  pack_lem : pack t ≡ ok (packed t)
  unfolding pack
  pack_lem = rw (read_ok t.memory 0 t.offset (omega (arith, w.mapped, w.room))) refl

  unpack_lem : unpack (packed t) (fresh_table t.allocated) ≡ ok (restored t)
  unfolding unpack
  unpack_lem =
      rw
        (copy_ok (zeroed (size_for t.allocated)) 0 (packed t).memory
          (omega (arith, length-packed, same_size, w.room)))
        refl

  get-restored : (h : ℕ) → Table.get (restored t) h ≡ Table.get t h
  get-restored h = get-kept t (restored t) h w refl (same_len ∙ same_size ∙ sym w.mapped) same_bytes

module _ (msgpack : Codec Transport) (mmap : ℕ → Bool) (lossless : IsLossless msgpack) where
  decoded :
      (t : Table) (m : Bool) (data' : List ℕ)
      → IsSound (record { tables = t ∷ []; merging = m })
      → export msgpack (record { tables = t ∷ []; merging = m }) ≡ ok data'
      → msgpack.unmarshal data' ≡ some (packed t)
  unfolding export
  decoded t m data' w e = elim (Option-cases (msgpack.marshal (packed t))) [
    | inl q ↦ absurd (refused (rw (pack_lem t w.tables.0) at e) q)
    | inr (d, q) ↦ lossless (packed t) data' (q ∙ same d (rw (pack_lem t w.tables.0) at e) q)
  ]
    where
      refused :
          or_encode_failed (msgpack.marshal (packed t)) ≡ ok data'
          → msgpack.marshal (packed t) ≡ none
          → ⊥
      refused e q = cc

      same :
          (d : List ℕ)
          → or_encode_failed (msgpack.marshal (packed t)) ≡ ok data'
          → msgpack.marshal (packed t) ≡ some d
          → some d ≡ some data'
      same d e q = cc

  new_granted :
      (t : Table)
      → IsSound (record { tables = t ∷ []; merging = false })
      → mmap t.allocated ≡ true
      → new mmap t.allocated
        ≡ ok (record { tables = fresh_table t.allocated ∷ []; merging = false })
  unfolding new
  new_granted t w granted =
      rw (new_table_granted mmap t.allocated (ap mmap (same_size t w.tables.0) ∙ granted)) refl

  -- A sound storage of one table whose export succeeded, with a serializer that gives back what it
  -- was given, is imported without an error where the system grants the mapping: the result is
  -- sound, has as many keys, and gives the same under every key.
  pub import-export :
      (t : Table) (m : Bool) (data' : List ℕ)
      → IsSound (record { tables = t ∷ []; merging = m })
      → mmap t.allocated ≡ true
      → export msgpack (record { tables = t ∷ []; merging = m }) ≡ ok data'
      → (s' : Storage) × (import msgpack mmap data' ≡ ok s')
        × IsSound s'
        × (total_keys s'.tables ≡ total_keys (t ∷ []))
        × ((h : ℕ) → get s' h ≡ get (record { tables = t ∷ []; merging = m }) h)
  unfolding export import new total_keys
  import-export t m data' w granted e = (
    record { tables = restored t ∷ []; merging = false },
    rw (decoded t m data' w e) (
        rw (new_granted t (record { nonempty = tt; tables = w.tables }) granted)
          (rw (unpack_lem t w.tables.0) refl)),
    record { nonempty = tt; tables = (restored-IsWellFormed t w.tables.0, tt) },
    refl,
    λ h.
        get-content (record { tables = restored t ∷ []; merging = false }) h tt
        ∙ ap (λ c. c >>= or_not_found)
            (content-cons h t (restored t) [] [] (get-restored t w.tables.0 h) refl)
        ∙ sym (get-content (record { tables = t ∷ []; merging = m }) h tt),
  )
