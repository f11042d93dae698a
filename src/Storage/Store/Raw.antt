-- ===== src/Storage/Store/Raw.antt =====
-- Raw entries on a storage: `GetRaw` next to `Get`, and `PutRaw`.
use native.Mathlib.Omega.{arith}
use olricdb.Prelude.{
  ℕ, suc, ◌+◌, ◌*◌, ◌<◌, ◌≡◌, refl, Bool, Option, none, some, List, [], ◌∷◌, length, All, Outcome,
  ok, ◌⊎◌, inr,
}
use olricdb.Storage.Memory.{Error}
use olricdb.Storage.Entry.{VData}
use olricdb.Storage.Table.{Table, minimum_size}
use olricdb.Storage.Table
use olricdb.Storage.Table.Invariant.{IsWellFormed}
use olricdb.Storage.Table.Raw.{
  IsRaw, SameEntry, missing, present, get-get_raw, get-put_raw, put_raw_no_space,
}
use olricdb.Storage.Store.{Storage, scan, get, get_raw, put_raw, or_not_found}
use olricdb.Storage.Store.Invariant.{IsSound, size_for, minimum_size-le}
use olricdb.Storage.Store.Retry.{Granted, IsUpdate, retry_room}

-- A lookup and a raw lookup of one key that agree, with the raw entry, if there is one.
abbrev pub Together :
    Outcome Error (Option VData) → Outcome Error (Option (List ℕ)) → Option (List ℕ) → Type 0
Together got got_raw none = (got ≡ ok none) × (got_raw ≡ ok none)
Together got got_raw (some raw) =
    (v : VData) × IsRaw raw v × (got ≡ ok (some v)) × (got_raw ≡ ok (some raw))

together :
    {got : Outcome Error (Option VData)} {got_raw : Outcome Error (Option (List ℕ))}
    → SameEntry got got_raw
    → (o : Option (List ℕ)) × Together got got_raw o
together missing = (none, (refl, refl))
together (present {v} {raw} r) = (some raw, (v, r, refl, refl))

scan-Together :
    (ts : List Table) (h : ℕ)
    → All IsWellFormed ts
    → (o : Option (List ℕ)) × Together
        (scan (λ t. Table.get t h) ts)
        (scan (λ t. Table.get_raw t h) ts)
        o
unfolding scan
scan-Together [] h w = (none, (refl, refl))
scan-Together (t ∷ ts) h w = first (together (get-get_raw t h w.0)) (scan-Together ts h w.1)
  where
    first :
        (o : Option (List ℕ)) × Together (Table.get t h) (Table.get_raw t h) o
        → (o : Option (List ℕ)) × Together
            (scan (λ t. Table.get t h) ts)
            (scan (λ t. Table.get_raw t h) ts)
            o
        → (o : Option (List ℕ)) × Together
            (scan (λ t. Table.get t h) (t ∷ ts))
            (scan (λ t. Table.get_raw t h) (t ∷ ts))
            o
    first (some raw, (v, r, q, q')) rest = (some raw, (v, r, rw q refl, rw q' refl))
    first (none, (q, q')) rest = rw (q, q', scan) rest

-- What the storage has under the key, as an entry and as its bytes.
abbrev pub Stores : Storage → ℕ → Option (List ℕ) → Type 0
Stores s h none = (get s h ≡ or_not_found none) × (get_raw s h ≡ or_not_found none)
Stores s h (some raw) =
    (v : VData) × IsRaw raw v × (get s h ≡ ok v) × (get_raw s h ≡ or_not_found (some raw))

found :
    (t : Table) (ts : List Table) (m : Bool) (h : ℕ)
    → (o : Option (List ℕ)) × Together
        (scan (λ t. Table.get t h) (t ∷ ts))
        (scan (λ t. Table.get_raw t h) (t ∷ ts))
        o
    → (o : Option (List ℕ)) × Stores (record { tables = t ∷ ts; merging = m }) h o
unfolding get get_raw or_not_found
found t ts m h (none, (q, q')) = (none, (rw q refl, rw q' refl))
found t ts m h (some raw, (v, r, q, q')) = (some raw, (v, r, rw q refl, rw q' refl))

-- `GetRaw` on a sound storage finds what `Get` finds.
pub get-get_raw_all : (s : Storage) (h : ℕ) → IsSound s → (o : Option (List ℕ)) × Stores s h o
get-get_raw_all s h w = by_tables s.tables s.merging w
  where
    by_tables :
        (ts : List Table) (m : Bool)
        → IsSound (record { tables = ts; merging = m })
        → (o : Option (List ℕ)) × Stores (record { tables = ts; merging = m }) h o
    by_tables [] m w = absurd w.nonempty
    by_tables (t ∷ ts) m w = found t ts m h (scan-Together (t ∷ ts) h w.tables)

pub put_raw_room :
    (mmap : ℕ → Bool) (h : ℕ) (raw : List ℕ) (v : VData) (t : Table) (older : List Table) (m : Bool)
    (fuel : ℕ)
    → Granted mmap
    → IsSound (record { tables = t ∷ older; merging = m })
    → IsRaw raw v
    → (length raw + t.offset < t.allocated) ⊎ (length raw < size_for (t.inuse * 2))
    → (s' : Storage) × (put_raw mmap
          (suc (suc fuel))
          (record { tables = t ∷ older; merging = m })
          h
          raw
        ≡ ok (s', none))
      × IsUpdate (record { tables = t ∷ older; merging = m }) s' h v
unfolding put_raw
put_raw_room mmap h raw v t older m fuel grant w r room =
    retry_room mmap h v (λ t. Table.put_raw t h raw) (length raw)
      (λ t w fits. get-put_raw t h raw v w r fits) (λ t full. put_raw_no_space t h raw full) t older
      m fuel grant w room

-- A raw entry below the size of a new table is written to any sound storage.
pub put_raw_small :
    (mmap : ℕ → Bool) (h : ℕ) (raw : List ℕ) (v : VData) (s : Storage) (fuel : ℕ)
    → Granted mmap
    → IsSound s
    → IsRaw raw v
    → length raw < minimum_size
    → (s' : Storage) × (put_raw mmap (suc (suc fuel)) s h raw ≡ ok (s', none)) × IsUpdate s s' h v
put_raw_small mmap h raw v s fuel grant w r small = by_tables s.tables s.merging w
  where
    by_tables :
        (ts : List Table) (m : Bool)
        → IsSound (record { tables = ts; merging = m })
        → (s' : Storage) × (put_raw mmap
              (suc (suc fuel))
              (record { tables = ts; merging = m })
              h
              raw
            ≡ ok (s', none))
          × IsUpdate (record { tables = ts; merging = m }) s' h v
    by_tables [] m w = absurd w.nonempty
    by_tables (t ∷ older) m w =
        put_raw_room mmap h raw v t older m fuel grant w r
          (inr (omega (arith, small, minimum_size-le (t.inuse * 2))))
