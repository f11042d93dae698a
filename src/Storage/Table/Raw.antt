-- ===== src/Storage/Table/Raw.antt =====
-- `putRaw`, and the raw entries that `getRaw` gives to merges, moves and snapshots.
use native.Mathlib.Omega.{arith}
use olricdb.Prelude.{
  ℕ, zero, suc, ◌+◌, ◌≤◌, ◌<◌, ◌≡◌, refl, ap, ◌∙◌, List, [], ◌∷◌, ◌++◌, length, get_or, Option,
  none, some, if◌then◌else◌, ◌==◌, Outcome, ok, fails, nat_eq, Option-cases, inl, inr, Bool-cases,
  le→leb, lt→leb_false, length-append,
}
use olricdb.Prelude.Dict.{lookup, insert, All-insert, lookup-insert, Distinct-insert}
use olricdb.Storage.Memory.{
  Error, not_enough_space, Memory, of_bytes, bytes, write, len-write, byte-write_below, byte-write,
  length-bytes, get_or-bytes,
}
use olricdb.Storage.Entry.{
  VData, size, IsEncodable, Holds, Holds-moved, decode_raw, read_vdata-Holds,
}
use olricdb.Storage.Table.{Table, get, get_raw, put_raw}
use olricdb.Storage.Table.Invariant.{
  Stored, live_size-insert, live_size-kept, size_at-Holds, entries-kept, IsWellFormed,
}
use olricdb.Storage.Table.Lookup.{
  Stored-at, get-none, get-some, get-kept, get_raw-some, get_raw-none, raw_of,
}
use olricdb.Storage.Table.Put.{copy_ok}

-- The bytes begin with the entry `v`. What follows it is not read.
pub record IsRaw (raw : List ℕ) (v : VData) : Type 0 where
  pub encodable : IsEncodable v
  pub whole : size v ≤ length raw
  pub holds : Holds (of_bytes raw) 0 v

-- `DecodeRaw` reads the entry back.
pub decode_raw-IsRaw : (raw : List ℕ) (v : VData) → IsRaw raw v → decode_raw raw ≡ ok v
unfolding decode_raw
decode_raw-IsRaw raw v r =
    read_vdata-Holds (of_bytes raw) 0 v r.encodable r.holds (omega (arith, r.whole))

pub get_or-append : (xs ys : List ℕ) (i : ℕ) → i < length xs → get_or (xs ++ ys) i 0 ≡ get_or xs i 0
get_or-append [] ys i h = absurd (omega arith)
get_or-append (x ∷ xs) ys zero h = refl
get_or-append (x ∷ xs) ys (suc i) h = get_or-append xs ys i (omega arith)

pub raw_of-IsRaw :
    (m : Memory) (o : ℕ) (v : VData) → IsEncodable v → Holds m o v → IsRaw (raw_of m o v) v
raw_of-IsRaw m o v enc h = record {
  encodable = enc;
  whole = omega (arith, length-append {0} (bytes m o (size v)) (0 ∷ []), length-bytes m o (size v));
  holds =
      Holds-moved m (of_bytes (raw_of m o v)) o 0 v
        (λ i lt.
          ap (λ k. get_or (raw_of m o v) k 0) (omega arith)
          ∙ get_or-append (bytes m o (size v)) (0 ∷ []) i (omega (arith, length-bytes m o (size v)))
          ∙ get_or-bytes m o (size v) i lt)
        h;
}

-- What a lookup and a raw lookup of the same key say together.
pub data SameEntry : Outcome Error (Option VData) → Outcome Error (Option (List ℕ)) → Type 0 where
  missing : SameEntry (ok none) (ok none)
  present : {v : VData} {raw : List ℕ} → IsRaw raw v → SameEntry (ok (some v)) (ok (some raw))

-- On a well-formed table, `get` and `getRaw` of a key both find nothing, or `get` finds an entry
-- and `getRaw` finds bytes that begin with that entry.
pub get-get_raw : (t : Table) (h : ℕ) → IsWellFormed t → SameEntry (get t h) (get_raw t h)
get-get_raw t h w = elim (Option-cases (lookup h t.hkeys)) [
  | inl absent ↦ rw (get-none t h absent, get_raw-none t h absent) missing
  | inr (o, found) ↦
      let s = Stored-at t h o w found in
      rw
        (
          get-some t h o s.entry found s.encodable s.holds
              (omega (arith, s.below, w.mapped, w.room)),
          get_raw-some t h o w found s,
        )
        (present (raw_of-IsRaw t.memory o s.entry s.encodable s.holds))
]

pub put_raw_no_space :
    (t : Table) (h : ℕ) (raw : List ℕ)
    → t.allocated ≤ length raw + t.offset
    → put_raw t h raw ≡ fails not_enough_space
unfolding put_raw
put_raw_no_space t h raw full = rw (le→leb t.allocated (length raw + t.offset) full)

abbrev pub added_raw : Table → ℕ → List ℕ → Table
added_raw t h raw = record t {
  hkeys = insert h t.offset t.hkeys;
  memory = write t.memory t.offset raw;
  inuse = t.inuse + length raw;
  offset = t.offset + length raw;
}

module _ (t : Table) (h : ℕ) (raw : List ℕ) (v : VData) (w : IsWellFormed t) (r : IsRaw raw v)
    (fits : length raw + t.offset < t.allocated) where
  pub put_raw_lem : put_raw t h raw ≡ ok (added_raw t h raw)
  unfolding put_raw
  put_raw_lem = rw (
    lt→leb_false t.allocated (length raw + t.offset) fits,
    copy_ok t.memory t.offset raw (omega (arith, w.mapped)),
  )

  below_kept : (i : ℕ) → i < t.offset → (added_raw t h raw).memory.byte i ≡ t.memory.byte i
  below_kept i lt = byte-write_below t.memory t.offset raw i lt

  moved_in : Holds (added_raw t h raw).memory t.offset v
  moved_in =
      Holds-moved (of_bytes raw) (added_raw t h raw).memory 0 t.offset v
        (λ i lt.
          byte-write t.memory t.offset raw i (omega (arith, r.whole))
          ∙ ap (λ k. get_or raw k 0) (omega arith))
        r.holds

  here : Stored (added_raw t h raw).memory (added_raw t h raw).offset t.offset
  here = record {
    entry = v;
    encodable = r.encodable;
    below = omega (arith, r.whole);
    holds = moved_in;
  }

  added_raw-IsWellFormed : IsWellFormed (added_raw t h raw)
  added_raw-IsWellFormed = record {
    sized = w.sized;
    mapped = len-write t.memory t.offset raw ∙ w.mapped;
    room = omega arith;
    entries =
        All-insert (λ e. Stored (added_raw t h raw).memory (added_raw t h raw).offset e.1) h
          t.offset t.hkeys here
          (entries-kept t.memory (added_raw t h raw).memory t.offset (added_raw t h raw).offset
            t.hkeys (omega arith) below_kept w.entries);
    distinct = Distinct-insert h t.offset t.hkeys w.distinct;
    accounted = omega (arith, w.accounted);
    live = omega (
      arith,
      w.live,
      r.whole,
      live_size-insert (added_raw t h raw).memory h t.offset t.hkeys,
      live_size-kept t.memory (added_raw t h raw).memory t.offset t.hkeys below_kept w.entries,
      size_at-Holds (added_raw t h raw).memory t.offset v r.encodable moved_in,
    );
  }

  get-added_raw :
      (h' : ℕ) → get (added_raw t h raw) h' ≡ (if h == h' then ok (some v) else get t h')
  get-added_raw h' = elim (Bool-cases (h == h')) [
    | inl e ↦ rw e (
        get-some (added_raw t h raw) h' t.offset v (lookup-insert h h' t.offset t.hkeys ∙ rw e refl)
          r.encodable moved_in (omega (arith, r.whole, w.mapped, len-write t.memory t.offset raw)))
    | inr e ↦ rw e (
        get-kept t (added_raw t h raw) h' w (lookup-insert h h' t.offset t.hkeys ∙ rw e refl)
          (len-write t.memory t.offset raw) below_kept)
  ]

  -- On a well-formed table, `putRaw` of bytes that begin with an encodable entry, for which there
  -- is room, succeeds and keeps the table well-formed. Afterwards `get` gives that entry under the
  -- key, and under every other key what it gave before.
  pub get-put_raw :
      (t' : Table) × (put_raw t h raw ≡ ok t')
      × IsWellFormed t'
      × ((h' : ℕ) → get t' h' ≡ (if h == h' then ok (some v) else get t h'))
  get-put_raw = (added_raw t h raw, put_raw_lem, added_raw-IsWellFormed, get-added_raw)
