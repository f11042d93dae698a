-- ===== src/Storage/Table/Lookup.antt =====
-- `get`, `getRaw` and `delete` on a well-formed table.
use native.Mathlib.Omega.{arith}
use olricdb.Prelude.{
  ℕ, ◌+◌, ◌-◌, ◌≤◌, ◌<◌, ◌≡◌, refl, sym, ap, ◌∙◌, List, [], ◌∷◌, ◌++◌, length, true, false, none,
  some, if◌then◌else◌, ◌==◌, ok, nat_eq, Option-cases, inl, inr, ==_iff, Bool-cases,
}
use olricdb.Prelude.Dict.{lookup, erase, All-lookup, All-erase, lookup-erase, Distinct-erase}
use olricdb.Prelude.Bytes.{be}
use olricdb.Storage.Memory.{Memory, bytes, read, byte_at}
use olricdb.Storage.Entry.{
  VData, size, IsEncodable, Holds, from_be_vlen, read_vdata-Holds, byte_at-Holds, read_vlen,
  read_ok,
}
use olricdb.Storage.Table.{Table, get, get_raw, delete}
use olricdb.Storage.Table.Invariant.{
  Stored, Holds-kept, size_at-Stored, live_size-erase, IsWellFormed, Ensures, live_size,
}

-- The entry that a well-formed table has under a key.
pub Stored-at :
    (t : Table) (h o : ℕ) → IsWellFormed t → lookup h t.hkeys ≡ some o → Stored t.memory t.offset o
Stored-at t h o w q = All-lookup (Stored t.memory t.offset) h t.hkeys w.entries q

pub get-none : (t : Table) (h : ℕ) → lookup h t.hkeys ≡ none → get t h ≡ ok none
unfolding get
get-none t h q = rw (q, get)

pub get-some :
    (t : Table) (h o : ℕ) (v : VData)
    → lookup h t.hkeys ≡ some o
    → IsEncodable v
    → Holds t.memory o v
    → o + size v ≤ t.memory.len
    → get t h ≡ ok (some v)
unfolding get
get-some t h o v q enc holds fits =
    rw (q, get) (rw (read_vdata-Holds t.memory o v enc holds fits) refl)

pub get-present :
    (t : Table) (h o : ℕ)
    → IsWellFormed t
    → lookup h t.hkeys ≡ some o
    → (v : VData) × (get t h ≡ ok (some v))
get-present t h o w q =
    let s = Stored-at t h o w q in
    (
      s.entry,
      get-some t h o s.entry q s.encodable s.holds (omega (arith, s.below, w.mapped, w.room)),
    )

-- A table that keeps the offset of a key and the bytes below `offset` keeps the entry.
pub get-kept :
    (t t' : Table) (h : ℕ)
    → IsWellFormed t
    → lookup h t'.hkeys ≡ lookup h t.hkeys
    → t'.memory.len ≡ t.memory.len
    → ((i : ℕ) → i < t.offset → t'.memory.byte i ≡ t.memory.byte i)
    → get t' h ≡ get t h
get-kept t t' h w q len same = elim (Option-cases (lookup h t.hkeys)) [
  | inl absent ↦ get-none t' h (q ∙ absent) ∙ sym (get-none t h absent)
  | inr (o, found) ↦ kept o found (Stored-at t h o w found)
]
  where
    kept : (o : ℕ) → lookup h t.hkeys ≡ some o → Stored t.memory t.offset o → get t' h ≡ get t h
    kept o found s =
        get-some t' h o s.entry (q ∙ found) s.encodable
          (Holds-kept t.memory t'.memory t.offset o s same)
          (omega (arith, s.below, len, w.mapped, w.room))
        ∙ sym (
            get-some t h o s.entry found s.encodable s.holds
              (omega (arith, s.below, w.mapped, w.room)))

abbrev pub raw_of : Memory → ℕ → VData → List ℕ
raw_of m o v = bytes m o (size v) ++ (0 ∷ [])

pub get_raw-some :
    (t : Table) (h o : ℕ)
    → IsWellFormed t
    → lookup h t.hkeys ≡ some o
    → (s : Stored t.memory t.offset o) → get_raw t h ≡ ok (some (raw_of t.memory o s.entry))
unfolding get_raw
get_raw-some t h o w q s =
    rw (q, get_raw) (rw (klen, vlen, from_be_vlen t.memory o s.entry s.encodable s.holds, raw) refl)
  where
    klen : byte_at t.memory o ≡ ok (length s.entry.key)
    klen =
        byte_at-Holds t.memory o s.entry s.encodable s.holds
          (omega (arith, s.below, w.mapped, w.room))

    vlen : read t.memory (o + 1 + length s.entry.key + 8) 4 ≡ ok (be 4 (length s.entry.value))
    vlen =
        read_vlen t.memory o s.entry s.encodable s.holds (omega (arith, s.below, w.mapped, w.room))

    raw :
        read t.memory o (1 + length s.entry.key + 8 + 4 + length s.entry.value)
        ≡ ok (bytes t.memory o (size s.entry))
    raw =
        ap (read t.memory o) (omega arith)
        ∙ read_ok t.memory o (size s.entry) (omega (arith, s.below, w.mapped, w.room))

pub get_raw-none : (t : Table) (h : ℕ) → lookup h t.hkeys ≡ none → get_raw t h ≡ ok none
unfolding get_raw
get_raw-none t h q = rw (q, get_raw)

-- The table after the key's entry has become garbage.
abbrev pub dropped : Table → ℕ → ℕ → Table
dropped t h n = record t { hkeys = erase h t.hkeys; garbage = t.garbage + n; inuse = t.inuse - n }

pub delete-none : (t : Table) (h : ℕ) → lookup h t.hkeys ≡ none → delete t h ≡ ok (t, true)
unfolding delete
delete-none t h q = rw (q, delete)

pub delete-some :
    (t : Table) (h o : ℕ)
    → IsWellFormed t
    → lookup h t.hkeys ≡ some o
    → (s : Stored t.memory t.offset o) → delete t h ≡ ok (dropped t h (size s.entry), false)
unfolding delete
delete-some t h o w q s =
    rw (q, delete)
      (rw (klen, vlen, from_be_vlen t.memory o s.entry s.encodable s.holds) (rw total refl))
  where
    klen : byte_at t.memory o ≡ ok (length s.entry.key)
    klen =
        byte_at-Holds t.memory o s.entry s.encodable s.holds
          (omega (arith, s.below, w.mapped, w.room))

    vlen : read t.memory (o + 1 + length s.entry.key + 8) 4 ≡ ok (be 4 (length s.entry.value))
    vlen =
        read_vlen t.memory o s.entry s.encodable s.holds (omega (arith, s.below, w.mapped, w.room))

    total : 1 + length s.entry.key + 8 + (4 + length s.entry.value) ≡ size s.entry
    total = omega arith

pub dropped-IsWellFormed :
    (t : Table) (h o : ℕ)
    → IsWellFormed t
    → lookup h t.hkeys ≡ some o
    → (s : Stored t.memory t.offset o) → IsWellFormed (dropped t h (size s.entry))
dropped-IsWellFormed t h o w q s = record {
  sized = w.sized;
  mapped = w.mapped;
  room = w.room;
  entries = All-erase (λ e. Stored t.memory t.offset e.1) h t.hkeys w.entries;
  distinct = Distinct-erase h t.hkeys w.distinct;
  accounted = omega (arith, w.accounted, w.live, freed);
  live = omega (arith, w.live, freed);
}
  where
    freed : live_size t.memory (erase h t.hkeys) + size s.entry ≤ live_size t.memory t.hkeys
    freed =
        omega (arith, live_size-erase t.memory h o t.hkeys q, size_at-Stored t.memory t.offset o s)

-- On a well-formed table `delete` does not panic, and keeps it well-formed.
pub delete-IsWellFormed :
    (t : Table) (h : ℕ) → IsWellFormed t → Ensures (λ r. IsWellFormed r.0) (delete t h)
delete-IsWellFormed t h w = elim (Option-cases (lookup h t.hkeys)) [
  | inl absent ↦ rw (delete-none t h absent) w
  | inr (o, found) ↦
      let s = Stored-at t h o w found in
      rw (delete-some t h o w found s) (dropped-IsWellFormed t h o w found s)
]

pub get-dropped :
    (t : Table) (h h' n : ℕ)
    → IsWellFormed t
    → get (dropped t h n) h' ≡ (if h == h' then ok none else get t h')
get-dropped t h h' n w = elim (Bool-cases (h == h')) [
  | inl e ↦ rw e (get-none (dropped t h n) h' (lookup-erase h h' t.hkeys ∙ rw e refl))
  | inr e ↦
      rw e (
        get-kept t (dropped t h n) h' w (lookup-erase h h' t.hkeys ∙ rw e refl) refl (λ i lt. refl))
]

-- `delete` on a well-formed table succeeds. Afterwards the table has nothing under the key, and
-- under every other key what it had.
pub get-delete :
    (t : Table) (h h' : ℕ)
    → IsWellFormed t
    → Ensures (λ r. get r.0 h' ≡ (if h == h' then ok none else get t h')) (delete t h)
get-delete t h h' w = elim (Option-cases (lookup h t.hkeys)) [
  | inl absent ↦ rw (delete-none t h absent) (unchanged absent)
  | inr (o, found) ↦
      let s = Stored-at t h o w found in
      rw (delete-some t h o w found s) (get-dropped t h h' (size s.entry) w)
]
  where
    unchanged : lookup h t.hkeys ≡ none → get t h' ≡ (if h == h' then ok none else get t h')
    unchanged absent = elim (Bool-cases (h == h')) [
      | inl e ↦ rw e (get-none t h' (ap (λ k. lookup k t.hkeys) (sym ((==_iff h h').0 e)) ∙ absent))
      | inr e ↦ rw e refl
    ]
