-- ===== src/Storage/Table/Put.antt =====
-- `put` on a well-formed table.
use mathlib.Core.List.{append_assoc}
use native.Mathlib.Omega.{arith}
use olricdb.Prelude.{
  ℕ, ◌+◌, ◌-◌, ◌%◌, ◌≤◌, ◌<◌, ◌≡◌, refl, ap, ◌∙◌, List, [], ◌∷◌, ◌++◌, length, some, if◌then◌else◌,
  ◌==◌, ok, fails, nat_eq, Option-cases, inl, inr, Bool-cases, le→leb, lt→leb_false, take_all,
  length-append,
}
use olricdb.Prelude.Dict.{lookup, insert, All-insert, lookup-insert, Distinct-insert}
use olricdb.Prelude.Bytes.{be, length-be}
use olricdb.Storage.Memory.{
  not_enough_space, key_too_large, Memory, copy, put_be, write, len-write, write-append,
  byte-write_below,
}
use olricdb.Storage.Entry.{VData, size, encode, IsEncodable, Holds-write}
use olricdb.Storage.Table.{Table, get, put, drop_old, write_entry, max_key_len}
use olricdb.Storage.Table.Invariant.{
  Stored, live_size-insert, live_size-kept, size_at-Holds, entries-kept, IsWellFormed, Ensures,
}
use olricdb.Storage.Table.Lookup.{
  Stored-at, dropped, dropped-IsWellFormed, delete-some, get-dropped, get-some, get-kept,
}

pub copy_ok :
    (m : Memory) (at : ℕ) (bs : List ℕ) → at + length bs ≤ m.len → copy m at bs ≡ ok (write m at bs)
unfolding copy
copy_ok m at bs h = rw (le→leb at m.len (omega arith), take_all (m.len - at) bs (omega arith))

-- A copy that goes on where the last one ended.
copy_next :
    (m : Memory) (at p : ℕ) (xs ys : List ℕ)
    → p ≡ at + length xs
    → p + length ys ≤ m.len
    → copy (write m at xs) p ys ≡ ok (write m at (xs ++ ys))
copy_next m at p xs ys q h =
    copy_ok (write m at xs) p ys (omega (arith, len-write m at xs))
    ∙ ap ok (ap (λ a. write (write m at xs) a ys) q ∙ write-append m at xs ys)

put_be_next :
    (n : ℕ) (m : Memory) (at p v : ℕ) (xs : List ℕ)
    → p ≡ at + length xs
    → p + n ≤ m.len
    → put_be n (write m at xs) p v ≡ ok (write m at (xs ++ be n v))
unfolding put_be
put_be_next n m at p v xs q h =
    rw (le→leb (p + n) (write m at xs).len (omega (arith, len-write m at xs)))
      (ap ok (ap (λ a. write (write m at xs) a (be n v)) q ∙ write-append m at xs (be n v)))

-- The five writes are one write of the whole entry.
write_entry_lem :
    (t : Table) (v : VData)
    → length v.key < 256
    → t.offset + size v ≤ t.memory.len
    → write_entry t v
      ≡ ok (record t { memory = write t.memory t.offset (encode v); offset = t.offset + size v })
unfolding write_entry
write_entry_lem t v short fits = rw (klen, key, ttl, vlen, value) (rw (whole, total) refl)
  where
    open t use {memory, offset}

    n : ℕ
    n = length v.key

    klen : copy memory offset (n % 256 ∷ []) ≡ ok (write memory offset (n ∷ []))
    klen =
        ap (λ k. copy memory offset (k ∷ [])) (omega arith)
        ∙ copy_ok memory offset (n ∷ []) (omega arith)

    key :
        copy (write memory offset (n ∷ [])) (offset + 1) v.key
        ≡ ok (write memory offset (n ∷ v.key))
    key = copy_next memory offset (offset + 1) (n ∷ []) v.key refl (omega arith)

    ttl :
        put_be 8 (write memory offset (n ∷ v.key)) (offset + 1 + n) v.ttl
        ≡ ok (write memory offset (n ∷ (v.key ++ be 8 v.ttl)))
    ttl = put_be_next 8 memory offset (offset + 1 + n) v.ttl (n ∷ v.key) (omega arith) (omega arith)

    vlen :
        put_be 4
          (write memory offset (n ∷ (v.key ++ be 8 v.ttl)))
          (offset + 1 + n + 8)
          (length v.value)
        ≡ ok (write memory offset (n ∷ ((v.key ++ be 8 v.ttl) ++ be 4 (length v.value))))
    vlen =
        put_be_next 4 memory offset (offset + 1 + n + 8) (length v.value)
          (n ∷ (v.key ++ be 8 v.ttl))
          (omega (arith, length-append {0} v.key (be 8 v.ttl), length-be 8 v.ttl)) (omega arith)

    value :
        copy
          (write memory offset (n ∷ ((v.key ++ be 8 v.ttl) ++ be 4 (length v.value))))
          (offset + 1 + n + 8 + 4)
          v.value
        ≡ ok (
            write memory offset (n ∷ (((v.key ++ be 8 v.ttl) ++ be 4 (length v.value)) ++ v.value)))
    value =
        copy_next memory offset (offset + 1 + n + 8 + 4)
          (n ∷ ((v.key ++ be 8 v.ttl) ++ be 4 (length v.value))) v.value
          (omega (
            arith,
            length-append {0} v.key (be 8 v.ttl),
            length-be 8 v.ttl,
            length-append {0} (v.key ++ be 8 v.ttl) (be 4 (length v.value)),
            length-be 4 (length v.value),
          ))
          (omega arith)

    whole : n ∷ (((v.key ++ be 8 v.ttl) ++ be 4 (length v.value)) ++ v.value) ≡ encode v
    whole = simp append_assoc

    total : offset + 1 + n + 8 + 4 + length v.value ≡ offset + size v
    total = omega arith

-- The table that `put` leaves when there is room: `u` is the table without the key's old entry.
abbrev pub added : Table → ℕ → VData → Table
added u h v = record u {
  hkeys = insert h u.offset u.hkeys;
  memory = write u.memory u.offset (encode v);
  offset = u.offset + size v;
  inuse = u.inuse + size v;
}

module _ (u : Table) (h : ℕ) (v : VData) (w : IsWellFormed u) (enc : IsEncodable v)
    (fits : size v + u.offset < u.allocated) where
  below : (i : ℕ) → i < u.offset → (added u h v).memory.byte i ≡ u.memory.byte i
  below i lt = byte-write_below u.memory u.offset (encode v) i lt

  here : Stored (added u h v).memory (added u h v).offset u.offset
  here = record {
    entry = v;
    encodable = enc;
    below = omega arith;
    holds = Holds-write u.memory u.offset v;
  }

  pub added-IsWellFormed : IsWellFormed (added u h v)
  added-IsWellFormed = record {
    sized = w.sized;
    mapped = len-write u.memory u.offset (encode v) ∙ w.mapped;
    room = omega arith;
    entries =
        All-insert (λ e. Stored (added u h v).memory (added u h v).offset e.1) h u.offset u.hkeys
          here
          (entries-kept u.memory (added u h v).memory u.offset (added u h v).offset u.hkeys
            (omega arith) below w.entries);
    distinct = Distinct-insert h u.offset u.hkeys w.distinct;
    accounted = omega (arith, w.accounted);
    live = omega (
      arith,
      w.live,
      live_size-insert (added u h v).memory h u.offset u.hkeys,
      live_size-kept u.memory (added u h v).memory u.offset u.hkeys below w.entries,
      size_at-Holds (added u h v).memory u.offset v enc (Holds-write u.memory u.offset v),
    );
  }

  pub get-added : (h' : ℕ) → get (added u h v) h' ≡ (if h == h' then ok (some v) else get u h')
  get-added h' = elim (Bool-cases (h == h')) [
    | inl e ↦ rw e (
        get-some (added u h v) h' u.offset v (lookup-insert h h' u.offset u.hkeys ∙ rw e refl) enc
          (Holds-write u.memory u.offset v)
          (omega (arith, w.mapped, len-write u.memory u.offset (encode v))))
    | inr e ↦ rw e (
        get-kept u (added u h v) h' w (lookup-insert h h' u.offset u.hkeys ∙ rw e refl)
          (len-write u.memory u.offset (encode v)) below)
  ]

-- `put` fails exactly on a key of 256 bytes or more, or where the entry does not fit.
pub put_key_too_large :
    (t : Table) (h : ℕ) (v : VData) → 256 ≤ length v.key → put t h v ≡ fails key_too_large
unfolding put
put_key_too_large t h v long = rw (le→leb max_key_len (length v.key) long)

pub put_no_space :
    (t : Table) (h : ℕ) (v : VData)
    → length v.key < 256
    → t.allocated ≤ size v + t.offset
    → put t h v ≡ fails not_enough_space
unfolding put
put_no_space t h v short full =
    rw (lt→leb_false max_key_len (length v.key) short, le→leb t.allocated (size v + t.offset) full)

-- `put` of a table returns ErrKeyTooLarge on a key of 256 bytes or more, whatever room there is,
-- and errNotEnoughSpace on a shorter key where the entry, put at the table's offset, would reach
-- the end of the table.
pub put_refuses :
    (t : Table) (h : ℕ) (v : VData)
    → (256 ≤ length v.key → put t h v ≡ fails key_too_large)
      × (length v.key < 256 → t.allocated ≤ size v + t.offset → put t h v ≡ fails not_enough_space)
put_refuses t h v = (put_key_too_large t h v, put_no_space t h v)

-- What `put` does when there is room.
module _ (t : Table) (h : ℕ) (v : VData) (w : IsWellFormed t) (enc : IsEncodable v)
    (fits : size v + t.offset < t.allocated) where
  put-added :
      (u : Table)
      → drop_old t h ≡ ok u
      → u.offset ≡ t.offset
      → u.memory ≡ t.memory
      → put t h v ≡ ok (added u h v)
  unfolding put
  put-added u dropping o m =
      rw
        (
          lt→leb_false max_key_len (length v.key) enc.key_short,
          lt→leb_false t.allocated (size v + t.offset) fits,
          dropping,
        )
        (write_entry_lem (record u { hkeys = insert h u.offset u.hkeys; inuse = u.inuse + size v })
          v enc.key_short (omega (arith, o, ap (λ (k : Memory). k.len) m, w.mapped)))

  pub put_lem :
      (u : Table) × (put t h v ≡ ok (added u h v))
      × IsWellFormed u
      × (size v + u.offset < u.allocated)
      × ((h' : ℕ)
          → (if h == h' then ok (some v) else get u h')
            ≡ (if h == h' then ok (some v) else get t h'))
  unfolding drop_old
  put_lem = elim (Option-cases (lookup h t.hkeys)) [
    | inl absent ↦ (t, put-added t (rw (absent, drop_old)) refl refl, w, fits, λ h'. refl)
    | inr (o, found) ↦
        let s = Stored-at t h o w found in
        (
          dropped t h (size s.entry),
          put-added (dropped t h (size s.entry))
              (rw (found, drop_old) (rw (delete-some t h o w found s) refl)) refl refl,
          dropped-IsWellFormed t h o w found s,
          fits,
          λ h'. ground (arith, get-dropped t h h' (size s.entry) w),
        )
  ]

  -- The new table is well-formed.
  pub put-IsWellFormed : Ensures IsWellFormed (put t h v)
  put-IsWellFormed =
      let (u, q, wu, room, _) = put_lem in rw q (added-IsWellFormed u h v wu enc room)

  -- On a well-formed table, `put` of an encodable entry for which there is room succeeds and keeps
  -- the table well-formed. Afterwards `get` gives the entry under its key, whether or not the key
  -- was there, and under every other key what it gave before.
  pub get-put :
      (t' : Table) × (put t h v ≡ ok t')
      × IsWellFormed t'
      × ((h' : ℕ) → get t' h' ≡ (if h == h' then ok (some v) else get t h'))
  get-put =
      let (u, q, wu, room, same) = put_lem in
      (
        added u h v,
        q,
        added-IsWellFormed u h v wu enc room,
        λ h'. get-added u h v wu enc room h' ∙ same h',
      )
