-- ===== src/Storage/Tests.antt =====
-- The storage's theorems on concrete tables.
use native.Mathlib.Omega.{arith}
use olricdb.Prelude.{
  ℕ, zero, suc, ◌+◌, ◌^◌, ◌<◌, ◌≡◌, refl, Bool, true, false, none, some, List, [], ◌∷◌, length, ok,
  stuck, inl, inr,
}
use olricdb.Prelude.Bytes.{be}
use olricdb.Storage.Memory.{bytes}
use olricdb.Storage.Entry.{length-encode, VData, IsEncodable, encode}
use olricdb.Storage.Table.{Table}
use olricdb.Storage.Table
use olricdb.Storage.Table.Invariant.{IsWellFormed}
use olricdb.Storage.Table.Put.{added, added-IsWellFormed, get-added}
use olricdb.Storage.Table.Raw.{IsRaw, SameEntry, get-get_raw}
use olricdb.Storage.Store.{Storage, get, put, delete}
use olricdb.Storage.Store.Invariant.{
  IsSound, fresh_table, get-fresh_table, fresh_table-IsWellFormed,
}
use olricdb.Storage.Store.Retry.{IsUpdate}
use olricdb.Storage.Store.Put.{get-put_room, put_no_room}
use olricdb.Storage.Store.Delete.{Single, Removed, delete_lem}
use olricdb.Storage.Merge.{chunked_merge_tables}
use olricdb.Storage.Merge.Chunk.{get-chunked_merge_tables}
use olricdb.Storage.Merge.Stale.{get-chunked_merge_stale}

abbrev granted : ℕ → Bool
granted n = true

abbrev refused : ℕ → Bool
refused n = false

abbrev first : VData
first = record { key = 107 ∷ []; ttl = 0; value = 1 ∷ 2 ∷ [] }

abbrev second : VData
second = record { key = 107 ∷ []; ttl = 5; value = 3 ∷ [] }

first-IsEncodable : IsEncodable first
first-IsEncodable = record {
  key_short = omega arith;
  ttl_word = omega arith;
  value_short = omega arith;
}

second-IsEncodable : IsEncodable second
second-IsEncodable = record {
  key_short = omega arith;
  ttl_word = omega arith;
  value_short = omega arith;
}

abbrev empty : Table
empty = fresh_table 0

empty-IsWellFormed : IsWellFormed empty
empty-IsWellFormed = fresh_table-IsWellFormed 0

abbrev with_first : Table
with_first = added empty 7 first

abbrev with_second : Table
with_second = added empty 7 second

with_first-IsWellFormed : IsWellFormed with_first
with_first-IsWellFormed =
    added-IsWellFormed empty 7 first empty-IsWellFormed first-IsEncodable (omega arith)

get-get_raw_example : SameEntry (Table.get with_first 7) (Table.get_raw with_first 7)
get-get_raw_example = get-get_raw with_first 7 with_first-IsWellFormed

first-IsRaw : IsRaw (encode first) first
unfolding bytes be
first-IsRaw = record {
  encodable = first-IsEncodable;
  whole = omega arith;
  holds = record { klen = refl; key = refl; ttl = refl; vlen = refl; value = refl };
}

encoded_fits : length (encode first) + empty.offset < empty.allocated
encoded_fits = omega (arith, length-encode first)

abbrev one : Storage
one = record { tables = with_first ∷ []; merging = false }

one-IsSound : IsSound one
one-IsSound = record { nonempty = tt; tables = ((with_first-IsWellFormed, tt)) }

get-put_room_example :
    (s' : Storage) × (put granted 2 one 7 second ≡ ok (s', none)) × IsUpdate one s' 7 second
get-put_room_example =
    get-put_room granted 7 second with_first [] false 0 (λ n. refl) one-IsSound second-IsEncodable
      (inl (omega arith))

zeros : (n : ℕ) → (bs : List ℕ) × (length bs ≡ n)
zeros zero = ([], refl)
zeros (suc n) = let (bs, q) = zeros n in (0 ∷ bs, omega (arith, q))

-- An entry with a value of 1 MB, which the program accepts.
abbrev large : VData
large = record { key = 107 ∷ []; ttl = 0; value = (zeros (2 ^ 20)).0 }

put_no_room_example :
    put granted 100 (record { tables = empty ∷ []; merging = false }) 7 large ≡ stuck
put_no_room_example =
    put_no_room granted 7 large 100 empty [] false (λ n. refl) (omega arith)
      (omega (arith, (zeros (2 ^ 20)).1)) (omega (arith, (zeros (2 ^ 20)).1))

delete_lem_example : Removed one 7 (delete granted one 7)
delete_lem_example = delete_lem granted one 7 one-IsSound

with_first-get : Table.get with_first 7 ≡ ok (some first)
with_first-get = get-added empty 7 first empty-IsWellFormed first-IsEncodable (omega arith) 7

one-Single : Single 7 (some first) one.tables
one-Single = inl (with_first-get, refl)

with_second-IsWellFormed : IsWellFormed with_second
with_second-IsWellFormed =
    added-IsWellFormed empty 7 second empty-IsWellFormed second-IsEncodable (omega arith)

abbrev two : Storage
two = record { tables = with_second ∷ with_first ∷ []; merging = true }

get-chunked_merge_stale_example :
    (s' : Storage) × (chunked_merge_tables granted two ≡ ok (s', true)) × (get s' 7 ≡ ok first)
get-chunked_merge_stale_example =
    get-chunked_merge_stale granted with_second with_first true 7 0 first with_second-IsWellFormed
      with_first-IsWellFormed refl with_first-get (omega arith)

empty-get : Table.get empty 7 ≡ ok none
empty-get = get-fresh_table 0 7

abbrev split : Storage
split = record { tables = empty ∷ with_first ∷ []; merging = true }

get-chunked_merge_tables_example :
    (s' : Storage) × (over : Bool) × (chunked_merge_tables granted split ≡ ok (s', over))
    × IsSound s'
    × Single 7 (some first) s'.tables
    × (get s' 7 ≡ get split 7)
    × (over ≡ true → length s'.tables ≡ 1)
get-chunked_merge_tables_example =
    get-chunked_merge_tables granted split 7 (some first)
      (record { nonempty = tt; tables = (empty-IsWellFormed, (with_first-IsWellFormed, tt)) })
      (inr (empty-get, one-Single))
