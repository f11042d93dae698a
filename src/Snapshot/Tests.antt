-- ===== src/Snapshot/Tests.antt =====
-- The theorems of the snapshot on a database that is an association list.
mod Restart
use native.Mathlib.Omega.{arith}
use olricdb.Prelude.{
  ℕ, ◌<◌, ◌^◌, ◌≡◌, refl, sym, ap, ◌∙◌, subst, ==_iff, Bool, true, false, Option, none, some, List,
  [], ◌∷◌, length, length-append, if◌then◌else◌, ok, inl, inr, nat_eq, Text, text_eq, text_beq,
  ◌&&◌, ◌==◌, Bool-cases, map,
}
use olricdb.Prelude.Dict.{Dict, lookup, insert, erase, lookup-insert, lookup-erase, Distinct}
use olricdb.Prelude.Codec.{Codec, IsLossless}
use olricdb.Storage.Memory.{bytes, length-bytes}
use olricdb.Storage.Entry.{VData, IsEncodable, Holds-write, size}
use olricdb.Storage.Table.{Table, minimum_size}
use olricdb.Storage.Table
use olricdb.Storage.Table.Invariant.{IsWellFormed, Stored}
use olricdb.Storage.Table.Put.{added, added-IsWellFormed, get-added}
use olricdb.Storage.Table.Lookup.{raw_of, get_raw-some, get_raw-none}
use olricdb.Storage.Table.Raw.{raw_of-IsRaw}
use olricdb.Storage.Store.{Storage, get, get_raw, scan, new, or_not_found, nonempty}
use olricdb.Storage.Store.Invariant.{
  IsSound, fresh_table, fresh_table-IsWellFormed, get-fresh_table,
}
use olricdb.Storage.Store.Raw.{Stores}
use olricdb.Snapshot.{
  LogOp, log_put, KeySet, OnDiskDMaps, Error, Snapshot, Synced, dmap_key, primary_dmap_key, bkey,
  or_empty, decoded, readd, log_operation, sync_dmap,
}
use olricdb.Snapshot.Record.{register_dmap, unregister_dmap, names_of}
use olricdb.Snapshot.Database.{
  Write, set, remove, Fetched, value, missing, Badger, replay, IsBadger,
}
use olricdb.Snapshot.Loader.{new_loader, load_from_badger}
use olricdb.Snapshot.Batches.{text_beq_refl, dmap_key-apart, Reads, IsLog}
use olricdb.Snapshot.Sync.{IsMirror, sync_dmap-IsMirror, sync_dmap-lost, log_operation-IsMirror}
use olricdb.Snapshot.Restore.{load-IsMirror}
use olricdb.Snapshot.Registry.{register_dmap-unregister_dmap, new_loader-register_dmap}

abbrev pub Disk : Type 0
Disk = Dict Text (List ℕ)

abbrev fetch : Option (List ℕ) → Fetched
fetch (some v) = value v
fetch none = missing

abbrev apply_writes : Disk → List Write → Disk
apply_writes d [] = d
apply_writes d (set k v ∷ ws) = insert k v (apply_writes d ws)
apply_writes d (remove k ∷ ws) = erase k (apply_writes d ws)

-- Every write is taken; `works` says whether a flush succeeds.
abbrev pub shelf : Bool → Badger Disk
shelf works = record {
  read = λ d k. fetch (lookup k d);
  accepts = λ d ws w. true;
  flush = λ d ws. if works then (apply_writes d ws, true) else (d, false);
  commit = λ d k v. (insert k v d, true);
}

fetch_if :
    (c : Bool) (x y : Option (List ℕ))
    → fetch (if c then x else y) ≡ (if c then fetch x else fetch y)
fetch_if true x y = refl
fetch_if false x y = refl

apply_writes-replay :
    (d : Disk) (ws : List Write) (k : List ℕ)
    → fetch (lookup k (apply_writes d ws)) ≡ replay ws k (fetch (lookup k d))
apply_writes-replay d [] k = refl
apply_writes-replay d (set j v ∷ ws) k =
    ap fetch (lookup-insert j k v (apply_writes d ws))
    ∙ fetch_if (text_beq j k) (some v) (lookup k (apply_writes d ws))
    ∙ ap (λ f. if text_beq j k then value v else f) (apply_writes-replay d ws k)
apply_writes-replay d (remove j ∷ ws) k =
    ap fetch (lookup-erase j k (apply_writes d ws))
    ∙ fetch_if (text_beq j k) none (lookup k (apply_writes d ws))
    ∙ ap (λ f. if text_beq j k then missing else f) (apply_writes-replay d ws k)

pub shelf-IsBadger : IsBadger (shelf true)
shelf-IsBadger = record {
  flushed = λ d ws k e. apply_writes-replay d ws k;
  committed = λ d k v j e. apply_writes-replay d (set k v ∷ []) j;
}

abbrev pub key_codec : Codec KeySet
key_codec = record {
  marshal = λ hs. some (map (λ e. e.0) hs);
  unmarshal = λ bs. some (map (λ h. (h, tt)) bs);
}

map_back : (hs : KeySet) → map (λ (h : ℕ). (h, tt {0})) (map (λ (e : ℕ × Unit {0}). e.0) hs) ≡ hs
map_back [] = refl
map_back ((h, u) ∷ hs) = ap (λ l. (h, tt) ∷ l) (map_back hs)

key_codec-IsLossless : IsLossless key_codec
key_codec-IsLossless hs data' e =
    ap (λ o. elim o [ some bs ↦ some (map (λ h. (h, tt)) bs) | none ↦ none ]) (sym e)
    ∙ ap some (map_back hs)

-- A registry with one DMap at most.
abbrev marshal_names : OnDiskDMaps → Option (List ℕ)
marshal_names [] = some []
marshal_names ((p, (n, u) ∷ []) ∷ []) = some (p ∷ n)
marshal_names _ = none

abbrev unmarshal_names : List ℕ → Option OnDiskDMaps
unmarshal_names [] = some []
unmarshal_names (p ∷ n) = some ((p, (n, tt) ∷ []) ∷ [])

abbrev name_codec : Codec OnDiskDMaps
name_codec = record { marshal = marshal_names; unmarshal = unmarshal_names }

reads_back : Option (List ℕ) → Option OnDiskDMaps
reads_back o = elim o [ some bs ↦ unmarshal_names bs | none ↦ none ]

name_codec-IsLossless : IsLossless name_codec
unfolding reads_back
name_codec-IsLossless [] data' e = ap reads_back (sym e)
name_codec-IsLossless ((p, []) ∷ ps) data' e = absurd (ground arith)
name_codec-IsLossless ((p, (n, u) ∷ []) ∷ []) data' e = ap reads_back (sym e)
name_codec-IsLossless ((p, (n, u) ∷ []) ∷ q ∷ ps) data' e = absurd (ground arith)
name_codec-IsLossless ((p, (n, u) ∷ m ∷ ns) ∷ ps) data' e = absurd (ground arith)

abbrev pub granted : ℕ → Bool
granted n = true

abbrev entry : VData
entry = record { key = 107 ∷ []; ttl = 0; value = 1 ∷ 2 ∷ [] }

entry-IsEncodable : IsEncodable entry
entry-IsEncodable = record {
  key_short = omega arith;
  ttl_word = omega arith;
  value_short = omega arith;
}

abbrev table : Table
table = added (fresh_table 0) 7 entry

table-IsWellFormed : IsWellFormed table
table-IsWellFormed =
    added-IsWellFormed (fresh_table 0) 7 entry (fresh_table-IsWellFormed 0) entry-IsEncodable
      (omega arith)

-- A storage with one entry, under 7.
abbrev pub str : Storage
str = record { tables = table ∷ []; merging = false }

abbrev raw : List ℕ
raw = raw_of table.memory 0 entry

stored : Stored table.memory table.offset 0
stored = record {
  entry = entry;
  encodable = entry-IsEncodable;
  below = omega arith;
  holds = Holds-write (fresh_table 0).memory 0 entry;
}

abbrev pub contents : ℕ → Option (List ℕ)
contents h = if 7 == h then some raw else none

table-get :
    (h : ℕ) → Table.get table h ≡ (if 7 == h then ok (some entry) else Table.get (fresh_table 0) h)
table-get h =
    get-added (fresh_table 0) 7 entry (fresh_table-IsWellFormed 0) entry-IsEncodable (omega arith) h

str-has : Stores str 7 (some raw)
unfolding get get_raw scan nonempty or_not_found stored
str-has = (
  entry,
  raw_of-IsRaw table.memory 0 entry entry-IsEncodable (Holds-write (fresh_table 0).memory 0 entry),
  rw (table-get 7) refl,
  rw (get_raw-some table 7 0 table-IsWellFormed refl stored) refl,
)

str-lacks : (h : ℕ) → (7 == h) ≡ false → Stores str h none
unfolding get get_raw scan nonempty or_not_found
str-lacks h q =
    (rw (table-get h, q, get-fresh_table 0 h) refl, rw (get_raw-none table h (rw q refl)) refl)

pub contents-Stores : (h : ℕ) → Stores str h (contents h)
contents-Stores h = elim (Bool-cases (7 == h)) [
  | inl q ↦ rw q (subst (λ j. Stores str j (some raw)) ((==_iff 7 h).0 q) str-has)
  | inr q ↦ rw q (str-lacks h q)
]

contents-Reads : Reads str contents
contents-Reads h = elim (Bool-cases (7 == h)) [
  | inl q ↦ rw q (subst (λ j. get_raw str j ≡ or_not_found (some raw)) ((==_iff 7 h).0 q) str-has.3)
  | inr q ↦ rw q ((str-lacks h q).1)
]

pub contents-small : (h : ℕ) (r : List ℕ) → contents h ≡ some r → length r < minimum_size
contents-small h r e = elim (Bool-cases (7 == h)) [
  | inl q ↦ ap_length r (rw q at e)
  | inr q ↦ absurd (ground arith)
]
  where
    short : length raw < minimum_size
    short = omega (
      arith,
      length-append {0} (bytes table.memory 0 (size entry)) (0 ∷ []),
      length-bytes table.memory 0 (size entry),
    )

    measure : Option (List ℕ) → ℕ
    measure o = elim o [ some x ↦ length x | none ↦ 0 ]

    ap_length : (r : List ℕ) → some raw ≡ some r → length r < minimum_size
    ap_length r e = omega (arith, short, ap measure e)

-- "d"
abbrev pub name : Text
name = 100 ∷ []

-- The put of the entry was logged, and nothing is on the disk.
abbrev log : Dict ℕ LogOp
log = (7, log_put) ∷ []

log-IsLog : (d : Disk) → IsLog (shelf true) contents d log
unfolding IsLog
log-IsLog d = ((omega arith, (raw, refl)), tt)

nothing-IsMirror : IsMirror (shelf true) key_codec 3 name [] (λ h. none) []
unfolding decoded or_empty
nothing-IsMirror = record { hkeys = []; stored = refl; bounded = tt; agrees = λ h hb n. refl }

log_operation-IsMirror_example :
    Distinct (log_operation log_put 7 (record { m = []; str = str })).m
    × IsLog (shelf true) contents [] (log_operation log_put 7 (record { m = []; str = str })).m
    × IsMirror
        (shelf true)
        key_codec
        3
        name
        []
        contents
        (log_operation log_put 7 (record { m = []; str = str })).m
unfolding IsLog
log_operation-IsMirror_example =
    log_operation-IsMirror (shelf true) key_codec 3 name [] (λ h. none) contents log_put 7
      (record { m = []; str = str }) (omega arith) (raw, refl) (λ k q. rw q refl) tt tt
      nothing-IsMirror

log-IsMirror : IsMirror (shelf true) key_codec 3 name [] contents log
unfolding log_operation IsLog
log-IsMirror =
    let (_, _, w) =
      log_operation-IsMirror (shelf true) key_codec 3 name [] (λ h. none) contents log_put 7
        (record { m = []; str = str }) (omega arith) (raw, refl) (λ k q. rw q refl) tt tt
        nothing-IsMirror in
    w

sync_dmap-IsMirror_example :
    (r : Synced Disk) × (sync_dmap (shelf true) key_codec [] 3 name (record { m = log; str = str })
      ≡ ok r)
    × (r.err ≡ none → IsMirror (shelf true) key_codec 3 name r.db contents (readd r.failed r.log.m))
sync_dmap-IsMirror_example =
    sync_dmap-IsMirror (shelf true) key_codec 3 name shelf-IsBadger key_codec-IsLossless contents []
      log (log-IsLog []) log-IsMirror str contents-Reads

sync_dmap-lost_example :
    sync_dmap (shelf false) key_codec [] 3 name (record { m = log; str = str })
    ≡ ok (record {
      db = [];
      log = record { m = []; str = str };
      failed = [];
      err = some Error.database;
    })
unfolding decoded or_empty
sync_dmap-lost_example =
    sync_dmap-lost (shelf false) key_codec 3 name [] (λ ws w. refl) (λ ws. refl)
      (λ hs. (map (λ e. e.0) hs, refl)) str contents (7, log_put) [] [] contents-Reads refl

-- The disk that the sync leaves.
abbrev pub disk : Disk
disk = (bkey 7, raw) ∷ (dmap_key 3 name, 7 ∷ []) ∷ []

pub disk-IsMirror : IsMirror (shelf true) key_codec 3 name disk contents []
unfolding decoded or_empty
disk-IsMirror = record {
  hkeys = (7, tt) ∷ [];
  stored = rw (dmap_key-apart 7 3 name, text_beq_refl (dmap_key 3 name)) refl;
  bounded = (omega arith, tt);
  agrees = λ h hb n. elim (Bool-cases (7 == h)) [
    | inl q ↦ rw q (
      subst (λ j. fetch (lookup (bkey j) disk) ≡ value raw) ((==_iff 7 h).0 q)
          (rw (text_beq_refl (bkey 7)) refl),
      refl,
    )
    | inr q ↦ rw q refl
  ];
}

-- A node with one DMap in partition 3, whose only entry is on the disk.
abbrev registry : Disk
registry = (primary_dmap_key, 3 ∷ name) ∷ disk

abbrev node : Snapshot Disk
node = record {
  db = registry;
  workers = (3, true) ∷ [];
  oplogs = (3, (name, record { m = []; str = str }) ∷ []) ∷ [];
}

-- The same node after the DMap is unregistered, and after another one is registered.
abbrev unregistered : Snapshot Disk
unregistered = record { db = (primary_dmap_key, []) ∷ disk; workers = (3, false) ∷ []; oplogs = [] }

abbrev again : Snapshot Disk
again = record {
  db = (primary_dmap_key, 3 ∷ 101 ∷ []) ∷ disk;
  workers = (3, false) ∷ [];
  oplogs = (3, (101 ∷ [], record { m = []; str = str }) ∷ []) ∷ [];
}

unregister_run :
    unregister_dmap (shelf true) name_codec primary_dmap_key 3 name node ≡ ok (unregistered, none)
unfolding unregister_dmap
unregister_run = refl

register_run :
    register_dmap (shelf true) name_codec primary_dmap_key 3 (101 ∷ []) str unregistered
    ≡ (again, none)
unfolding register_dmap
register_run = refl

register_dmap-unregister_dmap_example : lookup 3 again.workers ≡ some false
register_dmap-unregister_dmap_example =
    register_dmap-unregister_dmap (shelf true) shelf-IsBadger name_codec primary_dmap_key 3 name
      (101 ∷ []) (record { m = []; str = str }) str node unregistered again refl unregister_run
      register_run

new_loader-register_dmap_example :
    (old new : OnDiskDMaps) × (or_empty
        (decoded name_codec (fetch (lookup primary_dmap_key unregistered.db)))
      ≡ inr old)
    × (new_loader (shelf true) granted 2 name_codec again.db primary_dmap_key ≡ inr new)
    × ((part_id' : ℕ) (name' : Text)
        → lookup name' (names_of part_id' new) ≡ (
            if (3 == part_id') && text_beq (101 ∷ []) name'
            then some tt
            else lookup name' (names_of part_id' old)))
new_loader-register_dmap_example =
    new_loader-register_dmap (shelf true) shelf-IsBadger name_codec name_codec-IsLossless
      primary_dmap_key 3 (101 ∷ []) str unregistered again granted 2 register_run

abbrev destroyed : Snapshot Disk
destroyed = record {
  db = (primary_dmap_key, []) ∷ (dmap_key 3 name, 7 ∷ []) ∷ [];
  workers = (3, false) ∷ [];
  oplogs = [];
}

abbrev recreated : Snapshot Disk
recreated = record {
  db = (primary_dmap_key, 3 ∷ name) ∷ (dmap_key 3 name, 7 ∷ []) ∷ [];
  workers = (3, false) ∷ [];
  oplogs = (3, (name, record { m = []; str = str }) ∷ []) ∷ [];
}
