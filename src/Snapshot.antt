-- ===== src/Snapshot.antt =====
-- internal/snapshot/snapshot.go: what a node writes of its DMaps to the disk.
pub mod Database
pub mod Loader
pub mod Batches
pub mod Sync
pub mod Restore
pub mod Record
pub mod Registry
pub mod Destroy
mod Tests
use olricdb.Prelude.{
  ℕ, zero, suc, ◌+◌, ◌-◌, ◌/◌, ◌%◌, ◌^◌, Bool, true, false, Option, none, some, List, [], ◌∷◌, ◌++◌,
  leb, ltb, if◌then◌else◌, Outcome, ok, fails, panics, stuck, ◌>>=◌, ◌⊎◌, inl, inr, nat_eq, Text,
  text_eq,
}
use olricdb.Prelude.Dict.{Dict, lookup, insert, erase}
use olricdb.Prelude.Bytes.{be}
use olricdb.Prelude.Codec.{Codec}
use olricdb.Storage.Memory
use olricdb.Storage.Store.{Storage}
use olricdb.Storage.Store
use olricdb.Snapshot.Database.{Write, set, remove, Fetched, value, missing, broken, Badger}

pub data LogOp : Type 0 where
  log_put log_delete : LogOp

-- `str` is the state of the DMap's storage, which the log points to.
pub record OpLog : Type 0 where
  pub m : Dict ℕ LogOp
  pub str : Storage

unfoldable pub log_operation : LogOp → ℕ → OpLog → OpLog
log_operation op hkey o = record o { m = insert hkey op o.m }

-- `map[uint64]struct{}` and `onDiskDMaps`.
abbrev pub KeySet : Type 0
KeySet = Dict ℕ Unit

abbrev pub OnDiskDMaps : Type 0
OnDiskDMaps = Dict ℕ (Dict Text Unit)

-- `database` is an error of Badger other than `ErrKeyNotFound`.
pub data Error : Type 0 where
  key_not_found database malformed marshal_failed first_run loader_done : Error
  storage : Memory.Error → Error

-- The decimal digits of `x`, with fuel.
unfoldable pub digits : ℕ → ℕ → Text
digits zero x = []
digits (suc n) x =
    let rest = digits n (x / 10) in if ltb x 10 then (48 + x) ∷ [] else rest ++ ((48 + x % 10) ∷ [])

-- `strconv.Itoa(int(x))` for a uint64.
unfoldable pub itoa : ℕ → Text
unfolding digits
itoa x = if leb (2 ^ 63) x then 45 ∷ digits 20 (2 ^ 64 - x) else digits 20 x

-- "dmap-keys-"
abbrev pub dmap_keys_prefix : Text
dmap_keys_prefix = 100 ∷ 109 ∷ 97 ∷ 112 ∷ 45 ∷ 107 ∷ 101 ∷ 121 ∷ 115 ∷ 45 ∷ []

-- "primary-dmap-key"
abbrev pub primary_dmap_key : Text
primary_dmap_key =
    112 ∷ 114 ∷ 105 ∷ 109 ∷ 97 ∷ 114 ∷ 121 ∷ 45 ∷ 100 ∷ 109 ∷ 97 ∷ 112 ∷ 45 ∷ 107 ∷ 101 ∷ 121 ∷ []

-- "backup-dmap-key"
abbrev pub backup_dmap_key : Text
backup_dmap_key =
    98 ∷ 97 ∷ 99 ∷ 107 ∷ 117 ∷ 112 ∷ 45 ∷ 100 ∷ 109 ∷ 97 ∷ 112 ∷ 45 ∷ 107 ∷ 101 ∷ 121 ∷ []

unfoldable pub dmap_key : ℕ → Text → List ℕ
unfolding itoa
dmap_key part_id name = dmap_keys_prefix ++ (name ++ (45 ∷ itoa part_id))

unfoldable pub bkey : ℕ → List ℕ
bkey hkey = be 8 hkey

-- `msgpack.Unmarshal` of what was read.
unfoldable pub decoded : {A : Type 0} → Codec A → Fetched → Error ⊎ A
decoded c (value raw) = elim (c.unmarshal raw) [ some a ↦ inr a | none ↦ inl malformed ]
decoded c missing = inl key_not_found
decoded c broken = inl database

-- A key that is not there yet has no elements.
unfoldable pub or_empty : {A : Type 0} → Error ⊎ List A → Error ⊎ List A
or_empty (inl key_not_found) = inr []
or_empty r = r

-- What the loop of `syncDMap` has made so far.
pub record Batch : Type 0 where
  pub writes : List Write
  pub hkeys : KeySet
  pub failed : Dict ℕ LogOp

-- After `syncDMap`: the database, the log, the keys to process again, and the error.
pub record Synced (D : Type 0) : Type 0 where
  pub db : D
  pub log : OpLog
  pub failed : Dict ℕ LogOp
  pub err : Option Error

module _ {D : Type 0} (b : Badger D) where
  -- A write to the batch: an error keeps the key for the next call.
  unfoldable pub stage : D → Batch → ℕ → LogOp → Write → KeySet → Batch
  stage d acc hkey op w hkeys =
      if b.accepts d acc.writes w
      then record acc { writes = w ∷ acc.writes; hkeys = hkeys }
      else record acc { failed = insert hkey op acc.failed }

  -- What follows `GetRaw`.
  unfoldable pub stage_put : D → Batch → ℕ → Outcome Memory.Error (List ℕ) → Outcome Error Batch
  unfolding stage bkey
  stage_put d acc hkey (ok val) =
      ok (stage d acc hkey log_put (set (bkey hkey) val) (insert hkey tt acc.hkeys))
  stage_put d acc hkey (fails Memory.key_not_found) = ok acc
  stage_put d acc hkey (fails e) = ok (record acc { failed = insert hkey log_put acc.failed })
  stage_put d acc hkey panics = panics
  stage_put d acc hkey stuck = stuck

  unfoldable pub sync_key : D → Storage → Batch → ℕ → LogOp → Outcome Error Batch
  unfolding stage_put
  sync_key d str acc hkey log_put = stage_put d acc hkey (Store.get_raw str hkey)
  sync_key d str acc hkey log_delete =
      ok (stage d acc hkey log_delete (remove (bkey hkey)) (erase hkey acc.hkeys))

  unfoldable pub sync_keys : D → Storage → Batch → Dict ℕ LogOp → Outcome Error Batch
  unfolding sync_key
  sync_keys d str acc [] = ok acc
  sync_keys d str acc ((hkey, op) ∷ rest) = do
    acc' ← sync_key d str acc hkey op
    sync_keys d str acc' rest

  -- The return with `wb.Flush()`.
  unfoldable pub flushed : D → OpLog → Dict ℕ LogOp → List Write → Synced D
  flushed d log failed ws = record {
    db = (b.flush d ws).0;
    log = log;
    failed = failed;
    err = if (b.flush d ws).1 then none else some database;
  }

  module _ (keys : Codec KeySet) where
    -- The end of `syncDMap`: the set of keys is written with the batch.
    unfoldable pub save_hkeys : D → ℕ → Text → OpLog → Dict ℕ LogOp → Batch → Synced D
    unfolding flushed dmap_key
    save_hkeys d part_id name log wcopy acc = elim (keys.marshal acc.hkeys) [
      | none ↦ flushed d log wcopy acc.writes
      | some data' ↦
          let w = set (dmap_key part_id name) data' in
          if b.accepts d acc.writes w
          then flushed d log acc.failed (w ∷ acc.writes)
          else flushed d log wcopy acc.writes
    ]

    -- The log was emptied before the keys are read.
    unfoldable pub sync_read : D → ℕ → Text → OpLog → Error ⊎ KeySet → Outcome Error (Synced D)
    unfolding save_hkeys sync_keys
    sync_read d part_id name o (inr hkeys) = do
      acc ← sync_keys d o.str (record { writes = []; hkeys = hkeys; failed = [] }) o.m
      ok (save_hkeys d part_id name (record o { m = [] }) o.m acc)
    sync_read d part_id name o (inl e) =
        ok (record { db = d; log = record o { m = [] }; failed = []; err = some e })

    unfoldable pub sync_dmap : D → ℕ → Text → OpLog → Outcome Error (Synced D)
    unfolding sync_read or_empty decoded
    sync_dmap d part_id name o = elim o.m [
      | [] ↦ ok (record { db = d; log = o; failed = []; err = none })
      | _ ∷ _ ↦
          sync_read d part_id name o (or_empty (decoded keys (b.read d (dmap_key part_id name))))
    ]

-- The keys that failed go back to the log, where it has nothing newer.
unfoldable pub readd : Dict ℕ LogOp → Dict ℕ LogOp → Dict ℕ LogOp
readd [] m = m
readd ((hkey, op) ∷ failed) m = elim (lookup hkey m) [
  | some _ ↦ readd failed m
  | none ↦ readd failed (insert hkey op m)
]

-- `workers` tells of each partition's worker, whose goroutine was started, whether it still runs:
-- the source keeps the function that cancels it.
pub record Snapshot (D : Type 0) : Type 0 where
  pub db : D
  pub workers : Dict ℕ Bool
  pub oplogs : Dict ℕ (Dict Text OpLog)

-- What wakes a worker: the closing of the node, its cancellation, or the interval.
pub data WorkerEvent : Type 0 where
  closing cancelled tick : WorkerEvent

module _ {D : Type 0} (b : Badger D) where
  module _ (keys : Codec KeySet) where
    -- `sync`, over the logs of one partition.
    unfoldable pub sync_logs : D → ℕ → Dict Text OpLog → Outcome Error (D × Dict Text OpLog)
    unfolding sync_dmap readd
    sync_logs d part_id [] = ok (d, [])
    sync_logs d part_id ((name, o) ∷ rest) = do
      r ← sync_dmap b keys d part_id name o
      (d', rest') ← sync_logs r.db part_id rest
      ok (d', (name, record (r.log) { m = readd r.failed r.log.m }) ∷ rest')

    unfoldable pub sync_part : ℕ → Snapshot D → Outcome Error (Snapshot D)
    unfolding sync_logs
    sync_part part_id s = elim (lookup part_id s.oplogs) [
      | none ↦ ok s
      | some logs ↦ do
        (d, logs') ← sync_logs s.db part_id logs
        ok (record s { db = d; oplogs = insert part_id logs' s.oplogs })
    ]

    -- One turn of the worker's loop, and whether it goes on.
    unfoldable pub worker_turn : ℕ → WorkerEvent → Snapshot D → Outcome Error (Snapshot D × Bool)
    unfolding sync_part
    worker_turn part_id closing s = do s' ← sync_part part_id s; ok (s', false)
    worker_turn part_id cancelled s = ok (s, false)
    worker_turn part_id tick s = do s' ← sync_part part_id s; ok (s', true)
