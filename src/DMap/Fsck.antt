-- ===== src/DMap/Fsck.antt =====
-- fsck.go: DMaps move to the new owners of their partitions.
pub mod Move
use native.Mathlib.Omega.{arith}
use olricdb.Prelude.{
  ℕ, zero, suc, ◌+◌, ◌-◌, ◌≤◌, ◌<◌, ◌≡◌, ◌⊎◌, inl, inr, refl, sym, ap, ◌∙◌, Bool, true, false, not,
  ◌&&◌, Option, none, some, List, [], ◌∷◌, map, length, take, drop, leb, ltb, ◌==◌, if◌then◌else◌,
  nat_eq, Text, text_eq, Outcome, ok, fails, panics, stuck,
}
use olricdb.Prelude.Dict.{Dict, lookup, insert, erase}
use olricdb.Prelude.Codec.{Codec}
use olricdb.Protocol.Code.{Message, zero_message, error, success, status_internal_server_error}
use olricdb.Protocol.Code
use olricdb.Protocol.Code.OpCode
use olricdb.Storage.Memory
use olricdb.Storage.Entry.{VData}
use olricdb.Storage.Store.{Storage, Written, range}
use olricdb.Storage.Store
use olricdb.Storage.Transport.{Transport, export, import}
use olricdb.Discovery.{Host, host_cmp}
use olricdb.Routing
use olricdb.Routing.{Partition, calc_max_backup_count, last_owner, has_host}
use olricdb.DMap.{
  DMap, Shard, Node, Env, Error, storage, Result, and_then, Kind, primary_copy, backup_copy,
  request_to, shards, set_shard, count_down,
}
use olricdb.DMap.Put.{previous_owners, backup_targets, write_response}

-- `dmapbox`
pub record DmapBox : Type 0 where
  pub part_id : ℕ
  pub name : Text
  pub payload : List ℕ

-- msgpack's codecs and the text of its error, and how many locks the locker of a DMap has.
pub record Mover : Type 0 where
  pub transport : Codec Transport
  pub box : Codec DmapBox
  pub locks : ℕ → Text → ℕ
  pub bad_box : List ℕ

abbrev pub move_op : Kind → ℕ
move_op primary_copy = OpCode.move_dmap
move_op backup_copy = OpCode.backup_move_dmap

-- A DMap with a lock stays; a backup has no locker.
unfoldable pub is_locked : Mover → Kind → ℕ → Text → Bool
is_locked mv primary_copy id name = not (mv.locks id name == 0)
is_locked mv backup_copy id name = false

-- The moved DMap leaves the partition, and the count with it.
unfoldable pub drop_dmap : Kind → ℕ → Shard → Text → Node → Node
unfolding set_shard
drop_dmap kind id s name n =
    set_shard kind id
      (record {
        part = record (s.part) { count = count_down s.part.count };
        dmaps = erase name s.dmaps;
      })
      n

-- After the request: the partition is looked at again, since the request only changes `sent`.
unfoldable pub after_move : Kind → ℕ → Shard → Text → Result Message → Result Unit
unfolding drop_dmap
after_move kind id s name (n, ok _) = (drop_dmap kind id s name n, ok tt)
after_move kind id s name (n, fails e) = (n, ok tt)
after_move kind id s name (n, panics) = (n, panics)
after_move kind id s name (n, stuck) = (n, stuck)

unfoldable pub send_box : Env → Mover → Kind → ℕ → Shard → Text → Host → Node → List ℕ → Result Unit
unfolding after_move request_to
send_box env mv kind id s name owner n payload =
    elim (mv.box.marshal (record { part_id = id; name = name; payload = payload })) [
      | none ↦ (n, ok tt)
      | some value ↦
          after_move kind id s name
            (request_to env n owner.name (move_op kind) (record zero_message { value = value }))
    ]

-- What follows `Export`. Errors are only logged.
unfoldable pub send_export :
    Env
    → Mover
    → Kind
    → ℕ
    → Shard
    → Text
    → Host
    → Node
    → Outcome Memory.Error (List ℕ)
    → Result Unit
unfolding send_box
send_export env mv kind id s name owner n (ok payload) =
    send_box env mv kind id s name owner n payload
send_export env mv kind id s name owner n (fails e) = (n, ok tt)
send_export env mv kind id s name owner n panics = (n, panics)
send_export env mv kind id s name owner n stuck = (n, stuck)

-- `moveDMap`. A DMap that another goroutine has moved away is closed, and cannot be exported. What
-- the snapshot says of the moved DMap is only logged.
unfoldable pub move_in : Env → Mover → Kind → ℕ → Shard → Text → Host → Node → Result Unit
unfolding send_export is_locked
move_in env mv kind id s name owner n = elim (lookup name s.dmaps) [
  | none ↦ (n, ok tt)
  | some dm ↦
      if is_locked mv kind id name
      then (n, ok tt)
      else send_export env mv kind id s name owner n (export mv.transport dm.str)
]

unfoldable pub move_dmap : Env → Mover → Kind → ℕ → Text → Host → Node → Result Unit
unfolding move_in shards
move_dmap env mv kind id name owner n = elim (lookup id (shards kind n)) [
  | none ↦ (n, panics)
  | some s ↦ move_in env mv kind id s name owner n
]

-- `moveDMaps`: the goroutines, one after the other.
unfoldable pub move_dmaps : Env → Mover → Kind → ℕ → List Text → Host → Node → Result Unit
unfolding move_dmap
move_dmaps env mv kind id [] owner n = (n, ok tt)
move_dmaps env mv kind id (name ∷ names) owner n =
    and_then (move_dmap env mv kind id name owner n)
      λ n1 _. move_dmaps env mv kind id names owner n1

abbrev pub names_in : Shard → List Text
names_in s = map (λ e. e.0) s.dmaps

-- `moveBackupDMaps`: the names are the same for every backup, though the first move takes them away.
unfoldable pub move_backup_dmaps : Env → Mover → ℕ → List Text → List Host → Node → Result Unit
unfolding move_dmaps
move_backup_dmaps env mv id names [] n = (n, ok tt)
move_backup_dmaps env mv id names (b ∷ bs) n =
    and_then (move_dmaps env mv backup_copy id names b n)
      λ n1 _. move_backup_dmaps env mv id names bs n1

-- One partition of `fsck`: an owner that is not the last one gives its DMaps to the last one.
unfoldable pub fsck_owned :
    Env → Mover → ℕ → Shard → Node → Option (List Host) → Outcome Routing.Error Host → Result Unit
unfolding move_dmaps has_host
fsck_owned env mv id s n (some previous) (ok owner) =
    if has_host n.this previous
    then move_dmaps env mv primary_copy id (names_in s) owner n
    else (n, ok tt)
fsck_owned env mv id s n _ _ = (n, panics)

unfoldable pub fsck_primary : Env → Mover → ℕ → Node → Result Unit
unfolding fsck_owned previous_owners last_owner
fsck_primary env mv id n = elim (lookup id n.primary) [
  | none ↦ (n, panics)
  | some s ↦
      if s.part.count == 0
      then (n, ok tt)
      else fsck_owned env mv id s n (previous_owners s.part.owners) (last_owner s.part.owners)
]

-- A stale backup gives its DMaps to the last `wanted` ones.
unfoldable pub fsck_backup : Env → Mover → ℕ → ℕ → Node → Result Unit
unfolding move_backup_dmaps has_host
fsck_backup env mv wanted id n = elim (lookup id n.backup) [
  | none ↦ (n, panics)
  | some s ↦
      if s.part.count == 0
      then (n, ok tt)
      else let stale = length s.part.owners - wanted in
        if leb (length s.part.owners) wanted
        then (n, ok tt)
        else if has_host n.this (take stale s.part.owners)
        then move_backup_dmaps env mv id (names_in s) (drop stale s.part.owners) n
        else (n, ok tt)
]

-- The partitions from `id`, `count` of them.
unfoldable pub each_part : (ℕ → Node → Result Unit) → ℕ → ℕ → Node → Result Unit
each_part f id zero n = (n, ok tt)
each_part f id (suc count) n = and_then (f id n) λ n1 _. each_part f (id + 1) count n1

unfoldable pub fsck : Env → Mover → Node → Result Unit
unfolding each_part fsck_primary fsck_backup
fsck env mv n = and_then (each_part (fsck_primary env mv) 0 n.config.partition_count n) λ n1 _.
    each_part (fsck_backup env mv (calc_max_backup_count n1.config.backup_count env.mem_count)) 0
      n1.config.partition_count n1

-- The state of the `Range` of `mergeDMaps`: the storage, and `merr`.
abbrev pub Merging : Type 0
Merging = Outcome Memory.Error Written

unfoldable pub after_put : Storage → Outcome Memory.Error Written → Merging × Bool
after_put s (ok (s', none)) = (ok (s', none), true)
after_put s (ok (s', some e)) = (ok (s', some e), false)
after_put s (fails e) = (ok (s, some e), false)
after_put s panics = (panics, false)
after_put s stuck = (stuck, false)

unfoldable pub after_check : Env → ℕ → VData → Written → Outcome Memory.Error Bool → Merging × Bool
unfolding after_put
after_check env hkey v w (ok true) = (ok w, true)
after_check env hkey v w (ok false) = after_put w.0 (Store.put env.mmap env.fuel w.0 hkey v)
after_check env hkey v w (fails e) = (fails e, false)
after_check env hkey v w panics = (panics, false)
after_check env hkey v w stuck = (stuck, false)

-- A key that the receiver has already keeps its value.
unfoldable pub merge_entry : Env → ℕ → VData → Merging → Merging × Bool
unfolding after_check
merge_entry env hkey v (ok w) = after_check env hkey v w (Store.check w.0 hkey)
merge_entry env hkey v m = (m, false)

unfoldable pub save_merged :
    Kind → ℕ → Shard → Text → DMap → Node → Outcome Memory.Error Merging → Result Unit
unfolding set_shard
save_merged kind id s name dm n (ok (ok (str, merr))) = (
  set_shard kind id (record s { dmaps = insert name (record dm { str = str }) s.dmaps }) n,
  elim merr [ none ↦ ok tt | some e ↦ fails (storage e) ],
)
save_merged kind id s name dm n (ok (fails e)) = (n, fails (storage e))
save_merged kind id s name dm n (fails e) = (n, fails (storage e))
save_merged kind id s name dm n stuck = (n, stuck)
save_merged kind id s name dm n (ok stuck) = (n, stuck)
save_merged kind id s name dm n _ = (n, panics)

-- A DMap that is new to the partition is stored as it came; the count stays.
unfoldable pub merge_into : Env → Kind → ℕ → Shard → Text → Storage → Node → Result Unit
unfolding set_shard save_merged merge_entry range
merge_into env kind id s name str n = elim (lookup name s.dmaps) [
  | none ↦ (
    set_shard kind id (record s { dmaps = insert name (record { str = str; oplog = [] }) s.dmaps })
        n,
    ok tt,
  )
  | some dm ↦ save_merged kind id s name dm n (range (merge_entry env) str (ok (dm.str, none)))
]

unfoldable pub merge_dmaps :
    Env → Kind → ℕ → Shard → Text → Outcome Memory.Error Storage → Node → Result Unit
unfolding merge_into
merge_dmaps env kind id s name (ok str) n = merge_into env kind id s name str n
merge_dmaps env kind id s name (fails e) n = (n, fails (storage e))
merge_dmaps env kind id s name panics n = (n, panics)
merge_dmaps env kind id s name stuck n = (n, stuck)

-- "partition owners list cannot be empty"
unfoldable pub merge_owned : Env → Mover → Kind → DmapBox → Node → Option Shard → Result Unit
unfolding merge_dmaps import
merge_owned env mv kind box n none = (n, panics)
merge_owned env mv kind box n (some s) = elim s.part.owners [
  | [] ↦ (n, panics)
  | _ ∷ _ ↦ merge_dmaps env kind box.part_id s box.name (import mv.transport env.mmap box.payload) n
]

-- `moveDMapOperation` and `moveBackupDMapOperation`, which differ in the partition only.
unfoldable pub move_dmap_operation :
    Env → Mover → (Error → List ℕ) → Kind → Node → Message → Result Message
unfolding merge_owned write_response shards
move_dmap_operation env mv text kind n req = elim (mv.box.unmarshal req.value) [
  | none ↦ (n, ok (error req status_internal_server_error (Code.text mv.bad_box)))
  | some box ↦
      write_response text req (merge_owned env mv kind box n (lookup box.part_id (shards kind n)))
]
