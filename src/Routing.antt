-- ===== src/Routing.antt =====
-- routing.go and the ownership part of olric.go: who owns the primary copies and the backups of a
-- partition, as the coordinator computes it and as the members take it over.
pub mod Owners
pub mod Backups
pub mod Update
pub mod Events
mod Tests
use olricdb.Prelude.{
  ℕ, zero, suc, ◌+◌, ◌-◌, ◌*◌, ◌%◌, Bool, true, false, not, ◌&&◌, Option, none, some, List, [], ◌∷◌,
  ◌++◌, length, take, drop, ltb, ◌==◌, if◌then◌else◌, nat_eq, Text, Outcome, ok, fails, panics,
  ◌>>=◌,
}
use olricdb.Prelude.Codec.{Codec}
use olricdb.Prelude.Dict.{Dict, lookup, insert}
use olricdb.Discovery.{
  Host, NodeEvent, node_join, node_leave, node_update, host_cmp, find_named, to_host,
}

pub data Error : Type 0 where
  decode_failed operation_timeout no_owner : Error

-- What `partition` keeps for the routing: the owners, and how many DMaps are there.
pub record Partition : Type 0 where
  pub owners : List Host
  pub count : ℕ

-- `partitions` and `backups` by partition id.
pub record Member : Type 0 where
  pub this : Host
  pub partition_count : ℕ
  pub partitions : Dict ℕ Partition
  pub backups : Dict ℕ Partition

pub record Route : Type 0 where
  pub owners : List Host
  pub backups : List Host

abbrev pub max_backup_count : ℕ
max_backup_count = 3

-- The ring always has this node, so that `mem_count - 1` does not go below 0.
unfoldable pub calc_max_backup_count : ℕ → ℕ → ℕ
calc_max_backup_count backup_count mem_count =
    let wanted = if ltb max_backup_count backup_count then max_backup_count else backup_count in
    if ltb (mem_count - 1) wanted then mem_count - 1 else wanted

-- `append(owners[:i], owners[i+1:]...)` at the first owner that is the host.
unfoldable pub remove_host : Host → List Host → List Host
remove_host h [] = []
remove_host h (o ∷ os) = if host_cmp o h then os else o ∷ remove_host h os

unfoldable pub has_host : Host → List Host → Bool
has_host h [] = false
has_host h (o ∷ os) = if host_cmp o h then true else has_host h os

-- "Here add the new partition owner."
unfoldable pub add_owner : List Host → Host → List Host
unfolding remove_host has_host
add_owner os h = if has_host h os then remove_host h os ++ (h ∷ []) else os ++ (h ∷ [])

unfoldable pub add_owners : List Host → List Host → List Host
unfolding add_owner
add_owners os [] = os
add_owners os (b ∷ bs) = add_owners (add_owner os b) bs

-- "Prune dead nodes": `members` is what `findMember` searches.
unfoldable pub prune_dead : List Host → List Host → List Host
prune_dead members [] = []
prune_dead members (o ∷ os) = elim (find_named o.name members) [
  | none ↦ prune_dead members os
  | some cur ↦ if host_cmp o cur then cur ∷ prune_dead members os else prune_dead members os
]

-- What a node asks when it prunes: its own count, and the members' answers. `is_empty h` says that
-- the request to `h` came back without an error.
pub record View : Type 0 where
  pub this : Host
  pub members : List Host
  pub is_empty : Host → Bool

-- Whether the owner still has DMaps of the partition, as far as the node knows.
unfoldable pub has_data : View → ℕ → Host → Bool
has_data v count h = if host_cmp v.this h then not (count == 0) else not (v.is_empty h)

-- "Prune empty nodes"
unfoldable pub prune_empty : View → ℕ → List Host → List Host
unfolding has_data
prune_empty v count [] = []
prune_empty v count (o ∷ os) =
    if has_data v count o then o ∷ prune_empty v count os else prune_empty v count os

-- The last `n` owners stay: `tmp[:len(tmp)-n]` panics on a negative bound.
unfoldable pub keep_last : View → ℕ → ℕ → List Host → Outcome Error (List Host)
unfolding prune_empty
keep_last v count n tmp =
    if ltb (length tmp) n
    then panics
    else ok (prune_empty v count (take (length tmp - n) tmp) ++ drop (length tmp - n) tmp)

-- `owner` is the ring's `GetPartitionOwner`.
unfoldable pub distribute_primary_copies : View → Host → Partition → Outcome Error (List Host)
unfolding keep_last add_owner prune_dead
distribute_primary_copies v owner part = elim part.owners [
  | [] ↦ ok (owner ∷ [])
  | o ∷ os ↦ keep_last v part.count 1 (prune_dead v.members (add_owner (o ∷ os) owner))
]

-- `closest` is the ring's `GetClosestNForPartition`, none on an error.
unfoldable pub distribute_backups :
    View → ℕ → Option (List Host) → Partition → Outcome Error (Partition × List Host)
unfolding keep_last add_owners prune_dead
distribute_backups v backup_count none part = ok (part, [])
distribute_backups v backup_count (some closest) part = elim part.owners [
  | [] ↦ ok (record part { owners = closest }, closest)
  | o ∷ os ↦ do
    owners ←
        keep_last v part.count backup_count (prune_dead v.members (add_owners (o ∷ os) closest))
    ok (record part { owners = owners }, owners)
]

-- What the coordinator finds outside its own state: the answers that it gets for a partition and for
-- its backups, and what the ring says.
pub record Cluster : Type 0 where
  pub primary : ℕ → View
  pub backup : ℕ → View
  pub owner : ℕ → Host
  pub closest : ℕ → ℕ → Option (List Host)
  pub mem_count : ℕ

-- A nil partition panics.
unfoldable pub partition_at : ℕ → Dict ℕ Partition → Outcome Error Partition
partition_at part_id parts = elim (lookup part_id parts) [ none ↦ panics | some part ↦ ok part ]

-- One turn of the loop of `distributePartitions`: with `backup_count` 0 the backups stay.
unfoldable pub distribute_partition : Cluster → ℕ → ℕ → Member → Outcome Error (Member × Route)
unfolding partition_at distribute_primary_copies distribute_backups
distribute_partition c backup_count part_id db = do
  part ← partition_at part_id db.partitions
  owners ← distribute_primary_copies (c.primary part_id) (c.owner part_id) part
  let db1 = record db {
    partitions = insert part_id (record part { owners = owners }) db.partitions;
  }
  if backup_count == 0 then ok (db1, record { owners = owners; backups = [] }) else do
    bpart ← partition_at part_id db.backups
    (bpart', backups) ←
        distribute_backups (c.backup part_id) backup_count (c.closest part_id backup_count) bpart
    ok (
      record db1 { backups = insert part_id bpart' db.backups },
      record { owners = owners; backups = backups },
    )

unfoldable pub distribute_ids :
    Cluster → ℕ → List ℕ → Member → Outcome Error (Member × Dict ℕ Route)
unfolding distribute_partition
distribute_ids c backup_count [] db = ok (db, [])
distribute_ids c backup_count (part_id ∷ ids) db = do
  (db1, r) ← distribute_partition c backup_count part_id db
  (db2, rt) ← distribute_ids c backup_count ids db1
  ok (db2, (part_id, r) ∷ rt)

unfoldable pub ids_from : ℕ → ℕ → List ℕ
ids_from i zero = []
ids_from i (suc n) = i ∷ ids_from (i + 1) n

-- `distributePartitions` with the configured number of backups.
unfoldable pub distribute_partitions : Cluster → ℕ → Member → Outcome Error (Member × Dict ℕ Route)
unfolding distribute_ids ids_from calc_max_backup_count
distribute_partitions c configured db =
    distribute_ids c (calc_max_backup_count configured c.mem_count) (ids_from 0 db.partition_count)
      db

-- `OpIsPartEmpty` and `OpIsBackupEmpty` on the member: `true` is a success.
unfoldable pub is_part_empty : Dict ℕ Partition → ℕ → Outcome Error Bool
unfolding partition_at
is_part_empty parts part_id = do part ← partition_at part_id parts; ok (part.count == 0)

unfoldable pub set_owners : ℕ → List Host → Dict ℕ Partition → Outcome Error (Dict ℕ Partition)
unfolding partition_at
set_owners part_id owners parts = do
  part ← partition_at part_id parts
  ok (insert part_id (record part { owners = owners }) parts)

unfoldable pub apply_routing : Dict ℕ Route → Member → Outcome Error Member
unfolding set_owners
apply_routing [] db = ok db
apply_routing ((part_id, data') ∷ rt) db = do
  parts ← set_owners part_id data'.owners db.partitions
  bparts ← set_owners part_id data'.backups db.backups
  apply_routing rt (record db { partitions = parts; backups = bparts })

unfoldable pub or_decode_failed : Option (Dict ℕ Route) → Outcome Error (Dict ℕ Route)
or_decode_failed none = fails decode_failed
or_decode_failed (some rt) = ok rt

-- `updateRoutingOperation`, before the fsck that it starts.
unfoldable pub update_routing_operation :
    Codec (Dict ℕ Route) → List ℕ → Member → Outcome Error Member
unfolding apply_routing or_decode_failed
update_routing_operation msgpack value db = do
  rt ← or_decode_failed (msgpack.unmarshal value)
  apply_routing rt db

-- `getPartitionID`: a partition count of 0 panics.
unfoldable pub get_partition_id : Member → ℕ → Outcome Error ℕ
get_partition_id db hkey =
    if db.partition_count == 0 then panics else ok (hkey % db.partition_count)

unfoldable pub get_partition : Member → ℕ → Outcome Error Partition
unfolding get_partition_id partition_at
get_partition db hkey = do part_id ← get_partition_id db hkey; partition_at part_id db.partitions

unfoldable pub last_owner : List Host → Outcome Error Host
last_owner [] = fails no_owner
last_owner (o ∷ []) = ok o
last_owner (o ∷ p ∷ os) = last_owner (p ∷ os)

-- `locateHKey`, after the wait for the bootstrap, which may have run into its deadline.
unfoldable pub locate_hkey : Member → Bool → ℕ → Outcome Error Host
unfolding get_partition last_owner
locate_hkey db timed_out hkey =
    if timed_out
    then fails operation_timeout
    else do part ← get_partition db hkey; last_owner part.owners

-- The consistent hash ring of `db.consistent`.
pub record Ring (R : Type 0) : Type 0 where
  pub add : R → Host → R
  pub remove : R → Text → R

unfoldable pub process_node_event : {R : Type 0} → Ring R → (List ℕ → ℕ) → R → NodeEvent → R
process_node_event ring decode_meta r e = elim e.event [
  | node_join ↦ ring.add r (to_host decode_meta e.node)
  | node_leave ↦ ring.remove r e.node.name
  | node_update ↦ r
]
