-- ===== src/Startup.antt =====
-- The start of a node in olric.go: the DMaps that it restores from its snapshot.
pub mod Turn
pub mod Registered
pub mod Reloaded
use olricdb.Prelude.{
  ℕ, zero, suc, Option, none, some, List, [], Outcome, ok, fails, panics, stuck, ◌⊎◌, inl, inr,
  nat_eq, text_eq, if◌then◌else◌, Bool,
}
use olricdb.Prelude.Dict.{lookup, insert}
use olricdb.Prelude.Codec.{Codec}
use olricdb.Snapshot.{
  Error, first_run, loader_done, KeySet, OnDiskDMaps, Snapshot, primary_dmap_key, backup_dmap_key,
}
use olricdb.Snapshot.Record.{register_dmap}
use olricdb.Snapshot.Database.{Badger}
use olricdb.Snapshot.Loader.{Restored, new_loader, next}
use olricdb.DMap.{DMap, Shard, Node, Kind, primary_copy, backup_copy, shards, set_shard, count_up}

-- The node with its snapshot, and what the call returns.
abbrev pub Started : Type 0 → Type 0
Started D = (Node × Snapshot D) × Outcome Error Unit

abbrev pub dkey_of : Kind → List ℕ
dkey_of primary_copy = primary_dmap_key
dkey_of backup_copy = backup_dmap_key

abbrev pub with_restored : Restored → Shard → Shard
with_restored r sh =
    let dm : DMap = record { str = r.str; oplog = [] } in
    record {
      part = record (sh.part) { count = count_up sh.part.count };
      dmaps = insert r.name dm sh.dmaps;
    }

-- `restoreDMap` after `RegisterDMap`.
unfoldable pub after_register :
    {D : Type 0} → Kind → Restored → Shard → Node → Snapshot D × Option Error → Started D
after_register kind r sh n (s, none) = ((set_shard kind r.part_id (with_restored r sh) n, s), ok tt)
after_register kind r sh n (s, some e) = ((n, s), fails e)

-- What the loop does with the next DMap.
unfoldable pub then_next : {D : Type 0} → (Node → Snapshot D → Started D) → Started D → Started D
then_next again ((n, s), ok _) = again n s
then_next again (st, fails e) = (st, fails e)
then_next again (st, panics) = (st, panics)
then_next again (st, stuck) = (st, stuck)

module _ {D : Type 0} (b : Badger D) (mmap : ℕ → Bool) (fuel : ℕ) (dmaps : Codec OnDiskDMaps)
    (keys : Codec KeySet) where
  -- A partition that the node does not have is a nil pointer.
  unfoldable pub restore_dmap : Kind → Restored → Node → Snapshot D → Started D
  unfolding after_register
  restore_dmap kind r n s = elim (lookup r.part_id (shards kind n)) [
    | none ↦ ((n, s), panics)
    | some sh ↦
        after_register kind r sh n (register_dmap b dmaps (dkey_of kind) r.part_id r.name r.str s)
  ]

  unfoldable pub after_next :
      (OnDiskDMaps → Node → Snapshot D → Started D)
      → Kind
      → Node
      → Snapshot D
      → Outcome Error (Restored × OnDiskDMaps)
      → Started D
  unfolding then_next restore_dmap
  after_next again kind n s (ok (r, left)) = then_next (again left) (restore_dmap kind r n s)
  after_next again kind n s (fails loader_done) = ((n, s), ok tt)
  after_next again kind n s (fails e) = ((n, s), fails e)
  after_next again kind n s panics = ((n, s), panics)
  after_next again kind n s stuck = ((n, s), stuck)

  -- The loop of `restoreFromSnapshot`, with fuel for its turns.
  unfoldable pub restore_all : ℕ → Kind → OnDiskDMaps → Node → Snapshot D → Started D
  unfolding after_next
  restore_all zero kind on_disk n s = ((n, s), stuck)
  restore_all (suc turns) kind on_disk n s =
      after_next (restore_all turns kind) kind n s (next b mmap fuel keys s.db on_disk)

  unfoldable pub after_loader : ℕ → Kind → Node → Snapshot D → Error ⊎ OnDiskDMaps → Started D
  unfolding restore_all
  after_loader turns kind n s (inl first_run) = ((n, s), ok tt)
  after_loader turns kind n s (inl e) = ((n, s), fails e)
  after_loader turns kind n s (inr on_disk) = restore_all turns kind on_disk n s

  unfoldable pub restore_from_snapshot : ℕ → Kind → Node → Snapshot D → Started D
  unfolding after_loader
  restore_from_snapshot turns kind n s =
      after_loader turns kind n s (new_loader b mmap fuel dmaps s.db (dkey_of kind))

  -- What `Start` does before the node listens.
  unfoldable pub reload : ℕ → Node → Snapshot D → Started D
  unfolding restore_from_snapshot then_next
  reload turns n s =
      let primary = restore_from_snapshot turns primary_copy n s in
      if n.config.with_snapshot
      then then_next (restore_from_snapshot turns backup_copy) primary
      else ((n, s), ok tt)
