-- ===== src/Snapshot/Record.antt =====
-- internal/snapshot/snapshot.go: the record of the DMaps on the disk, which a registration, its end and the
-- destruction of a DMap change.
use olricdb.Prelude.{
  ℕ, Bool, true, false, Option, none, some, List, [], ◌∷◌, if◌then◌else◌, Outcome, ok, panics, inl,
  inr, nat_eq, Text, text_eq,
}
use olricdb.Prelude.Dict.{Dict, lookup, insert, erase}
use olricdb.Prelude.Codec.{Codec}
use olricdb.Storage.Store.{Storage}
use olricdb.Snapshot.Database.{Write, remove, Badger}
use olricdb.Snapshot.{
  OpLog, KeySet, OnDiskDMaps, Error, dmap_key, bkey, decoded, or_empty, Snapshot, database,
  marshal_failed,
}

unfoldable pub names_of : ℕ → OnDiskDMaps → Dict Text Unit
names_of part_id on_disk = elim (lookup part_id on_disk) [ some ns ↦ ns | none ↦ [] ]

-- The worker of a partition is started once: its entry in `workers` says that there is one.
unfoldable pub start_worker : ℕ → Dict ℕ Bool → Dict ℕ Bool
start_worker part_id workers = elim (lookup part_id workers) [
  | some _ ↦ workers
  | none ↦ insert part_id true workers
]

unfoldable pub logs_of : ℕ → Dict ℕ (Dict Text OpLog) → Dict Text OpLog
logs_of part_id oplogs = elim (lookup part_id oplogs) [ some ls ↦ ls | none ↦ [] ]

unfoldable pub without_name : ℕ → Text → OnDiskDMaps → OnDiskDMaps
unfolding names_of
without_name part_id name on_disk = elim (erase name (names_of part_id on_disk)) [
  | [] ↦ erase part_id on_disk
  | n ∷ ns ↦ insert part_id (n ∷ ns) on_disk
]

-- `RegisterDMap` after Badger has the name. The log that it returns is the one under `name`.
unfoldable pub add_log :
    {D : Type 0} → ℕ → Text → Storage → Snapshot D → D × Option Error → Snapshot D × Option Error
unfolding start_worker logs_of
add_log part_id name str s (d, some e) = (record s { db = d }, some e)
add_log part_id name str s (d, none) =
    let o : OpLog = record { m = []; str = str } in
    (
      record {
        db = d;
        workers = start_worker part_id s.workers;
        oplogs = insert part_id (insert name o (logs_of part_id s.oplogs)) s.oplogs;
      },
      none,
    )

-- Calling the cancel function again does nothing, and an entry that is missing is a nil function.
unfoldable pub drop_log :
    {D : Type 0}
    → ℕ
    → Text
    → Dict Text OpLog
    → Snapshot D
    → Outcome Error (Snapshot D × Option Error)
drop_log part_id name logs s = elim (erase name logs) [
  | l ∷ rest ↦ ok (record s { oplogs = insert part_id (l ∷ rest) s.oplogs }, none)
  | [] ↦ elim (lookup part_id s.workers) [
    | none ↦ panics
    | some _ ↦ ok (
      record s { workers = insert part_id false s.workers; oplogs = erase part_id s.oplogs },
      none,
    )
  ]
]

unfoldable pub after_unregister :
    {D : Type 0}
    → ℕ
    → Text
    → Dict Text OpLog
    → Snapshot D
    → D × Option Error
    → Outcome Error (Snapshot D × Option Error)
unfolding drop_log
after_unregister part_id name logs s (d, some e) = ok (record s { db = d }, some e)
after_unregister part_id name logs s (d, none) = drop_log part_id name logs (record s { db = d })

module _ {D : Type 0} (b : Badger D) where
  module _ (dmaps : Codec OnDiskDMaps) where
    -- `Marshal` and `txn.Set`, the end of an `Update`.
    unfoldable pub save_dmaps : D → List ℕ → OnDiskDMaps → D × Option Error
    save_dmaps d dkey on_disk = elim (dmaps.marshal on_disk) [
      | none ↦ (d, some marshal_failed)
      | some res ↦
          ((b.commit d dkey res).0, if (b.commit d dkey res).1 then none else some database)
    ]

    unfoldable pub register_on_badger : D → List ℕ → ℕ → Text → D × Option Error
    unfolding save_dmaps names_of or_empty decoded
    register_on_badger d dkey part_id name = elim (or_empty (decoded dmaps (b.read d dkey))) [
      | inr on_disk ↦
          save_dmaps d dkey (insert part_id (insert name tt (names_of part_id on_disk)) on_disk)
      | inl e ↦ (d, some e)
    ]

    unfoldable pub register_dmap :
        List ℕ → ℕ → Text → Storage → Snapshot D → Snapshot D × Option Error
    unfolding register_on_badger add_log
    register_dmap dkey part_id name str s =
        add_log part_id name str s (register_on_badger s.db dkey part_id name)

    unfoldable pub unregister_on_badger : D → List ℕ → ℕ → Text → D × Option Error
    unfolding save_dmaps without_name decoded
    unregister_on_badger d dkey part_id name = elim (decoded dmaps (b.read d dkey)) [
      | inr on_disk ↦ save_dmaps d dkey (without_name part_id name on_disk)
      | inl e ↦ (d, some e)
    ]

    unfoldable pub unregister_dmap :
        List ℕ → ℕ → Text → Snapshot D → Outcome Error (Snapshot D × Option Error)
    unfolding unregister_on_badger after_unregister
    unregister_dmap dkey part_id name s = elim (lookup part_id s.oplogs) [
      | none ↦ ok (s, none)
      | some logs ↦
          after_unregister part_id name logs s (unregister_on_badger s.db dkey part_id name)
    ]

  -- The batch of `DestroyDMap`; none where Badger refuses a deletion.
  unfoldable pub delete_all : D → List Write → KeySet → Option (List Write)
  unfolding bkey
  delete_all d ws [] = some ws
  delete_all d ws ((hkey, _) ∷ hkeys) =
      let w = remove (bkey hkey) in
      let rest = delete_all d (w ∷ ws) hkeys in if b.accepts d ws w then rest else none

  module _ (keys : Codec KeySet) (dmaps : Codec OnDiskDMaps) where
    unfoldable pub after_flush :
        List ℕ → ℕ → Text → Snapshot D → D × Bool → Outcome Error (Snapshot D × Option Error)
    unfolding unregister_dmap
    after_flush dkey part_id name s (d, true) =
        unregister_dmap dmaps dkey part_id name (record s { db = d })
    after_flush dkey part_id name s (d, false) = ok (record s { db = d }, some database)

    unfoldable pub destroy_keys :
        List ℕ → ℕ → Text → Snapshot D → KeySet → Outcome Error (Snapshot D × Option Error)
    unfolding delete_all after_flush
    destroy_keys dkey part_id name s hkeys = elim (delete_all s.db [] hkeys) [
      | none ↦ ok (s, some database)
      | some ws ↦ after_flush dkey part_id name s (b.flush s.db ws)
    ]

    unfoldable pub destroy_dmap :
        List ℕ → ℕ → Text → Snapshot D → Outcome Error (Snapshot D × Option Error)
    unfolding destroy_keys decoded dmap_key
    destroy_dmap dkey part_id name s = elim (decoded keys (b.read s.db (dmap_key part_id name))) [
      | inl e ↦ ok (s, some e)
      | inr hkeys ↦ destroy_keys dkey part_id name s hkeys
    ]
