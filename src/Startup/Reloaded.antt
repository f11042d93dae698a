-- ===== src/Startup/Reloaded.antt =====
-- The DMaps of a snapshot after the loop that restores them.
use native.Mathlib.Omega.{arith}
use olricdb.Prelude.{
  ℕ, zero, suc, ◌<◌, ◌^◌, ◌≡◌, refl, sym, ap, ◌∙◌, subst, Bool, true, none, some, [], ◌∷◌, ok, inl,
  inr, nat_eq, Text, text_eq, text_beq, text_beq_iff, ◌==◌, ==_iff, if◌then◌else◌, Bool-cases,
}
use olricdb.Prelude.Dict.{Dict, lookup, lookup-insert}
use olricdb.Prelude.Codec.{Codec}
use olricdb.Storage.Store.{Storage, get}
use olricdb.Storage.Store.Retry.{Granted}
use olricdb.Snapshot.{KeySet, OnDiskDMaps, Snapshot, decoded, or_empty}
use olricdb.Snapshot.Record.{names_of, register_dmap}
use olricdb.Snapshot.Database.{Badger, IsBadger}
use olricdb.Snapshot.Batches.{text_beq_refl}
use olricdb.Snapshot.Registry.{some_inj}
use olricdb.Snapshot.Restore.{load-IsMirror}
use olricdb.Snapshot.Loader.{
  Restored, new_loader, with_first_run, processed, restore, next, next_from,
}
use olricdb.DMap.{DMap, Shard, Node, Kind, primary_copy, backup_copy, shards, set_shard}
use olricdb.Startup.{
  dkey_of, with_restored, after_register, then_next, restore_dmap, after_next, restore_all,
  after_loader, restore_from_snapshot,
}
use olricdb.Startup.Registered.{IsRestorable, IsTaking, IsKnown, kept-IsRestorable, registered_lem}
use olricdb.Startup.Turn.{
  count, IsNamed, Named, count-processed, processed-Named, first-IsNamed, processed-IsNamed,
  IsNamed-cases,
}

module _ {D : Type 0} (b : Badger D) (keys : Codec KeySet) where
  -- Every DMap of the registry is on the disk, and its partition on the node.
  abbrev pub AllRestorable : Kind → (ℕ → Text → Storage) → OnDiskDMaps → Node → D → Type 0
  AllRestorable kind orig m n d =
      (p : ℕ) (name : Text)
      → IsNamed p name m
      → IsRestorable b keys d p name (orig p name)
        × ((sh : Shard) × (lookup p (shards kind n) ≡ some sh))

-- The node has the DMap, with the contents of its storage.
abbrev pub Has : Kind → (ℕ → Text → Storage) → Node → ℕ → Text → Type 0
Has kind orig n p name =
    (sh : Shard) × (dm : DMap) × (lookup p (shards kind n) ≡ some sh)
    × (lookup name sh.dmaps ≡ some dm)
    × ((h : ℕ) → h < 2 ^ 64 → get dm.str h ≡ get (orig p name) h)

module _ {D : Type 0} (b : Badger D) (keys : Codec KeySet) (dmaps : Codec OnDiskDMaps) where
  module _ (law : IsBadger b) (taking : IsTaking b keys dmaps) where
    module _ (mmap : ℕ → Bool) (grant : Granted mmap) (fuel : ℕ) (kind : Kind)
        (orig : ℕ → Text → Storage) where
      next_lem :
          (p : ℕ) (name : Text) (u : Unit {0}) (names : Dict Text Unit) (m : OnDiskDMaps) (d : D)
          → IsRestorable b keys d p name (orig p name)
          → (str : Storage) × (next b mmap (suc (suc fuel)) keys d ((p, (name, u) ∷ names) ∷ m)
              ≡ ok (
                record { part_id = p; name = name; str = str },
                processed p name ((name, u) ∷ names) ((p, (name, u) ∷ names) ∷ m),
              ))
            × ((h : ℕ) → h < 2 ^ 64 → get str h ≡ get (orig p name) h)
      unfolding next next_from restore
      next_lem p name u names m d r =
          let (str, q, _, same) =
            load-IsMirror b d (orig p name) mmap grant fuel keys p name r.content r.stores r.small
              r.mirror in
          (str, rw (r.listed, q) refl, same)

      restore_dmap_lem :
          (r : Restored) (sh : Shard) (n : Node) (s s' : Snapshot D)
          → lookup r.part_id (shards kind n) ≡ some sh
          → register_dmap b dmaps (dkey_of kind) r.part_id r.name r.str s ≡ (s', none)
          → restore_dmap b mmap (suc (suc fuel)) dmaps keys kind r n s
            ≡ ((set_shard kind r.part_id (with_restored r sh) n, s'), ok tt)
      unfolding restore_dmap after_register
      restore_dmap_lem r sh n s s' here q =
          rw (restore_dmap, here) (ap (after_register kind r sh n) q)

      shards-set_shard_all :
          (k : Kind) (p p' : ℕ) (sh : Shard) (n : Node)
          → lookup p' (shards k (set_shard k p sh n))
            ≡ (if p == p' then some sh else lookup p' (shards k n))
      unfolding shards set_shard
      shards-set_shard_all primary_copy p p' sh n = lookup-insert p p' sh n.primary
      shards-set_shard_all backup_copy p p' sh n = lookup-insert p p' sh n.backup

      Has-restored :
          (r : Restored) (sh : Shard) (n : Node)
          → ((h : ℕ) → h < 2 ^ 64 → get r.str h ≡ get (orig r.part_id r.name) h)
          → Has kind orig (set_shard kind r.part_id (with_restored r sh) n) r.part_id r.name
      Has-restored r sh n same = (
        with_restored r sh,
        record { str = r.str; oplog = [] },
        shards-set_shard_all kind r.part_id r.part_id (with_restored r sh) n
            ∙ rw ((==_iff r.part_id r.part_id).1 refl) refl,
        lookup-insert r.name r.name (record { str = r.str; oplog = [] }) sh.dmaps
            ∙ rw (text_beq_refl r.name) refl,
        same,
      )

      shard_kept :
          (r : Restored) (sh : Shard) (n : Node) (p : ℕ)
          → (sh' : Shard) × (lookup p (shards kind n) ≡ some sh')
          → (sh' : Shard) × (lookup p
                (shards kind (set_shard kind r.part_id (with_restored r sh) n))
              ≡ some sh')
      shard_kept r sh n p (sh', here) = elim (Bool-cases (r.part_id == p)) [
        | inl q ↦ (
          with_restored r sh,
          shards-set_shard_all kind r.part_id p (with_restored r sh) n ∙ rw q refl,
        )
        | inr q ↦ (sh', shards-set_shard_all kind r.part_id p (with_restored r sh) n ∙ rw q here)
      ]

      -- The DMaps that were there are there, or the restored one stands in their place.
      Has-kept :
          (r : Restored) (sh : Shard) (n : Node)
          → lookup r.part_id (shards kind n) ≡ some sh
          → ((h : ℕ) → h < 2 ^ 64 → get r.str h ≡ get (orig r.part_id r.name) h)
          → (p : ℕ) (name : Text) → Has kind orig n p name
          → Has kind orig (set_shard kind r.part_id (with_restored r sh) n) p name
      Has-kept r sh n here same p name (sh', dm, q, d, g) = elim (Bool-cases (r.part_id == p)) [
        | inr ne ↦
            (sh', dm, shards-set_shard_all kind r.part_id p (with_restored r sh) n ∙ rw ne q, d, g)
        | inl e ↦ elim (Bool-cases (text_beq r.name name)) [
          | inl e' ↦
              subst (λ i. Has kind orig (set_shard kind r.part_id (with_restored r sh) n) i name)
                ((==_iff r.part_id p).0 e)
                (subst
                  (λ i. Has kind orig (set_shard kind r.part_id (with_restored r sh) n) r.part_id i)
                  ((text_beq_iff r.name name).0 e') (Has-restored r sh n same))
          | inr ne ↦ (
            with_restored r sh,
            dm,
            shards-set_shard_all kind r.part_id p (with_restored r sh) n ∙ rw e refl,
            lookup-insert r.name name (record { str = r.str; oplog = [] }) sh.dmaps
                ∙ rw ne (ap (λ (i : Shard). lookup name i.dmaps) (one_shard e) ∙ d),
            g,
          )
        ]
      ]
        where
          one_shard : (r.part_id == p) ≡ true → sh ≡ sh'
          one_shard e =
              some_inj
                (sym here ∙ ap (λ i. lookup i (shards kind n)) ((==_iff r.part_id p).0 e) ∙ q)

      -- A turn restores the next DMap, and the loop goes on with the others.
      turn_lem :
          (turns p : ℕ) (name : Text) (u : Unit {0}) (names : Dict Text Unit) (m : OnDiskDMaps)
          (n : Node) (s : Snapshot D)
          → IsKnown b keys dmaps kind s.db
          → AllRestorable b keys kind orig ((p, (name, u) ∷ names) ∷ m) n s.db
          → (n' : Node) × (s' : Snapshot D) × (restore_all b mmap
                (suc (suc fuel))
                dmaps
                keys
                (suc turns)
                kind
                ((p, (name, u) ∷ names) ∷ m)
                n
                s
              ≡ restore_all b mmap
                  (suc (suc fuel))
                  dmaps
                  keys
                  turns
                  kind
                  (processed p name ((name, u) ∷ names) ((p, (name, u) ∷ names) ∷ m))
                  n'
                  s')
            × IsKnown b keys dmaps kind s'.db
            × AllRestorable b keys kind orig
                (processed p name ((name, u) ∷ names) ((p, (name, u) ∷ names) ∷ m))
                n'
                s'.db
            × Has kind orig n' p name
            × ((p' : ℕ) (name' : Text) → Has kind orig n p' name' → Has kind orig n' p' name')
      unfolding restore_all after_next then_next
      turn_lem turns p name u names m n s known all =
          let (r0, (sh, here)) = all p name (first-IsNamed p name u names m) in
          let (str, q, same) = next_lem p name u names m s.db r0 in
          let r : Restored = record { part_id = p; name = name; str = str } in
          let (s', reg, known', others) =
            registered_lem b keys dmaps law taking kind p name str s known in
          let left = processed p name ((name, u) ∷ names) ((p, (name, u) ∷ names) ∷ m) in
          (
            set_shard kind p (with_restored r sh) n,
            s',
            rw q (
                ap (then_next (restore_all b mmap (suc (suc fuel)) dmaps keys turns kind left))
                  (restore_dmap_lem r sh n s s' here reg)),
            known',
            λ p' name' i.
                let (r1, here1) = all p' name' (processed-IsNamed p name u names m p' name' i) in
                (
                  kept-IsRestorable b keys dmaps kind s.db s'.db p' name' (orig p' name') others r1,
                  shard_kept r sh n p' here1,
                ),
            Has-restored r sh n same,
            Has-kept r sh n here same,
          )

      restore_all_lem :
          (turns : ℕ) (m : OnDiskDMaps) (n : Node) (s : Snapshot D)
          → count m < turns
          → Named m
          → IsKnown b keys dmaps kind s.db
          → AllRestorable b keys kind orig m n s.db
          → (n' : Node) × (s' : Snapshot D) × (restore_all b mmap
                (suc (suc fuel))
                dmaps
                keys
                turns
                kind
                m
                n
                s
              ≡ ((n', s'), ok tt))
            × ((p : ℕ) (name : Text) → IsNamed p name m → Has kind orig n' p name)
            × ((p : ℕ) (name : Text) → Has kind orig n p name → Has kind orig n' p name)
      unfolding restore_all after_next next next_from names_of
      restore_all_lem zero m n s enough filled known all = absurd (omega (arith, enough))
      restore_all_lem (suc turns) [] n s enough filled known all =
          (n, s, refl, λ p name i. absurd (i refl), λ p name h. h)
      restore_all_lem (suc turns) ((p, []) ∷ m) n s enough filled known all = absurd (filled.0 refl)
      restore_all_lem (suc turns) ((p, (name, u) ∷ names) ∷ m) n s enough filled known all =
          let (n1, s1, q, known1, all1, this_one, others) =
            turn_lem turns p name u names m n s known all in
          let (n2, s2, q2, every, kept) =
            restore_all_lem turns _ n1 s1 (omega (arith, enough, count-processed p name u names m))
              (processed-Named p name u names m filled.1) known1 all1 in
          (
            n2,
            s2,
            q ∙ q2,
            λ p' name' i. elim (IsNamed-cases p name u names m p' name' i) [
              | inl (e, e') ↦ kept p' name' (
                  subst (λ j. Has kind orig n1 j name') e
                    (subst (λ j. Has kind orig n1 p j) e' this_one))
              | inr i' ↦ every p' name' i'
            ],
            λ p' name' h. kept p' name' (others p' name' h),
          )

      -- On a database that takes every commit, with a lossless serializer that takes every
      -- registry, a system that grants every mapping, two turns or more for a storage's loop and
      -- more turns than the registry has names, where no partition stands in the registry without a
      -- name: if the disk agrees, for every DMap that the registry names, with a storage whose raw
      -- entries are smaller than a new table, and the node has that DMap's partition, then
      -- `restoreFromSnapshot` ends without an error, every DMap that the registry names is in its
      -- partition of that kind, with a storage that gives under every 64-bit key what the one from
      -- before gave, and what was there before with the contents of such a storage is there still.
      pub restore_from_snapshot_lem :
          (turns : ℕ) (m : OnDiskDMaps) (n : Node) (s : Snapshot D)
          → decoded dmaps (b.read s.db (dkey_of kind)) ≡ inr m
          → count m < turns
          → Named m
          → AllRestorable b keys kind orig m n s.db
          → (n' : Node) × (s' : Snapshot D) × (restore_from_snapshot b mmap
                (suc (suc fuel))
                dmaps
                keys
                turns
                kind
                n
                s
              ≡ ((n', s'), ok tt))
            × ((p : ℕ) (name : Text) → IsNamed p name m → Has kind orig n' p name)
            × ((p : ℕ) (name : Text) → Has kind orig n p name → Has kind orig n' p name)
      unfolding restore_from_snapshot after_loader new_loader with_first_run or_empty
      restore_from_snapshot_lem turns m n s listed enough filled all =
          let (n', s', q, every, kept) =
            restore_all_lem turns m n s enough filled (m, ap or_empty listed) all in
          (
            n',
            s',
            ap
                  (λ r.
                    after_loader b mmap (suc (suc fuel)) dmaps keys turns kind n s
                      (with_first_run r))
                  listed
                ∙ q,
            every,
            kept,
          )
