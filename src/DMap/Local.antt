-- ===== src/DMap/Local.antt =====
-- A write on the owner of a key, and the read after it.
use native.Mathlib.Omega.{arith}
use olricdb.Prelude.{
  ℕ, suc, ◌%◌, ◌≡◌, refl, ap, ◌∙◌, inl, inr, Bool, true, false, none, some, List, [], ◌∷◌, reverse,
  ◌==◌, ==_refl, nat_eq, Text, text_eq, text_beq_iff, ok, Bool-cases,
}
use olricdb.Prelude.Dict.{Dict, lookup, insert, lookup-insert}
use olricdb.Storage.Entry.{VData, IsEncodable}
use olricdb.Storage.Table.{Table}
use olricdb.Storage.Store.{Storage}
use olricdb.Storage.Store
use olricdb.Storage.Store.Invariant.{IsSound}
use olricdb.Storage.Store.Retry.{Granted}
use olricdb.Storage.Store.Put.{HasRoom, get-put_room}
use olricdb.Discovery.{Host, host_cmp}
use olricdb.Snapshot.{LogOp}
use olricdb.DMap.{
  DMap, Shard, Node, Env, and_then, and_then-ok, primary_copy, shards, set_shard, get_shard,
  put_dmap, get_or_create, get_dmap, save_dmap, request_to, is_key_expired,
}
use olricdb.DMap.Put.{
  previous_owners, purge, purge_old_versions, back_up, logged, ttl_of, write_dmap, put_key_val,
}
use olricdb.DMap.Get.{fresh_value, get_key_val}

-- The node has the DMap under the key's partition, and is one of the partition's owners.
pub record IsServed (n : Node) (hkey : ℕ) (name : Text) (s : Shard) (dm : DMap) : Type 0 where
  pub partitioned : (n.config.partition_count == 0) ≡ false
  pub here : lookup (hkey % n.config.partition_count) n.primary ≡ some s
  pub registered : lookup name s.dmaps ≡ some dm

pub get_shard_lem :
    (n : Node) (hkey : ℕ) (name : Text) (s : Shard) (dm : DMap)
    → IsServed n hkey name s dm
    → get_shard primary_copy n hkey ≡ (n, ok s)
unfolding get_shard shards
get_shard_lem n hkey name s dm w = rw (w.partitioned, w.here) refl

pub get_dmap_lem :
    (env : Env) (n : Node) (hkey : ℕ) (name : Text) (s : Shard) (dm : DMap)
    → IsServed n hkey name s dm
    → get_dmap env primary_copy n hkey name ≡ (n, ok dm)
unfolding get_dmap get_or_create
get_dmap_lem env n hkey name s dm w =
    rw (get_shard_lem n hkey name s dm w) (rw (w.registered, get_or_create) refl)

abbrev pub with_dmap : Node → ℕ → Shard → Text → DMap → Node
with_dmap n hkey s name dm = record n {
  primary =
      insert (hkey % n.config.partition_count) (record s { dmaps = insert name dm s.dmaps })
        n.primary;
}

pub with_dmap-IsServed :
    (n : Node) (hkey : ℕ) (name : Text) (s : Shard) (dm dm' : DMap)
    → IsServed n hkey name s dm
    → IsServed
        (with_dmap n hkey s name dm')
        hkey
        name
        (record s { dmaps = insert name dm' s.dmaps })
        dm'
with_dmap-IsServed n hkey name s dm dm' w = record {
  partitioned = w.partitioned;
  here =
      lookup-insert (hkey % n.config.partition_count) (hkey % n.config.partition_count)
        (record s { dmaps = insert name dm' s.dmaps }) n.primary
      ∙ rw (==_refl (hkey % n.config.partition_count)) refl;
  registered = lookup-insert name name dm' s.dmaps ∙ rw ((text_beq_iff name name).1 refl) refl;
}

pub save_dmap_lem :
    (n : Node) (hkey : ℕ) (name : Text) (s : Shard) (dm dm' : DMap)
    → IsServed n hkey name s dm
    → save_dmap primary_copy n hkey name dm' ≡ (with_dmap n hkey s name dm', ok tt)
unfolding save_dmap put_dmap set_shard
save_dmap_lem n hkey name s dm dm' w = rw (get_shard_lem n hkey name s dm w) refl

-- The removal of old versions sends requests, and changes nothing on the node.
purge-IsServed :
    (env : Env) (n : Node) (os : List Host) (name key : Text) (hkey : ℕ) (s : Shard) (dm : DMap)
    → IsServed n hkey name s dm
    → IsServed (purge env n os name key) hkey name s dm
unfolding purge request_to
purge-IsServed env n [] name key hkey s dm w = w
purge-IsServed env n (o ∷ os) name key hkey s dm w = elim (Bool-cases (host_cmp o n.this)) [
  | inl q ↦ rw q (purge-IsServed env n os name key hkey s dm w)
  | inr q ↦ rw q (
      purge-IsServed env _ os name key hkey s dm
        (record { partitioned = w.partitioned; here = w.here; registered = w.registered }))
]

-- What a read gives where the storage has the entry.
pub get_key_val_hit :
    (env : Env) (n : Node) (hkey : ℕ) (name key : Text) (s : Shard) (dm : DMap) (v : VData)
    → IsServed n hkey name s dm
    → Store.get dm.str hkey ≡ ok v
    → get_key_val env n hkey name key ≡ fresh_value env n v
unfolding get_key_val
get_key_val_hit env n hkey name key s dm v w q =
    rw (get_dmap_lem env n hkey name s dm w) (rw (q, and_then) refl)

write_dmap_lem :
    (env : Env) (n : Node) (hkey : ℕ) (name : Text) (s : Shard) (dm : DMap) (v : VData)
    (str : Storage)
    → IsServed n hkey name s dm
    → Store.put env.mmap env.fuel dm.str hkey v ≡ ok (str, none)
    → write_dmap env primary_copy n dm hkey name v ≡ (
      with_dmap n hkey s name (logged n.config.with_snapshot hkey (record dm { str = str })),
      ok tt,
    )
unfolding write_dmap
write_dmap_lem env n hkey name s dm v str w q =
    rw (q, write_dmap) (save_dmap_lem n hkey name s dm _ w)

-- The node after `putKeyVal` without backups.
put_key_val_lem :
    (env : Env) (n : Node) (hkey : ℕ) (name key : Text) (value : List ℕ) (timeout : ℕ) (s : Shard)
    (dm : DMap) (str : Storage) (os : List Host)
    → IsServed n hkey name s dm
    → (n.config.backup_count == 0) ≡ true
    → previous_owners s.part.owners ≡ some os
    → Store.put env.mmap env.fuel dm.str hkey
        (record { key = key; ttl = ttl_of env timeout; value = value })
      ≡ ok (str, none)
    → put_key_val env n hkey name key value timeout ≡ (
      purge env
          (with_dmap n hkey s name (logged n.config.with_snapshot hkey (record dm { str = str })))
          (reverse os)
          name
          key,
      ok tt,
    )
unfolding put_key_val back_up purge_old_versions
put_key_val_lem env n hkey name key value timeout s dm str os w alone previous q =
    and_then-ok _ (get_dmap env primary_copy n hkey name) n dm (get_dmap_lem env n hkey name s dm w)
    ∙ and_then-ok _ (back_up env n hkey name key value timeout) n tt (rw alone refl)
    ∙ and_then-ok _ (write_dmap env primary_copy n dm hkey name _) _ tt
        (write_dmap_lem env n hkey name s dm _ str w q)
    ∙ and_then-ok _ (get_shard primary_copy (with_dmap n hkey s name stored) hkey) _ _ (
        get_shard_lem (with_dmap n hkey s name stored) hkey name _ stored
          (with_dmap-IsServed n hkey name s dm stored w))
    ∙ rw previous refl
  where
    stored : DMap
    stored = logged n.config.with_snapshot hkey (record dm { str = str })

str-logged : (b : Bool) (hkey : ℕ) (dm : DMap) → (logged b hkey dm).str ≡ dm.str
str-logged true hkey dm = refl
str-logged false hkey dm = refl

-- On a node that has the DMap in the key's partition, where the partition has an owner and the node
-- is configured without backups, `putKeyVal` of an encodable entry for which the DMap's storage has
-- room, with a system that grants every mapping and two turns or more for the storage's loop,
-- succeeds, and a `getKeyVal` of the key on the node afterwards gives the value and changes
-- nothing, as long as the entry's TTL has not passed.
pub get_key_val-put_key_val :
    (env env' : Env) (n : Node) (hkey : ℕ) (name key : Text) (value : List ℕ) (timeout : ℕ)
    (s : Shard) (oplog : Dict ℕ LogOp) (t : Table) (older : List Table) (m : Bool) (os : List Host)
    (fuel : ℕ)
    → IsServed n hkey name s
        (record { str = record { tables = t ∷ older; merging = m }; oplog = oplog })
    → n.config.backup_count ≡ 0
    → previous_owners s.part.owners ≡ some os
    → env.fuel ≡ suc (suc fuel)
    → Granted env.mmap
    → IsSound (record { tables = t ∷ older; merging = m })
    → IsEncodable (record { key = key; ttl = ttl_of env timeout; value = value })
    → HasRoom t (record { key = key; ttl = ttl_of env timeout; value = value })
    → is_key_expired env' (ttl_of env timeout) ≡ false
    → (n' : Node) × (put_key_val env n hkey name key value timeout ≡ (n', ok tt))
      × (get_key_val env' n' hkey name key ≡ (n', ok value))
unfolding fresh_value
get_key_val-put_key_val env env' n hkey name key value timeout s oplog t older m os fuel w alone
      previous turns granted sound enc room fresh =
    let v : VData = record { key = key; ttl = ttl_of env timeout; value = value } in
    let dm : DMap = record { str = record { tables = t ∷ older; merging = m }; oplog = oplog } in
    let (str, q, u) = get-put_room env.mmap hkey v t older m fuel granted sound enc room in
    let stored = logged n.config.with_snapshot hkey (record dm { str = str }) in
    let put_eq : Store.put env.mmap env.fuel dm.str hkey v ≡ ok (str, none) =
      ap (λ f. Store.put env.mmap f dm.str hkey v) turns ∙ q in
    let n' = purge env (with_dmap n hkey s name stored) (reverse os) name key in
    let found : Store.get stored.str hkey ≡ ok v =
      ap (λ x. Store.get x hkey) (str-logged n.config.with_snapshot hkey (record dm { str = str }))
      ∙ u.gets hkey
      ∙ rw (==_refl hkey) refl in
    (
      n',
      put_key_val_lem env n hkey name key value timeout s dm str os w (ground (arith, alone))
          previous put_eq,
      get_key_val_hit env' n' hkey name key _ stored v
            (purge-IsServed env (with_dmap n hkey s name stored) (reverse os) name key hkey _ stored
              (with_dmap-IsServed n hkey name s dm stored w))
            found
          ∙ rw (fresh, fresh_value) refl,
    )
