-- ===== src/Snapshot/Loader.antt =====
-- internal/snapshot/loader.go: the DMaps that a snapshot restores.
use olricdb.Prelude.{
  ℕ, Bool, none, some, List, [], ◌∷◌, Outcome, ok, fails, panics, stuck, ◌>>=◌, ◌⊎◌, inl, inr, Text,
  nat_eq, text_eq,
}
use olricdb.Prelude.Dict.{Dict, insert, erase}
use olricdb.Prelude.Codec.{Codec}
use olricdb.Storage.Memory
use olricdb.Storage.Store.{Storage}
use olricdb.Storage.Store
use olricdb.Snapshot.{
  Error, key_not_found, database, first_run, loader_done, storage, KeySet, OnDiskDMaps, dmap_key,
  bkey, decoded,
}
use olricdb.Snapshot.Database.{Fetched, value, missing, broken, Badger}

-- The DMap of the loader.
pub record Restored : Type 0 where
  pub part_id : ℕ
  pub name : Text
  pub str : Storage

unfoldable pub with_first_run : {A : Type 0} → Error ⊎ A → Error ⊎ A
with_first_run (inl key_not_found) = inl first_run
with_first_run r = r

-- After `PutRaw`.
unfoldable pub or_storage : Outcome Memory.Error Store.Written → Outcome Error Storage
or_storage (ok (s, none)) = ok s
or_storage (ok (s, some e)) = fails (storage e)
or_storage (fails e) = fails (storage e)
or_storage panics = panics
or_storage stuck = stuck

unfoldable pub or_new : Outcome Memory.Error Storage → Outcome Error Storage
or_new (ok s) = ok s
or_new (fails e) = fails (storage e)
or_new panics = panics
or_new stuck = stuck

-- The processed name leaves the loader's map.
unfoldable pub processed : ℕ → Text → Dict Text Unit → OnDiskDMaps → OnDiskDMaps
processed part_id name names dmaps = elim (erase name names) [
  | [] ↦ erase part_id dmaps
  | n ∷ rest ↦ insert part_id (n ∷ rest) dmaps
]

module _ {D : Type 0} (b : Badger D) (mmap : ℕ → Bool) (fuel : ℕ) where
  unfoldable pub new_loader : Codec OnDiskDMaps → D → List ℕ → Error ⊎ OnDiskDMaps
  unfolding with_first_run decoded
  new_loader dmaps d dkey = with_first_run (decoded dmaps (b.read d dkey))

  -- One key of `loadFromBadger`.
  unfoldable pub load_key : Storage → ℕ → Fetched → Outcome Error Storage
  unfolding or_storage
  load_key o hkey missing = fails key_not_found
  load_key o hkey broken = fails database
  load_key o hkey (value val) = or_storage (Store.put_raw mmap fuel o hkey val)

  unfoldable pub load_keys : D → Storage → KeySet → Outcome Error Storage
  unfolding load_key bkey
  load_keys d o [] = ok o
  load_keys d o ((hkey, _) ∷ hkeys) = do
    o' ← load_key o hkey (b.read d (bkey hkey))
    load_keys d o' hkeys

  unfoldable pub load_from_badger : D → KeySet → Outcome Error Storage
  unfolding load_keys or_new
  load_from_badger d hkeys = do o ← or_new (Store.new mmap 0); load_keys d o hkeys

  module _ (keys : Codec KeySet) where
    unfoldable pub restore :
        D
        → OnDiskDMaps
        → ℕ
        → Text
        → Dict Text Unit
        → Error ⊎ KeySet
        → Outcome Error (Restored × OnDiskDMaps)
    unfolding load_from_badger processed
    restore d dmaps part_id name names (inl e) = fails e
    restore d dmaps part_id name names (inr hkeys) = do
      o ← load_from_badger d hkeys
      ok (record { part_id = part_id; name = name; str = o }, processed part_id name names dmaps)

    -- The loops of `Next` return at their first name.
    unfoldable pub next_from :
        D → OnDiskDMaps → OnDiskDMaps → Outcome Error (Restored × OnDiskDMaps)
    unfolding restore decoded dmap_key
    next_from d dmaps [] = fails loader_done
    next_from d dmaps ((part_id, []) ∷ parts) = next_from d dmaps parts
    next_from d dmaps ((part_id, (name, u) ∷ names) ∷ parts) =
        restore d dmaps part_id name ((name, u) ∷ names)
          (decoded keys (b.read d (dmap_key part_id name)))

    unfoldable pub next : D → OnDiskDMaps → Outcome Error (Restored × OnDiskDMaps)
    unfolding next_from
    next d dmaps = next_from d dmaps dmaps
