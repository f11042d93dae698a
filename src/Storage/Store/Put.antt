-- ===== src/Storage/Store/Put.antt =====
-- `Put` on a sound storage: where it ends, what it leaves, and when its loop never ends.
use native.Mathlib.Omega.{arith}
use olricdb.Prelude.{
  ℕ, zero, suc, ◌+◌, ◌*◌, ◌<◌, ◌≤◌, ◌≡◌, refl, ◌∙◌, Bool, true, false, none, some, List, ◌∷◌,
  length, ok, stuck, nat_eq, ◌⊎◌,
}
use olricdb.Storage.Memory.{key_too_large, mmap_failed}
use olricdb.Storage.Entry.{VData, size, IsEncodable}
use olricdb.Storage.Table.{Table, minimum_size}
use olricdb.Storage.Table
use olricdb.Storage.Table.Put.{get-put, put_no_space, put_key_too_large}
use olricdb.Storage.Store.{Storage, put, retry, after_attempt}
use olricdb.Storage.Store.Retry.{Granted, IsUpdate, retry_room}
use olricdb.Storage.Store.Invariant.{
  IsSound, size_for, fresh_table, new_table_granted, new_table_refused, minimum_size-le,
}

-- The entry fits the last table, or the table that the loop would make after it.
abbrev pub HasRoom : Table → VData → Type 0
HasRoom t v = (size v + t.offset < t.allocated) ⊎ (size v < size_for (t.inuse * 2))

module _ (mmap : ℕ → Bool) (h : ℕ) (v : VData) where
  -- One turn where it has none.
  put_later :
      (fuel : ℕ) (t : Table) (older : List Table) (m : Bool)
      → Granted mmap
      → length v.key < 256
      → t.allocated ≤ size v + t.offset
      → put mmap (suc fuel) (record { tables = t ∷ older; merging = m }) h v
        ≡ put mmap fuel
            (record { tables = fresh_table (t.inuse * 2) ∷ t ∷ older; merging = true })
            h
            v
  unfolding put retry
  put_later fuel t older m grant short full =
      rw (put_no_space t h v short full)
        (rw (new_table_granted mmap (t.inuse * 2) (grant _), after_attempt) refl)

  -- On a sound storage, with a system that grants every mapping, `Put` of an entry that fits the
  -- last table, or the table that the loop makes next, returns without an error within two turns of
  -- the loop. The storage it leaves is sound, has the value under the key, and gives for every
  -- other key what it gave before.
  pub get-put_room :
      (t : Table) (older : List Table) (m : Bool) (fuel : ℕ)
      → Granted mmap
      → IsSound (record { tables = t ∷ older; merging = m })
      → IsEncodable v
      → HasRoom t v
      → (s' : Storage) × (put mmap (suc (suc fuel)) (record { tables = t ∷ older; merging = m }) h v
          ≡ ok (s', none))
        × IsUpdate (record { tables = t ∷ older; merging = m }) s' h v
  unfolding put
  get-put_room t older m fuel grant w enc room =
      retry_room mmap h v (λ t. Table.put t h v) (size v) (λ t w fits. get-put t h v w enc fits)
        (λ t full. put_no_space t h v enc.key_short full) t older m fuel grant w room

  -- Where the system grants every mapping, `Put` of an entry with a key below 256 bytes that
  -- neither fits the last table nor the table that the loop would make next, does not return: no
  -- number of turns is enough.
  pub put_no_room :
      (fuel : ℕ) (t : Table) (older : List Table) (m : Bool)
      → Granted mmap
      → length v.key < 256
      → t.allocated ≤ size v + t.offset
      → size_for (t.inuse * 2) ≤ size v
      → put mmap fuel (record { tables = t ∷ older; merging = m }) h v ≡ stuck
  unfolding put retry
  put_no_room zero t older m grant short full big = refl
  put_no_room (suc fuel) t older m grant short full big =
      put_later fuel t older m grant short full
      ∙ put_no_room fuel (fresh_table (t.inuse * 2)) (t ∷ older) true grant short
          (omega (arith, big)) (omega (arith, big, minimum_size-le (t.inuse * 2)))

  -- An error leaves the storage as it was.
  pub put_fails :
      (fuel : ℕ) (t : Table) (older : List Table) (m : Bool)
      → 256 ≤ length v.key
      → put mmap (suc fuel) (record { tables = t ∷ older; merging = m }) h v
        ≡ ok (record { tables = t ∷ older; merging = m }, some key_too_large)
  unfolding put retry
  put_fails fuel t older m long = rw (put_key_too_large t h v long) refl

  -- `Put` of an entry with a key below 256 bytes that does not fit the last table, where the system
  -- refuses the mapping for the next table, returns the error of the system and leaves the storage
  -- as it was.
  pub put_refused :
      (fuel : ℕ) (t : Table) (older : List Table) (m : Bool)
      → length v.key < 256
      → t.allocated ≤ size v + t.offset
      → mmap (size_for (t.inuse * 2)) ≡ false
      → put mmap (suc fuel) (record { tables = t ∷ older; merging = m }) h v
        ≡ ok (record { tables = t ∷ older; merging = m }, some mmap_failed)
  unfolding put retry
  put_refused fuel t older m short full refused =
      rw (put_no_space t h v short full)
        (rw (new_table_refused mmap (t.inuse * 2) refused, after_attempt) refl)
