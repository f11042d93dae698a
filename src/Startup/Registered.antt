-- ===== src/Startup/Registered.antt =====
-- The registration of a DMap that is restored: what it leaves on the disk as it was.
use native.Mathlib.Omega.{arith}
use olricdb.Prelude.{
  ℕ, ◌<◌, ◌≡◌, refl, ap, ◌∙◌, true, false, Option, none, some, List, [], length, inl, inr, nat_eq,
  Text, text_eq, text_beq, text_beq_iff, Bool-cases,
}
use olricdb.Prelude.Dict.{insert}
use olricdb.Prelude.Codec.{Codec, IsLossless}
use olricdb.Storage.Table.{minimum_size}
use olricdb.Storage.Store.{Storage}
use olricdb.Storage.Store.Raw.{Stores}
use olricdb.Snapshot.{
  Error, KeySet, OnDiskDMaps, Snapshot, dmap_key, bkey, decoded, or_empty, backup_dmap_key,
}
use olricdb.Snapshot.Record.{names_of, save_dmaps, register_on_badger, add_log, register_dmap}
use olricdb.Snapshot.Database.{Badger, IsBadger}
use olricdb.Snapshot.Batches.{length-bkey}
use olricdb.Snapshot.Sync.{IsMirror}
use olricdb.Snapshot.Registry.{primary-bkey, primary-dmap_key, save_dmaps_others, save_dmaps_saved}
use olricdb.DMap.{Kind, primary_copy, backup_copy}
use olricdb.Startup.{dkey_of}

-- The registry's keys are no entry's, and no DMap's.
dkey_of-bkey : (kind : Kind) (h : ℕ) → text_beq (dkey_of kind) (bkey h) ≡ false
dkey_of-bkey primary_copy h = primary-bkey h
dkey_of-bkey backup_copy h = elim (Bool-cases (text_beq backup_dmap_key (bkey h))) [
  | inl e ↦
      absurd (omega (arith, length-bkey h, ap length ((text_beq_iff backup_dmap_key (bkey h)).0 e)))
  | inr e ↦ e
]

dkey_of-dmap_key :
    (kind : Kind) (p : ℕ) (name : Text) → text_beq (dkey_of kind) (dmap_key p name) ≡ false
unfolding dmap_key
dkey_of-dmap_key primary_copy p name = primary-dmap_key p name
dkey_of-dmap_key backup_copy p name = refl

module _ {D : Type 0} (b : Badger D) (keys : Codec KeySet) where
  -- The disk has what the storage of the DMap has.
  pub record IsRestorable (d : D) (p : ℕ) (name : Text) (orig : Storage) : Type 0 where
    pub content : ℕ → Option (List ℕ)
    pub stores : (h : ℕ) → Stores orig h (content h)
    pub small : (h : ℕ) (raw : List ℕ) → content h ≡ some raw → length raw < minimum_size
    pub mirror : IsMirror b keys p name d content []
    pub listed : decoded keys (b.read d (dmap_key p name)) ≡ inr mirror.hkeys

module _ {D : Type 0} (b : Badger D) (keys : Codec KeySet) (dmaps : Codec OnDiskDMaps) where
  -- Badger takes every commit, and the serializer every registry, which it gives back.
  pub record IsTaking : Type 0 where
    pub commits : (d : D) (k v : List ℕ) → (b.commit d k v).1 ≡ true
    pub marshals : (m : OnDiskDMaps) → (res : List ℕ) × (dmaps.marshal m ≡ some res)
    pub lossless : IsLossless dmaps

  -- The registry is read without an error.
  abbrev pub IsKnown : Kind → D → Type 0
  IsKnown kind d = (m : OnDiskDMaps) × (or_empty (decoded dmaps (b.read d (dkey_of kind))) ≡ inr m)

  abbrev pub AsBefore : Kind → D → D → Type 0
  AsBefore kind d d' = (k : List ℕ) → text_beq (dkey_of kind) k ≡ false → b.read d' k ≡ b.read d k

  pub kept-IsRestorable :
      (kind : Kind) (d d' : D) (p : ℕ) (name : Text) (orig : Storage)
      → AsBefore kind d d'
      → IsRestorable b keys d p name orig
      → IsRestorable b keys d' p name orig
  kept-IsRestorable kind d d' p name orig others r =
      let e = others (dmap_key p name) (dkey_of-dmap_key kind p name) in
      record {
        content = r.content;
        stores = r.stores;
        small = r.small;
        mirror = record {
          hkeys = r.mirror.hkeys;
          stored = rw e r.mirror.stored;
          bounded = r.mirror.bounded;
          agrees = λ h hb n. rw (others (bkey h) (dkey_of-bkey kind h)) (r.mirror.agrees h hb n);
        };
        listed = rw e r.listed;
      }

  module _ (law : IsBadger b) (taking : IsTaking) where
    save_dmaps_taken :
        (d : D) (dkey : List ℕ) (m : OnDiskDMaps) → (save_dmaps b dmaps d dkey m).1 ≡ none
    unfolding save_dmaps
    save_dmaps_taken d dkey m =
        let (res, q) = taking.marshals m in rw (save_dmaps, q, taking.commits d dkey res) refl

    added_log :
        (p : ℕ) (name : Text) (str : Storage) (s : Snapshot D) (r : D × Option Error)
        → r.1 ≡ none
        → (s' : Snapshot D) × (add_log p name str s r ≡ (s', none)) × (s'.db ≡ r.0)
    unfolding add_log
    added_log p name str s (d, none) q = (_, refl, refl)
    added_log p name str s (d, some e) q = absurd (ground (arith, q))

    register_on_badger_known :
        (kind : Kind) (p : ℕ) (name : Text) (d : D) (m : OnDiskDMaps)
        → or_empty (decoded dmaps (b.read d (dkey_of kind))) ≡ inr m
        → register_on_badger b dmaps d (dkey_of kind) p name
          ≡ save_dmaps b dmaps d (dkey_of kind) (insert p (insert name tt (names_of p m)) m)
    unfolding register_on_badger
    register_on_badger_known kind p name d m q = rw (register_on_badger, q) refl

    pub registered_lem :
        (kind : Kind) (p : ℕ) (name : Text) (str : Storage) (s : Snapshot D)
        → IsKnown kind s.db
        → (s' : Snapshot D) × (register_dmap b dmaps (dkey_of kind) p name str s ≡ (s', none))
          × IsKnown kind s'.db
          × AsBefore kind s.db s'.db
    unfolding register_dmap
    registered_lem kind p name str s (m, known) =
        let new = insert p (insert name tt (names_of p m)) m in
        let fine = save_dmaps_taken s.db (dkey_of kind) new in
        let (s', q, db) =
          added_log p name str s (save_dmaps b dmaps s.db (dkey_of kind) new) fine in
        (
          s',
          ap (add_log p name str s) (register_on_badger_known kind p name s.db m known) ∙ q,
          (
            new,
            rw db (
                ap or_empty
                  (save_dmaps_saved b law dmaps taking.lossless s.db (dkey_of kind) new fine)),
          ),
          λ k apart. rw db (save_dmaps_others b law dmaps s.db (dkey_of kind) new k apart fine),
        )
