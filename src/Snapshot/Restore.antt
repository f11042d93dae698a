-- ===== src/Snapshot/Restore.antt =====
-- What `Next` restores from a disk that agrees with a storage.
use native.Mathlib.Omega.{arith}
use olricdb.Prelude.{
  ℕ, suc, ◌<◌, ◌^◌, ◌≡◌, refl, sym, subst, ◌∙◌, Bool, false, Option, none, some, List, [], ◌∷◌,
  length, ok, inl, inr, nat_eq, Text, text_eq, All, Bool-cases, Option-cases, ◌≢◌, ◌==◌, ==_iff,
}
use olricdb.Prelude.Dict.{lookup}
use olricdb.Prelude.Codec.{Codec}
use olricdb.Storage.Entry.{VData}
use olricdb.Storage.Table.{minimum_size}
use olricdb.Storage.Table.Raw.{IsRaw}
use olricdb.Storage.Store.{Storage, get, new, or_not_found, scan, nonempty}
use olricdb.Storage.Store.Invariant.{
  IsSound, fresh_table, fresh_table-IsWellFormed, new_table_granted, scan-fresh_table,
}
use olricdb.Storage.Store.Retry.{Granted, IsUpdate}
use olricdb.Storage.Store.Raw.{Stores, put_raw_small}
use olricdb.Snapshot.{KeySet, bkey}
use olricdb.Snapshot.Database.{value, Badger}
use olricdb.Snapshot.Batches.{Agrees}
use olricdb.Snapshot.Sync.{IsMirror}
use olricdb.Snapshot.Loader.{load_key, load_keys, load_from_badger, or_storage, or_new}

module _ {D : Type 0} (b : Badger D) (d : D) (orig : Storage) where
  -- The disk has the entry that the storage has.
  record IsLoadable (k : ℕ) : Type 0 where
    raw : List ℕ
    entry : VData
    stored : b.read d (bkey k) ≡ value raw
    whole : IsRaw raw entry
    small : length raw < minimum_size
    gets : get orig k ≡ ok entry

  AllLoadable : KeySet → Type 0
  AllLoadable hs = All (λ e. IsLoadable e.0) hs

  listed :
      (hs : KeySet)
      → ((k : ℕ) → k < 2 ^ 64 → lookup k hs ≢ none → IsLoadable k)
      → All (λ e. e.0 < 2 ^ 64) hs
      → AllLoadable hs
  unfolding AllLoadable
  listed [] f a = tt
  listed ((k, u) ∷ hs) f a =
      (f k a.0 (λ n. ground (arith, ==_iff k k)), listed hs (λ j jb n. f j jb (later j n)) a.1)
    where
      later : (j : ℕ) → lookup j hs ≢ none → lookup j ((k, u) ∷ hs) ≢ none
      later j n e = elim (Bool-cases (k == j)) [ inl q ↦ ground arith | inr q ↦ n (ground arith) ]

  module _ (mmap : ℕ → Bool) (grant : Granted mmap) (fuel : ℕ) where
    -- What loading leaves: the listed keys as in `orig`, and the others as before.
    record IsLoaded (s s' : Storage) (hs : KeySet) : Type 0 where
      sound : IsSound s'
      others : (h : ℕ) → lookup h hs ≡ none → get s' h ≡ get s h
      kept : (h : ℕ) → get s h ≡ get orig h → get s' h ≡ get orig h
      these : (h : ℕ) → lookup h hs ≢ none → get s' h ≡ get orig h

    module _ (k : ℕ) (s s1 : Storage) (v : VData) (u : IsUpdate s s1 k v)
        (same : get orig k ≡ ok v) where
      this_one : get s1 k ≡ get orig k
      this_one = u.gets k ∙ rw ((==_iff k k).1 refl) (sym same)

      other_one : (h : ℕ) → (k == h) ≡ false → get s1 h ≡ get s h
      other_one h ne = u.gets h ∙ rw ne refl

      kept_one : (h : ℕ) → get s h ≡ get orig h → get s1 h ≡ get orig h
      kept_one h e = elim (Bool-cases (k == h)) [
        | inl q ↦ subst (λ j. get s1 j ≡ get orig j) ((==_iff k h).0 q) this_one
        | inr q ↦ other_one h q ∙ e
      ]

      IsLoaded-more :
          (hs : KeySet) (s2 : Storage) (t : Unit {0})
          → IsLoaded s1 s2 hs
          → IsLoaded s s2 ((k, t) ∷ hs)
      IsLoaded-more hs s2 t r = record {
        sound = r.sound;
        others = λ h n. r.others h (ground arith) ∙ other_one h (ground arith);
        kept = λ h e. r.kept h (kept_one h e);
        these = λ h n. elim (Bool-cases (k == h)) [
          | inl q ↦ r.kept h (subst (λ j. get s1 j ≡ get orig j) ((==_iff k h).0 q) this_one)
          | inr q ↦ r.these h (λ e. n (rw q e))
        ];
      }

    load_keys_lem :
        (hs : KeySet) (s : Storage)
        → AllLoadable hs
        → IsSound s
        → (s' : Storage) × (load_keys b mmap (suc (suc fuel)) d s hs ≡ ok s') × IsLoaded s s' hs
    unfolding load_keys load_key or_storage AllLoadable
    load_keys_lem [] s l w = (
      s,
      refl,
      record { sound = w; others = λ h n. refl; kept = λ h e. e; these = λ h n. absurd (n refl) },
    )
    load_keys_lem ((k, t) ∷ hs) s l w =
        let (s1, q, u) =
          put_raw_small mmap k l.0.raw l.0.entry s fuel grant w l.0.whole l.0.small in
        let (s2, q', r) = load_keys_lem hs s1 l.1 u.sound in
        (s2, rw (l.0.stored, q) q', IsLoaded-more k s s1 l.0.entry u l.0.gets hs s2 t r)

    empty : Storage
    empty = record { tables = fresh_table 0 ∷ []; merging = false }

    new-empty : or_new (new mmap 0) ≡ ok empty
    unfolding or_new new empty
    new-empty = rw (new_table_granted mmap 0 (grant _)) refl

    empty-IsSound : IsSound empty
    unfolding empty
    empty-IsSound = record { nonempty = tt; tables = (fresh_table-IsWellFormed 0, tt) }

    get-empty : (h : ℕ) → get empty h ≡ or_not_found none
    unfolding get empty nonempty scan
    get-empty h = rw (scan-fresh_table 0 h []) refl

    module _ (keys : Codec KeySet) (part_id : ℕ) (name : Text) (c : ℕ → Option (List ℕ))
        (contents : (h : ℕ) → Stores orig h (c h))
        (bounds : (h : ℕ) (raw : List ℕ) → c h ≡ some raw → length raw < minimum_size)
        (mirror : IsMirror b keys part_id name d c []) where
      loadable : (k : ℕ) → k < 2 ^ 64 → lookup k mirror.hkeys ≢ none → IsLoadable k
      loadable k kb n = elim (Option-cases (c k)) [
        | inl q ↦ absurd (n (rw q at (mirror.agrees k kb refl)))
        | inr (raw, q) ↦
            let s : Stores orig k (some raw) = rw q at (contents k) in
            let a : Agrees (b.read d (bkey k)) (lookup k mirror.hkeys) (some raw) =
              rw q at (mirror.agrees k kb refl) in
            record {
              raw = raw;
              entry = s.0;
              stored = a.0;
              whole = s.1;
              small = bounds k raw q;
              gets = s.2;
            }
      ]

      -- From a disk that agrees with a storage, with a system that grants every mapping and two
      -- turns or more for the storage's loop, where every raw entry of the storage is smaller than
      -- a new table, the loader makes a sound storage from which `Get` gives under every 64-bit key
      -- what it gives from the first one.
      pub load-IsMirror :
          (s' : Storage) × (load_from_badger b mmap (suc (suc fuel)) d mirror.hkeys ≡ ok s')
          × IsSound s'
          × ((h : ℕ) → h < 2 ^ 64 → get s' h ≡ get orig h)
      unfolding load_from_badger AllLoadable
      load-IsMirror =
          let (s', q, r) =
            load_keys_lem mirror.hkeys empty (listed mirror.hkeys loadable mirror.bounded)
              empty-IsSound in
          (
            s',
            rw new-empty q,
            r.sound,
            λ h hb. elim (Option-cases (c h)) [
              | inl e ↦
                  let s : Stores orig h none = rw e at (contents h) in
                  r.others h (rw e at (mirror.agrees h hb refl)) ∙ get-empty h ∙ sym s.0
              | inr (raw, e) ↦ r.these h (λ n. absent h hb raw e n)
            ],
          )
        where
          absent :
              (h : ℕ) → h < 2 ^ 64 → (raw : List ℕ) → c h ≡ some raw → lookup h mirror.hkeys ≢ none
          absent h hb raw e n =
              let a : Agrees (b.read d (bkey h)) (lookup h mirror.hkeys) (some raw) =
                rw e at (mirror.agrees h hb refl) in
              ground (arith, a.1)
