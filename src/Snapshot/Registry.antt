-- ===== src/Snapshot/Registry.antt =====
-- The registered DMaps: what the disk says of them, their workers, and their destruction.
use native.Mathlib.Omega.{arith}
use olricdb.Prelude.{
  ℕ, ◌≡◌, refl, sym, ap, ◌∙◌, Bool, true, false, Option, none, some, List, [], ◌∷◌, length, ◌&&◌,
  if◌then◌else◌, Outcome, ok, ◌⊎◌, inl, inr, nat_eq, Text, text_eq, text_beq, text_beq_iff,
  Bool-cases, Option-cases, ◌==◌, ==_iff,
}
use olricdb.Prelude.Dict.{Dict, lookup, insert, lookup-insert}
use olricdb.Prelude.Codec.{Codec, IsLossless}
use olricdb.Storage.Store.{Storage}
use olricdb.Snapshot.{
  OpLog, OnDiskDMaps, Error, dmap_key, primary_dmap_key, bkey, decoded, or_empty, Snapshot,
}
use olricdb.Snapshot.Record.{
  save_dmaps, names_of, register_on_badger, start_worker, add_log, register_dmap,
  unregister_on_badger, drop_log, after_unregister, unregister_dmap,
}
use olricdb.Snapshot.Loader.{new_loader, with_first_run}
use olricdb.Snapshot.Database.{set, Fetched, value, Badger, replay, IsBadger}
use olricdb.Snapshot.Batches.{text_beq_refl, length-bkey}

pub ok_fst :
    {A B : Type 0} {a a' : A} {b b' : B}
    → ◌≡◌ {A = Outcome Error (A × B)} (ok (a, b)) (ok (a', b'))
    → a ≡ a'
ok_fst {A} {B} {a} {a'} {b} {b'} e = ap first e
  where
    first : Outcome Error (A × B) → A
    first o = elim o [ ok p ↦ p.0 | _ ↦ a ]

pub ok_snd :
    {A B : Type 0} {a a' : A} {b b' : B}
    → ◌≡◌ {A = Outcome Error (A × B)} (ok (a, b)) (ok (a', b'))
    → b ≡ b'
ok_snd {A} {B} {a} {a'} {b} {b'} e = ap second e
  where
    second : Outcome Error (A × B) → B
    second o = elim o [ ok p ↦ p.1 | _ ↦ b ]

pub some_inj : {A : Type 0} {a a' : A} → some a ≡ some a' → a ≡ a'
some_inj {A} {a} e = ap (λ o. elim o [ some x ↦ x | none ↦ a ]) e

-- The key of the registry is no entry's, and no DMap's.
pub primary-bkey : (h : ℕ) → text_beq primary_dmap_key (bkey h) ≡ false
primary-bkey h = elim (Bool-cases (text_beq primary_dmap_key (bkey h))) [
  | inl e ↦
      absurd
        (omega (arith, length-bkey h, ap length ((text_beq_iff primary_dmap_key (bkey h)).0 e)))
  | inr e ↦ e
]

pub primary-dmap_key :
    (part_id : ℕ) (name : Text) → text_beq primary_dmap_key (dmap_key part_id name) ≡ false
unfolding dmap_key
primary-dmap_key part_id name = refl

module _ {D : Type 0} (b : Badger D) (law : IsBadger b) (dmaps : Codec OnDiskDMaps) where
  committed_of : (done : Bool) → (if done then none else some Error.database) ≡ none → done ≡ true
  committed_of true e = refl
  committed_of false e = absurd (ground arith)

  -- The registry is written under its key only.
  pub save_dmaps_others :
      (d : D) (dkey : List ℕ) (on_disk : OnDiskDMaps) (k : List ℕ)
      → text_beq dkey k ≡ false
      → (save_dmaps b dmaps d dkey on_disk).1 ≡ none
      → b.read (save_dmaps b dmaps d dkey on_disk).0 k ≡ b.read d k
  unfolding save_dmaps
  save_dmaps_others d dkey on_disk k ne = elim (Option-cases (dmaps.marshal on_disk)) [
    | inl q ↦ rw (q, save_dmaps) (λ e. absurd (ground arith))
    | inr (res, q) ↦
        rw (q, save_dmaps) (λ e. law.committed d dkey res k (committed_of _ e) ∙ rw ne refl)
  ]

  pub save_dmaps_saved :
      IsLossless dmaps
      → (d : D) (dkey : List ℕ) (on_disk : OnDiskDMaps)
      → (save_dmaps b dmaps d dkey on_disk).1 ≡ none
      → decoded dmaps (b.read (save_dmaps b dmaps d dkey on_disk).0 dkey) ≡ inr on_disk
  unfolding save_dmaps decoded
  save_dmaps_saved lossless d dkey on_disk = elim (Option-cases (dmaps.marshal on_disk)) [
    | inl q ↦ rw (q, save_dmaps) (λ e. absurd (ground arith))
    | inr (res, q) ↦
        rw (q, save_dmaps)
          (λ e.
            ap (decoded dmaps)
              (law.committed d dkey res dkey (committed_of _ e) ∙ here dkey res (b.read d dkey))
            ∙ rw (lossless on_disk res q, decoded) refl)
  ]
    where
      here : (dkey res : List ℕ) (f : Fetched) → replay (set dkey res ∷ []) dkey f ≡ value res
      here dkey res f = rw (text_beq_refl dkey) refl

  pub registered :
      (dkey : List ℕ) (part_id : ℕ) (name : Text) (str : Storage) (s s' : Snapshot D)
      → (p : D × Option Error) → add_log part_id name str s p ≡ (s', none)
      → (p.1 ≡ none) × (s'.db ≡ p.0) × (s'.workers ≡ start_worker part_id s.workers)
  unfolding add_log
  registered dkey part_id name str s s' (d, some e) q =
      absurd (ground (arith, ap (λ (x : Snapshot D × Option Error). x.1) q))
  registered dkey part_id name str s s' (d, none) q = (
    refl,
    sym (ap (λ (x : Snapshot D × Option Error). x.0.db) q),
    sym (ap (λ (x : Snapshot D × Option Error). x.0.workers) q),
  )

  -- What the registry says after a registration.
  names_of_registered :
      (part_id part_id' : ℕ) (name name' : Text) (on_disk : OnDiskDMaps)
      → lookup name'
          (names_of part_id' (insert part_id (insert name tt (names_of part_id on_disk)) on_disk))
        ≡ (if (part_id == part_id') && text_beq name name'
            then some tt
            else lookup name' (names_of part_id' on_disk))
  unfolding names_of
  names_of_registered part_id part_id' name name' on_disk =
      let names = insert name tt (names_of part_id on_disk) in
      elim (Bool-cases (part_id == part_id')) [
        | inl q ↦
            rw (lookup-insert part_id part_id' names on_disk, names_of, q)
              (lookup-insert name name' tt (names_of part_id on_disk)
                ∙ ap
                    (λ i.
                      if text_beq name name' then some tt else lookup name' (names_of i on_disk))
                    ((==_iff part_id part_id').0 q))
        | inr q ↦ rw (lookup-insert part_id part_id' names on_disk, names_of, q) refl
      ]

  pub or_empty-read :
      (d : D) (dkey : List ℕ) (part_id : ℕ) (name : Text)
      → (register_on_badger b dmaps d dkey part_id name).1 ≡ none
      → (on_disk : OnDiskDMaps) × (or_empty (decoded dmaps (b.read d dkey)) ≡ inr on_disk)
        × (register_on_badger b dmaps d dkey part_id name
            ≡ save_dmaps b dmaps d dkey
                (insert part_id (insert name tt (names_of part_id on_disk)) on_disk))
  unfolding register_on_badger
  or_empty-read d dkey part_id name = by_reading (or_empty (decoded dmaps (b.read d dkey))) refl
    where
      by_reading :
          (r : Error ⊎ OnDiskDMaps)
          → or_empty (decoded dmaps (b.read d dkey)) ≡ r
          → (register_on_badger b dmaps d dkey part_id name).1 ≡ none
          → (on_disk : OnDiskDMaps) × (or_empty (decoded dmaps (b.read d dkey)) ≡ inr on_disk)
            × (register_on_badger b dmaps d dkey part_id name
                ≡ save_dmaps b dmaps d dkey
                    (insert part_id (insert name tt (names_of part_id on_disk)) on_disk))
      by_reading (inr on_disk) q = λ e. (on_disk, q, rw (q, register_on_badger) refl)
      by_reading (inl x) q = rw (q, register_on_badger) (λ e. absurd (ground arith))

  -- A registration that succeeds, on a database that makes the write that it reports as made and
  -- with a serializer that gives back what it was given, is on the disk: the loader of the
  -- registry's key, made on the database that it leaves, names the DMap in its partition, and
  -- otherwise what the registry named before.
  pub new_loader-register_dmap :
      IsLossless dmaps
      → (dkey : List ℕ) (part_id : ℕ) (name : Text) (str : Storage) (s s' : Snapshot D)
        (mmap : ℕ → Bool) (fuel : ℕ)
      → register_dmap b dmaps dkey part_id name str s ≡ (s', none)
      → (old new : OnDiskDMaps) × (or_empty (decoded dmaps (b.read s.db dkey)) ≡ inr old)
        × (new_loader b mmap fuel dmaps s'.db dkey ≡ inr new)
        × ((part_id' : ℕ) (name' : Text)
            → lookup name' (names_of part_id' new) ≡ (
                if (part_id == part_id') && text_beq name name'
                then some tt
                else lookup name' (names_of part_id' old)))
  unfolding register_dmap new_loader with_first_run
  new_loader-register_dmap lossless dkey part_id name str s s' mmap fuel e =
      let (fine, db, _) =
        registered dkey part_id name str s s' (register_on_badger b dmaps s.db dkey part_id name)
          e in
      let (old, q, r) = or_empty-read s.db dkey part_id name fine in
      let new = insert part_id (insert name tt (names_of part_id old)) old in
      (
        old,
        new,
        q,
        ap with_first_run (
            ap (λ d. decoded dmaps (b.read d dkey)) (db ∙ ap (λ (x : D × Option Error). x.0) r)
            ∙ save_dmaps_saved lossless s.db dkey new
                (sym (ap (λ (x : D × Option Error). x.1) r) ∙ fine)),
        λ part_id' name'. names_of_registered part_id part_id' name name' old,
      )

  worker-workers :
      (part_id : ℕ) (alive : Bool) (workers : Dict ℕ Bool)
      → lookup part_id workers ≡ some alive
      → lookup part_id (start_worker part_id workers) ≡ some alive
  unfolding start_worker
  worker-workers part_id alive workers q = rw (q, start_worker) q

  -- What is left after the last DMap of a partition.
  dropped :
      (part_id : ℕ) (name : Text) (o : OpLog) (s s1 : Snapshot D)
      → drop_log part_id name ((name, o) ∷ []) s ≡ ok (s1, none)
      → lookup part_id s1.workers ≡ some false
  unfolding drop_log
  dropped part_id name o s s1 = elim (Option-cases (lookup part_id s.workers)) [
    | inl q ↦ rw (drop_log, text_beq_refl name, q) (λ e. absurd (ground arith))
    | inr (w, q) ↦
        rw (drop_log, text_beq_refl name, q)
          (λ e.
            ap (λ (x : Snapshot D). lookup part_id x.workers) (sym (ok_fst e))
            ∙ lookup-insert part_id part_id false s.workers
            ∙ rw ((==_iff part_id part_id).1 refl) refl)
  ]

  unregistered :
      (part_id : ℕ) (name : Text) (o : OpLog) (s s1 : Snapshot D) (p : D × Option Error)
      → after_unregister part_id name ((name, o) ∷ []) s p ≡ ok (s1, none)
      → lookup part_id s1.workers ≡ some false
  unfolding after_unregister
  unregistered part_id name o s s1 (d, none) e = dropped part_id name o (record s { db = d }) s1 e
  unregistered part_id name o s s1 (d, some x) e = absurd (ground (arith, ok_snd e))

  -- Where a partition's only DMap is unregistered without an error, and then a DMap is registered
  -- on the partition without an error, the partition's worker does not run.
  pub register_dmap-unregister_dmap :
      (dkey : List ℕ) (part_id : ℕ) (name name' : Text) (o : OpLog) (str : Storage)
      (s s1 s2 : Snapshot D)
      → lookup part_id s.oplogs ≡ some ((name, o) ∷ [])
      → unregister_dmap b dmaps dkey part_id name s ≡ ok (s1, none)
      → register_dmap b dmaps dkey part_id name' str s1 ≡ (s2, none)
      → lookup part_id s2.workers ≡ some false
  unfolding register_dmap unregister_dmap
  register_dmap-unregister_dmap dkey part_id name name' o str s s1 s2 here gone again =
      let (_, _, w) =
        registered dkey part_id name' str s1 s2
          (register_on_badger b dmaps s1.db dkey part_id name') again in
      ap (lookup part_id) w
      ∙ worker-workers part_id false s1.workers (
          unregistered part_id name o s s1 (unregister_on_badger b dmaps s.db dkey part_id name)
            (rw (here, unregister_dmap) at gone))
