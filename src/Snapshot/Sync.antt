-- ===== src/Snapshot/Sync.antt =====
-- `syncDMap` makes the disk agree with the storage.
use native.Mathlib.Omega.{arith}
use olricdb.Prelude.{
  ◌==◌, ==_iff, ℕ, All, ◌<◌, ◌^◌, ◌≡◌, refl, sym, ap, ◌∙◌, subst, Bool, true, false, Option, none,
  some, List, [], ◌∷◌, if◌then◌else◌, ok, ◌⊎◌, inl, inr, nat_eq, Text, text_eq, text_beq,
  text_beq_iff, Bool-cases, Option-cases,
}
use olricdb.Prelude.Dict.{Dict, lookup, insert, lookup-insert, Distinct, Distinct-insert}
use olricdb.Prelude.Codec.{Codec, IsLossless}
use olricdb.Storage.Store.{Storage}
use olricdb.Snapshot.{
  LogOp, log_put, log_delete, stage, OpLog, KeySet, Error, dmap_key, bkey, decoded, or_empty, Batch,
  Synced, flushed, save_hkeys, sync_read, sync_dmap, readd, log_operation,
}
use olricdb.Snapshot.Database.{Write, set, value, Badger, replay, IsBadger}
use olricdb.Snapshot.Batches.{
  IsCurrent, Agrees, Reads, IsLog, Staged, IsApart, steps, sync_keys-steps, steps-IsKept,
  steps-IsApart, kept-Staged, steps-IsBounded, step, logged-Staged, dmap_key-apart, text_beq_refl,
}

readd-none :
    (h : ℕ) (failed m : Dict ℕ LogOp)
    → lookup h (readd failed m) ≡ none
    → (lookup h failed ≡ none) × (lookup h m ≡ none)
unfolding readd
readd-none h [] m n = (refl, n)
readd-none h ((k, op) ∷ failed) m n = elim (Option-cases (lookup k m)) [
  | inl q ↦
      let e : lookup h (readd failed (insert k op m)) ≡ none = rw (q, readd) at n in
      let (a, i) = readd-none h failed (insert k op m) e in
      let j = lookup-insert k h op m in (ground arith, ground arith)
  | inr (x, q) ↦
      let e : lookup h (readd failed m) ≡ none = rw (q, readd) at n in
      let (a, i) = readd-none h failed m e in (ground arith, i)
]

-- Every operation of the log is the one that the content `c` comes from.
abbrev Logged : (ℕ → Option (List ℕ)) → Dict ℕ LogOp → Type 0
Logged c m = All (λ e. (e.0 < 2 ^ 64) × IsCurrent e.1 (c e.0)) m

module _ (c c' : ℕ → Option (List ℕ)) (h : ℕ) (same : (k : ℕ) → (h == k) ≡ false → c' k ≡ c k) where
  Logged-kept : (m : Dict ℕ LogOp) → lookup h m ≡ none → Logged c m → Logged c' m
  Logged-kept [] n l = tt
  Logged-kept ((k, op) ∷ m) n l = elim (Bool-cases (k == h)) [
    | inl q ↦ absurd (ground arith)
    | inr q ↦ (
      (l.0.0, subst (IsCurrent op) (sym (same k (ground arith))) l.0.1),
      Logged-kept m (rw q at n) l.1,
    )
  ]

  Logged-insert :
      (op : LogOp) (m : Dict ℕ LogOp)
      → h < 2 ^ 64
      → IsCurrent op (c' h)
      → Distinct m
      → Logged c m
      → Logged c' (insert h op m)
  Logged-insert op [] hb current once l = ((hb, current), tt)
  Logged-insert op ((k, op') ∷ m) hb current once l = elim (Bool-cases (k == h)) [
    | inl q ↦
        rw q (
          (hb, current),
          Logged-kept m (ap (λ i. lookup i m) (sym ((==_iff k h).0 q)) ∙ once.0) l.1,
        )
    | inr q ↦ rw q (
      (l.0.0, subst (IsCurrent op') (sym (same k (ground arith))) l.0.1),
      Logged-insert op m hb current once.1 l.1,
    )
  ]

module _ {D : Type 0} (b : Badger D) (keys : Codec KeySet) (part_id : ℕ) (name : Text) where
  -- The disk has the content `c`, except for the keys that the log `m` still names.
  pub record IsMirror (d : D) (c : ℕ → Option (List ℕ)) (m : Dict ℕ LogOp) : Type 0 where
    pub hkeys : KeySet
    pub stored : or_empty (decoded keys (b.read d (dmap_key part_id name))) ≡ inr hkeys
    pub bounded : All (λ e. e.0 < 2 ^ 64) hkeys
    pub agrees :
        (h : ℕ) → h < 2 ^ 64 → lookup h m ≡ none → Agrees (b.read d (bkey h)) (lookup h hkeys) (c h)

  -- Where a log names every key once, with the operations that the storage's content `c` comes
  -- from, and the disk has the content except for the logged keys: if the storage changes at one
  -- 64-bit key, to an entry for `Put` of the log and to none for `Delete`, then after this
  -- operation the log names every key once, with the operations that the new content comes from,
  -- and the disk has the new content except for the keys that are logged then.
  pub log_operation-IsMirror :
      (d : D) (c c' : ℕ → Option (List ℕ)) (op : LogOp) (h : ℕ) (o : OpLog)
      → h < 2 ^ 64
      → IsCurrent op (c' h)
      → ((k : ℕ) → (h == k) ≡ false → c' k ≡ c k)
      → Distinct o.m
      → IsLog b c d o.m
      → IsMirror d c o.m
      → Distinct (log_operation op h o).m
        × IsLog b c' d (log_operation op h o).m
        × IsMirror d c' (log_operation op h o).m
  unfolding log_operation IsLog
  log_operation-IsMirror d c c' op h o hb current same once log w = (
    Distinct-insert h op o.m once,
    Logged-insert c c' h same op o.m hb current once log,
    record {
      hkeys = w.hkeys;
      stored = w.stored;
      bounded = w.bounded;
      agrees = λ k kb n. elim (Bool-cases (h == k)) [
        | inl q ↦ absurd (ground (arith, lookup-insert h k op o.m))
        | inr q ↦ rw (same k q) (w.agrees k kb (sym (lookup-insert h k op o.m ∙ rw q refl) ∙ n))
      ];
    },
  )

  idle : D → OpLog → Synced D
  idle d o = record { db = d; log = o; failed = []; err = none }

  -- There is nothing to do, or the keys are read.
  sync_dmap-cases :
      (d : D) (m : Dict ℕ LogOp) (str : Storage)
      → (sync_dmap b keys d part_id name (record { m = m; str = str })
          ≡ ok (idle d (record { m = m; str = str })))
        ⊎ (sync_dmap b keys d part_id name (record { m = m; str = str })
            ≡ sync_read b keys d part_id name
                (record { m = m; str = str })
                (or_empty (decoded keys (b.read d (dmap_key part_id name)))))
  unfolding sync_dmap idle
  sync_dmap-cases d [] str = inl refl
  sync_dmap-cases d (e ∷ m) str = inr refl

  module _ (law : IsBadger b) (lossless : IsLossless keys) (c : ℕ → Option (List ℕ)) (d : D)
      (m : Dict ℕ LogOp) (log : IsLog b c d m) (mirror : IsMirror d c m) where
    first : Batch
    first = record { writes = []; hkeys = mirror.hkeys; failed = [] }

    last : Batch
    unfolding first
    last = steps b c d first m

    done_of : (done : Bool) → (if done then none else some Error.database) ≡ none → done ≡ true
    done_of true e = refl
    done_of false e = absurd (ground arith)

    -- Only the entries are written.
    flushed-IsMirror :
        (o : OpLog)
        → (flushed b d o m (last.writes)).err ≡ none
        → IsMirror (flushed b d o m (last.writes)).db c m
    unfolding flushed last first IsApart
    flushed-IsMirror o e =
        let read =
          λ (k : List ℕ). law.flushed d last.writes k (done_of (b.flush d last.writes).1 e) in
        record {
          hkeys = mirror.hkeys;
          stored =
              ap (λ f. or_empty (decoded keys f))
                (read (dmap_key part_id name)
                  ∙ steps-IsApart b c d (dmap_key part_id name) (λ h. dmap_key-apart h part_id name)
                      m first (λ f. refl) (b.read d (dmap_key part_id name)))
              ∙ mirror.stored;
          bounded = mirror.bounded;
          agrees = λ h hb n.
              subst (λ f. Agrees f (lookup h mirror.hkeys) (c h))
                (sym (
                  read (bkey h)
                  ∙ (steps-IsKept b c d h hb m first log n).writes (b.read d (bkey h))))
                (mirror.agrees h hb n);
        }

    last-Staged : (h : ℕ) → h < 2 ^ 64 → Staged b c d last h
    unfolding last first Staged
    last-Staged h hb = elim (Option-cases (lookup h m)) [
      | inl n ↦
          kept-Staged b c d first last h (steps-IsKept b c d h hb m first log n)
            (λ _. mirror.agrees h hb n)
      | inr (op, q) ↦ logged-Staged b c d h hb m first log (λ n. ground arith)
    ]

    -- The entries and the set of keys are written.
    saved-IsMirror :
        (o : OpLog) (data' : List ℕ)
        → keys.marshal last.hkeys ≡ some data'
        → (flushed b d o last.failed (set (dmap_key part_id name) data' ∷ last.writes)).err ≡ none
        → IsMirror
            (flushed b d o last.failed (set (dmap_key part_id name) data' ∷ last.writes)).db
            c
            last.failed
    unfolding flushed Staged decoded last first or_empty
    saved-IsMirror o data' q e =
        let ws = set (dmap_key part_id name) data' ∷ last.writes in
        let read = λ (k : List ℕ). law.flushed d ws k (done_of (b.flush d ws).1 e) in
        record {
          hkeys = last.hkeys;
          stored =
              ap (λ f. or_empty (decoded keys f)) (read (dmap_key part_id name) ∙ here)
              ∙ ap or_empty (ap opened (lossless last.hkeys data' q));
          bounded = steps-IsBounded b c d m first log mirror.bounded;
          agrees = λ h hb n.
              subst (λ f. Agrees f (lookup h last.hkeys) (c h))
                (sym (read (bkey h) ∙ rw (apart h) refl)) (last-Staged h hb n);
        }
      where
        opened : Option KeySet → Error ⊎ KeySet
        opened o = elim o [ some a ↦ inr a | none ↦ inl Error.malformed ]

        here :
            replay
              (set (dmap_key part_id name) data' ∷ last.writes)
              (dmap_key part_id name)
              (b.read d (dmap_key part_id name))
            ≡ value data'
        here = rw (text_beq_refl (dmap_key part_id name)) refl

        apart : (h : ℕ) → text_beq (dmap_key part_id name) (bkey h) ≡ false
        apart h = elim (Bool-cases (text_beq (dmap_key part_id name) (bkey h))) [
          | inl e ↦ absurd (
              ground (
                arith,
                dmap_key-apart h part_id name,
                text_beq_refl (bkey h),
                (text_beq_iff (dmap_key part_id name) (bkey h)).0 e,
              ))
          | inr e ↦ e
        ]

    save_hkeys-IsMirror :
        (o : OpLog)
        → (save_hkeys b keys d part_id name o m last).err ≡ none
        → IsMirror
            (save_hkeys b keys d part_id name o m last).db
            c
            (save_hkeys b keys d part_id name o m last).failed
    unfolding save_hkeys flushed
    save_hkeys-IsMirror o = elim (Option-cases (keys.marshal last.hkeys)) [
      | inl q ↦ rw (q, save_hkeys) (flushed-IsMirror o)
      | inr (data', q) ↦
          elim (Bool-cases (b.accepts d last.writes (set (dmap_key part_id name) data'))) [
            | inl a ↦ rw (q, save_hkeys, a) (saved-IsMirror o data' q)
            | inr a ↦ rw (q, save_hkeys, a) (flushed-IsMirror o)
          ]
    ]

    -- What goes back to the log is named by it again.
    narrowed : (r : Synced D) → IsMirror r.db c r.failed → IsMirror r.db c (readd r.failed r.log.m)
    narrowed r w = record {
      hkeys = w.hkeys;
      stored = w.stored;
      bounded = w.bounded;
      agrees = λ h hb n. w.agrees h hb (readd-none h r.failed r.log.m n).0;
    }

    -- `syncDMap` on the disk and the log of a DMap whose storage has the content `c`, where the
    -- logged keys are 64-bit and each operation says whether the storage has the key, with a
    -- database that makes the writes that it reports as made and a serializer that gives back what
    -- it was given: where the disk has that content except for the logged keys, the call returns,
    -- and unless it returns an error, the disk that it leaves has that content except for the keys
    -- that are in the log after what failed is added again.
    pub sync_dmap-IsMirror :
        (str : Storage)
        → Reads str c
        → (r : Synced D) × (sync_dmap b keys d part_id name (record { m = m; str = str }) ≡ ok r)
          × (r.err ≡ none → IsMirror r.db c (readd r.failed r.log.m))
    unfolding sync_read idle last first readd
    sync_dmap-IsMirror str r = elim (sync_dmap-cases d m str) [
      | inl q ↦ (idle d (record { m = m; str = str }), q, λ _. mirror)
      | inr q ↦ (
        save_hkeys b keys d part_id name (record { m = []; str = str }) m last,
        q
            ∙ ap (sync_read b keys d part_id name (record { m = m; str = str })) mirror.stored
            ∙ rw (sync_keys-steps b c d str r m first) refl,
        λ e.
            narrowed (save_hkeys b keys d part_id name (record { m = []; str = str }) m last)
              (save_hkeys-IsMirror (record { m = []; str = str }) e),
      )
    ]

  -- Where Badger takes every write of the batch and then fails to flush it.
  module _ (d : D) (accepts : (ws : List Write) (w : Write) → b.accepts d ws w ≡ true)
      (refuses : (ws : List Write) → b.flush d ws ≡ (d, false))
      (marshals : (hs : KeySet) → (data' : List ℕ) × (keys.marshal hs ≡ some data')) where
    stage_accepted :
        (acc : Batch) (k : ℕ) (op : LogOp) (w : Write) (hs : KeySet)
        → (stage b d acc k op w hs).failed ≡ acc.failed
    unfolding stage
    stage_accepted acc k op w hs = rw (accepts acc.writes w) refl

    steps_accepted :
        (c : ℕ → Option (List ℕ)) (m : Dict ℕ LogOp) (acc : Batch)
        → (steps b c d acc m).failed ≡ acc.failed
    unfolding steps step
    steps_accepted c [] acc = refl
    steps_accepted c ((k, log_delete) ∷ m) acc = steps_accepted c m _ ∙ stage_accepted acc k _ _ _
    steps_accepted c ((k, log_put) ∷ m) acc = elim (Option-cases (c k)) [
      | inl q ↦ rw (q, step, steps) (steps_accepted c m acc)
      | inr (raw, q) ↦ rw (q, step, steps) (steps_accepted c m _ ∙ stage_accepted acc k _ _ _)
    ]

    save_hkeys_refused :
        (o : OpLog) (m : Dict ℕ LogOp) (acc : Batch)
        → save_hkeys b keys d part_id name o m acc
          ≡ record { db = d; log = o; failed = acc.failed; err = some Error.database }
    unfolding save_hkeys flushed
    save_hkeys_refused o m acc =
        let (data', q) = marshals acc.hkeys in
        rw
          (
            q,
            save_hkeys,
            accepts acc.writes (set (dmap_key part_id name) data'),
            refuses (set (dmap_key part_id name) data' ∷ acc.writes),
          )
          refl

    -- Where Badger takes every write of the batch and then fails to flush it, and the set of keys
    -- is read and can be serialized, `syncDMap` on a log with an operation returns the error, and
    -- neither the log nor the keys that it gives back name an operation any longer.
    pub sync_dmap-lost :
        (str : Storage) (c : ℕ → Option (List ℕ)) (e : ℕ × LogOp) (m : Dict ℕ LogOp) (hs : KeySet)
        → Reads str c
        → or_empty (decoded keys (b.read d (dmap_key part_id name))) ≡ inr hs
        → sync_dmap b keys d part_id name (record { m = e ∷ m; str = str })
          ≡ ok (record {
            db = d;
            log = record { m = []; str = str };
            failed = [];
            err = some Error.database;
          })
    unfolding sync_dmap sync_read
    sync_dmap-lost str c e m hs r stored =
        let first : Batch = record { writes = []; hkeys = hs; failed = [] } in
        let o : OpLog = record { m = []; str = str } in
        ap (sync_read b keys d part_id name (record { m = e ∷ m; str = str })) stored
        ∙ rw (sync_keys-steps b c d str r (e ∷ m) first) (
            ap ok (
              save_hkeys_refused o (e ∷ m) (steps b c d first (e ∷ m))
              ∙ rw (steps_accepted c (e ∷ m) first) refl))
