-- ===== src/Storage/Merge/Chunk.antt =====
-- A chunk of the merge keeps the storage sound and, where no key is in two tables, every lookup.
use mathlib.Core.List.{reverse-cons}
use native.Mathlib.Omega.{arith}
use olricdb.Prelude.{
  ℕ, ◌+◌, ◌*◌, ◌≤◌, ◌≡◌, refl, sym, ap, ◌∙◌, Bool, true, false, Option, none, List, [], ◌∷◌, ◌++◌,
  length, All, reverse, ok, ◌>>=◌, nat_eq, inl, inr, Bool-cases, ◌⊎◌, subst,
}
use olricdb.Storage.Entry.{VData}
use olricdb.Storage.Table.{Table}
use olricdb.Storage.Table
use olricdb.Storage.Table.Invariant.{IsWellFormed}
use olricdb.Storage.Table.Lookup.{get-none}
use olricdb.Storage.Store.{Storage, get, or_not_found, total_keys}
use olricdb.Storage.Store.Invariant.{
  NonEmpty, IsSound, size_for, fresh_table, fresh_table-IsWellFormed, get-fresh_table,
  new_table_granted, new_table_refused,
}
use olricdb.Storage.Store.Delete.{Single, content-Single, get-content}
use olricdb.Storage.Merge.{
  Progress, done, full, paused, Merging, Merged, keys, keep_front, merge_keys, merge_olds,
  keep_used, finish_chunk, chunk, chunked_merge_tables,
}
use olricdb.Storage.Merge.Keys.{Split, IsKeysMerged, merge_keys_lem}

module _ (k : ℕ) where
  Single-swap :
      (o : Option VData) (a b : Table) (ts : List Table)
      → Single k o (a ∷ b ∷ ts)
      → Single k o (b ∷ a ∷ ts)
  Single-swap o a b ts (inl (x, inl (y, s))) = inr (y, inl (x, s))
  Single-swap o a b ts (inl (x, inr (y, s))) = inr (y, inl (x, s))
  Single-swap o a b ts (inr (x, inl (y, s))) = inl (y, inl (x, s))
  Single-swap o a b ts (inr (x, inr (y, s))) = inr (y, inr (x, s))

  Single-tail :
      (o : Option VData) (a : Table) (ts us : List Table)
      → ((p : Option VData) → Single k p ts → Single k p us)
      → Single k o (a ∷ ts)
      → Single k o (a ∷ us)
  Single-tail o a ts us f (inl (x, s)) = inl (x, f none s)
  Single-tail o a ts us f (inr (x, s)) = inr (x, f o s)

  Single-snoc :
      (o : Option VData) (a : Table) (ts : List Table)
      → Single k o (a ∷ ts)
      → Single k o (ts ++ (a ∷ []))
  Single-snoc o a [] s = s
  Single-snoc o a (t ∷ ts) s =
      Single-tail o t (a ∷ ts) (ts ++ (a ∷ [])) (λ p. Single-snoc p a ts) (Single-swap o a t ts s)

  Single-reverse : (o : Option VData) (ts : List Table) → Single k o ts → Single k o (reverse ts)
  Single-reverse o [] s = s
  Single-reverse o (t ∷ ts) s =
      subst (Single k o) (sym (reverse-cons t ts)) (
        Single-snoc o t (reverse ts) (Single-tail o t ts (reverse ts) (λ p. Single-reverse p ts) s))

  -- The first two tables of a row may be replaced by a pair that splits the key in the same way.
  Single-split :
      (o : Option VData) (a b a' b' : Table) (ts : List Table)
      → ((p : Option VData) → Split k p a b → Split k p a' b')
      → Single k o (a ∷ b ∷ ts)
      → Single k o (a' ∷ b' ∷ ts)
  Single-split o a b a' b' ts f (inl (x, inl (y, s))) = put (f o (inl (x, y))) s
    where
      put : Split k o a' b' → Single k none ts → Single k o (a' ∷ b' ∷ ts)
      put (inl (u, v)) s = inl (u, inl (v, s))
      put (inr (u, v)) s = inr (u, inl (v, s))
  Single-split o a b a' b' ts f (inl (x, inr (y, s))) = put (f o (inl (x, y))) s
    where
      put : Split k o a' b' → Single k none ts → Single k o (a' ∷ b' ∷ ts)
      put (inl (u, v)) s = inl (u, inl (v, s))
      put (inr (u, v)) s = inr (u, inl (v, s))
  Single-split o a b a' b' ts f (inr (x, inl (y, s))) = put (f o (inr (x, y))) s
    where
      put : Split k o a' b' → Single k none ts → Single k o (a' ∷ b' ∷ ts)
      put (inl (u, v)) s = inl (u, inl (v, s))
      put (inr (u, v)) s = inr (u, inl (v, s))
  Single-split o a b a' b' ts f (inr (x, inr (y, s))) = put (f none (inl (x, y)))
    where
      put : Split k none a' b' → Single k o (a' ∷ b' ∷ ts)
      put (inl (u, v)) = inr (u, inr (v, s))
      put (inr (u, v)) = inr (u, inr (v, s))

All-snoc :
    {A : Type 0} (P : A → Type 0) (a : A) (xs : List A) → P a → All P xs → All P (xs ++ (a ∷ []))
All-snoc P a [] p h = (p, tt)
All-snoc P a (x ∷ xs) p h = (h.0, All-snoc P a xs p h.1)

All-reverse : {A : Type 0} (P : A → Type 0) (xs : List A) → All P xs → All P (reverse xs)
All-reverse P [] h = tt
All-reverse P (x ∷ xs) h =
    subst (All P) (sym (reverse-cons x xs)) (All-snoc P x (reverse xs) h.0 (All-reverse P xs h.1))

abbrev IsEmpty : Table → Type 0
IsEmpty t = t.hkeys ≡ []

-- The tables after the outer loop.
pub record IsOldsMerged (fresh : Table) (olds : List Table) (total : ℕ) (m : Merged) : Type 0 where
  pub fresh_sound : IsWellFormed m.fresh
  pub olds_sound : All IsWellFormed m.olds
  pub emptied : m.progress ≡ done → All IsEmpty m.olds
  pub moved : total_keys m.olds ≤ total_keys olds
  pub long : m.progress ≡ paused → total_keys m.olds + 1001 ≤ total_keys olds + total
  pub single :
      (k : ℕ) (o : Option VData) → Single k o (fresh ∷ olds) → Single k o (m.fresh ∷ m.olds)

abbrev OldsRun : List Table → Table → ℕ → Type 0
OldsRun olds fresh total =
    (m : Merged) × (merge_olds olds fresh total ≡ ok m) × IsOldsMerged fresh olds total m

Progress-cases : (p : Progress) → (p ≡ done) ⊎ ((p ≡ full) ⊎ (p ≡ paused))
Progress-cases done = inl refl
Progress-cases full = inr (inl refl)
Progress-cases paused = inr (inr refl)

-- The outer loop after the keys of one old table.
module _ (t : Table) (ts : List Table) (fresh : Table) (total : ℕ) (ws : All IsWellFormed ts)
    (m : Merging) (e : merge_keys (keys t) fresh t total ≡ ok m)
    (k : IsKeysMerged fresh t total m) where
  Single-here :
      (j : ℕ) (o : Option VData) → Single j o (fresh ∷ t ∷ ts) → Single j o (m.fresh ∷ m.old ∷ ts)
  Single-here j o = Single-split j o fresh t m.fresh m.old ts (λ p. k.split j p)

  stop : (m.progress ≡ full) ⊎ (m.progress ≡ paused) → OldsRun (t ∷ ts) fresh total
  unfolding merge_olds total_keys
  stop (inl q) = (
    record { fresh = m.fresh; olds = m.old ∷ ts; progress = full },
    rw e (rw q refl),
    record {
      fresh_sound = k.fresh_sound;
      olds_sound = (k.old_sound, ws);
      emptied = λ d. cc;
      moved = omega (arith, k.counted, k.grows);
      long = λ d. cc;
      single = Single-here;
    },
  )
  stop (inr q) = (
    record { fresh = m.fresh; olds = m.old ∷ ts; progress = paused },
    rw e (rw q refl),
    record {
      fresh_sound = k.fresh_sound;
      olds_sound = (k.old_sound, ws);
      emptied = λ d. cc;
      moved = omega (arith, k.counted, k.grows);
      long = λ d. omega (arith, k.counted, k.long q);
      single = Single-here;
    },
  )

  go_on : m.progress ≡ done → OldsRun ts m.fresh m.total → OldsRun (t ∷ ts) fresh total
  unfolding merge_olds total_keys
  go_on q (r, er, w) = (
    keep_front m.old r,
    rw e (rw q (rw er refl)),
    record {
      fresh_sound = w.fresh_sound;
      olds_sound = (k.old_sound, w.olds_sound);
      emptied = λ d. (k.emptied q, w.emptied d);
      moved = omega (arith, k.counted, k.grows, w.moved);
      long = λ d. omega (arith, k.counted, w.long d);
      single = λ j o s. Single-swap j o m.old r.fresh r.olds (
          Single-tail j o m.old (m.fresh ∷ ts) (r.fresh ∷ r.olds) (λ p. w.single j p)
            (Single-swap j o m.fresh m.old ts (Single-here j o s)));
    },
  )

-- The outer loop always comes to a result, and no lookup is lost or changed by it where one table
-- at most has the key.
merge_olds_lem :
    (olds : List Table) (fresh : Table) (total : ℕ)
    → IsWellFormed fresh
    → All IsWellFormed olds
    → OldsRun olds fresh total
unfolding merge_olds total_keys
merge_olds_lem [] fresh total wf wo = (
  record { fresh = fresh; olds = []; progress = done },
  refl,
  record {
    fresh_sound = wf;
    olds_sound = tt;
    emptied = λ d. tt;
    moved = omega arith;
    long = λ d. cc;
    single = λ k o s. s;
  },
)
merge_olds_lem (t ∷ ts) fresh total wf wo =
    let (m, e, k) = merge_keys_lem t.hkeys fresh t total wf wo.0 refl in
    elim (Progress-cases m.progress) [
      | inl q ↦
          go_on t ts fresh total wo.1 m e k q (merge_olds_lem ts m.fresh m.total k.fresh_sound wo.1)
      | inr q ↦ stop t ts fresh total wo.1 m e k q
    ]

keep_used-IsEmpty : (ts : List Table) → All IsEmpty ts → keep_used ts ≡ []
unfolding keep_used
keep_used-IsEmpty [] h = refl
keep_used-IsEmpty (t ∷ ts) h = rw h.0 (keep_used-IsEmpty ts h.1)

Single-IsEmpty :
    (k : ℕ) (o : Option VData) (a : Table) (ts : List Table)
    → All IsEmpty ts
    → Single k o (a ∷ ts)
    → Single k o (a ∷ [])
Single-IsEmpty k o a [] h s = s
Single-IsEmpty k o a (t ∷ ts) h s = Single-IsEmpty k o a ts h.1 (without (Single-swap k o a t ts s))
  where
    nothing : Table.get t k ≡ ok none
    nothing = get-none t k (rw h.0 refl)

    same : (p : Option VData) → Table.get t k ≡ ok p → p ≡ none
    same p e = cc nothing

    without : Single k o (t ∷ a ∷ ts) → Single k o (a ∷ ts)
    without (inl (e, s)) = rw (same o e) s
    without (inr (e, s)) = s

-- What a chunk does to the storage: it stays sound, and a key of one table at most stays one.
pub record IsChunk (s s' : Storage) (over : Bool) : Type 0 where
  pub sound : IsSound s'
  pub single : (k : ℕ) (o : Option VData) → Single k o s.tables → Single k o s'.tables
  pub merged : over ≡ true → length s'.tables ≡ 1

module _ (mmap : ℕ → Bool) (s : Storage) (fresh : Table) (olds : List Table) (m : Merged)
    (q : s.tables ≡ fresh ∷ olds) (w : IsOldsMerged fresh (reverse olds) 0 m) where
  Single-slice : (k : ℕ) (o : Option VData) → Single k o s.tables → Single k o (m.fresh ∷ m.olds)
  Single-slice k o h = w.single k o (
      Single-tail k o fresh olds (reverse olds) (λ p. Single-reverse k p olds)
        (subst (Single k o) q h))

  Single-back :
      (k : ℕ) (o : Option VData) → Single k o s.tables → Single k o (m.fresh ∷ reverse m.olds)
  Single-back k o h =
      Single-tail k o m.fresh m.olds (reverse m.olds) (λ p. Single-reverse k p m.olds)
        (Single-slice k o h)

  back_sound : All IsWellFormed (m.fresh ∷ reverse m.olds)
  back_sound = (w.fresh_sound, All-reverse IsWellFormed m.olds w.olds_sound)

  finish_chunk_lem :
      (s' : Storage) × (over : Bool) × (finish_chunk mmap s m ≡ ok (s', over)) × IsChunk s s' over
  unfolding finish_chunk
  finish_chunk_lem = elim (Progress-cases m.progress) [
    | inl p ↦ (
      record s { tables = reverse (m.fresh ∷ keep_used m.olds) },
      true,
      rw p refl,
      record {
        sound = record {
          nonempty = rw (keep_used-IsEmpty m.olds (w.emptied p)) tt;
          tables = rw (keep_used-IsEmpty m.olds (w.emptied p)) (w.fresh_sound, tt);
        };
        single = λ k o h.
            rw (keep_used-IsEmpty m.olds (w.emptied p))
              (Single-IsEmpty k o m.fresh m.olds (w.emptied p) (Single-slice k o h));
        merged = λ d. rw (keep_used-IsEmpty m.olds (w.emptied p)) refl;
      },
    )
    | inr (inr p) ↦ (
      record s { tables = m.fresh ∷ reverse m.olds },
      false,
      rw p refl,
      record {
        sound = record { nonempty = tt; tables = back_sound };
        single = Single-back;
        merged = λ d. cc;
      },
    )
    | inr (inl p) ↦ elim (Bool-cases (mmap (size_for (m.fresh.allocated * 2)))) [
      | inl granted ↦ (
        record s { tables = fresh_table (m.fresh.allocated * 2) ∷ m.fresh ∷ reverse m.olds },
        false,
        rw p (rw (new_table_granted mmap (m.fresh.allocated * 2) granted, finish_chunk) refl),
        record {
          sound = record {
            nonempty = tt;
            tables = (fresh_table-IsWellFormed (m.fresh.allocated * 2), back_sound);
          };
          single = λ k o h. inr (get-fresh_table (m.fresh.allocated * 2) k, Single-back k o h);
          merged = λ d. cc;
        },
      )
      | inr refused ↦ (
        record s { tables = m.fresh ∷ reverse m.olds },
        false,
        rw p (rw (new_table_refused mmap (m.fresh.allocated * 2) refused, finish_chunk) refl),
        record {
          sound = record { nonempty = tt; tables = back_sound };
          single = Single-back;
          merged = λ d. cc;
        },
      )
    ]
  ]

-- A chunk on a sound storage always comes to a result, and leaves the storage sound. If it says that
-- the merge is over, one table is left. A key that one table at most has, is in one at most after.
pub chunked_merge_tables_lem :
    (mmap : ℕ → Bool) (s : Storage)
    → IsSound s
    → (s' : Storage) × (over : Bool) × (chunked_merge_tables mmap s ≡ ok (s', over))
      × IsChunk s s' over
unfolding chunked_merge_tables chunk
chunked_merge_tables_lem mmap s w = by_tables s.tables refl
  where
    by_tables :
        (ts : List Table)
        → s.tables ≡ ts
        → (s' : Storage) × (over : Bool) × (chunk mmap s ts ≡ ok (s', over)) × IsChunk s s' over
    by_tables [] q = absurd (subst NonEmpty q w.nonempty)
    by_tables (t ∷ []) q = (
      s,
      true,
      refl,
      record { sound = w; single = λ k o h. h; merged = λ d. ap (λ (l : List Table). length l) q },
    )
    by_tables (fresh ∷ t ∷ ts) q =
        let ws : All IsWellFormed (fresh ∷ t ∷ ts) = subst (All IsWellFormed) q w.tables in
        let (m, e, r) =
          merge_olds_lem (reverse (t ∷ ts)) fresh 0 ws.0 (All-reverse IsWellFormed (t ∷ ts) ws.1) in
        let (s', over, f, c) = finish_chunk_lem mmap s fresh (t ∷ ts) m q r in (s', over, rw e f, c)

-- On a sound storage, for a key that one table at most has, a chunk of the merge returns, whatever
-- mappings the system grants. Afterwards the storage is sound, one table at most has the key, `Get`
-- of the key gives what it gave before, and one table is left if the chunk says that the merge is
-- over.
pub get-chunked_merge_tables :
    (mmap : ℕ → Bool) (s : Storage) (k : ℕ) (o : Option VData)
    → IsSound s
    → Single k o s.tables
    → (s' : Storage) × (over : Bool) × (chunked_merge_tables mmap s ≡ ok (s', over))
      × IsSound s'
      × Single k o s'.tables
      × (get s' k ≡ get s k)
      × (over ≡ true → length s'.tables ≡ 1)
get-chunked_merge_tables mmap s k o w single =
    let (s', over, e, c) = chunked_merge_tables_lem mmap s w in
    (
      s',
      over,
      e,
      c.sound,
      c.single k o single,
      get-content s' k c.sound.nonempty
          ∙ ap (λ r. r >>= or_not_found) (content-Single k o s'.tables (c.single k o single))
          ∙ sym (
              get-content s k w.nonempty
              ∙ ap (λ r. r >>= or_not_found) (content-Single k o s.tables single)),
      c.merged,
    )
