-- ===== src/Storage/Store/Delete.antt =====
-- `Delete` on a sound storage: only the newest version of the key goes.
use olricdb.Prelude.{
  ℕ, ◌*◌, ◌≡◌, refl, sym, ap, ◌∙◌, Bool, true, false, Option, none, some, List, [], ◌∷◌, All, ltb,
  ◌==◌, if◌then◌else◌, Outcome, ok, fails, ◌>>=◌, nat_eq, Option-cases, inl, inr, Bool-cases, ◌⊎◌,
  ==_refl,
}
use olricdb.Prelude.Dict.{lookup}
use olricdb.Storage.Memory.{Error, key_not_found, mmap_failed}
use olricdb.Storage.Entry.{VData, size}
use olricdb.Storage.Table.{Table, minimum_size, new_table}
use olricdb.Storage.Table
use olricdb.Storage.Table.Invariant.{IsWellFormed}
use olricdb.Storage.Table.Lookup.{
  delete-none, delete-some, dropped, dropped-IsWellFormed, get-dropped, get-none, get-present,
  Stored-at,
}
use olricdb.Storage.Store.{
  Storage, Written, scan, or_not_found, get, delete, delete_scan, after_delete, compact,
  is_wasteful,
}
use olricdb.Storage.Store
use olricdb.Storage.Store.Invariant.{
  NonEmpty, IsSound, content, size_for, fresh_table, fresh_table-IsWellFormed, new_table_granted,
  new_table_refused, scan-fresh_table,
}

pub content-cons :
    (h : ℕ) (t t' : Table) (ts ts' : List Table)
    → Table.get t' h ≡ Table.get t h
    → content h ts' ≡ content h ts
    → content h (t' ∷ ts') ≡ content h (t ∷ ts)
unfolding scan
content-cons h t t' ts ts' p q =
    λ i. p i >>= λ found. elim found [ some a ↦ ok (some a) | none ↦ q i ]

pub content-skip :
    (h : ℕ) (t : Table) (ts : List Table)
    → Table.get t h ≡ ok none
    → content h (t ∷ ts) ≡ content h ts
unfolding scan
content-skip h t ts e = rw e refl

-- At most one of the tables has the key: it has `o`, the others nothing.
abbrev pub Single : ℕ → Option VData → List Table → Type 0
Single h o [] = o ≡ none
Single h o (t ∷ ts) =
    ((Table.get t h ≡ ok o) × Single h none ts) ⊎ ((Table.get t h ≡ ok none) × Single h o ts)

pub content-Single :
    (h : ℕ) (o : Option VData) (ts : List Table) → Single h o ts → content h ts ≡ ok o
unfolding scan
content-Single h o [] s = rw s
content-Single h none (t ∷ ts) (inl (e, s)) = rw (e, content-Single h none ts s)
content-Single h (some v) (t ∷ ts) (inl (e, s)) = rw e
content-Single h o (t ∷ ts) (inr (e, s)) = rw (e, content-Single h o ts s)

-- What the tables behind the newest version of the key have under it.
abbrev pub older_content : ℕ → List Table → Outcome Error (Option VData)
older_content h [] = ok none
older_content h (t ∷ ts) = elim (lookup h t.hkeys) [
  | some _ ↦ content h ts
  | none ↦ older_content h ts
]

pub older_content-Single :
    (h : ℕ) (o : Option VData) (ts : List Table)
    → All IsWellFormed ts
    → Single h o ts
    → older_content h ts ≡ ok none
older_content-Single h o [] w s = refl
older_content-Single h o (t ∷ ts) w (inl (e, s)) = elim (Option-cases (lookup h t.hkeys)) [
  | inl q ↦ rw (q, older_content) (older_content-Single h none ts w.1 s)
  | inr (i, q) ↦ rw (q, older_content) (content-Single h none ts s)
]
older_content-Single h o (t ∷ ts) w (inr (e, s)) = elim (Option-cases (lookup h t.hkeys)) [
  | inl q ↦ rw (q, older_content) (older_content-Single h o ts w.1 s)
  | inr (i, q) ↦ let (v, found) = get-present t h i w.0 q in absurd (clash (sym found ∙ e))
]
  where
    clash : {v : VData} → ◌≡◌ {A = Outcome Error (Option VData)} (ok (some v)) (ok none) → ⊥
    clash p = cc

-- The tables after the scan of `Delete`.
pub record IsDeletion (h : ℕ) (ts ts' : List Table) : Type 0 where
  pub nonempty : NonEmpty ts → NonEmpty ts'
  pub sound : All IsWellFormed ts'
  pub gone : content h ts' ≡ older_content h ts
  pub kept : (h' : ℕ) → (h == h') ≡ false → content h' ts' ≡ content h' ts

pub delete_scan_lem :
    (h : ℕ) (ts : List Table)
    → All IsWellFormed ts
    → (ts' : List Table) × (delete_scan h ts ≡ ok ts') × IsDeletion h ts ts'
unfolding delete_scan
delete_scan_lem h [] w = (
  [],
  refl,
  record { nonempty = λ n. n; sound = tt; gone = unfold scan in refl; kept = λ h' q. refl },
)
delete_scan_lem h (t ∷ ts) w = elim (Option-cases (lookup h t.hkeys)) [
  | inl q ↦ skipped q (delete_scan_lem h ts w.1)
  | inr (o, q) ↦ hit o q
]
  where
    skipped :
        lookup h t.hkeys ≡ none
        → ((ts' : List Table) × (delete_scan h ts ≡ ok ts') × IsDeletion h ts ts')
        → (ts' : List Table) × (delete_scan h (t ∷ ts) ≡ ok ts') × IsDeletion h (t ∷ ts) ts'
    skipped q (ts', e, d) = (
      t ∷ ts',
      rw (delete-none t h q) (rw e refl),
      record {
        nonempty = λ n. tt;
        sound = (w.0, d.sound);
        gone = content-skip h t ts' (get-none t h q) ∙ rw (q, older_content) d.gone;
        kept = λ h' n. content-cons h' t t ts ts' refl (d.kept h' n);
      },
    )

    hit :
        (o : ℕ)
        → lookup h t.hkeys ≡ some o
        → (ts' : List Table) × (delete_scan h (t ∷ ts) ≡ ok ts') × IsDeletion h (t ∷ ts) ts'
    hit o q =
        let s = Stored-at t h o w.0 q in
        let t' = dropped t h (size s.entry) in
        (
          t' ∷ ts,
          rw (delete-some t h o w.0 q s) refl,
          record {
            nonempty = λ n. tt;
            sound = (dropped-IsWellFormed t h o w.0 q s, w.1);
            gone =
                content-skip h t' ts (get-dropped t h h (size s.entry) w.0 ∙ rw (==_refl h) refl)
                ∙ rw (q, older_content) refl;
            kept = λ h' n.
                content-cons h' t t' ts ts (get-dropped t h h' (size s.entry) w.0 ∙ rw n refl) refl;
          },
        )

-- What `Delete` leaves: the key has what its older tables say, every other key what it had.
pub record IsRemoval (s s' : Storage) (h : ℕ) : Type 0 where
  pub sound : IsSound s'
  pub gone : get s' h ≡ (older_content h s.tables >>= or_not_found)
  pub kept : (h' : ℕ) → (h == h') ≡ false → get s' h' ≡ get s h'

nonempty_step :
    {A : Type 0} (ts : List Table) → NonEmpty ts → (k : Outcome Error A) → Store.nonempty ts k ≡ k
unfolding Store.nonempty
nonempty_step [] n k = absurd n
nonempty_step (t ∷ ts) n k = refl

pub get-content :
    (s : Storage) (h : ℕ) → NonEmpty s.tables → get s h ≡ (content h s.tables >>= or_not_found)
unfolding get
get-content s h n = nonempty_step s.tables n _

removal :
    (s : Storage) (m : Bool) (ts' : List Table) (h : ℕ)
    → IsSound s
    → IsDeletion h s.tables ts'
    → IsRemoval s (record { tables = ts'; merging = m }) h
removal s m ts' h w d = record {
  sound = record { nonempty = d.nonempty w.nonempty; tables = d.sound };
  gone =
      get-content (record { tables = ts'; merging = m }) h (d.nonempty w.nonempty)
      ∙ ap (λ c. c >>= or_not_found) d.gone;
  kept = λ h' n.
      get-content (record { tables = ts'; merging = m }) h' (d.nonempty w.nonempty)
      ∙ ap (λ c. c >>= or_not_found) (d.kept h' n)
      ∙ sym (get-content s h' w.nonempty);
}

-- The new table of the garbage check changes no lookup.
IsRemoval-grown :
    (s : Storage) (n : ℕ) (m m' : Bool) (ts' : List Table) (h : ℕ)
    → IsSound s
    → IsRemoval s (record { tables = ts'; merging = m }) h
    → IsRemoval s (record { tables = fresh_table n ∷ ts'; merging = m' }) h
IsRemoval-grown s n m m' ts' h w r = record {
  sound = record { nonempty = tt; tables = (fresh_table-IsWellFormed n, r.sound.tables) };
  gone = same h ∙ r.gone;
  kept = λ h' ne. same h' ∙ r.kept h' ne;
}
  where
    same :
        (k : ℕ)
        → get (record { tables = fresh_table n ∷ ts'; merging = m' }) k
          ≡ get (record { tables = ts'; merging = m }) k
    same k =
        get-content (record { tables = fresh_table n ∷ ts'; merging = m' }) k tt
        ∙ ap (λ c. c >>= or_not_found) (scan-fresh_table n k ts')
        ∙ sym (get-content (record { tables = ts'; merging = m }) k r.sound.nonempty)

abbrev pub Removed : Storage → ℕ → Outcome Error Written → Type 0
Removed s h o = (s' : Storage) × (e : Option Error) × (o ≡ ok (s', e)) × IsRemoval s s' h

after_delete_lem :
    (mmap : ℕ → Bool) (s : Storage) (m : Bool) (ts' : List Table) (h : ℕ)
    → IsSound s
    → IsRemoval s (record { tables = ts'; merging = m }) h
    → Removed s h (after_delete mmap (record { tables = ts'; merging = m }) ts')
unfolding after_delete compact
after_delete_lem mmap s m [] h w r = absurd r.sound.nonempty
after_delete_lem mmap s m (t ∷ u ∷ ts) h w r = (_, none, refl, r)
after_delete_lem mmap s true (t ∷ []) h w r = elim (Bool-cases (is_wasteful t)) [
  | inl wasteful ↦ (_, none, rw wasteful refl, r)
  | inr fine ↦ (_, none, rw fine refl, r)
]
after_delete_lem mmap s false (t ∷ []) h w r = elim (Bool-cases (is_wasteful t)) [
  | inr fine ↦ (_, none, rw fine refl, r)
  | inl wasteful ↦ elim (Bool-cases (mmap (size_for wanted))) [
    | inl granted ↦ (
      _,
      none,
      rw wasteful (rw (new_table_granted mmap wanted granted) refl),
      IsRemoval-grown s wanted false true (t ∷ []) h w r,
    )
    | inr refused ↦
        (_, some mmap_failed, rw wasteful (rw (new_table_refused mmap wanted refused) refl), r)
  ]
]
  where
    wanted : ℕ
    wanted = if ltb t.allocated (t.inuse * 2) then t.allocated else t.inuse * 2

-- `Delete` on a sound storage always returns. Afterwards the storage is sound, `Get` of the key
-- gives what the tables older than the newest one with the key have, and `Get` of every other key
-- gives what it gave before.
pub delete_lem : (mmap : ℕ → Bool) (s : Storage) (h : ℕ) → IsSound s → Removed s h (delete mmap s h)
unfolding delete
delete_lem mmap s h w =
    let (ts', e, d) = delete_scan_lem h s.tables w.tables in
    let (s', err, q, r) =
      after_delete_lem mmap s s.merging ts' h w (removal s s.merging ts' h w d) in
    (s', err, nonempty_step s.tables w.nonempty _ ∙ rw e q, r)

-- On a sound storage where one table at most has the key, `Delete` returns and leaves a sound
-- storage in which `Get` does not find the key.
pub get-delete-Single :
    (mmap : ℕ → Bool) (s : Storage) (h : ℕ) (o : Option VData)
    → IsSound s
    → Single h o s.tables
    → (s' : Storage) × (e : Option Error) × (delete mmap s h ≡ ok (s', e))
      × IsSound s'
      × (get s' h ≡ fails key_not_found)
get-delete-Single mmap s h o w single =
    let (s', e, q, r) = delete_lem mmap s h w in
    (
      s',
      e,
      q,
      r.sound,
      r.gone
          ∙ ap (λ c. c >>= or_not_found) (older_content-Single h o s.tables w.tables single)
          ∙ (unfold or_not_found in refl),
    )

-- On a sound storage whose last table has the key and whose last but one has a value under it too,
-- `Delete` of the key returns, and `Get` then gives the value of the last but one.
pub get-delete_stale :
    (mmap : ℕ → Bool) (t u : Table) (ts : List Table) (m : Bool) (h o : ℕ) (v : VData)
    → IsSound (record { tables = t ∷ u ∷ ts; merging = m })
    → lookup h t.hkeys ≡ some o
    → Table.get u h ≡ ok (some v)
    → (s' : Storage) × (e : Option Error) × (delete mmap
          (record { tables = t ∷ u ∷ ts; merging = m })
          h
        ≡ ok (s', e))
      × (get s' h ≡ ok v)
get-delete_stale mmap t u ts m h o v w new old =
    let (s', e, q, r) = delete_lem mmap (record { tables = t ∷ u ∷ ts; merging = m }) h w in
    (s', e, q, r.gone ∙ rw (new, older_content) (unfold scan or_not_found in rw old refl))
