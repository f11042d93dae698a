-- ===== src/Storage/Store/Retry.antt =====
-- The loop that `Put` and `PutRaw` share: it ends within two turns where the entry has room.
use native.Mathlib.Omega.{arith}
use olricdb.Prelude.{
  ℕ, suc, ◌+◌, ◌*◌, ◌<◌, ◌≤◌, ◌≡◌, refl, ap, ◌∙◌, Bool, true, none, some, List, ◌∷◌, All, ltb, ◌==◌,
  if◌then◌else◌, Outcome, ok, fails, nat_eq, inl, inr, Bool-cases, ◌⊎◌, ltb→lt,
}
use olricdb.Storage.Memory.{Error, not_enough_space}
use olricdb.Storage.Entry.{VData}
use olricdb.Storage.Table.{Table}
use olricdb.Storage.Table
use olricdb.Storage.Table.Invariant.{IsWellFormed}
use olricdb.Storage.Store.{Storage, scan, retry, get, after_attempt}
use olricdb.Storage.Store.Invariant.{
  IsSound, size_for, fresh_table, fresh_table-IsWellFormed, new_table_granted, scan-fresh_table,
}

abbrev pub Granted : (ℕ → Bool) → Type 0
Granted mmap = (n : ℕ) → mmap n ≡ true

-- `s'` maps `h` to `v`, and every other key as `s` does.
pub record IsUpdate (s s' : Storage) (h : ℕ) (v : VData) : Type 0 where
  pub sound : IsSound s'
  pub gets : (h' : ℕ) → get s' h' ≡ (if h == h' then ok v else get s h')

get_head :
    (t t' : Table) (ts : List Table) (m m' : Bool) (h h' : ℕ) (v : VData)
    → Table.get t' h' ≡ (if h == h' then ok (some v) else Table.get t h')
    → get (record { tables = t' ∷ ts; merging = m' }) h'
      ≡ (if h == h' then ok v else get (record { tables = t ∷ ts; merging = m }) h')
unfolding get scan
get_head t t' ts m m' h h' v e = elim (Bool-cases (h == h')) [
  | inl q ↦ let e' : Table.get t' h' ≡ ok (some v) = rw q at e in rw q (rw e' refl)
  | inr q ↦ let e' : Table.get t' h' ≡ Table.get t h' = rw q at e in rw q (rw e' refl)
]

get-fresh_table :
    (n : ℕ) (t : Table) (ts : List Table) (m m' : Bool) (h : ℕ)
    → get (record { tables = fresh_table n ∷ t ∷ ts; merging = m }) h
      ≡ get (record { tables = t ∷ ts; merging = m' }) h
unfolding get
get-fresh_table n t ts m m' h = rw (scan-fresh_table n h (t ∷ ts)) refl

-- `attempt` writes `need` bytes for the entry `v`.
module _ (mmap : ℕ → Bool) (h : ℕ) (v : VData) (attempt : Table → Outcome Error Table) (need : ℕ)
    (lands : (t : Table)
      → IsWellFormed t
      → need + t.offset < t.allocated
      → (t' : Table) × (attempt t ≡ ok t')
        × IsWellFormed t'
        × ((h' : ℕ) → Table.get t' h' ≡ (if h == h' then ok (some v) else Table.get t h')))
    (full : (t : Table) → t.allocated ≤ need + t.offset → attempt t ≡ fails not_enough_space) where
  -- One turn of the loop, where the last table has room.
  retry_now :
      (fuel : ℕ) (t : Table) (older : List Table) (m : Bool)
      → IsWellFormed t
      → All IsWellFormed older
      → need + t.offset < t.allocated
      → (s' : Storage) × (retry mmap attempt (suc fuel) (record { tables = t ∷ older; merging = m })
          ≡ ok (s', none))
        × IsUpdate (record { tables = t ∷ older; merging = m }) s' h v
  unfolding retry
  retry_now fuel t older m w ws fits =
      let (t', q, w', gets) = lands t w fits in
      (
        record { tables = t' ∷ older; merging = m },
        rw q refl,
        record {
          sound = record { nonempty = tt; tables = (w', ws) };
          gets = λ h'. get_head t t' older m m h h' v (gets h');
        },
      )

  -- One turn where it has none.
  retry_later :
      (fuel : ℕ) (t : Table) (older : List Table) (m : Bool)
      → Granted mmap
      → t.allocated ≤ need + t.offset
      → retry mmap attempt (suc fuel) (record { tables = t ∷ older; merging = m })
        ≡ retry mmap attempt fuel
            (record { tables = fresh_table (t.inuse * 2) ∷ t ∷ older; merging = true })
  unfolding retry
  retry_later fuel t older m grant no_room =
      rw (full t no_room) (rw (new_table_granted mmap (t.inuse * 2) (grant _), after_attempt) refl)

  -- An entry that fits the last table or the table that the loop makes next is written.
  pub retry_room :
      (t : Table) (older : List Table) (m : Bool) (fuel : ℕ)
      → Granted mmap
      → IsSound (record { tables = t ∷ older; merging = m })
      → (need + t.offset < t.allocated) ⊎ (need < size_for (t.inuse * 2))
      → (s' : Storage) × (retry mmap attempt
            (suc (suc fuel))
            (record { tables = t ∷ older; merging = m })
          ≡ ok (s', none))
        × IsUpdate (record { tables = t ∷ older; merging = m }) s' h v
  retry_room t older m fuel grant w (inl fits) =
      retry_now (suc fuel) t older m w.tables.0 w.tables.1 fits
  retry_room t older m fuel grant w (inr fits) =
      elim (Bool-cases (ltb (need + t.offset) t.allocated)) [
        | inl fits' ↦ retry_now (suc fuel) t older m w.tables.0 w.tables.1 (ltb→lt _ _ fits')
        | inr no_room ↦
            let (s', q, u) =
              retry_now fuel (fresh_table (t.inuse * 2)) (t ∷ older) true
                (fresh_table-IsWellFormed (t.inuse * 2)) w.tables (omega (arith, fits)) in
            (
              s',
              retry_later (suc fuel) t older m grant (ground arith) ∙ q,
              record {
                sound = u.sound;
                gets = λ h'.
                    u.gets h'
                    ∙ ap (λ (x : Outcome Error VData). if h == h' then ok v else x)
                        (get-fresh_table (t.inuse * 2) t older true m h');
              },
            )
      ]
