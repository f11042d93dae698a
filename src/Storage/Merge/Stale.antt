-- ===== src/Storage/Merge/Stale.antt =====
-- A key in two tables: the merge brings the older version back.
use olricdb.Prelude.{
  ℕ, ◌+◌, ◌<◌, ◌≡◌, refl, ap, ◌∙◌, Bool, true, some, [], ◌∷◌, map, if◌then◌else◌, ok, nat_eq, inl,
  inr, ==_refl,
}
use olricdb.Prelude.Dict.{Dict, lookup, erase}
use olricdb.Storage.Entry.{VData}
use olricdb.Storage.Table.{Table}
use olricdb.Storage.Table
use olricdb.Storage.Table.Invariant.{IsWellFormed}
use olricdb.Storage.Store.{Storage, get, scan, or_not_found}
use olricdb.Storage.Merge.{
  done, keys, move_key, after_move, merge_keys, merge_olds, keep_used, finish_chunk,
  chunked_merge_tables, chunk,
}
use olricdb.Storage.Merge.Keys.{Moved, IsMove, move_key_lem, move_key_room}

module _ (mmap : ℕ → Bool) (fresh old : Table) (m : Bool) (h p : ℕ) (v : VData)
    (wf : IsWellFormed fresh) (wo : IsWellFormed old) (only : old.hkeys ≡ (h, p) ∷ [])
    (stale : Table.get old h ≡ ok (some v))
    (room : old.offset + 1 + fresh.offset < fresh.allocated) where
  abbrev two : Storage
  two = record { tables = fresh ∷ old ∷ []; merging = m }

  Finished : Storage → Type 0
  Finished s' = chunked_merge_tables mmap two ≡ ok (s', true)

  one_key : merge_keys (keys old) fresh old 0 ≡ merge_keys (h ∷ []) fresh old 0
  one_key = ap (λ (hs : Dict ℕ ℕ). merge_keys (map (λ e. e.0) hs) fresh old 0) only

  run_done :
      (fresh' old' : Table)
      → move_key fresh old h ≡ ok (fresh', old')
      → merge_keys (h ∷ []) fresh old 0
        ≡ ok (record { fresh = fresh'; old = old'; total = 1; progress = done })
  unfolding merge_keys
  run_done fresh' old' q = rw (q, after_move) refl

  emptied : {fresh' old' : Table} → IsMove h fresh old fresh' old' → old'.hkeys ≡ []
  emptied mv = mv.index ∙ ap (erase h) only ∙ rw (==_refl h) refl

  taken :
      (fresh' old' : Table)
      → move_key fresh old h ≡ ok (fresh', old')
      → IsMove h fresh old fresh' old'
      → Finished (record { tables = fresh' ∷ []; merging = m })
  unfolding Finished chunked_merge_tables chunk merge_olds finish_chunk keep_used
  taken fresh' old' q mv = rw (one_key ∙ run_done fresh' old' q) (rw (emptied mv) refl)

  -- In a storage of two well-formed tables, the older with a single key and the last with room for
  -- all of the older, a chunk ends the merge, and afterwards `Get` of the key gives the value of
  -- the older table, whatever the last table had under it.
  pub get-chunked_merge_stale :
      (s' : Storage) × (chunked_merge_tables mmap two ≡ ok (s', true)) × (get s' h ≡ ok v)
  unfolding Finished get scan or_not_found
  get-chunked_merge_stale = by_move (move_key_lem h p fresh old wf wo here)
    where
      here : lookup h old.hkeys ≡ some p
      here = rw only (rw (==_refl h) refl)

      by_move :
          Moved h fresh old (move_key fresh old h)
          → (s' : Storage) × Finished s' × (get s' h ≡ ok v)
      by_move (inl q) = absurd (move_key_room h p fresh old wf wo here room q)
      by_move (inr (fresh', old', q, mv)) =
          let now : Table.get fresh' h ≡ ok (some v) =
            mv.received h
            ∙ ap (λ b. if b then Table.get old h else Table.get fresh h) (==_refl h)
            ∙ stale in
          (record { tables = fresh' ∷ []; merging = m }, taken fresh' old' q mv, rw now refl)
