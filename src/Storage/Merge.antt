-- ===== src/Storage/Merge.antt =====
-- internal/storage/merge.go: the entries of the older tables move to the last one, in chunks.
pub mod Keys
pub mod Chunk
pub mod Stale
use olricdb.Prelude.{
  ℕ, zero, suc, ◌+◌, ◌*◌, Bool, true, false, Option, none, some, List, [], ◌∷◌, ◌++◌, length, leb,
  ltb, ◌==◌, if◌then◌else◌, Outcome, ok, fails, panics, stuck, ◌>>=◌, nat_eq, reverse, map,
}
use olricdb.Storage.Memory.{Error}
use olricdb.Storage.Table.{Table, new_table}
use olricdb.Storage.Table
use olricdb.Storage.Store.{Storage}

-- How a run over the keys ends: by its end, by a full last table, or after 1000 keys.
pub data Progress : Type 0 where
  done full paused : Progress

-- `vdata, _ := old.getRaw(hkey)`
unfoldable pub raw_or_nil : Option (List ℕ) → List ℕ
raw_or_nil none = []
raw_or_nil (some raw) = raw

-- One turn of the inner loop: the last table, the old one, the key.
unfoldable pub move_key : Table → Table → ℕ → Outcome Error (Table × Table)
unfolding raw_or_nil
move_key fresh old hkey = do
  raw ← Table.get_raw old hkey
  fresh' ← Table.put_raw fresh hkey (raw_or_nil raw)
  (old', _) ← Table.delete old hkey
  ok (fresh', old')

pub record Merging : Type 0 where
  pub fresh : Table
  pub old : Table
  pub total : ℕ
  pub progress : Progress

-- What follows a move: `again` is the loop over the keys that are left.
unfoldable pub after_move :
    (Table → Table → ℕ → Outcome Error Merging)
    → Table
    → Table
    → ℕ
    → Outcome Error (Table × Table)
    → Outcome Error Merging
after_move again fresh old total (ok (fresh', old')) =
    if ltb 1000 (total + 1)
    then ok (record { fresh = fresh'; old = old'; total = total + 1; progress = paused })
    else again fresh' old' (total + 1)
after_move again fresh old total (fails e) =
    ok (record { fresh = fresh; old = old; total = total; progress = full })
after_move again fresh old total panics = panics
after_move again fresh old total stuck = stuck

pub merge_keys : List ℕ → Table → Table → ℕ → Outcome Error Merging
unfolding after_move
merge_keys [] fresh old total =
    ok (record { fresh = fresh; old = old; total = total; progress = done })
merge_keys (hkey ∷ rest) fresh old total =
    after_move (merge_keys rest) fresh old total (move_key fresh old hkey)

abbrev pub keys : Table → List ℕ
keys t = map (λ e. e.0) t.hkeys

pub record Merged : Type 0 where
  pub fresh : Table
  pub olds : List Table
  pub progress : Progress

abbrev pub keep_front : Table → Merged → Merged
keep_front t m = record m { olds = t ∷ m.olds }

-- The outer loop, over the older tables from the first.
pub merge_olds : List Table → Table → ℕ → Outcome Error Merged
merge_olds [] fresh total = ok (record { fresh = fresh; olds = []; progress = done })
merge_olds (t ∷ ts) fresh total = do
  m ← merge_keys (keys t) fresh t total
  elim m.progress [
    | done ↦ do rest ← merge_olds ts m.fresh m.total; ok (keep_front m.old rest)
    | full ↦ ok (record { fresh = m.fresh; olds = m.old ∷ ts; progress = full })
    | paused ↦ ok (record { fresh = m.fresh; olds = m.old ∷ ts; progress = paused })
  ]

-- The tables that still have a key.
unfoldable pub keep_used : List Table → List Table
keep_used [] = []
keep_used (t ∷ ts) = if length t.hkeys == 0 then keep_used ts else t ∷ keep_used ts

-- The end of a chunk. `tables` is the slice backwards, `m.olds` is in the slice's order.
unfoldable pub finish_chunk : (ℕ → Bool) → Storage → Merged → Outcome Error (Storage × Bool)
unfolding keep_used
finish_chunk mmap s m = elim m.progress [
  | full ↦ elim (new_table mmap (m.fresh.allocated * 2)) [
    | ok nt ↦ ok (record s { tables = nt ∷ m.fresh ∷ reverse m.olds }, false)
    | fails e ↦ ok (record s { tables = m.fresh ∷ reverse m.olds }, false)
    | panics ↦ panics
    | stuck ↦ stuck
  ]
  | paused ↦ ok (record s { tables = m.fresh ∷ reverse m.olds }, false)
  | done ↦ ok (record s { tables = reverse (m.fresh ∷ keep_used m.olds) }, true)
]

-- The storage after the chunk, and whether the merge is over.
unfoldable pub chunk : (ℕ → Bool) → Storage → List Table → Outcome Error (Storage × Bool)
unfolding finish_chunk
chunk mmap s [] = panics
chunk mmap s (t ∷ []) = ok (s, true)
chunk mmap s (fresh ∷ t ∷ ts) = do m ← merge_olds (reverse (t ∷ ts)) fresh 0; finish_chunk mmap s m

unfoldable pub chunked_merge_tables : (ℕ → Bool) → Storage → Outcome Error (Storage × Bool)
unfolding chunk
chunked_merge_tables mmap s = chunk mmap s s.tables

-- `mergeTables`: a chunk at each tick, until a chunk says that the merge is over.
pub merge_tables : (ℕ → Bool) → ℕ → Storage → Outcome Error Storage
merge_tables mmap zero s = stuck
merge_tables mmap (suc ticks) s = do
  (s', over) ← chunked_merge_tables mmap s
  elim over [ true ↦ ok (record s' { merging = false }) | false ↦ merge_tables mmap ticks s' ]
