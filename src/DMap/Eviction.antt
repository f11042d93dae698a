-- ===== src/DMap/Eviction.antt =====
-- dmap_eviction.go: the keys whose time has passed are removed.
use olricdb.Prelude.{
  ℕ, zero, suc, ◌+◌, ◌%◌, ◌≤◌, ◌≡◌, Bool, true, false, none, some, [], ◌∷◌, leb, if◌then◌else◌,
  Text, text_eq, nat_eq, Outcome, ok, fails, panics, stuck,
}
use olricdb.Prelude.Dict.{Dict, lookup}
use olricdb.Storage.Memory
use olricdb.Storage.Entry.{VData}
use olricdb.Storage.Table.{Table}
use olricdb.Storage.Table
use olricdb.Storage.Store.{Storage, range}
use olricdb.DMap.{
  DMap, Node, Env, Error, storage, Result, and_then, primary_copy, is_key_expired, get_shard,
}
use olricdb.DMap.Delete.{del_key_val}

-- `maxKcount`
abbrev pub max_kcount : ℕ
max_kcount = 20

-- The DMap as the node has it now: the source follows a pointer.
unfoldable pub current : Node → ℕ → Text → DMap → DMap
current n hkey name dm = elim (lookup (hkey % n.config.partition_count) n.primary) [
  | none ↦ dm
  | some s ↦ elim (lookup name s.dmaps) [ some now ↦ now | none ↦ dm ]
]

-- `dcount` and `kcount`
abbrev pub Counts : Type 0
Counts = ℕ × ℕ

-- A removal that fails is only logged.
unfoldable pub after_removal : ℕ → ℕ → Result Unit → Result Counts × Bool
after_removal dcount kcount (n, ok _) = ((n, ok (dcount + 1, kcount)), true)
after_removal dcount kcount (n, fails e) = ((n, ok (dcount, kcount)), true)
after_removal dcount kcount (n, panics) = ((n, panics), false)
after_removal dcount kcount (n, stuck) = ((n, stuck), false)

-- The function that `janitor` gives to `Range`.
unfoldable pub evict_key : Env → Text → DMap → ℕ → VData → Result Counts → Result Counts × Bool
unfolding after_removal del_key_val is_key_expired current
evict_key env name dm hkey v (n, ok (dcount, kcount)) =
    if leb max_kcount (kcount + 1)
    then ((n, ok (dcount, kcount + 1)), false)
    else if is_key_expired env v.ttl
    then after_removal dcount (kcount + 1)
        (del_key_val env n (current n hkey name dm) hkey name v.key)
    else ((n, ok (dcount, kcount + 1)), true)
evict_key env name dm hkey v (n, r) = ((n, r), false)

unfoldable pub or_range : Node → Outcome Memory.Error (Result Counts) → Result Counts
or_range n (ok r) = r
or_range n (fails e) = (n, fails (storage e))
or_range n panics = (n, panics)
or_range n stuck = (n, stuck)

-- `janitor`, over the keys that the DMap had when the pass began.
unfoldable pub evict_pass : Env → Text → DMap → Node → Result Counts
unfolding evict_key range or_range
evict_pass env name dm n = or_range n (range (evict_key env name dm) dm.str (n, ok (0, 0)))

-- The loop of `scanDMapForEviction`, with fuel; the result is `totalCount`.
unfoldable pub scan_dmap : Env → ℕ → Text → DMap → ℕ → Node → ℕ → Result ℕ
unfolding evict_pass
scan_dmap env zero name dm hkey n total = (n, stuck)
scan_dmap env (suc fuel) name dm hkey n total = and_then (evict_pass env name dm n) λ n1 counts.
    if leb 5 counts.0
    then scan_dmap env fuel name (current n1 hkey name dm) hkey n1 (total + counts.0)
    else (n1, ok (total + counts.0))

-- The DMaps of the partition. `dcount` starts at 0 for each of them, and the limit of 20 is never
-- reached.
unfoldable pub evict_dmaps : Env → ℕ → ℕ → Dict Text DMap → Node → Result Unit
unfolding scan_dmap
evict_dmaps env fuel part_id [] n = (n, ok tt)
evict_dmaps env fuel part_id ((name, dm) ∷ dmaps) n =
    and_then (scan_dmap env fuel name dm part_id n 0) λ n1 _. evict_dmaps env fuel part_id dmaps n1

-- `evictKeys` on the partition that `rand` gives.
unfoldable pub evict_keys : Env → ℕ → ℕ → Node → Result Unit
unfolding evict_dmaps get_shard
evict_keys env fuel part_id n =
    and_then (get_shard primary_copy n part_id) λ n1 s. evict_dmaps env fuel part_id s.dmaps n1

-- What each turn of `Range` keeps is kept by `Range`.
module _ {S : Type 0} (f : ℕ → VData → S → S × Bool) (P : S → Type 0)
    (keeps : (h : ℕ) (v : VData) (s : S) → P s → P (f h v s).0) where
  abbrev Kept : Outcome Memory.Error S → Type 0
  Kept (ok s) = P s
  Kept _ = Unit

-- The nodes that removals of expired keys reach from `n`, whether they succeed or not, with how many
-- there were.
pub data Removals (env : Env) (name : Text) (dm : DMap) (n : Node) : ℕ → Node → Type 0 where
  start : Removals env name dm n 0 n
  removal :
      {k : ℕ} {n' : Node} (h : ℕ) (v : VData)
      → Removals env name dm n k n'
      → is_key_expired env v.ttl ≡ true
      → Removals env name dm n (suc k) (del_key_val env n' (current n' h name dm) h name v.key).0

-- The returned counts: `dcount` are removals, and `kcount` has all of them.
abbrev pub Counted : ℕ → Outcome Error Counts → Type 0
Counted k (ok (dcount, kcount)) = (dcount ≤ k) × (k ≤ kcount)
Counted k _ = Unit

-- What a pass that has come from `n` may have done so far.
abbrev pub IsWithin : Env → Text → DMap → Node → Result Counts → Type 0
IsWithin env name dm n r = (k : ℕ) × (k ≤ 19) × Removals env name dm n k r.0 × Counted k r.1
