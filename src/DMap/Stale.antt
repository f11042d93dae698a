-- ===== src/DMap/Stale.antt =====
-- The janitor of dmap_delete.go, which removes the DMaps without keys.
use native.Mathlib.Omega.{arith}
use olricdb.Prelude.{
  ℕ, ◌+◌, ◌<◌, ◌≡◌, ◌⊎◌, refl, ap, ◌∙◌, inl, inr, Bool, not, ◌&&◌, some, [], ◌∷◌, length, ◌==◌,
  if◌then◌else◌, Text, text_eq, text_beq, Bool-cases,
}
use olricdb.Prelude.Dict.{Dict, lookup}
use olricdb.Storage.Store.{Storage, total_keys}
use olricdb.DMap.{count_down, DMap, Shard, Node, Kind, primary_copy, backup_copy}

-- What the janitor finds outside the node: whether the system takes a storage's memory back, and
-- whether the snapshot unregisters a DMap.
pub record Janitor : Type 0 where
  pub closes : Storage → Bool
  pub unregisters : Kind → ℕ → Text → Bool

-- What becomes of a DMap: a failure of `UnregisterDMap` leaves it with its storage closed. A `Close`
-- that fails is taken to leave the storage as it was: the tables that the source has unmapped by then
-- are not told apart.
pub data Fate : Type 0 where
  stays closed gone : Fate

unfoldable pub fate_of : Janitor → Bool → Kind → ℕ → Text → DMap → Fate
fate_of j with_snapshot kind id name dm =
    if not (total_keys dm.str.tables == 0)
    then stays
    else if not (j.closes dm.str)
    then stays
    else if with_snapshot && not (j.unregisters kind id name)
    then closed
    else gone

-- `Close` leaves no tables.
abbrev pub close_dmap : DMap → DMap
close_dmap dm = record dm { str = record (dm.str) { tables = [] } }

-- The `Range` over the DMaps of a partition, with its count.
unfoldable pub sweep : (Text → DMap → Fate) → Dict Text DMap → ℕ → Dict Text DMap × ℕ
sweep fate [] count = ([], count)
sweep fate ((name, dm) ∷ rest) count = elim (fate name dm) [
  | gone ↦ sweep fate rest (count_down count)
  | closed ↦ ((name, close_dmap dm) ∷ (sweep fate rest count).0, (sweep fate rest count).1)
  | stays ↦ ((name, dm) ∷ (sweep fate rest count).0, (sweep fate rest count).1)
]

unfoldable pub sweep_shard : (Text → DMap → Fate) → Shard → Shard
unfolding sweep
sweep_shard fate s = record s {
  part = record (s.part) { count = (sweep fate s.dmaps s.part.count).1 };
  dmaps = (sweep fate s.dmaps s.part.count).0;
}

unfoldable pub sweep_shards : Janitor → Bool → Kind → Dict ℕ Shard → Dict ℕ Shard
unfolding sweep_shard fate_of
sweep_shards j with_snapshot kind [] = []
sweep_shards j with_snapshot kind ((id, s) ∷ rest) =
    (id, sweep_shard (fate_of j with_snapshot kind id) s) ∷ sweep_shards j with_snapshot kind rest

unfoldable pub delete_stale_dmaps : Janitor → Node → Node
unfolding sweep_shards
delete_stale_dmaps j n = record n {
  primary = sweep_shards j n.config.with_snapshot primary_copy n.primary;
  backup = sweep_shards j n.config.with_snapshot backup_copy n.backup;
}

-- The partition's count is the number of its DMaps.
abbrev pub IsCounted : Shard → Type 0
IsCounted s = s.part.count ≡ length s.dmaps

Fate-cases : (f : Fate) → (f ≡ gone) ⊎ ((f ≡ closed) ⊎ (f ≡ stays))
Fate-cases gone = inl refl
Fate-cases closed = inr (inl refl)
Fate-cases stays = inr (inr refl)

sweep_count :
    (fate : Text → DMap → Fate) (es : Dict Text DMap) (count k : ℕ)
    → count ≡ k + length es
    → (sweep fate es count).1 ≡ k + length (sweep fate es count).0
unfolding sweep
sweep_count fate [] count k q = q
sweep_count fate ((name, dm) ∷ es) count k q = elim (Fate-cases (fate name dm)) [
  | inl b ↦ rw (b, sweep) (sweep_count fate es (count_down count) k (ground (arith, q)))
  | inr (inl b) ↦
      rw (b, sweep) (omega (arith, sweep_count fate es count (k + 1) (omega (arith, q))))
  | inr (inr b) ↦
      rw (b, sweep) (omega (arith, sweep_count fate es count (k + 1) (omega (arith, q))))
]

lookup-sweep :
    (fate : Text → DMap → Fate) (es : Dict Text DMap) (count : ℕ) (name : Text) (dm : DMap)
    → ((x : Text) → fate x dm ≡ stays)
    → lookup name es ≡ some dm
    → lookup name (sweep fate es count).0 ≡ some dm
unfolding sweep
lookup-sweep fate [] count name dm keeps q = q
lookup-sweep fate ((x, d) ∷ es) count name dm keeps q = elim (Bool-cases (text_beq x name)) [
  | inl y ↦
      let same : d ≡ dm = some_inj (rw y at q) in
      let kept : fate x d ≡ stays = ap (fate x) same ∙ keeps x in
      rw (kept, sweep) (rw y (ap some same))
  | inr n ↦
      let rest : lookup name es ≡ some dm = rw n at q in
      elim (Fate-cases (fate x d)) [
        | inl b ↦ rw (b, sweep) (lookup-sweep fate es (count_down count) name dm keeps rest)
        | inr (inl b) ↦ rw (b, sweep) (rw n (lookup-sweep fate es count name dm keeps rest))
        | inr (inr b) ↦ rw (b, sweep) (rw n (lookup-sweep fate es count name dm keeps rest))
      ]
]
  where
    some_inj : {a b : DMap} → some a ≡ some b → a ≡ b
    some_inj e = cc

-- What the janitor leaves of a partition.
pub record IsSwept (j : Janitor) (with_snapshot : Bool) (kind : Kind) (id : ℕ) (s s' : Shard)
    : Type 0 where
  pub counted : IsCounted s'
  pub used :
      (name : Text) (dm : DMap)
      → lookup name s.dmaps ≡ some dm
      → 0 < total_keys dm.str.tables
      → lookup name s'.dmaps ≡ some dm
  pub owners : s'.part.owners ≡ s.part.owners

-- Where a partition's count is the number of its DMaps, it is so after the janitor of empty DMaps
-- has run over the partition, whatever fails on the way; every DMap that has a key in its storage
-- is left as it was, and so are the partition's owners.
pub sweep_shard_lem :
    (j : Janitor) (with_snapshot : Bool) (kind : Kind) (id : ℕ) (s : Shard)
    → IsCounted s
    → IsSwept j with_snapshot kind id s (sweep_shard (fate_of j with_snapshot kind id) s)
unfolding sweep_shard fate_of
sweep_shard_lem j with_snapshot kind id s counted = record {
  counted = omega (
    arith,
    sweep_count (fate_of j with_snapshot kind id) s.dmaps s.part.count 0 (omega (arith, counted)),
  );
  used = λ name dm q used.
      lookup-sweep (fate_of j with_snapshot kind id) s.dmaps s.part.count name dm
        (λ x. ground arith) q;
  owners = refl;
}
