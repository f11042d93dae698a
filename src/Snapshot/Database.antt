-- ===== src/Snapshot/Database.antt =====
-- The database of the snapshots, github.com/dgraph-io/badger, is a library: its operations are
-- parameters, and what it documents of them is `IsBadger`.
use olricdb.Prelude.{ℕ, Bool, true, List, [], ◌∷◌, ◌≡◌, if◌then◌else◌, text_beq}

pub data Write : Type 0 where
  set : List ℕ → List ℕ → Write
  remove : List ℕ → Write

-- What `txn.Get` and `ValueCopy` come to: a value, `ErrKeyNotFound`, or another error.
pub data Fetched : Type 0 where
  value : List ℕ → Fetched
  missing broken : Fetched

-- `D` is the state of the database. `accepts` says whether a `WriteBatch` takes another write
-- without an error, `flush` ends the batch, and `commit` is `Update` with a single `txn.Set`. The
-- writes of a batch are listed newest first.
pub record Badger (D : Type 0) : Type 0 where
  pub read : D → List ℕ → Fetched
  pub accepts : D → List Write → Write → Bool
  pub flush : D → List Write → D × Bool
  pub commit : D → List ℕ → List ℕ → D × Bool

-- What a key reads as after the writes.
abbrev pub replay : List Write → List ℕ → Fetched → Fetched
replay [] k f = f
replay (set j v ∷ ws) k f = let older = replay ws k f in if text_beq j k then value v else older
replay (remove j ∷ ws) k f = let older = replay ws k f in if text_beq j k then missing else older

-- A flush or a commit that succeeds has made its writes, and no other.
pub record IsBadger {D : Type 0} (b : Badger D) : Type 0 where
  pub flushed :
      (d : D) (ws : List Write) (k : List ℕ)
      → (b.flush d ws).1 ≡ true
      → b.read (b.flush d ws).0 k ≡ replay ws k (b.read d k)
  pub committed :
      (d : D) (k v j : List ℕ)
      → (b.commit d k v).1 ≡ true
      → b.read (b.commit d k v).0 j ≡ replay (set k v ∷ []) j (b.read d j)
