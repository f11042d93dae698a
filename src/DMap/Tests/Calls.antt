-- ===== src/DMap/Tests/Calls.antt =====
-- The theorems of the atomic operations and of the locks on a small node.
use olricdb.Prelude.{
  ℕ, ◌≡◌, refl, true, false, Option, none, some, List, [], ◌∷◌, nat_eq, ok, fails,
}
use olricdb.Protocol.Code.{Message, zero_message, zero_header}
use olricdb.Protocol.Code.OpCode
use olricdb.Storage.Entry.{VData}
use olricdb.Storage.Table.{Table}
use olricdb.Storage.Table.Put.{added}
use olricdb.Storage.Store.{Storage}
use olricdb.Storage.Store
use olricdb.Storage.Store.Invariant.{fresh_table}
use olricdb.Locker.{new_locker, check}
use olricdb.Routing.{last_owner}
use olricdb.Discovery.{host_cmp}
use olricdb.DMap.{DMap, Shard, Node, no_such_lock, shards, get_shard, get_hkey, locate}
use olricdb.DMap.Local.{IsServed}
use olricdb.DMap.Atomic.{Value, int, Atomics}
use olricdb.DMap.Locks.{LockNode, locker_of, lock_with_timeout, unlock}
use olricdb.DMap.Locks.Sole.{IsSole, unlock-lock_with_timeout}
use olricdb.DMap.Tests.{a, env, alone}

-- An int is serialized as one number.
abbrev decode_int : List ℕ → Option Value
decode_int (v ∷ []) = some (int v)
decode_int _ = none

abbrev atomics : Atomics
atomics = record {
  marshal = λ v. some (v ∷ []);
  unmarshal = decode_int;
  lock_error = λ name key. none;
}

-- The key has the value 40.
abbrev forty : VData
forty = record { key = 107 ∷ []; ttl = 0; value = 40 ∷ [] }

abbrev table : Table
table = added (fresh_table 0) 5 forty

abbrev stored : DMap
stored = record { str = record { tables = table ∷ []; merging = false }; oplog = [] }

abbrev shard : Shard
shard = record { part = record { owners = a ∷ []; count = 1 }; dmaps = (109 ∷ [], stored) ∷ [] }

abbrev node : Node
node = record alone { primary = (0, shard) ∷ [] }

hkey_run : get_hkey env (109 ∷ []) (107 ∷ []) ≡ 5
unfolding get_hkey
hkey_run = refl

node-IsServed : IsServed node (get_hkey env (109 ∷ []) (107 ∷ [])) (109 ∷ []) shard stored
unfolding get_hkey
node-IsServed = record { partitioned = refl; here = refl; registered = refl }

located : locate node false (get_hkey env (109 ∷ []) (107 ∷ [])) ≡ (node, ok a)
unfolding locate get_shard shards last_owner get_hkey
located = refl

itself : host_cmp a node.this ≡ true
unfolding host_cmp
itself = refl

-- A Decr of 2.
abbrev decr_request : Message
decr_request = record zero_message {
  header = record zero_header { op = OpCode.ex_decr };
  dmap = 109 ∷ [];
  key = 107 ∷ [];
  value = 2 ∷ [];
}

abbrev lock_node : LockNode
lock_node = record { node = node; lockers = λ id name. new_locker }

node-IsSole : IsSole env node (109 ∷ []) (107 ∷ [])
node-IsSole = record {
  shard = shard;
  dmap = stored;
  owner = a;
  member = a;
  served = node-IsServed;
  alone = refl;
  owned = itself;
  located = located;
  here = itself;
}

new_check :
    check (locker_of lock_node (get_hkey env (109 ∷ []) (107 ∷ [])) (109 ∷ [])) (107 ∷ []) ≡ false
unfolding check
new_check = refl

unlock-lock_with_timeout_example :
    (l1 : LockNode) × (l2 : LockNode) × (lock_with_timeout env lock_node false
        (109 ∷ [])
        (107 ∷ [])
        60
      ≡ (l1, ok tt))
    × (unlock env l1 false (109 ∷ []) (107 ∷ []) ≡ (l2, ok tt))
    × (unlock env l2 false (109 ∷ []) (107 ∷ []) ≡ (l2, fails no_such_lock))
unlock-lock_with_timeout_example =
    unlock-lock_with_timeout env lock_node (109 ∷ []) (107 ∷ []) 60 node-IsSole new_check
