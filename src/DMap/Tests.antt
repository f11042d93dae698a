-- ===== src/DMap/Tests.antt =====
-- The theorems of the DMaps on a small node.
mod Moves
mod Calls
use native.Mathlib.Omega.{arith}
use olricdb.Prelude.{
  ◌++◌, length, reverse, fails, none, ℕ, ◌+◌, ◌≤◌, ◌≡◌, refl, ◌⊎◌, inl, true, false, some, List, [],
  ◌∷◌, nat_eq, ok,
}
use olricdb.Protocol.Code.{
  Message, text, zero_message, success, error, status_internal_server_error,
}
use olricdb.Storage.Entry.{IsEncodable}
use olricdb.Storage.Store.{Storage}
use olricdb.Storage.Store.Invariant.{IsSound, fresh_table, fresh_table-IsWellFormed}
use olricdb.Discovery.{Host, host_cmp}
use olricdb.Routing.{last_owner, calc_max_backup_count}
use olricdb.DMap.Delete.{delete_previous}
use olricdb.DMap.Stale.{Janitor, fate_of, sweep_shard, IsSwept, sweep_shard_lem}
use olricdb.DMap.Removal.{del_key_val_refused}
use olricdb.DMap.{
  transport, primary_copy, DMap, Shard, Config, Node, Env, Error, backup_copy, shards, get_shard,
  get_hkey, locate, get_ttl, is_key_expired, request_to, or_transport, check_status,
}
use olricdb.DMap.Put.{
  put_key_val, put_key_val_backup, put_request, backup_targets, key_request, send_backups,
  count_answer, backup_outcome, previous_owners,
}
use olricdb.DMap.Get.{get, get_key_val, get_response, ex_get_operation}
use olricdb.DMap.Local.{IsServed, get_key_val-put_key_val}
use olricdb.DMap.Expiry.{is_key_expired-get_ttl}
use olricdb.DMap.Backups.{Acknowledged, wanted_backups, put_key_val_backup_lem}
use olricdb.DMap.Forward.{forwarded, get-ex_get_operation}

abbrev a : Host
a = record { name = 97 ∷ []; birthdate = 1 }

abbrev b : Host
b = record { name = 98 ∷ []; birthdate = 2 }

abbrev str : Storage
str = record { tables = fresh_table 0 ∷ []; merging = false }

abbrev dm : DMap
dm = record { str = str; oplog = [] }

abbrev shard : Shard
shard = record { part = record { owners = b ∷ a ∷ []; count = 1 }; dmaps = (109 ∷ [], dm) ∷ [] }

abbrev config : Config
config = record {
  partition_count = 1;
  backup_count = 0;
  async_backups = false;
  with_snapshot = false;
}

-- The owner of the only partition.
abbrev node : Node
node = record {
  this = a;
  config = config;
  primary = (0, shard) ∷ [];
  backup = (0, shard) ∷ [];
  sent = [];
}

abbrev env : Env
env = record {
  mmap = λ n. true;
  registers = λ id name. true;
  network = λ r. some (success zero_message);
  hash = λ bs. 5;
  now = 2000000;
  mem_count = 2;
  fuel = 2;
}

node-IsServed : IsServed node 5 (109 ∷ []) shard dm
node-IsServed = record { partitioned = refl; here = refl; registered = refl }

str-IsSound : IsSound str
str-IsSound = record { nonempty = tt; tables = (fresh_table-IsWellFormed 0, tt) }

entry-IsEncodable : IsEncodable (record { key = 107 ∷ []; ttl = 0; value = 1 ∷ [] })
entry-IsEncodable = record {
  key_short = omega arith;
  ttl_word = omega arith;
  value_short = omega arith;
}

previous : previous_owners shard.part.owners ≡ some (b ∷ [])
unfolding previous_owners
previous = refl

no_ttl : is_key_expired env 0 ≡ false
unfolding is_key_expired
no_ttl = refl

get_key_val-put_key_val_example :
    (n' : Node) × (put_key_val env node 5 (109 ∷ []) (107 ∷ []) (1 ∷ []) 0 ≡ (n', ok tt))
    × (get_key_val env n' 5 (109 ∷ []) (107 ∷ []) ≡ (n', ok (1 ∷ [])))
get_key_val-put_key_val_example =
    get_key_val-put_key_val env env node 5 (109 ∷ []) (107 ∷ []) (1 ∷ []) 0 shard [] (fresh_table 0)
      [] false (b ∷ []) 0 node-IsServed refl previous refl (λ n. refl) str-IsSound entry-IsEncodable
      (inl (omega arith)) no_ttl

is_key_expired-get_ttl_example :
    (5000000 + env.now ≤ env.now → is_key_expired env (get_ttl env 5000000) ≡ true)
    × (env.now + 1000000 ≤ 5000000 + env.now → is_key_expired env (get_ttl env 5000000) ≡ false)
is_key_expired-get_ttl_example = is_key_expired-get_ttl env env 5000000 (omega arith) (omega arith)

backup_shard : get_shard backup_copy node 5 ≡ (node, ok shard)
unfolding get_shard shards
backup_shard = refl

abbrev wanted : Node
wanted = record node { config = record config { backup_count = 1 } }

second_lookup : get_shard backup_copy wanted 5 ≡ (wanted, ok shard)
unfolding get_shard shards
second_lookup = refl

backed_up :
    (n' : Node) × (put_key_val_backup env wanted 5 (109 ∷ []) (107 ∷ []) (1 ∷ []) 0 ≡ (n', ok tt))
unfolding put_key_val_backup get_shard shards backup_targets send_backups count_answer
    backup_outcome request_to or_transport check_status calc_max_backup_count success
backed_up = (_, refl)

put_key_val_backup_lem_example :
    (front last : List Host) × (shard.part.owners ≡ front ++ last)
    × (length last ≡ wanted_backups env wanted shard.part.owners)
    × ((wanted_backups env wanted shard.part.owners ≡ 0)
        ⊎ Acknowledged env (put_request (109 ∷ []) (107 ∷ []) (1 ∷ []) 0) last)
put_key_val_backup_lem_example =
    put_key_val_backup_lem env wanted backed_up.0 5 (109 ∷ []) (107 ∷ []) (1 ∷ []) 0 shard
      second_lookup backed_up.1

-- A node that is not the owner, and gets the owner's answer.
abbrev other : Node
other = record node { this = b }

abbrev error_text : Error → List ℕ
error_text e = 101 ∷ []

abbrev answer : Message
answer = error (key_request (109 ∷ []) (107 ∷ [])) status_internal_server_error (text (101 ∷ []))

abbrev to_owner : Env
to_owner = record env { network = λ r. some answer }

located : locate other false (get_hkey to_owner (109 ∷ []) (107 ∷ [])) ≡ (other, ok a)
unfolding locate get_shard shards last_owner get_hkey
located = refl

not_owner : host_cmp a other.this ≡ false
unfolding host_cmp
not_owner = refl

answered :
    (ex_get_operation env error_text node true (key_request (109 ∷ []) (107 ∷ []))).1 ≡ ok answer
unfolding ex_get_operation get locate get_response
answered = refl

get-ex_get_operation_example :
    (get to_owner other false (109 ∷ []) (107 ∷ [])).1
    ≡ forwarded error_text (get env node true (109 ∷ []) (107 ∷ [])).1
get-ex_get_operation_example =
    get-ex_get_operation to_owner env error_text other node true (109 ∷ []) (107 ∷ []) a answer
      located not_owner answered refl

node_shard : get_shard primary_copy node 5 ≡ (node, ok shard)
unfolding get_shard shards
node_shard = refl

abbrev cut_off : Env
cut_off = record env { network = λ r. none }

refused :
    (delete_previous cut_off node (reverse (b ∷ [])) (109 ∷ []) (107 ∷ [])).1 ≡ fails transport
unfolding delete_previous request_to or_transport
refused = refl

abbrev sole : Shard
sole = record { part = record { owners = a ∷ []; count = 1 }; dmaps = (109 ∷ [], dm) ∷ [] }

abbrev unused : Shard
unused = record { part = record { owners = []; count = 0 }; dmaps = [] }

abbrev alone : Node
alone = record {
  this = a;
  config = config;
  primary = (0, sole) ∷ [];
  backup = (0, unused) ∷ [];
  sent = [];
}

abbrev janitor : Janitor
janitor = record { closes = λ s. true; unregisters = λ kind id name. true }

sweep_shard_lem_example :
    IsSwept janitor false primary_copy 0 shard
      (sweep_shard (fate_of janitor false primary_copy 0) shard)
sweep_shard_lem_example = sweep_shard_lem janitor false primary_copy 0 shard refl
