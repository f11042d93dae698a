-- ===== src/DMap.antt =====
-- The DMaps of a node: the registry and the requests of olric.go, and the operations of dmap_put.go
-- and dmap_get.go.
pub mod Put
pub mod Get
pub mod Local
pub mod Expiry
pub mod Backups
pub mod Delete
pub mod Removal
pub mod Stale
pub mod Forward
pub mod Fsck
pub mod Destroy
pub mod Eviction
pub mod Atomic
pub mod Locks
mod Tests
use olricdb.Prelude.{
  ℕ, ◌+◌, ◌-◌, ◌*◌, ◌/◌, ◌%◌, ◌^◌, Bool, true, false, not, ◌&&◌, Option, none, some, List, [], ◌∷◌,
  ◌++◌, ◌≡◌, ap, leb, ltb, ◌==◌, if◌then◌else◌, nat_eq, Text, text_eq, Outcome, ok, fails, panics,
  stuck,
}
use olricdb.Prelude.Dict.{Dict, lookup, insert}
use olricdb.Protocol.Code.{
  Message, status_ok, status_internal_server_error, status_key_not_found, status_no_such_lock,
  status_part_not_empty, status_backup_not_empty,
}
use olricdb.Snapshot.{LogOp}
use olricdb.Storage.Memory
use olricdb.Storage.Store.{Storage, new}
use olricdb.Storage.Entry.{VData}
use olricdb.Storage.Store
use olricdb.Discovery.{Host}
use olricdb.Routing.{Partition, last_owner}

-- A `dmap` without its locker. `oplog` is read in the mode with a snapshot only.
pub record DMap : Type 0 where
  pub str : Storage
  pub oplog : Dict ℕ LogOp

-- `atomic.AddInt32` of 1 and of -1 on a partition's count, which is the bit pattern of an int32.
abbrev pub count_up : ℕ → ℕ
count_up c = if c == 4294967295 then 0 else c + 1

abbrev pub count_down : ℕ → ℕ
count_down c = if c == 0 then 4294967295 else c - 1

-- A `partition` with its DMaps.
pub record Shard : Type 0 where
  pub part : Partition
  pub dmaps : Dict Text DMap

pub record Config : Type 0 where
  pub partition_count : ℕ
  pub backup_count : ℕ
  pub async_backups : Bool
  pub with_snapshot : Bool

pub record Request : Type 0 where
  pub addr : Text
  pub op : ℕ
  pub message : Message

-- `sent` are the requests that the node has sent, the newest first.
pub record Node : Type 0 where
  pub this : Host
  pub config : Config
  pub primary : Dict ℕ Shard
  pub backup : Dict ℕ Shard
  pub sent : List Request

-- What the node finds outside itself. `network` is the answer to a request, none where the transport
-- fails; `now` the nanoseconds of `currentUnixNano`; `fuel` the turns of a storage's loop.
pub record Env : Type 0 where
  pub mmap : ℕ → Bool
  pub registers : ℕ → Text → Bool
  pub network : Request → Option Message
  pub hash : List ℕ → ℕ
  pub now : ℕ
  pub mem_count : ℕ
  pub fuel : ℕ

pub data Error : Type 0 where
  transport key_not_found no_such_lock part_not_empty backup_not_empty timed_out no_owner : Error
  internal_server_error : List ℕ → Error
  unknown_status : ℕ → Error
  register_failed : Error
  storage : Memory.Error → Error
  close_failed destroy_failed serializer_failed mismatched_type : Error
  backup_failed : Error → Error

-- The node after a call, and what the call returns.
abbrev pub Result : Type 0 → Type 0
Result A = Node × Outcome Error A

-- What follows a call that succeeded.
abbrev pub and_then : {A B : Type 0} → Result A → (Node → A → Result B) → Result B
and_then (n, ok a) f = f n a
and_then (n, fails e) f = (n, fails e)
and_then (n, panics) f = (n, panics)
and_then (n, stuck) f = (n, stuck)

pub and_then-ok :
    {A B : Type 0} (f : Node → A → Result B) (r : Result A) (n : Node) (a : A)
    → r ≡ (n, ok a)
    → and_then r f ≡ f n a
and_then-ok f r n a q = ap (λ x. and_then x f) q

-- The error of a status.
unfoldable pub status_error : ℕ → List ℕ → Error
status_error status value =
    if status == status_internal_server_error
    then internal_server_error value
    else if status == status_no_such_lock
    then no_such_lock
    else if status == status_key_not_found
    then key_not_found
    else if status == status_part_not_empty
    then part_not_empty
    else if status == status_backup_not_empty
    then backup_not_empty
    else unknown_status status

unfoldable pub check_status : Message → Outcome Error Message
unfolding status_error
check_status resp =
    if resp.header.status == status_ok
    then ok resp
    else fails (status_error resp.header.status resp.value)

unfoldable pub or_transport : Option Message → Outcome Error Message
unfolding check_status
or_transport none = fails transport
or_transport (some resp) = check_status resp

unfoldable pub request_to : Env → Node → Text → ℕ → Message → Result Message
unfolding or_transport
request_to env n addr op req =
    let r : Request = record { addr = addr; op = op; message = req } in
    (record n { sent = r ∷ n.sent }, or_transport (env.network r))

-- The quotient of an int64 bit pattern by 1000000, rounded towards 0.
unfoldable pub div_million : ℕ → ℕ
div_million x = if ltb x (2 ^ 63) then x / 1000000 else (2 ^ 64 - (2 ^ 64 - x) / 1000000) % 2 ^ 64

-- A TTL and a timeout are bit patterns of an int64.
unfoldable pub get_ttl : Env → ℕ → ℕ
unfolding div_million
get_ttl env timeout = div_million ((timeout + env.now) % 2 ^ 64)

-- A negative TTL has passed.
unfoldable pub is_key_expired : Env → ℕ → Bool
is_key_expired env ttl =
    if ttl == 0 then false else if leb (2 ^ 63) ttl then true else leb ttl (env.now / 1000000)

pub data Kind : Type 0 where
  primary_copy backup_copy : Kind

unfoldable pub shards : Kind → Node → Dict ℕ Shard
shards primary_copy n = n.primary
shards backup_copy n = n.backup

unfoldable pub set_shard : Kind → ℕ → Shard → Node → Node
set_shard primary_copy id s n = record n { primary = insert id s n.primary }
set_shard backup_copy id s n = record n { backup = insert id s n.backup }

unfoldable pub get_hkey : Env → Text → Text → ℕ
get_hkey env name key = env.hash (name ++ key)

-- `db.partitions[partID]` and `db.backups[partID]`: no partitions and a nil partition panic.
unfoldable pub get_shard : Kind → Node → ℕ → Result Shard
unfolding shards
get_shard kind n hkey =
    if n.config.partition_count == 0
    then (n, panics)
    else elim (lookup (hkey % n.config.partition_count) (shards kind n)) [
      | none ↦ (n, panics)
      | some s ↦ (n, ok s)
    ]

unfoldable pub put_dmap : Kind → ℕ → Shard → Text → DMap → Node → Node
unfolding set_shard
put_dmap kind hkey s name dm n =
    set_shard kind (hkey % n.config.partition_count) (record s { dmaps = insert name dm s.dmaps }) n

-- `createDMap` with the shard of the key.
unfoldable pub create_dmap : Env → Kind → Node → Shard → ℕ → Text → Result DMap
unfolding put_dmap
create_dmap env kind n s hkey name = elim (new env.mmap 0) [
  | ok str ↦
      if n.config.with_snapshot && not (env.registers (hkey % n.config.partition_count) name)
      then (n, fails register_failed)
      else let dm : DMap = record { str = str; oplog = [] } in
        let counted = record s { part = record (s.part) { count = count_up s.part.count } } in
        (put_dmap kind hkey counted name dm n, ok dm)
  | fails e ↦ (n, fails (storage e))
  | panics ↦ (n, panics)
  | stuck ↦ (n, stuck)
]

unfoldable pub get_or_create : Env → Kind → Node → Shard → ℕ → Text → Result DMap
unfolding create_dmap
get_or_create env kind n s hkey name = elim (lookup name s.dmaps) [
  | some dm ↦ (n, ok dm)
  | none ↦ create_dmap env kind n s hkey name
]

-- `getDMap` and `getBackupDMap`.
unfoldable pub get_dmap : Env → Kind → Node → ℕ → Text → Result DMap
unfolding get_shard get_or_create
get_dmap env kind n hkey name =
    and_then (get_shard kind n hkey) λ n1 s. get_or_create env kind n1 s hkey name

-- The DMap changed in place: its shard has it already.
unfoldable pub save_dmap : Kind → Node → ℕ → Text → DMap → Result Unit
unfolding get_shard put_dmap
save_dmap kind n hkey name dm =
    and_then (get_shard kind n hkey) λ n1 s. (put_dmap kind hkey s name dm n1, ok tt)

-- The owner of a key, by the node's routing. `late` says that the bootstrap ran into its deadline.
unfoldable pub locate : Node → Bool → ℕ → Result Host
unfolding get_shard
locate n late hkey =
    if late
    then (n, fails timed_out)
    else and_then (get_shard primary_copy n hkey) λ n1 s. elim (last_owner s.part.owners) [
      | ok h ↦ (n1, ok h)
      | fails _ ↦ (n1, fails no_owner)
      | panics ↦ (n1, panics)
      | stuck ↦ (n1, stuck)
    ]
