-- ===== src/DMap/Put.antt =====
-- dmap_put.go: the write of a key on its owner, its backups, and the removal of old versions.
use olricdb.Prelude.{
  ℕ, zero, suc, ◌-◌, Bool, Option, none, some, List, [], ◌∷◌, length, drop, reverse, ltb, ◌==◌,
  if◌then◌else◌, nat_eq, Text, text_eq, Outcome, ok, fails, panics, stuck,
}
use olricdb.Prelude.Dict.{insert}
use olricdb.Protocol.Code.{
  Message, Extra, put_ex, lock_with_timeout, is_part_empty, Reason, zero_message, success, error,
  status_internal_server_error,
}
use olricdb.Protocol.Code.OpCode
use olricdb.Storage.Entry.{VData}
use olricdb.Storage.Store.{Storage, Written}
use olricdb.Storage.Store
use olricdb.Discovery.{Host, host_cmp}
use olricdb.Routing.{calc_max_backup_count}
use olricdb.Snapshot.{log_put}
use olricdb.DMap.{
  DMap, Node, Env, Error, storage, backup_failed, Result, and_then, Kind, primary_copy, backup_copy,
  request_to, get_ttl, get_hkey, locate, get_shard, get_dmap, save_dmap,
}

-- The owners before the last: `owners[:len(owners)-1]` panics on none.
unfoldable pub previous_owners : List Host → Option (List Host)
previous_owners [] = none
previous_owners (o ∷ []) = some []
previous_owners (o ∷ p ∷ os) = elim (previous_owners (p ∷ os)) [
  | none ↦ none
  | some hs ↦ some (o ∷ hs)
]

abbrev pub key_request : Text → Text → Message
key_request name key = record zero_message { dmap = name; key = key }

-- The loop of `purgeOldVersions`, over the previous owners from the last. Errors are only logged.
unfoldable pub purge : Env → Node → List Host → Text → Text → Node
unfolding request_to
purge env n [] name key = n
purge env n (o ∷ os) name key =
    if host_cmp o n.this
    then purge env n os name key
    else purge env (request_to env n o.name OpCode.delete_prev (key_request name key)).0 os name key

unfoldable pub purge_old_versions : Env → Node → ℕ → Text → Text → Result Unit
unfolding previous_owners purge get_shard
purge_old_versions env n hkey name key = and_then (get_shard primary_copy n hkey) λ n1 s.
    elim (previous_owners s.part.owners) [
      | none ↦ (n1, panics)
      | some os ↦ (purge env n1 (reverse os) name key, ok tt)
    ]

abbrev pub put_request : Text → Text → List ℕ → ℕ → Message
put_request name key value timeout = record zero_message {
  dmap = name;
  key = key;
  value = value;
  extra = if timeout == 0 then none else some (put_ex timeout);
}

-- The backups that a write goes to: the last ones.
unfoldable pub backup_targets : ℕ → List Host → List Host
backup_targets count owners =
    if ltb count (length owners) then drop (length owners - count) owners else owners

-- How many of the requests succeeded, and the first error.
unfoldable pub count_answer :
    Outcome Error Message → Node × (ℕ × Option Error) → Node × (ℕ × Option Error)
count_answer (ok _) rest = (rest.0, (suc rest.1.0, rest.1.1))
count_answer (fails e) rest = (rest.0, (rest.1.0, some e))
count_answer panics rest = rest
count_answer stuck rest = rest

-- The goroutines of `putKeyValBackup`, one after the other.
unfoldable pub send_backups : Env → Node → List Host → Message → Node × (ℕ × Option Error)
unfolding request_to count_answer
send_backups env n [] req = (n, (0, none))
send_backups env n (o ∷ os) req =
    let (n1, r) = request_to env n o.name OpCode.put_backup req in
    count_answer r (send_backups env n1 os req)

-- One success is enough; no backup at all is one too.
unfoldable pub backup_outcome : Node × (ℕ × Option Error) → Result Unit
backup_outcome (n, (suc _, e)) = (n, ok tt)
backup_outcome (n, (zero, none)) = (n, ok tt)
backup_outcome (n, (zero, some e)) = (n, fails e)

unfoldable pub put_key_val_backup : Env → Node → ℕ → Text → Text → List ℕ → ℕ → Result Unit
unfolding backup_targets send_backups backup_outcome get_shard
put_key_val_backup env n hkey name key value timeout =
    and_then (get_shard backup_copy n hkey) λ n1 s. backup_outcome (
      send_backups env n1
        (backup_targets (calc_max_backup_count n1.config.backup_count env.mem_count) s.part.owners)
        (put_request name key value timeout))

-- An asynchronous backup is sent too, and its outcome is only logged.
unfoldable pub back_up : Env → Node → ℕ → Text → Text → List ℕ → ℕ → Result Unit
unfolding put_key_val_backup
back_up env n hkey name key value timeout =
    if n.config.backup_count == 0
    then (n, ok tt)
    else let (n1, r) = put_key_val_backup env n hkey name key value timeout in
      if n.config.async_backups then (n1, ok tt) else elim r [
        | ok _ ↦ (n1, ok tt)
        | fails e ↦ (n1, fails (backup_failed e))
        | panics ↦ (n1, panics)
        | stuck ↦ (n1, stuck)
      ]

abbrev pub logged : Bool → ℕ → DMap → DMap
logged snapshot hkey dm =
    if snapshot then record dm { oplog = insert hkey log_put dm.oplog } else dm

-- `dm.str.Put` and what the oplog notes of it.
unfoldable pub write_dmap : Env → Kind → Node → DMap → ℕ → Text → VData → Result Unit
unfolding save_dmap
write_dmap env kind n dm hkey name v = elim (Store.put env.mmap env.fuel dm.str hkey v) [
  | ok w ↦ elim w.1 [
    | none ↦
        save_dmap kind n hkey name (logged n.config.with_snapshot hkey (record dm { str = w.0 }))
    | some e ↦
        let (n1, _) = save_dmap kind n hkey name (record dm { str = w.0 }) in
        (n1, fails (storage e))
  ]
  | fails e ↦ (n, fails (storage e))
  | panics ↦ (n, panics)
  | stuck ↦ (n, stuck)
]

abbrev pub ttl_of : Env → ℕ → ℕ
ttl_of env timeout = if timeout == 0 then 0 else get_ttl env timeout

unfoldable pub put_key_val : Env → Node → ℕ → Text → Text → List ℕ → ℕ → Result Unit
unfolding back_up write_dmap purge_old_versions
put_key_val env n hkey name key value timeout =
    and_then (get_dmap env primary_copy n hkey name) λ n1 dm.
      and_then (back_up env n1 hkey name key value timeout) λ n2 _.
        and_then
          (write_dmap env primary_copy n2 dm hkey name
            (record { key = key; ttl = ttl_of env timeout; value = value }))
          λ n3 _. purge_old_versions env n3 hkey name key

-- `put`: the owner writes, another node sends the request on.
unfoldable pub put : Env → Node → Bool → Text → Text → List ℕ → ℕ → Result Unit
unfolding put_key_val request_to
put env n late name key value timeout =
    let hkey = get_hkey env name key in
    and_then (locate n late hkey) λ n1 owner.
      if host_cmp owner n1.this
      then put_key_val env n1 hkey name key value timeout
      else let op = if timeout == 0 then OpCode.ex_put else OpCode.ex_put_ex in
        and_then (request_to env n1 owner.name op (put_request name key value timeout))
          λ n2 _. (n2, ok tt)

-- The response to a write. `text` is the text of an error.
unfoldable pub write_response : (Error → List ℕ) → Message → Result Unit → Result Message
write_response text req (n, ok _) = (n, ok (success req))
write_response text req (n, fails e) =
    (n, ok (error req status_internal_server_error (Reason.text (text e))))
write_response text req (n, panics) = (n, panics)
write_response text req (n, stuck) = (n, stuck)

unfoldable pub ex_put_operation : Env → (Error → List ℕ) → Node → Bool → Message → Result Message
unfolding put write_response
ex_put_operation env text n late req =
    write_response text req (put env n late req.dmap req.key req.value 0)

-- The type assertion on the extra panics on any other.
unfoldable pub ex_put_ex_operation : Env → (Error → List ℕ) → Node → Bool → Message → Result Message
unfolding put write_response
ex_put_ex_operation env text n late req = elim req.extra [
  | some x ↦ elim x [
    | put_ex ttl ↦ write_response text req (put env n late req.dmap req.key req.value ttl)
    | lock_with_timeout _ ↦ (n, panics)
    | is_part_empty _ ↦ (n, panics)
  ]
  | none ↦ (n, panics)
]

unfoldable pub put_backup :
    Env → (Error → List ℕ) → Node → Message → Outcome Error ℕ → Result Message
unfolding write_dmap write_response
put_backup env text n req (ok ttl) =
    let hkey = get_hkey env req.dmap req.key in
    write_response text req (
      and_then (get_dmap env backup_copy n hkey req.dmap) λ n1 dm.
        write_dmap env backup_copy n1 dm hkey req.dmap
          (record { key = req.key; ttl = ttl; value = req.value }))
put_backup env text n req (fails e) = (n, fails e)
put_backup env text n req panics = (n, panics)
put_backup env text n req stuck = (n, stuck)

abbrev pub backup_ttl : Env → Option Extra → Outcome Error ℕ
backup_ttl env none = ok 0
backup_ttl env (some (put_ex ttl)) = ok (ttl_of env ttl)
backup_ttl env (some (lock_with_timeout _)) = panics
backup_ttl env (some (is_part_empty _)) = panics

-- In the source the DMap is made before the extra is looked at.
unfoldable pub put_backup_operation : Env → (Error → List ℕ) → Node → Message → Result Message
unfolding put_backup write_response
put_backup_operation env text n req =
    let (n1, r) = get_dmap env backup_copy n (get_hkey env req.dmap req.key) req.dmap in
    elim r [
      | ok _ ↦ put_backup env text n1 req (backup_ttl env req.extra)
      | fails e ↦ write_response text req (n1, fails e)
      | panics ↦ (n1, panics)
      | stuck ↦ (n1, stuck)
    ]
