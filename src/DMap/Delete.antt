-- ===== src/DMap/Delete.antt =====
-- dmap_delete.go: the removal of a key on its previous owners, its backups and its owner.
use olricdb.Prelude.{
  ℕ, Bool, none, some, List, [], ◌∷◌, reverse, ◌==◌, nat_eq, if◌then◌else◌, Text, Outcome, ok,
  fails, panics, stuck,
}
use olricdb.Prelude.Dict.{insert}
use olricdb.Protocol.Code.{Message}
use olricdb.Protocol.Code.OpCode
use olricdb.Storage.Store.{Written}
use olricdb.Storage.Store
use olricdb.Storage.Memory
use olricdb.Discovery.{Host, host_cmp}
use olricdb.Snapshot.{log_delete}
use olricdb.DMap.{
  DMap, Node, Env, Error, storage, Result, and_then, Kind, primary_copy, backup_copy, request_to,
  get_hkey, locate, get_shard, get_dmap, save_dmap,
}
use olricdb.DMap.Put.{previous_owners, key_request, write_response}

-- The previous owners, from the last: an error ends the removal.
unfoldable pub delete_previous : Env → Node → List Host → Text → Text → Result Unit
unfolding request_to
delete_previous env n [] name key = (n, ok tt)
delete_previous env n (o ∷ os) name key =
    and_then (request_to env n o.name OpCode.delete_prev (key_request name key))
      λ n1 _. delete_previous env n1 os name key

-- The first error of the requests that were all sent.
unfoldable pub first_error : Outcome Error Message → Result Unit → Result Unit
first_error (ok _) rest = rest
first_error (fails e) rest = (rest.0, fails e)
first_error panics rest = (rest.0, panics)
first_error stuck rest = (rest.0, stuck)

-- The goroutines of `deleteKeyValBackup`, one after the other.
unfoldable pub delete_backups : Env → Node → List Host → Text → Text → Result Unit
unfolding request_to first_error
delete_backups env n [] name key = (n, ok tt)
delete_backups env n (o ∷ os) name key =
    let (n1, r) = request_to env n o.name OpCode.delete_backup (key_request name key) in
    first_error r (delete_backups env n1 os name key)

unfoldable pub delete_key_val_backup : Env → Node → ℕ → Text → Text → Result Unit
unfolding delete_backups
delete_key_val_backup env n hkey name key =
    if n.config.backup_count == 0
    then (n, ok tt)
    else and_then (get_shard backup_copy n hkey)
        λ n1 s. delete_backups env n1 s.part.owners name key

abbrev pub log_deleted : Bool → ℕ → DMap → DMap
log_deleted snapshot hkey dm =
    if snapshot then record dm { oplog = insert hkey log_delete dm.oplog } else dm

-- What `dm.str.Delete` leaves is kept, and its error is returned.
unfoldable pub save_deleted :
    Kind → Node → ℕ → Text → DMap → Outcome Memory.Error Written → Result Unit
unfolding save_dmap
save_deleted kind n hkey name dm (ok w) =
    and_then (save_dmap kind n hkey name (record dm { str = w.0 }))
      λ n1 _. elim w.1 [ none ↦ (n1, ok tt) | some e ↦ (n1, fails (storage e)) ]
save_deleted kind n hkey name dm (fails e) = (n, fails (storage e))
save_deleted kind n hkey name dm panics = (n, panics)
save_deleted kind n hkey name dm stuck = (n, stuck)

-- `delKeyVal`: the oplog notes the removal before the storage makes it.
unfoldable pub del_key_val : Env → Node → DMap → ℕ → Text → Text → Result Unit
unfolding delete_previous delete_key_val_backup save_deleted get_shard previous_owners
del_key_val env n dm hkey name key = and_then (get_shard primary_copy n hkey) λ n1 s.
    elim (previous_owners s.part.owners) [
      | none ↦ (n1, panics)
      | some os ↦ and_then (delete_previous env n1 (reverse os) name key) λ n2 _.
          and_then (delete_key_val_backup env n2 hkey name key) λ n3 _.
            save_deleted primary_copy n3 hkey name (log_deleted n3.config.with_snapshot hkey dm)
              (Store.delete env.mmap dm.str hkey)
    ]

unfoldable pub delete_key : Env → Node → Bool → Text → Text → Result Unit
unfolding del_key_val request_to
delete_key env n late name key =
    let hkey = get_hkey env name key in
    and_then (locate n late hkey) λ n1 owner.
      if host_cmp owner n1.this
      then (and_then (get_dmap env primary_copy n1 hkey name)
          λ n2 dm. del_key_val env n2 dm hkey name key)
      else and_then (request_to env n1 owner.name OpCode.ex_delete (key_request name key))
          λ n2 _. (n2, ok tt)

unfoldable pub ex_delete_operation : Env → (Error → List ℕ) → Node → Bool → Message → Result Message
unfolding delete_key write_response
ex_delete_operation env text n late req =
    write_response text req (delete_key env n late req.dmap req.key)

-- The oplog after the storage's answer: an error is not noted.
abbrev pub noted : Bool → ℕ → DMap → Outcome Memory.Error Written → DMap
noted snapshot hkey dm (ok (s, none)) = log_deleted snapshot hkey dm
noted snapshot hkey dm _ = dm

-- `deletePrevOperation` and `deleteBackupOperation`, which differ in the partition only.
unfoldable pub delete_on : Env → (Error → List ℕ) → Kind → Node → Message → Result Message
unfolding save_deleted write_response
delete_on env text kind n req =
    let hkey = get_hkey env req.dmap req.key in
    write_response text req (
      and_then (get_dmap env kind n hkey req.dmap) λ n1 dm.
        let r = Store.delete env.mmap dm.str hkey in
        save_deleted kind n1 hkey req.dmap (noted n1.config.with_snapshot hkey dm r) r)

unfoldable pub delete_prev_operation : Env → (Error → List ℕ) → Node → Message → Result Message
unfolding delete_on
delete_prev_operation env text n req = delete_on env text primary_copy n req

unfoldable pub delete_backup_operation : Env → (Error → List ℕ) → Node → Message → Result Message
unfolding delete_on
delete_backup_operation env text n req = delete_on env text backup_copy n req
