-- ===== src/DMap/Get.antt =====
-- dmap_get.go: the lookup of a key on its owner, on previous owners and on backups.
use olricdb.Prelude.{
  ℕ, Bool, none, some, List, [], ◌∷◌, reverse, if◌then◌else◌, Text, text_eq, Outcome, ok, fails,
  panics, stuck,
}
use olricdb.Prelude.Dict.{lookup}
use olricdb.Protocol.Code.{
  Message, Reason, nothing, success, error, status_internal_server_error, status_key_not_found,
}
use olricdb.Protocol.Code.OpCode
use olricdb.Storage.Memory
use olricdb.Storage.Entry.{VData}
use olricdb.Storage.Store
use olricdb.Discovery.{Host, host_cmp}
use olricdb.DMap.{
  Node, Env, Error, key_not_found, storage, Result, and_then, primary_copy, backup_copy, request_to,
  is_key_expired, get_hkey, get_shard, get_dmap, locate,
}
use olricdb.DMap.Put.{previous_owners, key_request}

-- What an answer means for the search: a value, an error, or the next host.
unfoldable pub ask_next : Result Message → (Node → Result (List ℕ)) → Result (List ℕ)
ask_next (n, ok resp) next = (n, ok resp.value)
ask_next (n, fails key_not_found) next = next n
ask_next (n, fails e) next = (n, fails e)
ask_next (n, panics) next = (n, panics)
ask_next (n, stuck) next = (n, stuck)

-- The hosts are asked one after the other, until one knows the key.
unfoldable pub ask :
    Env → ℕ → Message → List Host → Node → (Node → Result (List ℕ)) → Result (List ℕ)
unfolding ask_next request_to
ask env op req [] n last = last n
ask env op req (h ∷ hs) n last =
    ask_next (request_to env n h.name op req) λ n1. ask env op req hs n1 last

-- `value.Value`, unless its time has passed.
unfoldable pub fresh_value : Env → Node → VData → Result (List ℕ)
unfolding is_key_expired
fresh_value env n v = if is_key_expired env v.ttl then (n, fails key_not_found) else (n, ok v.value)

-- Previous owners from the last, then the backups.
unfoldable pub search : Env → Node → ℕ → Text → Text → Result (List ℕ)
unfolding get_shard previous_owners
search env n hkey name key = and_then (get_shard primary_copy n hkey) λ n1 s.
    elim (previous_owners s.part.owners) [
      | none ↦ (n1, panics)
      | some os ↦ ask env OpCode.get_prev (key_request name key) (reverse os) n1 λ n2.
          and_then (get_shard backup_copy n2 hkey) λ n3 b.
            ask env OpCode.get_backup (key_request name key) b.part.owners n3
              λ n4. (n4, fails key_not_found)
    ]

unfoldable pub get_key_val : Env → Node → ℕ → Text → Text → Result (List ℕ)
unfolding fresh_value search
get_key_val env n hkey name key = and_then (get_dmap env primary_copy n hkey name) λ n1 dm.
    elim (Store.get dm.str hkey) [
      | ok v ↦ fresh_value env n1 v
      | fails _ ↦ search env n1 hkey name key
      | panics ↦ (n1, panics)
      | stuck ↦ (n1, stuck)
    ]

unfoldable pub get : Env → Node → Bool → Text → Text → Result (List ℕ)
unfolding locate get_key_val
get env n late name key =
    let hkey = get_hkey env name key in
    and_then (locate n late hkey) λ n1 owner.
      if host_cmp owner n1.this
      then get_key_val env n1 hkey name key
      else and_then (request_to env n1 owner.name OpCode.ex_get (key_request name key))
          λ n2 resp. (n2, ok resp.value)

-- The response of `exGetOperation`. `text` is the text of an error.
unfoldable pub get_response :
    (Error → List ℕ) → Message → Outcome Error (List ℕ) → Outcome Error Message
get_response text req (ok value) = ok (record (success req) { value = value })
get_response text req (fails key_not_found) = ok (error req status_key_not_found nothing)
get_response text req (fails e) = ok (error req status_internal_server_error (Reason.text (text e)))
get_response text req panics = panics
get_response text req stuck = stuck

unfoldable pub ex_get_operation : Env → (Error → List ℕ) → Node → Bool → Message → Result Message
unfolding get get_response
ex_get_operation env text n late req =
    let (n1, r) = get env n late req.dmap req.key in (n1, get_response text req r)

-- What `getBackupOperation` and `getPrevOperation` answer from a storage.
unfoldable pub stored_response :
    Env → (Error → List ℕ) → Message → Outcome Memory.Error VData → Outcome Error Message
unfolding is_key_expired
stored_response env text req (ok v) =
    if is_key_expired env v.ttl
    then ok (error req status_key_not_found nothing)
    else ok (record (success req) { value = v.value })
stored_response env text req (fails Memory.key_not_found) =
    ok (error req status_key_not_found nothing)
stored_response env text req (fails e) =
    ok (error req status_internal_server_error (Reason.text (text (storage e))))
stored_response env text req panics = panics
stored_response env text req stuck = stuck

-- `getPrevOperation` does not make a DMap.
unfoldable pub get_prev_operation : Env → (Error → List ℕ) → Node → Message → Result Message
unfolding get_shard stored_response
get_prev_operation env text n req =
    let hkey = get_hkey env req.dmap req.key in
    and_then (get_shard primary_copy n hkey) λ n1 s. elim (lookup req.dmap s.dmaps) [
      | none ↦ (n1, ok (error req status_key_not_found nothing))
      | some dm ↦ (n1, stored_response env text req (Store.get dm.str hkey))
    ]

unfoldable pub get_backup_operation : Env → (Error → List ℕ) → Node → Message → Result Message
unfolding stored_response
get_backup_operation env text n req =
    let hkey = get_hkey env req.dmap req.key in
    let (n1, r) = get_dmap env backup_copy n hkey req.dmap in
    elim r [
      | ok dm ↦ (n1, stored_response env text req (Store.get dm.str hkey))
      | fails e ↦ (n1, ok (error req status_internal_server_error (Reason.text (text e))))
      | panics ↦ (n1, panics)
      | stuck ↦ (n1, stuck)
    ]
