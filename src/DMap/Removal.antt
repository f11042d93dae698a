-- ===== src/DMap/Removal.antt =====
-- What the removal of a key leaves on its owner.
use olricdb.Prelude.{
  ℕ, ◌≡◌, refl, ap, ◌∙◌, some, List, [], ◌∷◌, reverse, nat_eq, Text, text_eq, Outcome, ok, fails,
  panics, stuck,
}
use olricdb.Protocol.Code.{Message}
use olricdb.Protocol.Code.OpCode
use olricdb.Storage.Memory
use olricdb.Storage.Store.{Storage}
use olricdb.Storage.Store
use olricdb.Discovery.{Host}
use olricdb.DMap.{
  DMap, Shard, Node, Env, Error, Result, and_then, and_then-ok, primary_copy, request_to,
  or_transport, get_shard,
}
use olricdb.DMap.Put.{previous_owners, key_request}
use olricdb.DMap.Delete.{delete_previous, del_key_val}

abbrev sent_to : Node → Host → Text → Text → Node
sent_to n o name key = record n {
  sent = record { addr = o.name; op = OpCode.delete_prev; message = key_request name key } ∷ n.sent;
}

-- Requests do not change what the node stores.
same_stores :
    (env : Env) (n : Node) (os : List Host) (name key : Text)
    → ((delete_previous env n os name key).0.primary ≡ n.primary)
      × ((delete_previous env n os name key).0.backup ≡ n.backup)
unfolding delete_previous request_to
same_stores env n [] name key = (refl, refl)
same_stores env n (o ∷ os) name key =
    by_answer
      (or_transport (
        env.network
          (record { addr = o.name; op = OpCode.delete_prev; message = key_request name key })))
      (same_stores env (sent_to n o name key) os name key)
  where
    by_answer :
        (r : Outcome Error Message)
        → ((delete_previous env (sent_to n o name key) os name key).0.primary ≡ n.primary)
          × ((delete_previous env (sent_to n o name key) os name key).0.backup ≡ n.backup)
        → ((and_then
              (sent_to n o name key, r)
              (λ n1 _. delete_previous env n1 os name key)).0.primary
            ≡ n.primary)
          × ((and_then
                (sent_to n o name key, r)
                (λ n1 _. delete_previous env n1 os name key)).0.backup
              ≡ n.backup)
    by_answer (ok m) rest = rest
    by_answer (fails e) rest = (refl, refl)
    by_answer panics rest = (refl, refl)
    by_answer stuck rest = (refl, refl)

failed :
    (r : Result Unit) (f : Node → Unit → Result Unit) (e : Error)
    → r.1 ≡ fails e
    → and_then r f ≡ (r.0, fails e)
failed (n, r) f e q = ap (λ x. and_then (n, x) f) q

-- Where the removal of a key on the previous owners of its partition fails, `delKeyVal` returns
-- that error, and leaves the node's partitions and backups as they were.
pub del_key_val_refused :
    (env : Env) (n : Node) (dm : DMap) (hkey : ℕ) (name key : Text) (s : Shard) (os : List Host)
    (e : Error)
    → get_shard primary_copy n hkey ≡ (n, ok s)
    → previous_owners s.part.owners ≡ some os
    → (delete_previous env n (reverse os) name key).1 ≡ fails e
    → (n' : Node) × (del_key_val env n dm hkey name key ≡ (n', fails e))
      × (n'.primary ≡ n.primary)
      × (n'.backup ≡ n.backup)
unfolding del_key_val
del_key_val_refused env n dm hkey name key s os e here previous refused =
    let r = delete_previous env n (reverse os) name key in
    (
      r.0,
      and_then-ok _ (get_shard primary_copy n hkey) n s here ∙ rw previous (failed r _ e refused),
      (same_stores env n (reverse os) name key).0,
      (same_stores env n (reverse os) name key).1,
    )
