-- ===== src/DMap/Forward.antt =====
-- A request that a node forwards to the owner of the key.
use olricdb.Prelude.{
  ℕ, ◌≡◌, refl, ap, ◌∙◌, Bool, false, some, List, Text, Outcome, ok, fails, panics, stuck, subst,
}
use olricdb.Protocol.Code.{Message, error, success}
use olricdb.Protocol.Code.OpCode
use olricdb.Discovery.{Host, host_cmp}
use olricdb.DMap.{
  Node, Env, Error, key_not_found, transport, no_such_lock, part_not_empty, backup_not_empty,
  timed_out, no_owner, internal_server_error, unknown_status, register_failed, close_failed,
  destroy_failed, serializer_failed, mismatched_type, storage, backup_failed, Result, request_to,
  or_transport, check_status, status_error, and_then, and_then-ok, get_hkey, locate,
}
use olricdb.DMap.Put.{key_request}
use olricdb.DMap.Get.{get, get_response, ex_get_operation}

-- What is left of the owner's result on the other node: an error other than ErrKeyNotFound arrives
-- as an internal server error with its text.
abbrev pub forwarded : (Error → List ℕ) → Outcome Error (List ℕ) → Outcome Error (List ℕ)
forwarded text (ok value) = ok value
forwarded text (fails key_not_found) = fails key_not_found
forwarded text (fails e) = fails (internal_server_error (text e))
forwarded text panics = panics
forwarded text stuck = stuck

abbrev value_of : Outcome Error Message → Outcome Error (List ℕ)
value_of (ok m) = ok m.value
value_of (fails e) = fails e
value_of panics = panics
value_of stuck = stuck

-- The response to a result, read back.
abbrev Back : (Error → List ℕ) → Message → Outcome Error (List ℕ) → Outcome Error Message → Type 0
Back text req r (ok m) = value_of (check_status m) ≡ forwarded text r
Back text req r _ = Unit

back :
    (text : Error → List ℕ) (req : Message) (r : Outcome Error (List ℕ))
    → Back text req r (get_response text req r)
unfolding get_response check_status status_error error success
back text req (ok value) = refl
back text req (fails key_not_found) = refl
back text req (fails transport) = refl
back text req (fails no_such_lock) = refl
back text req (fails part_not_empty) = refl
back text req (fails backup_not_empty) = refl
back text req (fails timed_out) = refl
back text req (fails no_owner) = refl
back text req (fails (internal_server_error t)) = refl
back text req (fails (unknown_status t)) = refl
back text req (fails register_failed) = refl
back text req (fails close_failed) = refl
back text req (fails destroy_failed) = refl
back text req (fails serializer_failed) = refl
back text req (fails mismatched_type) = refl
back text req (fails (storage e)) = refl
back text req (fails (backup_failed e)) = refl
back text req panics = tt
back text req stuck = tt

respond :
    (text : Error → List ℕ) (req resp : Message) (r : Outcome Error (List ℕ))
    → get_response text req r ≡ ok resp
    → value_of (check_status resp) ≡ forwarded text r
respond text req resp r q = subst (Back text req r) q (back text req r)

take_value :
    (m : Node) (o : Outcome Error Message)
    → (and_then (m, o) (λ n resp. (n, ok resp.value))).1 ≡ value_of o
take_value m (ok resp) = refl
take_value m (fails e) = refl
take_value m panics = refl
take_value m stuck = refl

-- A `get` on a node that takes another node for the owner of the key, and gets as its answer to
-- OpExGet the response of that node's `exGetOperation`, gives what `get` gives on that node: its
-- value, its ErrKeyNotFound, and for any other error an internal server error with that error's
-- text.
pub get-ex_get_operation :
    (env env' : Env) (text : Error → List ℕ) (n o : Node) (late : Bool) (name key : Text)
    (owner : Host) (resp : Message)
    → locate n false (get_hkey env name key) ≡ (n, ok owner)
    → host_cmp owner n.this ≡ false
    → (ex_get_operation env' text o late (key_request name key)).1 ≡ ok resp
    → env.network (record { addr = owner.name; op = OpCode.ex_get; message = key_request name key })
      ≡ some resp
    → (get env n false name key).1 ≡ forwarded text (get env' o late name key).1
unfolding get ex_get_operation request_to or_transport
get-ex_get_operation env env' text n o late name key owner resp located other answers sent =
    ap (λ (r : Result (List ℕ)). r.1)
      (and_then-ok _ (locate n false (get_hkey env name key)) n owner located)
    ∙ rw other (
        take_value _ (
          or_transport (
            env.network
              (record { addr = owner.name; op = OpCode.ex_get; message = key_request name key })))
        ∙ ap value_of (ap or_transport sent)
        ∙ respond text (key_request name key) resp (get env' o late name key).1 answers)
