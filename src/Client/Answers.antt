-- ===== src/Client/Answers.antt =====
-- What a client makes of the responses of a node.
use olricdb.Prelude.{
  ℕ, ◌≡◌, refl, ap, ◌∙◌, subst, Bool, some, List, Text, Outcome, ok, fails, panics, stuck, ◌>>=◌,
}
use olricdb.Protocol.Code.{Message, error, success}
use olricdb.Protocol.Code.OpCode
use olricdb.DMap
use olricdb.DMap.{Node, Env, Result}
use olricdb.DMap.Put
use olricdb.DMap.Put.{ex_put_operation, write_response}
use olricdb.DMap.Get
use olricdb.DMap.Get.{ex_get_operation, get_response}
use olricdb.Client.{
  Error, key_not_found, Serializer, key_message, or_serializer, value_of, get, done, put,
}

module _ {V : Type 0} (ser : Serializer V) (send : ℕ → Message → Outcome Error Message) where
  -- What a client's `Get` makes of what `get` comes to on the node: the text of an error is taken for
  -- a value.
  abbrev pub understood : (DMap.Error → List ℕ) → Outcome DMap.Error (List ℕ) → Outcome Error V
  understood text (ok value) = or_serializer (ser.unmarshal value)
  understood text (fails DMap.key_not_found) = fails key_not_found
  understood text (fails e) = or_serializer (ser.unmarshal (text e))
  understood text panics = panics
  understood text stuck = stuck

  -- A response, read by the client.
  abbrev Back :
      (DMap.Error → List ℕ) → Outcome DMap.Error (List ℕ) → Outcome DMap.Error Message → Type 0
  Back text r (ok m) = value_of ser send m ≡ understood text r
  Back text r _ = Unit

  back :
      (text : DMap.Error → List ℕ) (req : Message) (r : Outcome DMap.Error (List ℕ))
      → Back text r (get_response text req r)
  unfolding get_response value_of error success
  back text req (ok value) = refl
  back text req (fails DMap.key_not_found) = refl
  back text req (fails DMap.transport) = refl
  back text req (fails DMap.no_such_lock) = refl
  back text req (fails DMap.part_not_empty) = refl
  back text req (fails DMap.backup_not_empty) = refl
  back text req (fails DMap.timed_out) = refl
  back text req (fails DMap.no_owner) = refl
  back text req (fails (DMap.internal_server_error t)) = refl
  back text req (fails (DMap.unknown_status t)) = refl
  back text req (fails DMap.register_failed) = refl
  back text req (fails DMap.close_failed) = refl
  back text req (fails DMap.destroy_failed) = refl
  back text req (fails DMap.serializer_failed) = refl
  back text req (fails DMap.mismatched_type) = refl
  back text req (fails (DMap.storage e)) = refl
  back text req (fails (DMap.backup_failed e)) = refl
  back text req panics = tt
  back text req stuck = tt

  -- A client's `Get` whose request is answered with the response of a node's `exGetOperation` gives
  -- what the node's `get` gives, unmarshalled: its value, its ErrKeyNotFound, and for any other
  -- error whatever the text of that error unmarshals to.
  pub get-ex_get_operation_answer :
      (env : Env) (text : DMap.Error → List ℕ) (n : Node) (late : Bool) (name key : Text)
      (req resp : Message)
      → req.dmap ≡ name
      → req.key ≡ key
      → (ex_get_operation env text n late req).1 ≡ ok resp
      → send OpCode.ex_get (key_message name key) ≡ ok resp
      → get ser send name key ≡ understood text (DMap.Get.get env n late name key).1
  unfolding get ex_get_operation
  get-ex_get_operation_answer env text n late name key req resp d k answers sent =
      ap (λ (o : Outcome Error Message). o >>= value_of ser send) sent
      ∙ subst (Back text (DMap.Get.get env n late req.dmap req.key).1) answers
          (back text req (DMap.Get.get env n late req.dmap req.key).1)
      ∙ ap (λ (x : Text). understood text (DMap.Get.get env n late x req.key).1) d
      ∙ ap (λ (x : Text). understood text (DMap.Get.get env n late name x).1) k

  -- A client's `Put` of a value that can be serialized, whose request is answered with the response
  -- to a `put` that failed on the node, reports success.
  pub put-ex_put_operation_failed :
      (env : Env) (text : DMap.Error → List ℕ) (n n' : Node) (late : Bool) (req : Message)
      (e : DMap.Error) (name key : Text) (value : V) (data' : List ℕ)
      → DMap.Put.put env n late req.dmap req.key req.value 0 ≡ (n', fails e)
      → ser.marshal value ≡ some data'
      → ((resp : Message)
          → (ex_put_operation env text n late req).1 ≡ ok resp
          → send OpCode.ex_put (record (key_message name key) { value = data' }) ≡ ok resp)
      → put ser send name key value ≡ ok tt
  unfolding put ex_put_operation write_response or_serializer done
  put-ex_put_operation_failed env text n n' late req e name key value data' failed encoded
        answered =
      rw (encoded, put, or_serializer)
        (ap done' (answered _ (ap (λ (r : Result Unit). (write_response text req r).1) failed)))
    where
      done' : Outcome Error Message → Outcome Error Unit
      done' o = done ser send o
