-- ===== src/Client/Tests.antt =====
-- The theorems of the client on the answers of a node that has no owner for the key.
use olricdb.Prelude.{
  ℕ, ◌≡◌, refl, ap, true, false, none, some, List, [], ◌∷◌, Outcome, ok, fails, panics, stuck,
}
use olricdb.Protocol.Code.{Message, error, status_internal_server_error, zero_message, text}
use olricdb.Protocol.Code.OpCode
use olricdb.DMap
use olricdb.DMap.{Node, Env, Config, Result, request_to, or_transport, check_status, locate}
use olricdb.DMap.Put
use olricdb.DMap.Put.{ex_put_operation, write_response}
use olricdb.DMap.Get
use olricdb.DMap.Get.{ex_get_operation, get_response}
use olricdb.Client.{Error, Serializer, key_message, get, put}
use olricdb.Client.Answers.{understood, get-ex_get_operation_answer, put-ex_put_operation_failed}

-- A node whose bootstrap has run into its deadline.
abbrev node : Node
node = record {
  this = record { name = 97 ∷ []; birthdate = 1 };
  config = record {
    partition_count = 1;
    backup_count = 0;
    async_backups = false;
    with_snapshot = false;
  };
  primary = [];
  backup = [];
  sent = [];
}

abbrev env : Env
env = record {
  mmap = λ n. true;
  registers = λ id name. true;
  network = λ r. none;
  hash = λ bs. 5;
  now = 0;
  mem_count = 1;
  fuel = 2;
}

abbrev error_text : DMap.Error → List ℕ
error_text e = 101 ∷ []

abbrev identity : Serializer (List ℕ)
identity = record {
  marshal = λ v. some v;
  unmarshal = λ bs. some bs;
  marshal_int = λ v. some (v ∷ []);
  unmarshal_int = λ bs. none;
}

abbrev refused : Message
refused = error zero_message status_internal_server_error (text (101 ∷ []))

abbrev send : ℕ → Message → Outcome Error Message
send op req = ok refused

get_run :
    (ex_get_operation env error_text node true (key_message (109 ∷ []) (107 ∷ []))).1 ≡ ok refused
unfolding ex_get_operation Get.get locate get_response error
get_run = refl

get-ex_get_operation_answer_example :
    get identity send (109 ∷ []) (107 ∷ [])
    ≡ understood identity send error_text (DMap.Get.get env node true (109 ∷ []) (107 ∷ [])).1
get-ex_get_operation_answer_example =
    get-ex_get_operation_answer identity send env error_text node true (109 ∷ []) (107 ∷ [])
      (key_message (109 ∷ []) (107 ∷ [])) refused refl refl get_run refl

put_run : DMap.Put.put env node true (109 ∷ []) (107 ∷ []) (7 ∷ []) 0 ≡ (node, fails DMap.timed_out)
unfolding Put.put locate
put_run = refl

abbrev request : Message
request = record (key_message (109 ∷ []) (107 ∷ [])) { value = 7 ∷ [] }

value_of_answer : Outcome DMap.Error Message → Message
value_of_answer o = elim o [ ok m ↦ m | fails _ ↦ refused | panics ↦ refused | stuck ↦ refused ]

put_answered :
    (resp : Message)
    → (ex_put_operation env error_text node true request).1 ≡ ok resp
    → send OpCode.ex_put request ≡ ok resp
unfolding ex_put_operation Put.put locate write_response error value_of_answer
put_answered resp q = ap (λ o. ok (value_of_answer o)) q

put-ex_put_operation_failed_example : put identity send (109 ∷ []) (107 ∷ []) (7 ∷ []) ≡ ok tt
put-ex_put_operation_failed_example =
    put-ex_put_operation_failed identity send env error_text node node true request DMap.timed_out
      (109 ∷ []) (107 ∷ []) (7 ∷ []) (7 ∷ []) put_run refl put_answered
