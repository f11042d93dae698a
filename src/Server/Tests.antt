-- ===== src/Server/Tests.antt =====
-- Two requests on one connection.
use native.Mathlib.Omega.{arith}
use olricdb.Prelude.{ℕ, ◌+◌, ◌^◌, ◌≡◌, refl, inl, some, List, [], ◌∷◌, ok}
use olricdb.Protocol.Code.{zero_header, Message, put_ex, magic_req, success}
use olricdb.Protocol.Code.OpCode
use olricdb.Protocol.Wire.{Error}
use olricdb.Protocol.RoundTrip.{IsSendable}
use olricdb.Server.{handle_conn}
use olricdb.Server.Pipeline.{sent, handle_all, all_known, handle_conn_lem}

abbrev request : Message
request = record {
  header = record zero_header { magic = magic_req; op = OpCode.ex_put_ex };
  extra = some (put_ex 1000);
  dmap = 109 ∷ [];
  key = 107 ∷ [];
  value = 1 ∷ [];
}

request-IsSendable : IsSendable (2 ^ 20) request
request-IsSendable = record {
  magic = inl refl;
  op = omega arith;
  status = omega arith;
  dmap_short = omega arith;
  key_short = omega arith;
  value_short = omega arith;
  body_short = omega arith;
  extra_fits = (refl, refl, omega arith);
}

-- Every operation counts.
abbrev counting : ℕ → ℕ → Message → ℕ × Message
counting op n m = (n + 1, success m)

abbrev no_text : Error → List ℕ
no_text e = []

abbrev unknown_text : ℕ → List ℕ
unknown_text op = []

handle_conn_lem_example :
    handle_conn
      (2 ^ 20)
      (all_known counting)
      no_text
      unknown_text
      3
      (record { input = sent (request ∷ request ∷ []); output = []; state = 0 })
    ≡ ok (record {
      input = [];
      output = (handle_all counting 0 (request ∷ request ∷ [])).1;
      state = (handle_all counting 0 (request ∷ request ∷ [])).0;
    })
handle_conn_lem_example =
    handle_conn_lem (2 ^ 20) counting no_text unknown_text (request ∷ request ∷ []) 3 [] 0
      (request-IsSendable, (request-IsSendable, tt)) (omega arith)
