-- ===== src/Protocol/Tests.antt =====
-- The protocol's theorems on concrete messages.
use native.Mathlib.Omega.{arith}
use olricdb.Prelude.{◌≡◌, ◌^◌, refl, inl, some, [], ◌∷◌, ◌++◌, ok, panics}
use olricdb.Protocol.Code.{Header, zero_header, Message, put_ex, magic_req, magic_res}
use olricdb.Protocol.Code.OpCode
use olricdb.Protocol.Wire.{encode_header, write, read}
use olricdb.Protocol.RoundTrip.{IsHeader, IsSendable, read-write, read_short_body}

abbrev request : Message
request = record {
  header = record zero_header { magic = magic_req; op = OpCode.ex_put_ex };
  extra = some (put_ex 1000);
  dmap = 109 ∷ [];
  key = 107 ∷ 49 ∷ [];
  value = 1 ∷ 2 ∷ 3 ∷ [];
}

request-IsSendable : IsSendable (2 ^ 20) request
request-IsSendable = record {
  magic = inl refl;
  op = omega arith;
  status = omega arith;
  dmap_short = omega arith;
  key_short = omega arith;
  value_short = omega arith;
  body_short = omega arith;
  extra_fits = (refl, refl, omega arith);
}

read-write_example :
    read (2 ^ 20) ((write request).1 ++ (9 ∷ 9 ∷ [])) ≡ (9 ∷ 9 ∷ [], ok (write request).0)
read-write_example = read-write (2 ^ 20) request request-IsSendable (9 ∷ 9 ∷ [])

abbrev short : Header
short = record zero_header { magic = magic_res; key_len = 3; body_len = 1 }

short-IsHeader : IsHeader short
short-IsHeader = record {
  magic = omega arith;
  op = omega arith;
  dmap_len = omega arith;
  key_len = omega arith;
  extra_len = omega arith;
  status = omega arith;
  body_len = omega arith;
}

read_short_body_example : (read (2 ^ 20) (encode_header short ++ (0 ∷ []))).1 ≡ panics
read_short_body_example =
    read_short_body (2 ^ 20) short (0 ∷ []) short-IsHeader refl (omega arith) (omega arith)
