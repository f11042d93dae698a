-- ===== src/Protocol/Wire.antt =====
-- `Message.Read` and `Message.Write`: a connection is the bytes that are still to come.
use olricdb.Prelude.{
  ℕ, ◌+◌, ◌-◌, ◌%◌, ◌^◌, not, ◌&&◌, ◌||◌, Option, none, some, List, [], ◌∷◌, ◌++◌, length, take,
  drop, ltb, ◌==◌, if◌then◌else◌, Outcome, ok, fails, panics, stuck,
}
use olricdb.Prelude.Bytes.{be, from_be}
use olricdb.Protocol.Code.{
  Header, zero_header, Message, Extra, lock_with_timeout, put_ex, is_part_empty, magic_req,
  magic_res,
}
use olricdb.Protocol.Code.OpCode

pub data Error : Type 0 where
  eof invalid_message value_too_big short_extra : Error

-- What a failed `Read` leaves: the error, and the header as far as it was read.
pub record Refusal : Type 0 where
  pub error : Error
  pub header : Header

-- What is left on the connection, and what the call returns.
abbrev pub Received : Type 0
Received = List ℕ × Outcome Refusal Message

unfoldable pub encode_header : Header → List ℕ
encode_header h =
    be 1 h.magic
    ++ (be 1 h.op
        ++ (be 2 h.dmap_len
            ++ (be 2 h.key_len ++ (be 1 h.extra_len ++ (be 1 h.status ++ be 4 h.body_len)))))

unfoldable pub encode_extra : Option Extra → List ℕ
encode_extra none = []
encode_extra (some (lock_with_timeout ttl)) = be 8 ttl
encode_extra (some (put_ex ttl)) = be 8 ttl
encode_extra (some (is_part_empty part)) = be 8 part

-- `binary.Size` of the extra: eight bytes for each of the three structs.
unfoldable pub extra_len_of : Option Extra → ℕ → ℕ
extra_len_of none old = old
extra_len_of (some _) old = 8

-- The lengths that `Write` puts into the header: conversions to uint16 and uint32 wrap.
unfoldable pub fill_header : Message → Header
unfolding extra_len_of
fill_header m =
    let extra_len = extra_len_of m.extra m.header.extra_len in
    record {
      magic = m.header.magic;
      op = m.header.op;
      dmap_len = length m.dmap % 2 ^ 16;
      key_len = length m.key % 2 ^ 16;
      extra_len = extra_len;
      status = m.header.status;
      body_len = (length m.dmap + length m.key + length m.value + extra_len) % 2 ^ 32;
    }

-- The message with its header filled in, and the bytes that go to the connection.
unfoldable pub write : Message → Message × List ℕ
unfolding fill_header encode_header encode_extra
write m =
    let h = fill_header m in
    (
      record m { header = h },
      encode_header h ++ (encode_extra m.extra ++ (m.dmap ++ (m.key ++ m.value))),
    )

-- The twelve bytes of a header, if there are so many.
unfoldable pub decode_header : List ℕ → Option (Header × List ℕ)
decode_header (m ∷ o ∷ d1 ∷ d0 ∷ k1 ∷ k0 ∷ e ∷ s ∷ b3 ∷ b2 ∷ b1 ∷ b0 ∷ rest) = some (
  record {
    magic = m;
    op = o;
    dmap_len = from_be (d1 ∷ d0 ∷ []);
    key_len = from_be (k1 ∷ k0 ∷ []);
    extra_len = e;
    status = s;
    body_len = from_be (b3 ∷ b2 ∷ b1 ∷ b0 ∷ []);
  },
  rest,
)
decode_header _ = none

-- `binary.Read` of a struct of eight bytes: without a byte it gives `io.EOF`.
unfoldable pub read_word : Header → List ℕ → (ℕ → Extra) → Outcome Refusal (Option Extra)
read_word h raw make =
    if ltb (length raw) 8
    then fails (record { error = if length raw == 0 then eof else short_extra; header = h })
    else ok (some (make (from_be (take 8 raw))))

-- The block that Read's TODO wants to move: which struct the extra bytes are, by the operation.
unfoldable pub read_extra : Header → List ℕ → Outcome Refusal (Option Extra)
unfolding read_word
read_extra h raw =
    if h.op == OpCode.ex_put_ex
    then read_word h raw put_ex
    else if h.op == OpCode.ex_lock_with_timeout || h.op == OpCode.lock_prev
    then read_word h raw lock_with_timeout
    else if h.op == OpCode.is_part_empty || h.op == OpCode.is_backup_empty
    then read_word h raw is_part_empty
    else ok none

-- `DMap`, `Key` and `Value` from what follows the extra. A body shorter than its parts makes
-- `make([]byte, vlen)` panic on a negative length.
unfoldable pub read_parts : Header → Option Extra → List ℕ → Outcome Refusal Message
read_parts h extra buf =
    let after = drop h.dmap_len buf in
    let parts = h.extra_len + h.key_len + h.dmap_len in
    if ltb h.body_len parts
    then panics
    else ok (record {
      header = h;
      extra = extra;
      dmap = take h.dmap_len buf;
      key = take h.key_len after;
      value = take (h.body_len - parts) (drop h.key_len after);
    })

-- The extra bytes are there only in a request.
unfoldable pub read_body : Header → List ℕ → Outcome Refusal Message
unfolding read_extra read_parts
read_body h buf =
    if h.magic == magic_req && ltb 0 h.extra_len
    then elim (read_extra h (take h.extra_len buf)) [
      | ok extra ↦ read_parts h extra (drop h.extra_len buf)
      | fails e ↦ fails e
      | panics ↦ panics
      | stuck ↦ stuck
    ]
    else read_parts h none buf

-- `MaxValueSize`, the header and what follows it.
unfoldable pub read_after_header : ℕ → Header → List ℕ → Received
unfolding read_body
read_after_header max_value_size h conn =
    if not (h.magic == magic_req) && not (h.magic == magic_res)
    then (conn, fails (record { error = invalid_message; header = h }))
    else if ltb (max_value_size + h.extra_len + h.key_len + h.dmap_len) h.body_len
    then (conn, fails (record { error = value_too_big; header = h }))
    else if ltb (length conn) h.body_len
    then ([], fails (record { error = eof; header = h }))
    else (drop h.body_len conn, read_body h (take h.body_len conn))

unfoldable pub read : ℕ → List ℕ → Received
unfolding read_after_header
read max_value_size conn = elim (decode_header conn) [
  | none ↦ ([], fails (record { error = eof; header = zero_header }))
  | some (h, rest) ↦ read_after_header max_value_size h rest
]
