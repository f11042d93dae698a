-- ===== src/Protocol/Code.antt =====
-- The codes, the header and the message of internal/protocol/protocol.go.
pub mod OpCode
use olricdb.Prelude.{ℕ, ◌+◌, ◌^◌, Option, none, some, List, [], Text}

abbrev pub magic_req : ℕ
magic_req = 0xE2

abbrev pub magic_res : ℕ
magic_res = 0xE3

-- The status codes.
abbrev pub status_ok : ℕ
status_ok = 0

abbrev pub status_internal_server_error : ℕ
status_internal_server_error = 1

abbrev pub status_key_not_found : ℕ
status_key_not_found = 2

abbrev pub status_no_such_lock : ℕ
status_no_such_lock = 3

abbrev pub status_part_not_empty : ℕ
status_part_not_empty = 4

abbrev pub status_backup_not_empty : ℕ
status_backup_not_empty = 5

pub record Header : Type 0 where
  pub magic : ℕ
  pub op : ℕ
  pub dmap_len : ℕ
  pub key_len : ℕ
  pub extra_len : ℕ
  pub status : ℕ
  pub body_len : ℕ

abbrev pub zero_header : Header
zero_header = record {
  magic = 0;
  op = 0;
  dmap_len = 0;
  key_len = 0;
  extra_len = 0;
  status = 0;
  body_len = 0;
}

-- The structs that `Extra` may hold. An int64 is its bit pattern.
pub data Extra : Type 0 where
  lock_with_timeout : ℕ → Extra
  put_ex : ℕ → Extra
  is_part_empty : ℕ → Extra

-- `none` is a nil `Extra`; a nil `Value` is the empty list.
pub record Message : Type 0 where
  pub header : Header
  pub extra : Option Extra
  pub dmap : Text
  pub key : Text
  pub value : List ℕ

abbrev pub zero_message : Message
zero_message = record { header = zero_header; extra = none; dmap = []; key = []; value = [] }

-- What `Error` is given: a string or an error with its text, or neither.
pub data Reason : Type 0 where
  text : List ℕ → Reason
  nothing : Reason

abbrev pub reason_bytes : Reason → List ℕ
reason_bytes (text bs) = bs
reason_bytes nothing = []

unfoldable pub error : Message → ℕ → Reason → Message
error m status reason = record zero_message {
  header = record zero_header { magic = magic_res; op = m.header.op; status = status };
  value = reason_bytes reason;
}

unfoldable pub success : Message → Message
success m = record zero_message {
  header = record zero_header { magic = magic_res; op = m.header.op; status = status_ok };
}
