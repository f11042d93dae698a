-- ===== src/Protocol/RoundTrip.antt =====
-- `Read` takes back what `Write` gives.
use mathlib.Core.List.{append_assoc}
use native.Mathlib.Omega.{arith}
use olricdb.Prelude.{
  ℕ, ◌+◌, ◌-◌, ◌^◌, ◌<◌, ◌≤◌, ◌≡◌, refl, sym, ap, ◌∙◌, ◌⊎◌, true, false, not, ◌&&◌, Option, none,
  some, List, ◌++◌, length, take, drop, length-append, take-append, drop-append, take_all, ltb,
  ◌==◌, ok, panics,
}
use olricdb.Prelude.Bytes.{be, from_be, from_be-be, length-be}
use olricdb.Protocol.Code.{
  Header, Message, Extra, lock_with_timeout, put_ex, is_part_empty, magic_req, magic_res,
}
use olricdb.Protocol.Code.OpCode
use olricdb.Protocol.Wire.{
  encode_header, encode_extra, extra_len_of, fill_header, write, decode_header, read_extra,
  read_word, read_parts, read_body, read_after_header, read,
}

-- The values of a header in the ranges of its Go types.
pub record IsHeader (h : Header) : Type 0 where
  pub magic : h.magic < 256
  pub op : h.op < 256
  pub dmap_len : h.dmap_len < 2 ^ 16
  pub key_len : h.key_len < 2 ^ 16
  pub extra_len : h.extra_len < 256
  pub status : h.status < 256
  pub body_len : h.body_len < 2 ^ 32

decode-encode_header :
    (h : Header) (rest : List ℕ)
    → IsHeader h
    → decode_header (encode_header h ++ rest) ≡ some (h, rest)
unfolding decode_header encode_header be from_be
decode-encode_header h rest w = ground arith

-- The extra is one that `Read` looks for in a message with this magic, operation and length.
abbrev pub ExtraFits : Header → Option Extra → Type 0
ExtraFits h none = h.extra_len ≡ 0
ExtraFits h (some (put_ex ttl)) = (h.magic ≡ magic_req) × (h.op ≡ OpCode.ex_put_ex) × (ttl < 2 ^ 64)
ExtraFits h (some (lock_with_timeout ttl)) =
    (h.magic ≡ magic_req)
    × ((h.op ≡ OpCode.ex_lock_with_timeout) ⊎ (h.op ≡ OpCode.lock_prev))
    × (ttl < 2 ^ 64)
ExtraFits h (some (is_part_empty part)) =
    (h.magic ≡ magic_req)
    × ((h.op ≡ OpCode.is_part_empty) ⊎ (h.op ≡ OpCode.is_backup_empty))
    × (part < 2 ^ 64)

abbrev pub extra_size : Option Extra → ℕ
extra_size none = 0
extra_size (some _) = 8

-- A message that fits the protocol and the receiver's limit.
pub record IsSendable (max_value_size : ℕ) (m : Message) : Type 0 where
  pub magic : (m.header.magic ≡ magic_req) ⊎ (m.header.magic ≡ magic_res)
  pub op : m.header.op < 256
  pub status : m.header.status < 256
  pub dmap_short : length m.dmap < 2 ^ 16
  pub key_short : length m.key < 2 ^ 16
  pub value_short : length m.value ≤ max_value_size
  pub body_short : length m.dmap + length m.key + length m.value + extra_size m.extra < 2 ^ 32
  pub extra_fits : ExtraFits m.header m.extra

-- The eight bytes of an extra, read as the struct that the operation calls for.
module _ (h : Header) (x : List ℕ) (t : ℕ) (word : t < 2 ^ 64) (make : ℕ → Extra) where
  read_word_lem : read_word h (be 8 t) make ≡ ok (some (make t))
  unfolding read_word
  read_word_lem = rw (length-be 8 t) (
      ap (λ n. ok (some (make (from_be n)))) (take_all 8 (be 8 t) (omega (arith, length-be 8 t)))
      ∙ ap (λ n. ok (some (make n))) (from_be-be 8 t word))

  read_body_extra :
      h.magic ≡ magic_req
      → h.extra_len ≡ 8
      → read_extra h (be 8 t) ≡ read_word h (be 8 t) make
      → read_body h (be 8 t ++ x) ≡ read_parts h (some (make t)) x
  unfolding read_body
  read_body_extra req len kind =
      rw (is_extra, extra_bytes, kind, read_word_lem) (ap (read_parts h (some (make t))) rest_bytes)
    where
      is_extra : (h.magic == magic_req && ltb 0 h.extra_len) ≡ true
      is_extra = ground arith

      extra_bytes : take h.extra_len (be 8 t ++ x) ≡ be 8 t
      extra_bytes =
          ap (λ n. take n (be 8 t ++ x)) (len ∙ sym (length-be 8 t)) ∙ take-append (be 8 t) x

      rest_bytes : drop h.extra_len (be 8 t ++ x) ≡ x
      rest_bytes =
          ap (λ n. drop n (be 8 t ++ x)) (len ∙ sym (length-be 8 t)) ∙ drop-append (be 8 t) x

read_body_lem :
    (h : Header) (e : Option Extra) (x : List ℕ)
    → ExtraFits h e
    → h.extra_len ≡ extra_size e
    → read_body h (encode_extra e ++ x) ≡ read_parts h e x
unfolding encode_extra read_body read_extra
read_body_lem h none x fits len = rw (no_extra) refl
  where
    no_extra : (h.magic == magic_req && ltb 0 h.extra_len) ≡ false
    no_extra = ground arith
read_body_lem h (some (put_ex t)) x (req, op, word) len =
    read_body_extra h x t word put_ex req len (unfold read_extra in ground arith)
read_body_lem h (some (lock_with_timeout t)) x (req, op, word) len =
    read_body_extra h x t word lock_with_timeout req len (unfold read_extra in ground arith)
read_body_lem h (some (is_part_empty t)) x (req, op, word) len =
    read_body_extra h x t word is_part_empty req len (unfold read_extra in ground arith)

module _ (max_value_size : ℕ) (m : Message) (w : IsSendable max_value_size m) where
  extra_len_lem : (fill_header m).extra_len ≡ extra_size m.extra
  unfolding fill_header
  extra_len_lem = by_extra m.extra w.extra_fits
    where
      by_extra :
          (e : Option Extra)
          → ExtraFits m.header e
          → extra_len_of e m.header.extra_len ≡ extra_size e
      by_extra none h = h
      by_extra (some e) h = refl

  dmap_len_lem : (fill_header m).dmap_len ≡ length m.dmap
  unfolding fill_header
  dmap_len_lem = omega (arith, w.dmap_short)

  key_len_lem : (fill_header m).key_len ≡ length m.key
  unfolding fill_header
  key_len_lem = omega (arith, w.key_short)

  body_len_lem :
      (fill_header m).body_len ≡ length m.dmap + length m.key + length m.value + extra_size m.extra
  unfolding fill_header
  body_len_lem = omega (arith, w.body_short, extra_len_lem)

  filled-IsHeader : IsHeader (fill_header m)
  unfolding fill_header
  filled-IsHeader = record {
    magic = ground (arith, w.magic);
    op = w.op;
    dmap_len = omega arith;
    key_len = omega arith;
    extra_len = ground (arith, extra_len_lem);
    status = w.status;
    body_len = omega arith;
  }

  abbrev body : List ℕ
  body = encode_extra m.extra ++ (m.dmap ++ (m.key ++ m.value))

  length-extra : length (encode_extra m.extra) ≡ extra_size m.extra
  unfolding encode_extra
  length-extra = by_extra m.extra
    where
      by_extra : (e : Option Extra) → length (encode_extra e) ≡ extra_size e
      by_extra none = refl
      by_extra (some (lock_with_timeout t)) = length-be 8 t
      by_extra (some (put_ex t)) = length-be 8 t
      by_extra (some (is_part_empty t)) = length-be 8 t

  length-body : length body ≡ (fill_header m).body_len
  length-body = omega (
    arith,
    body_len_lem,
    length-extra,
    length-append {0} (encode_extra m.extra) (m.dmap ++ (m.key ++ m.value)),
    length-append {0} m.dmap (m.key ++ m.value),
    length-append {0} m.key m.value,
  )

  abbrev sent : Message
  sent = record m { header = fill_header m }

  read_parts_lem : read_parts (fill_header m) m.extra (m.dmap ++ (m.key ++ m.value)) ≡ ok sent
  unfolding read_parts
  read_parts_lem = rw long_enough (λ i. ok (record {
    header = fill_header m;
    extra = m.extra;
    dmap = dmap_read i;
    key = key_read i;
    value = value_read i;
  }))
    where
      h : Header
      h = fill_header m

      long_enough : ltb h.body_len (h.extra_len + h.key_len + h.dmap_len) ≡ false
      long_enough = ground (arith, extra_len_lem, key_len_lem, dmap_len_lem, body_len_lem)

      dmap_read : take h.dmap_len (m.dmap ++ (m.key ++ m.value)) ≡ m.dmap
      dmap_read =
          ap (λ n. take n (m.dmap ++ (m.key ++ m.value))) dmap_len_lem
          ∙ take-append m.dmap (m.key ++ m.value)

      after_dmap : drop h.dmap_len (m.dmap ++ (m.key ++ m.value)) ≡ m.key ++ m.value
      after_dmap =
          ap (λ n. drop n (m.dmap ++ (m.key ++ m.value))) dmap_len_lem
          ∙ drop-append m.dmap (m.key ++ m.value)

      key_read : take h.key_len (drop h.dmap_len (m.dmap ++ (m.key ++ m.value))) ≡ m.key
      key_read =
          ap (take h.key_len) after_dmap
          ∙ ap (λ n. take n (m.key ++ m.value)) key_len_lem
          ∙ take-append m.key m.value

      after_key : drop h.key_len (drop h.dmap_len (m.dmap ++ (m.key ++ m.value))) ≡ m.value
      after_key =
          ap (drop h.key_len) after_dmap
          ∙ ap (λ n. drop n (m.key ++ m.value)) key_len_lem
          ∙ drop-append m.key m.value

      value_read :
          take
            (h.body_len - (h.extra_len + h.key_len + h.dmap_len))
            (drop h.key_len (drop h.dmap_len (m.dmap ++ (m.key ++ m.value))))
          ≡ m.value
      value_read =
          ap (take (h.body_len - (h.extra_len + h.key_len + h.dmap_len))) after_key
          ∙ take_all (h.body_len - (h.extra_len + h.key_len + h.dmap_len)) m.value
              (omega (arith, extra_len_lem, key_len_lem, dmap_len_lem, body_len_lem))

  same_fits : ExtraFits (fill_header m) m.extra
  same_fits = by_extra m.extra w.extra_fits extra_len_lem
    where
      by_extra :
          (e : Option Extra)
          → ExtraFits m.header e
          → (fill_header m).extra_len ≡ extra_size e
          → ExtraFits (fill_header m) e
      by_extra none f l = l
      by_extra (some (put_ex t)) f l = unfold fill_header in f
      by_extra (some (lock_with_timeout t)) f l = unfold fill_header in f
      by_extra (some (is_part_empty t)) f l = unfold fill_header in f

  read_after_header_lem :
      (rest : List ℕ)
      → read_after_header max_value_size (fill_header m) (body ++ rest) ≡ (rest, ok sent)
  unfolding read_after_header
  read_after_header_lem rest =
      rw (known_magic, small_value, all_there)
        (λ i. (rest_left i, (ap (read_body h) body_taken ∙ read_all) i))
    where
      h : Header
      h = fill_header m

      known_magic : (not (h.magic == magic_req) && not (h.magic == magic_res)) ≡ false
      known_magic = unfold fill_header in ground (arith, w.magic)

      small_value : ltb (max_value_size + h.extra_len + h.key_len + h.dmap_len) h.body_len ≡ false
      small_value =
          ground (arith, extra_len_lem, key_len_lem, dmap_len_lem, body_len_lem, w.value_short)

      all_there : ltb (length (body ++ rest)) h.body_len ≡ false
      all_there = ground (arith, length-append {0} body rest, length-body)

      body_taken : take h.body_len (body ++ rest) ≡ body
      body_taken = ap (λ n. take n (body ++ rest)) (sym length-body) ∙ take-append body rest

      rest_left : drop h.body_len (body ++ rest) ≡ rest
      rest_left = ap (λ n. drop n (body ++ rest)) (sym length-body) ∙ drop-append body rest

      read_all : read_body h body ≡ ok sent
      read_all =
          read_body_lem h m.extra (m.dmap ++ (m.key ++ m.value)) same_fits extra_len_lem
          ∙ read_parts_lem

  -- `Read`, on a connection that starts with what `Write` sent for a message that fits the protocol
  -- and the receiver's limit, gives that message with its header filled in, and leaves on the
  -- connection exactly what follows.
  pub read-write :
      (rest : List ℕ) → read max_value_size ((write m).1 ++ rest) ≡ (rest, ok (write m).0)
  unfolding read write
  read-write rest =
      ap (read max_value_size) (append_assoc (encode_header (fill_header m)) body rest)
      ∙ rw (decode-encode_header (fill_header m) (body ++ rest) filled-IsHeader, read)
          (read_after_header_lem rest)

-- `Read` of a response whose header is in the ranges of its fields and whose body length is below
-- the sum of its parts' lengths, with that body on the connection, panics whatever follows and
-- whatever the limit.
pub read_short_body :
    (max_value_size : ℕ) (h : Header) (conn : List ℕ)
    → IsHeader h
    → h.magic ≡ magic_res
    → h.body_len < h.extra_len + h.key_len + h.dmap_len
    → h.body_len ≤ length conn
    → (read max_value_size (encode_header h ++ conn)).1 ≡ panics
unfolding read read_after_header read_body read_parts
read_short_body max_value_size h conn w res short there =
    rw (decode-encode_header h conn w, read) (ground arith)
