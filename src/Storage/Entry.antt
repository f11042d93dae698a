-- ===== src/Storage/Entry.antt =====
-- The layout of an entry (internal/storage/table.go): one byte of key length, the key, eight bytes
-- of TTL, four bytes of value length, the value.
use mathlib.Core.List.{append-nil, append_assoc}
use native.Mathlib.Omega.{arith}
use olricdb.Prelude.{
  ℕ, ◌+◌, ◌^◌, ◌≤◌, ◌<◌, ◌≡◌, refl, sym, ap, ◌∙◌, List, [], ◌∷◌, ◌++◌, length, length-append,
  le→leb, lt→ltb, Outcome, ok, ◌>>=◌, Text,
}
use olricdb.Prelude.Bytes.{be, from_be, length-be, from_be-be}
use olricdb.Storage.Memory.{
  Error, Memory, of_bytes, bytes, write, byte_at, read, bytes_eq, bytes-write_piece, byte-write,
}

-- `ttl` is the bit pattern of the int64.
pub record VData : Type 0 where
  pub key : Text
  pub ttl : ℕ
  pub value : List ℕ

abbrev pub size : VData → ℕ
size v = length v.key + length v.value + 13

-- What fits the header's fields.
pub record IsEncodable (v : VData) : Type 0 where
  pub key_short : length v.key < 256
  pub ttl_word : v.ttl < 2 ^ 64
  pub value_short : length v.value < 2 ^ 32

abbrev pub encode : VData → List ℕ
encode v = (length v.key ∷ []) ++ (v.key ++ (be 8 v.ttl ++ (be 4 (length v.value) ++ v.value)))

-- The entry `v` lies at `at`.
pub record Holds (m : Memory) (at : ℕ) (v : VData) : Type 0 where
  pub klen : m.byte at ≡ length v.key
  pub key : bytes m (at + 1) (length v.key) ≡ v.key
  pub ttl : bytes m (at + 1 + length v.key) 8 ≡ be 8 v.ttl
  pub vlen : bytes m (at + 9 + length v.key) 4 ≡ be 4 (length v.value)
  pub value : bytes m (at + 13 + length v.key) (length v.value) ≡ v.value

-- The reads that `get` and `DecodeRaw` share.
unfoldable pub read_vdata : Memory → ℕ → Outcome Error VData
read_vdata m offset = do
  klen ← byte_at m offset
  key ← read m (offset + 1) klen
  ttl ← read m (offset + 1 + klen) 8
  vlen ← read m (offset + 1 + klen + 8) 4
  value ← read m (offset + 1 + klen + 8 + 4) (from_be vlen)
  ok (record { key = key; ttl = from_be ttl; value = value })

-- storage.go's `DecodeRaw`
-- The slice is taken to end at its capacity, as one that `GetRaw` makes does.
unfoldable pub decode_raw : List ℕ → Outcome Error VData
unfolding read_vdata
decode_raw raw = read_vdata (of_bytes raw) 0

pub byte_at_ok : (m : Memory) (at : ℕ) → at < m.len → byte_at m at ≡ ok (m.byte at)
unfolding byte_at
byte_at_ok m at h = rw (lt→ltb at m.len h)

pub read_ok : (m : Memory) (at n : ℕ) → at + n ≤ m.len → read m at n ≡ ok (bytes m at n)
unfolding read
read_ok m at n h = rw (le→leb (at + n) m.len h)

-- Where an entry lies whole inside the mapped area, the reads give it back.
module _ (m : Memory) (at : ℕ) (v : VData) (enc : IsEncodable v) (h : Holds m at v) where
  pub byte_at-Holds : at < m.len → byte_at m at ≡ ok (length v.key)
  byte_at-Holds fits = byte_at_ok m at fits ∙ ap ok h.klen

  pub read_vlen :
      at + size v ≤ m.len → read m (at + 1 + length v.key + 8) 4 ≡ ok (be 4 (length v.value))
  read_vlen fits =
      read_ok m (at + 1 + length v.key + 8) 4 (omega arith)
      ∙ ap (λ o. ok (bytes m o 4)) (omega arith)
      ∙ ap ok h.vlen

  pub from_be_vlen : from_be (be 4 (length v.value)) ≡ length v.value
  from_be_vlen = from_be-be 4 (length v.value) enc.value_short

  pub read_vdata-Holds : at + size v ≤ m.len → read_vdata m at ≡ ok v
  unfolding read_vdata
  read_vdata-Holds fits = rw (
    byte_at-Holds (omega arith),
    read_key,
    read_ttl,
    read_vlen fits,
    from_be_vlen,
    read_value,
    from_be-be 8 v.ttl enc.ttl_word,
  )
    where
      read_key : read m (at + 1) (length v.key) ≡ ok v.key
      read_key = read_ok m (at + 1) (length v.key) (omega arith) ∙ ap ok h.key

      read_ttl : read m (at + 1 + length v.key) 8 ≡ ok (be 8 v.ttl)
      read_ttl = read_ok m (at + 1 + length v.key) 8 (omega arith) ∙ ap ok h.ttl

      read_value : read m (at + 1 + length v.key + 8 + 4) (length v.value) ≡ ok v.value
      read_value =
          read_ok m (at + 1 + length v.key + 8 + 4) (length v.value) (omega arith)
          ∙ ap (λ o. ok (bytes m o (length v.value))) (omega arith)
          ∙ ap ok h.value

-- The entry is where its bytes are.
pub Holds-moved :
    (m m' : Memory) (a b : ℕ) (v : VData)
    → ((i : ℕ) → i < size v → m'.byte (b + i) ≡ m.byte (a + i))
    → Holds m a v
    → Holds m' b v
Holds-moved m m' a b v same h = record {
  klen = ap m'.byte (omega arith) ∙ same 0 (omega arith) ∙ ap m.byte (omega arith) ∙ h.klen;
  key = part 1 (length v.key) (omega arith) ∙ h.key;
  ttl =
      ap (λ o. bytes m' o 8) (omega arith)
      ∙ part (1 + length v.key) 8 (omega arith)
      ∙ ap (λ o. bytes m o 8) (omega arith)
      ∙ h.ttl;
  vlen =
      ap (λ o. bytes m' o 4) (omega arith)
      ∙ part (9 + length v.key) 4 (omega arith)
      ∙ ap (λ o. bytes m o 4) (omega arith)
      ∙ h.vlen;
  value =
      ap (λ o. bytes m' o (length v.value)) (omega arith)
      ∙ part (13 + length v.key) (length v.value) (omega arith)
      ∙ ap (λ o. bytes m o (length v.value)) (omega arith)
      ∙ h.value;
}
  where
    part : (o n : ℕ) → o + n ≤ size v → bytes m' (b + o) n ≡ bytes m (a + o) n
    part o n fits =
        bytes_eq m m' (a + o) (b + o) n
          (λ i lt. ap m'.byte (omega arith) ∙ same (o + i) (omega arith) ∙ ap m.byte (omega arith))

pub length-encode : (v : VData) → length (encode v) ≡ size v
length-encode v = omega (
  arith,
  length-append {0} v.key (be 8 v.ttl ++ (be 4 (length v.value) ++ v.value)),
  length-append {0} (be 8 v.ttl) (be 4 (length v.value) ++ v.value),
  length-append {0} (be 4 (length v.value)) v.value,
  length-be 8 v.ttl,
  length-be 4 (length v.value),
)

-- The five copies of `put`, as one write.
module _ (m : Memory) (at : ℕ) (v : VData) where
  piece :
      (xs ys zs : List ℕ) (o n : ℕ)
      → encode v ≡ xs ++ (ys ++ zs)
      → o ≡ at + length xs
      → n ≡ length ys
      → bytes (write m at (encode v)) o n ≡ ys
  piece xs ys zs o n p q r = rw (p, q, r) (bytes-write_piece m at xs ys zs)

  pub Holds-write : Holds (write m at (encode v)) at v
  Holds-write = record {
    klen =
        ap (write m at (encode v)).byte (omega arith) ∙ byte-write m at (encode v) 0 (omega arith);
    key =
        piece (length v.key ∷ []) v.key (be 8 v.ttl ++ (be 4 (length v.value) ++ v.value)) (at + 1)
          (length v.key) refl refl refl;
    ttl =
        piece (length v.key ∷ v.key) (be 8 v.ttl) (be 4 (length v.value) ++ v.value)
          (at + 1 + length v.key) 8 refl (omega arith) (sym (length-be 8 v.ttl));
    vlen =
        piece (length v.key ∷ (v.key ++ be 8 v.ttl)) (be 4 (length v.value)) v.value
          (at + 9 + length v.key) 4
          (ap (λ l. length v.key ∷ l) (sym (append_assoc v.key (be 8 v.ttl) _)))
          (omega (arith, length-append {0} v.key (be 8 v.ttl), length-be 8 v.ttl))
          (sym (length-be 4 (length v.value)));
    value =
        piece (length v.key ∷ (v.key ++ (be 8 v.ttl ++ be 4 (length v.value)))) v.value []
          (at + 13 + length v.key) (length v.value)
          (ap (λ l. length v.key ∷ l) (simp (append_assoc, append-nil)))
          (omega (
            arith,
            length-append {0} v.key (be 8 v.ttl ++ be 4 (length v.value)),
            length-append {0} (be 8 v.ttl) (be 4 (length v.value)),
            length-be 8 v.ttl,
            length-be 4 (length v.value),
          ))
          refl;
  }
