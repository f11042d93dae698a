-- ===== src/Storage/Memory.antt =====
-- The mapped area of a table, and the slice operations of Go that reach it.
use native.Mathlib.Omega.{arith}
use olricdb.Prelude.{
  ℕ, zero, suc, ◌+◌, ◌-◌, ◌≤◌, ◌<◌, ◌≡◌, refl, ap, ◌∙◌, List, [], ◌∷◌, ◌++◌, length, get_or, take,
  ltb, leb, ◌==◌, if◌then◌else◌, Outcome, ok, panics,
}
use olricdb.Prelude.Bytes.{be}

pub data Error : Type 0 where
  not_enough_space key_too_large key_not_found fragmented mmap_failed encode_failed decode_failed :
      Error

-- A `[]byte`: its length and its bytes. Past the length the function has no meaning.
pub record Memory : Type 0 where
  pub len : ℕ
  pub byte : ℕ → ℕ

-- What an anonymous `mmap` of `size` bytes gives.
abbrev pub zeroed : ℕ → Memory
zeroed size = record { len = size; byte = λ _. 0 }

abbrev pub of_bytes : List ℕ → Memory
of_bytes bs = record { len = length bs; byte = λ i. get_or bs i 0 }

-- The `n` bytes from `at`.
unfoldable pub bytes : Memory → ℕ → ℕ → List ℕ
bytes m at zero = []
bytes m at (suc n) = m.byte at ∷ bytes m (at + 1) n

poke : Memory → ℕ → ℕ → Memory
poke m at b = record m { byte = λ i. if i == at then b else m.byte i }

pub write : Memory → ℕ → List ℕ → Memory
unfolding poke
write m at [] = m
write m at (b ∷ bs) = write (poke m at b) (at + 1) bs

-- `m[at]`
unfoldable pub byte_at : Memory → ℕ → Outcome Error ℕ
byte_at m at = if ltb at m.len then ok (m.byte at) else panics

-- `m[at : at+n]`
unfoldable pub read : Memory → ℕ → ℕ → Outcome Error (List ℕ)
read m at n = if leb (at + n) m.len then ok (bytes m at n) else panics

-- `copy(m[at:], bs)`: what does not fit is left out.
unfoldable pub copy : Memory → ℕ → List ℕ → Outcome Error Memory
copy m at bs = if leb at m.len then ok (write m at (take (m.len - at) bs)) else panics

-- `binary.BigEndian.PutUint64(m[at:], v)` and `PutUint32`, with `n` bytes.
unfoldable pub put_be : ℕ → Memory → ℕ → ℕ → Outcome Error Memory
put_be n m at v = if leb (at + n) m.len then ok (write m at (be n v)) else panics

pub len-write : (m : Memory) (at : ℕ) (bs : List ℕ) → (write m at bs).len ≡ m.len
unfolding write poke
len-write m at [] = refl
len-write m at (b ∷ bs) = len-write (poke m at b) (at + 1) bs

pub byte-write_below :
    (m : Memory) (at : ℕ) (bs : List ℕ) (i : ℕ) → i < at → (write m at bs).byte i ≡ m.byte i
unfolding write poke
byte-write_below m at [] i h = refl
byte-write_below m at (b ∷ bs) i h =
    byte-write_below (poke m at b) (at + 1) bs i (omega arith) ∙ ground arith

pub byte-write :
    (m : Memory) (at : ℕ) (bs : List ℕ) (i : ℕ)
    → i < length bs
    → (write m at bs).byte (at + i) ≡ get_or bs i 0
unfolding write poke
byte-write m at [] i h = absurd (omega arith)
byte-write m at (b ∷ bs) zero h =
    byte-write_below (poke m at b) (at + 1) bs (at + 0) (omega arith) ∙ ground arith
byte-write m at (b ∷ bs) (suc i) h =
    ap (write (poke m at b) (at + 1) bs).byte shift
    ∙ byte-write (poke m at b) (at + 1) bs i (omega arith)
  where
    shift : at + suc i ≡ at + 1 + i
    shift = omega arith

pub write-append :
    (m : Memory) (at : ℕ) (xs ys : List ℕ)
    → write (write m at xs) (at + length xs) ys ≡ write m at (xs ++ ys)
unfolding write
write-append m at [] ys = ap (λ a. write m a ys) (omega arith)
write-append m at (x ∷ xs) ys =
    ap (λ a. write (write (poke m at x) (at + 1) xs) a ys) shift
    ∙ write-append (poke m at x) (at + 1) xs ys
  where
    shift : at + suc (length xs) ≡ at + 1 + length xs
    shift = omega arith

cons_eq : {x y : ℕ} {xs ys : List ℕ} → x ≡ y → xs ≡ ys → x ∷ xs ≡ y ∷ ys
cons_eq p q = λ i. p i ∷ q i

-- Two areas that agree over a range hold the same bytes there.
pub bytes_eq :
    (m m' : Memory) (a b n : ℕ)
    → ((i : ℕ) → i < n → m'.byte (b + i) ≡ m.byte (a + i))
    → bytes m' b n ≡ bytes m a n
unfolding bytes
bytes_eq m m' a b zero h = refl
bytes_eq m m' a b (suc n) h = cons_eq first (bytes_eq m m' (a + 1) (b + 1) n next)
  where
    first : m'.byte b ≡ m.byte a
    first = ap m'.byte (omega arith) ∙ h 0 (omega arith) ∙ ap m.byte (omega arith)

    next : (j : ℕ) → j < n → m'.byte (b + 1 + j) ≡ m.byte (a + 1 + j)
    next j lt = ap m'.byte (omega arith) ∙ h (suc j) (omega arith) ∙ ap m.byte (omega arith)

pub bytes-write_below :
    (m : Memory) (at : ℕ) (bs : List ℕ) (a n : ℕ)
    → a + n ≤ at
    → bytes (write m at bs) a n ≡ bytes m a n
bytes-write_below m at bs a n h =
    bytes_eq m (write m at bs) a a n (λ i lt. byte-write_below m at bs (a + i) (omega arith))

bytes-write_self : (m : Memory) (at : ℕ) (bs : List ℕ) → bytes (write m at bs) at (length bs) ≡ bs
unfolding bytes write poke
bytes-write_self m at [] = refl
bytes-write_self m at (b ∷ bs) =
    cons_eq (byte-write_below (poke m at b) (at + 1) bs at (omega arith) ∙ ground arith)
      (bytes-write_self (poke m at b) (at + 1) bs)

-- What was written between two other pieces is read back.
pub bytes-write_piece :
    (m : Memory) (at : ℕ) (xs ys zs : List ℕ)
    → bytes (write m at (xs ++ (ys ++ zs))) (at + length xs) (length ys) ≡ ys
bytes-write_piece m at xs ys zs = rw (← write-append m at xs (ys ++ zs)) (
    rw (← write-append (write m at xs) (at + length xs) ys zs) (
      bytes-write_below (write (write m at xs) (at + length xs) ys) (at + length xs + length ys) zs
        (at + length xs) (length ys) (omega arith)
      ∙ bytes-write_self (write m at xs) (at + length xs) ys))

pub length-bytes : (m : Memory) (at n : ℕ) → length (bytes m at n) ≡ n
unfolding bytes
length-bytes m at zero = refl
length-bytes m at (suc n) = ap suc (length-bytes m (at + 1) n)

pub get_or-bytes : (m : Memory) (at n i : ℕ) → i < n → get_or (bytes m at n) i 0 ≡ m.byte (at + i)
unfolding bytes
get_or-bytes m at zero i h = absurd (omega arith)
get_or-bytes m at (suc n) zero h = ap m.byte (omega arith)
get_or-bytes m at (suc n) (suc i) h =
    get_or-bytes m (at + 1) n i (omega arith) ∙ ap m.byte (omega arith)
