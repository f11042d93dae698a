-- ===== src/DMap/Atomic.antt =====
-- dmap_atomic.go: Incr, Decr and GetPut, under the key's lock.
use olricdb.Prelude.{
  ℕ, ◌+◌, ◌-◌, ◌%◌, ◌^◌, ◌<◌, ◌≡◌, ◌⊎◌, Bool, false, Option, none, some, List, [], ◌==◌,
  if◌then◌else◌, nat_eq, Text, Outcome, ok, fails, panics, stuck,
}
use olricdb.Prelude.Dict.{Dict}
use olricdb.Protocol.Code.{Message, error, success, status_internal_server_error}
use olricdb.Protocol.Code
use olricdb.Protocol.Code.OpCode
use olricdb.Storage.Table.{Table}
use olricdb.DMap.{
  Node, Env, Error, key_not_found, serializer_failed, mismatched_type, Result, and_then,
  and_then-ok,
}
use olricdb.DMap.Put
use olricdb.DMap.Get

-- What the serializer decodes: an int, as its 64-bit pattern, or a value of another type.
pub data Value : Type 0 where
  int : ℕ → Value
  other : Value

-- The serializer, and the error of `lockWithTimeout`, if it returns one.
pub record Atomics : Type 0 where
  pub marshal : ℕ → Option (List ℕ)
  pub unmarshal : List ℕ → Option Value
  pub lock_error : Text → Text → Option Error

pub data Opr : Type 0 where
  incr decr : Opr

abbrev pub new_value : Opr → ℕ → ℕ → ℕ
new_value incr cur delta = (cur + delta) % 2 ^ 64
new_value decr cur delta = (cur + (2 ^ 64 - delta % 2 ^ 64)) % 2 ^ 64

-- The current value: a key that is not there counts as 0.
unfoldable pub current_value : Atomics → Outcome Error (List ℕ) → Outcome Error ℕ
current_value a (ok raw) = elim (a.unmarshal raw) [
  | none ↦ fails serializer_failed
  | some (int v) ↦ ok v
  | some other ↦ fails mismatched_type
]
current_value a (fails key_not_found) = ok 0
current_value a (fails e) = fails e
current_value a panics = panics
current_value a stuck = stuck

unfoldable pub store_value : Env → Atomics → Node → Bool → Text → Text → ℕ → Result ℕ
unfolding Put.put
store_value env a n late name key v = elim (a.marshal v) [
  | none ↦ (n, fails serializer_failed)
  | some nval ↦ and_then (Put.put env n late name key nval 0) λ n1 _. (n1, ok v)
]

-- What follows the read.
unfoldable pub incr_decr_read :
    Env → Atomics → Bool → Text → Text → Opr → ℕ → Result (List ℕ) → Result ℕ
unfolding current_value store_value
incr_decr_read env a late name key opr delta (n, r) =
    and_then (n, current_value a r)
      λ n1 cur. store_value env a n1 late name key (new_value opr cur delta)

-- Under the lock. The unlock at the end only logs its error.
unfoldable pub incr_decr_locked : Env → Atomics → Node → Bool → Text → Text → Opr → ℕ → Result ℕ
unfolding incr_decr_read Get.get
incr_decr_locked env a n late name key opr delta =
    incr_decr_read env a late name key opr delta (Get.get env n late name key)

unfoldable pub atomic_incr_decr : Env → Atomics → Node → Bool → Text → Text → Opr → ℕ → Result ℕ
unfolding incr_decr_locked
atomic_incr_decr env a n late name key opr delta = elim (a.lock_error name key) [
  | some e ↦ (n, fails e)
  | none ↦ incr_decr_locked env a n late name key opr delta
]

-- The old value of `getPut`: nil where the key is not there.
unfoldable pub or_nil : Outcome Error (List ℕ) → Outcome Error (Option (List ℕ))
or_nil (ok raw) = ok (some raw)
or_nil (fails key_not_found) = ok none
or_nil (fails e) = fails e
or_nil panics = panics
or_nil stuck = stuck

unfoldable pub get_put_locked : Env → Node → Bool → Text → Text → List ℕ → Result (Option (List ℕ))
unfolding or_nil Get.get Put.put
get_put_locked env n late name key value =
    let (n1, r) = Get.get env n late name key in
    and_then (n1, or_nil r)
      λ n2 old. and_then (Put.put env n2 late name key value 0) λ n3 _. (n3, ok old)

unfoldable pub get_put :
    Env → Atomics → Node → Bool → Text → Text → List ℕ → Result (Option (List ℕ))
unfolding get_put_locked
get_put env a n late name key value = elim (a.lock_error name key) [
  | some e ↦ (n, fails e)
  | none ↦ get_put_locked env n late name key value
]

-- The response to a call that returns a value.
unfoldable pub value_response : (Error → List ℕ) → Message → Result (List ℕ) → Result Message
value_response text req (n, ok value) = (n, ok (record (success req) { value = value }))
value_response text req (n, fails e) =
    (n, ok (error req status_internal_server_error (Code.text (text e))))
value_response text req (n, panics) = (n, panics)
value_response text req (n, stuck) = (n, stuck)

abbrev pub opr_of : Message → Opr
opr_of req = if req.header.op == OpCode.ex_decr then decr else incr

unfoldable pub marshal_new : Atomics → Result ℕ → Result (List ℕ)
marshal_new a (n, ok v) = elim (a.marshal v) [
  | none ↦ (n, fails serializer_failed)
  | some data' ↦ (n, ok data')
]
marshal_new a (n, fails e) = (n, fails e)
marshal_new a (n, panics) = (n, panics)
marshal_new a (n, stuck) = (n, stuck)

-- The type assertion on `delta` panics on any other type.
unfoldable pub ex_incr_decr_operation :
    Env → Atomics → (Error → List ℕ) → Node → Bool → Message → Result Message
unfolding atomic_incr_decr marshal_new value_response
ex_incr_decr_operation env a text n late req = elim (a.unmarshal req.value) [
  | none ↦ value_response text req (n, fails serializer_failed)
  | some other ↦ (n, panics)
  | some (int delta) ↦
      value_response text req
        (marshal_new a (atomic_incr_decr env a n late req.dmap req.key (opr_of req) delta))
]

-- A nil old value leaves the response without one.
unfoldable pub nil_or_empty : Result (Option (List ℕ)) → Result (List ℕ)
nil_or_empty (n, ok (some old)) = (n, ok old)
nil_or_empty (n, ok none) = (n, ok [])
nil_or_empty (n, fails e) = (n, fails e)
nil_or_empty (n, panics) = (n, panics)
nil_or_empty (n, stuck) = (n, stuck)

unfoldable pub ex_get_put_operation :
    Env → Atomics → (Error → List ℕ) → Node → Bool → Message → Result Message
unfolding get_put nil_or_empty value_response
ex_get_put_operation env a text n late req =
    value_response text req (nil_or_empty (get_put env a n late req.dmap req.key req.value))

stored :
    (env : Env) (a : Atomics) (n n' : Node) (name key : Text) (v : ℕ) (nval : List ℕ)
    → a.marshal v ≡ some nval
    → Put.put env n false name key nval 0 ≡ (n', ok tt)
    → store_value env a n false name key v ≡ (n', ok v)
unfolding store_value
stored env a n n' name key v nval encoded written =
    rw (encoded, store_value)
      (and_then-ok (λ n1 _. (n1, ok v)) (Put.put env n false name key nval 0) n' tt written)

-- The counter's value as the request's owner reads it: a key that is not there counts as 0.
abbrev pub IsCounter : Atomics → Outcome Error (List ℕ) → ℕ → Type 0
IsCounter a r cur =
    ((raw : List ℕ) × (r ≡ ok raw) × (a.unmarshal raw ≡ some (int cur)))
    ⊎ ((r ≡ fails key_not_found) × (cur ≡ 0))

-- The value after the request, as 64-bit patterns: the sum, or what gives the old value if the delta
-- is added back.
abbrev pub IsSum : ℕ → ℕ → ℕ → ℕ → Type 0
IsSum op cur delta v =
    ((op ≡ OpCode.ex_incr) × (v ≡ (cur + delta) % 2 ^ 64))
    ⊎ ((op ≡ OpCode.ex_decr) × (v < 2 ^ 64) × ((v + delta) % 2 ^ 64 ≡ cur))
