-- ===== src/Client.antt =====
-- internal/transport/client.go and client/client.go: the requests of a client outside the cluster.
pub mod Answers
mod Tests
use olricdb.Prelude.{
  ℕ, ◌%◌, Bool, true, false, not, Option, none, some, List, [], ◌∷◌, ◌==◌, if◌then◌else◌, nat_eq,
  Text, text_eq, length, get_or, Outcome, ok, fails, panics, stuck, ◌>>=◌,
}
use olricdb.Prelude.Dict.{Dict, lookup, insert}
use olricdb.Protocol.Code.{
  Message, Extra, magic_req, zero_message, status_key_not_found, status_no_such_lock,
}
use olricdb.Protocol.Code.OpCode
use olricdb.Protocol.Wire.{write, read}

-- The network below the pools, which are a library: whether a pool can be made for an address, and
-- gives a connection, and what a host sends back on a request's bytes, none where the writing fails.
pub record Net : Type 0 where
  pub pools : Text → Bool
  pub connects : Text → Bool
  pub answers : Text → List ℕ → Option (List ℕ)
  pub max_value_size : ℕ

pub data Error : Type 0 where
  pool_failed connect_failed write_failed read_failed serializer_failed : Error
  key_not_found no_such_lock : Error

-- The pools are told apart by their address; the value says whether the pool is open.
abbrev pub Pools : Type 0
Pools = Dict Text Bool

-- `CloseWithAddr`: closing a pool that is not there calls a method of a nil interface.
unfoldable pub close_with_addr : Pools → Text → Outcome Error Pools
close_with_addr pools addr = elim (lookup addr pools) [ some _ ↦ ok pools | none ↦ panics ]

unfoldable pub get_pool : Net → Pools → Text → Outcome Error Pools
get_pool net pools addr = elim (lookup addr pools) [
  | some _ ↦ ok pools
  | none ↦ if net.pools addr then ok (insert addr true pools) else fails pool_failed
]

-- `resp.Read` on what came back.
unfoldable pub read_answer : Net → Option (List ℕ) → Outcome Error Message
read_answer net none = fails write_failed
read_answer net (some bytes) = elim (read net.max_value_size bytes).1 [
  | ok resp ↦ ok resp
  | fails _ ↦ fails read_failed
  | panics ↦ panics
  | stuck ↦ stuck
]

abbrev pub with_op : ℕ → Message → Message
with_op op req = record req { header = record (req.header) { magic = magic_req; op = op } }

unfoldable pub exchange : Net → Text → ℕ → Message → Outcome Error Message
unfolding read_answer write
exchange net addr op req =
    if not (net.connects addr)
    then fails connect_failed
    else read_answer net (net.answers addr (write (with_op op req)).1)

-- The pools after the call, and what `RequestTo` returns.
unfoldable pub request_to : Net → Pools → Text → ℕ → Message → Pools × Outcome Error Message
unfolding get_pool exchange
request_to net pools addr op req = elim (get_pool net pools addr) [
  | ok pools' ↦ (pools', exchange net addr op req)
  | fails e ↦ (pools, fails e)
  | panics ↦ (pools, panics)
  | stuck ↦ (pools, stuck)
]

-- `Request`, to the address that `rand` picks; `rand.Intn` panics on no addresses.
unfoldable pub request : Net → Pools → List Text → ℕ → ℕ → Message → Pools × Outcome Error Message
unfolding request_to
request net pools [] pick op req = (pools, panics)
request net pools (a ∷ addrs) pick op req =
    request_to net pools (get_or (a ∷ addrs) (pick % length (a ∷ addrs)) a) op req

-- The serializer, for the values of type `V` and for ints.
pub record Serializer (V : Type 0) : Type 0 where
  pub marshal : V → Option (List ℕ)
  pub unmarshal : List ℕ → Option V
  pub marshal_int : ℕ → Option (List ℕ)
  pub unmarshal_int : List ℕ → Option ℕ

unfoldable pub or_serializer : {A : Type 0} → Option A → Outcome Error A
or_serializer none = fails serializer_failed
or_serializer (some a) = ok a

abbrev pub key_message : Text → Text → Message
key_message name key = record zero_message { dmap = name; key = key }

-- `send` is `d.client.Request`.
module _ {V : Type 0} (ser : Serializer V) (send : ℕ → Message → Outcome Error Message) where
  unfoldable pub value_of : Message → Outcome Error V
  unfolding or_serializer
  value_of resp =
      if resp.header.status == status_key_not_found
      then fails key_not_found
      else or_serializer (ser.unmarshal resp.value)

  unfoldable pub get : Text → Text → Outcome Error V
  unfolding value_of
  get name key = do resp ← send OpCode.ex_get (key_message name key); value_of resp

  -- The response's status is not looked at.
  unfoldable pub done : Outcome Error Message → Outcome Error Unit
  done (ok resp) = ok tt
  done (fails e) = fails e
  done panics = panics
  done stuck = stuck

  unfoldable pub put : Text → Text → V → Outcome Error Unit
  unfolding or_serializer done
  put name key value = do
    data' ← or_serializer (ser.marshal value)
    done (send OpCode.ex_put (record (key_message name key) { value = data' }))

  unfoldable pub put_ex : Text → Text → V → ℕ → Outcome Error Unit
  unfolding or_serializer done
  put_ex name key value timeout = do
    data' ← or_serializer (ser.marshal value)
    done (
        send OpCode.ex_put_ex
          (record (key_message name key) { value = data'; extra = some (Extra.put_ex timeout) }))

  unfoldable pub delete : Text → Text → Outcome Error Unit
  unfolding done
  delete name key = done (send OpCode.ex_delete (key_message name key))

  unfoldable pub lock_with_timeout : Text → Text → ℕ → Outcome Error Unit
  unfolding done
  lock_with_timeout name key timeout = done (
      send OpCode.ex_lock_with_timeout
        (record (key_message name key) { extra = some (Extra.lock_with_timeout timeout) }))

  -- The status of a nil response is read where the request failed.
  unfoldable pub unlocked : Outcome Error Message → Outcome Error Unit
  unlocked (ok resp) =
      if resp.header.status == status_no_such_lock then fails no_such_lock else ok tt
  unlocked (fails e) = panics
  unlocked panics = panics
  unlocked stuck = stuck

  unfoldable pub unlock : Text → Text → Outcome Error Unit
  unfolding unlocked
  unlock name key = unlocked (send OpCode.ex_unlock (key_message name key))

  unfoldable pub destroy : Text → Outcome Error Unit
  unfolding done
  destroy name = done (send OpCode.ex_destroy (record zero_message { dmap = name }))

  -- The type assertion comes before the error of `Unmarshal`: on one it panics.
  unfoldable pub int_of : Message → Outcome Error ℕ
  int_of resp = elim (ser.unmarshal_int resp.value) [ some v ↦ ok v | none ↦ panics ]

  unfoldable pub incr_decr : ℕ → Text → Text → ℕ → Outcome Error ℕ
  unfolding or_serializer int_of
  incr_decr op name key delta = do
    value ← or_serializer (ser.marshal_int delta)
    resp ← send op (record (key_message name key) { value = value })
    int_of resp

  unfoldable pub old_value : List ℕ → Outcome Error (Option V)
  unfolding or_serializer
  old_value [] = ok none
  old_value (b ∷ bs) = do v ← or_serializer (ser.unmarshal (b ∷ bs)); ok (some v)

  unfoldable pub get_put : Text → Text → V → Outcome Error (Option V)
  unfolding or_serializer old_value
  get_put name key value = do
    data' ← or_serializer (ser.marshal value)
    resp ← send OpCode.ex_get_put (record (key_message name key) { value = data' })
    old_value resp.value
