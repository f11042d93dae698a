-- ===== src/Server/Pipeline.antt =====
-- Requests that a client sends one after the other, and the end of the loop.
use native.Mathlib.Omega.{arith}
use mathlib.Core.List.{append_assoc}
use olricdb.Prelude.{
  ℕ, zero, suc, ◌<◌, ◌≡◌, refl, sym, ap, ◌∙◌, some, List, [], ◌∷◌, ◌++◌, length, All, ok,
}
use olricdb.Protocol.Code.{Message}
use olricdb.Protocol.Wire.{Error, read, write, decode_header, fill_header}
use olricdb.Protocol.RoundTrip.{IsSendable, read-write}
use olricdb.Server.{Operations, served, wait_for_request, answer, respond, next_turn, handle_conn}

-- The bytes of the requests.
abbrev pub sent : List Message → List ℕ
sent [] = []
sent (m ∷ ms) = (write m).1 ++ sent ms

-- The specification: every request is handled in turn, in the state that the one before it left.
abbrev pub handle_all :
    {S : Type 0} → (ℕ → S → Message → S × Message) → S → List Message → S × List ℕ
handle_all opr s [] = (s, [])
handle_all opr s (m ∷ ms) =
    let (s1, resp) = opr m.header.op s (write m).0 in
    let (s2, out) = handle_all opr s1 ms in (s2, (write resp).1 ++ out)

-- Every code is registered.
abbrev pub all_known : {S : Type 0} → (ℕ → S → Message → S × Message) → Operations S
all_known opr op = some (opr op)

module _ {S : Type 0} (max_value_size : ℕ) (opr : ℕ → S → Message → S × Message)
    (text : Error → List ℕ) (unknown : ℕ → List ℕ) where
  -- A request that is read is handled, and its response sent.
  served_lem :
      (m : Message) (rest out : List ℕ) (s : S)
      → IsSendable max_value_size m
      → wait_for_request max_value_size
          (all_known opr)
          text
          unknown
          (record { input = (write m).1 ++ rest; output = out; state = s })
        ≡ served (record {
          input = rest;
          output = out ++ (write (opr m.header.op s (write m).0).1).1;
          state = (opr m.header.op s (write m).0).0;
        })
  unfolding wait_for_request answer respond write fill_header
  served_lem m rest out s w =
      ap
        (λ r.
          answer max_value_size (all_known opr) text unknown
            (record { input = r.0; output = out; state = s }) r.1)
        (read-write max_value_size m w rest)

  append_nil : (l : List ℕ) → l ++ [] ≡ l
  append_nil [] = refl
  append_nil (x ∷ l) = ap (λ k. x ∷ k) (append_nil l)

  -- On a connection whose bytes are the requests that `Write` sends for a list of messages, each of
  -- which fits the protocol and the server's limit, with an operation for every code and more turns
  -- than messages: the server's loop handles every request once, in order, each in the state that
  -- the one before it left, sends exactly their responses in this order, and ends when the bytes
  -- end.
  pub handle_conn_lem :
      (ms : List Message) (fuel : ℕ) (out : List ℕ) (s : S)
      → All (IsSendable max_value_size) ms
      → length ms < fuel
      → handle_conn max_value_size
          (all_known opr)
          text
          unknown
          fuel
          (record { input = sent ms; output = out; state = s })
        ≡ ok (record {
          input = [];
          output = out ++ (handle_all opr s ms).1;
          state = (handle_all opr s ms).0;
        })
  unfolding handle_conn wait_for_request answer next_turn read decode_header
  handle_conn_lem ms zero out s w enough = absurd (omega (arith, enough))
  handle_conn_lem [] (suc fuel) out s w enough =
      ap (λ o. ok (record { input = []; output = o; state = s })) (sym (append_nil out))
  handle_conn_lem (m ∷ ms) (suc fuel) out s w enough =
      let (s1, resp) = opr m.header.op s (write m).0 in
      ap
        (next_turn max_value_size (all_known opr) text unknown
          (handle_conn max_value_size (all_known opr) text unknown fuel))
        (served_lem m (sent ms) out s w.0)
      ∙ handle_conn_lem ms fuel (out ++ (write resp).1) s1 w.1 (omega (arith, enough))
      ∙ ap (λ o. ok (record { input = []; output = o; state = (handle_all opr s1 ms).0 }))
          (append_assoc out (write resp).1 (handle_all opr s1 ms).1)
