-- ===== src/Server.antt =====
-- internal/transport/server.go: the loop over the requests of a connection.
pub mod Pipeline
mod Tests
use olricdb.Prelude.{
  ℕ, zero, suc, Option, none, some, List, [], ◌∷◌, ◌++◌, Outcome, ok, fails, panics, stuck,
}
use olricdb.Protocol.Code.{Message, Reason, zero_message, error, status_internal_server_error}
use olricdb.Protocol.Wire.{
  Refusal, Error, eof, invalid_message, value_too_big, short_extra, Received, read, write,
}

-- The operations by their code. An operation changes the node's state `S`.
abbrev pub Operations : Type 0 → Type 0
Operations S = ℕ → Option (S → Message → S × Message)

-- A connection: the bytes to come, the bytes sent, and the state of the node behind it.
pub record Conn (S : Type 0) : Type 0 where
  pub input : List ℕ
  pub output : List ℕ
  pub state : S

-- How a turn of the loop ends. `refused` has the request as far as it was read, and the error's text.
pub data Turn (S : Type 0) : Type 0 where
  served : Conn S → Turn S
  closed : Conn S → Turn S
  refused : Conn S → Message → List ℕ → Turn S
  crashed : Turn S

module _ {S : Type 0} (max_value_size : ℕ) (operations : Operations S) (text : Error → List ℕ)
    (unknown : ℕ → List ℕ) where
  unfoldable pub respond : Conn S → Message → Option (S → Message → S × Message) → Turn S
  respond c req none = refused c req (unknown req.header.op)
  respond c req (some opr) =
      let (state, resp) = opr c.state req in
      served (record c { state = state; output = c.output ++ (write resp).1 })

  unfoldable pub answer : Conn S → Outcome Refusal Message → Turn S
  unfolding respond
  answer c (ok req) = respond c req (operations req.header.op)
  answer c (fails r) = elim r.error [
    | eof ↦ closed c
    | invalid_message ↦ refused c (record zero_message { header = r.header }) (text r.error)
    | value_too_big ↦ refused c (record zero_message { header = r.header }) (text r.error)
    | short_extra ↦ refused c (record zero_message { header = r.header }) (text r.error)
  ]
  answer c panics = crashed
  answer c stuck = crashed

  -- `waitForRequest`. Writing a response is taken to succeed.
  unfoldable pub wait_for_request : Conn S → Turn S
  unfolding answer
  wait_for_request c =
      let (rest, r) = read max_value_size c.input in answer (record c { input = rest }) r

  -- A refused request is answered with an error, and the loop goes on.
  unfoldable pub next_turn : (Conn S → Outcome Error (Conn S)) → Turn S → Outcome Error (Conn S)
  next_turn again (served c) = again c
  next_turn again (closed c) = ok c
  next_turn again (refused c req why) = again (record c {
    output = c.output ++ (write (error req status_internal_server_error (Reason.text why))).1;
  })
  next_turn again crashed = panics

  -- `handleConn`, with fuel for its turns.
  unfoldable pub handle_conn : ℕ → Conn S → Outcome Error (Conn S)
  unfolding next_turn wait_for_request
  handle_conn zero c = stuck
  handle_conn (suc fuel) c = next_turn (handle_conn fuel) (wait_for_request c)
