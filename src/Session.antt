-- ===== src/Session.antt =====
-- https1_reactor/Https1Handler.cpp: the loop of `handle_input_ws` that takes whole frames off the
-- front of `buffer_websocket_`. `handle_recv_ws` of http1_client/Http1Client.h is the same loop.
pub mod Frames
pub mod Https
pub mod Http
mod Tests
use io_reactor.Prelude.{ℕ, zero, suc, List, [], ◌∷◌, ◌++◌, Bool, true, false, length, drop}
use io_reactor.WebSocket.{
  WebSocket, WebSocketException, incomplete_header, incomplete_payload, wrong_opcode, unknown,
  returns, throws, fault, parse,
}

-- How the loop ends: it waits for more bytes with the requests so far and what is left of the
-- buffer, it stops at an error of the peer, or `parse` faulted. `stuck` is no outcome of the code:
-- the fuel ran out.
pub data Drained : Type 0 where
  waiting : List WebSocket → List ℕ → Drained
  failed : List WebSocket → WebSocketException → Drained
  faulted : Drained
  stuck : Drained

-- The handler of a caught exception: only `WRONG_OPCODE` and `UNKNOWN` are errors.
pub caught : WebSocketException → List WebSocket → List ℕ → Drained
caught incomplete_header requests buffer = waiting requests buffer
caught incomplete_payload requests buffer = waiting requests buffer
caught wrong_opcode requests buffer = failed requests wrong_opcode
caught unknown requests buffer = failed requests unknown

unfoldable pub drain : ℕ → List ℕ → List WebSocket → Drained
drain zero buffer requests = stuck
drain (suc fuel) buffer requests = elim (parse buffer) [
  | returns w ↦ drain fuel (drop (length w.buffer) buffer) (requests ++ w ∷ [])
  | throws e ↦ caught e requests buffer
  | fault ↦ faulted
]

-- `handle_input_ws(data, size)`: the bytes go behind the buffer, and the loop runs. A frame has two
-- bytes at least, so one round for each byte and one more are enough.
unfoldable pub handle_input_ws : List ℕ → List ℕ → Drained
handle_input_ws buffer bytes = let whole = buffer ++ bytes in drain (suc (length whole)) whole []
