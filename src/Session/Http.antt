-- ===== src/Session/Http.antt =====
-- http1_reactor/Http1Handler.h and http1_reactor/Http1Handler.cpp: the handler of a session without
-- SSL. It receives by itself, into buffers of a fixed size; the requests, the answers and the ends of
-- what was sent are, line by line, those of the HTTPS handler, on whose record they work here.
pub mod Twice
mod Tests
use io_reactor.Prelude.{
  ℕ, zero, suc, ◌+◌, ◌-◌, ◌^◌, ◌%◌, Bool, true, false, Option, none, some, List, [], ◌∷◌, ◌++◌,
  ◌>>=◌, leb, ◌||◌, ◌==◌, if◌then◌else◌, length, take, drop, replicate,
}
use io_reactor.Text.{Bytes}
use io_reactor.WebSocket
use io_reactor.WebSocket.{
  WebSocket, WebSocketException, incomplete_header, incomplete_payload, wrong_opcode, unknown,
}
use io_reactor.Message
use io_reactor.Message.{Parsed, throws, parsed}
use io_reactor.Message.Request.{Http1Request, parse_request}
use io_reactor.Message.Response.{Http1Response}
use io_reactor.Session.Https
use io_reactor.Session.Https.{
  Https1Handler, Surroundings, created, call, call_frames, next_stream_id, handles_request,
  handles_error, einval,
}

-- The fields of the HTTPS handler, with the buffers, how much of them was received, and whether the
-- socket is shut down for reading.
pub record Http1Handler : Type 0 where
  pub session : Https1Handler
  pub buffer_http1 : Bytes
  pub buffer_http1_recvd : ℕ
  pub buffer_websocket : List ℕ
  pub buffer_websocket_recvd : ℕ
  pub shutdown_read : Bool

-- The constructor, with the sizes of the buffers.
unfoldable pub constructed : ℕ → ℕ → Http1Handler
constructed buffer_http1_size buffer_websocket_size = record {
  session = created;
  buffer_http1 = replicate buffer_http1_size 0;
  buffer_http1_recvd = 0;
  buffer_websocket = replicate buffer_websocket_size 0;
  buffer_websocket_recvd = 0;
  shutdown_read = false;
}

-- What `::recv` answers: an error, or bytes; none of them when the peer is done.
pub data Received : Type 0 where
  recv_failed : ℕ → Received
  received : List ℕ → Received

-- Bytes written to a buffer at a place; `none` where they leave it.
unfoldable pub write_at : ℕ → List ℕ → List ℕ → Option (List ℕ)
write_at place bytes buffer =
    if leb (place + length bytes) (length buffer)
    then some (take place buffer ++ (bytes ++ drop (place + length bytes) buffer))
    else none

abbrev pub on_session : (Https1Handler → Https1Handler) → Http1Handler → Http1Handler
on_session f h = record h { session = f h.session }

-- The whole buffer is parsed. It is cleared behind a request and behind an error, while the count of
-- received bytes stays.
unfoldable pub take_request :
    Surroundings → Parsed Http1Request → Http1Handler → Option Http1Handler
take_request s Message.incomplete h = some h
take_request s Message.stuck h = none
take_request s (throws e) h =
    some (on_session (call s (handles_error einval)) (record h { buffer_http1 = [] }))
take_request s (parsed r) h =
    let (g, id) = next_stream_id h.session in
    some (record h {
      buffer_http1 = [];
      session = call s (handles_request (record r { stream_id = id })) g;
    })

-- The bytes that were received are in the buffer.
unfoldable pub input_received : Surroundings → Option Bytes → ℕ → Http1Handler → Option Http1Handler
input_received s none n h = none
input_received s (some buffer) n h =
    take_request s (parse_request buffer)
      (record h { buffer_http1 = buffer; buffer_http1_recvd = (h.buffer_http1_recvd + n) % 2 ^ 64 })

-- The end of a connection for reading.
unfoldable pub input_ended : Surroundings → Option ℕ → Http1Handler → Http1Handler
input_ended s none h = record h { shutdown_read = true }
input_ended s (some err_no) h = record (on_session (call s (handles_error err_no)) h) {
  shutdown_read = true;
}

-- How the loop over frames ends: with the frames, the buffer and the count, at an error, or where
-- `parse` reads outside of the buffer.
pub data Drained : Type 0 where
  waiting : List WebSocket → List ℕ → ℕ → Drained
  failed : List WebSocket → Drained
  faulted stuck : Drained

unfoldable pub caught : WebSocketException → List WebSocket → List ℕ → ℕ → Drained
caught incomplete_header requests buffer recvd = waiting requests buffer recvd
caught incomplete_payload requests buffer recvd = waiting requests buffer recvd
caught wrong_opcode requests buffer recvd = failed requests
caught unknown requests buffer recvd = failed requests

-- The count of a `ssize_t`, modulo 2^64, when a frame is taken off the buffer.
abbrev pub count_less : ℕ → ℕ → ℕ
count_less recvd n = (recvd + 2 ^ 64 - n) % 2 ^ 64

unfoldable pub drain : ℕ → List ℕ → ℕ → List WebSocket → Drained
drain zero buffer recvd requests = stuck
drain (suc fuel) buffer recvd requests = elim (WebSocket.parse buffer) [
  | WebSocket.returns w ↦
      let left = drop (length w.buffer) buffer in
      let count = count_less recvd (length w.buffer) in
      let more = drain fuel left count (requests ++ w ∷ []) in
      if count == 0 || leb (2 ^ 63) count then waiting (requests ++ w ∷ []) left count else more
  | WebSocket.throws e ↦ caught e requests buffer recvd
  | WebSocket.fault ↦ faulted
]

unfoldable pub take_frames : Surroundings → Drained → Http1Handler → Option Http1Handler
take_frames s (waiting ws buffer recvd) h = some (
    on_session (call_frames s ws)
      (record h { buffer_websocket = buffer; buffer_websocket_recvd = recvd }))
take_frames s (failed ws) h =
    some (record (on_session (call s (handles_error einval)) (on_session (call_frames s ws) h)) {
      buffer_websocket = [];
      buffer_websocket_recvd = 0;
    })
take_frames s faulted h = none
take_frames s stuck h = none

unfoldable pub frames_received :
    Surroundings → Option (List ℕ) → ℕ → Http1Handler → Option Http1Handler
frames_received s none n h = none
frames_received s (some buffer) n h =
    take_frames s (drain (suc (length buffer)) buffer ((h.buffer_websocket_recvd + n) % 2 ^ 64) [])
      h

-- `handle_input_ws`
unfoldable pub handle_input_ws : Surroundings → Received → Http1Handler → Option Http1Handler
handle_input_ws s (recv_failed err_no) h = some (input_ended s (some err_no) h)
handle_input_ws s (received []) h = some (input_ended s none h)
handle_input_ws s (received (c ∷ bytes)) h =
    frames_received s (write_at h.buffer_websocket_recvd (c ∷ bytes) h.buffer_websocket)
      (length (c ∷ bytes)) h

unfoldable pub input_http1 : Surroundings → Received → Http1Handler → Option Http1Handler
input_http1 s (recv_failed err_no) h = some (input_ended s (some err_no) h)
input_http1 s (received []) h = some (input_ended s none h)
input_http1 s (received (c ∷ bytes)) h =
    input_received s (write_at h.buffer_http1_recvd (c ∷ bytes) h.buffer_http1) (length (c ∷ bytes))
      h

-- `handle_input`; `none` where bytes are written or read outside of a buffer.
unfoldable pub handle_input : Surroundings → Received → Http1Handler → Option Http1Handler
handle_input s answer h =
    if h.session.websocket then handle_input_ws s answer h else input_http1 s answer h

-- `next_stream_id`, `send` and the ends of what was sent.
unfoldable pub next_id : Http1Handler → Http1Handler × ℕ
next_id h = let (g, id) = next_stream_id h.session in (record h { session = g }, id)

unfoldable pub send_response : Surroundings → Http1Response → Http1Handler → Http1Handler × Bool
send_response s r h =
    let (g, taken) = Https.send_response s r h.session in (record h { session = g }, taken)

unfoldable pub send_frame : Surroundings → WebSocket → Http1Handler → Http1Handler × ℕ
send_frame s w h = let (g, id) = Https.send_frame s w h.session in (record h { session = g }, id)

unfoldable pub handle_sent : Surroundings → ℕ → Http1Handler → Http1Handler
handle_sent s id h = on_session (Https.handle_sent s id) h

unfoldable pub handle_sent_error : Surroundings → ℕ → Http1Handler → Http1Handler
handle_sent_error s id h = on_session (Https.handle_sent_error s id) h
