-- ===== src/Session/Https.antt =====
-- https1_reactor/Https1Handler.h and https1_reactor/Https1Handler.cpp: the handler of a session, on
-- top of its loop over frames. A callback of the application is written to the log, newest first;
-- what the application sends from within it is the application's answer, but for the `handle_error`
-- of a refused `send`, which sends nothing.
-- What the session below answers to a packet is an argument.
pub mod Logs
pub mod Phases
pub mod Pieces
mod Tests
use io_reactor.Prelude.{
  ℕ, suc, ◌+◌, ◌-◌, ◌^◌, ◌%◌, Bool, true, false, Option, none, some, List, [], ◌∷◌, ◌++◌, ◌>>=◌,
  ltb, ◌||◌, if◌then◌else◌, lookup, insert, remove,
}
use io_reactor.Text.{Bytes}
use io_reactor.WebSocket.{WebSocket}
use io_reactor.Session.{Drained, waiting, failed, faulted, stuck, handle_input_ws}
use io_reactor.Message.{Parsed, incomplete, throws, parsed}
use io_reactor.Message
use io_reactor.Message.Request.{Http1Request, parse_request}
use io_reactor.Message.Response.{Http1Response, packet_const, is_websocket_upgrade}

-- What leaves the handler: a call of the application's functions, or a packet for the session.
pub data Action : Type 0 where
  handles_request : Http1Request → Action
  handles_frames : List WebSocket → Action
  handles_sent_response handles_unsent_response : Http1Response → Action
  handles_sent_frame handles_unsent_frame : ℕ → WebSocket → Action
  handles_error : ℕ → Action
  passes_response passes_frame : ℕ → List ℕ → Action

-- A call of `send`.
pub data Sending : Type 0 where
  sends_response : Http1Response → Sending
  sends_frame : WebSocket → Sending

-- Numbers of streams are modulo 2^32.
pub record Https1Handler : Type 0 where
  pub buffer_http1 : Bytes
  pub buffer_websocket : List ℕ
  pub stream_id : ℕ
  pub sent_res_http1 : List (ℕ × Http1Response)
  pub sent_res_ws : List (ℕ × WebSocket)
  pub websocket : Bool
  pub log : List Action

-- What the application sends from within each callback, and what the session answers to a packet.
pub record Surroundings : Type 0 where
  pub sends : Action → List Sending
  pub accepts : ℕ → List ℕ → Bool

abbrev pub created : Https1Handler
created = record {
  buffer_http1 = [];
  buffer_websocket = [];
  stream_id = 2 ^ 32 - 1;
  sent_res_http1 = [];
  sent_res_ws = [];
  websocket = false;
  log = [];
}

abbrev pub eperm : ℕ
eperm = 1

abbrev pub einval : ℕ
einval = 22

abbrev pub note : Action → Https1Handler → Https1Handler
note a h = record h { log = a ∷ h.log }

-- The number behind a stream's: the negative ones are passed over.
unfoldable pub after_stream : ℕ → ℕ
after_stream n = let m = (n + 1) % 2 ^ 32 in if ltb m (2 ^ 31) then m else 0

unfoldable pub next_stream_id : Https1Handler → Https1Handler × ℕ
next_stream_id h = (record h { stream_id = after_stream h.stream_id }, after_stream h.stream_id)

-- `send(const Http1Response &)`; its -1 is true as a `bool`.
unfoldable pub send_response : Surroundings → Http1Response → Https1Handler → Https1Handler × Bool
send_response s r h = if h.websocket then (note (handles_error eperm) h, true) else (
  note (passes_response r.stream_id (packet_const r)) (record h {
    stream_id = r.stream_id;
    sent_res_http1 = insert r.stream_id r h.sent_res_http1;
  }),
  s.accepts r.stream_id (packet_const r),
)

abbrev pub minus_one : ℕ
minus_one = 2 ^ 32 - 1

-- `send(const WebSocket &)`
unfoldable pub send_frame : Surroundings → WebSocket → Https1Handler → Https1Handler × ℕ
send_frame s w h =
    let (g, id) = next_stream_id h in
    if h.websocket
    then (
      note (passes_frame id w.buffer) (record g { sent_res_ws = insert id w g.sent_res_ws }),
      if s.accepts id w.buffer then id else minus_one,
    )
    else (note (handles_error eperm) h, minus_one)

unfoldable pub send : Surroundings → Sending → Https1Handler → Https1Handler
send s (sends_response r) h = (send_response s r h).0
send s (sends_frame w) h = (send_frame s w h).0

unfoldable pub send_all : Surroundings → List Sending → Https1Handler → Https1Handler
send_all s [] h = h
send_all s (x ∷ xs) h = send_all s xs (send s x h)

-- A callback with what the application sends from within it.
unfoldable pub call : Surroundings → Action → Https1Handler → Https1Handler
call s a h = send_all s (s.sends a) (note a h)

-- The request gets its number and goes to the application.
unfoldable pub take_request :
    Surroundings → Bytes → Parsed Http1Request → Https1Handler → Option Https1Handler
take_request s whole Message.incomplete h = some (record h { buffer_http1 = whole })
take_request s whole Message.stuck h = none
take_request s whole (throws e) h =
    some (call s (handles_error einval) (record h { buffer_http1 = [] }))
take_request s whole (parsed r) h =
    let (g, id) = next_stream_id (record h { buffer_http1 = [] }) in
    some (call s (handles_request (record r { stream_id = id })) g)

abbrev pub call_frames : Surroundings → List WebSocket → Https1Handler → Https1Handler
call_frames s [] h = h
call_frames s (w ∷ ws) h = call s (handles_frames (w ∷ ws)) h

-- The end of `handle_input_ws`; the callbacks run on the buffer that the loop left, and after an
-- error the buffer is cleared behind them.
unfoldable pub take_frames : Surroundings → Drained → Https1Handler → Option Https1Handler
take_frames s (waiting ws rest) h = some (call_frames s ws (record h { buffer_websocket = rest }))
take_frames s (failed ws e) h =
    let g = call s (handles_error einval) (call_frames s ws h) in
    some (record g { buffer_websocket = [] })
take_frames s faulted h = none
take_frames s stuck h = none

-- `handle_input`; `none` where the parser of frames reads outside of its bytes.
unfoldable pub handle_input : Surroundings → List ℕ → Https1Handler → Option Https1Handler
handle_input s bytes h =
    if h.websocket
    then take_frames s (handle_input_ws h.buffer_websocket bytes) h
    else (let whole = h.buffer_http1 ++ bytes in take_request s whole (parse_request whole) h)

unfoldable pub sent_frame : Surroundings → ℕ → Option WebSocket → Https1Handler → Https1Handler
sent_frame s id none h = h
sent_frame s id (some w) h =
    call s (handles_sent_frame id w) (record h { sent_res_ws = remove id h.sent_res_ws })

-- `handle_sent_http1`, which changes the state before it tells the application.
unfoldable pub sent_http1 : Surroundings → ℕ → Option Http1Response → Https1Handler → Https1Handler
sent_http1 s id none h = sent_frame s id (lookup id h.sent_res_ws) h
sent_http1 s id (some r) h = call s (handles_sent_response r) (record h {
  sent_res_http1 = remove id h.sent_res_http1;
  websocket = is_websocket_upgrade r || h.websocket;
})

unfoldable pub handle_sent : Surroundings → ℕ → Https1Handler → Https1Handler
handle_sent s id h = sent_http1 s id (lookup id h.sent_res_http1) h

unfoldable pub unsent_frame : Surroundings → ℕ → Option WebSocket → Https1Handler → Https1Handler
unsent_frame s id none h = h
unsent_frame s id (some w) h =
    call s (handles_unsent_frame id w) (record h { sent_res_ws = remove id h.sent_res_ws })

-- `http1_send_error`, which changes the state after it told the application.
unfoldable pub unsent_http1 :
    Surroundings → ℕ → Option Http1Response → Https1Handler → Https1Handler
unsent_http1 s id none h = unsent_frame s id (lookup id h.sent_res_ws) h
unsent_http1 s id (some r) h =
    let g =
      call s (handles_unsent_response r)
        (record h { sent_res_http1 = remove id h.sent_res_http1 }) in
    record g { websocket = is_websocket_upgrade r || g.websocket }

unfoldable pub handle_sent_error : Surroundings → ℕ → Https1Handler → Https1Handler
handle_sent_error s id h = unsent_http1 s id (lookup id h.sent_res_http1) h

-- What happens to a handler: bytes come in, the session tells the end of a packet, or the
-- application sends.
pub data Event : Type 0 where
  comes_in : List ℕ → Event
  was_sent was_not_sent : ℕ → Event
  application_sends : Sending → Event

unfoldable pub on_event : Surroundings → Event → Https1Handler → Option Https1Handler
on_event s (comes_in bytes) h = handle_input s bytes h
on_event s (was_sent id) h = some (handle_sent s id h)
on_event s (was_not_sent id) h = some (handle_sent_error s id h)
on_event s (application_sends x) h = some (send s x h)

unfoldable pub run : Surroundings → List Event → Https1Handler → Option Https1Handler
run s [] h = some h
run s (e ∷ es) h = do g ← on_event s e h; run s es g
