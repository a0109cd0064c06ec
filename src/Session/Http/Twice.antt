-- ===== src/Session/Http/Twice.antt =====
-- Two requests to a handler without SSL.
use io_reactor.Prelude.{
  ℕ, ◌+◌, ◌%◌, ◌^◌, ◌≤◌, ◌<◌, true, false, none, some, List, [], ◌∷◌, ◌++◌, leb, if_false, ◌≡◌,
  refl, ap, ◌∙◌, arith, All, length, length-replicate, replicate, drop,
}
use io_reactor.Text.{to_string}
use io_reactor.Header.{append, count}
use io_reactor.Header.Index.{IsIndexed}
use io_reactor.Message.{content_length, parsed}
use io_reactor.Message.Lines.{IsPrintable}
use io_reactor.Message.Request.{Http1Request, parse_request, print_request}
use io_reactor.Message.Request.RoundTrip.{IsSound}
use io_reactor.Message.Request.Packet.{parse_request-packet, read_back}
use io_reactor.Session.Https.{
  Action, Sending, sends_response, sends_frame, Https1Handler, Surroundings, created,
  handles_request, after_stream, next_stream_id, send_response, send_frame, send, send_all, call,
}
use io_reactor.Session.Http.{
  Http1Handler, constructed, received, write_at, take_request, input_received, input_http1,
  handle_input,
}

-- Sending leaves the state.
send-websocket :
    (s : Surroundings) (x : Sending) (h : Https1Handler) → (send s x h).websocket ≡ h.websocket
unfolding send send_response send_frame next_stream_id
send-websocket s (sends_response r) h = ground arith
send-websocket s (sends_frame w) h = ground arith

send_all-websocket :
    (s : Surroundings) (xs : List Sending) (h : Https1Handler)
    → (send_all s xs h).websocket ≡ h.websocket
unfolding send_all
send_all-websocket s [] h = refl
send_all-websocket s (x ∷ xs) h = send_all-websocket s xs (send s x h) ∙ send-websocket s x h

call-websocket :
    (s : Surroundings) (a : Action) (h : Https1Handler) → (call s a h).websocket ≡ h.websocket
unfolding call
call-websocket s a h = send_all-websocket s (s.sends a) _

-- A buffer that was cleared has no room.
write_at-nil : (n c : ℕ) (bytes : List ℕ) → write_at n (c ∷ bytes) [] ≡ none
unfolding write_at
write_at-nil n c bytes =
    let no_room : leb (n + length (c ∷ bytes)) 0 ≡ false = ground arith in rw no_room refl

no_room_left :
    (s : Surroundings) (h : Http1Handler) (c : ℕ) (bytes : List ℕ)
    → h.session.websocket ≡ false
    → h.buffer_http1 ≡ []
    → handle_input s (received (c ∷ bytes)) h ≡ none
unfolding handle_input input_http1 input_received
no_room_left s h c bytes down cleared =
    if_false h.session.websocket down _ _
    ∙ ap (λ o. input_received s o (length (c ∷ bytes)) h)
        (ap (write_at h.buffer_http1_recvd (c ∷ bytes)) cleared
          ∙ write_at-nil h.buffer_http1_recvd c bytes)

-- The handler behind its first request.
abbrev pub served : Surroundings → ℕ → ℕ → ℕ → Http1Request → Http1Handler
served s http1_size websocket_size n r =
    let id = after_stream created.stream_id in
    record (constructed http1_size websocket_size) {
      session =
          call s (handles_request (record r { stream_id = id }))
            (record created { stream_id = id });
      buffer_http1 = [];
      buffer_http1_recvd = n % 2 ^ 64;
    }

write_at-start :
    (bytes : List ℕ) (n : ℕ)
    → length bytes ≤ n
    → write_at 0 bytes (replicate n 0) ≡ some (bytes ++ drop (length bytes) (replicate n 0))
unfolding write_at
write_at-start bytes n fits =
    let room : leb (0 + length bytes) (length {A = ℕ} (replicate n 0)) ≡ true =
      ground (arith, fits, length-replicate {A = ℕ} n 0) in
    let sum : 0 + length bytes ≡ length bytes = omega arith in
    rw room (ap (λ m. some (bytes ++ drop m (replicate n 0))) sum)

cleared :
    (s : Surroundings) (http1_size websocket_size n : ℕ) (r : Http1Request)
    → (served s http1_size websocket_size n r).buffer_http1 ≡ []
cleared s http1_size websocket_size n r = refl

takes_first :
    (s : Surroundings) (http1_size websocket_size c : ℕ) (bytes : List ℕ) (r : Http1Request)
    → length (c ∷ bytes) ≤ http1_size
    → parse_request ((c ∷ bytes) ++ drop (length (c ∷ bytes)) (replicate http1_size 0)) ≡ parsed r
    → handle_input s (received (c ∷ bytes)) (constructed http1_size websocket_size)
      ≡ some (served s http1_size websocket_size (length (c ∷ bytes)) r)
unfolding handle_input input_http1 input_received take_request constructed write_at next_stream_id
takes_first s http1_size websocket_size c bytes r fits e =
    let n = length (c ∷ bytes) in
    let h = constructed http1_size websocket_size in
    let buffer = (c ∷ bytes) ++ drop n (replicate http1_size 0) in
    let sum : 0 + n ≡ n = omega arith in
    ap (λ o. input_received s o n h) (write_at-start (c ∷ bytes) http1_size fits)
    ∙ ap
        (λ o.
          take_request s o
            (record h { buffer_http1 = buffer; buffer_http1_recvd = (0 + n) % 2 ^ 64 }))
        e
    ∙ ap (λ m. some (served s http1_size websocket_size m r)) sum

-- The first request to a handler, printed by a client and received at once, is handed up, whatever
-- the rest of the buffer; if its parts do not run into each other, its header is indexed, can be
-- printed and has no content-length, and the packet is not longer than the buffer. The buffer is
-- cleared behind it, and the next bytes that come are written outside of it.
pub handle_input-twice :
    (s : Surroundings) (http1_size websocket_size c d : ℕ) (bytes more : List ℕ) (r : Http1Request)
    → IsSound r
    → IsIndexed r.header
    → count content_length r.header ≡ 0
    → All IsPrintable r.header.container
    → length r.body < 2 ^ 63
    → length (c ∷ bytes) ≤ http1_size
    → c ∷ bytes ≡ print_request r (append content_length (to_string (length r.body)) r.header)
    → let back : Http1Request =
        read_back r (append content_length (to_string (length r.body)) r.header) in
      let after : Http1Handler = served s http1_size websocket_size (length (c ∷ bytes)) back in
      (handle_input s (received (c ∷ bytes)) (constructed http1_size websocket_size) ≡ some after)
      × (handle_input s (received (d ∷ more)) after ≡ none)
handle_input-twice s http1_size websocket_size c d bytes more r sound k zero_length a small fits
      text =
    let rest = drop (length (c ∷ bytes)) (replicate http1_size 0) in
    let back = read_back r (append content_length (to_string (length r.body)) r.header) in
    (
      takes_first s http1_size websocket_size c bytes back fits (
          ap (λ t. parse_request (t ++ rest)) text
          ∙ (parse_request-packet r rest sound k zero_length a small).1),
      no_room_left s (served s http1_size websocket_size (length (c ∷ bytes)) back) d more
          (call-websocket s _ _) (cleared s http1_size websocket_size (length (c ∷ bytes)) back),
    )
