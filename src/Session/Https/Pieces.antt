-- ===== src/Session/Https/Pieces.antt =====
-- A request that arrives in pieces.
use io_reactor.Prelude.{
  if_false, ℕ, ◌+◌, ◌^◌, ◌<◌, false, some, List, [], ◌∷◌, ◌++◌, append_assoc, append-nil, ◌>>=◌,
  ◌≡◌, refl, sym, ap, ◌∙◌, arith, All, length, length-append, take, take-append,
}
use io_reactor.Text.{Bytes, to_string}
use io_reactor.Header.{HttpHeader, append, count, is_empty}
use io_reactor.Header.Index.{IsIndexed}
use io_reactor.Message.{incomplete, parsed, content_length}
use io_reactor.Message.Lines.{IsPrintable}
use io_reactor.Message.Request.{Http1Request, parse_request, print_request}
use io_reactor.Message.Request.RoundTrip.{IsSound}
use io_reactor.Message.Request.Packet.{parse_request-packet, read_back}
use io_reactor.Message.Request.Part.{parse_request-part}
use io_reactor.Session.Https.{
  Https1Handler, Surroundings, Event, comes_in, handles_request, after_stream, next_stream_id, call,
  take_request, handle_input, on_event, run,
}

abbrev pub joined : List Bytes → Bytes
joined [] = []
joined (x ∷ xs) = x ++ joined xs

abbrev pub Filled : Bytes → Type 0
Filled x = is_empty x ≡ false

abbrev pub all_come_in : List Bytes → List Event
all_come_in [] = []
all_come_in (x ∷ xs) = comes_in x ∷ all_come_in xs

-- What the handler does with a whole request.
abbrev pub answered : Surroundings → Http1Request → Https1Handler → Https1Handler
answered s r h =
    let n = after_stream h.stream_id in
    call s (handles_request (record r { stream_id = n }))
      (record h { buffer_http1 = []; stream_id = n })

Filled-length : (x : Bytes) → Filled x → 0 < length x
Filled-length [] e = absurd (ground (arith, e))
Filled-length (c ∷ x) e = omega arith

module _ (s : Surroundings) where
  takes_whole :
      (h : Https1Handler) (bytes : Bytes) (r : Http1Request)
      → h.websocket ≡ false
      → parse_request (h.buffer_http1 ++ bytes) ≡ parsed r
      → handle_input s bytes h ≡ some (answered s r h)
  unfolding handle_input take_request next_stream_id
  takes_whole h bytes r down e =
      if_false _ down _ _ ∙ ap (λ o. take_request s (h.buffer_http1 ++ bytes) o h) e

  keeps_part :
      (h : Https1Handler) (bytes : Bytes)
      → h.websocket ≡ false
      → parse_request (h.buffer_http1 ++ bytes) ≡ incomplete
      → handle_input s bytes h ≡ some (record h { buffer_http1 = h.buffer_http1 ++ bytes })
  unfolding handle_input take_request
  keeps_part h bytes down e =
      if_false _ down _ _ ∙ ap (λ o. take_request s (h.buffer_http1 ++ bytes) o h) e

  -- Pieces of a text of which no part is enough.
  run-pieces :
      (x : Bytes) (pieces : List Bytes) (text : Bytes) (r : Http1Request) (h : Https1Handler)
      → h.websocket ≡ false
      → h.buffer_http1 ++ joined (x ∷ pieces) ≡ text
      → All Filled (x ∷ pieces)
      → parse_request text ≡ parsed r
      → ((n : ℕ) → n < length text → parse_request (take n text) ≡ incomplete)
      → run s (all_come_in (x ∷ pieces)) h ≡ some (answered s r h)
  unfolding run on_event
  run-pieces x [] text r h down whole filled e parts =
      let all : h.buffer_http1 ++ x ≡ text =
        ap (λ t. h.buffer_http1 ++ t) (sym (append-nil x)) ∙ whole in
      rw (takes_whole h x r down (ap parse_request all ∙ e)) refl
  run-pieces x (y ∷ pieces) text r h down whole (full, (more, filled)) e parts =
      let b = h.buffer_http1 ++ x in
      let rest = joined (y ∷ pieces) in
      let split : b ++ rest ≡ text = append_assoc h.buffer_http1 x rest ∙ whole in
      let cut : take (length b) text ≡ b =
        ap (take (length b)) (sym split) ∙ take-append b rest (length b) refl in
      let size : length text ≡ length b + (length y + length (joined pieces)) =
        ap length (sym split)
        ∙ length-append b rest
        ∙ ap (λ n. length b + n) (length-append y (joined pieces)) in
      let part : parse_request b ≡ incomplete =
        ap parse_request (sym cut) ∙ parts (length b) (omega (arith, size, Filled-length y more)) in
      ap (λ o. o >>= run s (all_come_in (y ∷ pieces))) (keeps_part h x down part)
      ∙ run-pieces y pieces text r (record h { buffer_http1 = b }) down split (more, filled) e parts

  -- A request whose parts do not run into each other, with an indexed header that can be printed and
  -- has no content-length, and a body shorter than 2^63, which a client prints by `packet(true)`:
  -- into whatever pieces that are not empty the packet is cut, a handler that is not in the
  -- WebSocket state and whose buffer is empty hands the request up once, at the last piece, with the
  -- next stream number, its buffer empty again.
  pub run-request_in_pieces :
      (r : Http1Request) (x : Bytes) (pieces : List Bytes) (h : Https1Handler)
      → IsSound r
      → IsIndexed r.header
      → count content_length r.header ≡ 0
      → All IsPrintable r.header.container
      → length r.body < 2 ^ 63
      → h.websocket ≡ false
      → h.buffer_http1 ≡ []
      → All Filled (x ∷ pieces)
      → joined (x ∷ pieces)
        ≡ print_request r (append content_length (to_string (length r.body)) r.header)
      → let g : HttpHeader = append content_length (to_string (length r.body)) r.header in
        run s (all_come_in (x ∷ pieces)) h ≡ some (answered s (read_back r g) h)
  run-request_in_pieces r x pieces h sound k zero_length a fits down fresh filled whole =
      let g = append content_length (to_string (length r.body)) r.header in
      run-pieces x pieces (print_request r g) (read_back r g) h down
        (ap (λ b. b ++ joined (x ∷ pieces)) fresh ∙ whole) filled
        (ap parse_request (sym (append-nil (print_request r g)))
          ∙ (parse_request-packet r [] sound k zero_length a fits).1)
        (λ n short. parse_request-part r n sound k zero_length a fits short)
