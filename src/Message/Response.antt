-- ===== src/Message/Response.antt =====
-- http1_protocol/Http1Response.h: the first line of a response, its packets, and the permission of an
-- upgrade to WebSocket. The digest of a key is what the copied SHA1 and base64 code computes: an
-- argument.
pub mod RoundTrip
use io_reactor.Prelude.{
  ℕ, ◌+◌, ◌-◌, ◌^◌, ◌%◌, Bool, true, false, not, ◌&&◌, Option, none, some, List, [], ◌∷◌, ◌++◌, ltb,
  ◌==◌, if◌then◌else◌, length, take, drop,
}
use io_reactor.Text.{Bytes, codes, same, find, crlf, to_lower, to_string, strtoll, is_digit}
use io_reactor.Header.{HttpHeader, count, get, is_empty, set}
use io_reactor.Header.Print
use io_reactor.Message.{
  HttpVersion, http_version_11, version_to_string, content_length, Parsed, throws, parsed,
  invalid_parameter, ◌>>=◌, Parts, parse, blank_behind, print_message,
}
use io_reactor.Message.Request.{space, http_11, http_10, place, with_length}
use io_reactor.Message.Status.{status_code_to_string}

-- `status` holds an `int32_t` modulo 2^32.
pub record Http1Response : Type 0 where
  pub stream_id : ℕ
  pub version : HttpVersion
  pub header : HttpHeader
  pub body : Bytes
  pub raw_message : Bytes
  pub status : ℕ

-- The constructor, which cuts a `size_t` to the type of the status.
unfoldable pub response : ℕ → ℕ → HttpHeader → Bytes → Http1Response
response stream_id status header body = record {
  stream_id = stream_id;
  version = http_version_11;
  header = header;
  body = body;
  raw_message = [];
  status = status % 2 ^ 32;
}

-- `std::to_string` of an `int32_t`.
unfoldable pub int_to_string : ℕ → Bytes
int_to_string n = if ltb n (2 ^ 31) then to_string n else 45 ∷ to_string (2 ^ 32 - n)

-- `std::atoi`
unfoldable pub atoi : Bytes → ℕ
atoi s = strtoll s % 2 ^ 32

unfoldable pub is_websocket_upgrade : Http1Response → Bool
is_websocket_upgrade r =
    if not (r.status == 101)
    then false
    else if not (same (to_lower (get (codes "upgrade") r.header)) (codes "websocket"))
    then false
    else true

abbrev pub then_put : Bytes → Bytes → Option HttpHeader → Option HttpHeader
then_put n v none = none
then_put n v (some h) = set n v h

abbrev pub response_with : Http1Response → Option HttpHeader → Option Http1Response
response_with r none = none
response_with r (some h) = some (record r { header = h })

-- `WebSocket::sec_accept_key`, over the digest in base64.
unfoldable pub sec_accept_key : (Bytes → Bytes) → Bytes → Bytes
sec_accept_key digest key = digest (key ++ codes "258EAFA5-E914-47DA-95CA-C5AB0DC85B11")

unfoldable pub websocket_permission :
    (Bytes → Bytes) → ℕ → Bytes → HttpHeader → Bytes → Option Http1Response
websocket_permission digest stream_id key header body =
    response_with (response stream_id 101 header body) (
      then_put (codes "sec-websocket-accept") (sec_accept_key digest key) (
        then_put (codes "connection") (codes "Upgrade")
          (then_put (codes "upgrade") (codes "websocket") (some header))))

abbrev pub status_line : Http1Response → Bytes
status_line r =
    version_to_string r.version
    ++ (space ++ (int_to_string r.status ++ (space ++ status_code_to_string r.status)))

-- The text that every packet starts with.
abbrev pub head_of : Http1Response → HttpHeader → Bytes
head_of r h = print_message (status_line r) h []

unfoldable pub packet_without_body : Http1Response → Bytes
packet_without_body r = head_of r r.header

-- `packet() const`
unfoldable pub packet_const : Http1Response → Bytes
packet_const r =
    if is_empty r.body then head_of r r.header else print_message (status_line r) r.header r.body

-- `packet(with_content_length)`: the text and the response with its new header.
unfoldable pub packet : Bool → Http1Response → Option (Bytes × Http1Response)
packet with_content_length r = printed (with_length with_content_length r.body r.header)
  where
    printed : Option HttpHeader → Option (Bytes × Http1Response)
    printed none = none
    printed (some h) =
        let text =
          if is_empty r.body
          then head_of r h
          else if with_content_length
          then print_message (status_line r) h r.body
          else print_message (status_line r) h (r.body ++ (crlf ++ crlf)) in
        some (text, record r { header = h })

unfoldable pub all_digits : Bytes → Bool
all_digits [] = true
all_digits (c ∷ s) = let rest = all_digits s in if not (is_digit c) then false else rest

-- The status between the two spaces of the line.
abbrev pub parse_status : Bytes → Bytes → Parsed ℕ
parse_status version status =
    if not (same version http_11) && not (same version http_10)
    then throws invalid_parameter
    else if not (all_digits status)
    then throws invalid_parameter
    else parsed (atoi status)

-- `parse_parameter`
unfoldable pub parse_status_line : Bytes → Parsed ℕ
parse_status_line line = if ltb 256 (length line) then throws invalid_parameter else do
  version_end ← place (find space line)
  let behind = drop (version_end + 1) line
  status_length ← place (find space behind)
  parse_status (take version_end line) (take status_length behind)

unfoldable pub of_status : ℕ × Parts → Http1Response
of_status (status, parts) = record {
  stream_id = 2 ^ 32 - 1;
  version = http_version_11;
  header = parts.header;
  body = parts.body;
  raw_message = parts.raw_message;
  status = status;
}

-- `Http1Response::parse`
unfoldable pub parse_response : Bytes → Parsed Http1Response
parse_response message = do r ← parse parse_status_line message; parsed (of_status r)
