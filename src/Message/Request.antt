-- ===== src/Message/Request.antt =====
-- http1_protocol/Http1Request.h: the first line of a request, its packet, and the upgrade to
-- WebSocket. The key of an upgrade is what the copied base64 code makes of the clock: an argument.
pub mod RoundTrip
pub mod Packet
pub mod Bare
pub mod Const
pub mod Part
use io_reactor.Prelude.{
  ℕ, suc, ◌+◌, ◌-◌, ◌^◌, Bool, true, false, not, ◌&&◌, ◌||◌, Option, none, some, List, [], ◌∷◌,
  ◌++◌, ltb, ◌==◌, if◌then◌else◌, length, take, drop,
}
use io_reactor.Text.{Bytes, codes, same, find, crlf, to_lower, to_string}
use io_reactor.Header
use io_reactor.Header.{HttpHeader, empty, count, contains, contains_lower, get, size, is_empty, set}
use io_reactor.Header.Print
use io_reactor.Message.{
  HttpVersion, http_version_11, version_to_string, content_length, Parsed, incomplete, stuck,
  throws, parsed, invalid_parameter, ◌>>=◌, Parts, parse, blank_behind, print_message,
}

pub record Http1Request : Type 0 where
  pub stream_id : ℕ
  pub version : HttpVersion
  pub header : HttpHeader
  pub body : Bytes
  pub raw_message : Bytes
  pub method : Bytes
  pub path : Bytes
  pub path_arg : Bytes
  pub content_length_flag : Bool

-- The three fields of the first line.
pub record Parameter : Type 0 where
  pub method : Bytes
  pub path : Bytes
  pub path_arg : Bytes

abbrev pub space : Bytes
space = codes " "

abbrev pub question : Bytes
question = codes "?"

abbrev pub http_11 : Bytes
http_11 = codes "HTTP/1.1"

abbrev pub http_10 : Bytes
http_10 = codes "HTTP/1.0"

-- The part of the path behind the question mark.
abbrev pub split_path : Bytes → Bytes → Option ℕ → Parameter
split_path method path none = record { method = method; path = path; path_arg = [] }
split_path method path (some pos) = record {
  method = method;
  path = take pos path;
  path_arg = drop (pos + 1) path;
}

abbrev pub check_version : Bytes → Parameter → Parsed Parameter
check_version version p =
    if not (same version http_11) && not (same version http_10)
    then throws invalid_parameter
    else parsed p

-- A place, without which the line is invalid.
abbrev pub place : Option ℕ → Parsed ℕ
place none = throws invalid_parameter
place (some n) = parsed n

-- `parse_parameter`
unfoldable pub parse_parameter : Bytes → Parsed Parameter
parse_parameter line = if ltb 256 (length line) then throws invalid_parameter else do
  method_end ← place (find space line)
  let behind = drop (method_end + 1) line
  path_length ← place (find space behind)
  let path = take path_length behind
  let p = split_path (take method_end line) path (find question path)
  check_version (drop (path_length + 1) behind) p

unfoldable pub of_parts : Parameter × Parts → Http1Request
of_parts (p, parts) = record {
  stream_id = 2 ^ 32 - 1;
  version = http_version_11;
  header = parts.header;
  body = parts.body;
  raw_message = parts.raw_message;
  method = p.method;
  path = p.path;
  path_arg = p.path_arg;
  content_length_flag = true;
}

-- `Http1Request::parse`
unfoldable pub parse_request : Bytes → Parsed Http1Request
parse_request message = do r ← parse parse_parameter message; parsed (of_parts r)

abbrev pub full_path : Http1Request → Bytes
full_path r = if is_empty r.path_arg then r.path else r.path ++ (question ++ r.path_arg)

abbrev pub first_line : Http1Request → Bytes
first_line r = r.method ++ (space ++ (full_path r ++ (space ++ version_to_string r.version)))

-- `packet() const`: the length stands behind the line break of the header.
unfoldable pub packet_const : Http1Request → Bytes
packet_const r =
    let line =
      if r.content_length_flag && count content_length r.header == 0
      then codes "content-length: " ++ (to_string (length r.body) ++ crlf)
      else [] in
    first_line r
    ++ (crlf ++ (Print.to_string r.header ++ (crlf ++ (line ++ blank_behind r.header r.body))))

-- The header that `packet(with_content_length)` leaves in the request.
unfoldable pub with_length : Bool → Bytes → HttpHeader → Option HttpHeader
with_length with_content_length body h =
    if with_content_length && count content_length h == 0
    then set content_length (to_string (length body)) h
    else some h

abbrev pub print_request : Http1Request → HttpHeader → Bytes
print_request r h = print_message (first_line r) h r.body

-- `packet(with_content_length)`: the text and the request with its new header.
unfoldable pub packet : Bool → Http1Request → Option (Bytes × Http1Request)
packet with_content_length r = printed (with_length with_content_length r.body r.header)
  where
    printed : Option HttpHeader → Option (Bytes × Http1Request)
    printed none = none
    printed (some h) = some (print_request r h, record r { header = h })

-- `GET`
unfoldable pub get_request : ℕ → Bytes → Bytes → HttpHeader → Bytes → Bool → Http1Request
get_request stream_id path path_arg h body content_length_flag = record {
  stream_id = stream_id;
  version = http_version_11;
  header = h;
  body = body;
  raw_message = [];
  method = codes "GET";
  path = path;
  path_arg = path_arg;
  content_length_flag = content_length_flag;
}

-- The loop of `make_path_arg`.
unfoldable pub path_arg_loop : List (Bytes × Bytes) → Bytes → Bytes
path_arg_loop [] path_arg = path_arg
path_arg_loop ((n, v) ∷ args) path_arg =
    path_arg_loop args
      ((if is_empty path_arg then path_arg else path_arg ++ codes "&") ++ (n ++ (codes "=" ++ v)))

unfoldable pub make_path_arg : List (Bytes × Bytes) → Bytes
make_path_arg args = path_arg_loop args []

abbrev pub then_set : Bytes → Bytes → Option HttpHeader → Option HttpHeader
then_set n v none = none
then_set n v (some h) = set n v h

abbrev pub request_with : Http1Request → Option HttpHeader → Option Http1Request
request_with r none = none
request_with r (some h) = some (record r { header = h })

-- `upgrade_websocket`; the last argument is the key.
unfoldable pub upgrade_websocket : ℕ → Bytes → Bytes → HttpHeader → Bytes → Option Http1Request
upgrade_websocket stream_id path path_arg h key =
    let request = get_request stream_id path path_arg empty [] true in
    request_with request (
      then_set (codes "sec-websocket-key") key (
        then_set (codes "sec-websocket-version") (codes "13") (
          then_set (codes "upgrade") (codes "websocket")
            (then_set (codes "connection") (codes "Upgrade") (some h)))))

unfoldable pub get_sec_websocket_key : Http1Request → Bytes
get_sec_websocket_key r = get (codes "Sec-WebSocket-Key") r.header

unfoldable pub is_upgrade_websocket : Http1Request → Bool
is_upgrade_websocket r =
    if not (same (to_lower (get (codes "connection") r.header)) (codes "upgrade"))
    then false
    else if not (same (to_lower (get (codes "upgrade") r.header)) (codes "websocket"))
    then false
    else if not (same (get (codes "sec-websocket-version") r.header) (codes "13"))
    then false
    else if not (contains (codes "sec-websocket-key") r.header)
    then false
    else true

unfoldable pub should_keep_alive : Http1Request → Bool
should_keep_alive r = contains_lower (codes "connection") (codes "close") r.header

-- `HttpRequestData`
pub record HttpRequestData : Type 0 where
  pub version : HttpVersion
  pub version_string : Bytes
  pub path : Bytes
  pub path_arg : Bytes
  pub method : Bytes
  pub header : HttpHeader
  pub body : Bytes

unfoldable pub request_data : Http1Request → HttpRequestData
request_data r = record {
  version = r.version;
  version_string = version_to_string r.version;
  path = r.path;
  path_arg = r.path_arg;
  method = r.method;
  header = r.header;
  body = r.body;
}
