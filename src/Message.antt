-- ===== src/Message.antt =====
-- http1_protocol/Http1Protocol.h: the parser of a message, over the parser of its first line, which
-- the request and the response each bring.
pub mod Request
pub mod Status
pub mod Response
pub mod Lines
pub mod Whole
pub mod Length
pub mod Ending
pub mod Handshake
pub mod Upgrade
mod Tests
use io_reactor.Prelude.{
  ℕ, zero, suc, ◌+◌, ◌-◌, Bool, true, false, Option, none, some, List, [], ◌∷◌, ◌++◌, ltb, leb,
  ◌==◌, if◌then◌else◌, length, take, drop, min,
}
use io_reactor.Text.{Bytes, codes, starts_with, raise, find, crlf}
use io_reactor.Header.Print
use io_reactor.Header.{HttpHeader, size, empty, add, contains, contains_lower, get_number}

-- `HTTP_VERSION`
pub data HttpVersion : Type 0 where
  http_version_none http_version_11 http_version_2 : HttpVersion

unfoldable pub version_to_string : HttpVersion → Bytes
version_to_string http_version_11 = codes "HTTP/1.1"
version_to_string http_version_2 = codes "HTTP/2"
version_to_string http_version_none = codes "http/?"

abbrev pub blank_line : Bytes
blank_line = 13 ∷ 10 ∷ 13 ∷ 10 ∷ []

abbrev pub content_length : Bytes
content_length = codes "content-length"

-- The three `std::runtime_error`.
pub data ParseError : Type 0 where
  invalid_parameter invalid_header invalid_body : ParseError

-- `incomplete` is `std::nullopt`. `stuck` is no outcome of the code: the fuel ran out.
pub data Parsed {ℓ} (A : Type ℓ) : Type ℓ where
  incomplete stuck : Parsed A
  throws : ParseError → Parsed A
  parsed : A → Parsed A

infixl 5 ◌>>=◌
abbrev pub ◌>>=◌ {ℓ κ} : {A : Type ℓ} {B : Type κ} → Parsed A → (A → Parsed B) → Parsed B
incomplete >>= f = incomplete
stuck >>= f = stuck
throws e >>= f = throws e
parsed a >>= f = f a

-- A position, without which the message is incomplete.
abbrev pub position : Option ℕ → Parsed ℕ
position none = incomplete
position (some n) = parsed n

-- A line of the header: its name ends at the first ": ".
abbrev pub parse_line : Bytes → Option ℕ → HttpHeader → Parsed HttpHeader
parse_line line none h = throws invalid_header
parse_line line (some name_end) h = parsed (add (take name_end line) (drop (name_end + 2) line) h).0

-- A round of the loop of `parse_header`, which goes on with the lines behind this one.
abbrev pub header_round :
    Option ℕ → Bytes → HttpHeader → (Bytes → HttpHeader → Parsed HttpHeader) → Parsed HttpHeader
header_round none lines h next = parsed h
header_round (some pos_end) lines h next = do
  let line = take pos_end lines
  added ← parse_line line (find (codes ": ") line) h
  next (drop (pos_end + 2) lines) added

-- The loop, on what is left of the lines.
unfoldable pub header_loop : ℕ → Bytes → HttpHeader → Parsed HttpHeader
header_loop zero lines h = stuck
header_loop (suc fuel) lines h = header_round (find crlf lines) lines h (header_loop fuel)

-- `parse_header`; a line has its end, so one round for each byte and one more are enough.
unfoldable pub parse_header : Bytes → Parsed HttpHeader
parse_header lines =
    if ltb (length lines) 2 then incomplete else header_loop (suc (length lines)) lines empty

-- The last place of a pattern.
abbrev pub last_place : Option ℕ → Bool → Option ℕ
last_place (some n) here = some (suc n)
last_place none true = some 0
last_place none false = none

unfoldable pub rfind : Bytes → Bytes → Option ℕ
rfind p [] = last_place none (starts_with p [])
rfind p (c ∷ s) = last_place (rfind p s) (starts_with p (c ∷ s))

abbrev pub last_chunk : Bytes
last_chunk = 13 ∷ 10 ∷ 48 ∷ 13 ∷ 10 ∷ 13 ∷ 10 ∷ []

-- A chunked body ends with the last chunk, for which the last 1000 bytes are searched.
unfoldable pub parse_chunked : Bytes → Parsed Bytes
parse_chunked message = do
  let min_size = min 1000 (length message)
  body_end ← position (rfind last_chunk (drop (length message - min_size) message))
  parsed (take (body_end + (length message - min_size) + 2 + 1 + 4) message)

unfoldable pub parse_body : HttpHeader → Bytes → Parsed Bytes
parse_body h message =
    let size = get_number content_length h in
    if contains content_length h
    then (if ltb (length message) size then incomplete else parsed (take size message))
    else if contains_lower (codes "transfer-encoding") (codes "chunked") h
    then parse_chunked message
    else parsed message

-- What a message has beside its first line.
pub record Parts : Type 0 where
  pub header : HttpHeader
  pub body : Bytes
  pub raw_message : Bytes

-- `parse(message, parse_parameter_func)`
unfoldable pub parse {ℓ} : {A : Type ℓ} → (Bytes → Parsed A) → Bytes → Parsed (A × Parts)
parse parse_parameter message = do
  parameter_end ← position (find crlf message)
  parameter ← parse_parameter (take parameter_end message)
  header_end ← position (find blank_line message)
  let lines = take (header_end + 2 - (parameter_end + 2)) (drop (parameter_end + 2) message)
  header ← if ltb parameter_end header_end then parse_header lines else parsed empty
  body ← parse_body header (drop (header_end + 4) message)
  let raw = take (header_end + 4 + length body) message
  parsed (parameter, record { header = header; body = body; raw_message = raw })

-- The blank line comes only behind a header that has values.
abbrev pub blank_behind : HttpHeader → Bytes → Bytes
blank_behind h rest = if ltb 0 (size h) then crlf ++ rest else rest

-- The text that `packet` builds, in the request and in the response.
unfoldable pub print_message : Bytes → HttpHeader → Bytes → Bytes
print_message first h body = first ++ (crlf ++ (Print.to_string h ++ (crlf ++ blank_behind h body)))
