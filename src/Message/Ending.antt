-- ===== src/Message/Ending.antt =====
-- The parsers of a request and of a response always end.
use io_reactor.Prelude.{
  ℕ, zero, suc, ◌+◌, ◌-◌, ◌<◌, Bool, true, false, ◌&&◌, Option, none, some, [], ◌∷◌, ltb,
  if◌then◌else◌, ◌≡◌, sym, subst, arith, not, min, length, length-drop, take, drop, Option-cases,
  inl, inr,
}
use io_reactor.Text.{Bytes, codes, find, crlf, starts_with, same}
use io_reactor.Header.{HttpHeader, empty, contains, contains_lower, get_number}
use io_reactor.Message.{
  Parsed, incomplete, stuck, throws, parsed, invalid_parameter, position, parse_line, header_round,
  header_loop, parse_header, rfind, last_chunk, parse_chunked, parse_body, content_length, parse,
  blank_line, ◌>>=◌,
}
use io_reactor.Message.Request.{
  http_11, http_10, parse_parameter, parse_request, place, split_path, space, question,
}
use io_reactor.Message.Response.{all_digits, atoi, parse_status, parse_status_line, parse_response}

-- The outcome is one of the code's.
abbrev pub IsEnded {ℓ} : {A : Type ℓ} → Parsed A → Type 0
IsEnded stuck = ¬ Unit
IsEnded _ = Unit

bind-IsEnded {ℓ κ} :
    {A : Type ℓ} {B : Type κ} (o : Parsed A) (f : A → Parsed B)
    → IsEnded o
    → ((a : A) → IsEnded (f a))
    → IsEnded (o >>= f)
bind-IsEnded incomplete f e h = tt
bind-IsEnded stuck f e h = e
bind-IsEnded (throws x) f e h = tt
bind-IsEnded (parsed a) f e h = h a

position-IsEnded : (o : Option ℕ) → IsEnded (position o)
position-IsEnded none = tt
position-IsEnded (some n) = tt

parse_line-IsEnded : (line : Bytes) (o : Option ℕ) (h : HttpHeader) → IsEnded (parse_line line o h)
parse_line-IsEnded line none h = tt
parse_line-IsEnded line (some n) h = tt

if-IsEnded {ℓ} :
    {A : Type ℓ} (b : Bool) (p q : Parsed A)
    → IsEnded p
    → IsEnded q
    → let r : Parsed A = if b then p else q in IsEnded r
if-IsEnded true p q hp hq = hp
if-IsEnded false p q hp hq = hq

-- A line end is found in text.
found_in_text : (s : Bytes) (n : ℕ) → find crlf s ≡ some n → 0 < length s
unfolding find starts_with
found_in_text [] n e = ground (arith, e)
found_in_text (c ∷ s) n e = omega arith

header_loop-IsEnded :
    (fuel : ℕ) (lines : Bytes) (h : HttpHeader)
    → length lines < fuel
    → IsEnded (header_loop fuel lines h)
unfolding header_loop
header_loop-IsEnded zero lines h f = absurd (omega (arith, f))
header_loop-IsEnded (suc fuel) lines h f = elim (Option-cases (find crlf lines)) [
  | inl e ↦ subst (λ o. IsEnded (header_round o lines h (header_loop fuel))) (sym e) tt
  | inr (n, e) ↦
      let shorter : length (drop (n + 2) lines) < fuel =
        omega (arith, f, length-drop (n + 2) lines, found_in_text lines n e) in
      subst (λ o. IsEnded (header_round o lines h (header_loop fuel))) (sym e)
        (bind-IsEnded (parse_line (take n lines) (find (codes ": ") (take n lines)) h)
          (header_loop fuel (drop (n + 2) lines))
          (parse_line-IsEnded (take n lines) (find (codes ": ") (take n lines)) h)
          (λ added. header_loop-IsEnded fuel (drop (n + 2) lines) added shorter))
]

parse_header-IsEnded : (lines : Bytes) → IsEnded (parse_header lines)
unfolding parse_header
parse_header-IsEnded lines =
    if-IsEnded (ltb (length lines) 2) incomplete (header_loop (suc (length lines)) lines empty) tt
      (header_loop-IsEnded (suc (length lines)) lines empty (omega arith))

parse_chunked-IsEnded : (message : Bytes) → IsEnded (parse_chunked message)
unfolding parse_chunked
parse_chunked-IsEnded message =
    let skipped = length message - min 1000 (length message) in
    let found = rfind last_chunk (drop skipped message) in
    bind-IsEnded (position found) (λ n. parsed (take (n + skipped + 2 + 1 + 4) message))
      (position-IsEnded found) (λ n. tt)

parse_body-IsEnded : (h : HttpHeader) (message : Bytes) → IsEnded (parse_body h message)
unfolding parse_body
parse_body-IsEnded h message =
    if-IsEnded (contains content_length h) _ _
      (if-IsEnded (ltb (length message) (get_number content_length h)) incomplete _ tt tt)
      (if-IsEnded (contains_lower (codes "transfer-encoding") (codes "chunked") h) _ _
        (parse_chunked-IsEnded message) tt)

pub parse-IsEnded {ℓ} :
    {A : Type ℓ} (parse_parameter : Bytes → Parsed A) (message : Bytes)
    → ((line : Bytes) → IsEnded (parse_parameter line))
    → IsEnded (parse parse_parameter message)
unfolding parse
parse-IsEnded parse_parameter message ended =
    bind-IsEnded (position (find crlf message)) _ (position-IsEnded (find crlf message)) (λ pe.
      bind-IsEnded (parse_parameter (take pe message)) _ (ended (take pe message)) (λ p.
        bind-IsEnded (position (find blank_line message)) _
          (position-IsEnded (find blank_line message))
          (λ he.
            let lines = take (he + 2 - (pe + 2)) (drop (pe + 2) message) in
            bind-IsEnded (if ltb pe he then parse_header lines else parsed empty) _
              (if-IsEnded (ltb pe he) (parse_header lines) (parsed empty)
                (parse_header-IsEnded lines) tt)
              (λ h.
                bind-IsEnded (parse_body h (drop (he + 4) message)) _
                  (parse_body-IsEnded h (drop (he + 4) message)) (λ b. tt)))))

place-IsEnded : (o : Option ℕ) → IsEnded (place o)
place-IsEnded none = tt
place-IsEnded (some n) = tt

pub parse_parameter-IsEnded : (line : Bytes) → IsEnded (parse_parameter line)
unfolding parse_parameter
parse_parameter-IsEnded line = if-IsEnded (ltb 256 (length line)) _ _ tt (
    bind-IsEnded (place (find space line)) _ (place-IsEnded (find space line)) (λ m.
      bind-IsEnded (place (find space (drop (m + 1) line))) _ (place-IsEnded _) (λ n.
        let version = drop (n + 1) (drop (m + 1) line) in
        if-IsEnded (not (same version http_11) && not (same version http_10))
          (throws invalid_parameter)
          (parsed (
            let path = take n (drop (m + 1) line) in
            split_path (take m line) path (find question path)))
          tt tt)))

parse_request-IsEnded : (message : Bytes) → IsEnded (parse_request message)
unfolding parse_request
parse_request-IsEnded message =
    bind-IsEnded (parse parse_parameter message) _
      (parse-IsEnded parse_parameter message parse_parameter-IsEnded) (λ r. tt)

parse_status-IsEnded : (version status : Bytes) → IsEnded (parse_status version status)
parse_status-IsEnded version status =
    if-IsEnded (not (same version http_11) && not (same version http_10)) (throws invalid_parameter)
      (if not (all_digits status) then throws invalid_parameter else parsed (atoi status)) tt
      (if-IsEnded (not (all_digits status)) (throws invalid_parameter) (parsed (atoi status)) tt tt)

pub parse_status_line-IsEnded : (line : Bytes) → IsEnded (parse_status_line line)
unfolding parse_status_line
parse_status_line-IsEnded line = if-IsEnded (ltb 256 (length line)) _ _ tt (
    bind-IsEnded (place (find space line)) _ (place-IsEnded (find space line)) (λ m.
      bind-IsEnded (place (find space (drop (m + 1) line))) _ (place-IsEnded _)
        (λ n. parse_status-IsEnded (take m line) (take n (drop (m + 1) line)))))

-- On any bytes the parsers of a request and of a response end: each returns a message, asks for more
-- bytes or throws.
pub parsers-IsEnded :
    (message : Bytes) → IsEnded (parse_request message) × IsEnded (parse_response message)
unfolding parse_response
parsers-IsEnded message = (
  parse_request-IsEnded message,
  bind-IsEnded (parse parse_status_line message) _
      (parse-IsEnded parse_status_line message parse_status_line-IsEnded) (λ r. tt),
)
