-- ===== src/Message/Request/Bare.antt =====
-- The packet of a request without a header, as `packet() const` prints it and the parser reads it.
use io_reactor.Prelude.{
  ◌+◌, true, false, [], ◌∷◌, ◌++◌, append-nil, ltb, ◌≡◌, refl, sym, ap, ap₂, ◌∙◌, arith, length,
  length-append, take, drop, take-append,
}
use io_reactor.Text.{Bytes, codes, crlf, Lacks, to_string, starts_with}
use io_reactor.Text.Search.{find-append}
use io_reactor.Header
use io_reactor.Header.{HttpHeader, empty, size_of, count, contains, contains_lower, find_name}
use io_reactor.Header.Print.{print_loop}
use io_reactor.Message.{Parsed, parsed, ◌>>=◌, parse_body, parse, blank_line}
use io_reactor.Message.Lines.{drop_more}
use io_reactor.Message.Request.{
  Http1Request, Parameter, of_parts, parse_parameter, parse_request, first_line, packet_const,
}
use io_reactor.Message.Request.RoundTrip.{IsSound, parse_parameter-first_line, first_line-Lacks}

-- The line of the length, which stands behind the blank line.
abbrev pub length_line : Bytes → Bytes
length_line body = codes "content-length: " ++ (to_string (length body) ++ crlf)

packet_const-empty :
    (r : Http1Request)
    → r.header ≡ empty
    → r.content_length_flag ≡ true
    → packet_const r ≡ first_line r ++ (13 ∷ 10 ∷ 13 ∷ 10 ∷ (length_line r.body ++ r.body))
unfolding packet_const count Header.Print.to_string print_loop size_of find_name
packet_const-empty r e flag =
    let parts : packet_const r
        ≡ packet_const (record r { header = empty; content_length_flag = true }) =
      ap₂ (λ h b. packet_const (record r { header = h; content_length_flag = b })) e flag in
    parts ∙ ap (λ t. first_line r ++ (13 ∷ 10 ∷ 13 ∷ 10 ∷ t)) refl

first-crlf : (s : Bytes) → starts_with crlf (13 ∷ 10 ∷ s) ≡ true
unfolding starts_with
first-crlf s = refl

first-blank_line : (s : Bytes) → starts_with blank_line (13 ∷ 10 ∷ 13 ∷ 10 ∷ s) ≡ true
unfolding starts_with
first-blank_line s = refl

parse_body-empty : (message : Bytes) → parse_body empty message ≡ parsed message
unfolding parse_body contains contains_lower find_name
parse_body-empty message = refl

-- A message without a header: everything behind the blank line is its body.
parse-bare {ℓ} :
    {A : Type ℓ} (parse_parameter : Bytes → Parsed A) (l body : Bytes) (p : A)
    → Lacks 13 l
    → parse_parameter l ≡ parsed p
    → let message : Bytes = l ++ (13 ∷ 10 ∷ 13 ∷ 10 ∷ body) in
      parse parse_parameter message
      ≡ parsed (p, record { header = empty; body = body; raw_message = message })
unfolding parse
parse-bare parse_parameter l body p k known =
    let message = l ++ (13 ∷ 10 ∷ 13 ∷ 10 ∷ body) in
    let at_crlf =
      find-append 13 (10 ∷ []) l (13 ∷ 10 ∷ 13 ∷ 10 ∷ body) k (first-crlf (13 ∷ 10 ∷ body)) in
    let at_blank =
      find-append 13 (10 ∷ 13 ∷ 10 ∷ []) l (13 ∷ 10 ∷ 13 ∷ 10 ∷ body) k (first-blank_line body) in
    let none_between : ltb (length l) (length l) ≡ false = ground arith in
    let behind : drop (length l + 4) message ≡ body = drop_more l blank_line body in
    let whole : take (length l + 4 + length body) message ≡ message =
      ap (take (length l + 4 + length body)) (sym (append-nil message))
      ∙ take-append message [] (length l + 4 + length body)
          (omega (arith, length-append l (13 ∷ 10 ∷ 13 ∷ 10 ∷ body))) in
    rw
      (
        at_crlf,
        take-append l (13 ∷ 10 ∷ 13 ∷ 10 ∷ body) (length l) refl,
        known,
        at_blank,
        none_between,
        behind,
        parse_body-empty body,
        whole,
      )
      refl

-- A request without a header, of which `packet() const` is to print the length of the body: the line
-- of the length stands behind the blank line, and the parser takes it for the start of the body.
pub parse_request-packet_const :
    (r : Http1Request)
    → IsSound r
    → r.header ≡ empty
    → r.content_length_flag ≡ true
    → parse_request (packet_const r)
      ≡ parsed (
          of_parts (
            record { method = r.method; path = r.path; path_arg = r.path_arg },
            record {
              header = empty;
              body = length_line r.body ++ r.body;
              raw_message = packet_const r;
            },
          ))
unfolding parse_request
parse_request-packet_const r s e flag =
    let text = packet_const-empty r e flag in
    let p : Parameter = record { method = r.method; path = r.path; path_arg = r.path_arg } in
    let body = length_line r.body ++ r.body in
    ap (λ o. o >>= λ q. parsed (of_parts q))
      (ap (parse parse_parameter) text
        ∙ parse-bare parse_parameter (first_line r) body p (first_line-Lacks r s)
            (parse_parameter-first_line r s))
    ∙ ap (λ t. parsed (of_parts (p, record { header = empty; body = body; raw_message = t })))
        (sym text)
