-- ===== src/Message/Request/Part.antt =====
-- A part of a printed request is not enough for the parser.
use io_reactor.Prelude.{
  ℕ, ◌^◌, ◌<◌, List, ◌∷◌, [], ◌≡◌, sym, ap, ◌∙◌, subst, All, All-append, length, take,
}
use io_reactor.Text.{Bytes, to_string}
use io_reactor.Header.{Entry, HttpHeader, empty, append, add_all, count}
use io_reactor.Header.Index.{IsIndexed}
use io_reactor.Message.{content_length, incomplete, ◌>>=◌, parsed, parse_body, parse}
use io_reactor.Message.Lines.{lines, lines_of, IsPrintable, print_message-lines}
use io_reactor.Message.Whole.{parse-part_of_lines}
use io_reactor.Message.Length.{length_entry, parse_body-awaits}
use io_reactor.Message.Request.{
  Http1Request, of_parts, parse_parameter, parse_request, first_line, print_request,
}
use io_reactor.Message.Request.RoundTrip.{IsSound, parse_parameter-first_line, first_line-Lacks}
use io_reactor.Message.Request.Packet.{length_entry-IsPrintable, cons_form}

part_of_text :
    (r : Http1Request) (h : HttpHeader) (e : Entry) (es : List Entry) (n : ℕ)
    → IsSound r
    → h.container ≡ e ∷ es
    → All IsPrintable (e ∷ es)
    → ((bytes : Bytes)
        → length bytes < length r.body
        → parse_body (add_all (e ∷ es) empty) bytes ≡ incomplete)
    → n < length (print_request r h)
    → parse_request (take n (print_request r h)) ≡ incomplete
unfolding parse_request
part_of_text r h e es n s c a awaits short =
    let text = print_message-lines (first_line r) h r.body e es c a in
    let message = lines (first_line r ∷ lines_of (e ∷ es)) (13 ∷ 10 ∷ r.body) in
    ap (λ o. o >>= λ q. parsed (of_parts q))
      (ap (λ t. parse parse_parameter (take n t)) text
        ∙ parse-part_of_lines parse_parameter (first_line r) e es r.body
            (record { method = r.method; path = r.path; path_arg = r.path_arg }) n
            (first_line-Lacks r s) a (parse_parameter-first_line r s) awaits
            (subst (λ t. n < length t) text short))

-- A request whose parts do not run into each other, with an indexed header that can be printed and
-- has no content-length, and a body shorter than 2^63: of any part of the packet that `packet(true)`
-- prints, less than the whole, the parser says that it is incomplete.
pub parse_request-part :
    (r : Http1Request) (n : ℕ)
    → IsSound r
    → IsIndexed r.header
    → count content_length r.header ≡ 0
    → All IsPrintable r.header.container
    → length r.body < 2 ^ 63
    → n < length (print_request r (append content_length (to_string (length r.body)) r.header))
    → parse_request
        (take n (print_request r (append content_length (to_string (length r.body)) r.header)))
      ≡ incomplete
unfolding append
parse_request-part r n s k zero_length a fits short =
    let e = length_entry r.header r.body in
    let h = append content_length (to_string (length r.body)) r.header in
    let (x, (xs, form)) = cons_form r.header.container e in
    let printable : All IsPrintable (x ∷ xs) = subst (All IsPrintable) form (
      All-append IsPrintable r.header.container (e ∷ []) a
        (length_entry-IsPrintable r.header r.body, tt)) in
    part_of_text r h x xs n s form printable
      (λ bytes less.
        ap (λ es. parse_body (add_all es empty) bytes) (sym form)
        ∙ parse_body-awaits r.header r.body bytes k zero_length fits less)
      short
