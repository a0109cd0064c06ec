-- ===== src/Message/Request/Packet.antt =====
-- `packet(true)` of a request without a content-length, parsed back.
use io_reactor.Prelude.{
  ◌^◌, ◌<◌, true, some, List, [], ◌∷◌, ◌++◌, ◌≡◌, refl, sym, ap, ◌∙◌, subst, arith, All, All-append,
  length,
}
use io_reactor.Text.{Bytes, to_string}
use io_reactor.Text.Decimal.{to_string-Lacks}
use io_reactor.Header.{HttpHeader, empty, append, add_all, count}
use io_reactor.Header.Index.{IsIndexed}
use io_reactor.Message.{content_length, parsed, parse_body}
use io_reactor.Message.Lines.{IsPrintable}
use io_reactor.Message.Length.{length_entry, set_length-announced, is_empty-to_string}
use io_reactor.Message.Request.{
  Http1Request, of_parts, parse_request, print_request, packet, with_length,
}
use io_reactor.Message.Request.RoundTrip.{IsSound, parse_request-print_request}

pub length_entry-IsPrintable : (h : HttpHeader) (body : Bytes) → IsPrintable (length_entry h body)
length_entry-IsPrintable h body = (
  refl,
  (
    is_empty-to_string (length body),
    (omega arith, (to_string-Lacks 13 (length body) refl, omega arith)),
  ),
)

pub cons_form {ℓ} :
    {A : Type ℓ} (xs : List A) (y : A) → (x : A) × ((ys : List A) × (xs ++ y ∷ [] ≡ x ∷ ys))
cons_form [] y = (y, ([], refl))
cons_form (x ∷ xs) y = (x, (xs ++ y ∷ [], refl))

-- What the parser makes of the packet of a request with a header: the request's fields, the header
-- read back from its elements, and the packet as the raw message.
abbrev pub read_back : Http1Request → HttpHeader → Http1Request
read_back r h = of_parts (
  record { method = r.method; path = r.path; path_arg = r.path_arg },
  record { header = add_all h.container empty; body = r.body; raw_message = print_request r h },
)

-- A request whose parts do not run into each other, with an indexed header that can be printed and
-- has no content-length, and a body shorter than 2^63: `packet(true)` adds the length of the body to
-- the header, and the packet is parsed back to the request's method, path, arguments, header and
-- body, whatever bytes stand behind it.
pub parse_request-packet :
    (r : Http1Request) (rest : Bytes)
    → IsSound r
    → IsIndexed r.header
    → count content_length r.header ≡ 0
    → All IsPrintable r.header.container
    → length r.body < 2 ^ 63
    → let h : HttpHeader = append content_length (to_string (length r.body)) r.header in
      (packet true r ≡ some (print_request r h, record r { header = h }))
      × (parse_request (print_request r h ++ rest) ≡ parsed (read_back r h))
unfolding packet with_length append
parse_request-packet r rest s k zero_length a fits =
    let (added, announced) = set_length-announced r.header r.body rest k zero_length fits in
    let e = length_entry r.header r.body in
    let h = append content_length (to_string (length r.body)) r.header in
    let (x, (xs, form)) = cons_form r.header.container e in
    let printable : All IsPrintable (x ∷ xs) = subst (All IsPrintable) form (
      All-append IsPrintable r.header.container (e ∷ []) a
        (length_entry-IsPrintable r.header r.body, tt)) in
    (
      rw (zero_length, added) refl,
      parse_request-print_request r h x xs rest s form printable
            (ap (λ es. parse_body (add_all es empty) (r.body ++ rest)) (sym form) ∙ announced)
          ∙ ap
              (λ es. parsed (
                of_parts (
                  record { method = r.method; path = r.path; path_arg = r.path_arg },
                  record {
                    header = add_all es empty;
                    body = r.body;
                    raw_message = print_request r h;
                  },
                )))
              (sym form),
    )
