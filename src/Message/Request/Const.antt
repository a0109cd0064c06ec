-- ===== src/Message/Request/Const.antt =====
-- `packet() const` of a request with a header, which prints what `packet(true)` prints.
use io_reactor.Prelude.{
  true, List, [], ◌∷◌, ◌++◌, append_assoc, ltb, ◌≡◌, refl, sym, ap, ◌∙◌, arith, All, All-append,
  length,
}
use io_reactor.Text.{Bytes, to_string, crlf}
use io_reactor.Header
use io_reactor.Header.{Entry, HttpHeader, append, count, size_of}
use io_reactor.Header.Print.{print_loop}
use io_reactor.Message.{content_length}
use io_reactor.Message.Lines.{
  lines, lines_of, line_of, IsPrintable, print_loop-lines_of, print_message-lines,
  size_of-IsPrintable,
}
use io_reactor.Message.Length.{length_entry}
use io_reactor.Message.Request.{Http1Request, first_line, packet_const, print_request}
use io_reactor.Message.Request.Packet.{length_entry-IsPrintable}
use io_reactor.Message.Request.Bare.{length_line}

lines-last :
    (es : List Entry) (e : Entry) (rest : Bytes)
    → lines (lines_of (es ++ e ∷ [])) rest ≡ lines (lines_of es) (line_of e ++ (13 ∷ 10 ∷ rest))
lines-last [] e rest = refl
lines-last (x ∷ es) e rest = ap (λ t. line_of x ++ (13 ∷ 10 ∷ t)) (lines-last es e rest)

-- The line of the length, where the header of `packet(true)` ends.
length_line-line_of :
    (h : HttpHeader) (body rest : Bytes)
    → length_line body ++ (13 ∷ 10 ∷ rest)
      ≡ line_of (length_entry h body) ++ (13 ∷ 10 ∷ (13 ∷ 10 ∷ rest))
length_line-line_of h body rest =
    ap (◌++◌ (content_length ++ (58 ∷ 32 ∷ [])))
      (append_assoc (to_string (length body)) crlf (13 ∷ 10 ∷ rest))

-- A request with a printable header that is not empty and has no content-length, whose length is to
-- be sent.
pub packet_const-print_request :
    (r : Http1Request) (e : Entry) (es : List Entry)
    → r.header.container ≡ e ∷ es
    → All IsPrintable (e ∷ es)
    → count content_length r.header ≡ 0
    → r.content_length_flag ≡ true
    → packet_const r ≡ print_request r (append content_length (to_string (length r.body)) r.header)
unfolding packet_const Header.Print.to_string append
packet_const-print_request r e es form a zero_length flag =
    let last = length_entry r.header r.body in
    let h = append content_length (to_string (length r.body)) r.header in
    let full : ltb 0 (size_of r.header.container) ≡ true =
      rw form (ground (arith, size_of-IsPrintable e es a.0)) in
    let printed =
      print_message-lines (first_line r) h r.body e (es ++ last ∷ [])
        (ap (λ xs. xs ++ last ∷ []) form)
        (
          a.0,
          All-append IsPrintable es (last ∷ []) a.1 (length_entry-IsPrintable r.header r.body, tt),
        ) in
    rw (full, flag, zero_length, form)
      (ap (λ t. first_line r ++ (13 ∷ 10 ∷ t))
        (print_loop-lines_of e es (length_line r.body ++ (13 ∷ 10 ∷ r.body)) a
          ∙ ap (lines (lines_of (e ∷ es))) (length_line-line_of r.header r.body r.body)
          ∙ sym (lines-last (e ∷ es) last (13 ∷ 10 ∷ r.body))))
    ∙ sym printed
