-- ===== src/Message/Response/RoundTrip.antt =====
-- A response that is printed is parsed back.
use io_reactor.Prelude.{
  ℕ, ◌^◌, ◌≤◌, ◌<◌, ◌%◌, Bool, true, false, not, ◌&&◌, some, List, [], ◌∷◌, ◌++◌, leb, ◌==◌, ◌≡◌,
  ◌≢◌, refl, sym, ap, ◌∙◌, subst, arith, All, All-append, length, length-append, take-append,
  Bool-cases, inl, inr, ltb,
}
use io_reactor.Text.{Bytes, Lacks, same_self, to_string}
use io_reactor.Text.Decimal.{
  strtoll-to_string, to_string-IsDecimal, to_string-Lacks, length-to_string, IsDecimal, IsDigits,
}
use io_reactor.Header.{Entry, HttpHeader, empty, append, add_all, count, is_empty}
use io_reactor.Header.Index.{IsIndexed}
use io_reactor.Message.{
  http_version_11, version_to_string, content_length, parsed, ◌>>=◌, parse_body, parse,
  print_message,
}
use io_reactor.Message.Lines.{lines_of, IsPrintable, print_message-lines}
use io_reactor.Message.Whole.{lines_body, parse-lines}
use io_reactor.Message.Length.{length_entry, set_length-announced}
use io_reactor.Message.Status.{phrases, phrase_in, status_code_to_string}
use io_reactor.Message.Request.{http_11, with_length}
use io_reactor.Message.Request.RoundTrip.{find-byte, drop-byte, is_empty-nil}
use io_reactor.Message.Request.Packet.{length_entry-IsPrintable, cons_form}
use io_reactor.Message.Response.{
  Http1Response, int_to_string, atoi, status_line, packet, all_digits, parse_status_line, of_status,
  parse_response,
}

-- A phrase is short and has no carriage return.
abbrev IsPhrase : Bytes → Type 0
IsPhrase s = (length s ≤ 100) × Lacks 13 s

abbrev lacks : Bytes → Bool
lacks [] = true
lacks (c ∷ s) = not (c == 13) && lacks s

lacks-Lacks : (s : Bytes) → lacks s ≡ true → Lacks 13 s
lacks-Lacks [] e = tt
lacks-Lacks (c ∷ s) e = (ground (arith, e), lacks-Lacks s (ground (arith, e)))

abbrev phrases_fit : List (ℕ × Bytes) → Bool
phrases_fit [] = true
phrases_fit ((n, s) ∷ rows) = leb (length s) 100 && lacks s && phrases_fit rows

phrase_in-IsPhrase :
    (n : ℕ) (rows : List (ℕ × Bytes)) → phrases_fit rows ≡ true → IsPhrase (phrase_in n rows)
unfolding phrase_in
phrase_in-IsPhrase n [] e = (omega arith, tt)
phrase_in-IsPhrase n ((m, s) ∷ rows) e = elim (Bool-cases (m == n)) [
  | inl here ↦ rw here (ground (arith, e), lacks-Lacks s (ground (arith, e)))
  | inr there ↦ rw there (phrase_in-IsPhrase n rows (ground (arith, e)))
]

status-IsPhrase : (n : ℕ) → IsPhrase (status_code_to_string n)
unfolding status_code_to_string
status-IsPhrase n = phrase_in-IsPhrase n phrases refl

digits-all_digits : (s : Bytes) → IsDigits s → all_digits s ≡ true
unfolding all_digits
digits-all_digits [] h = refl
digits-all_digits (c ∷ s) (d, h) = rw (d, digits-all_digits s h) refl

decimal-all_digits : (s : Bytes) → IsDecimal s → all_digits s ≡ true
unfolding all_digits
decimal-all_digits [] h = refl
decimal-all_digits (c ∷ s) (d, h) = rw (d, digits-all_digits s h) refl

-- A status that is not negative is printed as its digits.
int_to_string-small : (n : ℕ) → n < 2 ^ 31 → int_to_string n ≡ to_string n
unfolding int_to_string
int_to_string-small n h = let e : ltb n (2 ^ 31) ≡ true = ground (arith, h) in rw e refl

atoi-to_string : (n : ℕ) → n < 2 ^ 31 → atoi (to_string n) ≡ n
unfolding atoi
atoi-to_string n h =
    ap (λ m. m % 2 ^ 32) (strtoll-to_string n (omega (arith, h))) ∙ omega (arith, h)

abbrev pub line_with : Bytes → Bytes → Bytes
line_with status phrase = http_11 ++ (32 ∷ (status ++ (32 ∷ phrase)))

status_line-with :
    (r : Http1Response)
    → r.version ≡ http_version_11
    → r.status < 2 ^ 31
    → status_line r ≡ line_with (to_string r.status) (status_code_to_string r.status)
unfolding version_to_string
status_line-with r v h =
    ap
      (λ w.
        version_to_string w
        ++ (32 ∷ (int_to_string r.status ++ (32 ∷ status_code_to_string r.status))))
      v
    ∙ ap (λ s. line_with s (status_code_to_string r.status)) (int_to_string-small r.status h)

parse_status_line-with :
    (status phrase : Bytes)
    → length status ≤ 10
    → Lacks 32 status
    → all_digits status ≡ true
    → length phrase ≤ 100
    → parse_status_line (line_with status phrase) ≡ parsed (atoi status)
unfolding parse_status_line
parse_status_line-with status phrase h k d g =
    let line = line_with status phrase in
    let behind = status ++ (32 ∷ phrase) in
    let short : ltb 256 (length line) ≡ false =
      ground (arith, h, g, length-append status (32 ∷ phrase)) in
    rw
      (
        short,
        find-byte 32 http_11 behind (omega arith),
        take-append http_11 (32 ∷ behind) (length http_11) refl,
        drop-byte 32 http_11 behind,
        find-byte 32 status phrase k,
        take-append status (32 ∷ phrase) (length status) refl,
        same_self http_11,
        d,
      )
      refl

line_with-Lacks :
    (status phrase : Bytes) → Lacks 13 status → Lacks 13 phrase → Lacks 13 (line_with status phrase)
line_with-Lacks status phrase h k =
    All-append (λ x. x ≢ 13) http_11 (32 ∷ (status ++ (32 ∷ phrase))) (omega arith)
      ((omega arith), All-append (λ x. x ≢ 13) status (32 ∷ phrase) h ((omega arith), k))

-- What the parser makes of the packet of a response with a header: the status, the header read back
-- from its elements, the body, and the packet as the raw message.
abbrev pub read_back : Http1Response → HttpHeader → Http1Response
read_back r h = of_status (
  r.status,
  record {
    header = add_all h.container empty;
    body = r.body;
    raw_message = print_message (status_line r) h r.body;
  },
)

parse_response-print_message :
    (r : Http1Response) (h : HttpHeader) (e : Entry) (es : List Entry) (rest : Bytes)
    → r.version ≡ http_version_11
    → r.status < 2 ^ 31
    → h.container ≡ e ∷ es
    → All IsPrintable (e ∷ es)
    → parse_body (add_all (e ∷ es) empty) (r.body ++ rest) ≡ parsed r.body
    → parse_response (print_message (status_line r) h r.body ++ rest) ≡ parsed (read_back r h)
unfolding parse_response
parse_response-print_message r h e es rest v small c a announced =
    let (short, plain) = status-IsPhrase r.status in
    let line = status_line r in
    let ls = line ∷ lines_of (e ∷ es) in
    let text = print_message-lines line h r.body e es c a in
    let digits = to_string r.status in
    let decimal = to_string-IsDecimal r.status in
    let form = status_line-with r v small in
    let clean : Lacks 13 line = subst (Lacks 13) (sym form) (
      line_with-Lacks digits (status_code_to_string r.status) (to_string-Lacks 13 r.status refl)
        plain) in
    let known : parse_status_line line ≡ parsed r.status =
      ap parse_status_line form
      ∙ parse_status_line-with digits (status_code_to_string r.status)
          (length-to_string r.status small) (to_string-Lacks 32 r.status refl)
          (decimal-all_digits digits decimal) short
      ∙ ap parsed (atoi-to_string r.status small) in
    ap (λ o. o >>= λ q. parsed (of_status q))
      (ap (parse parse_status_line) (ap (λ t. t ++ rest) text ∙ sym (lines_body ls r.body rest))
        ∙ parse-lines parse_status_line line e es r.body rest r.status clean a known announced)
    ∙ ap
        (λ t. parsed (
          of_status
            (r.status, record { header = add_all (e ∷ es) empty; body = r.body; raw_message = t })))
        (sym text)
    ∙ ap
        (λ xs. parsed (
          of_status (
            r.status,
            record {
              header = add_all xs empty;
              body = r.body;
              raw_message = print_message line h r.body;
            },
          )))
        (sym c)

packet-text :
    (r : Http1Response) (h : HttpHeader)
    → with_length true r.body r.header ≡ some h
    → packet true r ≡ some (print_message (status_line r) h r.body, record r { header = h })
unfolding packet
packet-text r h e = elim (Bool-cases (is_empty r.body)) [
  | inl none_there ↦
      rw (e, none_there)
        (ap (λ b. some (print_message (status_line r) h b, record r { header = h }))
          (sym (is_empty-nil r.body none_there)))
  | inr some_there ↦ rw (e, some_there) refl
]

-- A response of version 1.1 with a status from 0 on, with an indexed header that can be printed and
-- has no content-length, and a body shorter than 2^63: `packet(true)` adds the length of the body to
-- the header, and the packet is parsed back to the response's status, header and body, whatever
-- bytes stand behind it.
pub parse_response-packet :
    (r : Http1Response) (rest : Bytes)
    → r.version ≡ http_version_11
    → r.status < 2 ^ 31
    → IsIndexed r.header
    → count content_length r.header ≡ 0
    → All IsPrintable r.header.container
    → length r.body < 2 ^ 63
    → let h : HttpHeader = append content_length (to_string (length r.body)) r.header in
      (packet true r ≡ some (print_message (status_line r) h r.body, record r { header = h }))
      × (parse_response (print_message (status_line r) h r.body ++ rest) ≡ parsed (read_back r h))
unfolding with_length append
parse_response-packet r rest v small k zero_length a fits =
    let (added, announced) = set_length-announced r.header r.body rest k zero_length fits in
    let e = length_entry r.header r.body in
    let h = append content_length (to_string (length r.body)) r.header in
    let (x, (xs, form)) = cons_form r.header.container e in
    let printable : All IsPrintable (x ∷ xs) = subst (All IsPrintable) form (
      All-append IsPrintable r.header.container (e ∷ []) a
        (length_entry-IsPrintable r.header r.body, tt)) in
    let filled : with_length true r.body r.header ≡ some h = rw (zero_length, added) refl in
    (
      packet-text r h filled,
      parse_response-print_message r h x xs rest v small form printable
          (ap (λ es. parse_body (add_all es empty) (r.body ++ rest)) (sym form) ∙ announced),
    )
