-- ===== src/Message/Request/RoundTrip.antt =====
-- A request that is printed is parsed back.
use io_reactor.Prelude.{
  ℕ, ◌+◌, ◌≤◌, true, false, some, List, [], ◌∷◌, ◌++◌, ltb, ◌≡◌, ◌≢◌, refl, sym, ap, ◌∙◌, arith,
  All, All-append, length, take, drop, take-append, Bool-cases, inl, inr,
}
use io_reactor.Text.{Bytes, find, Lacks, same_self, starts_with}
use io_reactor.Text.Search.{find-append, find_absent}
use io_reactor.Header.{Entry, HttpHeader, empty, add_all, is_empty}
use io_reactor.Message.{http_version_11, version_to_string, parsed, ◌>>=◌, parse_body, parse}
use io_reactor.Message.Lines.{lines, lines_of, IsPrintable, print_message-lines, drop_more}
use io_reactor.Message.Whole.{lines_body, parse-lines}
use io_reactor.Message.Request.{
  Http1Request, Parameter, space, question, http_11, split_path, parse_parameter, of_parts,
  parse_request, full_path, first_line, print_request,
}

-- What a first line can hold: no byte that ends its parts, and not too much of it.
pub record IsSound (r : Http1Request) : Type 0 where
  pub method_parts : Lacks 32 r.method × Lacks 13 r.method
  pub path_parts : Lacks 32 r.path × (Lacks 13 r.path × Lacks 63 r.path)
  pub arg_parts : Lacks 32 r.path_arg × Lacks 13 r.path_arg
  pub version_11 : r.version ≡ http_version_11
  pub short : length (first_line r) ≤ 256

starts-byte : (c : ℕ) (s : Bytes) → starts_with (c ∷ []) (c ∷ s) ≡ true
unfolding starts_with
starts-byte c s = ground arith

-- A byte at which a text is cut.
pub find-byte : (c : ℕ) (a s : Bytes) → Lacks c a → find (c ∷ []) (a ++ c ∷ s) ≡ some (length a)
find-byte c a s h = find-append c [] a (c ∷ s) h (starts-byte c s)

pub drop-byte : (c : ℕ) (a s : Bytes) → drop (length a + 1) (a ++ c ∷ s) ≡ s
drop-byte c a s = drop_more a (c ∷ []) s

full_path-Lacks :
    (c : ℕ) (r : Http1Request)
    → c ≢ 63
    → Lacks c r.path
    → Lacks c r.path_arg
    → Lacks c (full_path r)
full_path-Lacks c r d p a = elim (Bool-cases (is_empty r.path_arg)) [
  | inl none_there ↦ rw none_there p
  | inr some_there ↦
      rw some_there (All-append (λ x. x ≢ c) r.path (63 ∷ r.path_arg) p ((λ e. d (sym e)), a))
]

pub is_empty-nil : (a : Bytes) → is_empty a ≡ true → a ≡ []
is_empty-nil [] e = refl
is_empty-nil (c ∷ a) e = absurd (ground (arith, e))

split_path-full_path :
    (r : Http1Request)
    → Lacks 63 r.path
    → split_path r.method (full_path r) (find question (full_path r))
      ≡ record { method = r.method; path = r.path; path_arg = r.path_arg }
split_path-full_path r k = elim (Bool-cases (is_empty r.path_arg)) [
  | inl none_there ↦
      rw (none_there, find_absent 63 [] r.path k)
        (ap (λ a. record { method = r.method; path = r.path; path_arg = a })
          (sym (is_empty-nil r.path_arg none_there)))
  | inr some_there ↦
      rw
        (
          some_there,
          find-byte 63 r.path r.path_arg k,
          take-append r.path (63 ∷ r.path_arg) (length r.path) refl,
          drop-byte 63 r.path r.path_arg,
        )
        refl
]

-- The stages of `parse_parameter`, one after the other.
parameter_stages :
    (line behind version : Bytes) (m n : ℕ) (method path : Bytes) (q : Parameter)
    → length line ≤ 256
    → find space line ≡ some m
    → drop (m + 1) line ≡ behind
    → find space behind ≡ some n
    → take m line ≡ method
    → take n behind ≡ path
    → split_path method path (find question path) ≡ q
    → drop (n + 1) behind ≡ http_11
    → parse_parameter line ≡ parsed q
unfolding parse_parameter
parameter_stages line behind version m n method path q e0 e1 e2 e3 e4 e5 e6 e7 =
    let short : ltb 256 (length line) ≡ false = ground arith in
    rw (short, e1, e2, e3, e4, e5, e6, e7, same_self http_11) refl

pub parse_parameter-first_line :
    (r : Http1Request)
    → IsSound r
    → parse_parameter (first_line r)
      ≡ parsed (record { method = r.method; path = r.path; path_arg = r.path_arg })
unfolding version_to_string
parse_parameter-first_line r s =
    let version = version_to_string r.version in
    let behind = full_path r ++ (32 ∷ version) in
    let spaces = full_path-Lacks 32 r (omega arith) s.path_parts.0 s.arg_parts.0 in
    parameter_stages (first_line r) behind version (length r.method) (length (full_path r)) r.method
      (full_path r) _ s.short (find-byte 32 r.method behind s.method_parts.0)
      (drop-byte 32 r.method behind) (find-byte 32 (full_path r) version spaces)
      (take-append r.method (32 ∷ behind) (length r.method) refl)
      (take-append (full_path r) (32 ∷ version) (length (full_path r)) refl)
      (split_path-full_path r s.path_parts.1.1)
      (drop-byte 32 (full_path r) version ∙ ap version_to_string s.version_11)

pub first_line-Lacks : (r : Http1Request) → IsSound r → Lacks 13 (first_line r)
unfolding version_to_string
first_line-Lacks r s =
    let version : Lacks 13 (version_to_string r.version) = rw s.version_11 (omega arith) in
    All-append (λ x. x ≢ 13) r.method _ s.method_parts.1
      (
        (omega arith),
        All-append (λ x. x ≢ 13) (full_path r) _
            (full_path-Lacks 13 r (omega arith) s.path_parts.1.0 s.arg_parts.1)
            ((omega arith), version),
      )

-- A request whose parts do not run into each other, with a header that can be printed and announces
-- the body, is parsed back from its packet, whatever bytes stand behind the packet.
pub parse_request-print_request :
    (r : Http1Request) (h : HttpHeader) (e : Entry) (es : List Entry) (rest : Bytes)
    → IsSound r
    → h.container ≡ e ∷ es
    → All IsPrintable (e ∷ es)
    → parse_body (add_all (e ∷ es) empty) (r.body ++ rest) ≡ parsed r.body
    → parse_request (print_request r h ++ rest)
      ≡ parsed (
          of_parts (
            record { method = r.method; path = r.path; path_arg = r.path_arg },
            record {
              header = add_all (e ∷ es) empty;
              body = r.body;
              raw_message = print_request r h;
            },
          ))
unfolding parse_request
parse_request-print_request r h e es rest s c a announced =
    let ls = first_line r ∷ lines_of (e ∷ es) in
    let text = print_message-lines (first_line r) h r.body e es c a in
    let whole : print_request r h ++ rest ≡ lines ls (13 ∷ 10 ∷ (r.body ++ rest)) =
      ap (λ t. t ++ rest) text ∙ sym (lines_body ls r.body rest) in
    ap (λ o. o >>= λ q. parsed (of_parts q))
      (ap (parse parse_parameter) whole
        ∙ parse-lines parse_parameter (first_line r) e es r.body rest _ (first_line-Lacks r s) a
            (parse_parameter-first_line r s) announced)
    ∙ ap
        (λ t. parsed (
          of_parts (
            record { method = r.method; path = r.path; path_arg = r.path_arg },
            record { header = add_all (e ∷ es) empty; body = r.body; raw_message = t },
          )))
        (sym text)
