-- ===== src/Message/Whole.antt =====
-- A whole message in lines is parsed as its first line, its header and its body.
use io_reactor.Prelude.{
  ℕ, ◌+◌, ◌-◌, true, some, List, [], ◌∷◌, ◌++◌, append_assoc, ltb, ◌≡◌, refl, sym, ap, ◌∙◌, arith,
  ◌≤◌, ◌<◌, All, length, length-append, length-take, length-drop, take-take, drop-take, leb,
  Bool-cases, inl, inr, take, drop, take-append, drop-append,
}
use io_reactor.Text.{Bytes, find, crlf, Lacks, starts_with}
use io_reactor.Text.Search.{find-append, find-take}
use io_reactor.Header.{Entry, HttpHeader, empty, add_all}
use io_reactor.Message.{Parsed, incomplete, parsed, blank_line, parse_header, parse_body, parse}
use io_reactor.Message.Lines.{
  lines, lines-append, find-blank_line, line_of, lines_of, lines_of-IsLine, drop_more, IsPrintable,
  parse_header-lines_of,
}

starts-crlf : (s : Bytes) → starts_with crlf (13 ∷ 10 ∷ s) ≡ true
unfolding starts_with
starts-crlf s = refl

-- The parts of a message in lines.
pub lines_body :
    (ls : List Bytes) (body rest : Bytes)
    → lines ls (13 ∷ 10 ∷ (body ++ rest)) ≡ lines ls (13 ∷ 10 ∷ body) ++ rest
lines_body ls body rest =
    lines-append ls (13 ∷ 10 ∷ (body ++ rest))
    ∙ sym (append_assoc (lines ls []) (13 ∷ 10 ∷ body) rest)
    ∙ ap (λ t. t ++ rest) (sym (lines-append ls (13 ∷ 10 ∷ body)))

length-lines :
    (ls : List Bytes) (rest : Bytes) → length (lines ls rest) ≡ length (lines ls []) + length rest
length-lines ls rest = ap length (lines-append ls rest) ∙ length-append (lines ls []) rest

drop-lines :
    (ls : List Bytes) (rest : Bytes) (n : ℕ)
    → n ≡ length (lines ls []) + 2
    → drop n (lines ls (13 ∷ 10 ∷ rest)) ≡ rest
drop-lines ls rest n e =
    ap (drop n) (lines_body ls [] rest)
    ∙ drop-append (lines ls (13 ∷ 10 ∷ [])) rest n
        (omega (arith, e, length-lines ls (13 ∷ 10 ∷ [])))

take-lines :
    (ls : List Bytes) (body rest : Bytes) (n : ℕ)
    → n ≡ length (lines ls []) + 2 + length body
    → take n (lines ls (13 ∷ 10 ∷ (body ++ rest))) ≡ lines ls (13 ∷ 10 ∷ body)
take-lines ls body rest n e =
    ap (take n) (lines_body ls body rest)
    ∙ take-append (lines ls (13 ∷ 10 ∷ body)) rest n
        (omega (arith, e, length-lines ls (13 ∷ 10 ∷ body)))

header_text :
    (l : Bytes) (ls : List Bytes) (rest : Bytes) (n : ℕ)
    → n ≡ length (lines ls [])
    → take n (drop (length l + 2) (lines (l ∷ ls) rest)) ≡ lines ls []
header_text l ls rest n e =
    ap (take n) (drop_more l crlf (lines ls rest) ∙ lines-append ls rest)
    ∙ take-append (lines ls []) rest n e

-- What the parser has found in a message before it comes to the body.
pub record Stages {ℓ} {A : Type ℓ} (parse_parameter : Bytes → Parsed A) (message : Bytes)
    (parameter_end header_end : ℕ) (p : A) (h : HttpHeader) : Type ℓ where
  pub line_found : find crlf message ≡ some parameter_end
  pub line_parsed : parse_parameter (take parameter_end message) ≡ parsed p
  pub blank_found : find blank_line message ≡ some header_end
  pub order : ltb parameter_end header_end ≡ true
  pub header_parsed :
      parse_header (take (header_end + 2 - (parameter_end + 2)) (drop (parameter_end + 2) message))
      ≡ parsed h

module _ {ℓ} {A : Type ℓ} (parse_parameter : Bytes → Parsed A) where
  -- The stages of `parse`, one after the other.
  parse-Stages :
      (message : Bytes) (pe he : ℕ) (p : A) (h : HttpHeader) (body : Bytes)
      → Stages parse_parameter message pe he p h
      → parse_body h (drop (he + 4) message) ≡ parsed body
      → parse parse_parameter message
        ≡ parsed (
          p,
          record { header = h; body = body; raw_message = take (he + 4 + length body) message },
        )
  unfolding parse
  parse-Stages message pe he p h body s e =
      rw (s.line_found, s.line_parsed, s.blank_found, s.order, s.header_parsed, e) refl

  -- A part of a message, cut off before the body that the header announces has its end, is not
  -- enough.
  pub parse-part :
      (message : Bytes) (k pe he : ℕ) (p : A) (h : HttpHeader)
      → Stages parse_parameter message pe he p h
      → (he + 4 ≤ k → parse_body h (take (k - (he + 4)) (drop (he + 4) message)) ≡ incomplete)
      → parse parse_parameter (take k message) ≡ incomplete
  unfolding parse
  parse-part message k pe he p h s awaits =
      let line = find-take 13 (10 ∷ []) k message pe s.line_found in
      let blank = find-take 13 (10 ∷ 13 ∷ 10 ∷ []) k message he s.blank_found in
      elim (Bool-cases (leb (pe + 2) k)) [
        | inr no_line ↦ rw (line, no_line) refl
        | inl has_line ↦
            let same_line = take-take pe k message (ground (arith, has_line)) in
            elim (Bool-cases (leb (he + 4) k)) [
              | inr no_blank ↦ rw (line, has_line, same_line, s.line_parsed, blank, no_blank) refl
              | inl has_blank ↦
                  let same_lines : take (he + 2 - (pe + 2)) (drop (pe + 2) (take k message))
                      ≡ take (he + 2 - (pe + 2)) (drop (pe + 2) message) =
                    ap (take (he + 2 - (pe + 2))) (drop-take (pe + 2) k message)
                    ∙ take-take (he + 2 - (pe + 2)) (k - (pe + 2)) (drop (pe + 2) message)
                        (ground (arith, has_blank)) in
                  let short =
                    ap (parse_body h) (drop-take (he + 4) k message)
                    ∙ awaits (ground (arith, has_blank)) in
                  rw
                    (
                      line, has_line, same_line, s.line_parsed, blank, has_blank, s.order,
                      same_lines, s.header_parsed, short,
                    )
                    refl
            ]
      ]

  -- The stages of a message of a first line, a header that is not empty and printable, and anything.
  pub lines-Stages :
      (l : Bytes) (e : Entry) (es : List Entry) (rest : Bytes) (p : A)
      → Lacks 13 l
      → All IsPrintable (e ∷ es)
      → parse_parameter l ≡ parsed p
      → let ls : List Bytes = lines_of (e ∷ es) in
        Stages parse_parameter
          (lines (l ∷ ls) (13 ∷ 10 ∷ rest))
          (length l)
          (length l + length (lines ls []))
          p
          (add_all (e ∷ es) empty)
  lines-Stages l e es rest p k a known =
      let ls = lines_of (e ∷ es) in
      let behind = 13 ∷ 10 ∷ rest in
      let he = length l + length (lines ls []) in
      let long : length (lines ls []) ≡ length (line_of e) + (2 + length (lines (lines_of es) [])) =
        length-append (line_of e) (13 ∷ 10 ∷ lines (lines_of es) []) ∙ omega arith in
      record {
        line_found =
            find-append 13 (10 ∷ []) l (13 ∷ 10 ∷ lines ls behind) k
              (starts-crlf (lines ls behind));
        line_parsed =
            ap parse_parameter (take-append l (13 ∷ 10 ∷ lines ls behind) (length l) refl) ∙ known;
        blank_found = find-blank_line l ls rest k (lines_of-IsLine (e ∷ es) a);
        order = ground (arith, long);
        header_parsed =
            ap parse_header (header_text l ls behind (he + 2 - (length l + 2)) (omega arith))
            ∙ parse_header-lines_of e es a;
      }

  -- The lines have this length.
  pub length_of_lines :
      (l : Bytes) (ls : List Bytes)
      → length (lines (l ∷ ls) []) ≡ length l + (2 + length (lines ls []))
  length_of_lines l ls = length-append l (13 ∷ 10 ∷ lines ls []) ∙ omega arith

  -- A message of a first line, a header that is not empty and printable, and a body that the header
  -- announces, with any bytes behind it.
  pub parse-lines :
      (l : Bytes) (e : Entry) (es : List Entry) (body rest : Bytes) (p : A)
      → Lacks 13 l
      → All IsPrintable (e ∷ es)
      → parse_parameter l ≡ parsed p
      → parse_body (add_all (e ∷ es) empty) (body ++ rest) ≡ parsed body
      → let ls : List Bytes = lines_of (e ∷ es) in
        parse parse_parameter (lines (l ∷ ls) (13 ∷ 10 ∷ (body ++ rest)))
        ≡ parsed (
          p,
          record {
            header = add_all (e ∷ es) empty;
            body = body;
            raw_message = lines (l ∷ ls) (13 ∷ 10 ∷ body);
          },
        )
  parse-lines l e es body rest p k a known announced =
      let ls = lines_of (e ∷ es) in
      let message = lines (l ∷ ls) (13 ∷ 10 ∷ (body ++ rest)) in
      let he = length l + length (lines ls []) in
      let all = length_of_lines l ls in
      parse-Stages message (length l) he p (add_all (e ∷ es) empty) body
        (lines-Stages l e es (body ++ rest) p k a known)
        (ap (parse_body (add_all (e ∷ es) empty))
            (drop-lines (l ∷ ls) (body ++ rest) (he + 4) (omega (arith, all)))
          ∙ announced)
      ∙ ap
          (λ raw.
            parsed (p, record { header = add_all (e ∷ es) empty; body = body; raw_message = raw }))
          (take-lines (l ∷ ls) body rest (he + 4 + length body) (omega (arith, all)))

  -- A part of such a message.
  pub parse-part_of_lines :
      (l : Bytes) (e : Entry) (es : List Entry) (body : Bytes) (p : A) (k : ℕ)
      → Lacks 13 l
      → All IsPrintable (e ∷ es)
      → parse_parameter l ≡ parsed p
      → ((bytes : Bytes)
          → length bytes < length body
          → parse_body (add_all (e ∷ es) empty) bytes ≡ incomplete)
      → let ls : List Bytes = lines_of (e ∷ es) in
        let message : Bytes = lines (l ∷ ls) (13 ∷ 10 ∷ body) in
        k < length message → parse parse_parameter (take k message) ≡ incomplete
  parse-part_of_lines l e es body p k clean a known awaits short =
      let ls = lines_of (e ∷ es) in
      let message = lines (l ∷ ls) (13 ∷ 10 ∷ body) in
      let he = length l + length (lines ls []) in
      let left = drop-lines (l ∷ ls) body (he + 4) (omega (arith, length_of_lines l ls)) in
      let size = length-lines (l ∷ ls) (13 ∷ 10 ∷ body) in
      parse-part message k (length l) he p (add_all (e ∷ es) empty)
        (lines-Stages l e es body p clean a known)
        (λ enough. awaits (take (k - (he + 4)) (drop (he + 4) message)) (
          omega (
            arith,
            enough,
            short,
            size,
            length_of_lines l ls,
            length-take (k - (he + 4)) (drop (he + 4) message),
            length-drop (he + 4) message,
          )))
