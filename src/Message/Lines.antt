-- ===== src/Message/Lines.antt =====
-- A header that is printed in lines is read back, whatever follows.
use io_reactor.Prelude.{
  ℕ, zero, suc, ◌+◌, ◌<◌, true, false, some, List, [], ◌∷◌, ◌++◌, append_assoc, ltb, ◌≡◌, ◌≢◌, refl,
  sym, ap, ◌∙◌, arith, All, All-append, length, length-append, drop, take-append, drop-append,
}
use io_reactor.Text.{Bytes, starts_with, find, crlf, Lacks}
use io_reactor.Text.Search.{find-append, find_blank_line, later, later-some}
use io_reactor.Header.{Entry, HttpHeader, empty, is_empty, add_all, add, size_of}
use io_reactor.Header.Print.{to_string, print_loop, add_line}
use io_reactor.Message.{
  parsed, blank_line, header_round, header_loop, parse_line, parse_header, print_message, ◌>>=◌,
}

-- Lines with their ends, before any text.
abbrev pub lines : List Bytes → Bytes → Bytes
lines [] rest = rest
lines (l ∷ ls) rest = l ++ (13 ∷ 10 ∷ lines ls rest)

pub lines-append : (ls : List Bytes) (rest : Bytes) → lines ls rest ≡ lines ls [] ++ rest
lines-append [] rest = refl
lines-append (l ∷ ls) rest =
    ap (λ t. l ++ (13 ∷ 10 ∷ t)) (lines-append ls rest)
    ∙ sym (append_assoc l (13 ∷ 10 ∷ lines ls []) rest)

-- A line is not empty and has no carriage return.
abbrev pub IsLine : Bytes → Type 0
IsLine l = (is_empty l ≡ false) × Lacks 13 l

first-IsLine : (l : Bytes) (rest : Bytes) → IsLine l → starts_with crlf (l ++ rest) ≡ false
unfolding starts_with
first-IsLine [] rest (e, h) = absurd (ground (arith, e))
first-IsLine (c ∷ l) rest (e, (d, h)) = ground (arith, d)

lines-first :
    (ls : List Bytes) (rest : Bytes)
    → All IsLine ls
    → ls ≢ []
    → starts_with crlf (lines ls rest) ≡ false
lines-first [] rest h n = absurd (n refl)
lines-first (l ∷ ls) rest (k, h) n = first-IsLine l (13 ∷ 10 ∷ lines ls rest) k

-- The blank line stands right behind the last of the lines.
pub find-blank_line :
    (l : Bytes) (ls : List Bytes) (rest : Bytes)
    → Lacks 13 l
    → All IsLine ls
    → find blank_line (lines (l ∷ ls) (13 ∷ 10 ∷ rest)) ≡ some (length l + length (lines ls []))
unfolding starts_with
find-blank_line l [] rest h a =
    find-append 13 (10 ∷ 13 ∷ 10 ∷ []) l (13 ∷ 10 ∷ 13 ∷ 10 ∷ rest) h refl ∙ ap some (omega arith)
find-blank_line l (m ∷ ls) rest h (k, a) =
    find_blank_line l (lines (m ∷ ls) (13 ∷ 10 ∷ rest)) h (first-IsLine m _ k)
    ∙ ap (later (length l + 2)) (find-blank_line m ls rest k.1 a)
    ∙ later-some (length l + 2) (length m + length (lines ls []))
    ∙ ap some (omega (arith, length-append m (13 ∷ 10 ∷ lines ls [])))

abbrev pub separator : Bytes
separator = 58 ∷ 32 ∷ []

abbrev pub line_of : Entry → Bytes
line_of e = e.name ++ (separator ++ e.value)

-- What can be printed and read back: neither part is empty or has a carriage return, and the name
-- has no colon.
abbrev pub IsPrintable : Entry → Type 0
IsPrintable e =
    (is_empty e.name ≡ false)
    × ((is_empty e.value ≡ false) × (Lacks 13 e.name × (Lacks 13 e.value × Lacks 58 e.name)))

abbrev pub lines_of : List Entry → List Bytes
lines_of [] = []
lines_of (e ∷ es) = line_of e ∷ lines_of es

is_empty-append : (a b : Bytes) → is_empty a ≡ false → is_empty (a ++ b) ≡ false
is_empty-append [] b e = absurd (ground (arith, e))
is_empty-append (c ∷ a) b e = refl

is_empty-append_later : (a b : Bytes) → is_empty b ≡ false → is_empty (a ++ b) ≡ false
is_empty-append_later [] b e = e
is_empty-append_later (c ∷ a) b e = refl

pub drop_more : (a b c : Bytes) → drop (length a + length b) (a ++ (b ++ c)) ≡ c
drop_more a b c =
    ap (drop (length a + length b)) (sym (append_assoc a b c))
    ∙ drop-append (a ++ b) c (length a + length b) (sym (length-append a b))

print_loop-lines :
    (es : List Entry) (str rest : Bytes)
    → is_empty str ≡ false
    → All IsPrintable es
    → print_loop es str ++ (13 ∷ 10 ∷ rest) ≡ str ++ (13 ∷ 10 ∷ lines (lines_of es) rest)
unfolding print_loop add_line
print_loop-lines [] str rest n a = refl
print_loop-lines (e ∷ es) str rest n ((p, (q, k)), a) =
    rw (p, q, n)
      (print_loop-lines es (str ++ crlf ++ line_of e) rest
          (is_empty-append_later (str ++ crlf) (line_of e)
            (is_empty-append e.name (separator ++ e.value) p))
          a
        ∙ simp append_assoc refl)

-- The printed header, with the line break behind it.
pub print_loop-lines_of :
    (e : Entry) (es : List Entry) (rest : Bytes)
    → All IsPrintable (e ∷ es)
    → print_loop (e ∷ es) [] ++ (13 ∷ 10 ∷ rest) ≡ lines (lines_of (e ∷ es)) rest
unfolding print_loop add_line
print_loop-lines_of e es rest ((p, (q, k)), a) =
    rw (p, q)
      (print_loop-lines es (line_of e) rest (is_empty-append e.name (separator ++ e.value) p) a)

line_of-IsLine : (e : Entry) → IsPrintable e → IsLine (line_of e)
line_of-IsLine e (p, (q, (m, (v, c)))) = (
  is_empty-append e.name (separator ++ e.value) p,
  All-append (λ x. x ≢ 13) e.name (separator ++ e.value) m (omega arith, (omega arith, v)),
)

pub lines_of-IsLine : (es : List Entry) → All IsPrintable es → All IsLine (lines_of es)
lines_of-IsLine [] a = tt
lines_of-IsLine (e ∷ es) (p, a) = (line_of-IsLine e p, lines_of-IsLine es a)

parse_line-line_of :
    (e : Entry) (h : HttpHeader)
    → IsPrintable e
    → parse_line (line_of e) (find separator (line_of e)) h ≡ parsed (add e.name e.value h).0
unfolding starts_with
parse_line-line_of e h (p, (q, (m, (v, c)))) =
    rw
      (
        find-append 58 (32 ∷ []) e.name (separator ++ e.value) c refl,
        take-append e.name (separator ++ e.value) (length e.name) refl,
      )
      (ap (λ v. parsed (add e.name v h).0) (drop_more e.name separator e.value))

header_loop_step :
    (fuel : ℕ) (l rest : Bytes) (h : HttpHeader)
    → Lacks 13 l
    → header_loop (suc fuel) (l ++ (13 ∷ 10 ∷ rest)) h
      ≡ (parse_line l (find separator l) h >>= header_loop fuel rest)
unfolding header_loop starts_with
header_loop_step fuel l rest h k =
    ap (λ o. header_round o (l ++ (13 ∷ 10 ∷ rest)) h (header_loop fuel))
      (find-append 13 (10 ∷ []) l (13 ∷ 10 ∷ rest) k refl)
    ∙ ap
        (λ t.
          parse_line t (find separator t) h
          >>= header_loop fuel (drop (length l + 2) (l ++ (13 ∷ 10 ∷ rest))))
        (take-append l (13 ∷ 10 ∷ rest) (length l) refl)
    ∙ ap (λ t. parse_line l (find separator l) h >>= header_loop fuel t) (drop_more l crlf rest)

header_loop-lines_of :
    (fuel : ℕ) (es : List Entry) (h : HttpHeader)
    → length (lines (lines_of es) []) < fuel
    → All IsPrintable es
    → header_loop fuel (lines (lines_of es) []) h ≡ parsed (add_all es h)
unfolding header_loop add_all find starts_with
header_loop-lines_of zero es h f a = absurd (omega (arith, f))
header_loop-lines_of (suc fuel) [] h f a = refl
header_loop-lines_of (suc fuel) (e ∷ es) h f (p, a) =
    header_loop_step fuel (line_of e) (lines (lines_of es) []) h (line_of-IsLine e p).1
    ∙ ap (λ o. o >>= header_loop fuel (lines (lines_of es) [])) (parse_line-line_of e h p)
    ∙ header_loop-lines_of fuel es (add e.name e.value h).0
        (omega (arith, f, length-append (line_of e) (13 ∷ 10 ∷ lines (lines_of es) []))) a

-- The lines of a header that is not empty are read back as its names and values.
pub parse_header-lines_of :
    (e : Entry) (es : List Entry)
    → All IsPrintable (e ∷ es)
    → parse_header (lines (lines_of (e ∷ es)) []) ≡ parsed (add_all (e ∷ es) empty)
unfolding parse_header
parse_header-lines_of e es a =
    let long : ltb (length (lines (lines_of (e ∷ es)) [])) 2 ≡ false =
      ground (arith, length-append (line_of e) (13 ∷ 10 ∷ lines (lines_of es) [])) in
    rw long (header_loop-lines_of _ (e ∷ es) empty (omega arith) a)

pub size_of-IsPrintable : (e : Entry) (es : List Entry) → IsPrintable e → 0 < size_of (e ∷ es)
unfolding size_of
size_of-IsPrintable e es (p, (q, k)) = positive e.value q
  where
    positive : (v : Bytes) → is_empty v ≡ false → 0 < length v + size_of es
    positive [] e = absurd (ground (arith, e))
    positive (c ∷ v) e = omega arith

-- The text of a message with a header that is not empty, in lines.
pub print_message-lines :
    (first : Bytes) (h : HttpHeader) (body : Bytes) (e : Entry) (es : List Entry)
    → h.container ≡ e ∷ es
    → All IsPrintable (e ∷ es)
    → print_message first h body ≡ lines (first ∷ lines_of (e ∷ es)) (13 ∷ 10 ∷ body)
unfolding print_message to_string
print_message-lines first h body e es c a =
    let full : ltb 0 (size_of h.container) ≡ true =
      rw c (ground (arith, size_of-IsPrintable e es a.0)) in
    rw full (
      ap (λ t. first ++ (13 ∷ 10 ∷ t))
        (ap (λ l. print_loop l [] ++ (13 ∷ 10 ∷ 13 ∷ 10 ∷ body)) c
          ∙ print_loop-lines_of e es (13 ∷ 10 ∷ body) a))
