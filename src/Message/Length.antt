-- ===== src/Message/Length.antt =====
-- A header that got its content-length from the body announces the body.
use io_reactor.Prelude.{
  ℕ, ◌^◌, ◌<◌, true, false, none, some, List, [], ◌∷◌, ◌++◌, ltb, if◌then◌else◌, ◌≡◌, refl, sym, ap,
  ◌∙◌, subst, arith, All, length, length-append, take-append, Option-cases, inl, inr,
}
use io_reactor.Text.{Bytes, same_iff, to_string, strtoll}
use io_reactor.Text.Decimal.{strtoll-to_string, to_string-IsDecimal, IsDecimal}
use io_reactor.Header.{
  Entry, Values, HttpHeader, empty, append, add, add_all, set, del_value, contains_value, count,
  count_values, contains, get_number, iterator_of, values_or_empty, same_name, find_name,
  find_value, put_value, is_empty, no_values,
}
use io_reactor.Header.Maps.{find_name-put_name, same_name_self, entry_of}
use io_reactor.Header.Index.{IsIndexed, IsValues}
use io_reactor.Header.Updates.{listed}
use io_reactor.Message.{parsed, incomplete, content_length, parse_body}

-- No element has the name.
abbrev pub IsAbsent : Bytes → List Entry → Type 0
IsAbsent n = All (λ e. same_name n e.name ≡ false)

filled_length : (vs : Values) → no_values vs ≡ false → 0 < length vs
filled_length [] e = absurd (ground (arith, e))
filled_length (x ∷ vs) e = omega arith

count_zero : (n : Bytes) (h : HttpHeader) → IsIndexed h → count n h ≡ 0 → find_name n h.its ≡ none
unfolding count
count_zero n h k e = elim (Option-cases (find_name n h.its)) [
  | inl absent ↦ absent
  | inr (vs, found) ↦
      let zero_values : length vs ≡ 0 = ap count_values (sym found) ∙ e in
      absurd (omega (arith, zero_values, filled_length vs (subst IsValues found (k.values n)).1))
]

entries-IsAbsent :
    (n : Bytes) (es : List Entry) → ((w : Bytes) → entry_of n w es ≡ none) → IsAbsent n es
unfolding entry_of
entries-IsAbsent n [] f = tt
entries-IsAbsent n (e ∷ es) f = (
  ground (arith, f e.value, same_iff e.value e.value),
  entries-IsAbsent n es (λ w. ground (arith, f w)),
)

pub find_name-IsAbsent :
    (n : Bytes) (h : HttpHeader) → IsIndexed h → find_name n h.its ≡ none → IsAbsent n h.container
unfolding find_value
find_name-IsAbsent n h k e = entries-IsAbsent n h.container (λ w. sym (listed n w none h k e))

pub set-absent :
    (n v : Bytes) (h : HttpHeader) → find_name n h.its ≡ none → set n v h ≡ some (append n v h)
unfolding set del_value find_value
set-absent n v h e = rw e refl

add-find_name :
    (n m v : Bytes) (h : HttpHeader)
    → same_name n m ≡ false
    → find_name n (add m v h).0.its ≡ find_name n h.its
unfolding add append
add-find_name n m v h e = ground (
  arith,
  e,
  find_name-put_name n m (put_value v h.next (values_or_empty (find_name m h.its))) h.its,
)

pub add_all-find_name :
    (n : Bytes) (es : List Entry) (h : HttpHeader)
    → IsAbsent n es
    → find_name n (add_all es h).its ≡ find_name n h.its
unfolding add_all
add_all-find_name n [] h a = refl
add_all-find_name n (e ∷ es) h (d, a) =
    add_all-find_name n es (add e.name e.value h).0 a ∙ add-find_name n e.name e.value h d

add_all-append :
    (es : List Entry) (e : Entry) (h : HttpHeader)
    → add_all (es ++ e ∷ []) h ≡ (add e.name e.value (add_all es h)).0
unfolding add_all
add_all-append [] e h = refl
add_all-append (f ∷ es) e h = add_all-append es e (add f.name f.value h).0

-- A new name is found with its value alone.
pub add-new :
    (n v : Bytes) (h : HttpHeader)
    → is_empty n ≡ false
    → is_empty v ≡ false
    → find_name n h.its ≡ none
    → find_name n (add n v h).0.its ≡ some ((v, h.next) ∷ [])
unfolding add append contains_value iterator_of put_value find_value
add-new n v h p q e =
    rw (p, q, e)
      (find_name-put_name n n ((v, h.next) ∷ []) h.its
        ∙ ap (λ b. if b then some ((v, h.next) ∷ []) else find_name n h.its) (same_name_self n))

pub is_empty-to_string : (n : ℕ) → is_empty (to_string n) ≡ false
is_empty-to_string n = decimal (to_string n) (to_string-IsDecimal n)
  where
    decimal : (s : Bytes) → IsDecimal s → is_empty s ≡ false
    decimal [] h = absurd (h tt)
    decimal (c ∷ s) h = refl

-- A header with one value under content-length, which is the printed length of a body.
parse_body-length :
    (h : HttpHeader) (body rest : Bytes) (i : ℕ)
    → length body < 2 ^ 63
    → find_name content_length h.its ≡ some ((to_string (length body), i) ∷ [])
    → parse_body h (body ++ rest) ≡ parsed body
unfolding parse_body contains get_number
parse_body-length h body rest i fits found =
    let read : strtoll (to_string (length body)) ≡ length body =
      strtoll-to_string (length body) fits in
    let enough : ltb (length (body ++ rest)) (length body) ≡ false =
      ground (arith, length-append body rest) in
    rw (found, read, enough, take-append body rest (length body) refl) refl

-- The element that `set` appends for the length of a body.
abbrev pub length_entry : HttpHeader → Bytes → Entry
length_entry h body = record {
  iterator = h.next;
  name = content_length;
  value = to_string (length body);
}

-- The length that a header without content-length got is found when the header is read back.
length_found :
    (h : HttpHeader) (body : Bytes)
    → IsIndexed h
    → count content_length h ≡ 0
    → find_name content_length (add_all (h.container ++ length_entry h body ∷ []) empty).its
      ≡ some ((to_string (length body), (add_all h.container empty).next) ∷ [])
length_found h body k zero_length =
    let absent = count_zero content_length h k zero_length in
    let names =
      add_all-find_name content_length h.container empty
        (find_name-IsAbsent content_length h k absent) in
    ap (λ g. find_name content_length g.its)
      (add_all-append h.container (length_entry h body) empty)
    ∙ add-new content_length (to_string (length body)) (add_all h.container empty) refl
        (is_empty-to_string (length body)) (names ∙ unfold find_name in refl)

-- A header without content-length gets the body's length at its end, and announces the body when it
-- is read back.
pub set_length-announced :
    (h : HttpHeader) (body rest : Bytes)
    → IsIndexed h
    → count content_length h ≡ 0
    → length body < 2 ^ 63
    → (set content_length (to_string (length body)) h
        ≡ some (append content_length (to_string (length body)) h))
      × (parse_body (add_all (h.container ++ length_entry h body ∷ []) empty) (body ++ rest)
          ≡ parsed body)
set_length-announced h body rest k zero_length fits = (
  set-absent content_length (to_string (length body)) h (count_zero content_length h k zero_length),
  parse_body-length _ body rest (add_all h.container empty).next fits
      (length_found h body k zero_length),
)

-- With less than the announced length the parser asks for more.
pub parse_body-awaits :
    (h : HttpHeader) (body bytes : Bytes)
    → IsIndexed h
    → count content_length h ≡ 0
    → length body < 2 ^ 63
    → length bytes < length body
    → parse_body (add_all (h.container ++ length_entry h body ∷ []) empty) bytes ≡ incomplete
unfolding parse_body contains get_number
parse_body-awaits h body bytes k zero_length fits short =
    let read : strtoll (to_string (length body)) ≡ length body =
      strtoll-to_string (length body) fits in
    let less : ltb (length bytes) (length body) ≡ true = ground (arith, short) in
    rw (length_found h body k zero_length, read, less) refl
