-- ===== src/Message/Upgrade.antt =====
-- The request for WebSocket on its way from the client to the server.
use io_reactor.Prelude.{
  ℕ, ◌+◌, true, false, some, List, [], ◌∷◌, ◌++◌, append_assoc, ◌≡◌, refl, sym, ap, ◌∙◌, subst,
  arith, All, All-append, none,
}
use io_reactor.Text.{Bytes, codes, same, to_lower, tolower, to_string, Lacks}
use io_reactor.Header.{
  Entry, HttpHeader, empty, append, add, add_all, contains, count, count_values, get, find_name,
  find_value, is_empty, same_name,
}
use io_reactor.Header.Maps.{find_name_cong}
use io_reactor.Header.Index.{IsIndexed, append-IsIndexed}
use io_reactor.Header.Updates.{listed}
use io_reactor.Message.{content_length, parsed}
use io_reactor.Message.Lines.{IsPrintable}
use io_reactor.Message.Length.{IsAbsent, find_name-IsAbsent, add_all-find_name, add-new}
use io_reactor.Message.Handshake.{
  asked, connection, upgrade, version, key_name, Missing, kept, upgrade_websocket-asked,
}
use io_reactor.Message.Request.{
  Http1Request, of_parts, get_request, upgrade_websocket, is_upgrade_websocket,
  get_sec_websocket_key, parse_request, packet_const,
}
use io_reactor.Message.Request.RoundTrip.{IsSound}
use io_reactor.Message.Request.Packet.{read_back, parse_request-packet}
use io_reactor.Message.Request.Const.{packet_const-print_request}

add_all-join :
    (es fs : List Entry) (h : HttpHeader) → add_all (es ++ fs) h ≡ add_all fs (add_all es h)
unfolding add_all
add_all-join [] fs h = refl
add_all-join (e ∷ es) fs h = add_all-join es fs (add e.name e.value h).0

-- A name that one element alone has is found with its value.
pub add_all-found :
    (n : Bytes) (es fs : List Entry) (e : Entry)
    → n ≡ e.name
    → is_empty e.name ≡ false
    → is_empty e.value ≡ false
    → IsAbsent n es
    → IsAbsent n fs
    → find_name n (add_all (es ++ e ∷ fs) empty).its
      ≡ some ((e.value, (add_all es empty).next) ∷ [])
unfolding add_all
add_all-found n es fs e same_n p q before behind =
    let h = add_all es empty in
    let absent : find_name e.name h.its ≡ none =
      subst (λ m. find_name m h.its ≡ none) same_n
        (add_all-find_name n es empty before ∙ unfold find_name in refl) in
    ap (λ g. find_name n g.its) (add_all-join es (e ∷ fs) empty)
    ∙ add_all-find_name n fs (add e.name e.value h).0 behind
    ∙ ap (λ m. find_name m (add e.name e.value h).0.its) same_n
    ∙ add-new e.name e.value h p q absent

-- A header to which the names of an upgrade can be added, and that can be printed.
pub record IsPlain (h : HttpHeader) : Type 0 where
  pub indexed : IsIndexed h
  pub printable : All IsPrintable h.container
  pub no_connection : Missing connection h
  pub no_upgrade : Missing upgrade h
  pub no_version : Missing version h
  pub no_key : Missing key_name h
  pub no_length : Missing content_length h

append_new-IsIndexed :
    (n v : Bytes) (h : HttpHeader) → Missing n h → IsIndexed h → IsIndexed (append n v h)
unfolding find_value
append_new-IsIndexed n v h absent k = append-IsIndexed n v h (sym (listed n v none h k absent)) k

asked-IsIndexed : (key : Bytes) (h : HttpHeader) → IsPlain h → IsIndexed (asked key h)
unfolding same to_lower tolower
asked-IsIndexed key h k =
    let h1 = append connection (codes "Upgrade") h in
    let h2 = append upgrade (codes "websocket") h1 in
    let h3 = append version (codes "13") h2 in
    append_new-IsIndexed key_name key h3
      (kept key_name version (codes "13") h2 refl
        ∙ kept key_name upgrade (codes "websocket") h1 refl
        ∙ kept key_name connection (codes "Upgrade") h refl
        ∙ k.no_key)
      (append_new-IsIndexed version (codes "13") h2
        (kept version upgrade (codes "websocket") h1 refl
          ∙ kept version connection (codes "Upgrade") h refl
          ∙ k.no_version)
        (append_new-IsIndexed upgrade (codes "websocket") h1
          (kept upgrade connection (codes "Upgrade") h refl ∙ k.no_upgrade)
          (append_new-IsIndexed connection (codes "Upgrade") h k.no_connection k.indexed)))

asked-count : (key : Bytes) (h : HttpHeader) → IsPlain h → count content_length (asked key h) ≡ 0
unfolding count same to_lower tolower
asked-count key h k =
    let h1 = append connection (codes "Upgrade") h in
    let h2 = append upgrade (codes "websocket") h1 in
    let h3 = append version (codes "13") h2 in
    ap count_values (
      kept content_length key_name key h3 refl
      ∙ kept content_length version (codes "13") h2 refl
      ∙ kept content_length upgrade (codes "websocket") h1 refl
      ∙ kept content_length connection (codes "Upgrade") h refl
      ∙ k.no_length)

abbrev entry : ℕ → Bytes → Bytes → Entry
entry i n v = record { iterator = i; name = n; value = v }

-- The elements that `upgrade_websocket` puts behind those of the header.
abbrev asked_entries : Bytes → ℕ → List Entry
asked_entries key i =
    entry i connection (codes "Upgrade")
    ∷ entry (i + 1) upgrade (codes "websocket")
    ∷ entry (i + 1 + 1) version (codes "13")
    ∷ entry (i + 1 + 1 + 1) key_name key
    ∷ []

asked-container :
    (key : Bytes) (h : HttpHeader)
    → (asked key h).container ≡ h.container ++ asked_entries key h.next
unfolding append
asked-container key h = simp append_assoc refl

asked_entries-IsPrintable :
    (key : Bytes) (i : ℕ)
    → is_empty key ≡ false
    → Lacks 13 key
    → All IsPrintable (asked_entries key i)
asked_entries-IsPrintable key i filled one_line = (
  (refl, (refl, (omega arith, (omega arith, omega arith)))),
  (
    (refl, (refl, (omega arith, (omega arith, omega arith)))),
    (
      (refl, (refl, (omega arith, (omega arith, omega arith)))),
      ((refl, (filled, (omega arith, (one_line, omega arith)))), tt),
    ),
  ),
)

-- What the server finds in the header that it has read.
record IsRead (key : Bytes) (g : HttpHeader) : Type 0 where
  at_connection :
      (i : ℕ) × (find_name (codes "connection") g.its ≡ some ((codes "Upgrade", i) ∷ []))
  at_upgrade : (i : ℕ) × (find_name (codes "upgrade") g.its ≡ some ((codes "websocket", i) ∷ []))
  at_version :
      (i : ℕ) × (find_name (codes "sec-websocket-version") g.its ≡ some ((codes "13", i) ∷ []))
  at_key : (i : ℕ) × (find_name key_name g.its ≡ some ((key, i) ∷ []))

asked-IsRead :
    (key : Bytes) (h : HttpHeader) (i j n : ℕ)
    → IsPlain h
    → is_empty key ≡ false
    → IsRead key (
        add_all
          (h.container ++ (asked_entries key i ++ entry j content_length (to_string n) ∷ []))
          empty)
unfolding same to_lower tolower
asked-IsRead key h i j n k filled =
    let last = entry j content_length (to_string n) in
    let es = h.container in
    let absent = λ (m : Bytes) (e : Missing m h). find_name-IsAbsent m h k.indexed e in
    let first = entry i connection (codes "Upgrade") in
    let second = entry (i + 1) upgrade (codes "websocket") in
    let third = entry (i + 1 + 1) version (codes "13") in
    let fourth = entry (i + 1 + 1 + 1) key_name key in
    record {
      at_connection = (
        _,
        add_all-found connection es _ first refl refl refl (absent connection k.no_connection)
            (refl, (refl, (refl, (refl, tt)))),
      );
      at_upgrade = (
        _,
        behind upgrade es (first ∷ []) _ second refl refl refl (absent upgrade k.no_upgrade)
            (refl, tt) (refl, (refl, (refl, tt))),
      );
      at_version = (
        _,
        behind version es (first ∷ second ∷ []) _ third refl refl refl (absent version k.no_version)
            (refl, (refl, tt)) (refl, (refl, tt)),
      );
      at_key = (
        _,
        behind key_name es (first ∷ second ∷ third ∷ []) _ fourth refl refl filled
            (absent key_name k.no_key) (refl, (refl, (refl, tt))) (refl, tt),
      );
    }
  where
    behind :
        (m : Bytes) (es ds fs : List Entry) (e : Entry)
        → m ≡ e.name
        → is_empty e.name ≡ false
        → is_empty e.value ≡ false
        → IsAbsent m es
        → IsAbsent m ds
        → IsAbsent m fs
        → find_name m (add_all (es ++ (ds ++ e ∷ fs)) empty).its
          ≡ some ((e.value, (add_all (es ++ ds) empty).next) ∷ [])
    behind m es ds fs e same_n p q a b c =
        ap (λ l. find_name m (add_all l empty).its) (sym (append_assoc es ds (e ∷ fs)))
        ∙ add_all-found m (es ++ ds) fs e same_n p q
            (All-append (λ x. same_name m x.name ≡ false) es ds a b) c

filled_form :
    (xs : List Entry) (y : Entry) (ys : List Entry)
    → (e : Entry) × ((es : List Entry) × (xs ++ y ∷ ys ≡ e ∷ es))
filled_form [] y ys = (y, (ys, refl))
filled_form (x ∷ xs) y ys = (x, (xs ++ y ∷ ys, refl))

-- A client asks for WebSocket with a header that is indexed, can be printed and has none of the four
-- names of an upgrade and no content-length, with a key that is not empty and has no carriage return,
-- and with a path and arguments that do not run into the rest of the first line. Then the request is
-- made, a server parses what the client's `packet() const` sends, whatever bytes stand behind it,
-- the server takes the request that it has read for an upgrade, and finds the client's key in it.
pub upgrade_websocket-received :
    (stream_id : ℕ) (path path_arg key rest : Bytes) (h : HttpHeader)
    → IsPlain h
    → is_empty key ≡ false
    → Lacks 13 key
    → IsSound (get_request stream_id path path_arg (asked key h) [] true)
    → let r : Http1Request = get_request stream_id path path_arg (asked key h) [] true in
      let q : Http1Request = read_back r (append content_length (to_string 0) (asked key h)) in
      (upgrade_websocket stream_id path path_arg h key ≡ some r)
      × (parse_request (packet_const r ++ rest) ≡ parsed q)
      × (is_upgrade_websocket q ≡ true)
      × (get_sec_websocket_key q ≡ key)
unfolding get_request is_upgrade_websocket get_sec_websocket_key get contains of_parts append same
    to_lower tolower
upgrade_websocket-received stream_id path path_arg key rest h k filled one_line sound =
    let r : Http1Request = get_request stream_id path path_arg (asked key h) [] true in
    let g = asked key h in
    let printable : All IsPrintable g.container =
      subst (All IsPrintable) (sym (asked-container key h)) (
        All-append IsPrintable h.container (asked_entries key h.next) k.printable
          (asked_entries-IsPrintable key h.next filled one_line)) in
    let (e, (es, some_form)) =
      filled_form h.container (entry h.next connection (codes "Upgrade")) _ in
    let form = asked-container key h ∙ some_form in
    let sent =
      packet_const-print_request r e es form (subst (All IsPrintable) form printable)
        (asked-count key h k) refl in
    let (packet_ok, parsed_ok) =
      parse_request-packet r rest sound (asked-IsIndexed key h k) (asked-count key h k) printable
        (omega arith) in
    let last = entry g.next content_length (to_string 0) in
    let found : IsRead key (add_all (g.container ++ last ∷ []) empty) =
      subst (λ l. IsRead key (add_all l empty))
        (sym (
          ap (λ l. l ++ last ∷ []) (asked-container key h)
          ∙ append_assoc h.container (asked_entries key h.next) (last ∷ [])))
        (asked-IsRead key h h.next g.next 0 k filled) in
    (
      upgrade_websocket-asked stream_id path path_arg key h k.no_connection k.no_upgrade
          k.no_version k.no_key,
      rw sent parsed_ok,
      rw (found.at_connection.1, found.at_upgrade.1, found.at_version.1, found.at_key.1) refl,
      rw
          (find_name_cong (codes "Sec-WebSocket-Key") key_name
              (add_all (g.container ++ last ∷ []) empty).its refl
            ∙ found.at_key.1)
          refl,
    )
