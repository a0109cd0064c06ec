-- ===== src/Message/Handshake.antt =====
-- The two ends of an upgrade to WebSocket: the request of the client and the answer of the server.
use io_reactor.Prelude.{ℕ, true, false, none, some, [], ◌∷◌, ◌≡◌, refl, ◌∙◌}
use io_reactor.Text.{Bytes, codes, same, to_lower, tolower}
use io_reactor.Header.{HttpHeader, append, get, find_name, put_value, same_name, values_or_empty}
use io_reactor.Header.Maps.{find_name-put_name}
use io_reactor.Message.Length.{set-absent}
use io_reactor.Message.Request.{get_request, upgrade_websocket}
use io_reactor.Message.Response.{
  Http1Response, response, websocket_permission, is_websocket_upgrade, sec_accept_key,
}

pub appended :
    (m n v : Bytes) (h : HttpHeader)
    → same_name m n ≡ true
    → find_name n h.its ≡ none
    → find_name m (append n v h).its ≡ some ((v, h.next) ∷ [])
unfolding append put_value
appended m n v h e absent =
    find_name-put_name m n (put_value v h.next (values_or_empty (find_name n h.its))) h.its
    ∙ rw (e, absent) refl

pub kept :
    (m n v : Bytes) (h : HttpHeader)
    → same_name m n ≡ false
    → find_name m (append n v h).its ≡ find_name m h.its
unfolding append
kept m n v h e =
    find_name-put_name m n (put_value v h.next (values_or_empty (find_name n h.its))) h.its
    ∙ rw e refl

abbrev pub connection : Bytes
connection = codes "connection"

abbrev pub upgrade : Bytes
upgrade = codes "upgrade"

abbrev pub version : Bytes
version = codes "sec-websocket-version"

abbrev pub key_name : Bytes
key_name = codes "sec-websocket-key"

abbrev accept : Bytes
accept = codes "sec-websocket-accept"

-- The header of the request and of the answer.
abbrev pub asked : Bytes → HttpHeader → HttpHeader
asked key h = append key_name key (
    append version (codes "13")
      (append upgrade (codes "websocket") (append connection (codes "Upgrade") h)))

abbrev pub granted : Bytes → HttpHeader → HttpHeader
granted digest h =
    append accept digest
      (append connection (codes "Upgrade") (append upgrade (codes "websocket") h))

-- A name is not in the header.
abbrev pub Missing : Bytes → HttpHeader → Type 0
Missing n h = find_name n h.its ≡ none

-- The request that `upgrade_websocket` makes, for a header that has none of the four names.
pub upgrade_websocket-asked :
    (stream_id : ℕ) (path path_arg key : Bytes) (h : HttpHeader)
    → Missing connection h
    → Missing upgrade h
    → Missing version h
    → Missing key_name h
    → upgrade_websocket stream_id path path_arg h key
      ≡ some (get_request stream_id path path_arg (asked key h) [] true)
unfolding upgrade_websocket get_request same to_lower tolower
upgrade_websocket-asked stream_id path path_arg key h a b c d =
    let h1 = append connection (codes "Upgrade") h in
    let h2 = append upgrade (codes "websocket") h1 in
    let h3 = append version (codes "13") h2 in
    let b1 : Missing upgrade h1 = kept upgrade connection (codes "Upgrade") h refl ∙ b in
    let c1 : Missing version h1 = kept version connection (codes "Upgrade") h refl ∙ c in
    let c2 : Missing version h2 = kept version upgrade (codes "websocket") h1 refl ∙ c1 in
    let d1 : Missing key_name h1 = kept key_name connection (codes "Upgrade") h refl ∙ d in
    let d2 : Missing key_name h2 = kept key_name upgrade (codes "websocket") h1 refl ∙ d1 in
    let d3 : Missing key_name h3 = kept key_name version (codes "13") h2 refl ∙ d2 in
    rw
      (
        set-absent connection (codes "Upgrade") h a,
        set-absent upgrade (codes "websocket") h1 b1,
        set-absent version (codes "13") h2 c2,
        set-absent key_name key h3 d3,
      )
      refl

-- The server's answer, for a header that has none of its three names, is one that the client takes
-- for the permission, and it carries the digest of the key.
pub websocket_permission-is_websocket_upgrade :
    (digest : Bytes → Bytes) (stream_id : ℕ) (key body : Bytes) (h : HttpHeader)
    → Missing (codes "upgrade") h
    → Missing (codes "connection") h
    → Missing (codes "sec-websocket-accept") h
    → let h3 : HttpHeader = granted (sec_accept_key digest key) h in
      let r : Http1Response = record (response stream_id 101 h body) { header = h3 } in
      (websocket_permission digest stream_id key h body ≡ some r)
      × ((is_websocket_upgrade r ≡ true)
          × (get (codes "Sec-WebSocket-Accept") h3 ≡ sec_accept_key digest key))
unfolding websocket_permission is_websocket_upgrade response get same to_lower tolower
websocket_permission-is_websocket_upgrade digest stream_id key body h a b c =
    let value = sec_accept_key digest key in
    let h1 = append upgrade (codes "websocket") h in
    let h2 = append connection (codes "Upgrade") h1 in
    let b1 : Missing connection h1 = kept connection upgrade (codes "websocket") h refl ∙ b in
    let c1 : Missing accept h1 = kept accept upgrade (codes "websocket") h refl ∙ c in
    let c2 : Missing accept h2 = kept accept connection (codes "Upgrade") h1 refl ∙ c1 in
    let at_upgrade : find_name upgrade (granted value h).its
        ≡ some ((codes "websocket", h.next) ∷ []) =
      kept upgrade accept value h2 refl
      ∙ kept upgrade connection (codes "Upgrade") h1 refl
      ∙ appended upgrade upgrade (codes "websocket") h refl a in
    let at_accept : find_name (codes "Sec-WebSocket-Accept") (granted value h).its
        ≡ some ((value, h2.next) ∷ []) =
      appended (codes "Sec-WebSocket-Accept") accept value h2 refl c2 in
    (
      rw
          (
            set-absent upgrade (codes "websocket") h a,
            set-absent connection (codes "Upgrade") h1 b1,
            set-absent accept value h2 c2,
          )
          refl,
      (rw at_upgrade refl, rw at_accept refl),
    )
