-- ===== src/Ssl/Stall.antt =====
-- A handler whose read wants more bytes.
use io_reactor.Prelude.{
  ℕ, zero, suc, Bool, true, false, none, List, [], ◌∷◌, if◌then◌else◌, ◌≡◌, refl, ap, sym, subst,
  ◌∙◌, if_true, if_false,
}
use io_reactor.Ssl.Socket
use io_reactor.Ssl.Socket.{Answer, ssl_error_want_read, failed, read_status, want_read}
use io_reactor.Ssl.{
  Handler, Session, state_none, state_read, state_write, session_output, call, Operation, sends,
  input_event, output_event, queue, send, is_open, ssl_read, ssl_read_done, by_state, process_ssl,
  or_state, handle_input, handle_output, perform_operation, run,
}

-- SSL_read waits for bytes of the peer.
pub record WantsRead (a : Answer) : Type 0 where
  pub negative : a.status ≡ none
  pub wants : a.ssl_error ≡ ssl_error_want_read

-- A handler behind its handshake, with no callback for an output event asked for.
pub record IsConnected (h : Handler) : Type 0 where
  pub accepted : h.ssl_accept_done ≡ true
  pub connected : h.ssl_socket.has_ssl ≡ true
  pub no_callback : h.set_output_event ≡ false

abbrev pub outputs : ℕ → Answer → List Operation
outputs zero a = []
outputs (suc n) a = output_event (a ∷ []) ∷ outputs n a

module _ (session : Session) (a : Answer) (w : WantsRead a) where
  read_waits : (h : Handler) → h.ssl_socket.has_ssl ≡ true → ssl_read session (a ∷ []) h ≡ h
  unfolding ssl_read ssl_read_done Socket.read read_status failed
  read_waits h c = simp (c, w.negative, w.wants) refl

  process_waits :
      (h : Handler) → IsConnected h → h.ssl_state ≡ state_read → process_ssl session (a ∷ []) h ≡ h
  unfolding process_ssl by_state
  process_waits h c e =
      if_true h.ssl_accept_done c.accepted _ _
      ∙ ap (λ s. by_state session (a ∷ []) s h) e
      ∙ read_waits h c.connected

  -- An event finds the state to read, and leaves it.
  state_stays :
      (h : Handler)
      → h.ssl_state ≡ state_read
      → record h { ssl_state = or_state h.ssl_state state_write } ≡ h
  state_stays h e =
      ap (λ s. record h { ssl_state = or_state s state_write }) e
      ∙ sym (ap (λ s. record h { ssl_state = s }) e)

  output_waits :
      (h : Handler)
      → IsConnected h
      → h.ssl_state ≡ state_read
      → handle_output session (a ∷ []) h ≡ h
  unfolding handle_output
  output_waits h c e =
      let finish : Handler → Handler = λ g.
        if g.set_output_event
        then call session session_output (record g { set_output_event = false })
        else g in
      ap (λ g. finish (process_ssl session (a ∷ []) g)) (state_stays h e)
      ∙ ap finish (process_waits h c e)
      ∙ if_false h.set_output_event c.no_callback _ _

  outputs_wait :
      (n : ℕ) (h : Handler)
      → IsConnected h
      → h.ssl_state ≡ state_read
      → run session (outputs n a) h ≡ h
  unfolding run perform_operation
  outputs_wait zero h c e = refl
  outputs_wait (suc n) h c e =
      ap (run session (outputs n a)) (output_waits h c e) ∙ outputs_wait n h c e

  input_waits :
      (h : Handler)
      → IsConnected h
      → h.ssl_state ≡ state_none
      → handle_input session (a ∷ []) h ≡ record h { ssl_state = state_read }
  unfolding handle_input
  input_waits h c e =
      ap (λ s. process_ssl session (a ∷ []) (record h { ssl_state = or_state s state_read })) e
      ∙ process_waits (record h { ssl_state = state_read })
          (record { accepted = c.accepted; connected = c.connected; no_callback = c.no_callback })
          refl

  send-IsConnected :
      (id : ℕ) (bytes : List ℕ) (h : Handler)
      → is_open h ≡ true
      → IsConnected h
      → h.ssl_state ≡ state_read
      → IsConnected (send id bytes h).0 × ((send id bytes h).0.ssl_state ≡ state_read)
  unfolding send queue
  send-IsConnected id bytes h o c e =
      subst (λ (r : Handler × Bool). IsConnected r.0 × (r.0.ssl_state ≡ state_read))
        (sym (if_true (is_open h) o (queue id bytes h, true) (h, false)))
        (record { accepted = c.accepted; connected = c.connected; no_callback = c.no_callback }, e)

  -- A handler behind its handshake gets an input event for which SSL_read still wants bytes of the
  -- peer, and a message is sent: as long as no bytes of the peer come, output events leave the
  -- handler as `send` left it, so that the message is not written and no further event is asked for.
  pub run-stalls :
      (n id : ℕ) (bytes : List ℕ) (h : Handler)
      → IsConnected h
      → is_open h ≡ true
      → h.ssl_state ≡ state_none
      → run session (input_event (a ∷ []) ∷ sends id bytes ∷ outputs n a) h
        ≡ (send id bytes (record h { ssl_state = state_read })).0
  unfolding run perform_operation
  run-stalls n id bytes h c o e =
      let reading = record h { ssl_state = state_read } in
      let (connected, still) =
        send-IsConnected id bytes reading o
          (record { accepted = c.accepted; connected = c.connected; no_callback = c.no_callback })
          refl in
      ap (λ g. run session (outputs n a) (send id bytes g).0) (input_waits h c e)
      ∙ outputs_wait n (send id bytes reading).0 connected still
