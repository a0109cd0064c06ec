-- ===== src/Ssl/Fifo.antt =====
-- The messages of a handler over any operations.
use io_reactor.Prelude.{ℕ, true, false, List, [], ◌∷◌, leb, ◌==◌, refl, length, take}
use io_reactor.Tcp.{calls_send, calls_close, calls_set_output}
use io_reactor.Ssl.Socket
use io_reactor.Ssl.Socket.{
  Answer, Result, null_ssl, zero_return, error_syscall, error, want_read, want_write, none_result,
  size, SslSocket,
}
use io_reactor.Ssl.{
  shutdown_write, remove_handler, released, close_socket, session_input, SslState, state_none,
  state_read, state_write, session_error, session_registered, session_removed, session_close,
  session_timeout, session_shutdown, session_output, Handler, Session, emit, send, close,
  set_output_event, perform, call, has_buffer_to_send, ssl_accepted, ssl_accept, ssl_read_done,
  ssl_read, sent_loop, ssl_written, ssl_write_ready, ssl_write, accept_first, by_state, process_ssl,
  or_state, handle_input, handle_output, handle_registered, handle_removed, handle_close,
  handle_timeout, handle_error, handle_shutdown, sends, closes, sets_output, registered, removed,
  close_event, timeout_event, shutdown_event, input_event, output_event, error_event, inits_ssl,
  constructed, Operation, perform_operation, run, recv_buffer_size,
}
use io_reactor.Ssl.Sending.{
  IsFifo, call-IsFifo, emit-IsFifo, error_loop-IsSending, has_buffer_to_send-IsFifo, if-IsFifo,
  init_ssl-IsFifo, perform-IsSending, sending-IsFifo, sent_loop-IsSending, start-IsSending,
}

module _ (session : Session) where
  ssl_accepted-IsFifo :
      (a : Answer) (r : Result) (h : Handler) → IsFifo h → IsFifo (ssl_accepted session a r h)
  unfolding ssl_accepted
  ssl_accepted-IsFifo a error h k =
      let e = session_error h.ssl_state h.ssl_socket.error_no in
      emit-IsFifo session shutdown_write (call session e h) refl refl
        (call-IsFifo session e h refl refl k)
  ssl_accepted-IsFifo a error_syscall h k =
      if-IsFifo (h.ssl_socket.error_no == 0) h _ k (call-IsFifo session _ h refl refl k)
  ssl_accepted-IsFifo a want_read h k = k
  ssl_accepted-IsFifo a want_write h k = emit-IsFifo session _ h refl refl k
  ssl_accepted-IsFifo a null_ssl h k = call-IsFifo session _ _ refl refl k
  ssl_accepted-IsFifo a zero_return h k = call-IsFifo session _ _ refl refl k
  ssl_accepted-IsFifo a none_result h k = call-IsFifo session _ _ refl refl k
  ssl_accepted-IsFifo a (size n) h k = call-IsFifo session _ _ refl refl k

  ssl_read_done-IsFifo :
      (a : Answer) (r : Result) (h : Handler) (again : Handler → Handler)
      → ((g : Handler) → IsFifo g → IsFifo (again g))
      → IsFifo h
      → IsFifo (ssl_read_done session a r h again)
  unfolding ssl_read_done
  ssl_read_done-IsFifo a error h again f k = emit-IsFifo session _ h refl refl k
  ssl_read_done-IsFifo a error_syscall h again f k = call-IsFifo session _ h refl refl k
  ssl_read_done-IsFifo a want_read h again f k = k
  ssl_read_done-IsFifo a want_write h again f k = emit-IsFifo session _ h refl refl k
  ssl_read_done-IsFifo a none_result h again f k =
      if-IsFifo a.received_shutdown _ h (emit-IsFifo session _ h refl refl k) k
  ssl_read_done-IsFifo a zero_return h again f k =
      if-IsFifo a.received_shutdown _ h (emit-IsFifo session _ h refl refl k) k
  ssl_read_done-IsFifo a null_ssl h again f k = call-IsFifo session _ _ refl refl k
  ssl_read_done-IsFifo a (size n) h again f k =
      let g =
        call-IsFifo session (session_input (take n a.bytes)) (record h { ssl_state = state_none })
          refl refl k in
      if-IsFifo (leb recv_buffer_size n) _ _ (f _ g) g

  ssl_read-IsFifo :
      (answers : List Answer) (h : Handler) → IsFifo h → IsFifo (ssl_read session answers h)
  unfolding ssl_read
  ssl_read-IsFifo [] h k = k
  ssl_read-IsFifo (a ∷ answers) h k =
      ssl_read_done-IsFifo a (Socket.read a h.ssl_socket).1 _ (ssl_read session answers)
        (λ g m. ssl_read-IsFifo answers g m) k

  -- The loop tells all messages that are being sent, and the buffer is cleared behind it.
  all_told-IsFifo :
      (h : Handler)
      → IsFifo h
      → IsFifo (record (sent_loop session h.send_buffer_infos h) {
        send_buffer = [];
        send_buffer_infos = [];
        ssl_state = state_none;
      })
  all_told-IsFifo h k = (
    (sent_loop-IsSending session h.send_buffer_infos h h (start-IsSending h k)).queued,
    λ e. refl,
  )

  ssl_written-IsFifo :
      (a : Answer) (r : Result) (h : Handler) → IsFifo h → IsFifo (ssl_written session a r h)
  unfolding ssl_written
  ssl_written-IsFifo a error h k = emit-IsFifo session _ h refl refl k
  ssl_written-IsFifo a error_syscall h k = sending-IsFifo h _ k (
      error_loop-IsSending session h.send_buffer_infos h.send_buffer_infos h h
        (start-IsSending h k))
  ssl_written-IsFifo a want_read h k = k
  ssl_written-IsFifo a want_write h k = emit-IsFifo session _ h refl refl k
  ssl_written-IsFifo a zero_return h k =
      if-IsFifo a.received_shutdown _ h (emit-IsFifo session _ h refl refl k) k
  ssl_written-IsFifo a null_ssl h k = all_told-IsFifo h k
  ssl_written-IsFifo a none_result h k = all_told-IsFifo h k
  ssl_written-IsFifo a (size n) h k = all_told-IsFifo h k

  ssl_write_ready-IsFifo :
      (answers : List Answer) (h : Handler) → IsFifo h → IsFifo (ssl_write_ready session answers h)
  unfolding ssl_write_ready
  ssl_write_ready-IsFifo [] h k = k
  ssl_write_ready-IsFifo (a ∷ answers) h k =
      ssl_written-IsFifo a (Socket.write a (length h.send_buffer) h.ssl_socket).1
        (record h { ssl_socket = (Socket.write a (length h.send_buffer) h.ssl_socket).0 }) k

  ssl_write-IsFifo :
      (answers : List Answer) (h : Handler) → IsFifo h → IsFifo (ssl_write session answers h)
  unfolding ssl_write
  ssl_write-IsFifo answers h k =
      if-IsFifo (has_buffer_to_send h).1 (ssl_write_ready session answers (has_buffer_to_send h).0)
        (record (has_buffer_to_send h).0 { ssl_state = state_none })
        (ssl_write_ready-IsFifo answers (has_buffer_to_send h).0 (has_buffer_to_send-IsFifo h k))
        (has_buffer_to_send-IsFifo h k)

  by_state-IsFifo :
      (answers : List Answer) (s : SslState) (h : Handler)
      → IsFifo h
      → IsFifo (by_state session answers s h)
  unfolding by_state
  by_state-IsFifo answers state_read h k = ssl_read-IsFifo answers h k
  by_state-IsFifo answers state_write h k = ssl_write-IsFifo answers h k
  by_state-IsFifo answers state_none h k = k

  accept_first-IsFifo :
      (answers : List Answer) (h : Handler) → IsFifo h → IsFifo (accept_first session answers h)
  unfolding accept_first ssl_accept
  accept_first-IsFifo [] h k = k
  accept_first-IsFifo (a ∷ answers) h k =
      ssl_accepted-IsFifo a (Socket.accept h.has_ssl a h.ssl_socket).1
        (record h { ssl_socket = (Socket.accept h.has_ssl a h.ssl_socket).0 }) k

  process_ssl-IsFifo :
      (answers : List Answer) (h : Handler) → IsFifo h → IsFifo (process_ssl session answers h)
  unfolding process_ssl
  process_ssl-IsFifo answers h k =
      if-IsFifo h.ssl_accept_done (by_state session answers h.ssl_state h)
        (accept_first session answers h) (by_state-IsFifo answers h.ssl_state h k)
        (accept_first-IsFifo answers h k)

  handle_output-IsFifo :
      (answers : List Answer) (h : Handler) → IsFifo h → IsFifo (handle_output session answers h)
  unfolding handle_output
  handle_output-IsFifo answers h k =
      let g =
        process_ssl session answers (record h { ssl_state = or_state h.ssl_state state_write }) in
      let m =
        process_ssl-IsFifo answers (record h { ssl_state = or_state h.ssl_state state_write }) k in
      if-IsFifo g.set_output_event
        (call session session_output (record g { set_output_event = false })) g
        (call-IsFifo session session_output (record g { set_output_event = false }) refl refl m) m

  perform_operation-IsFifo :
      (o : Operation) (h : Handler) → IsFifo h → IsFifo (perform_operation session o h)
  unfolding perform_operation perform handle_input handle_registered handle_removed handle_close
      handle_timeout handle_error handle_shutdown
  perform_operation-IsFifo (sends id bytes) h k =
      sending-IsFifo h (send id bytes h).0 k
        (perform-IsSending (calls_send id bytes ∷ []) h.send_buffer_infos h h (start-IsSending h k))
  perform_operation-IsFifo closes h k =
      sending-IsFifo h (close h).0 k
        (perform-IsSending (calls_close ∷ []) h.send_buffer_infos h h (start-IsSending h k))
  perform_operation-IsFifo sets_output h k =
      sending-IsFifo h (set_output_event true h).0 k
        (perform-IsSending (calls_set_output ∷ []) h.send_buffer_infos h h (start-IsSending h k))
  perform_operation-IsFifo registered h k =
      call-IsFifo session session_registered (record h { ssl_state = state_none }) refl refl k
  perform_operation-IsFifo removed h k =
      let g = call session session_removed h in
      emit-IsFifo session released (emit close_socket g) refl refl (
        emit-IsFifo session close_socket g refl refl
          (call-IsFifo session session_removed h refl refl k))
  perform_operation-IsFifo close_event h k =
      emit-IsFifo session remove_handler (call session session_close h) refl refl
        (call-IsFifo session session_close h refl refl k)
  perform_operation-IsFifo timeout_event h k = call-IsFifo session session_timeout h refl refl k
  perform_operation-IsFifo shutdown_event h k = call-IsFifo session session_shutdown h refl refl k
  perform_operation-IsFifo (input_event answers) h k =
      process_ssl-IsFifo answers (record h { ssl_state = or_state h.ssl_state state_read }) k
  perform_operation-IsFifo (output_event answers) h k = handle_output-IsFifo answers h k
  perform_operation-IsFifo (error_event err_no) h k =
      let e = session_error h.ssl_state err_no in
      emit-IsFifo session shutdown_write (call session e h) refl refl
        (call-IsFifo session e h refl refl k)
  perform_operation-IsFifo (inits_ssl same_context made) h k = init_ssl-IsFifo same_context made h k

  run-IsFifo_from : (os : List Operation) (h : Handler) → IsFifo h → IsFifo (run session os h)
  unfolding run
  run-IsFifo_from [] h k = k
  run-IsFifo_from (o ∷ os) h k =
      run-IsFifo_from os (perform_operation session o h) (perform_operation-IsFifo o h k)

  -- However OpenSSL answers and whatever the session calls from within its callbacks: the messages
  -- that `send` accepted are, in order and with their bytes, those that the session was told as sent
  -- and then those that wait in the two buffers, and without bytes being sent no message is.
  pub run-IsFifo : (fd : ℕ) (os : List Operation) → IsFifo (run session os (constructed fd))
  run-IsFifo fd os = run-IsFifo_from os (constructed fd) ((refl, tt), λ e. refl)
