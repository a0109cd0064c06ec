-- ===== src/Ssl/Tests.antt =====
-- Runs of the SSL handler on small inputs.
use io_reactor.Prelude.{ℕ, true, false, Option, none, some, List, [], ◌∷◌, ◌≡◌, refl}
use io_reactor.Ssl.Socket
use io_reactor.Ssl.Socket.{
  Answer, ssl_error_none, ssl_error_want_read, accept, read, write, failed, read_status,
  write_status,
}
use io_reactor.Ssl
use io_reactor.Ssl.{
  Handler, Session, Event, session_sent, state_read, constructed, Operation, sends, inits_ssl,
  input_event, output_event, run, send, accepted, register_writable, perform_operation, init_ssl,
  queue, perform, call, handle_input, handle_output, process_ssl, accept_first, by_state,
  ssl_accept, ssl_accepted, ssl_read, ssl_read_done, ssl_write, ssl_write_ready, ssl_written,
  has_buffer_to_send, sent_loop,
}
use io_reactor.Ssl.Sending.{IsFifo}
use io_reactor.Ssl.Fifo.{run-IsFifo}
use io_reactor.Ssl.Stall.{outputs, run-stalls}

abbrev quiet : Session
quiet = λ e. []

abbrev answer : Option ℕ → Answer
answer status = record {
  status = status;
  ssl_error = ssl_error_none;
  errno = 0;
  err_get_error = 0;
  bytes = [];
  received_shutdown = false;
  alpn = [];
}

abbrev wanting : Answer
wanting = record (answer none) { ssl_error = ssl_error_want_read }

-- A handshake, a message, and a write of it.
abbrev served : List Operation
served =
    inits_ssl false true
    ∷ input_event (answer (some 1) ∷ [])
    ∷ sends 7 (1 ∷ 2 ∷ [])
    ∷ output_event (answer (some 2) ∷ [])
    ∷ []

served-run :
    (run quiet served (constructed 5)).log
    ≡ Ssl.session_accept []
      ∷ accepted 7 (1 ∷ 2 ∷ [])
      ∷ register_writable
      ∷ session_sent 7 (some (1 ∷ 2 ∷ []))
      ∷ []
unfolding run perform_operation init_ssl send queue perform call handle_input handle_output
    process_ssl accept_first by_state ssl_accept ssl_accepted ssl_write ssl_write_ready ssl_written
    has_buffer_to_send sent_loop accept write failed write_status Socket.clear
served-run = refl

run-IsFifo_example : IsFifo (run quiet served (constructed 5))
run-IsFifo_example = run-IsFifo quiet 5 served

abbrev connected : Handler
connected = record (constructed 5) {
  has_ssl = true;
  ssl_socket = record { has_ssl = true; error_no = 0; sent_size = 0 };
  ssl_accept_done = true;
}

run-stalls_example :
    run quiet (input_event (wanting ∷ []) ∷ sends 7 (1 ∷ 2 ∷ []) ∷ outputs 3 wanting) connected
    ≡ (send 7 (1 ∷ 2 ∷ []) (record connected { ssl_state = state_read })).0
run-stalls_example =
    run-stalls quiet wanting (record { negative = refl; wants = refl }) 3 7 (1 ∷ 2 ∷ []) connected
      (record { accepted = refl; connected = refl; no_callback = refl }) refl refl
