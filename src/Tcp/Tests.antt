-- ===== src/Tcp/Tests.antt =====
-- The properties of a connection's handler at concrete inputs.
use io_reactor.Prelude.{◌+◌, ◌≡◌, List, [], ◌∷◌, length, drop, min, refl, arith, map, none}
use io_reactor.Tcp.{
  Session, Socket, Handler, SendBufferInfo, calls_send, calls_close, sends, input_event,
  output_event, close_event, eagain, handle_registered, constructed, run, output_sent, slice,
  Operation, perform_operation, has_buffer_to_send, perform, send, queue,
}
use io_reactor.Tcp.Books.{collect, accepted_bytes, transmitted_bytes}
use io_reactor.Tcp.Delivery.{IsWellFormed}
use io_reactor.Tcp.Output.{has_buffer_to_send-IsReady}
use io_reactor.Tcp.Lifecycle.{run-registered-IsWellFormed}
use io_reactor.Tcp.Progress.{silent, IsTaking, pending, run-transmits_everything}
use io_reactor.Tcp.Offsets.{output_sent-stale_begin}

-- A session that greets, answers input with two messages and closes when the second is sent.
abbrev chatty : Session
chatty = record silent {
  on_registered = calls_send 0 (72 ∷ 105 ∷ []) ∷ [];
  on_input = calls_send 1 (1 ∷ 2 ∷ 3 ∷ []) ∷ calls_send 2 [] ∷ [];
  on_sent = λ stream_id bytes. calls_close ∷ [];
}

-- A socket that takes up to two bytes, and one that has no room.
abbrev narrow : Socket
narrow bytes = (min 2 (length bytes), 0)

abbrev full : Socket
full bytes = (0, eagain)

abbrev day : List Operation
day =
    output_event narrow
    ∷ input_event
    ∷ sends 3 (9 ∷ [])
    ∷ output_event full
    ∷ output_event narrow
    ∷ close_event
    ∷ []

run-registered-IsWellFormed_example :
    IsWellFormed (run chatty day (handle_registered chatty (constructed 7)))
run-registered-IsWellFormed_example =
    run-registered-IsWellFormed chatty 7 day
      (λ bytes. omega arith, (tt, (tt, (λ bytes. omega arith, (λ bytes. omega arith, (tt, tt))))))

narrow-IsTaking : IsTaking narrow
narrow-IsTaking = record { bounded = λ bytes. omega arith; takes = λ bytes e. omega (arith, e) }

-- A message of three bytes that waits.
abbrev waiting : Handler
waiting = run silent (sends 4 (1 ∷ 2 ∷ 3 ∷ []) ∷ []) (handle_registered silent (constructed 7))

waiting-IsWellFormed : IsWellFormed waiting
waiting-IsWellFormed = run-registered-IsWellFormed silent 7 (sends 4 (1 ∷ 2 ∷ 3 ∷ []) ∷ []) (tt, tt)

abbrev sockets : List Socket
sockets = narrow ∷ narrow ∷ narrow ∷ []

run-transmits_everything_example :
    let g : Handler = run silent (map output_event sockets) waiting in
    (pending g ≡ 0) × (collect transmitted_bytes g.log ≡ collect accepted_bytes g.log)
unfolding run perform_operation handle_registered perform send queue
run-transmits_everything_example =
    run-transmits_everything sockets waiting
      (narrow-IsTaking, (narrow-IsTaking, (narrow-IsTaking, tt))) waiting-IsWellFormed (omega arith)

abbrev sending : Handler
sending = (has_buffer_to_send waiting).0

sending-IsWellFormed : IsWellFormed sending
sending-IsWellFormed = (has_buffer_to_send-IsReady waiting waiting-IsWellFormed).well_formed

abbrev message : SendBufferInfo
message = record { stream_id = 4; begin = 0; size = 3; sent_remain = 3 }

sending_message : sending.send_buffer_infos ≡ message ∷ []
unfolding run perform_operation handle_registered perform send queue has_buffer_to_send
sending_message = refl

message_end : message.begin + message.size ≡ length sending.send_buffer
unfolding run perform_operation handle_registered perform send queue has_buffer_to_send
message_end = refl

output_sent-stale_begin_example :
    let g : Handler = output_sent silent 2 sending in
    (g.send_buffer_infos ≡ record message { sent_remain = 1 } ∷ [])
    × (g.send_buffer ≡ drop 2 sending.send_buffer)
    × (slice message g.send_buffer ≡ none)
output_sent-stale_begin_example =
    output_sent-stale_begin silent 2 sending message [] message sending-IsWellFormed sending_message
      (omega arith) (omega arith) message_end
