-- ===== src/Tcp/Lifecycle.antt =====
-- A whole life of a handler, from its registration to its removal: any operations, in any order,
-- with a session that calls back as it likes.
use io_reactor.Prelude.{ℕ, List, [], ◌∷◌, refl, All}
use io_reactor.Tcp.{
  Event, session_registered, session_removed, session_input, session_close, session_timeout,
  session_shutdown, session_error, remove_handler, shutdown_read, close_socket, released, Handler,
  Session, Call, emit, perform, calls_send, calls_close, calls_set_output, handle_registered,
  handle_removed, handle_input, handle_close, handle_timeout, handle_error, handle_shutdown,
  constructed, Operation, sends, closes, sets_output, input_event, close_event, timeout_event,
  shutdown_event, output_event, error_event, perform_operation, run,
}
use io_reactor.Tcp.Books.{IsQuiet}
use io_reactor.Tcp.Delivery.{IsWellFormed}
use io_reactor.Tcp.Output.{
  IsBounded, emit-IsWellFormed, perform-IsWellFormed, callback-IsWellFormed,
  handle_output-IsWellFormed,
}

abbrev pub IsOrdinary : Operation → Type 0
IsOrdinary (output_event socket) = IsBounded socket
IsOrdinary _ = Unit

constructed-IsWellFormed : (fd : ℕ) → IsWellFormed (constructed fd)
constructed-IsWellFormed fd = record {
  books = record { messages = refl; bytes = refl; prepared = refl };
  sending = refl;
  idle = λ _. refl;
}

handle_registered-IsWellFormed :
    (session : Session) (fd : ℕ) → IsWellFormed (handle_registered session (constructed fd))
unfolding handle_registered
handle_registered-IsWellFormed session fd =
    callback-IsWellFormed session_registered session.on_registered (constructed fd)
      (refl, refl, refl, refl) (constructed-IsWellFormed fd)

-- A callback, and then an event of the handler's own.
then_emit-IsWellFormed :
    (e f : Event) (calls : List Call) (h : Handler)
    → IsQuiet e
    → IsQuiet f
    → IsWellFormed h
    → IsWellFormed (emit f (perform calls (emit e h)))
then_emit-IsWellFormed e f calls h q r w =
    emit-IsWellFormed f _ r (callback-IsWellFormed e calls h q w)

pub handle_removed-IsWellFormed :
    (session : Session) (h : Handler) → IsWellFormed h → IsWellFormed (handle_removed session h)
unfolding handle_removed
handle_removed-IsWellFormed session h w =
    emit-IsWellFormed released _ (refl, refl, refl, refl)
      (then_emit-IsWellFormed session_removed close_socket session.on_removed h
        (refl, refl, refl, refl) (refl, refl, refl, refl) w)

perform_operation-IsWellFormed :
    (session : Session) (o : Operation) (h : Handler)
    → IsOrdinary o
    → IsWellFormed h
    → IsWellFormed (perform_operation session o h)
unfolding perform_operation handle_input handle_close handle_timeout handle_error handle_shutdown
    perform
perform_operation-IsWellFormed session (sends i bs) h _ w =
    perform-IsWellFormed (calls_send i bs ∷ []) h w
perform_operation-IsWellFormed session closes h _ w = perform-IsWellFormed (calls_close ∷ []) h w
perform_operation-IsWellFormed session sets_output h _ w =
    perform-IsWellFormed (calls_set_output ∷ []) h w
perform_operation-IsWellFormed session input_event h _ w =
    callback-IsWellFormed session_input session.on_input h (refl, refl, refl, refl) w
perform_operation-IsWellFormed session close_event h _ w =
    then_emit-IsWellFormed session_close remove_handler session.on_close h (refl, refl, refl, refl)
      (refl, refl, refl, refl) w
perform_operation-IsWellFormed session timeout_event h _ w =
    callback-IsWellFormed session_timeout session.on_timeout h (refl, refl, refl, refl) w
perform_operation-IsWellFormed session shutdown_event h _ w =
    callback-IsWellFormed session_shutdown session.on_shutdown h (refl, refl, refl, refl) w
perform_operation-IsWellFormed session (output_event socket) h bounded w =
    handle_output-IsWellFormed session socket h bounded w
perform_operation-IsWellFormed session (error_event err_no) h _ w =
    then_emit-IsWellFormed (session_error err_no) shutdown_read (session.on_error err_no) h
      (refl, refl, refl, refl) (refl, refl, refl, refl) w

run-IsWellFormed :
    (session : Session) (os : List Operation) (h : Handler)
    → All IsOrdinary os
    → IsWellFormed h
    → IsWellFormed (run session os h)
unfolding run
run-IsWellFormed session [] h a w = w
run-IsWellFormed session (o ∷ os) h (a, rest) w =
    run-IsWellFormed session os (perform_operation session o h) rest
      (perform_operation-IsWellFormed session o h a w)

-- Whatever operations a registered handler goes through, with a socket that never writes more than
-- it is given and a session that sends, closes and asks for output from within its callbacks: the
-- messages that `send` accepted are, in order, those reported as sent followed by those that wait,
-- and the accepted bytes are, in order, the transmitted ones followed by those that wait. The
-- messages being sent cover their buffer.
pub run-registered-IsWellFormed :
    (session : Session) (fd : ℕ) (os : List Operation)
    → All IsOrdinary os
    → IsWellFormed (run session os (handle_registered session (constructed fd)))
run-registered-IsWellFormed session fd os a =
    run-IsWellFormed session os (handle_registered session (constructed fd)) a
      (handle_registered-IsWellFormed session fd)
