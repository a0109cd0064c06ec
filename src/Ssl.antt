-- ===== src/Ssl.antt =====
-- ssl_reactor/SSLEventHandler.h, ssl_reactor/SSLEventHandler.cpp and ssl_reactor/SSLState.h: the
-- handler of one SSL connection. What leaves it is written to a log; a callback into the session may
-- call back `send`, `close` and `set_output_event`. What OpenSSL answers to each call is given by a
-- list; behind its end a read waits for bytes.
pub mod Socket
pub mod Queue
pub mod Sending
pub mod Fifo
pub mod Stall
mod Tests
use io_reactor.Prelude.{
  ℕ, zero, suc, ◌+◌, Bool, true, false, not, ◌&&◌, ◌||◌, Option, none, some, List, [], ◌∷◌, ◌++◌,
  leb, ◌==◌, if◌then◌else◌, length, take, drop,
}
use io_reactor.Tcp.{Call, calls_send, calls_close, calls_set_output, is_some, is_empty}
use io_reactor.Ssl.Socket.{
  Answer, Result, null_ssl, zero_return, error_syscall, error, want_read, want_write, none_result,
  size, SslSocket,
}
use io_reactor.Ssl.Socket

-- `SSL_STATE`
pub data SslState : Type 0 where
  state_none state_read state_write : SslState

-- `send_buffer_info_t`
pub record BufferInfo : Type 0 where
  pub id : ℕ
  pub begin : ℕ
  pub length : ℕ

-- What happens at the edge of the handler. `accepted` marks a call of `send` that queued its bytes.
pub data Event : Type 0 where
  accepted : ℕ → List ℕ → Event
  register_writable remove_handler shutdown_write close_socket released ssl_shutdown : Event
  session_registered session_removed session_output session_close : Event
  session_timeout session_shutdown : Event
  session_accept session_input : List ℕ → Event
  -- a size that is no size of the buffer
  session_input_bad : Event
  session_error : SslState → ℕ → Event
  session_sent : ℕ → Option (List ℕ) → Event
  session_sent_error : SslState → ℕ → ℕ → Option (List ℕ) → Event

pub record Handler : Type 0 where
  -- `none` is INVALID_IO_HANDLE
  pub io_handle : Option ℕ
  pub has_reactor : Bool
  pub close : Bool
  pub set_output_event : Bool
  -- `ssl_ != NULL`
  pub has_ssl : Bool
  pub ssl_state : SslState
  pub ssl_socket : SslSocket
  pub ssl_accept_done : Bool
  pub send_buffer : List ℕ
  pub send_buffer_infos : List BufferInfo
  pub prepare : List ℕ
  pub prepare_info : List BufferInfo
  pub log : List Event

-- The calls that the session makes from within each callback.
abbrev pub Session : Type 0
Session = Event → List Call

abbrev pub emit : Event → Handler → Handler
emit e h = record h { log = h.log ++ e ∷ [] }

-- The guard of `send` and `set_output_event`.
abbrev pub is_open : Handler → Bool
is_open h = is_some h.io_handle && (h.has_reactor && not h.close)

unfoldable pub queue : ℕ → List ℕ → Handler → Handler
queue id bytes h =
    let info : BufferInfo = record { id = id; begin = length h.prepare; length = length bytes } in
    emit register_writable (
      emit (accepted id bytes)
        (record h { prepare = h.prepare ++ bytes; prepare_info = h.prepare_info ++ info ∷ [] }))

unfoldable pub send : ℕ → List ℕ → Handler → Handler × Bool
send id bytes h = if is_open h then (queue id bytes h, true) else (h, false)

unfoldable pub close : Handler → Handler × Bool
close h =
    if h.close || not (is_some h.io_handle)
    then (h, false)
    else (emit shutdown_write (emit ssl_shutdown (record h { close = true })), true)

-- The first argument is the reactor's answer.
unfoldable pub set_output_event : Bool → Handler → Handler × Bool
set_output_event registered h =
    if not (is_open h) || h.set_output_event
    then (h, false)
    else (emit register_writable (record h { set_output_event = true }), registered)

unfoldable pub perform : List Call → Handler → Handler
perform [] h = h
perform (calls_send id bytes ∷ calls) h = perform calls (send id bytes h).0
perform (calls_close ∷ calls) h = perform calls (close h).0
perform (calls_set_output ∷ calls) h = perform calls (set_output_event true h).0

-- A callback into the session.
unfoldable pub call : Session → Event → Handler → Handler
call session e h = perform (session e) (emit e h)

-- What one more write made of `direct_send`, which always writes from the start of its data.
unfoldable pub direct_step :
    ℕ → (ℕ → SslSocket → SslSocket × Result) → SslSocket → Result → SslSocket × Result
direct_step sent again k (size n) = again (sent + n) k
direct_step sent again k result = (k, result)

unfoldable pub direct_loop : List Answer → ℕ → ℕ → SslSocket → SslSocket × Result
direct_loop [] total sent k = (k, if leb total sent then size sent else want_read)
direct_loop (a ∷ answers) total sent k =
    let (l, result) = Socket.write a total k in
    let more = direct_step sent (direct_loop answers total) l result in
    if leb total sent then (k, size sent) else more

-- `direct_send` of that many bytes.
unfoldable pub direct_send : List Answer → ℕ → Handler → Handler × Result
direct_send answers total h =
    let (k, result) = direct_loop answers total 0 h.ssl_socket in
    (record h { ssl_socket = k }, result)

-- `init_ssl`, with a context that is the one of before or not; the new `ssl` may be missing.
unfoldable pub init_ssl : Bool → Bool → Handler → Handler
init_ssl same_context made h =
    let cleared = record h { ssl_socket = Socket.clear h.ssl_socket } in
    if same_context then cleared else record cleared { has_ssl = made }

unfoldable pub has_buffer_to_send : Handler → Handler × Bool
has_buffer_to_send h =
    if not (is_empty h.send_buffer) then (h, true) else if is_empty h.prepare then (h, false) else (
      record h {
        send_buffer = h.prepare;
        prepare = h.send_buffer;
        send_buffer_infos = h.prepare_info;
        prepare_info = h.send_buffer_infos;
      },
      true,
    )

-- `send_buffer_.data() + info.begin` with `info.length` bytes; `none` where that leaves the vector.
abbrev pub slice : BufferInfo → List ℕ → Option (List ℕ)
slice info buffer =
    if leb (info.begin + info.length) (length buffer)
    then some (take info.length (drop info.begin buffer))
    else none

unfoldable pub ssl_accepted : Session → Answer → Result → Handler → Handler
ssl_accepted session a error h =
    emit shutdown_write (call session (session_error h.ssl_state h.ssl_socket.error_no) h)
ssl_accepted session a error_syscall h =
    if h.ssl_socket.error_no == 0
    then h
    else call session (session_error h.ssl_state h.ssl_socket.error_no) h
ssl_accepted session a want_read h = h
ssl_accepted session a want_write h = emit register_writable h
ssl_accepted session a _ h =
    call session (session_accept a.alpn)
      (record h { ssl_state = state_none; ssl_accept_done = true })

unfoldable pub ssl_accept : Session → Answer → Handler → Handler
ssl_accept session a h =
    let (k, result) = Socket.accept h.has_ssl a h.ssl_socket in
    ssl_accepted session a result (record h { ssl_socket = k })

-- `recv_buffer_.size()`
abbrev pub recv_buffer_size : ℕ
recv_buffer_size = 10240

-- The switch of `ssl_read`; the last argument goes on with the next read.
unfoldable pub ssl_read_done : Session → Answer → Result → Handler → (Handler → Handler) → Handler
ssl_read_done session a error h again = emit shutdown_write h
ssl_read_done session a error_syscall h again =
    call session (session_error h.ssl_state h.ssl_socket.error_no) h
ssl_read_done session a want_read h again = h
ssl_read_done session a want_write h again = emit register_writable h
ssl_read_done session a none_result h again =
    if a.received_shutdown then emit shutdown_write h else h
ssl_read_done session a zero_return h again =
    if a.received_shutdown then emit shutdown_write h else h
ssl_read_done session a null_ssl h again =
    call session session_input_bad (record h { ssl_state = state_none })
ssl_read_done session a (size n) h again =
    let g = call session (session_input (take n a.bytes)) (record h { ssl_state = state_none }) in
    let more = again g in if leb recv_buffer_size n then more else g

unfoldable pub ssl_read : Session → List Answer → Handler → Handler
ssl_read session [] h = h
ssl_read session (a ∷ answers) h =
    let (k, result) = Socket.read a h.ssl_socket in
    ssl_read_done session a result (record h { ssl_socket = k }) (ssl_read session answers)

-- The loops over `send_buffer_infos_`.
unfoldable pub sent_loop : Session → List BufferInfo → Handler → Handler
sent_loop session [] h = h
sent_loop session (info ∷ infos) h =
    sent_loop session infos (call session (session_sent info.id (slice info h.send_buffer)) h)

unfoldable pub error_loop : Session → List BufferInfo → Handler → Handler
error_loop session [] h = h
error_loop session (info ∷ infos) h = error_loop session infos (
    call session
      (session_sent_error h.ssl_state h.ssl_socket.error_no info.id (slice info h.send_buffer)) h)

unfoldable pub ssl_written : Session → Answer → Result → Handler → Handler
ssl_written session a error h = emit shutdown_write h
ssl_written session a error_syscall h = error_loop session h.send_buffer_infos h
ssl_written session a want_read h = h
ssl_written session a want_write h = emit register_writable h
ssl_written session a zero_return h = if a.received_shutdown then emit shutdown_write h else h
ssl_written session a _ h =
    let told = sent_loop session h.send_buffer_infos h in
    record told { send_buffer = []; send_buffer_infos = []; ssl_state = state_none }

-- Without an answer for it the write waits as one that wants to read.
unfoldable pub ssl_write_ready : Session → List Answer → Handler → Handler
ssl_write_ready session [] h = h
ssl_write_ready session (a ∷ answers) h =
    let (k, result) = Socket.write a (length h.send_buffer) h.ssl_socket in
    ssl_written session a result (record h { ssl_socket = k })

unfoldable pub ssl_write : Session → List Answer → Handler → Handler
ssl_write session answers h =
    let (ready, more) = has_buffer_to_send h in
    if more then ssl_write_ready session answers ready else record ready { ssl_state = state_none }

unfoldable pub accept_first : Session → List Answer → Handler → Handler
accept_first session [] h = h
accept_first session (a ∷ answers) h = ssl_accept session a h

unfoldable pub by_state : Session → List Answer → SslState → Handler → Handler
by_state session answers state_read h = ssl_read session answers h
by_state session answers state_write h = ssl_write session answers h
by_state session answers state_none h = h

unfoldable pub process_ssl : Session → List Answer → Handler → Handler
process_ssl session answers h =
    if h.ssl_accept_done
    then by_state session answers h.ssl_state h
    else accept_first session answers h

-- The state from none.
abbrev pub or_state : SslState → SslState → SslState
or_state state_none s = s
or_state t s = t

unfoldable pub handle_input : Session → List Answer → Handler → Handler
handle_input session answers h =
    process_ssl session answers (record h { ssl_state = or_state h.ssl_state state_read })

unfoldable pub handle_output : Session → List Answer → Handler → Handler
handle_output session answers h =
    let g =
      process_ssl session answers (record h { ssl_state = or_state h.ssl_state state_write }) in
    if g.set_output_event
    then call session session_output (record g { set_output_event = false })
    else g

unfoldable pub handle_registered : Session → Handler → Handler
handle_registered session h = call session session_registered (record h { ssl_state = state_none })

unfoldable pub handle_removed : Session → Handler → Handler
handle_removed session h = emit released (emit close_socket (call session session_removed h))

unfoldable pub handle_close : Session → Handler → Handler
handle_close session h = emit remove_handler (call session session_close h)

unfoldable pub handle_timeout : Session → Handler → Handler
handle_timeout session h = call session session_timeout h

unfoldable pub handle_error : Session → ℕ → Handler → Handler
handle_error session err_no h =
    emit shutdown_write (call session (session_error h.ssl_state err_no) h)

unfoldable pub handle_shutdown : Session → Handler → Handler
handle_shutdown session h = call session session_shutdown h

-- The constructor, with the handle and the reactor that the registration sets.
abbrev pub constructed : ℕ → Handler
constructed fd = record {
  io_handle = some fd;
  has_reactor = true;
  close = false;
  set_output_event = false;
  has_ssl = false;
  ssl_state = state_none;
  ssl_socket = record { has_ssl = false; error_no = 0; sent_size = 0 };
  ssl_accept_done = false;
  send_buffer = [];
  send_buffer_infos = [];
  prepare = [];
  prepare_info = [];
  log = [];
}

-- What the reactor and the application do to a handler.
pub data Operation : Type 0 where
  sends : ℕ → List ℕ → Operation
  closes sets_output registered removed close_event timeout_event shutdown_event : Operation
  input_event output_event : List Answer → Operation
  error_event : ℕ → Operation
  inits_ssl : Bool → Bool → Operation

unfoldable pub perform_operation : Session → Operation → Handler → Handler
perform_operation session (sends id bytes) h = (send id bytes h).0
perform_operation session closes h = (close h).0
perform_operation session sets_output h = (set_output_event true h).0
perform_operation session registered h = handle_registered session h
perform_operation session removed h = handle_removed session h
perform_operation session close_event h = handle_close session h
perform_operation session timeout_event h = handle_timeout session h
perform_operation session shutdown_event h = handle_shutdown session h
perform_operation session (input_event answers) h = handle_input session answers h
perform_operation session (output_event answers) h = handle_output session answers h
perform_operation session (error_event err_no) h = handle_error session err_no h
perform_operation session (inits_ssl same_context made) h = init_ssl same_context made h

unfoldable pub run : Session → List Operation → Handler → Handler
run session [] h = h
run session (o ∷ os) h = run session os (perform_operation session o h)
