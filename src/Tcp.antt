-- ===== src/Tcp.antt =====
-- tcp_reactor/TCPEventHandler.h and tcp_reactor/TCPEventHandler.cpp: the handler of one connection,
-- with the two buffers through which `send` hands bytes to `handle_output`. What the handler does to
-- the session, the reactor and the socket is written to a log. A callback into the session may call
-- back `send`, `close` and `set_output_event`: the calls that it makes are the session's answer.
pub mod Books
pub mod Delivery
pub mod Output
pub mod Lifecycle
pub mod Offsets
pub mod Progress
mod Tests
use io_reactor.Prelude.{
  ℕ, zero, suc, ◌+◌, ◌-◌, Bool, true, false, not, ◌&&◌, ◌||◌, Option, none, some, List, [], ◌∷◌,
  ◌++◌, ltb, leb, ◌==◌, if◌then◌else◌, length, take, drop,
}

-- `send_buffer_info_t`
pub record SendBufferInfo : Type 0 where
  pub stream_id : ℕ
  pub begin : ℕ
  pub size : ℕ
  pub sent_remain : ℕ

-- What happens at the edge of the handler. `accepted` marks a call of `send` that queued its bytes;
-- `transmitted` is a successful `::send`.
pub data Event : Type 0 where
  accepted : ℕ → List ℕ → Event
  transmitted : List ℕ → Event
  register_writable remove_handler shutdown_read close_socket released : Event
  session_registered session_removed session_input session_output session_close : Event
  session_timeout session_shutdown : Event
  session_error : ℕ → Event
  session_sent : ℕ → Option (List ℕ) → Event
  session_sent_error : ℕ → ℕ → Option (List ℕ) → Event

pub record Handler : Type 0 where
  -- `none` is INVALID_IO_HANDLE
  pub io_handle : Option ℕ
  -- `reactor_ != nullptr`
  pub has_reactor : Bool
  pub close : Bool
  pub set_output_event : Bool
  pub send_buffer : List ℕ
  pub send_buffer_infos : List SendBufferInfo
  pub prepare : List ℕ
  pub prepare_info : List SendBufferInfo
  pub log : List Event

pub data Call : Type 0 where
  calls_send : ℕ → List ℕ → Call
  calls_close calls_set_output : Call

-- The calls that the session makes from within each callback.
pub record Session : Type 0 where
  pub on_registered : List Call
  pub on_removed : List Call
  pub on_input : List Call
  pub on_output : List Call
  pub on_close : List Call
  pub on_timeout : List Call
  pub on_shutdown : List Call
  pub on_error : ℕ → List Call
  pub on_sent : ℕ → Option (List ℕ) → List Call
  pub on_sent_error : ℕ → ℕ → Option (List ℕ) → List Call

abbrev pub emit : Event → Handler → Handler
emit e h = record h { log = h.log ++ e ∷ [] }

abbrev pub is_some {ℓ} : {A : Type ℓ} → Option A → Bool
is_some none = false
is_some (some a) = true

-- The guard of `send` and `set_output_event`.
abbrev pub is_open : Handler → Bool
is_open h = is_some h.io_handle && (h.has_reactor && not h.close)

-- The bytes go behind those that wait, under the lock, and the reactor is asked for an event.
unfoldable pub queue : ℕ → List ℕ → Handler → Handler
queue stream_id bytes h =
    let info : SendBufferInfo = record {
      stream_id = stream_id;
      begin = length h.prepare;
      size = length bytes;
      sent_remain = length bytes;
    } in
    emit register_writable (
      emit (accepted stream_id bytes)
        (record h { prepare = h.prepare ++ bytes; prepare_info = h.prepare_info ++ info ∷ [] }))

unfoldable pub send : ℕ → List ℕ → Handler → Handler × Bool
send stream_id bytes h = if is_open h then (queue stream_id bytes h, true) else (h, false)

unfoldable pub close : Handler → Handler × Bool
close h =
    if h.close || not (is_some h.io_handle)
    then (h, false)
    else (emit shutdown_read (record h { close = true }), true)

-- The result is that of `compare_exchange_strong`; the reactor's answer is the first argument.
unfoldable pub set_output_event : Bool → Handler → Handler × Bool
set_output_event registered h =
    if is_open h
    then (if h.set_output_event
        then (h, false)
        else (emit register_writable (record h { set_output_event = true }), registered))
    else (h, false)

unfoldable pub perform : List Call → Handler → Handler
perform [] h = h
perform (calls_send stream_id bytes ∷ calls) h = perform calls (send stream_id bytes h).0
perform (calls_close ∷ calls) h = perform calls (close h).0
perform (calls_set_output ∷ calls) h = perform calls (set_output_event true h).0

abbrev pub is_empty {ℓ} : {A : Type ℓ} → List A → Bool
is_empty [] = true
is_empty (x ∷ xs) = false

unfoldable pub has_buffer_to_send : Handler → Handler × Bool
has_buffer_to_send h =
    if not (is_empty h.send_buffer) then (h, true) else if is_empty h.prepare then (h, false) else (
      record h {
        send_buffer = h.prepare;
        prepare = h.send_buffer;
        send_buffer_infos = h.prepare_info;
        prepare_info = h.send_buffer_infos;
      },
      true,
    )

-- `send_buffer_.data() + info.begin` with `info.length` bytes; `none` where that leaves the vector.
abbrev pub slice : SendBufferInfo → List ℕ → Option (List ℕ)
slice info buffer =
    if leb (info.begin + info.size) (length buffer)
    then some (take info.size (drop info.begin buffer))
    else none

-- The loop over `send_buffer_infos_`, with `sent_info_size` as the number of bytes to account for.
unfoldable pub sent_loop : Session → ℕ → List SendBufferInfo → Handler → Handler
sent_loop session n [] h = record h { send_buffer_infos = [] }
sent_loop session n (info ∷ infos) h =
    let bytes = slice info h.send_buffer in
    let called =
      perform (session.on_sent info.stream_id bytes) (emit (session_sent info.stream_id bytes) h) in
    let rest = sent_loop session (n - info.sent_remain) infos called in
    if ltb n info.sent_remain
    then record h { send_buffer_infos = record info { sent_remain = info.sent_remain - n } ∷ infos }
    else rest

-- `handle_sent_error` for every message that is being sent.
unfoldable pub error_loop : Session → ℕ → List SendBufferInfo → Handler → Handler
error_loop session err_no [] h = h
error_loop session err_no (info ∷ infos) h =
    let bytes = slice info h.send_buffer in
    error_loop session err_no infos (
      perform (session.on_sent_error err_no info.stream_id bytes)
        (emit (session_sent_error err_no info.stream_id bytes) h))

-- EAGAIN
abbrev pub eagain : ℕ
eagain = 11

-- The part of `handle_output` that follows a `::send` that wrote `sent_size` bytes. The buffer is
-- erased by the destructor of `scope_exit`, so after the last test.
unfoldable pub output_sent : Session → ℕ → Handler → Handler
output_sent session sent_size h =
    let reported =
      sent_loop session sent_size h.send_buffer_infos
        (emit (transmitted (take sent_size h.send_buffer)) h) in
    let (after, more) = has_buffer_to_send reported in
    let asked = if more then emit register_writable after else after in
    record asked { send_buffer = drop sent_size asked.send_buffer }

unfoldable pub output_failed : Session → ℕ → Handler → Handler
output_failed session err_no h =
    if err_no == eagain
    then emit register_writable h
    else emit shutdown_read (error_loop session err_no h.send_buffer_infos h)

-- What `::send` answers for the bytes it is given: how many it wrote, and `errno`. Zero stands for
-- every result that is not positive.
abbrev pub Socket : Type 0
Socket = List ℕ → ℕ × ℕ

unfoldable pub write_out : Session → Socket → Handler → Handler
write_out session socket h =
    let (ready, more) = has_buffer_to_send h in
    let (sent_size, err_no) = socket ready.send_buffer in
    if more
    then (if sent_size == 0
        then output_failed session err_no ready
        else output_sent session sent_size ready)
    else ready

unfoldable pub handle_output : Session → Socket → Handler → Handler
handle_output session socket h =
    let called =
      if h.set_output_event
      then perform session.on_output (emit session_output (record h { set_output_event = false }))
      else h in
    write_out session socket called

unfoldable pub handle_registered : Session → Handler → Handler
handle_registered session h =
    perform session.on_registered (emit session_registered (record h { send_buffer = [] }))

unfoldable pub handle_removed : Session → Handler → Handler
handle_removed session h =
    emit released (emit close_socket (perform session.on_removed (emit session_removed h)))

unfoldable pub handle_input : Session → Handler → Handler
handle_input session h = perform session.on_input (emit session_input h)

unfoldable pub handle_close : Session → Handler → Handler
handle_close session h = emit remove_handler (perform session.on_close (emit session_close h))

unfoldable pub handle_timeout : Session → Handler → Handler
handle_timeout session h = perform session.on_timeout (emit session_timeout h)

unfoldable pub handle_error : Session → ℕ → Handler → Handler
handle_error session err_no h =
    emit shutdown_read (perform (session.on_error err_no) (emit (session_error err_no) h))

unfoldable pub handle_shutdown : Session → Handler → Handler
handle_shutdown session h = perform session.on_shutdown (emit session_shutdown h)

-- The constructor, with the handle and the reactor that the registration sets.
abbrev pub constructed : ℕ → Handler
constructed fd = record {
  io_handle = some fd;
  has_reactor = true;
  close = false;
  set_output_event = false;
  send_buffer = [];
  send_buffer_infos = [];
  prepare = [];
  prepare_info = [];
  log = [];
}

-- What the reactor and the application do to a handler that is registered.
pub data Operation : Type 0 where
  sends : ℕ → List ℕ → Operation
  closes sets_output : Operation
  input_event close_event timeout_event shutdown_event : Operation
  output_event : Socket → Operation
  error_event : ℕ → Operation

unfoldable pub perform_operation : Session → Operation → Handler → Handler
perform_operation session (sends stream_id bytes) h = (send stream_id bytes h).0
perform_operation session closes h = (close h).0
perform_operation session sets_output h = (set_output_event true h).0
perform_operation session input_event h = handle_input session h
perform_operation session close_event h = handle_close session h
perform_operation session timeout_event h = handle_timeout session h
perform_operation session shutdown_event h = handle_shutdown session h
perform_operation session (output_event socket) h = handle_output session socket h
perform_operation session (error_event err_no) h = handle_error session err_no h

unfoldable pub run : Session → List Operation → Handler → Handler
run session [] h = h
run session (o ∷ os) h = run session os (perform_operation session o h)
