-- ===== src/Reactor.antt =====
-- reactor/Reactor.h and reactor/Reactor.cpp: the requests that a reactor queues at its demuxer, and
-- the dispatch of the events that come back, with the timer. A callback into a handler is written to
-- the log; the requests that the handler makes from within it are the world's answer. They are made
-- on the thread that waits, so they go to the demuxer's queue and not to its pipe.
pub mod Same
pub mod Safety
pub mod Closing
pub mod Run
mod Tests
use io_reactor.Prelude.{
  ℕ, zero, suc, ◌+◌, ◌-◌, ◌%◌, ◌^◌, Bool, true, false, not, ◌&&◌, Option, none, some, List, [], ◌∷◌,
  ◌++◌, ltb, ◌==◌, if◌then◌else◌, lookup, insert, remove,
}
use io_reactor.Demuxer.{
  EventData, Demuxer, register_read_event, remove_all_events, register_write_event,
  remove_write_event, raise_user_event, event_read, event_write, event_error, event_close,
  event_register_read, event_remove_all, event_user, invalid_io_handle,
}
use io_reactor.Timer.{
  ObjectsTimer, register_timeout, remove_timeout, extract_timeout_objects, is_in, add, erase,
}

-- A call of one of a handler's functions; a handler is the address of its object.
pub data Callback : Type 0 where
  handle_registered handle_removed handle_input handle_output handle_close : ℕ → Callback
  handle_timeout handle_shutdown : ℕ → Callback
  handle_error : ℕ → ℕ → Callback
  reactor_handle_registered_handler reactor_handle_removed_handler : ℕ → Callback
  reactor_handle_error : ℕ → ℕ → Callback
  destroy : ℕ → Callback

-- What a handler asks of its reactor.
pub data Request : Type 0 where
  requests_register : ℕ → ℕ → Request
  requests_remove requests_writable requests_unset_timeout : ℕ → Request
  requests_set_timeout : ℕ → ℕ → Request
  requests_stop : Request

pub record Reactor : Type 0 where
  pub handlers : List (ℕ × ℕ)
  pub handle_close_call : List ℕ
  pub handler_count : ℕ
  -- zero is the null pointer
  pub reactor_handler : ℕ
  pub stop : Bool
  pub timer : ObjectsTimer
  pub demuxer : Demuxer
  pub log : List Callback

-- `io_handle_` of each handler, the requests from within each callback, and `errno`.
pub record World : Type 0 where
  pub io_handle : ℕ → ℕ
  pub requests : Callback → List Request
  pub errno : ℕ

abbrev pub event_timeout_add : ℕ
event_timeout_add = event_user

abbrev pub event_timeout_del : ℕ
event_timeout_del = event_user + 1

abbrev pub event_stop : ℕ
event_stop = event_user + 2

abbrev pub queue : (Demuxer → Demuxer × Bool) → Reactor → Reactor × Bool
queue f r = let (d, answer) = f r.demuxer in (record r { demuxer = d }, answer)

-- A request is refused once the reactor has stopped.
abbrev pub unless_stopped : (Demuxer → Demuxer × Bool) → Reactor → Reactor × Bool
unless_stopped f r = if r.stop then (r, false) else queue f r

abbrev pub register_event_handler : ℕ → ℕ → Reactor → Reactor × Bool
register_event_handler handler fd r = unless_stopped (register_read_event true fd handler true) r

abbrev pub remove_event_handler : World → ℕ → Reactor → Reactor × Bool
remove_event_handler w handler r =
    unless_stopped (remove_all_events true (w.io_handle handler) handler true) r

abbrev pub register_writable : World → ℕ → Reactor → Reactor × Bool
register_writable w handler r =
    unless_stopped (register_write_event true (w.io_handle handler) handler false) r

-- The milliseconds travel in the event's pointer.
abbrev pub set_timeout : World → ℕ → ℕ → Reactor → Reactor × Bool
set_timeout w handler msec r =
    unless_stopped (raise_user_event true event_timeout_add (w.io_handle handler) msec) r

abbrev pub unset_timeout : World → ℕ → Reactor → Reactor × Bool
unset_timeout w handler r =
    unless_stopped (raise_user_event true event_timeout_del (w.io_handle handler) 0) r

abbrev pub stop : Reactor → Reactor
stop r = (queue (raise_user_event true event_stop invalid_io_handle 0) r).0

abbrev pub request : World → Request → Reactor → Reactor
request w (requests_register handler fd) r = (register_event_handler handler fd r).0
request w (requests_remove handler) r = (remove_event_handler w handler r).0
request w (requests_writable handler) r = (register_writable w handler r).0
request w (requests_unset_timeout handler) r = (unset_timeout w handler r).0
request w (requests_set_timeout handler msec) r = (set_timeout w handler msec r).0
request w requests_stop r = stop r

unfoldable pub perform : World → List Request → Reactor → Reactor
perform w [] r = r
perform w (q ∷ qs) r = perform w qs (request w q r)

abbrev pub call_back : World → Callback → Reactor → Reactor
call_back w c r = perform w (w.requests c) (record r { log = c ∷ r.log })

-- `handler_count()`
abbrev pub count_of_handlers : Reactor → ℕ
count_of_handlers r =
    if r.reactor_handler == 0 then r.handler_count else (r.handler_count + 2 ^ 64 - 1) % 2 ^ 64

-- The switch of `dispatch_reactor_event`, for a handle that has a handler.
abbrev pub reactor_event_found : ℕ → ℕ → EventData → Option ℕ → Reactor → Reactor
reactor_event_found now later e none r = r
reactor_event_found now later e (some handler) r =
    if e.recv_event == event_timeout_add
    then record r { timer = (register_timeout now later (e.user_data % 2 ^ 32) handler r.timer).0 }
    else if e.recv_event == event_timeout_del
    then record r { timer = (remove_timeout handler r.timer).0 }
    else r

-- The result tells whether the event is `EVENT_STOP`.
unfoldable pub dispatch_reactor_event : ℕ → ℕ → EventData → Reactor → Reactor × Bool
dispatch_reactor_event now later e r =
    if ltb e.recv_event event_user
    then (r, false)
    else if e.recv_event == event_stop
    then (r, true)
    else (reactor_event_found now later e (lookup e.io_handle r.handlers) r, false)

-- EPIPE
abbrev pub epipe : ℕ
epipe = 32

-- The switch of `dispatch_demuxer_event_io`.
abbrev pub io_event_found : World → EventData → Option ℕ → Reactor → Reactor
io_event_found w e none r = (queue (remove_all_events true e.io_handle 0 false) r).0
io_event_found w e (some handler) r =
    let fd = w.io_handle handler in
    if e.recv_event == event_read
    then call_back w (handle_input handler) r
    else if e.recv_event == event_write
    then call_back w (handle_output handler) (queue (remove_write_event true fd 0 false) r).0
    else if e.recv_event == event_error
    then call_back w (handle_error handler (if w.errno == 0 then epipe else w.errno)) r
    else if e.recv_event == event_close
    then (if is_in fd r.handle_close_call
        then r
        else call_back w (handle_close handler)
            (record r { handle_close_call = add fd r.handle_close_call }))
    else r

unfoldable pub dispatch_demuxer_event_io : World → EventData → Reactor → Reactor
dispatch_demuxer_event_io w e r =
    if ltb event_close e.recv_event then r else io_event_found w e (lookup e.io_handle r.handlers) r

-- The reactor's own handler hears of the others.
abbrev pub tell : World → ℕ → Callback → Reactor → Reactor
tell w handler c r =
    if not (handler == r.reactor_handler) && not (r.reactor_handler == 0)
    then call_back w c r
    else r

-- `handlers_.emplace` leaves a handler that is there.
abbrev pub emplace : ℕ → ℕ → Option ℕ → Reactor → Reactor
emplace fd handler none r = record r { handlers = insert fd handler r.handlers }
emplace fd handler (some other) r = r

unfoldable pub registered : World → ℕ → ℕ → Reactor → Reactor
registered w fd handler r = tell w handler (reactor_handle_registered_handler handler) (
    call_back w (handle_registered handler) (
      emplace fd handler (lookup fd r.handlers)
        (record r { handler_count = (r.handler_count + 1) % 2 ^ 64 })))

unfoldable pub removed : World → ℕ → ℕ → Option ℕ → Reactor → Reactor
removed w fd handler none r = r
removed w fd handler (some found) r = tell w handler (reactor_handle_removed_handler handler) (
    call_back w (handle_removed handler) (record r {
      timer = (remove_timeout handler r.timer).0;
      handlers = remove fd r.handlers;
      handle_close_call = erase fd r.handle_close_call;
      handler_count = (r.handler_count + 2 ^ 64 - 1) % 2 ^ 64;
    }))

unfoldable pub dispatch_demuxer_event_result : World → EventData → Reactor → Reactor
dispatch_demuxer_event_result w e r =
    if not (ltb event_close e.recv_event)
    then r
    else if e.user_data == 0
    then r
    else if e.recv_event == event_register_read
    then registered w e.io_handle e.user_data r
    else if e.recv_event == event_remove_all
    then removed w e.io_handle e.user_data (lookup e.io_handle r.handlers) r
    else r

-- The body of the loop of `dispatch`.
unfoldable pub dispatch_event : World → ℕ → ℕ → EventData → Reactor → Reactor × Bool
dispatch_event w now later e r =
    let (after, is_stop_event) = dispatch_reactor_event now later e r in
    (dispatch_demuxer_event_result w e (dispatch_demuxer_event_io w e after), is_stop_event)

-- `dispatch`: `is_stop_event` stays set. The clock of event `i` is read twice.
unfoldable pub dispatch : World → (ℕ → ℕ) → ℕ → List EventData → Reactor → Reactor × Bool
dispatch w clock i [] r = (r, false)
dispatch w clock i (e ∷ es) r =
    let (after, is_stop_event) = dispatch_event w (clock i) (clock (i + 1)) e r in
    let (last, stopped) = dispatch w clock (i + 2) es after in
    (last, if is_stop_event then true else stopped)

abbrev pub timeouts : World → List ℕ → Reactor → Reactor
timeouts w [] r = r
timeouts w (handler ∷ handlers) r = timeouts w handlers (call_back w (handle_timeout handler) r)

abbrev pub all_timeouts : World → List (List ℕ) → Reactor → Reactor
all_timeouts w [] r = r
all_timeouts w (b ∷ bs) r = all_timeouts w bs (timeouts w b r)

unfoldable pub run_timeout_handler : World → (ℕ → ℕ) → Reactor → Reactor
run_timeout_handler w clock r =
    let (timer, objects) = extract_timeout_objects clock r.timer in
    all_timeouts w objects (record r { timer = timer })
