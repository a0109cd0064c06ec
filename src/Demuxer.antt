-- ===== src/Demuxer.antt =====
-- reactor/IoHandleDemuxer.h: the queue of control events, the table of epoll masks and the wait for
-- events. What `epoll_ctl`, `epoll_wait` and `recv` answer are arguments; the calls of `epoll_ctl`
-- are written to a log with their answers.
pub mod Masks
pub mod Interest
pub mod Events
pub mod Listening
mod Tests
use io_reactor.Prelude.{
  ℕ, zero, suc, ◌+◌, ◌-◌, ◌^◌, Bool, true, false, not, ◌&&◌, ◌||◌, Option, none, some, List, [],
  ◌∷◌, ◌++◌, ltb, ◌==◌, if◌then◌else◌, lookup, insert, remove, take, drop,
}
use Prim.Native.Nat.{bit_and, bit_or, bit_xor}

-- INVALID_IO_HANDLE, as the bits of an `int32_t`.
abbrev pub invalid_io_handle : ℕ
invalid_io_handle = 2 ^ 32 - 1

-- `RECV_EVENT`
abbrev pub event_read : ℕ
event_read = 1

abbrev pub event_write : ℕ
event_write = 2

abbrev pub event_error : ℕ
event_error = 3

abbrev pub event_close : ℕ
event_close = 4

abbrev pub event_register_all : ℕ
event_register_all = 10

abbrev pub event_register_read : ℕ
event_register_read = 11

abbrev pub event_register_write : ℕ
event_register_write = 12

abbrev pub event_register_error : ℕ
event_register_error = 13

abbrev pub event_remove_read : ℕ
event_remove_read = 20

abbrev pub event_remove_write : ℕ
event_remove_write = 21

abbrev pub event_remove_error : ℕ
event_remove_error = 22

abbrev pub event_remove_all : ℕ
event_remove_all = 23

abbrev pub event_user : ℕ
event_user = 100

abbrev pub epollin : ℕ
epollin = 1

abbrev pub epollout : ℕ
epollout = 4

abbrev pub epollerr : ℕ
epollerr = 8

abbrev pub epollhup : ℕ
epollhup = 0x10

abbrev pub epollrdhup : ℕ
epollrdhup = 0x2000

abbrev pub init_epoll_event_value : ℕ
init_epoll_event_value = bit_or epollhup epollrdhup

-- `EventData`; zero is the null pointer.
pub record EventData : Type 0 where
  pub recv_event : ℕ
  pub io_handle : ℕ
  pub user_data : ℕ

pub record CtrlEventData : Type 0 where
  pub event : EventData
  pub return_value : Bool

-- A call of `epoll_ctl`.
pub data Ctl : Type 0 where
  ctl_add ctl_mod : ℕ → ℕ → Ctl
  ctl_del : ℕ → Ctl

pub record Demuxer : Type 0 where
  pub epoll_events_by_io_handle : List (ℕ × ℕ)
  pub wait_events : List CtrlEventData
  -- what waits in the pipe
  pub pipe : List CtrlEventData
  pub pipe_ctrl_event_recv : ℕ
  pub log : List (Ctl × Bool)

abbrev pub Kernel : Type 0
Kernel = Ctl → Bool

abbrev pub call : Kernel → Ctl → Demuxer → Demuxer
call kernel c d = record d { log = (c, kernel c) ∷ d.log }

abbrev pub set_mask : ℕ → ℕ → Demuxer → Demuxer
set_mask fd mask d = record d {
  epoll_events_by_io_handle = insert fd mask d.epoll_events_by_io_handle;
}

abbrev pub clear_mask : ℕ → Demuxer → Demuxer
clear_mask fd d = record d { epoll_events_by_io_handle = remove fd d.epoll_events_by_io_handle }

abbrev pub epoll_event : ℕ → ℕ
epoll_event event_type =
    if event_type == event_read
    then epollin
    else if event_type == event_write
    then epollout
    else if event_type == event_error
    then epollerr
    else 0

-- `add_epoll_event` for a handle with a mask: a failed change is taken back.
unfoldable pub add_to_mask : Kernel → ℕ → ℕ → ℕ → Demuxer → Demuxer
add_to_mask kernel bit fd mask d =
    let called = call kernel (ctl_mod fd (bit_or mask bit)) (set_mask fd (bit_or mask bit) d) in
    if not (bit_and mask bit == 0)
    then d
    else if kernel (ctl_mod fd (bit_or mask bit))
    then called
    else set_mask fd (bit_xor (bit_or mask bit) bit) called

abbrev pub add_mask : Kernel → ℕ → ℕ → Demuxer → Demuxer
add_mask kernel bit fd d =
    let mask = bit_or init_epoll_event_value bit in
    let called = call kernel (ctl_add fd mask) (set_mask fd mask d) in
    if kernel (ctl_add fd mask) then called else clear_mask fd called

abbrev pub add_found : Kernel → ℕ → ℕ → Option ℕ → Demuxer → Demuxer
add_found kernel bit fd none d = add_mask kernel bit fd d
add_found kernel bit fd (some mask) d = add_to_mask kernel bit fd mask d

unfoldable pub add_epoll_event : Kernel → ℕ → ℕ → Demuxer → Demuxer
add_epoll_event kernel event_type fd d =
    add_found kernel (epoll_event event_type) fd (lookup fd d.epoll_events_by_io_handle) d

-- `del_epoll_event` for a handle with a mask; the answers of `epoll_ctl` are not looked at.
unfoldable pub del_from_mask : Kernel → ℕ → ℕ → ℕ → Demuxer → Demuxer
del_from_mask kernel bit fd mask d =
    if bit_xor mask bit == init_epoll_event_value
    then clear_mask fd (call kernel (ctl_del fd) d)
    else call kernel (ctl_mod fd (bit_xor mask bit)) (set_mask fd (bit_xor mask bit) d)

abbrev pub del_found : Kernel → ℕ → ℕ → Option ℕ → Demuxer → Demuxer
del_found kernel bit fd none d = d
del_found kernel bit fd (some mask) d = if bit == 0 then d else del_from_mask kernel bit fd mask d

unfoldable pub del_epoll_event : Kernel → ℕ → ℕ → Demuxer → Demuxer
del_epoll_event kernel event_type fd d =
    del_found kernel (epoll_event event_type) fd (lookup fd d.epoll_events_by_io_handle) d

abbrev pub del_all_found : Kernel → ℕ → Option ℕ → Demuxer → Demuxer
del_all_found kernel fd none d = d
del_all_found kernel fd (some mask) d = clear_mask fd (call kernel (ctl_del fd) d)

unfoldable pub del_epoll_events : Kernel → ℕ → Demuxer → Demuxer
del_epoll_events kernel fd d = del_all_found kernel fd (lookup fd d.epoll_events_by_io_handle) d

-- The switch of `process_ctrl_event`.
unfoldable pub apply_ctrl_event : Kernel → ℕ → ℕ → Demuxer → Demuxer
apply_ctrl_event kernel event_type fd d =
    if event_type == event_register_all
    then add_epoll_event kernel event_error fd
        (add_epoll_event kernel event_write fd (add_epoll_event kernel event_read fd d))
    else if event_type == event_register_read
    then add_epoll_event kernel event_read fd d
    else if event_type == event_register_write
    then add_epoll_event kernel event_write fd d
    else if event_type == event_register_error
    then add_epoll_event kernel event_error fd d
    else if event_type == event_remove_read
    then del_epoll_event kernel event_read fd d
    else if event_type == event_remove_write
    then del_epoll_event kernel event_write fd d
    else if event_type == event_remove_error
    then del_epoll_event kernel event_error fd d
    else if event_type == event_remove_all
    then del_epoll_events kernel fd d
    else d

unfoldable pub process_ctrl_event :
    Kernel → CtrlEventData → Demuxer × List EventData → Demuxer × List EventData
process_ctrl_event kernel e (d, return_events) = (
  apply_ctrl_event kernel e.event.recv_event e.event.io_handle d,
  if e.return_value then return_events ++ e.event ∷ [] else return_events,
)

unfoldable pub process_ctrl_events :
    Kernel → List CtrlEventData → Demuxer × List EventData → Demuxer × List EventData
process_ctrl_events kernel [] s = s
process_ctrl_events kernel (e ∷ es) s =
    process_ctrl_events kernel es (process_ctrl_event kernel e s)

-- `raise_event`; `same_thread` tells whether the caller is the thread that waits.
unfoldable pub raise_event : Bool → ℕ → ℕ → ℕ → Bool → Demuxer → Demuxer × Bool
raise_event same_thread event_type io_handle user_data return_event d =
    let e : CtrlEventData = record {
      event = record { recv_event = event_type; io_handle = io_handle; user_data = user_data };
      return_value = return_event;
    } in
    if ltb event_type event_user && io_handle == invalid_io_handle
    then (d, false)
    else if same_thread
    then (record d { wait_events = d.wait_events ++ e ∷ [] }, true)
    else (record d { pipe = d.pipe ++ e ∷ [] }, true)

abbrev pub register_read_event : Bool → ℕ → ℕ → Bool → Demuxer → Demuxer × Bool
register_read_event same_thread fd user_data return_event d =
    raise_event same_thread event_register_read fd user_data return_event d

abbrev pub register_write_event : Bool → ℕ → ℕ → Bool → Demuxer → Demuxer × Bool
register_write_event same_thread fd user_data return_event d =
    raise_event same_thread event_register_write fd user_data return_event d

abbrev pub register_error_event : Bool → ℕ → ℕ → Bool → Demuxer → Demuxer × Bool
register_error_event same_thread fd user_data return_event d =
    raise_event same_thread event_register_error fd user_data return_event d

abbrev pub register_all_events : Bool → ℕ → ℕ → Bool → Demuxer → Demuxer × Bool
register_all_events same_thread fd user_data return_event d =
    raise_event same_thread event_register_all fd user_data return_event d

abbrev pub remove_read_event : Bool → ℕ → ℕ → Bool → Demuxer → Demuxer × Bool
remove_read_event same_thread fd user_data return_event d =
    raise_event same_thread event_remove_read fd user_data return_event d

abbrev pub remove_write_event : Bool → ℕ → ℕ → Bool → Demuxer → Demuxer × Bool
remove_write_event same_thread fd user_data return_event d =
    raise_event same_thread event_remove_write fd user_data return_event d

abbrev pub remove_error_event : Bool → ℕ → ℕ → Bool → Demuxer → Demuxer × Bool
remove_error_event same_thread fd user_data return_event d =
    raise_event same_thread event_remove_error fd user_data return_event d

abbrev pub remove_all_events : Bool → ℕ → ℕ → Bool → Demuxer → Demuxer × Bool
remove_all_events same_thread fd user_data return_event d =
    raise_event same_thread event_remove_all fd user_data return_event d

unfoldable pub raise_user_event : Bool → ℕ → ℕ → ℕ → Demuxer → Demuxer × Bool
raise_user_event same_thread event_type io_handle user_data d =
    if ltb event_type event_user
    then (d, false)
    else ((raise_event same_thread event_type io_handle user_data true d).0, true)

abbrev pub if_event : Bool → ℕ → ℕ → List EventData
if_event b event_type fd =
    if b then record { recv_event = event_type; io_handle = fd; user_data = 0 } ∷ [] else []

abbrev pub has_bit : ℕ → ℕ → Bool
has_bit mask bit = not (bit_and mask bit == 0)

-- The events of one handle that is ready; `peek` tells whether a byte can be read from it.
unfoldable pub ready_events : (ℕ → Bool) → ℕ → ℕ → List EventData
ready_events peek fd mask =
    if_event (has_bit mask epollin && peek fd) event_read fd
    ++ (if_event (has_bit mask epollout && not (has_bit mask epollerr)) event_write fd
        ++ (if_event (has_bit mask epollerr) event_error fd
            ++ if_event (has_bit mask epollrdhup || has_bit mask epollhup) event_close fd))

-- The number of events that one read of the pipe can take.
abbrev pub pipe_capacity : ℕ
pipe_capacity = 100000

-- The loop over what `epoll_wait` returned.
unfoldable pub ready_loop :
    Kernel → (ℕ → Bool) → List (ℕ × ℕ) → Demuxer × List EventData → Demuxer × List EventData
ready_loop kernel peek [] s = s
ready_loop kernel peek ((fd, mask) ∷ ready) (d, return_events) =
    let drained =
      process_ctrl_events kernel (take pipe_capacity d.pipe)
        (record d { pipe = drop pipe_capacity d.pipe }, return_events) in
    let from_pipe = ready_loop kernel peek ready drained in
    let from_handle =
      ready_loop kernel peek ready (d, return_events ++ ready_events peek fd mask) in
    if fd == d.pipe_ctrl_event_recv then from_pipe else from_handle

unfoldable pub process_queue : Kernel → Demuxer → Demuxer × List EventData
process_queue kernel d =
    let (after, events) = process_ctrl_events kernel d.wait_events (d, []) in
    (record after { wait_events = [] }, events)

abbrev pub poll :
    Kernel
    → (ℕ → Bool)
    → Option (List (ℕ × ℕ))
    → Demuxer × List EventData
    → Demuxer × List EventData
poll kernel peek none s = s
poll kernel peek (some ready) s = ready_loop kernel peek ready s

abbrev pub is_none : List EventData → Bool
is_none [] = true
is_none (e ∷ es) = false

-- `wait`: the queued events first, and `epoll_wait` only if none of them is to be returned. The
-- result of `epoll_wait` is `none` where it fails; the code that `wait` then returns is left out, as
-- its only caller does not read it.
unfoldable pub wait :
    Kernel → (ℕ → Bool) → Option (List (ℕ × ℕ)) → Demuxer → Demuxer × List EventData
wait kernel peek epoll d =
    let (after, events) = process_queue kernel d in
    let polled = poll kernel peek epoll (after, events) in
    if is_none events then polled else (after, events)

-- The constructor; an invalid handle stands for the pipe.
abbrev pub created : Demuxer
created = record {
  epoll_events_by_io_handle = [];
  wait_events = [];
  pipe = [];
  pipe_ctrl_event_recv = invalid_io_handle;
  log = [];
}

-- `init`: whether `epoll_create1` succeeds, and the reading end of the pipe if `pipe` does.
unfoldable pub init : Kernel → Bool → Option ℕ → Demuxer → Demuxer × Bool
init kernel epoll_created none d = (d, false)
init kernel epoll_created (some fd) d =
    if epoll_created
    then (add_epoll_event kernel event_read fd (record d { pipe_ctrl_event_recv = fd }), true)
    else (d, false)
