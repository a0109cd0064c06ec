-- ===== src/Demuxer/Listening.antt =====
-- What `init` prepares: other threads' events reach the thread that waits by the pipe.
use Prim.Native.Nat.{bit_or}
use io_reactor.Prelude.{
  ℕ, Bool, true, false, ◌&&◌, ltb, none, some, [], ◌∷◌, ◌≡◌, refl, arith, ◌==◌, if◌then◌else◌,
  lookup,
}
use io_reactor.Demuxer.{
  ctl_add, Demuxer, Kernel, init_epoll_event_value, epollin, add_epoll_event, EventData,
  process_ctrl_event, process_ctrl_events, process_queue, wait, raise_event, ready_loop, event_user,
  invalid_io_handle, created, init,
}
use io_reactor.Demuxer.Interest.{interest}

-- A demuxer that `init` prepared, with a kernel that takes the reading end of the pipe: the kernel
-- watches the pipe for bytes to read, and nothing else. An event that another thread raises and wants
-- back, with a handle that is valid or of a user's type, is what a wait returns in which epoll says
-- that the pipe can be read.
pub init-listens :
    (kernel : Kernel) (peek : ℕ → Bool) (fd : ℕ) (event : EventData)
    → kernel (ctl_add fd (bit_or init_epoll_event_value epollin)) ≡ true
    → ltb event.recv_event event_user && event.io_handle == invalid_io_handle ≡ false
    → let d : Demuxer = (init kernel true (some fd) created).0 in
      let raised : Demuxer =
        (raise_event false event.recv_event event.io_handle event.user_data true d).0 in
      ((init kernel true (some fd) created).1 ≡ true)
      × ((k : ℕ)
          → interest d.log k
            ≡ (if fd == k then some (bit_or init_epoll_event_value epollin) else none))
      × ((wait kernel peek (some ((fd, epollin) ∷ [])) raised).1 ≡ event ∷ [])
unfolding init add_epoll_event interest wait process_queue process_ctrl_events process_ctrl_event
    raise_event ready_loop lookup
init-listens kernel peek fd event taken valid =
    let here : fd == fd ≡ true = ground arith in
    (refl, λ k. rw taken refl, rw (taken, valid, here) refl)
