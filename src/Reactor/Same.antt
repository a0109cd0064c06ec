-- ===== src/Reactor/Same.antt =====
-- Callbacks and requests reach the handlers, the timer and the closed handles only through the queue.
use io_reactor.Prelude.{Bool, true, false, List, [], ◌∷◌, ◌≡◌, refl, ◌∙◌, Bool-cases, inl, inr}
use io_reactor.Demuxer.{
  register_read_event, remove_all_events, register_write_event, raise_user_event, Demuxer,
}
use io_reactor.Reactor.{
  Callback, Request, requests_register, requests_remove, requests_writable, requests_unset_timeout,
  requests_set_timeout, requests_stop, Reactor, World, unless_stopped, request, perform, call_back,
  event_timeout_add, event_timeout_del,
}

-- The handlers, the timer and the closed handles are those of the other reactor.
pub record IsSame (g h : Reactor) : Type 0 where
  pub handlers : g.handlers ≡ h.handlers
  pub timer : g.timer ≡ h.timer
  pub closing : g.handle_close_call ≡ h.handle_close_call

IsSame-trans : {f g h : Reactor} → IsSame f g → IsSame g h → IsSame f h
IsSame-trans p q = record {
  handlers = p.handlers ∙ q.handlers;
  timer = p.timer ∙ q.timer;
  closing = p.closing ∙ q.closing;
}

unless_stopped-IsSame :
    (f : Demuxer → Demuxer × Bool) (r : Reactor) → IsSame (unless_stopped f r).0 r
unless_stopped-IsSame f r = elim (Bool-cases r.stop) [
  | inl stopped ↦ rw stopped (record { handlers = refl; timer = refl; closing = refl })
  | inr running ↦ rw running (record { handlers = refl; timer = refl; closing = refl })
]

request-IsSame : (w : World) (q : Request) (r : Reactor) → IsSame (request w q r) r
request-IsSame w (requests_register handler fd) r =
    unless_stopped-IsSame (register_read_event true fd handler true) r
request-IsSame w (requests_remove handler) r =
    unless_stopped-IsSame (remove_all_events true (w.io_handle handler) handler true) r
request-IsSame w (requests_writable handler) r =
    unless_stopped-IsSame (register_write_event true (w.io_handle handler) handler false) r
request-IsSame w (requests_unset_timeout handler) r =
    unless_stopped-IsSame (raise_user_event true event_timeout_del (w.io_handle handler) 0) r
request-IsSame w (requests_set_timeout handler msec) r =
    unless_stopped-IsSame (raise_user_event true event_timeout_add (w.io_handle handler) msec) r
request-IsSame w requests_stop r = record { handlers = refl; timer = refl; closing = refl }

perform-IsSame : (w : World) (qs : List Request) (r : Reactor) → IsSame (perform w qs r) r
unfolding perform
perform-IsSame w [] r = record { handlers = refl; timer = refl; closing = refl }
perform-IsSame w (q ∷ qs) r =
    IsSame-trans (perform-IsSame w qs (request w q r)) (request-IsSame w q r)

pub call_back-IsSame : (w : World) (c : Callback) (r : Reactor) → IsSame (call_back w c r) r
call_back-IsSame w c r =
    let same = perform-IsSame w (w.requests c) (record r { log = c ∷ r.log }) in
    record { handlers = same.handlers; timer = same.timer; closing = same.closing }
