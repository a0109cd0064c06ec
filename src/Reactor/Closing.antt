-- ===== src/Reactor/Closing.antt =====
-- The events of a closed connection.
use io_reactor.Prelude.{
  ℕ, true, false, some, lookup, ◌≡◌, refl, sym, ap, ◌∙◌, arith, Bool-cases, inl, inr,
}
use io_reactor.Demuxer.{EventData, event_close}
use io_reactor.Timer.{is_in, add}
use io_reactor.Timer.Maps.{is_in-add}
use io_reactor.Reactor.{
  handle_close, Reactor, World, call_back, io_event_found, dispatch_demuxer_event_io,
}
use io_reactor.Reactor.Same.{call_back-IsSame}

marked_close :
    (w : World) (e : EventData) (handler : ℕ) (r : Reactor)
    → e.recv_event ≡ event_close
    → lookup e.io_handle r.handlers ≡ some handler
    → is_in (w.io_handle handler) r.handle_close_call ≡ true
    → dispatch_demuxer_event_io w e r ≡ r
unfolding dispatch_demuxer_event_io
marked_close w e handler r closing found marked =
    rw (closing, found, io_event_found, closing, marked) refl

unmarked_close :
    (w : World) (e : EventData) (handler : ℕ) (r : Reactor)
    → e.recv_event ≡ event_close
    → lookup e.io_handle r.handlers ≡ some handler
    → is_in (w.io_handle handler) r.handle_close_call ≡ false
    → dispatch_demuxer_event_io w e r
      ≡ call_back w
          (handle_close handler)
          (record r { handle_close_call = add (w.io_handle handler) r.handle_close_call })
unfolding dispatch_demuxer_event_io
unmarked_close w e handler r closing found unmarked =
    rw (closing, found, io_event_found, closing, unmarked) refl

-- A handler is told once that its connection is closed: a second close event for the handle of a
-- registered handler changes nothing, whatever the handler asked from within the first.
pub close_event_once :
    (w : World) (e : EventData) (handler : ℕ) (r : Reactor)
    → e.recv_event ≡ event_close
    → lookup e.io_handle r.handlers ≡ some handler
    → dispatch_demuxer_event_io w e (dispatch_demuxer_event_io w e r)
      ≡ dispatch_demuxer_event_io w e r
close_event_once w e handler r closing found =
    let fd = w.io_handle handler in
    elim (Bool-cases (is_in fd r.handle_close_call)) [
      | inl marked ↦
          ap (dispatch_demuxer_event_io w e) (marked_close w e handler r closing found marked)
      | inr unmarked ↦
          let told : Reactor = record r { handle_close_call = add fd r.handle_close_call } in
          let same = call_back-IsSame w (handle_close handler) told in
          let once = call_back w (handle_close handler) told in
          let step = unmarked_close w e handler r closing found unmarked in
          ap (dispatch_demuxer_event_io w e) step
          ∙ marked_close w e handler once closing (ap (lookup e.io_handle) same.handlers ∙ found)
              (ap (is_in fd) same.closing ∙ ground (arith, is_in-add fd fd r.handle_close_call))
          ∙ sym step
    ]
