-- ===== src/Reactor/Safety.antt =====
-- A timer never holds a handler that the reactor has let go.
use io_reactor.Prelude.{
  ℕ, ◌+◌, ◌%◌, ◌^◌, Bool, true, false, not, ◌&&◌, Option, none, some, ltb, ◌==◌, ==_iff,
  if◌then◌else◌, lookup, remove, lookup-insert, lookup-remove, ◌≡◌, refl, sym, ap, ◌∙◌, subst,
  arith, Bool-cases, Option-cases, inl, inr, ◌⊎◌,
}
use io_reactor.Demuxer.{
  remove_write_event, event_read, event_write, event_error, EventData, event_remove_all,
  event_register_read, event_close, event_user,
}
use io_reactor.Timer.{is_in, add, register_timeout, remove_timeout}
use io_reactor.Timer.Agreement.{
  IsConsistent, deadline, register_timeout-IsConsistent, register_timeout-deadline,
  remove_timeout-IsConsistent, remove_timeout-deadline,
}
use io_reactor.Reactor.{
  Callback, Reactor, World, queue, call_back, reactor_event_found, dispatch_reactor_event,
  io_event_found, dispatch_demuxer_event_io, tell, emplace, registered, removed,
  dispatch_demuxer_event_result, dispatch_event, event_stop, event_timeout_add, event_timeout_del,
}
use io_reactor.Reactor.Same.{IsSame, call_back-IsSame}

-- The reactor has the handler under some handle.
abbrev pub IsHandled : ℕ → Reactor → Type 0
IsHandled o r = (fd : ℕ) × (lookup fd r.handlers ≡ some o)

pub record IsSafe (r : Reactor) : Type 0 where
  pub consistent : IsConsistent r.timer
  pub timed : (o t : ℕ) → deadline r.timer o ≡ some t → IsHandled o r

fields-IsSafe : (g h : Reactor) → g.handlers ≡ h.handlers → g.timer ≡ h.timer → IsSafe h → IsSafe g
fields-IsSafe g h p q k = record {
  consistent = subst IsConsistent (sym q) k.consistent;
  timed = λ o t e.
      let (fd, found) = k.timed o t (ap (λ m. deadline m o) (sym q) ∙ e) in
      (fd, ap (lookup fd) p ∙ found);
}

same-IsSafe : {g h : Reactor} → IsSame g h → IsSafe h → IsSafe g
same-IsSafe {g} {h} p k = fields-IsSafe g h p.handlers p.timer k

call_back-IsSafe : (w : World) (c : Callback) (r : Reactor) → IsSafe r → IsSafe (call_back w c r)
call_back-IsSafe w c r k = same-IsSafe (call_back-IsSame w c r) k

tell-IsSafe : (w : World) (h : ℕ) (c : Callback) (r : Reactor) → IsSafe r → IsSafe (tell w h c r)
tell-IsSafe w h c r k =
    elim (Bool-cases (not (h == r.reactor_handler) && not (r.reactor_handler == 0))) [
      | inl told ↦ rw told (call_back-IsSafe w c r k)
      | inr quiet ↦ rw quiet k
    ]

if-IsSafe :
    (b : Bool) (g h : Reactor)
    → IsSafe g
    → IsSafe h
    → let r : Reactor = if b then g else h in IsSafe r
if-IsSafe true g h p q = p
if-IsSafe false g h p q = q

-- The timer of a handler is set.
set-IsSafe :
    (now later msec fd handler : ℕ) (r : Reactor)
    → lookup fd r.handlers ≡ some handler
    → IsSafe r
    → IsSafe (record r { timer = (register_timeout now later msec handler r.timer).0 })
set-IsSafe now later msec fd handler r found k = record {
  consistent = register_timeout-IsConsistent now later msec handler r.timer k.consistent;
  timed = λ o t e. elim (Bool-cases (handler == o)) [
    | inl same ↦ (fd, found ∙ ap some ((==_iff handler o).0 same))
    | inr other ↦
        k.timed o t
          (ground (arith, other, e, register_timeout-deadline now later msec handler o r.timer))
  ];
}

unset-IsSafe :
    (handler : ℕ) (r : Reactor)
    → IsSafe r
    → IsSafe (record r { timer = (remove_timeout handler r.timer).0 })
unset-IsSafe handler r k = record {
  consistent = remove_timeout-IsConsistent handler r.timer k.consistent;
  timed = λ o t e. k.timed o t (ground (arith, e, remove_timeout-deadline handler o r.timer));
}

dispatch_reactor_event-IsSafe :
    (now later : ℕ) (e : EventData) (r : Reactor)
    → IsSafe r
    → IsSafe (dispatch_reactor_event now later e r).0
unfolding dispatch_reactor_event
dispatch_reactor_event-IsSafe now later e r k = elim (Bool-cases (ltb e.recv_event event_user)) [
  | inl below ↦ rw below k
  | inr user ↦ rw user (elim (Bool-cases (e.recv_event == event_stop)) [
    | inl stopped ↦ rw stopped k
    | inr timeout ↦ rw timeout (elim (Option-cases (lookup e.io_handle r.handlers)) [
      | inl absent ↦ rw (absent, reactor_event_found) k
      | inr (handler, found) ↦
          rw (found, reactor_event_found)
            (if-IsSafe (e.recv_event == event_timeout_add) _ _
              (set-IsSafe now later (e.user_data % 2 ^ 32) e.io_handle handler r found k)
              (if-IsSafe (e.recv_event == event_timeout_del) _ _ (unset-IsSafe handler r k) k))
    ])
  ])
]

io_event_found-IsSafe :
    (w : World) (e : EventData) (o : Option ℕ) (r : Reactor)
    → IsSafe r
    → IsSafe (io_event_found w e o r)
io_event_found-IsSafe w e none r k = fields-IsSafe _ r refl refl k
io_event_found-IsSafe w e (some handler) r k =
    if-IsSafe (e.recv_event == event_read) _ _ (call_back-IsSafe w _ r k) (
      if-IsSafe (e.recv_event == event_write) _ _
        (call_back-IsSafe w _ (queue (remove_write_event true (w.io_handle handler) 0 false) r).0
          (fields-IsSafe _ r refl refl k))
        (if-IsSafe (e.recv_event == event_error) _ _ (call_back-IsSafe w _ r k) (
          if-IsSafe (e.recv_event == event_close) _ _
            (if-IsSafe (is_in (w.io_handle handler) r.handle_close_call) _ _ k (
              call_back-IsSafe w _
                (record r { handle_close_call = add (w.io_handle handler) r.handle_close_call })
                (fields-IsSafe _ r refl refl k)))
            k)))

dispatch_demuxer_event_io-IsSafe :
    (w : World) (e : EventData) (r : Reactor) → IsSafe r → IsSafe (dispatch_demuxer_event_io w e r)
unfolding dispatch_demuxer_event_io
dispatch_demuxer_event_io-IsSafe w e r k =
    if-IsSafe (ltb event_close e.recv_event) r _ k
      (io_event_found-IsSafe w e (lookup e.io_handle r.handlers) r k)

emplace-IsSafe :
    (fd handler : ℕ) (o : Option ℕ) (r : Reactor)
    → lookup fd r.handlers ≡ o
    → IsSafe r
    → IsSafe (emplace fd handler o r)
emplace-IsSafe fd handler none r free k = record {
  consistent = k.consistent;
  timed = λ o t e.
      let (g, found) = k.timed o t e in
      (g, ground (arith, lookup-insert fd g handler r.handlers, free, found));
}
emplace-IsSafe fd handler (some other) r found k = k

registered-IsSafe :
    (w : World) (fd handler : ℕ) (r : Reactor) → IsSafe r → IsSafe (registered w fd handler r)
unfolding registered
registered-IsSafe w fd handler r k =
    let counted : Reactor = record r { handler_count = (r.handler_count + 1) % 2 ^ 64 } in
    tell-IsSafe w handler _ _ (
      call_back-IsSafe w _ (emplace fd handler (lookup fd r.handlers) counted) (
        emplace-IsSafe fd handler (lookup fd r.handlers) counted refl
          (fields-IsSafe counted r refl refl k)))

let_go-IsSafe :
    (fd handler : ℕ) (r g : Reactor)
    → lookup fd r.handlers ≡ some handler
    → g.handlers ≡ remove fd r.handlers
    → g.timer ≡ (remove_timeout handler r.timer).0
    → IsSafe r
    → IsSafe g
let_go-IsSafe fd handler r g found handlers timer k =
    let without : Reactor = record r {
      handlers = remove fd r.handlers;
      timer = (remove_timeout handler r.timer).0;
    } in
    fields-IsSafe g without handlers timer (record {
      consistent = remove_timeout-IsConsistent handler r.timer k.consistent;
      timed = λ o t e.
          let (l, here) =
            k.timed o t (ground (arith, e, remove_timeout-deadline handler o r.timer)) in
          (
            l,
            ground (
              arith,
              e,
              remove_timeout-deadline handler o r.timer,
              lookup-remove fd l r.handlers,
              here,
              found,
            ),
          );
    })

removed-IsSafe :
    (w : World) (fd handler : ℕ) (o : Option ℕ) (r : Reactor)
    → lookup fd r.handlers ≡ o
    → ((h : ℕ) → o ≡ some h → handler ≡ h)
    → IsSafe r
    → IsSafe (removed w fd handler o r)
unfolding removed
removed-IsSafe w fd handler none r e honest k = k
removed-IsSafe w fd handler (some h) r e honest k = tell-IsSafe w handler _ _ (
    call_back-IsSafe w _ _
      (let_go-IsSafe fd handler r _ (e ∙ ap some (sym (honest h refl))) refl refl k))

dispatch_demuxer_event_result-IsSafe :
    (w : World) (e : EventData) (r : Reactor)
    → ((h : ℕ)
        → e.recv_event ≡ event_remove_all
        → lookup e.io_handle r.handlers ≡ some h
        → (e.user_data ≡ 0) ⊎ (e.user_data ≡ h))
    → IsSafe r
    → IsSafe (dispatch_demuxer_event_result w e r)
unfolding dispatch_demuxer_event_result
dispatch_demuxer_event_result-IsSafe w e r honest k =
    if-IsSafe (not (ltb event_close e.recv_event)) r _ k (elim (Bool-cases (e.user_data == 0)) [
      | inl null ↦ rw null k
      | inr some_data ↦ rw some_data (
          if-IsSafe (e.recv_event == event_register_read) _ _
            (registered-IsSafe w e.io_handle e.user_data r k)
            (elim (Bool-cases (e.recv_event == event_remove_all)) [
              | inr other ↦ rw other k
              | inl removal ↦ rw removal (
                  removed-IsSafe w e.io_handle e.user_data (lookup e.io_handle r.handlers) r refl
                    (λ h found.
                      elim (honest h ((==_iff e.recv_event event_remove_all).0 removal) found) [
                        | inl null ↦ absurd (ground (arith, null, some_data))
                        | inr same ↦ same
                      ])
                    k)
            ]))
    ])

removal_passes :
    (w : World) (now later : ℕ) (e : EventData) (r : Reactor)
    → e.recv_event ≡ event_remove_all
    → dispatch_demuxer_event_io w e (dispatch_reactor_event now later e r).0 ≡ r
unfolding dispatch_demuxer_event_io dispatch_reactor_event
removal_passes w now later e r removal = ground (arith, removal)

-- Dispatching an event, whatever the handlers ask from within their callbacks, keeps the timer
-- consistent and every object of the timer one of the reactor's handlers, if the event of a removal
-- carries the handler that the reactor has under its handle, or none.
pub dispatch_event-IsSafe :
    (w : World) (now later : ℕ) (e : EventData) (r : Reactor)
    → ((h : ℕ)
        → e.recv_event ≡ event_remove_all
        → lookup e.io_handle r.handlers ≡ some h
        → (e.user_data ≡ 0) ⊎ (e.user_data ≡ h))
    → IsSafe r
    → IsSafe (dispatch_event w now later e r).0
unfolding dispatch_event
dispatch_event-IsSafe w now later e r honest k =
    let after = (dispatch_reactor_event now later e r).0 in
    dispatch_demuxer_event_result-IsSafe w e (dispatch_demuxer_event_io w e after)
      (λ h removal found. honest h removal (
        subst (λ s. lookup e.io_handle s.handlers ≡ some h) (removal_passes w now later e r removal)
          found))
      (dispatch_demuxer_event_io-IsSafe w e after (dispatch_reactor_event-IsSafe now later e r k))
