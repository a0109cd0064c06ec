-- ===== src/Session/Https/Phases.antt =====
-- The order of what leaves the handler of a session: HTTP first, frames after the upgrade.
use io_reactor.Prelude.{
  ℕ, Bool, true, false, ◌||◌, Option, none, some, List, [], ◌∷◌, ◌++◌, ◌>>=◌, if_true, if_false,
  ◌≡◌, refl, sym, ap, ◌∙◌, subst, arith, Bool-cases, Option-cases, inl, inr, lookup, remove,
}
use io_reactor.WebSocket.{WebSocket}
use io_reactor.Session.{Drained, waiting, failed, faulted, stuck, handle_input_ws}
use io_reactor.Message
use io_reactor.Message.{Parsed, throws, parsed}
use io_reactor.Message.Request.{Http1Request, parse_request}
use io_reactor.Message.Response.{Http1Response, is_websocket_upgrade}
use io_reactor.Session.Https.{
  Action, handles_request, handles_frames, handles_sent_response, handles_unsent_response,
  handles_sent_frame, handles_unsent_frame, handles_error, passes_response, passes_frame, Sending,
  sends_response, sends_frame, Https1Handler, Surroundings, created, note, next_stream_id,
  send_response, send_frame, send, send_all, call, take_request, call_frames, take_frames,
  handle_input, sent_frame, sent_http1, handle_sent, unsent_frame, unsent_http1, handle_sent_error,
  Event, comes_in, was_sent, was_not_sent, application_sends, on_event, run,
}
use io_reactor.Session.Https.Logs.{
  is_http, is_frame, is_upgrade, any, IsPhased, created-IsPhased, note-IsPhased, like-IsPhased,
  other, some_inj, pair-IsPhased,
}

module _ (s : Surroundings) where
  send-IsPhased : (x : Sending) (h : Https1Handler) → IsPhased h → IsPhased (send s x h)
  unfolding send send_response send_frame next_stream_id
  send-IsPhased (sends_response r) h k =
      pair-IsPhased h.websocket _ _ (λ up. note-IsPhased (handles_error 1) h other other k)
        (λ down.
          note-IsPhased (passes_response r.stream_id _) _ (λ e. down) other
            (like-IsPhased h _ refl refl k))
  send-IsPhased (sends_frame w) h k =
      pair-IsPhased h.websocket _ _
        (λ up.
          note-IsPhased (passes_frame _ w.buffer) _ other (λ e. up) (like-IsPhased h _ refl refl k))
        (λ down. note-IsPhased (handles_error 1) h other other k)

  send_all-IsPhased :
      (xs : List Sending) (h : Https1Handler) → IsPhased h → IsPhased (send_all s xs h)
  unfolding send_all
  send_all-IsPhased [] h k = k
  send_all-IsPhased (x ∷ xs) h k = send_all-IsPhased xs (send s x h) (send-IsPhased x h k)

  call-IsPhased :
      (a : Action) (h : Https1Handler)
      → (is_http a ≡ true → h.websocket ≡ false)
      → (is_frame a ≡ true → h.websocket ≡ true)
      → IsPhased h
      → IsPhased (call s a h)
  unfolding call
  call-IsPhased a h f g k = send_all-IsPhased (s.sends a) (note a h) (note-IsPhased a h f g k)

  -- An action that is neither HTTP nor a frame.
  telling-IsPhased :
      (a : Action) (h : Https1Handler)
      → is_http a ≡ false
      → is_frame a ≡ false
      → IsPhased h
      → IsPhased (call s a h)
  telling-IsPhased a h e f k =
      call-IsPhased a h (λ t. absurd (ground (arith, e, t))) (λ t. absurd (ground (arith, f, t))) k

  take_request-IsPhased :
      (whole : List ℕ) (o : Parsed Http1Request) (h g : Https1Handler)
      → h.websocket ≡ false
      → IsPhased h
      → take_request s whole o h ≡ some g
      → IsPhased g
  unfolding take_request next_stream_id
  take_request-IsPhased whole Message.incomplete h g w k e =
      subst IsPhased (some_inj _ g e) (like-IsPhased h _ refl refl k)
  take_request-IsPhased whole Message.stuck h g w k e = absurd (ground (arith, e))
  take_request-IsPhased whole (throws x) h g w k e =
      subst IsPhased (some_inj _ g e)
        (telling-IsPhased (handles_error 22) _ refl refl (like-IsPhased h _ refl refl k))
  take_request-IsPhased whole (parsed r) h g w k e =
      subst IsPhased (some_inj _ g e)
        (call-IsPhased (handles_request _) _ (λ t. w) other (like-IsPhased h _ refl refl k))

  call_frames-IsPhased :
      (ws : List WebSocket) (h : Https1Handler)
      → h.websocket ≡ true
      → IsPhased h
      → IsPhased (call_frames s ws h)
  call_frames-IsPhased [] h w k = k
  call_frames-IsPhased (x ∷ ws) h w k = call-IsPhased (handles_frames (x ∷ ws)) h other (λ t. w) k

  take_frames-IsPhased :
      (d : Drained) (h g : Https1Handler)
      → h.websocket ≡ true
      → IsPhased h
      → take_frames s d h ≡ some g
      → IsPhased g
  unfolding take_frames
  take_frames-IsPhased (waiting ws rest) h g w k e =
      subst IsPhased (some_inj _ g e) (call_frames-IsPhased ws _ w (like-IsPhased h _ refl refl k))
  take_frames-IsPhased (failed ws x) h g w k e = subst IsPhased (some_inj _ g e) (
      like-IsPhased (call s (handles_error 22) (call_frames s ws h)) _ refl refl
        (telling-IsPhased (handles_error 22) _ refl refl (call_frames-IsPhased ws h w k)))
  take_frames-IsPhased faulted h g w k e = absurd (ground (arith, e))
  take_frames-IsPhased stuck h g w k e = absurd (ground (arith, e))

  handle_input-IsPhased :
      (bytes : List ℕ) (h g : Https1Handler)
      → IsPhased h
      → handle_input s bytes h ≡ some g
      → IsPhased g
  unfolding handle_input
  handle_input-IsPhased bytes h g k e = elim (Bool-cases h.websocket) [
    | inl up ↦
        take_frames-IsPhased (handle_input_ws h.buffer_websocket bytes) h g up k
          (sym (if_true h.websocket up _ _) ∙ e)
    | inr down ↦
        take_request-IsPhased (h.buffer_http1 ++ bytes) (parse_request (h.buffer_http1 ++ bytes)) h
          g down k (sym (if_false h.websocket down _ _) ∙ e)
  ]

  -- The state changes before the application is told.
  upgrade-IsPhased :
      (r : Http1Response) (h : Https1Handler)
      → IsPhased h
      → IsPhased (
          note
            (handles_sent_response r)
            (record h { websocket = is_websocket_upgrade r || h.websocket }))
  upgrade-IsPhased r h k = record {
    in_order = ground (arith, k.in_order);
    no_frame = λ e. ground (arith, e, k.no_frame);
    upgraded = λ e. ground (arith, e, k.upgraded);
  }

  sent_frame-IsPhased :
      (id : ℕ) (o : Option WebSocket) (h : Https1Handler)
      → IsPhased h
      → IsPhased (sent_frame s id o h)
  unfolding sent_frame
  sent_frame-IsPhased id none h k = k
  sent_frame-IsPhased id (some w) h k =
      telling-IsPhased (handles_sent_frame id w) _ refl refl (like-IsPhased h _ refl refl k)

  sent_http1-IsPhased :
      (id : ℕ) (o : Option Http1Response) (h : Https1Handler)
      → IsPhased h
      → IsPhased (sent_http1 s id o h)
  unfolding sent_http1 call
  sent_http1-IsPhased id none h k = sent_frame-IsPhased id (lookup id h.sent_res_ws) h k
  sent_http1-IsPhased id (some r) h k = send_all-IsPhased (s.sends (handles_sent_response r)) _ (
      like-IsPhased
        (note (handles_sent_response r)
          (record h { websocket = is_websocket_upgrade r || h.websocket }))
        _ refl refl (upgrade-IsPhased r h k))

  unsent_frame-IsPhased :
      (id : ℕ) (o : Option WebSocket) (h : Https1Handler)
      → IsPhased h
      → IsPhased (unsent_frame s id o h)
  unfolding unsent_frame
  unsent_frame-IsPhased id none h k = k
  unsent_frame-IsPhased id (some w) h k =
      telling-IsPhased (handles_unsent_frame id w) _ refl refl (like-IsPhased h _ refl refl k)

  -- What was told stays in the log.
  send-keeps_upgrade :
      (x : Sending) (h : Https1Handler)
      → any is_upgrade h.log ≡ true
      → any is_upgrade (send s x h).log ≡ true
  unfolding send send_response send_frame next_stream_id
  send-keeps_upgrade (sends_response r) h e = ground (arith, e)
  send-keeps_upgrade (sends_frame w) h e = ground (arith, e)

  send_all-keeps_upgrade :
      (xs : List Sending) (h : Https1Handler)
      → any is_upgrade h.log ≡ true
      → any is_upgrade (send_all s xs h).log ≡ true
  unfolding send_all
  send_all-keeps_upgrade [] h e = e
  send_all-keeps_upgrade (x ∷ xs) h e =
      send_all-keeps_upgrade xs (send s x h) (send-keeps_upgrade x h e)

  -- The state changes after the application was told.
  late-IsPhased :
      (b : Bool) (h : Https1Handler)
      → (b ≡ true → any is_upgrade h.log ≡ true)
      → IsPhased h
      → IsPhased (record h { websocket = b || h.websocket })
  late-IsPhased b h f k = record {
    in_order = k.in_order;
    no_frame = λ e. ground (arith, e, k.no_frame);
    upgraded = λ e. ground (arith, e, f, k.upgraded);
  }

  unsent_http1-IsPhased :
      (id : ℕ) (o : Option Http1Response) (h : Https1Handler)
      → IsPhased h
      → IsPhased (unsent_http1 s id o h)
  unfolding unsent_http1 call
  unsent_http1-IsPhased id none h k = unsent_frame-IsPhased id (lookup id h.sent_res_ws) h k
  unsent_http1-IsPhased id (some r) h k =
      let g = record h { sent_res_http1 = remove id h.sent_res_http1 } in
      late-IsPhased (is_websocket_upgrade r) (call s (handles_unsent_response r) g)
        (λ up.
          send_all-keeps_upgrade (s.sends (handles_unsent_response r))
            (note (handles_unsent_response r) g) (ground (arith, up)))
        (telling-IsPhased (handles_unsent_response r) g refl refl (like-IsPhased h _ refl refl k))

  on_event-IsPhased :
      (e : Event) (h g : Https1Handler) → IsPhased h → on_event s e h ≡ some g → IsPhased g
  unfolding on_event handle_sent handle_sent_error
  on_event-IsPhased (comes_in bytes) h g k e = handle_input-IsPhased bytes h g k e
  on_event-IsPhased (was_sent id) h g k e =
      subst IsPhased (some_inj _ g e) (sent_http1-IsPhased id (lookup id h.sent_res_http1) h k)
  on_event-IsPhased (was_not_sent id) h g k e =
      subst IsPhased (some_inj _ g e) (unsent_http1-IsPhased id (lookup id h.sent_res_http1) h k)
  on_event-IsPhased (application_sends x) h g k e =
      subst IsPhased (some_inj _ g e) (send-IsPhased x h k)

  run-IsPhased_from :
      (es : List Event) (h g : Https1Handler) → IsPhased h → run s es h ≡ some g → IsPhased g
  unfolding run
  run-IsPhased_from [] h g k e = subst IsPhased (some_inj h g e) k
  run-IsPhased_from (x ∷ es) h g k e = elim (Option-cases (on_event s x h)) [
    | inl gone ↦ absurd (ground (arith, e, gone))
    | inr (m, there) ↦
        run-IsPhased_from es m g (on_event-IsPhased x h m k there)
          (sym (ap (λ o. o >>= run s es) there) ∙ e)
  ]

  -- However bytes arrive, packets end and the application sends, also from within its callbacks: no
  -- request goes up and no response goes down once a frame did, no frame does before the application
  -- was told the end of the answer to an upgrade, and in the WebSocket state it was told.
  pub run-IsPhased : (es : List Event) (g : Https1Handler) → run s es created ≡ some g → IsPhased g
  run-IsPhased es g e = run-IsPhased_from es created g created-IsPhased e
