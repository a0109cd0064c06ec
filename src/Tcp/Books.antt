-- ===== src/Tcp/Books.antt =====
-- What a log says was accepted, reported and transmitted, and how the handler's operations keep it
-- in step with the two buffers. `Books infos unsent h` leaves open which messages are being sent and
-- which of their bytes are left, so that it also holds within a loop over them.
use mathlib.Core.List.{map-append}
use io_reactor.Prelude.{
  ℕ, ◌+◌, Bool, true, false, List, [], ◌∷◌, ◌++◌, map, ◌≡◌, refl, sym, ap, ◌∙◌, arith, append-nil,
  append_assoc, length, length-append, not, ◌||◌, if◌then◌else◌,
}
use io_reactor.Tcp.{
  SendBufferInfo, Event, accepted, transmitted, session_sent, register_writable, Handler, Call,
  calls_send, calls_close, calls_set_output, emit, is_open, is_some, queue, shutdown_read, send,
  close, set_output_event, perform,
}

abbrev pub accepted_id : Event → List ℕ
accepted_id (accepted i bytes) = i ∷ []
accepted_id _ = []

abbrev pub accepted_bytes : Event → List ℕ
accepted_bytes (accepted i bytes) = bytes
accepted_bytes _ = []

abbrev pub reported_id : Event → List ℕ
reported_id (session_sent i bytes) = i ∷ []
reported_id _ = []

abbrev pub transmitted_bytes : Event → List ℕ
transmitted_bytes (transmitted bytes) = bytes
transmitted_bytes _ = []

abbrev pub collect : (Event → List ℕ) → List Event → List ℕ
collect f [] = []
collect f (e ∷ es) = f e ++ collect f es

pub collect-emit :
    (f : Event → List ℕ) (es : List Event) (e : Event)
    → collect f (es ++ e ∷ []) ≡ collect f es ++ f e
collect-emit f [] e = append-nil (f e)
collect-emit f (x ∷ es) e =
    ap (◌++◌ (f x)) (collect-emit f es e) ∙ sym (append_assoc (f x) (collect f es) (f e))

abbrev pub ids : List SendBufferInfo → List ℕ
ids = map (λ i. i.stream_id)

abbrev pub total : List SendBufferInfo → ℕ
total [] = 0
total (i ∷ is) = i.sent_remain + total is

pub total-append : (a b : List SendBufferInfo) → total (a ++ b) ≡ total a + total b
total-append [] b = omega arith
total-append (i ∷ a) b = omega (arith, total-append a b)

pub record Books (infos : List SendBufferInfo) (unsent : List ℕ) (h : Handler) : Type 0 where
  -- the messages that were accepted: those reported, those being sent, those that wait
  pub messages :
      collect accepted_id h.log ≡ collect reported_id h.log ++ (ids infos ++ ids h.prepare_info)
  -- the bytes that were accepted: those transmitted, those being sent, those that wait
  pub bytes :
      collect accepted_bytes h.log ≡ collect transmitted_bytes h.log ++ (unsent ++ h.prepare)
  pub prepared : total h.prepare_info ≡ length h.prepare

-- An event that no account counts.
abbrev pub IsQuiet : Event → Type 0
IsQuiet e =
    (accepted_id e ≡ [])
    × (accepted_bytes e ≡ [])
    × (reported_id e ≡ [])
    × (transmitted_bytes e ≡ [])

module _ (infos : List SendBufferInfo) (unsent : List ℕ) where
  pub emit-Books :
      (e : Event) (h : Handler) → IsQuiet e → Books infos unsent h → Books infos unsent (emit e h)
  emit-Books e h (a, b, r, t) k = record {
    messages = simp (collect-emit, a, r, append-nil) k.messages;
    bytes = simp (collect-emit, b, t, append-nil) k.bytes;
    prepared = k.prepared;
  }

  queue-Books :
      (i : ℕ) (bs : List ℕ) (h : Handler) → Books infos unsent h → Books infos unsent (queue i bs h)
  unfolding queue
  queue-Books i bs h k = record {
    messages = simp collect-emit (
        simp (append-nil, map-append)
          (ap (λ l. l ++ i ∷ []) k.messages
            ∙ append_assoc (collect reported_id h.log) (ids infos ++ ids h.prepare_info) (i ∷ [])
            ∙ ap (◌++◌ (collect reported_id h.log))
                (append_assoc (ids infos) (ids h.prepare_info) (i ∷ []))));
    bytes = simp collect-emit (
        simp append-nil (
          ap (λ l. l ++ bs) k.bytes
          ∙ append_assoc (collect transmitted_bytes h.log) (unsent ++ h.prepare) bs
          ∙ ap (◌++◌ (collect transmitted_bytes h.log)) (append_assoc unsent h.prepare bs)));
    prepared =
        let info : SendBufferInfo = record {
          stream_id = i;
          begin = length h.prepare;
          size = length bs;
          sent_remain = length bs;
        } in
        omega
          (arith, k.prepared, total-append h.prepare_info (info ∷ []), length-append h.prepare bs);
  }

  -- A guarded operation keeps the books if its effect does.
  if-Books :
      (b : Bool) (r s : Handler × Bool)
      → Books infos unsent r.0
      → Books infos unsent s.0
      → let t : Handler × Bool = if b then r else s in Books infos unsent t.0
  if-Books true r s hr hs = hr
  if-Books false r s hr hs = hs

  pub send-Books :
      (i : ℕ) (bs : List ℕ) (h : Handler)
      → Books infos unsent h
      → Books infos unsent (send i bs h).0
  unfolding send
  send-Books i bs h k = if-Books (is_open h) _ _ (queue-Books i bs h k) k

  pub same-Books :
      (g h : Handler)
      → g.log ≡ h.log
      → g.prepare ≡ h.prepare
      → g.prepare_info ≡ h.prepare_info
      → Books infos unsent h
      → Books infos unsent g
  same-Books g h l p i k = record {
    messages = rw (l, i) k.messages;
    bytes = rw (l, p) k.bytes;
    prepared = rw (i, p) k.prepared;
  }

  pub close-Books : (h : Handler) → Books infos unsent h → Books infos unsent (close h).0
  unfolding close
  close-Books h k = if-Books (h.close || not (is_some h.io_handle)) _ _ k (
      emit-Books shutdown_read _ (refl, refl, refl, refl)
        (same-Books (record h { close = true }) h refl refl refl k))

  pub set_output_event-Books :
      (registered : Bool) (h : Handler)
      → Books infos unsent h
      → Books infos unsent (set_output_event registered h).0
  unfolding set_output_event
  set_output_event-Books registered h k =
      if-Books (is_open h) _ _
        (if-Books h.set_output_event (h, false) _ k
          (emit-Books register_writable _ (refl, refl, refl, refl)
            (same-Books (record h { set_output_event = true }) h refl refl refl k)))
        k

  pub perform-Books :
      (calls : List Call) (h : Handler)
      → Books infos unsent h
      → Books infos unsent (perform calls h)
  unfolding perform
  perform-Books [] h k = k
  perform-Books (calls_send i bs ∷ calls) h k =
      perform-Books calls (send i bs h).0 (send-Books i bs h k)
  perform-Books (calls_close ∷ calls) h k = perform-Books calls (close h).0 (close-Books h k)
  perform-Books (calls_set_output ∷ calls) h k =
      perform-Books calls (set_output_event true h).0 (set_output_event-Books true h k)

-- No call changes what is being sent.
pub record SameSending (g h : Handler) : Type 0 where
  pub buffer : g.send_buffer ≡ h.send_buffer
  pub infos : g.send_buffer_infos ≡ h.send_buffer_infos

pub send-SameSending : (i : ℕ) (bs : List ℕ) (h : Handler) → SameSending (send i bs h).0 h
unfolding send queue
send-SameSending i bs h = ground arith

close-SameSending : (h : Handler) → SameSending (close h).0 h
unfolding close
close-SameSending h = ground arith

set_output_event-SameSending :
    (registered : Bool) (h : Handler) → SameSending (set_output_event registered h).0 h
unfolding set_output_event
set_output_event-SameSending registered h = ground arith

SameSending-trans : {f g h : Handler} → SameSending f g → SameSending g h → SameSending f h
SameSending-trans p q = record { buffer = p.buffer ∙ q.buffer; infos = p.infos ∙ q.infos }

pub perform-SameSending : (calls : List Call) (h : Handler) → SameSending (perform calls h) h
unfolding perform
perform-SameSending [] h = record { buffer = refl; infos = refl }
perform-SameSending (calls_send i bs ∷ calls) h =
    SameSending-trans (perform-SameSending calls (send i bs h).0) (send-SameSending i bs h)
perform-SameSending (calls_close ∷ calls) h =
    SameSending-trans (perform-SameSending calls (close h).0) (close-SameSending h)
perform-SameSending (calls_set_output ∷ calls) h =
    SameSending-trans (perform-SameSending calls (set_output_event true h).0)
      (set_output_event-SameSending true h)
