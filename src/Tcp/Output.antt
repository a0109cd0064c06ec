-- ===== src/Tcp/Output.antt =====
-- `handle_output` and the other handlers keep the books: what a write hands over leaves the buffer,
-- and the messages that it completes are reported.
use io_reactor.Prelude.{
  ℕ, ◌-◌, ◌≤◌, ◌<◌, Bool, true, false, List, [], ◌∷◌, ◌++◌, ◌≡◌, refl, sym, ap, subst, ◌∙◌, arith,
  append-nil, append_assoc, length, length-drop, take, drop, take-append-drop, Bool-cases, ◌⊎◌, inl,
  inr, ◌==◌,
}
use io_reactor.Tcp.{
  SendBufferInfo, Event, session_sent_error, transmitted, register_writable, session_output,
  shutdown_read, Handler, Session, Call, Socket, emit, slice, perform, eagain, is_empty,
  has_buffer_to_send, sent_loop, error_loop, output_sent, output_failed, write_out, handle_output,
}
use io_reactor.Tcp.Books.{
  Books, IsQuiet, SameSending, collect, collect-emit, reported_id, transmitted_bytes, ids,
  emit-Books, perform-Books, same-Books, perform-SameSending,
}
use io_reactor.Tcp.Delivery.{IsWellFormed, LoopEnd, sent_loop-LoopEnd}

pub same-IsWellFormed :
    (g h : Handler)
    → SameSending g h
    → Books h.send_buffer_infos h.send_buffer g
    → IsWellFormed h
    → IsWellFormed g
same-IsWellFormed g h same k w = record {
  books =
      subst (λ i. Books i g.send_buffer g) (sym same.infos)
        (subst (λ b. Books h.send_buffer_infos b g) (sym same.buffer) k);
  sending = rw (same.infos, same.buffer) w.sending;
  idle = rw (same.infos, same.buffer) w.idle;
}

pub emit-IsWellFormed :
    (e : Event) (h : Handler) → IsQuiet e → IsWellFormed h → IsWellFormed (emit e h)
emit-IsWellFormed e h q w = record {
  books = emit-Books h.send_buffer_infos h.send_buffer e h q w.books;
  sending = w.sending;
  idle = w.idle;
}

pub perform-IsWellFormed :
    (calls : List Call) (h : Handler) → IsWellFormed h → IsWellFormed (perform calls h)
perform-IsWellFormed calls h w =
    same-IsWellFormed (perform calls h) h (perform-SameSending calls h)
      (perform-Books h.send_buffer_infos h.send_buffer calls h w.books) w

-- A callback: it is logged, and the session makes its calls.
pub callback-IsWellFormed :
    (e : Event) (calls : List Call) (h : Handler)
    → IsQuiet e
    → IsWellFormed h
    → IsWellFormed (perform calls (emit e h))
callback-IsWellFormed e calls h q w =
    perform-IsWellFormed calls (emit e h) (emit-IsWellFormed e h q w)

pub error_loop-IsWellFormed :
    (session : Session) (err_no : ℕ) (infos : List SendBufferInfo) (h : Handler)
    → IsWellFormed h
    → IsWellFormed (error_loop session err_no infos h)
unfolding error_loop
error_loop-IsWellFormed session err_no [] h w = w
error_loop-IsWellFormed session err_no (info ∷ infos) h w =
    let bytes = slice info h.send_buffer in
    error_loop-IsWellFormed session err_no infos _ (
      callback-IsWellFormed (session_sent_error err_no info.stream_id bytes)
        (session.on_sent_error err_no info.stream_id bytes) h (refl, refl, refl, refl) w)

-- What is about to be sent is not empty when the test says so.
pub record IsReady (r : Handler × Bool) : Type 0 where
  pub well_formed : IsWellFormed r.0
  pub some_bytes : r.1 ≡ true → 0 < length r.0.send_buffer

pub is_empty-cases {ℓ} :
    {A : Type ℓ} (xs : List A)
    → ((is_empty xs ≡ true) × (xs ≡ [])) ⊎ ((is_empty xs ≡ false) × (0 < length xs))
is_empty-cases [] = inl (refl, refl)
is_empty-cases (x ∷ xs) = inr (refl, omega arith)

swap-IsWellFormed :
    (h : Handler)
    → h.send_buffer ≡ []
    → 0 < length h.prepare
    → IsWellFormed h
    → IsWellFormed (record h {
      send_buffer = h.prepare;
      prepare = h.send_buffer;
      send_buffer_infos = h.prepare_info;
      prepare_info = h.send_buffer_infos;
    })
swap-IsWellFormed h e some_prepared w = record {
  books = record {
    messages =
        simp (w.idle e, append-nil)
          (w.books.messages
            ∙ ap (λ l. collect reported_id h.log ++ (ids l ++ ids h.prepare_info)) (w.idle e));
    bytes =
        simp (e, append-nil)
          (w.books.bytes ∙ ap (λ l. collect transmitted_bytes h.log ++ (l ++ h.prepare)) e);
    prepared = w.sending;
  };
  sending = w.books.prepared;
  idle = λ f. ground (arith, some_prepared, ap length f);
}

pub has_buffer_to_send-IsReady : (h : Handler) → IsWellFormed h → IsReady (has_buffer_to_send h)
unfolding has_buffer_to_send
has_buffer_to_send-IsReady h w = elim (is_empty-cases h.send_buffer) [
  | inr (b, e) ↦ rw b (record { well_formed = w; some_bytes = λ _. e })
  | inl (b, e) ↦ rw b (elim (is_empty-cases h.prepare) [
    | inl (c, _) ↦ rw c (record { well_formed = w; some_bytes = λ f. ground (arith, f) })
    | inr (c, f) ↦ rw c (record { well_formed = swap-IsWellFormed h e f w; some_bytes = λ _. f })
  ])
]

pub has_buffer_to_send-full :
    (h : Handler) → 0 < length h.send_buffer → has_buffer_to_send h ≡ (h, true)
unfolding has_buffer_to_send
has_buffer_to_send-full h e = elim (is_empty-cases h.send_buffer) [
  | inl (b, f) ↦ ground (arith, e, ap length f)
  | inr (b, f) ↦ rw b refl
]

-- The bytes that the socket took are transmitted.
transmitted-Books :
    (n : ℕ) (infos : List SendBufferInfo) (h : Handler)
    → Books infos h.send_buffer h
    → Books infos (drop n h.send_buffer) (emit (transmitted (take n h.send_buffer)) h)
transmitted-Books n infos h k = record {
  messages = simp (collect-emit, append-nil) k.messages;
  bytes = simp collect-emit (
      simp append-nil (
        k.bytes
        ∙ ap (λ l. collect transmitted_bytes h.log ++ (l ++ h.prepare))
            (sym (take-append-drop n h.send_buffer))
        ∙ simp append_assoc refl));
  prepared = k.prepared;
}

abbrev pub reported : Session → ℕ → Handler → Handler
reported session n h =
    sent_loop session n h.send_buffer_infos (emit (transmitted (take n h.send_buffer)) h)

reported-LoopEnd :
    (session : Session) (n : ℕ) (h : Handler)
    → IsWellFormed h
    → LoopEnd (drop n h.send_buffer) n h.send_buffer_infos h (reported session n h)
reported-LoopEnd session n h w =
    let end =
      sent_loop-LoopEnd session (drop n h.send_buffer) n h.send_buffer_infos
        (emit (transmitted (take n h.send_buffer)) h)
        (transmitted-Books n h.send_buffer_infos h w.books) in
    record { books = end.books; buffer = end.buffer; count = end.count; left = end.left }

-- While anything was being sent, the last test of `handle_output` finds the buffer as it was, so that
-- an event is asked for even when all of it has gone.
pub output_sent-reported :
    (session : Session) (n : ℕ) (h : Handler)
    → 0 < length h.send_buffer
    → IsWellFormed h
    → output_sent session n h ≡ record (emit register_writable (reported session n h)) {
      send_buffer = drop n h.send_buffer;
    }
unfolding output_sent
output_sent-reported session n h e w =
    let r = reported session n h in
    let end = reported-LoopEnd session n h w in
    rw (has_buffer_to_send-full r (rw end.buffer e))
      (ap (λ b. record (emit register_writable r) { send_buffer = drop n b }) end.buffer)

pub output_sent-IsWellFormed :
    (session : Session) (n : ℕ) (h : Handler)
    → 0 < n
    → n ≤ length h.send_buffer
    → IsWellFormed h
    → IsWellFormed (output_sent session n h)
output_sent-IsWellFormed session n h pos fits w =
    let r = reported session n h in
    let end = reported-LoopEnd session n h w in
    let rest = drop n h.send_buffer in
    let dropped : length rest ≡ length h.send_buffer - n = length-drop n h.send_buffer in
    let counted = end.count (omega (arith, fits, w.sending)) in
    subst IsWellFormed (sym (output_sent-reported session n h (omega arith) w)) (record {
      books =
          emit-Books r.send_buffer_infos rest register_writable _ (refl, refl, refl, refl)
            (same-Books r.send_buffer_infos rest (record r { send_buffer = rest }) r refl refl refl
              end.books);
      sending = omega (arith, counted, dropped, w.sending, fits);
      idle = λ f. elim end.left [
        | inl some_left ↦ ground (arith, some_left, counted, dropped, w.sending, fits, ap length f)
        | inr none_left ↦ none_left
      ];
    })

pub output_failed-IsWellFormed :
    (session : Session) (err_no : ℕ) (h : Handler)
    → IsWellFormed h
    → IsWellFormed (output_failed session err_no h)
unfolding output_failed
output_failed-IsWellFormed session err_no h w = elim (Bool-cases (err_no == eagain)) [
  | inl again ↦ rw again (emit-IsWellFormed register_writable h (refl, refl, refl, refl) w)
  | inr fatal ↦ rw fatal (
      emit-IsWellFormed shutdown_read _ (refl, refl, refl, refl)
        (error_loop-IsWellFormed session err_no h.send_buffer_infos h w))
]

-- `::send` writes no more than it is given.
abbrev pub IsBounded : Socket → Type 0
IsBounded socket = (bytes : List ℕ) → (socket bytes).0 ≤ length bytes

write_out-IsWellFormed :
    (session : Session) (socket : Socket) (h : Handler)
    → IsBounded socket
    → IsWellFormed h
    → IsWellFormed (write_out session socket h)
unfolding write_out
write_out-IsWellFormed session socket h bounded w =
    let ready = has_buffer_to_send-IsReady h w in
    let g = (has_buffer_to_send h).0 in
    elim (Bool-cases (has_buffer_to_send h).1) [
      | inr nothing ↦ rw nothing ready.well_formed
      | inl something ↦ rw something (elim (Bool-cases ((socket g.send_buffer).0 == 0)) [
        | inl failed ↦ rw failed (output_failed-IsWellFormed session _ g ready.well_formed)
        | inr sent ↦ rw sent (
            output_sent-IsWellFormed session _ g (ground (arith, sent)) (bounded g.send_buffer)
              ready.well_formed)
      ])
    ]

pub handle_output-IsWellFormed :
    (session : Session) (socket : Socket) (h : Handler)
    → IsBounded socket
    → IsWellFormed h
    → IsWellFormed (handle_output session socket h)
unfolding handle_output
handle_output-IsWellFormed session socket h bounded w = elim (Bool-cases h.set_output_event) [
  | inl asked ↦ rw asked (
      write_out-IsWellFormed session socket _ bounded (
        callback-IsWellFormed session_output session.on_output _ (refl, refl, refl, refl)
          (record {
            books = same-Books h.send_buffer_infos h.send_buffer _ h refl refl refl w.books;
            sending = w.sending;
            idle = w.idle;
          })))
  | inr quiet ↦ simp quiet (write_out-IsWellFormed session socket h bounded w)
]
