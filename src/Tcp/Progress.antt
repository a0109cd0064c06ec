-- ===== src/Tcp/Progress.antt =====
-- Writes end: with a session that asks for nothing more and a socket that takes something of what it
-- is given, every accepted byte is transmitted.
use io_reactor.Prelude.{
  ℕ, ◌+◌, ◌-◌, ◌≤◌, ◌<◌, false, List, [], ◌∷◌, ◌++◌, ◌≡◌, refl, sym, ap, ◌∙◌, arith, append-nil,
  length, length-append, length-drop, Bool-cases, ltb, inl, inr, All, map, ◌==◌, subst,
}
use io_reactor.Tcp.{
  SendBufferInfo, session_output, Handler, Session, Socket, emit, perform, has_buffer_to_send,
  sent_loop, output_sent, write_out, handle_output, run, perform_operation, output_event,
}
use io_reactor.Tcp.Books.{same-Books, collect, accepted_bytes, transmitted_bytes}
use io_reactor.Tcp.Delivery.{IsWellFormed}
use io_reactor.Tcp.Output.{
  IsBounded, is_empty-cases, emit-IsWellFormed, has_buffer_to_send-IsReady, output_sent-reported,
  reported, handle_output-IsWellFormed,
}

-- A session whose callbacks make no calls.
abbrev pub silent : Session
silent = record {
  on_registered = [];
  on_removed = [];
  on_input = [];
  on_output = [];
  on_close = [];
  on_timeout = [];
  on_shutdown = [];
  on_error = λ _. [];
  on_sent = λ _ _. [];
  on_sent_error = λ _ _ _. [];
}

-- The socket takes a byte at least, and no more than it is given.
pub record IsTaking (socket : Socket) : Type 0 where
  pub bounded : IsBounded socket
  pub takes : (bytes : List ℕ) → 0 < length bytes → 0 < (socket bytes).0

abbrev pub pending : Handler → ℕ
pending h = length h.send_buffer + length h.prepare

sent_loop-prepare :
    (n : ℕ) (infos : List SendBufferInfo) (h : Handler)
    → (sent_loop silent n infos h).prepare ≡ h.prepare
unfolding sent_loop perform
sent_loop-prepare n [] h = refl
sent_loop-prepare n (info ∷ infos) h = elim (Bool-cases (ltb n info.sent_remain)) [
  | inl part ↦ rw part refl
  | inr whole ↦ rw whole (sent_loop-prepare (n - info.sent_remain) infos _)
]

has_buffer_to_send-pending :
    (h : Handler)
    → (pending (has_buffer_to_send h).0 ≡ pending h)
      × ((has_buffer_to_send h).1 ≡ false → pending h ≡ 0)
unfolding has_buffer_to_send
has_buffer_to_send-pending h = elim (is_empty-cases h.send_buffer) [
  | inr (b, e) ↦ rw b (refl, λ f. ground (arith, f))
  | inl (b, e) ↦ rw b (elim (is_empty-cases h.prepare) [
    | inl (c, f) ↦ rw c (refl, λ _. omega (arith, ap length e, ap length f))
    | inr (c, f) ↦ rw c (omega arith, λ g. ground (arith, g))
  ])
]

output_sent-pending :
    (n : ℕ) (h : Handler)
    → 0 < length h.send_buffer
    → n ≤ length h.send_buffer
    → IsWellFormed h
    → pending (output_sent silent n h) + n ≡ pending h
output_sent-pending n h e fits w =
    let kept : (reported silent n h).prepare ≡ h.prepare =
      sent_loop-prepare n h.send_buffer_infos _ in
    subst (λ g. pending g + n ≡ pending h) (sym (output_sent-reported silent n h e w))
      (omega (arith, ap length kept, length-drop n h.send_buffer, fits))

-- A write shortens what waits, unless nothing does.
write_out-pending :
    (socket : Socket) (h : Handler)
    → IsTaking socket
    → IsWellFormed h
    → pending (write_out silent socket h) ≤ pending h - 1
unfolding write_out
write_out-pending socket h taking w =
    let ready = has_buffer_to_send-IsReady h w in
    let (same, nothing) = has_buffer_to_send-pending h in
    let g = (has_buffer_to_send h).0 in
    elim (Bool-cases (has_buffer_to_send h).1) [
      | inr done ↦ rw done (omega (arith, same, nothing done))
      | inl more ↦
          let full = ready.some_bytes more in
          let taken = taking.takes g.send_buffer full in
          rw more (elim (Bool-cases ((socket g.send_buffer).0 == 0)) [
            | inl failed ↦ ground (arith, failed, taken)
            | inr sent ↦ rw sent (
                omega (
                  arith,
                  same,
                  taken,
                  output_sent-pending (socket g.send_buffer).0 g full (taking.bounded g.send_buffer)
                      ready.well_formed,
                ))
          ])
    ]

handle_output-pending :
    (socket : Socket) (h : Handler)
    → IsTaking socket
    → IsWellFormed h
    → pending (handle_output silent socket h) ≤ pending h - 1
unfolding handle_output perform
handle_output-pending socket h taking w = elim (Bool-cases h.set_output_event) [
  | inl asked ↦ rw asked (
      write_out-pending socket (emit session_output (record h { set_output_event = false })) taking
        (emit-IsWellFormed session_output _ (refl, refl, refl, refl)
          (record {
            books = same-Books h.send_buffer_infos h.send_buffer _ h refl refl refl w.books;
            sending = w.sending;
            idle = w.idle;
          })))
  | inr quiet ↦ simp quiet (write_out-pending socket h taking w)
]

nil_of_length : (xs : List ℕ) → length xs ≡ 0 → xs ≡ []
nil_of_length [] e = refl
nil_of_length (x ∷ xs) e = absurd (omega (arith, e))

nothing_pending :
    (h : Handler)
    → IsWellFormed h
    → pending h ≡ 0
    → collect transmitted_bytes h.log ≡ collect accepted_bytes h.log
nothing_pending h w e =
    let none_left : h.send_buffer ++ h.prepare ≡ [] =
      nil_of_length _ (omega (arith, e, length-append h.send_buffer h.prepare)) in
    sym (
      w.books.bytes
      ∙ ap (◌++◌ (collect transmitted_bytes h.log)) none_left
      ∙ append-nil (collect transmitted_bytes h.log))

-- For a well-formed handler whose session makes no calls: after as many output events as bytes wait,
-- with sockets that each take a byte at least and no more than they are given, nothing waits, and
-- the transmitted bytes are the accepted ones.
pub run-transmits_everything :
    (sockets : List Socket) (h : Handler)
    → All IsTaking sockets
    → IsWellFormed h
    → pending h ≤ length sockets
    → let g : Handler = run silent (map output_event sockets) h in
      (pending g ≡ 0) × (collect transmitted_bytes g.log ≡ collect accepted_bytes g.log)
unfolding run perform_operation
run-transmits_everything [] h a w e = (omega (arith, e), nothing_pending h w (omega (arith, e)))
run-transmits_everything (socket ∷ sockets) h (taking, rest) w e =
    let shorter = handle_output-pending socket h taking w in
    run-transmits_everything sockets (handle_output silent socket h) rest
      (handle_output-IsWellFormed silent socket h taking.bounded w) (omega (arith, shorter, e))
