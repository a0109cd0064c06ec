-- ===== src/Tcp/Offsets.antt =====
-- The pointer that `handle_sent` gets after a partial write: the front of the buffer is erased, and
-- `begin` still counts from the old front.
use io_reactor.Prelude.{
  ℕ, ◌+◌, ◌-◌, ◌<◌, List, ◌∷◌, ◌≡◌, ap, ◌∙◌, arith, none, length, length-drop, drop, take,
}
use io_reactor.Tcp.{
  SendBufferInfo, Handler, Session, slice, output_sent, sent_loop, transmitted, emit,
}
use io_reactor.Tcp.Books.{total}
use io_reactor.Tcp.Delivery.{IsWellFormed}
use io_reactor.Tcp.Output.{output_sent-reported, reported}

sent_loop-partial :
    (session : Session) (n : ℕ) (info : SendBufferInfo) (infos : List SendBufferInfo) (h : Handler)
    → n < info.sent_remain
    → sent_loop session n (info ∷ infos) h
      ≡ record h { send_buffer_infos = record info { sent_remain = info.sent_remain - n } ∷ infos }
unfolding sent_loop
sent_loop-partial session n info infos h e = ground (arith, e)

slice-beyond :
    (info : SendBufferInfo) (buffer : List ℕ)
    → length buffer < info.begin + info.size
    → slice info buffer ≡ none
slice-beyond info buffer e = ground (arith, e)

-- After a write of a part of the first message, that message keeps its `begin` and `size` while the
-- buffer loses its front: the bytes that `handle_sent` would be given for a message that ends where
-- the buffer ended lie partly outside of what is left of it.
pub output_sent-stale_begin :
    (session : Session) (n : ℕ) (h : Handler) (info : SendBufferInfo) (infos : List SendBufferInfo)
    (j : SendBufferInfo)
    → IsWellFormed h
    → h.send_buffer_infos ≡ info ∷ infos
    → 0 < n
    → n < info.sent_remain
    → j.begin + j.size ≡ length h.send_buffer
    → let g : Handler = output_sent session n h in
      (g.send_buffer_infos ≡ record info { sent_remain = info.sent_remain - n } ∷ infos)
      × (g.send_buffer ≡ drop n h.send_buffer)
      × (slice j g.send_buffer ≡ none)
output_sent-stale_begin session n h info infos j w e pos part f =
    let full : 0 < length h.send_buffer = omega (arith, w.sending, ap total e, pos, part) in
    let told : Handler = emit (transmitted (take n h.send_buffer)) h in
    let made = output_sent-reported session n h full w in
    let partial : reported session n h ≡ record told {
      send_buffer_infos = record info { sent_remain = info.sent_remain - n } ∷ infos;
    } =
      ap (λ l. sent_loop session n l told) e ∙ sent_loop-partial session n info infos told part in
    (
      ap (λ g. g.send_buffer_infos) made ∙ ap (λ g. g.send_buffer_infos) partial,
      ap (λ g. g.send_buffer) made,
      ap (λ g. slice j g.send_buffer) made
          ∙ slice-beyond j (drop n h.send_buffer)
              (omega (arith, f, pos, full, length-drop n h.send_buffer)),
    )
