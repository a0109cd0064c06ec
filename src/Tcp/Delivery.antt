-- ===== src/Tcp/Delivery.antt =====
-- Every message that `send` accepts is reported once, in order, after its bytes were transmitted,
-- and the bytes on the wire are those of the accepted messages, in order.
use io_reactor.Prelude.{
  ℕ, ◌+◌, ◌-◌, ◌≤◌, ◌<◌, List, [], ◌∷◌, ◌++◌, ◌≡◌, refl, sym, ◌∙◌, arith, append-nil, append_assoc,
  length, Bool-cases, ◌⊎◌, inl, inr, ltb, Option,
}
use io_reactor.Tcp.{SendBufferInfo, session_sent, Handler, Session, emit, slice, perform, sent_loop}
use io_reactor.Tcp.Books.{
  Books, collect, collect-emit, reported_id, ids, total, perform-Books, same-Books,
  perform-SameSending,
}

-- The books are right, the messages being sent are as long as their buffer, and none is left when
-- the buffer is empty.
pub record IsWellFormed (h : Handler) : Type 0 where
  pub books : Books h.send_buffer_infos h.send_buffer h
  pub sending : total h.send_buffer_infos ≡ length h.send_buffer
  pub idle : h.send_buffer ≡ [] → h.send_buffer_infos ≡ []

ids-Books :
    {a b : List SendBufferInfo} {unsent : List ℕ} {h : Handler}
    → ids a ≡ ids b
    → Books a unsent h
    → Books b unsent h
ids-Books e k = record { messages = rw (← e) k.messages; bytes = k.bytes; prepared = k.prepared }

-- A message that is reported leaves the ones that are being sent.
report-Books :
    (info : SendBufferInfo) (infos : List SendBufferInfo) (unsent : List ℕ) (o : Option (List ℕ))
    (h : Handler)
    → Books (info ∷ infos) unsent h
    → Books infos unsent (emit (session_sent info.stream_id o) h)
report-Books info infos unsent o h k = record {
  messages = simp collect-emit (
      simp append-nil (
        k.messages
        ∙ sym (
            append_assoc (collect reported_id h.log) (info.stream_id ∷ [])
              (ids infos ++ ids h.prepare_info))));
  bytes = simp (collect-emit, append-nil) k.bytes;
  prepared = k.prepared;
}

-- Where the loop over the messages leaves the handler.
pub record LoopEnd (unsent : List ℕ) (n : ℕ) (infos : List SendBufferInfo) (h r : Handler)
    : Type 0 where
  pub books : Books r.send_buffer_infos unsent r
  pub buffer : r.send_buffer ≡ h.send_buffer
  pub count : n ≤ total infos → total r.send_buffer_infos + n ≡ total infos
  pub left : (0 < total r.send_buffer_infos) ⊎ (r.send_buffer_infos ≡ [])

module _ (session : Session) (unsent : List ℕ) where
  pub sent_loop-LoopEnd :
      (n : ℕ) (infos : List SendBufferInfo) (h : Handler)
      → Books infos unsent h
      → LoopEnd unsent n infos h (sent_loop session n infos h)
  unfolding sent_loop
  sent_loop-LoopEnd n [] h k = record {
    books = same-Books [] unsent _ h refl refl refl k;
    buffer = refl;
    count = λ e. omega arith;
    left = inr refl;
  }
  sent_loop-LoopEnd n (info ∷ infos) h k =
      let bytes = slice info h.send_buffer in
      let told = emit (session_sent info.stream_id bytes) h in
      let calls = session.on_sent info.stream_id bytes in
      let called = perform calls told in
      let ih =
        sent_loop-LoopEnd (n - info.sent_remain) infos called
          (perform-Books infos unsent calls told (report-Books info infos unsent bytes h k)) in
      elim (Bool-cases (ltb n info.sent_remain)) [
        | inl part ↦
            rw (part, sent_loop)
              (record {
                books = ids-Books refl (same-Books (info ∷ infos) unsent _ h refl refl refl k);
                buffer = refl;
                count = λ e. ground arith;
                left = inl (ground arith);
              })
        | inr whole ↦
            rw (whole, sent_loop)
              (record {
                books = ih.books;
                buffer = ih.buffer ∙ (perform-SameSending calls told).buffer;
                count = λ e. ground (arith, ih.count);
                left = ih.left;
              })
      ]
