-- ===== src/Ssl/Sending.antt =====
-- The steps that keep the messages of a handler in order.
use io_reactor.Prelude.{
  ℕ, Bool, true, false, not, ◌||◌, List, [], ◌∷◌, ◌++◌, append-nil, if◌then◌else◌, ◌≡◌, refl, sym,
  ap, ◌∙◌, subst, arith, All,
}
use io_reactor.Tcp.{Call, calls_send, calls_close, calls_set_output, is_empty, is_some}
use io_reactor.Ssl.Socket
use io_reactor.Ssl.Socket.{
  Answer, Result, null_ssl, zero_return, error_syscall, error, want_read, want_write, none_result,
  size, SslSocket,
}
use io_reactor.Ssl.{
  is_open, register_writable, shutdown_write, ssl_shutdown, BufferInfo, Event, session_sent,
  Handler, Session, emit, queue, send, close, set_output_event, perform, call, has_buffer_to_send,
  slice, sent_loop, error_loop, init_ssl,
}
use io_reactor.Ssl.Queue.{
  collect, Fits, accepted_by, told_by, waiting, IsQueued, emit-IsQueued, tell-IsQueued,
  queue-IsQueued,
}

-- The message queue of a handler, with a loop over the messages being sent still to run over some.
pub record IsSending (first : List BufferInfo) (h g : Handler) : Type 0 where
  pub queued : IsQueued first g
  pub buffer : g.send_buffer ≡ h.send_buffer
  pub infos : g.send_buffer_infos ≡ h.send_buffer_infos

pair-IsSending {ℓ} :
    {A : Type ℓ} (b : Bool) (first : List BufferInfo) (h : Handler) (p q : Handler × A)
    → IsSending first h p.0
    → IsSending first h q.0
    → let r : Handler × A = if b then p else q in IsSending first h r.0
pair-IsSending true first h p q f g = f
pair-IsSending false first h p q f g = g

if-IsSending :
    (b : Bool) (first : List BufferInfo) (h p q : Handler)
    → IsSending first h p
    → IsSending first h q
    → let r : Handler = if b then p else q in IsSending first h r
if-IsSending true first h p q f g = f
if-IsSending false first h p q f g = g

emit-IsSending :
    (e : Event) (first : List BufferInfo) (h g : Handler)
    → accepted_by e ≡ []
    → told_by e ≡ []
    → IsSending first h g
    → IsSending first h (emit e g)
emit-IsSending e first h g p q k = record {
  queued = emit-IsQueued e first g p q k.queued;
  buffer = k.buffer;
  infos = k.infos;
}

queue-IsSending :
    (id : ℕ) (bytes : List ℕ) (first : List BufferInfo) (h g : Handler)
    → IsSending first h g
    → IsSending first h (queue id bytes g)
unfolding queue
queue-IsSending id bytes first h g k = record {
  queued = queue-IsQueued id bytes first g k.queued;
  buffer = k.buffer;
  infos = k.infos;
}

pub perform-IsSending :
    (calls : List Call) (first : List BufferInfo) (h g : Handler)
    → IsSending first h g
    → IsSending first h (perform calls g)
unfolding perform send close set_output_event
perform-IsSending [] first h g k = k
perform-IsSending (calls_send id bytes ∷ calls) first h g k =
    perform-IsSending calls first h (send id bytes g).0 (
      pair-IsSending (is_open g) first h (queue id bytes g, true) (g, false)
        (queue-IsSending id bytes first h g k) k)
perform-IsSending (calls_close ∷ calls) first h g k = perform-IsSending calls first h (close g).0 (
    pair-IsSending (g.close || not (is_some g.io_handle)) first h (g, false)
      (emit shutdown_write (emit ssl_shutdown (record g { close = true })), true) k
      (emit-IsSending shutdown_write first h (emit ssl_shutdown (record g { close = true })) refl
        refl
        (emit-IsSending ssl_shutdown first h (record g { close = true }) refl refl
          (record { queued = k.queued; buffer = k.buffer; infos = k.infos }))))
perform-IsSending (calls_set_output ∷ calls) first h g k =
    perform-IsSending calls first h (set_output_event true g).0 (
      pair-IsSending (not (is_open g) || g.set_output_event) first h (g, false)
        (emit register_writable (record g { set_output_event = true }), true) k
        (emit-IsSending register_writable first h (record g { set_output_event = true }) refl refl
          (record { queued = k.queued; buffer = k.buffer; infos = k.infos })))

-- What holds between the operations.
abbrev pub IsFifo : Handler → Type 0
IsFifo h =
    IsQueued h.send_buffer_infos h × (is_empty h.send_buffer ≡ true → h.send_buffer_infos ≡ [])

pub sending-IsFifo : (h g : Handler) → IsFifo h → IsSending h.send_buffer_infos h g → IsFifo g
sending-IsFifo h g k m = (
  subst (λ i. IsQueued i g) (sym m.infos) m.queued,
  λ e. m.infos ∙ k.1 (ap is_empty (sym m.buffer) ∙ e),
)

pub start-IsSending : (h : Handler) → IsFifo h → IsSending h.send_buffer_infos h h
start-IsSending h k = record { queued = k.0; buffer = refl; infos = refl }

pub if-IsFifo :
    (b : Bool) (p q : Handler)
    → IsFifo p
    → IsFifo q
    → let r : Handler = if b then p else q in IsFifo r
if-IsFifo true p q f g = f
if-IsFifo false p q f g = g

pair-IsFifo {ℓ} :
    {A : Type ℓ} (b : Bool) (p q : Handler × A)
    → (b ≡ true → IsFifo p.0)
    → (b ≡ false → IsFifo q.0)
    → let r : Handler × A = if b then p else q in IsFifo r.0
pair-IsFifo true p q f g = f refl
pair-IsFifo false p q f g = g refl

abbrev swapped : Handler → Handler
swapped h = record h {
  send_buffer = h.prepare;
  prepare = h.send_buffer;
  send_buffer_infos = h.prepare_info;
  prepare_info = h.send_buffer_infos;
}

-- The two buffers change places when nothing is being sent.
swapped-IsFifo :
    (h : Handler)
    → IsFifo h
    → is_empty h.send_buffer ≡ true
    → is_empty h.prepare ≡ false
    → IsFifo (swapped h)
swapped-IsFifo h k idle filled =
    let none_sent : h.send_buffer_infos ≡ [] = k.1 idle in
    let back = waiting h.prepare_info h.prepare in
    (
      (
        k.0.0
            ∙ ap (λ m. collect told_by h.log ++ m)
                (ap (λ i. waiting i h.send_buffer ++ back) none_sent
                  ∙ sym (append-nil back)
                  ∙ ap (λ i. back ++ waiting i h.send_buffer) (sym none_sent)),
        subst (All (Fits h.send_buffer)) (sym none_sent) tt,
      ),
      λ e. absurd (ground (arith, e, filled)),
    )

pub has_buffer_to_send-IsFifo : (h : Handler) → IsFifo h → IsFifo (has_buffer_to_send h).0
unfolding has_buffer_to_send
has_buffer_to_send-IsFifo h k =
    let rest : Handler × Bool = if is_empty h.prepare then (h, false) else (swapped h, true) in
    pair-IsFifo (not (is_empty h.send_buffer)) (h, true) rest (λ e. k)
      (λ idle.
        pair-IsFifo (is_empty h.prepare) (h, false) (swapped h, true) (λ e. k)
          (λ filled. swapped-IsFifo h k (ground (arith, idle)) filled))

pub init_ssl-IsFifo :
    (same_context made : Bool) (h : Handler) → IsFifo h → IsFifo (init_ssl same_context made h)
unfolding init_ssl
init_ssl-IsFifo same_context made h k =
    let cleared = record h { ssl_socket = Socket.clear h.ssl_socket } in
    if-IsFifo same_context cleared (record cleared { has_ssl = made }) k k

module _ (session : Session) where
  call-IsSending :
      (e : Event) (first : List BufferInfo) (h g : Handler)
      → accepted_by e ≡ []
      → told_by e ≡ []
      → IsSending first h g
      → IsSending first h (call session e g)
  unfolding call
  call-IsSending e first h g p q k =
      perform-IsSending (session e) first h (emit e g) (emit-IsSending e first h g p q k)

  pub sent_loop-IsSending :
      (infos : List BufferInfo) (h g : Handler)
      → IsSending infos h g
      → IsSending [] h (sent_loop session infos g)
  unfolding sent_loop call
  sent_loop-IsSending [] h g k = k
  sent_loop-IsSending (i ∷ infos) h g k =
      let e = session_sent i.id (slice i g.send_buffer) in
      sent_loop-IsSending infos h (call session e g) (
        perform-IsSending (session e) infos h (emit e g) (record {
          queued = tell-IsQueued i infos g k.queued;
          buffer = k.buffer;
          infos = k.infos;
        }))

  pub error_loop-IsSending :
      (infos first : List BufferInfo) (h g : Handler)
      → IsSending first h g
      → IsSending first h (error_loop session infos g)
  unfolding error_loop
  error_loop-IsSending [] first h g k = k
  error_loop-IsSending (i ∷ infos) first h g k =
      error_loop-IsSending infos first h _ (call-IsSending _ first h g refl refl k)

  pub emit-IsFifo :
      (e : Event) (h : Handler) → accepted_by e ≡ [] → told_by e ≡ [] → IsFifo h → IsFifo (emit e h)
  emit-IsFifo e h p q k =
      sending-IsFifo h (emit e h) k
        (emit-IsSending e h.send_buffer_infos h h p q (start-IsSending h k))

  pub call-IsFifo :
      (e : Event) (h : Handler)
      → accepted_by e ≡ []
      → told_by e ≡ []
      → IsFifo h
      → IsFifo (call session e h)
  call-IsFifo e h p q k =
      sending-IsFifo h (call session e h) k
        (call-IsSending e h.send_buffer_infos h h p q (start-IsSending h k))
