-- ===== src/Ssl/Queue.antt =====
-- The messages of a handler, from `send` to the session's callback.
use io_reactor.Prelude.{
  ℕ, zero, suc, ◌+◌, ◌≤◌, true, Option, some, List, [], ◌∷◌, ◌++◌, append_assoc, append-nil, leb,
  ◌≡◌, refl, sym, ap, ap₂, ◌∙◌, arith, All, All-append, length, length-append, take, drop,
  drop-append, take_all,
}
use io_reactor.Ssl.{
  BufferInfo, Event, accepted, session_sent, register_writable, Handler, emit, queue, slice,
}

-- A message: its id and its bytes, or none where the bytes are lost.
abbrev pub Message : Type 0
Message = ℕ × Option (List ℕ)

abbrev pub accepted_by : Event → List Message
accepted_by (accepted id bytes) = (id, some bytes) ∷ []
accepted_by _ = []

abbrev pub told_by : Event → List Message
told_by (session_sent id bytes) = (id, bytes) ∷ []
told_by _ = []

abbrev pub collect : (Event → List Message) → List Event → List Message
collect f [] = []
collect f (e ∷ log) = f e ++ collect f log

collect-emit :
    (f : Event → List Message) (log : List Event) (e : Event)
    → collect f (log ++ e ∷ []) ≡ collect f log ++ f e
collect-emit f [] e = append-nil (f e)
collect-emit f (d ∷ log) e =
    ap (λ m. f d ++ m) (collect-emit f log e) ∙ sym (append_assoc (f d) (collect f log) (f e))

abbrev pub waiting : List BufferInfo → List ℕ → List Message
waiting [] buffer = []
waiting (i ∷ infos) buffer = (i.id, slice i buffer) ∷ waiting infos buffer

abbrev pub Fits : List ℕ → BufferInfo → Type 0
Fits buffer i = i.begin + i.length ≤ length buffer

-- What was accepted is what the session was told and what waits, in order: the messages of a list of
-- infos, which are being sent, and those behind them.
abbrev pub IsQueued : List BufferInfo → Handler → Type 0
IsQueued first h =
    (collect accepted_by h.log
      ≡ collect told_by h.log ++ (waiting first h.send_buffer ++ waiting h.prepare_info h.prepare))
    × All (Fits h.prepare) h.prepare_info

-- An event that is no message.
pub emit-IsQueued :
    (e : Event) (first : List BufferInfo) (h : Handler)
    → accepted_by e ≡ []
    → told_by e ≡ []
    → IsQueued first h
    → IsQueued first (emit e h)
emit-IsQueued e first h p q k = (
  collect-emit accepted_by h.log e
      ∙ ap (λ m. collect accepted_by h.log ++ m) p
      ∙ append-nil (collect accepted_by h.log)
      ∙ k.0
      ∙ ap (λ m. m ++ (waiting first h.send_buffer ++ waiting h.prepare_info h.prepare))
          (sym (
            collect-emit told_by h.log e
            ∙ ap (λ m. collect told_by h.log ++ m) q
            ∙ append-nil (collect told_by h.log))),
  k.1,
)

-- A message that the session is told is none that waits.
pub tell-IsQueued :
    (i : BufferInfo) (infos : List BufferInfo) (h : Handler)
    → IsQueued (i ∷ infos) h
    → IsQueued infos (emit (session_sent i.id (slice i h.send_buffer)) h)
tell-IsQueued i infos h k = (
  collect-emit accepted_by h.log (session_sent i.id (slice i h.send_buffer))
      ∙ append-nil (collect accepted_by h.log)
      ∙ k.0
      ∙ sym (
          append_assoc (collect told_by h.log) ((i.id, slice i h.send_buffer) ∷ [])
            (waiting infos h.send_buffer ++ waiting h.prepare_info h.prepare))
      ∙ ap (λ m. m ++ (waiting infos h.send_buffer ++ waiting h.prepare_info h.prepare))
          (sym (collect-emit told_by h.log (session_sent i.id (slice i h.send_buffer)))),
  k.1,
)

take-drop-append :
    (n k : ℕ) (a b : List ℕ) → n + k ≤ length a → take k (drop n (a ++ b)) ≡ take k (drop n a)
take-drop-append zero zero a b h = refl
take-drop-append zero (suc k) [] b h = absurd (omega (arith, h))
take-drop-append zero (suc k) (x ∷ a) b h =
    ap (λ m. x ∷ m) (take-drop-append zero k a b (omega (arith, h)))
take-drop-append (suc n) k [] b h = absurd (omega (arith, h))
take-drop-append (suc n) k (x ∷ a) b h = take-drop-append n k a b (omega (arith, h))

-- Bytes behind a buffer change no message in it.
slice-append : (i : BufferInfo) (a b : List ℕ) → Fits a i → slice i (a ++ b) ≡ slice i a
slice-append i a b h =
    let longer : leb (i.begin + i.length) (length (a ++ b)) ≡ true =
      ground (arith, h, length-append a b) in
    let fits : leb (i.begin + i.length) (length a) ≡ true = ground (arith, h) in
    rw (longer, fits) (ap some (take-drop-append i.begin i.length a b h))

waiting-append :
    (infos : List BufferInfo) (a b : List ℕ)
    → All (Fits a) infos
    → waiting infos (a ++ b) ≡ waiting infos a
waiting-append [] a b h = refl
waiting-append (i ∷ infos) a b (f, h) =
    ap₂ (λ s m. (i.id, s) ∷ m) (slice-append i a b f) (waiting-append infos a b h)

waiting-more :
    (infos more : List BufferInfo) (a : List ℕ)
    → waiting (infos ++ more) a ≡ waiting infos a ++ waiting more a
waiting-more [] more a = refl
waiting-more (i ∷ infos) more a = ap (λ m. (i.id, slice i a) ∷ m) (waiting-more infos more a)

slice-new :
    (id : ℕ) (a b : List ℕ)
    → slice (record { id = id; begin = length a; length = length b }) (a ++ b) ≡ some b
slice-new id a b =
    let fits : leb (length a + length b) (length (a ++ b)) ≡ true =
      ground (arith, length-append a b) in
    rw (fits, drop-append a b (length a) refl, take_all (length b) b (omega arith)) refl

Fits-more :
    (infos : List BufferInfo) (a b : List ℕ) → All (Fits a) infos → All (Fits (a ++ b)) infos
Fits-more [] a b h = tt
Fits-more (i ∷ infos) a b (f, h) = (omega (arith, f, length-append a b), Fits-more infos a b h)

pub queue-IsQueued :
    (id : ℕ) (bytes : List ℕ) (first : List BufferInfo) (h : Handler)
    → IsQueued first h
    → IsQueued first (queue id bytes h)
unfolding queue
queue-IsQueued id bytes first h k =
    let i : BufferInfo = record { id = id; begin = length h.prepare; length = length bytes } in
    let g = record h { prepare = h.prepare ++ bytes; prepare_info = h.prepare_info ++ i ∷ [] } in
    let front = waiting first h.send_buffer in
    let back = waiting h.prepare_info h.prepare in
    let new : waiting (h.prepare_info ++ i ∷ []) (h.prepare ++ bytes)
        ≡ back ++ (id, some bytes) ∷ [] =
      waiting-more h.prepare_info (i ∷ []) (h.prepare ++ bytes)
      ∙ ap₂ (λ m s. m ++ (id, s) ∷ []) (waiting-append h.prepare_info h.prepare bytes k.1)
          (slice-new id h.prepare bytes) in
    emit-IsQueued register_writable first (emit (accepted id bytes) g) refl refl (
      (
        collect-emit accepted_by h.log (accepted id bytes)
            ∙ ap (λ m. m ++ (id, some bytes) ∷ []) k.0
            ∙ append_assoc (collect told_by h.log) (front ++ back) ((id, some bytes) ∷ [])
            ∙ ap (λ m. collect told_by h.log ++ m)
                (append_assoc front back ((id, some bytes) ∷ []) ∙ ap (λ m. front ++ m) (sym new))
            ∙ ap (λ m. m ++ (front ++ waiting (h.prepare_info ++ i ∷ []) (h.prepare ++ bytes)))
                (sym (
                  collect-emit told_by h.log (accepted id bytes)
                  ∙ append-nil (collect told_by h.log))),
        All-append (Fits (h.prepare ++ bytes)) h.prepare_info (i ∷ [])
            (Fits-more h.prepare_info h.prepare bytes k.1)
            (omega (arith, length-append h.prepare bytes), tt),
      ))
