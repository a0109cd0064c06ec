-- ===== src/Demuxer/Events.antt =====
-- What `register` and `remove` do to the events that a handle wants, and what `wait` returns.
use Prim.Native.Nat.{bit_or, bit_xor}
use io_reactor.Prelude.{
  ℕ, Bool, true, false, not, ◌&&◌, ltb, Option, none, some, List, [], ◌∷◌, ◌++◌, append-nil,
  append_assoc, ◌≡◌, refl, ap, ◌∙◌, sym, subst, arith, ◌==◌, if◌then◌else◌, ==_iff, Bool-cases, inl,
  inr, lookup-insert, lookup-remove, take,
}
use io_reactor.Demuxer.{
  ctl_add, Demuxer, Kernel, has_bit, init_epoll_event_value, add_to_mask, add_found, del_from_mask,
  del_found, epoll_event, add_epoll_event, del_epoll_event, EventData, CtrlEventData,
  process_ctrl_event, process_ctrl_events, process_queue, wait, raise_event, is_none, poll,
  ready_loop, pipe_capacity, event_user, invalid_io_handle,
}
use io_reactor.Demuxer.Masks.{is_one_of, bits, bit_laws}
use io_reactor.Demuxer.Interest.{
  mask_of, mask_has, is_mask, IsMirrored, IsDocumented, apply_ctrl_event-IsMirrored,
}

-- Whether the table asks for an event of a handle.
abbrev pub wants : Demuxer → ℕ → ℕ → Bool
wants d fd bit = mask_has (mask_of d fd) bit

abbrev pub is_known : Option ℕ → Bool
is_known none = false
is_known (some mask) = true

-- A table that changed at one handle.
changed-wants :
    (fd l c : ℕ) (o : Option ℕ) (d : Demuxer) (n : Option ℕ) (p x : Bool)
    → n ≡ (if fd == l then o else mask_of d l)
    → mask_has o c ≡ (if p then x else wants d fd c)
    → mask_has n c ≡ (if fd == l && p then x else wants d l c)
changed-wants fd l c o d n p x table h = elim (Bool-cases (fd == l)) [
  | inl here ↦ rw here (
      ap (λ m. mask_has m c) (table ∙ ap (λ b. if b then o else mask_of d l) here)
      ∙ subst (λ k. mask_has o c ≡ (if p then x else wants d k c)) ((==_iff fd l).0 here) h)
  | inr there ↦
      rw there (ap (λ m. mask_has m c) (table ∙ ap (λ b. if b then o else mask_of d l) there))
]

module _ (kernel : Kernel) (documented : IsDocumented kernel) (bit : ℕ)
    (is_bit : is_one_of bit bits ≡ true) where
  add_found-wants :
      ((fd mask : ℕ) → kernel (ctl_add fd mask) ≡ true)
      → (fd l c : ℕ) (o : Option ℕ) (d : Demuxer) → is_one_of c bits ≡ true
      → mask_of d fd ≡ o
      → is_mask o ≡ true
      → wants (add_found kernel bit fd o d) l c
        ≡ (if fd == l && bit == c then true else wants d l c)
  unfolding add_to_mask is_one_of
  add_found-wants adds fd l c none d is_c e h =
      let laws = bit_laws 0x2011 bit c refl is_bit is_c in
      rw (adds fd (bit_or init_epoll_event_value bit)) (
        changed-wants fd l c (some (bit_or init_epoll_event_value bit)) d _ (bit == c) true
          (lookup-insert fd l (bit_or init_epoll_event_value bit) d.epoll_events_by_io_handle)
          (ground (arith, laws.first, ap (λ m. mask_has m c) e)))
  add_found-wants adds fd l c (some mask) d is_c e h =
      let laws = bit_laws mask bit c h is_bit is_c in
      let before : wants d fd c ≡ has_bit mask c = ap (λ m. mask_has m c) e in
      elim (Bool-cases (has_bit mask bit)) [
        | inl there ↦ rw there (
            changed-wants fd l c (mask_of d fd) d (mask_of d l) (bit == c) true (ground arith)
              (elim (Bool-cases (bit == c)) [
                | inl same ↦
                    rw same (before ∙ sym (ap (has_bit mask) ((==_iff bit c).0 same)) ∙ there)
                | inr other ↦ rw other refl
              ]))
        | inr absent ↦
            rw (absent, documented.changes fd (bit_or mask bit))
              (changed-wants fd l c (some (bit_or mask bit)) d _ (bit == c) true
                (lookup-insert fd l (bit_or mask bit) d.epoll_events_by_io_handle)
                (laws.added ∙ ap (λ b. if bit == c then true else b) (sym before)))
      ]

  del_found-wants :
      (fd l c : ℕ) (o : Option ℕ) (d : Demuxer)
      → is_one_of c bits ≡ true
      → mask_of d fd ≡ o
      → is_mask o ≡ true
      → wants (del_found kernel bit fd o d) l c
        ≡ (if fd == l && bit == c then is_known o && not (wants d fd c) else wants d l c)
  unfolding del_from_mask is_one_of
  del_found-wants fd l c none d is_c e h =
      changed-wants fd l c none d (mask_of d l) (bit == c) false (ground (arith, e))
        (ground (arith, ap (λ m. mask_has m c) e))
  del_found-wants fd l c (some mask) d is_c e h =
      let laws = bit_laws mask bit c h is_bit is_c in
      let before : wants d fd c ≡ has_bit mask c = ap (λ m. mask_has m c) e in
      let flipped : has_bit (bit_xor mask bit) c
          ≡ (if bit == c then not (wants d fd c) else wants d fd c) =
        laws.flipped ∙ ap (λ b. if bit == c then not b else b) (sym before) in
      let not_zero : bit == 0 ≡ false = ground (arith, is_bit) in
      elim (Bool-cases (bit_xor mask bit == init_epoll_event_value)) [
        | inl last ↦
            rw (not_zero, last)
              (changed-wants fd l c none d _ (bit == c) (not (wants d fd c))
                (lookup-remove fd l d.epoll_events_by_io_handle) (sym (laws.last last) ∙ flipped))
        | inr more ↦
            rw (not_zero, more)
              (changed-wants fd l c (some (bit_xor mask bit)) d _ (bit == c) (not (wants d fd c))
                (lookup-insert fd l (bit_xor mask bit) d.epoll_events_by_io_handle) flipped)
      ]

-- With a kernel that takes new handles and never refuses to change one, and a table that the kernel
-- mirrors: registering an event makes the handle want it, and changes nothing else.
pub add_epoll_event-wants :
    (kernel : Kernel) (event_type fd l c : ℕ) (d : Demuxer)
    → IsDocumented kernel
    → ((k mask : ℕ) → kernel (ctl_add k mask) ≡ true)
    → is_one_of (epoll_event event_type) bits ≡ true
    → is_one_of c bits ≡ true
    → IsMirrored d
    → wants (add_epoll_event kernel event_type fd d) l c
      ≡ (if fd == l && epoll_event event_type == c then true else wants d l c)
unfolding add_epoll_event
add_epoll_event-wants kernel event_type fd l c d documented adds is_bit is_c k =
    add_found-wants kernel documented (epoll_event event_type) is_bit adds fd l c (mask_of d fd) d
      is_c refl (k.wanted fd)

-- With a kernel that never refuses to change or remove a handle, and a table that the kernel mirrors:
-- removing an event from a handle of the table flips whether the handle wants it, so that an event
-- that was not wanted becomes wanted; a handle outside the table stays outside, and nothing else
-- changes.
pub del_epoll_event-wants :
    (kernel : Kernel) (event_type fd l c : ℕ) (d : Demuxer)
    → IsDocumented kernel
    → is_one_of (epoll_event event_type) bits ≡ true
    → is_one_of c bits ≡ true
    → IsMirrored d
    → wants (del_epoll_event kernel event_type fd d) l c ≡ (
        if fd == l && epoll_event event_type == c
        then is_known (mask_of d fd) && not (wants d fd c)
        else wants d l c)
unfolding del_epoll_event
del_epoll_event-wants kernel event_type fd l c d documented is_bit is_c k =
    del_found-wants kernel documented (epoll_event event_type) is_bit fd l c (mask_of d fd) d is_c
      refl (k.wanted fd)

-- The queued events that are to be returned.
abbrev pub returned : List CtrlEventData → List EventData
returned [] = []
returned (e ∷ es) = if e.return_value then e.event ∷ returned es else returned es

process_ctrl_events-returned :
    (kernel : Kernel) (es : List CtrlEventData) (d : Demuxer) (out : List EventData)
    → (process_ctrl_events kernel es (d, out)).1 ≡ out ++ returned es
unfolding process_ctrl_events process_ctrl_event
process_ctrl_events-returned kernel [] d out = sym (append-nil out)
process_ctrl_events-returned kernel (e ∷ es) d out = elim (Bool-cases e.return_value) [
  | inl r ↦
      rw (r, process_ctrl_events)
        (process_ctrl_events-returned kernel es _ (out ++ e.event ∷ [])
          ∙ append_assoc out (e.event ∷ []) (returned es))
  | inr r ↦ rw (r, process_ctrl_events) (process_ctrl_events-returned kernel es _ out)
]

process_ctrl_events-IsMirrored :
    (kernel : Kernel) (es : List CtrlEventData) (d : Demuxer) (out : List EventData)
    → IsDocumented kernel
    → IsMirrored d
    → IsMirrored (process_ctrl_events kernel es (d, out)).0
unfolding process_ctrl_events process_ctrl_event
process_ctrl_events-IsMirrored kernel [] d out documented k = k
process_ctrl_events-IsMirrored kernel (e ∷ es) d out documented k =
    process_ctrl_events-IsMirrored kernel es _ _ documented
      (apply_ctrl_event-IsMirrored kernel documented e.event.recv_event e.event.io_handle d k)

queue_cleared :
    (d : Demuxer) (q : List CtrlEventData)
    → IsMirrored d
    → IsMirrored (record d { wait_events = q })
queue_cleared d q k = record { wanted = k.wanted; mirrored = k.mirrored }

pipe_drained :
    (d : Demuxer) (q : List CtrlEventData) → IsMirrored d → IsMirrored (record d { pipe = q })
pipe_drained d q k = record { wanted = k.wanted; mirrored = k.mirrored }

ready_loop-IsMirrored :
    (kernel : Kernel) (peek : ℕ → Bool) (ready : List (ℕ × ℕ)) (d : Demuxer) (out : List EventData)
    → IsDocumented kernel
    → IsMirrored d
    → IsMirrored (ready_loop kernel peek ready (d, out)).0
unfolding ready_loop
ready_loop-IsMirrored kernel peek [] d out documented k = k
ready_loop-IsMirrored kernel peek ((fd, mask) ∷ ready) d out documented k =
    elim (Bool-cases (fd == d.pipe_ctrl_event_recv)) [
      | inl from_pipe ↦
          rw (from_pipe, ready_loop)
            (ready_loop-IsMirrored kernel peek ready _ _ documented (
              process_ctrl_events-IsMirrored kernel (take pipe_capacity d.pipe) _ out documented
                (pipe_drained d _ k)))
      | inr from_handle ↦
          rw (from_handle, ready_loop) (ready_loop-IsMirrored kernel peek ready d _ documented k)
    ]

-- With a kernel that never refuses to change or remove a handle, the table and the kernel's interest
-- set stay the same over any wait, whatever the queue and the pipe hold and whatever epoll answers,
-- and also where the kernel refuses a new handle.
pub wait-IsMirrored :
    (kernel : Kernel) (peek : ℕ → Bool) (epoll : Option (List (ℕ × ℕ))) (d : Demuxer)
    → IsDocumented kernel
    → IsMirrored d
    → IsMirrored (wait kernel peek epoll d).0
unfolding wait process_queue
wait-IsMirrored kernel peek epoll d documented k =
    let after = (process_ctrl_events kernel d.wait_events (d, [])).0 in
    let events = (process_ctrl_events kernel d.wait_events (d, [])).1 in
    let queue =
      queue_cleared after []
        (process_ctrl_events-IsMirrored kernel d.wait_events d [] documented k) in
    elim (Bool-cases (is_none events)) [
      | inr some_events ↦ rw some_events queue
      | inl no_events ↦ rw no_events (polled epoll (record after { wait_events = [] }) events queue)
    ]
  where
    polled :
        (answer : Option (List (ℕ × ℕ))) (e : Demuxer) (out : List EventData)
        → IsMirrored e
        → IsMirrored (poll kernel peek answer (e, out)).0
    polled none e out m = m
    polled (some ready) e out m = ready_loop-IsMirrored kernel peek ready e out documented m

is_none-append : (es : List EventData) (e : EventData) → is_none (es ++ e ∷ []) ≡ false
is_none-append [] e = refl
is_none-append (x ∷ es) e = refl

returned-append :
    (es : List CtrlEventData) (e : CtrlEventData)
    → e.return_value ≡ true
    → returned (es ++ e ∷ []) ≡ returned es ++ e.event ∷ []
returned-append [] e h = rw h refl
returned-append (x ∷ es) e h = elim (Bool-cases x.return_value) [
  | inl r ↦ rw (r, returned) (ap (◌∷◌ x.event) (returned-append es e h))
  | inr r ↦ rw (r, returned) (returned-append es e h)
]

-- An event that the waiting thread raises and wants back, with a handle that is valid or of a user's
-- type, is what the next wait returns last, after the queued events that are to be returned, whatever
-- epoll would answer.
pub raise_event-wait :
    (kernel : Kernel) (peek : ℕ → Bool) (epoll : Option (List (ℕ × ℕ))) (event : EventData)
    (d : Demuxer)
    → ltb event.recv_event event_user && event.io_handle == invalid_io_handle ≡ false
    → let raised : Demuxer =
        (raise_event true event.recv_event event.io_handle event.user_data true d).0 in
      (wait kernel peek epoll raised).1 ≡ returned d.wait_events ++ event ∷ []
unfolding wait process_queue raise_event
raise_event-wait kernel peek epoll event d valid =
    let e : CtrlEventData = record { event = event; return_value = true } in
    let queue : List CtrlEventData = d.wait_events ++ e ∷ [] in
    let out =
      process_ctrl_events-returned kernel queue (record d { wait_events = queue }) []
      ∙ returned-append d.wait_events e refl in
    rw (valid, ap is_none out ∙ is_none-append (returned d.wait_events) event) out
