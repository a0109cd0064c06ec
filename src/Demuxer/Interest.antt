-- ===== src/Demuxer/Interest.antt =====
-- What the table says of each handle and event, and that the kernel knows the same.
use Prim.Native.Nat.{bit_or, bit_xor}
use io_reactor.Prelude.{
  ℕ, Bool, true, false, Option, none, some, List, [], ◌∷◌, ◌≡◌, refl, ap, ◌∙◌, sym, subst, arith,
  ◌==◌, if◌then◌else◌, Bool-cases, Option-cases, inl, inr, lookup, insert, lookup-insert,
  lookup-remove,
}
use io_reactor.Demuxer.{
  init, created, event_read, Ctl, ctl_add, ctl_mod, ctl_del, Demuxer, Kernel, has_bit,
  init_epoll_event_value, add_to_mask, add_found, add_mask, del_from_mask, del_found,
  del_epoll_events, del_all_found, epoll_event, add_epoll_event, del_epoll_event, apply_ctrl_event,
  event_register_all, event_register_read, event_register_write, event_register_error,
  event_remove_read, event_remove_write, event_remove_error, event_remove_all,
}
use io_reactor.Demuxer.Masks.{is_one_of, bits, masks, bit_laws}

abbrev pub mask_of : Demuxer → ℕ → Option ℕ
mask_of d fd = lookup fd d.epoll_events_by_io_handle

abbrev pub mask_has : Option ℕ → ℕ → Bool
mask_has none bit = false
mask_has (some mask) bit = has_bit mask bit

abbrev pub is_mask : Option ℕ → Bool
is_mask none = true
is_mask (some mask) = is_one_of mask masks

-- The interest set of the kernel, by the calls of `epoll_ctl` that succeeded, the last one first.
unfoldable pub interest : List (Ctl × Bool) → ℕ → Option ℕ
interest [] fd = none
interest ((c, false) ∷ log) fd = interest log fd
interest ((ctl_add k mask, true) ∷ log) fd = if k == fd then some mask else interest log fd
interest ((ctl_mod k mask, true) ∷ log) fd = if k == fd then some mask else interest log fd
interest ((ctl_del k, true) ∷ log) fd = if k == fd then none else interest log fd

-- Each handle in the table wants an event at least, and the kernel has the same table.
pub record IsMirrored (d : Demuxer) : Type 0 where
  pub wanted : (fd : ℕ) → is_mask (mask_of d fd) ≡ true
  pub mirrored : (fd : ℕ) → mask_of d fd ≡ interest d.log fd

-- The kernel never refuses to change or to remove a handle that it knows. It may refuse a new one.
pub record IsDocumented (kernel : Kernel) : Type 0 where
  pub changes : (fd mask : ℕ) → kernel (ctl_mod fd mask) ≡ true
  pub removes : (fd : ℕ) → kernel (ctl_del fd) ≡ true

-- A table and a log that changed at one handle alike.
changed-IsMirrored :
    (fd : ℕ) (o : Option ℕ) (d e : Demuxer)
    → is_mask o ≡ true
    → ((k : ℕ) → mask_of e k ≡ (if fd == k then o else mask_of d k))
    → ((k : ℕ) → interest e.log k ≡ (if fd == k then o else interest d.log k))
    → IsMirrored d
    → IsMirrored e
changed-IsMirrored fd o d e h table log k = record {
  wanted = λ l. elim (Bool-cases (fd == l)) [
    | inl here ↦
        subst (λ x. is_mask x ≡ true) (sym (table l ∙ ap (λ b. if b then o else mask_of d l) here))
          h
    | inr there ↦
        subst (λ x. is_mask x ≡ true) (sym (table l ∙ ap (λ b. if b then o else mask_of d l) there))
          (k.wanted l)
  ];
  mirrored = λ l. table l ∙ ap (λ x. if fd == l then o else x) (k.mirrored l) ∙ sym (log l);
}

-- A table and a log that are as they were at every handle.
unchanged-IsMirrored :
    (d e : Demuxer)
    → ((k : ℕ) → mask_of e k ≡ mask_of d k)
    → ((k : ℕ) → interest e.log k ≡ interest d.log k)
    → IsMirrored d
    → IsMirrored e
unchanged-IsMirrored d e table log k = record {
  wanted = λ l. subst (λ x. is_mask x ≡ true) (sym (table l)) (k.wanted l);
  mirrored = λ l. table l ∙ k.mirrored l ∙ sym (log l);
}

module _ (kernel : Kernel) (documented : IsDocumented kernel) where
  add_mask-IsMirrored :
      (bit fd : ℕ) (d : Demuxer)
      → is_one_of bit bits ≡ true
      → mask_of d fd ≡ none
      → IsMirrored d
      → IsMirrored (add_mask kernel bit fd d)
  unfolding interest is_one_of
  add_mask-IsMirrored bit fd d is_bit free k =
      let mask = bit_or init_epoll_event_value bit in
      let laws = bit_laws 0x2011 bit bit refl is_bit is_bit in
      elim (Bool-cases (kernel (ctl_add fd mask))) [
        | inl ok ↦ rw ok (
            changed-IsMirrored fd (some mask) d _ laws.first_mask
              (λ l. lookup-insert fd l mask d.epoll_events_by_io_handle) (λ l. refl) k)
        | inr refused ↦ rw refused (
            unchanged-IsMirrored d _
              (λ l. ground (
                arith,
                lookup-remove fd l (insert fd mask d.epoll_events_by_io_handle),
                lookup-insert fd l mask d.epoll_events_by_io_handle,
                free,
              ))
              (λ l. refl) k)
      ]

  add_to_mask-IsMirrored :
      (bit fd mask : ℕ) (d : Demuxer)
      → is_one_of bit bits ≡ true
      → mask_of d fd ≡ some mask
      → IsMirrored d
      → IsMirrored (add_to_mask kernel bit fd mask d)
  unfolding add_to_mask interest
  add_to_mask-IsMirrored bit fd mask d is_bit found k =
      let laws = bit_laws mask bit bit (ap is_mask (sym found) ∙ k.wanted fd) is_bit is_bit in
      elim (Bool-cases (has_bit mask bit)) [
        | inl there ↦ simp there k
        | inr absent ↦
            rw (absent, documented.changes fd (bit_or mask bit))
              (changed-IsMirrored fd (some (bit_or mask bit)) d _ laws.added_mask
                (λ l. lookup-insert fd l (bit_or mask bit) d.epoll_events_by_io_handle) (λ l. refl)
                k)
      ]

  del_from_mask-IsMirrored :
      (bit fd mask : ℕ) (d : Demuxer)
      → is_one_of bit bits ≡ true
      → mask_of d fd ≡ some mask
      → IsMirrored d
      → IsMirrored (del_from_mask kernel bit fd mask d)
  unfolding del_from_mask interest
  del_from_mask-IsMirrored bit fd mask d is_bit found k =
      let laws = bit_laws mask bit bit (ap is_mask (sym found) ∙ k.wanted fd) is_bit is_bit in
      elim (Bool-cases (bit_xor mask bit == init_epoll_event_value)) [
        | inl last ↦
            rw (last, documented.removes fd)
              (changed-IsMirrored fd none d _ refl
                (λ l. lookup-remove fd l d.epoll_events_by_io_handle) (λ l. refl) k)
        | inr more ↦
            rw (more, documented.changes fd (bit_xor mask bit))
              (changed-IsMirrored fd (some (bit_xor mask bit)) d _ (laws.flipped_mask more)
                (λ l. lookup-insert fd l (bit_xor mask bit) d.epoll_events_by_io_handle) (λ l. refl)
                k)
      ]

  pub add_epoll_event-IsMirrored :
      (event_type fd : ℕ) (d : Demuxer)
      → is_one_of (epoll_event event_type) bits ≡ true
      → IsMirrored d
      → IsMirrored (add_epoll_event kernel event_type fd d)
  unfolding add_epoll_event
  add_epoll_event-IsMirrored event_type fd d is_bit k = elim (Option-cases (mask_of d fd)) [
    | inl e ↦ rw (e, add_found) (add_mask-IsMirrored (epoll_event event_type) fd d is_bit e k)
    | inr (mask, e) ↦
        rw (e, add_found) (add_to_mask-IsMirrored (epoll_event event_type) fd mask d is_bit e k)
  ]

  del_found-IsMirrored :
      (bit fd : ℕ) (o : Option ℕ) (d : Demuxer)
      → is_one_of bit bits ≡ true
      → mask_of d fd ≡ o
      → IsMirrored d
      → IsMirrored (del_found kernel bit fd o d)
  del_found-IsMirrored bit fd none d is_bit e k = k
  del_found-IsMirrored bit fd (some mask) d is_bit e k = elim (Bool-cases (bit == 0)) [
    | inl z ↦ rw z k
    | inr z ↦ rw z (del_from_mask-IsMirrored bit fd mask d is_bit e k)
  ]

  pub del_epoll_event-IsMirrored :
      (event_type fd : ℕ) (d : Demuxer)
      → is_one_of (epoll_event event_type) bits ≡ true
      → IsMirrored d
      → IsMirrored (del_epoll_event kernel event_type fd d)
  unfolding del_epoll_event
  del_epoll_event-IsMirrored event_type fd d is_bit k =
      del_found-IsMirrored (epoll_event event_type) fd _ d is_bit refl k

  del_all_found-IsMirrored :
      (fd : ℕ) (o : Option ℕ) (d : Demuxer)
      → IsMirrored d
      → IsMirrored (del_all_found kernel fd o d)
  unfolding interest
  del_all_found-IsMirrored fd none d k = k
  del_all_found-IsMirrored fd (some mask) d k = rw (documented.removes fd) (
      changed-IsMirrored fd none d _ refl (λ l. lookup-remove fd l d.epoll_events_by_io_handle)
        (λ l. refl) k)

  if-IsMirrored :
      (b : Bool) (d e : Demuxer)
      → IsMirrored d
      → IsMirrored e
      → let g : Demuxer = if b then d else e in IsMirrored g
  if-IsMirrored true d e p q = p
  if-IsMirrored false d e p q = q

  pub apply_ctrl_event-IsMirrored :
      (event_type fd : ℕ) (d : Demuxer)
      → IsMirrored d
      → IsMirrored (apply_ctrl_event kernel event_type fd d)
  unfolding apply_ctrl_event del_epoll_events is_one_of
  apply_ctrl_event-IsMirrored event_type fd d k =
      let added = λ (t : ℕ) (h : is_one_of (epoll_event t) bits ≡ true).
        add_epoll_event-IsMirrored t fd d h k in
      let deleted = λ (t : ℕ) (h : is_one_of (epoll_event t) bits ≡ true).
        del_epoll_event-IsMirrored t fd d h k in
      if-IsMirrored (event_type == event_register_all) _ _
        (add_epoll_event-IsMirrored 3 fd _ refl
          (add_epoll_event-IsMirrored 2 fd _ refl (added 1 refl)))
        (if-IsMirrored (event_type == event_register_read) _ _ (added 1 refl) (
          if-IsMirrored (event_type == event_register_write) _ _ (added 2 refl) (
            if-IsMirrored (event_type == event_register_error) _ _ (added 3 refl) (
              if-IsMirrored (event_type == event_remove_read) _ _ (deleted 1 refl) (
                if-IsMirrored (event_type == event_remove_write) _ _ (deleted 2 refl) (
                  if-IsMirrored (event_type == event_remove_error) _ _ (deleted 3 refl) (
                    if-IsMirrored (event_type == event_remove_all) _ _
                      (del_all_found-IsMirrored fd (mask_of d fd) d k) k)))))))

created-IsMirrored : IsMirrored created
unfolding lookup interest
created-IsMirrored = record { wanted = λ fd. refl; mirrored = λ fd. refl }

pub init-IsMirrored :
    (kernel : Kernel) (epoll_created : Bool) (pipe : Option ℕ)
    → IsDocumented kernel
    → IsMirrored (init kernel epoll_created pipe created).0
unfolding init is_one_of
init-IsMirrored kernel epoll_created none documented = created-IsMirrored
init-IsMirrored kernel true (some fd) documented =
    add_epoll_event-IsMirrored kernel documented event_read fd
      (record created { pipe_ctrl_event_recv = fd }) refl
      (record { wanted = created-IsMirrored.wanted; mirrored = created-IsMirrored.mirrored })
init-IsMirrored kernel false (some fd) documented = created-IsMirrored
