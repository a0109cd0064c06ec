-- ===== src/Demuxer/Tests.antt =====
-- The demuxer at concrete inputs.
use Prim.Native.Nat.{bit_or}
use io_reactor.Demuxer.Listening.{init-listens}
use io_reactor.Prelude.{
  ℕ, true, false, not, ◌&&◌, none, some, [], ◌∷◌, ◌++◌, ◌≡◌, refl, ◌==◌, if◌then◌else◌, lookup,
  insert, remove,
}
use io_reactor.Demuxer.{
  init_epoll_event_value, Demuxer, Kernel, EventData, created, init, wait, raise_event,
  add_epoll_event, del_epoll_event, epoll_event, event_write, event_register_read, epollin,
  epollout, del_from_mask,
}
use io_reactor.Demuxer.Interest.{interest, IsMirrored, IsDocumented, init-IsMirrored, mask_of}
use io_reactor.Demuxer.Masks.{is_one_of}
use io_reactor.Demuxer.Events.{
  wants, is_known, returned, add_epoll_event-wants, del_epoll_event-wants, wait-IsMirrored,
  raise_event-wait,
}

abbrev willing : Kernel
willing c = true

willing-IsDocumented : IsDocumented willing
willing-IsDocumented = record { changes = λ fd mask. refl; removes = λ fd. refl }

-- A demuxer whose pipe is read at handle 3, with the registration of handle 7 in its queue.
abbrev fresh : Demuxer
fresh = (init willing true (some 3) created).0

abbrev queued : Demuxer
queued = (raise_event true event_register_read 7 64 true fresh).0

fresh-IsMirrored : IsMirrored fresh
fresh-IsMirrored = init-IsMirrored willing true (some 3) willing-IsDocumented

queued-IsMirrored : IsMirrored queued
unfolding raise_event
queued-IsMirrored = record {
  wanted = fresh-IsMirrored.wanted;
  mirrored = fresh-IsMirrored.mirrored;
}

wait-IsMirrored_example :
    IsMirrored (wait willing (λ fd. true) (some ((7, epollin) ∷ (3, epollin) ∷ [])) queued).0
wait-IsMirrored_example =
    wait-IsMirrored willing (λ fd. true) (some ((7, epollin) ∷ (3, epollin) ∷ [])) queued
      willing-IsDocumented queued-IsMirrored

abbrev registration : EventData
registration = record { recv_event = event_register_read; io_handle = 9; user_data = 80 }

init-listens_example :
    let d : Demuxer = (init willing true (some 3) created).0 in
    let raised : Demuxer = (raise_event false event_register_read 9 80 true d).0 in
    ((init willing true (some 3) created).1 ≡ true)
    × ((k : ℕ)
        → interest d.log k
          ≡ (if 3 == k then some (bit_or init_epoll_event_value epollin) else none))
    × ((wait willing (λ fd. true) (some ((3, epollin) ∷ [])) raised).1 ≡ registration ∷ [])
init-listens_example = init-listens willing (λ fd. true) 3 registration refl refl

raise_event-wait_example :
    let raised : Demuxer = (raise_event true event_register_read 9 80 true queued).0 in
    (wait willing (λ fd. true) none raised).1 ≡ returned queued.wait_events ++ registration ∷ []
raise_event-wait_example = raise_event-wait willing (λ fd. true) none registration queued refl

add_epoll_event-wants_example :
    wants (add_epoll_event willing event_write 3 fresh) 3 epollout
    ≡ (if 3 == 3 && epoll_event event_write == epollout then true else wants fresh 3 epollout)
unfolding is_one_of
add_epoll_event-wants_example =
    add_epoll_event-wants willing event_write 3 3 epollout fresh willing-IsDocumented
      (λ fd mask. refl) refl refl fresh-IsMirrored

-- Handle 3 did not want to be written.
del_epoll_event-wants_example : wants (del_epoll_event willing event_write 3 fresh) 3 epollout ≡ (
    if 3 == 3 && epoll_event event_write == epollout
    then is_known (mask_of fresh 3) && not (wants fresh 3 epollout)
    else wants fresh 3 epollout)
unfolding is_one_of
del_epoll_event-wants_example =
    del_epoll_event-wants willing event_write 3 3 epollout fresh willing-IsDocumented refl refl
      fresh-IsMirrored

toggled_on : wants (del_epoll_event willing event_write 3 fresh) 3 epollout ≡ true
unfolding del_epoll_event del_from_mask init add_epoll_event lookup insert remove
toggled_on = refl
