-- ===== src/Reactor/Run.antt =====
-- `init`, `run` and `run_shutdown` of reactor/Reactor.h and reactor/Reactor.cpp. Clocks, epoll and
-- what the factory of the reactor's own handler makes are arguments.
use io_reactor.Prelude.{
  ℕ, zero, suc, Bool, true, false, not, ◌&&◌, Option, none, some, List, [], ◌∷◌, ◌>>=◌, ◌==◌,
  if◌then◌else◌, ◌≡◌, refl, ap, ◌∙◌, arith, ◌||◌, lookup, Option-cases, inl, inr,
}
use io_reactor.Demuxer
use io_reactor.Demuxer.{Kernel, EventData, wait, remove_all_events}
use io_reactor.Timer.{get_min_timeout_milliseconds, remove_timeout}
use io_reactor.Timer.Agreement.{deadline, remove_timeout-deadline}
use io_reactor.Reactor.Same.{call_back-IsSame}
use io_reactor.Reactor.Safety.{IsSafe}
use io_reactor.Reactor.{
  handle_shutdown, reactor_handle_error, destroy, Reactor, World, queue, call_back,
  register_event_handler, dispatch, run_timeout_handler,
}

-- Whether epoll and the pipe can be made; the number of clients is only a hint for epoll.
unfoldable pub init : Kernel → Bool → Option ℕ → Reactor → Reactor × Bool
init kernel epoll_created pipe r =
    let (d, ready) = Demuxer.init kernel epoll_created pipe r.demuxer in
    (record r { handler_count = 0; stop = false; demuxer = d }, ready)

-- What there is of the reactor's own handler: its factory, the handler that it makes, where zero is
-- the null pointer, and whether that handler can be initialised.
pub record Own : Type 0 where
  pub has_factory : Bool
  pub made : ℕ
  pub initialised : Bool

unfoldable pub run_reactor_handler : World → Own → Reactor → Reactor
run_reactor_handler w own r =
    let h = record r { reactor_handler = own.made } in
    let failed =
      record (call_back w (destroy own.made)
        (call_back w (reactor_handle_error own.made w.errno) h)) { reactor_handler = 0 } in
    if not own.has_factory
    then r
    else if own.made == 0
    then h
    else if own.initialised
    then (register_event_handler own.made (w.io_handle own.made) h).0
    else failed

-- What the outside does in one round of the loop: the clock of each look at the timers, of each
-- extraction and of the dispatch, what is in the pipe, and what `epoll_wait` tells.
pub record Round : Type 0 where
  pub now : ℕ → ℕ
  pub extraction : ℕ → ℕ → ℕ
  pub dispatching : ℕ → ℕ
  pub peek : ℕ → Bool
  pub epoll : Option (List (ℕ × ℕ))

abbrev pub is_zero : Option ℕ → Bool
is_zero (some zero) = true
is_zero _ = false

-- The inner loop, which runs the timeouts while the waiting time is zero; `none` is a loop that has
-- not ended in that many rounds.
unfoldable pub due_timeouts : ℕ → World → Round → ℕ → Reactor → Option Reactor
due_timeouts zero w o i r = none
due_timeouts (suc fuel) w o i r =
    let more = due_timeouts fuel w o (suc i) (run_timeout_handler w (o.extraction i) r) in
    if is_zero (get_min_timeout_milliseconds (o.now i) r.timer) then more else some r

abbrev pub no_events : List EventData → Bool
no_events [] = true
no_events (e ∷ es) = false

-- The rest of a round: whether the loop is left.
unfoldable pub wait_and_dispatch : Kernel → World → Round → ℕ → Reactor → Reactor × Bool
wait_and_dispatch kernel w o i r =
    let (d, events) = wait kernel o.peek o.epoll r.demuxer in
    let h = record r { demuxer = d } in
    if no_events events
    then (run_timeout_handler w (o.extraction i) h, false)
    else dispatch w o.dispatching 0 events h

-- `run_shutdown`'s loop over the handlers.
unfoldable pub shutdown_loop : World → List (ℕ × ℕ) → Reactor → Reactor
shutdown_loop w [] r = r
shutdown_loop w ((fd, handler) ∷ handlers) r =
    shutdown_loop w handlers
      (queue (remove_all_events true (w.io_handle handler) 0 false) (
        call_back w (handle_shutdown handler)
          (record r { timer = (remove_timeout handler r.timer).0 }))).0

unfoldable pub run_shutdown : World → Own → Reactor → Reactor
run_shutdown w own r =
    let h = shutdown_loop w r.handlers r in
    if not (h.reactor_handler == 0) && own.has_factory
    then record (call_back w (destroy h.reactor_handler) h) { reactor_handler = 0 }
    else h

-- The loop of `run`, on the rounds that the outside gives; `none` is a loop that has not ended.
unfoldable pub run_loop : Kernel → World → Own → ℕ → List Round → Reactor → Option Reactor
run_loop kernel w own fuel [] r = none
run_loop kernel w own fuel (o ∷ rounds) r = do
  h ← due_timeouts fuel w o 0 r
  let (after, stopped) = wait_and_dispatch kernel w o fuel h
  let more = run_loop kernel w own fuel rounds after
  if stopped then some (record (run_shutdown w own after) { stop = true }) else more

unfoldable pub run : Kernel → World → Own → ℕ → List Round → Reactor → Option Reactor
run kernel w own fuel rounds r =
    run_loop kernel w own fuel rounds (run_reactor_handler w own (record r { stop = false }))

abbrev pub is_handler : ℕ → List (ℕ × ℕ) → Bool
is_handler o [] = false
is_handler o ((fd, handler) ∷ handlers) = handler == o || is_handler o handlers

lookup-is_handler :
    (fd o : ℕ) (handlers : List (ℕ × ℕ))
    → lookup fd handlers ≡ some o
    → is_handler o handlers ≡ true
unfolding lookup
lookup-is_handler fd o [] e = ground (arith, e)
lookup-is_handler fd o ((k, handler) ∷ handlers) e =
    ground (arith, e, lookup-is_handler fd o handlers)

-- The loop takes the handlers out of the timer.
shutdown_loop-deadline :
    (w : World) (handlers : List (ℕ × ℕ)) (r : Reactor) (o : ℕ)
    → deadline (shutdown_loop w handlers r).timer o
      ≡ (if is_handler o handlers then none else deadline r.timer o)
unfolding shutdown_loop
shutdown_loop-deadline w [] r o = refl
shutdown_loop-deadline w ((fd, handler) ∷ handlers) r o =
    let g = record r { timer = (remove_timeout handler r.timer).0 } in
    let called = call_back w (handle_shutdown handler) g in
    let same = call_back-IsSame w (handle_shutdown handler) g in
    let next = (queue (remove_all_events true (w.io_handle handler) 0 false) called).0 in
    let step = shutdown_loop-deadline w handlers next o in
    let taken = ap (λ m. deadline m o) same.timer ∙ remove_timeout-deadline handler o r.timer in
    ground (arith, step, taken)

run_shutdown-timer :
    (w : World) (own : Own) (r : Reactor)
    → (run_shutdown w own r).timer ≡ (shutdown_loop w r.handlers r).timer
unfolding run_shutdown
run_shutdown-timer w own r =
    let h = shutdown_loop w r.handlers r in
    choose (not (h.reactor_handler == 0) && own.has_factory)
      (record (call_back w (destroy h.reactor_handler) h) { reactor_handler = 0 }) h
      (call_back-IsSame w (destroy h.reactor_handler) h).timer
  where
    choose :
        (b : Bool) (p q : Reactor)
        → p.timer ≡ q.timer
        → let x : Reactor = if b then p else q in x.timer ≡ q.timer
    choose true p q e = e
    choose false p q e = refl

-- After `run_shutdown` no timeout is left, if the timer had only handlers of the reactor.
pub run_shutdown-no_timeout :
    (w : World) (own : Own) (r : Reactor) (o : ℕ)
    → IsSafe r
    → deadline (run_shutdown w own r).timer o ≡ none
run_shutdown-no_timeout w own r o k =
    ap (λ m. deadline m o) (run_shutdown-timer w own r) ∙ elim (Option-cases (deadline r.timer o)) [
      | inl absent ↦ ground (arith, absent, shutdown_loop-deadline w r.handlers r o)
      | inr (t, there) ↦
          let (fd, found) = k.timed o t there in
          ground (
            arith,
            lookup-is_handler fd o r.handlers found,
            shutdown_loop-deadline w r.handlers r o,
          )
    ]
