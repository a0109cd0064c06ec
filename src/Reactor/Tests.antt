-- ===== src/Reactor/Tests.antt =====
-- The dispatch of events at concrete inputs.
use io_reactor.Prelude.{ℕ, false, some, none, [], ◌∷◌, ◌≡◌, ◌⊎◌, inr, refl, lookup, arith}
use io_reactor.Demuxer.{EventData, created, event_remove_all, event_close}
use io_reactor.Timer.{time_of}
use io_reactor.Timer.Agreement.{deadline, empty, empty-IsConsistent}
use io_reactor.Reactor.{
  requests_set_timeout, requests_writable, Reactor, World, dispatch_event,
  dispatch_demuxer_event_io, dispatch_reactor_event, dispatch_demuxer_event_result,
  event_timeout_add,
}
use io_reactor.Reactor.Safety.{IsSafe, dispatch_event-IsSafe}
use io_reactor.Reactor.Run.{Own, run_shutdown, run_shutdown-no_timeout}
use io_reactor.Reactor.Closing.{close_event_once}

-- Every callback asks to be written to and for a timeout.
abbrev eager : World
eager = record {
  io_handle = λ handler. 7;
  requests = λ c. requests_writable 64 ∷ requests_set_timeout 64 5 ∷ [];
  errno = 0;
}

abbrev started : Reactor
started = record {
  handlers = (7, 64) ∷ [];
  handle_close_call = [];
  handler_count = 1;
  reactor_handler = 0;
  stop = false;
  timer = empty;
  demuxer = created;
  log = [];
}

started-IsSafe : IsSafe started
unfolding time_of
started-IsSafe = record {
  consistent = empty-IsConsistent;
  timed = λ o t e. absurd (ground (arith, e));
}

abbrev timeout : EventData
timeout = record { recv_event = event_timeout_add; io_handle = 7; user_data = 5 }

abbrev waiting : Reactor
waiting = (dispatch_event eager 100 101 timeout started).0

-- A removal after a timeout was set.
abbrev removal : EventData
removal = record { recv_event = event_remove_all; io_handle = 7; user_data = 64 }

waiting-IsSafe : IsSafe waiting
waiting-IsSafe =
    dispatch_event-IsSafe eager 100 101 timeout started (λ h e f. absurd (omega (arith, e)))
      started-IsSafe

only_handler :
    (h : ℕ)
    → lookup removal.io_handle waiting.handlers ≡ some h
    → (removal.user_data ≡ 0) ⊎ (removal.user_data ≡ h)
unfolding dispatch_event dispatch_reactor_event dispatch_demuxer_event_io
    dispatch_demuxer_event_result lookup
only_handler h f = inr (ground (arith, f))

dispatch_event-IsSafe_example : IsSafe (dispatch_event eager 102 103 removal waiting).0
dispatch_event-IsSafe_example =
    dispatch_event-IsSafe eager 102 103 removal waiting (λ h e f. only_handler h f) waiting-IsSafe

abbrev closing : EventData
closing = record { recv_event = event_close; io_handle = 7; user_data = 0 }

found : lookup closing.io_handle started.handlers ≡ some 64
unfolding lookup
found = refl

close_event_once_example :
    dispatch_demuxer_event_io eager closing (dispatch_demuxer_event_io eager closing started)
    ≡ dispatch_demuxer_event_io eager closing started
close_event_once_example = close_event_once eager closing 64 started refl found

abbrev alone : Own
alone = record { has_factory = false; made = 0; initialised = false }

run_shutdown-no_timeout_example : deadline (run_shutdown eager alone waiting).timer 64 ≡ none
run_shutdown-no_timeout_example = run_shutdown-no_timeout eager alone waiting 64 waiting-IsSafe
