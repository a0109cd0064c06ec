-- ===== src/Timer/Poll.antt =====
-- The waiting time that the reactor polls with, and the extraction that follows a waiting time of
-- zero: the first is cut to 32 bits, the second tests 64.
use io_reactor.Prelude.{
  ℕ, ◌+◌, ◌-◌, ◌*◌, ◌/◌, ◌^◌, ◌≤◌, ◌<◌, some, List, [], ◌∷◌, ◌≡◌, arith, if◌then◌else◌,
}
use io_reactor.Timer.{
  Buckets, Times, milliseconds_left, get_min_timeout_milliseconds, ObjectsTimer, millisecond,
  is_due, extract_loop, extract_timeout_objects,
}

-- For a first deadline less than 2^31 milliseconds away, before or after: the waiting time is zero if
-- the deadline is due, and else the whole milliseconds that are left.
pub get_min_timeout_milliseconds-due :
    (now t : ℕ) (b : List ℕ) (m : Buckets) (times : Times)
    → now < t + 2 ^ 31 * millisecond
    → t < now + 2 ^ 31 * millisecond
    → get_min_timeout_milliseconds now (record { time_object = (t, b) ∷ m; object_time = times })
      ≡ (if is_due now t then some 0 else some ((t - now) / millisecond))
unfolding get_min_timeout_milliseconds milliseconds_left
get_min_timeout_milliseconds-due now t b m times past future = ground arith

-- For a first deadline that is 2^31 to 2^32 milliseconds away, the waiting time is zero, and the
-- extraction leaves the timer as it was: the reactor's loop that runs as long as the waiting time is
-- zero makes no progress.
pub far_deadline_spins :
    (clock : ℕ → ℕ) (t : ℕ) (b : List ℕ) (m : Buckets) (times : Times)
    → clock 0 + 2 ^ 31 * millisecond ≤ t
    → t < clock 0 + 2 ^ 32 * millisecond
    → let s : ObjectsTimer = record { time_object = (t, b) ∷ m; object_time = times } in
      (get_min_timeout_milliseconds (clock 0) s ≡ some 0)
      × (extract_timeout_objects clock s ≡ (s, []))
unfolding get_min_timeout_milliseconds milliseconds_left extract_timeout_objects extract_loop
far_deadline_spins clock t b m times far near = (ground arith, ground arith)
