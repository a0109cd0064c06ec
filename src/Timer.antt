-- ===== src/Timer.antt =====
-- reactor/ObjectsTimer.h: the timer of a reactor, which keeps its objects by deadline and the
-- deadline of each object. Objects are compared as pointers are; a time is a number of nanoseconds.
-- Each reading of the clock is an argument.
pub mod Maps
pub mod Agreement
pub mod Expiry
pub mod Poll
mod Tests
use io_reactor.Prelude.{
  ℕ, zero, suc, ◌+◌, ◌-◌, ◌*◌, ◌/◌, ◌%◌, ◌^◌, Bool, true, false, not, ◌&&◌, Option, none, some,
  List, [], ◌∷◌, ltb, leb, ◌==◌, if◌then◌else◌, length,
}

-- A bucket: `std::unordered_set`.
unfoldable pub is_in : ℕ → List ℕ → Bool
is_in o [] = false
is_in o (x ∷ xs) = if o == x then true else is_in o xs

unfoldable pub add : ℕ → List ℕ → List ℕ
add o xs = if is_in o xs then xs else o ∷ xs

unfoldable pub erase : ℕ → List ℕ → List ℕ
erase o [] = []
erase o (x ∷ xs) = let rest = erase o xs in if o == x then rest else x ∷ rest

-- `std::map` from a time to a bucket, in the order of the times. `find` gives the empty bucket for a
-- time that is not there, as `operator[]` does.
abbrev pub Buckets : Type 0
Buckets = List (ℕ × List ℕ)

unfoldable pub find : ℕ → Buckets → List ℕ
find t [] = []
find t ((u, b) ∷ m) = if t == u then b else find t m

unfoldable pub put : ℕ → List ℕ → Buckets → Buckets
put t b [] = (t, b) ∷ []
put t b ((u, c) ∷ m) =
    let rest = put t b m in
    if ltb t u then (t, b) ∷ (u, c) ∷ m else if t == u then (t, b) ∷ m else (u, c) ∷ rest

unfoldable pub erase_time : ℕ → Buckets → Buckets
erase_time t [] = []
erase_time t ((u, b) ∷ m) = let rest = erase_time t m in if t == u then rest else (u, b) ∷ rest

-- `std::unordered_map` from an object to its time.
abbrev pub Times : Type 0
Times = List (ℕ × ℕ)

unfoldable pub time_of : ℕ → Times → Option ℕ
time_of o [] = none
time_of o ((p, t) ∷ m) = if o == p then some t else time_of o m

unfoldable pub erase_object : ℕ → Times → Times
erase_object o [] = []
erase_object o ((p, t) ∷ m) = let rest = erase_object o m in if o == p then rest else (p, t) ∷ rest

abbrev pub erase_objects : List ℕ → Times → Times
erase_objects [] m = m
erase_objects (o ∷ os) m = erase_objects os (erase_object o m)

pub record ObjectsTimer : Type 0 where
  pub time_object : Buckets
  pub object_time : Times

abbrev pub millisecond : ℕ
millisecond = 1000000

-- The count of milliseconds from `now` to `t`, cut towards zero, as the bits of an `int32_t`.
unfoldable pub milliseconds_left : ℕ → ℕ → ℕ
milliseconds_left now t =
    if leb now t
    then ((t - now) / millisecond) % 2 ^ 32
    else (2 ^ 32 - ((now - t) / millisecond) % 2 ^ 32) % 2 ^ 32

-- `none` is the result -1.
unfoldable pub get_min_timeout_milliseconds : ℕ → ObjectsTimer → Option ℕ
get_min_timeout_milliseconds now s = first s.time_object
  where
    first : Buckets → Option ℕ
    first [] = none
    first ((t, b) ∷ m) =
        let min = milliseconds_left now t in
        if ltb 0 min && ltb min (2 ^ 31) then some min else some 0

abbrev pub is_empty : List ℕ → Bool
is_empty [] = true
is_empty (x ∷ xs) = false

-- The erasure of an object that has a time.
unfoldable pub remove_at : ℕ → ℕ → ObjectsTimer → ObjectsTimer
remove_at o t s =
    let erased = put t (erase o (find t s.time_object)) s.time_object in
    record {
      time_object = if is_empty (find t erased) then erase_time t erased else erased;
      object_time = erase_object o s.object_time;
    }

-- The guard `object_time_.count(object) == 0`.
abbrev pub remove_found : Option ℕ → ℕ → ObjectsTimer → ObjectsTimer × Bool
remove_found none o s = (s, false)
remove_found (some t) o s = (remove_at o t s, true)

unfoldable pub remove_timeout : ℕ → ObjectsTimer → ObjectsTimer × Bool
remove_timeout o s = remove_found (time_of o s.object_time) o s

-- Two readings of the clock: for the deadline and for the result.
unfoldable pub register_timeout : ℕ → ℕ → ℕ → ℕ → ObjectsTimer → ObjectsTimer × Option ℕ
register_timeout now later msec o s =
    let removed = (remove_timeout o s).0 in
    let t = now + msec * millisecond in
    let registered : ObjectsTimer = record {
      time_object = put t (add o (find t removed.time_object)) removed.time_object;
      object_time = (o, t) ∷ removed.object_time;
    } in
    (registered, get_min_timeout_milliseconds later registered)

-- The negation of the test that ends the loop, on 64 bits.
abbrev pub is_due : ℕ → ℕ → Bool
is_due now t = ltb t (now + millisecond)

-- The loop over the buckets; `clock i` is the reading in round `i`.
unfoldable pub extract_loop : (ℕ → ℕ) → ℕ → Buckets → Times → ObjectsTimer × List (List ℕ)
extract_loop clock i [] times = (record { time_object = []; object_time = times }, [])
extract_loop clock i ((t, b) ∷ m) times =
    let (left, out) = extract_loop clock (suc i) m (erase_objects b times) in
    if is_due (clock i) t
    then (left, b ∷ out)
    else (record { time_object = (t, b) ∷ m; object_time = times }, [])

unfoldable pub extract_timeout_objects : (ℕ → ℕ) → ObjectsTimer → ObjectsTimer × List (List ℕ)
extract_timeout_objects clock s = extract_loop clock 0 s.time_object s.object_time

abbrev pub size : ObjectsTimer → ℕ
size s = length s.time_object
