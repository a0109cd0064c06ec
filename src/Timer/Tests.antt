-- ===== src/Timer/Tests.antt =====
-- The timer at concrete inputs.
use io_reactor.Prelude.{
  ◌+◌, ◌-◌, ◌*◌, ◌/◌, ◌^◌, ◌≡◌, ◌==◌, if◌then◌else◌, none, some, [], ◌∷◌, refl, arith,
}
use io_reactor.Timer.{
  extract_loop, time_of, find, put, add, is_in, erase_object, ObjectsTimer, remove_timeout,
  register_timeout, millisecond, is_due, extract_timeout_objects, get_min_timeout_milliseconds,
}
use io_reactor.Timer.Agreement.{
  empty, empty-IsConsistent, IsConsistent, deadline, register_timeout-IsConsistent,
  register_timeout-buckets, remove_timeout-IsConsistent, remove_timeout-deadline,
}
use io_reactor.Timer.Expiry.{Extracted, extract_timeout_objects-Extracted}
use io_reactor.Timer.Poll.{get_min_timeout_milliseconds-due, far_deadline_spins}

-- Object 7 after five milliseconds, and object 8 after three.
abbrev seven : ObjectsTimer
seven = (register_timeout 100 101 5 7 empty).0

abbrev both : ObjectsTimer
both = (register_timeout 100 101 3 8 seven).0

remove_timeout-deadline_example :
    deadline (remove_timeout 8 both).0 8 ≡ (if 8 == 8 then none else deadline both 8)
remove_timeout-deadline_example = remove_timeout-deadline 8 8 both

seven-IsConsistent : IsConsistent seven
seven-IsConsistent = register_timeout-IsConsistent 100 101 5 7 empty empty-IsConsistent

register_timeout-IsConsistent_example : IsConsistent both
register_timeout-IsConsistent_example =
    register_timeout-IsConsistent 100 101 3 8 seven seven-IsConsistent

both-IsConsistent : IsConsistent both
both-IsConsistent = register_timeout-IsConsistent 100 101 3 8 seven seven-IsConsistent

remove_timeout-IsConsistent_example : IsConsistent (remove_timeout 8 both).0
remove_timeout-IsConsistent_example = remove_timeout-IsConsistent 8 both both-IsConsistent

-- Object 7 is registered again: it leaves the bucket it was in.
register_timeout-buckets_example :
    (deadline (register_timeout 200 201 4 7 both).0 7
      ≡ (if 7 == 7 then some (200 + 4 * millisecond) else deadline both 7))
    × (is_in 7 (find (100 + 5 * millisecond) (register_timeout 200 201 4 7 both).0.time_object) ≡ (
        if 7 == 7
        then 100 + 5 * millisecond == 200 + 4 * millisecond
        else is_in 7 (find (100 + 5 * millisecond) both.time_object)))
register_timeout-buckets_example =
    register_timeout-buckets 200 201 4 7 7 (100 + 5 * millisecond) both both-IsConsistent

-- At four milliseconds only object 8 is due.
extracted : (extract_timeout_objects (λ i. 4000000) both).1 ≡ (8 ∷ []) ∷ []
unfolding extract_timeout_objects extract_loop register_timeout remove_timeout time_of find put add
    is_in erase_object
extracted = refl

extract_timeout_objects-Extracted_example :
    Extracted 4000000 4000000 both (extract_timeout_objects (λ i. 4000000) both)
extract_timeout_objects-Extracted_example =
    extract_timeout_objects-Extracted (λ i. 4000000) 4000000 4000000 both
      (λ i. (omega arith, omega arith)) both-IsConsistent

get_min_timeout_milliseconds-due_example :
    get_min_timeout_milliseconds 1000000
      (record { time_object = (3500000, 8 ∷ []) ∷ []; object_time = (8, 3500000) ∷ [] })
    ≡ (if is_due 1000000 3500000 then some 0 else some ((3500000 - 1000000) / millisecond))
get_min_timeout_milliseconds-due_example =
    get_min_timeout_milliseconds-due 1000000 3500000 (8 ∷ []) [] ((8, 3500000) ∷ []) (omega arith)
      (omega arith)

far_deadline_spins_example :
    let s : ObjectsTimer = record {
      time_object = (2 ^ 31 * millisecond, 8 ∷ []) ∷ [];
      object_time = [];
    } in
    (get_min_timeout_milliseconds 0 s ≡ some 0) × (extract_timeout_objects (λ i. i) s ≡ (s, []))
far_deadline_spins_example =
    far_deadline_spins (λ i. i) (2 ^ 31 * millisecond) (8 ∷ []) [] [] (omega arith) (omega arith)
