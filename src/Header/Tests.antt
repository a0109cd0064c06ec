-- ===== src/Header/Tests.antt =====
-- Runs of the header on small inputs.
use io_reactor.Prelude.{true, not, ◌||◌, ◌&&◌, none, some, [], ◌∷◌, ◌++◌, if◌then◌else◌, ◌≡◌, refl}
use io_reactor.Text.{Bytes, codes, same, less, to_lower, tolower}
use io_reactor.Header.{
  HttpHeader, empty, add, append, set, del, del_value, clear, contains, contains_value, is_empty,
  iterator_of, find_name, find_value, put_name, put_value, get_values, same_name,
}
use io_reactor.Header.Print.{to_string, print_loop, add_line}
use io_reactor.Header.Index.{IsIndexed, empty-IsIndexed}
use io_reactor.Header.Removal.{Removed, this_one, del_value-Removed}
use io_reactor.Header.Updates.{add-IsIndexed, set-IsIndexed, del-Removed, clear-del_value_faults}

abbrev accept : Bytes
accept = codes "Accept"

abbrev one_value : HttpHeader
one_value = (add (codes "accept") (codes "b") empty).0

abbrev two_values : HttpHeader
two_values = (add accept (codes "a") one_value).0

one_value-IsIndexed : IsIndexed one_value
one_value-IsIndexed = (add-IsIndexed (codes "accept") (codes "b") empty empty-IsIndexed).0

two_values-IsIndexed : IsIndexed two_values
two_values-IsIndexed = (add-IsIndexed accept (codes "a") one_value one_value-IsIndexed).0

-- The values come back in their order, the lines in the order of the list.
two_values_run : get_values accept two_values ≡ codes "a" ∷ codes "b" ∷ []
unfolding get_values add append contains_value iterator_of find_name find_value put_name put_value
    same less to_lower tolower
two_values_run = refl

two_values_text : to_string two_values ≡ codes "accept: b" ++ (13 ∷ 10 ∷ codes "Accept: a")
unfolding to_string print_loop add_line add append contains_value iterator_of find_name find_value
    put_name put_value same less to_lower tolower
two_values_text = refl

set-IsIndexed_example :
    (g : HttpHeader) × ((set accept (codes "a") two_values ≡ some g)
      × (IsIndexed g
          × ((m w : Bytes)
              → contains_value m w g ≡ (
                  if this_one accept (codes "a") m w
                  then true
                  else contains_value m w two_values))))
set-IsIndexed_example = set-IsIndexed accept (codes "a") two_values two_values-IsIndexed

add-IsIndexed_example :
    IsIndexed (add accept (codes "c") two_values).0
    × ((add accept (codes "c") two_values).1
        ≡ not (
            is_empty accept
            || is_empty (codes "c")
            || contains_value accept (codes "c") two_values))
    × ((m w : Bytes)
        → contains_value m w (add accept (codes "c") two_values).0 ≡ (
            if not (is_empty accept || is_empty (codes "c")) && this_one accept (codes "c") m w
            then true
            else contains_value m w two_values))
add-IsIndexed_example = add-IsIndexed accept (codes "c") two_values two_values-IsIndexed

del-Removed_example :
    (g : HttpHeader) × ((del accept two_values ≡ some (g, contains accept two_values))
      × Removed (λ m w. same_name m accept) two_values g)
del-Removed_example = del-Removed accept two_values two_values-IsIndexed

del_value-Removed_example :
    (g : HttpHeader) × ((del_value accept (codes "b") two_values
        ≡ some (g, contains_value accept (codes "b") two_values))
      × Removed (this_one accept (codes "b")) two_values g)
del_value-Removed_example = del_value-Removed accept (codes "b") two_values two_values-IsIndexed

two_values-contains : contains_value accept (codes "b") two_values ≡ true
unfolding add append contains_value iterator_of find_name find_value put_name put_value same less
    to_lower tolower
two_values-contains = refl

clear-del_value_faults_example :
    (del_value accept (codes "b") (clear two_values) ≡ none)
    × (contains_value accept (codes "b") (clear two_values) ≡ true)
clear-del_value_faults_example =
    clear-del_value_faults accept (codes "b") two_values two_values-contains
