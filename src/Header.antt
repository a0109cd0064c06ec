-- ===== src/Header.antt =====
-- http1_protocol/HttpHeader.h: the list of names and values with its index. An iterator of the list
-- is the number of its element; each element gets a new one. What erases an element that the list
-- has no longer, which is undefined in the code, is `none` here. A copy of a header is the header
-- itself; the code copies the iterators too, which then point into the list that was copied.
pub mod Print
pub mod Maps
pub mod Order
pub mod Index
pub mod Removal
pub mod Updates
pub mod Lists
mod Tests
use io_reactor.Prelude.{
  ℕ, zero, suc, ◌+◌, Bool, true, false, not, ◌&&◌, ◌||◌, Option, none, some, List, [], ◌∷◌, ◌++◌,
  if◌then◌else◌, ◌==◌, ◌>>=◌, length,
}
use io_reactor.Text.{Bytes, same, less, to_lower, strtoll}

pub record Entry : Type 0 where
  pub iterator : ℕ
  pub name : Bytes
  pub value : Bytes

-- The iterators of one name by value, in the order of the values.
abbrev pub Values : Type 0
Values = List (Bytes × ℕ)

pub record HttpHeader : Type 0 where
  pub container : List Entry
  pub its : List (Bytes × Values)
  -- the number of the next element
  pub next : ℕ

-- `ci_less` calls neither name less than the other.
abbrev pub same_name : Bytes → Bytes → Bool
same_name m n = same (to_lower m) (to_lower n)

-- `its_.find(name)`
unfoldable pub find_name : Bytes → List (Bytes × Values) → Option Values
find_name n [] = none
find_name n ((m, values) ∷ its) = if same_name n m then some values else find_name n its

unfoldable pub find_value : Bytes → Values → Option ℕ
find_value v [] = none
find_value v ((w, i) ∷ values) = if same v w then some i else find_value v values

-- `values[value] = iterator`
unfoldable pub put_value : Bytes → ℕ → Values → Values
put_value v i [] = (v, i) ∷ []
put_value v i ((w, j) ∷ values) =
    let rest = put_value v i values in
    if same v w
    then (w, i) ∷ values
    else if less v w
    then (v, i) ∷ (w, j) ∷ values
    else (w, j) ∷ rest

unfoldable pub erase_value : Bytes → Values → Values
erase_value v [] = []
erase_value v ((w, i) ∷ values) =
    let rest = erase_value v values in if same v w then rest else (w, i) ∷ rest

unfoldable pub put_name : Bytes → Values → List (Bytes × Values) → List (Bytes × Values)
put_name n values [] = (n, values) ∷ []
put_name n values ((m, old) ∷ its) =
    let rest = put_name n values its in if same_name n m then (m, values) ∷ its else (m, old) ∷ rest

unfoldable pub erase_name : Bytes → List (Bytes × Values) → List (Bytes × Values)
erase_name n [] = []
erase_name n ((m, values) ∷ its) =
    let rest = erase_name n its in if same_name n m then rest else (m, values) ∷ rest

-- `its_[name]` makes a name that is not there.
abbrev pub values_or_empty : Option Values → Values
values_or_empty none = []
values_or_empty (some values) = values

-- `container_.erase(iterator)`
unfoldable pub erase_entry : ℕ → List Entry → Option (List Entry)
erase_entry i [] = none
erase_entry i (e ∷ es) =
    let rest = erase_entry i es in
    if i == e.iterator then some es else (do es ← rest; some (e ∷ es))

abbrev pub empty : HttpHeader
empty = record { container = []; its = []; next = 0 }

-- `emplace_back` and `its_[name][value] = std::prev(container_.end())`.
unfoldable pub append : Bytes → Bytes → HttpHeader → HttpHeader
append n v h = record {
  container = h.container ++ record { iterator = h.next; name = n; value = v } ∷ [];
  its = put_name n (put_value v h.next (values_or_empty (find_name n h.its))) h.its;
  next = h.next + 1;
}

-- The sum of the lengths of the values.
unfoldable pub size_of : List Entry → ℕ
size_of [] = 0
size_of (e ∷ es) = length e.value + size_of es

abbrev pub size : HttpHeader → ℕ
size h = size_of h.container

-- `count(name)`
abbrev pub count_values : Option Values → ℕ
count_values none = 0
count_values (some values) = length values

unfoldable pub count : Bytes → HttpHeader → ℕ
count n h = count_values (find_name n h.its)

abbrev pub is_found {ℓ} : {A : Type ℓ} → Option A → Bool
is_found none = false
is_found (some a) = true

-- `contains(name)`
unfoldable pub contains : Bytes → HttpHeader → Bool
contains n h = is_found (find_name n h.its)

-- The iterator of a name and a value.
unfoldable pub iterator_of : Bytes → Bytes → List (Bytes × Values) → Option ℕ
iterator_of n v its = find_value v (values_or_empty (find_name n its))

-- `contains(name, value)`
unfoldable pub contains_value : Bytes → Bytes → HttpHeader → Bool
contains_value n v h = is_found (iterator_of n v h.its)

abbrev pub any_lower : Bytes → Values → Bool
any_lower v [] = false
any_lower v ((w, i) ∷ values) = if same (to_lower w) (to_lower v) then true else any_lower v values

-- `contains(name, value, true)`
unfoldable pub contains_lower : Bytes → Bytes → HttpHeader → Bool
contains_lower n v h = any_lower v (values_or_empty (find_name n h.its))

abbrev pub first_value : Values → Bytes
first_value [] = []
first_value ((v, i) ∷ values) = v

-- `get<std::string>(name)`, and `ref_value(name)`
unfoldable pub get : Bytes → HttpHeader → Bytes
get n h = first_value (values_or_empty (find_name n h.its))

abbrev pub first_number : Values → ℕ
first_number [] = 0
first_number ((v, i) ∷ values) = strtoll v

-- `get<size_t>(name)`
unfoldable pub get_number : Bytes → HttpHeader → ℕ
get_number n h = first_number (values_or_empty (find_name n h.its))

abbrev pub keys : Values → List Bytes
keys [] = []
keys ((v, i) ∷ values) = v ∷ keys values

unfoldable pub get_values : Bytes → HttpHeader → List Bytes
get_values n h = keys (values_or_empty (find_name n h.its))

abbrev pub is_empty : Bytes → Bool
is_empty [] = true
is_empty (c ∷ s) = false

-- `add(name, value)`
unfoldable pub add : Bytes → Bytes → HttpHeader → HttpHeader × Bool
add n v h =
    if is_empty n || is_empty v
    then (h, false)
    else if contains_value n v h
    then (h, false)
    else (append n v h, true)

-- `add(header)`
unfoldable pub add_all : List Entry → HttpHeader → HttpHeader
add_all [] h = h
add_all (e ∷ es) h = add_all es (add e.name e.value h).0

-- The loops of the constructors over pairs.
unfoldable pub of_pairs : List (Bytes × Bytes) → HttpHeader → HttpHeader
of_pairs [] h = h
of_pairs ((n, v) ∷ ps) h = of_pairs ps (add n v h).0

-- The constructor from lists of values: `std::find` finds every value in its own list, so that
-- `continue` passes over all of them.
unfoldable pub is_member : Bytes → List Bytes → Bool
is_member v [] = false
is_member v (w ∷ ws) = if same v w then true else is_member v ws

unfoldable pub add_listed : Bytes → List Bytes → List Bytes → HttpHeader → HttpHeader
add_listed n all [] h = h
add_listed n all (v ∷ vs) h =
    let added = add_listed n all vs (add n v h).0 in
    let passed = add_listed n all vs h in if is_member v all then passed else added

unfoldable pub of_lists : List (Bytes × List Bytes) → HttpHeader → HttpHeader
of_lists [] h = h
of_lists ((n, vs) ∷ ps) h = of_lists ps (add_listed n vs vs h)

-- The loop of `del(name)`.
unfoldable pub erase_values : Values → List Entry → Option (List Entry)
erase_values [] es = some es
erase_values ((v, i) ∷ values) es = do es ← erase_entry i es; erase_values values es

-- `del(name)`
abbrev pub del_found : Bytes → Option Values → HttpHeader → Option (HttpHeader × Bool)
del_found n none h = some (h, false)
del_found n (some values) h = do
  es ← erase_values values h.container
  some (record h { container = es; its = erase_name n h.its }, true)

unfoldable pub del : Bytes → HttpHeader → Option (HttpHeader × Bool)
del n h = del_found n (find_name n h.its) h

abbrev pub no_values : Values → Bool
no_values [] = true
no_values (e ∷ values) = false

-- `del(name, value)`
abbrev pub del_value_found :
    Bytes → Bytes → Option ℕ → Values → HttpHeader → Option (HttpHeader × Bool)
del_value_found n v none values h = some (h, false)
del_value_found n v (some i) values h = do
  es ← erase_entry i h.container
  some (
    record h {
      container = es;
      its =
          if no_values (erase_value v values)
          then erase_name n h.its
          else put_name n (erase_value v values) h.its;
    },
    true,
  )

unfoldable pub del_value : Bytes → Bytes → HttpHeader → Option (HttpHeader × Bool)
del_value n v h =
    let values = values_or_empty (find_name n h.its) in
    del_value_found n v (find_value v values) values h

-- `set(name, value)`
unfoldable pub set : Bytes → Bytes → HttpHeader → Option HttpHeader
set n v h = do r ← del_value n v h; some (append n v r.0)

unfoldable pub append_all : Bytes → List Bytes → HttpHeader → HttpHeader
append_all n [] h = h
append_all n (v ∷ vs) h = append_all n vs (append n v h)

-- `set(name, values)`
unfoldable pub set_list : Bytes → List Bytes → HttpHeader → Option HttpHeader
set_list n vs h = do r ← del n h; some (append_all n vs r.0)

-- `clear()` leaves the index.
unfoldable pub clear : HttpHeader → HttpHeader
clear h = record h { container = [] }
