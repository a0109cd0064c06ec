-- ===== src/Header/Print.antt =====
-- The three `to_string` of http1_protocol/HttpHeader.h.
use io_reactor.Prelude.{◌||◌, Option, none, some, List, [], ◌∷◌, ◌++◌, if◌then◌else◌}
use io_reactor.Text.{Bytes, codes, same, crlf}
use io_reactor.Header.{Entry, HttpHeader, is_empty, contains}

abbrev pub separator : Bytes
separator = codes ": "

abbrev pub line_break : Bytes → Bytes
line_break str = if is_empty str then str else str ++ crlf

-- A line behind the text so far.
unfoldable pub add_line : Bytes → Bytes → Bytes → Bytes
add_line n v str = line_break str ++ (n ++ (separator ++ v))

-- The loop of `to_string()`.
unfoldable pub print_loop : List Entry → Bytes → Bytes
print_loop [] str = str
print_loop (e ∷ es) str =
    if is_empty e.name || is_empty e.value
    then print_loop es str
    else print_loop es (add_line e.name e.value str)

unfoldable pub to_string : HttpHeader → Bytes
to_string h = print_loop h.container []

-- The names and values to be added, by name; `std::map` compares them as they are.
unfoldable pub find_added : Bytes → List (Bytes × Bytes) → Option Bytes
find_added n [] = none
find_added n ((m, v) ∷ added) = if same n m then some v else find_added n added

abbrev pub print_entry : Entry → Option Bytes → Bytes → Bytes
print_entry e (some v) str = add_line e.name v str
print_entry e none str =
    if is_empty e.name || is_empty e.value then str else add_line e.name e.value str

unfoldable pub print_with : List (Bytes × Bytes) → List Entry → Bytes → Bytes
print_with added [] str = str
print_with added (e ∷ es) str = print_with added es (print_entry e (find_added e.name added) str)

unfoldable pub print_new : HttpHeader → List (Bytes × Bytes) → Bytes → Bytes
print_new h [] str = str
print_new h ((n, v) ∷ added) str =
    if contains n h then print_new h added str else print_new h added (add_line n v str)

-- `to_string(const map &)`
unfoldable pub to_string_with : List (Bytes × Bytes) → HttpHeader → Bytes
to_string_with added h = print_new h added (print_with added h.container [])

unfoldable pub erase_added : Bytes → List (Bytes × Bytes) → List (Bytes × Bytes)
erase_added n [] = []
erase_added n ((m, v) ∷ added) =
    let rest = erase_added n added in if same n m then rest else (m, v) ∷ rest

abbrev pub print_all : List (Bytes × Bytes) → Bytes → Bytes
print_all [] str = str
print_all ((n, v) ∷ added) str = print_all added (add_line n v str)

abbrev pub rest_of : Bytes → Option Bytes → List (Bytes × Bytes) → List (Bytes × Bytes)
rest_of n none added = added
rest_of n (some v) added = erase_added n added

-- `to_string(map &&)`, which erases what it has printed from the map.
unfoldable pub print_moving : List (Bytes × Bytes) → List Entry → Bytes → Bytes
print_moving added [] str = print_all added str
print_moving added (e ∷ es) str =
    let found = find_added e.name added in
    print_moving (rest_of e.name found added) es (print_entry e found str)

unfoldable pub to_string_moving : List (Bytes × Bytes) → HttpHeader → Bytes
to_string_moving added h = print_moving added h.container []
