-- ===== src/Header/Lists.antt =====
-- The constructor of a header from lists of values.
use io_reactor.Prelude.{true, List, [], ◌∷◌, ◌++◌, ◌≡◌, refl, sym, ap, ◌∙◌, append_assoc, arith}
use io_reactor.Text.{Bytes, same_self}
use io_reactor.Header.{HttpHeader, is_member, add_listed, of_lists}

-- A value in its own list.
is_member-here :
    (before : List Bytes) (v : Bytes) (vs : List Bytes) → is_member v (before ++ v ∷ vs) ≡ true
unfolding is_member
is_member-here [] v vs = rw (same_self v) refl
is_member-here (w ∷ before) v vs = ground (arith, is_member-here before v vs)

add_listed-none :
    (n : Bytes) (before vs : List Bytes) (h : HttpHeader) → add_listed n (before ++ vs) vs h ≡ h
unfolding add_listed
add_listed-none n before [] h = refl
add_listed-none n before (v ∷ vs) h =
    let all_of = append_assoc before (v ∷ []) vs in
    rw (is_member-here before v vs)
      (ap (λ all. add_listed n all vs h) (sym all_of) ∙ add_listed-none n (before ++ v ∷ []) vs h)

-- The constructor from names with lists of values adds none of them.
pub of_lists-nothing : (ps : List (Bytes × List Bytes)) (h : HttpHeader) → of_lists ps h ≡ h
unfolding of_lists
of_lists-nothing [] h = refl
of_lists-nothing ((n, vs) ∷ ps) h =
    ap (of_lists ps) (add_listed-none n [] vs h) ∙ of_lists-nothing ps h
