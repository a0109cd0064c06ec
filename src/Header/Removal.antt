-- ===== src/Header/Removal.antt =====
-- Removals from a header find every element that they erase, and keep the index.
use io_reactor.Prelude.{
  ℕ, ◌<◌, Bool, true, ◌&&◌, none, some, List, [], ◌∷◌, if◌then◌else◌, ◌≡◌, refl, sym, ap, ◌∙◌,
  subst, arith, Bool-cases, Option-cases, inl, inr,
}
use io_reactor.Text.{Bytes, same, same_iff}
use io_reactor.Header.{
  Values, HttpHeader, del_value, del_value_found, contains_value, iterator_of, values_or_empty,
  no_values, same_name, find_name, find_value, erase_value, put_name, erase_name,
}
use io_reactor.Header.Maps.{
  find_name-erase_name, find_value-erase_value, entry_of, entry_of_cong, erase_entry-Erased,
}
use io_reactor.Header.Order.{IsSorted, erase_value-IsSorted}
use io_reactor.Header.Index.{
  IsValues, IsIndexed, find_value-agree, iterator_of-put_name, iterator_of-erase_name,
  values_or_empty-IsSorted, put_name-IsValues,
}

-- What is left after a removal of the names and values that a test selects.
pub record Removed (gone : Bytes → Bytes → Bool) (h g : HttpHeader) : Type 0 where
  pub indexed : IsIndexed g
  pub others :
      (m w : Bytes)
      → entry_of m w g.container ≡ (if gone m w then none else entry_of m w h.container)

no_values_empty : (vs : Values) → no_values vs ≡ true → vs ≡ []
no_values_empty [] e = refl
no_values_empty (x ∷ vs) e = absurd (ground (arith, e))

pub erase_name-IsValues :
    (m n : Bytes) (its : List (Bytes × Values))
    → IsValues (find_name m its)
    → IsValues (find_name m (erase_name n its))
erase_name-IsValues m n its old = elim (Bool-cases (same_name m n)) [
  | inl here ↦
      subst IsValues
        (sym (find_name-erase_name m n its ∙ ap (λ b. if b then none else find_name m its) here)) tt
  | inr there ↦
      subst IsValues
        (sym (find_name-erase_name m n its ∙ ap (λ b. if b then none else find_name m its) there))
        old
]

-- The index after a value left its name.
abbrev left : Bytes → Values → List (Bytes × Values) → List (Bytes × Values)
left n vs its = if no_values vs then erase_name n its else put_name n vs its

iterator_of-left :
    (m w n : Bytes) (vs : Values) (its : List (Bytes × Values))
    → iterator_of m w (left n vs its)
      ≡ (if same_name m n then find_value w vs else iterator_of m w its)
unfolding find_value
iterator_of-left m w n vs its = elim (Bool-cases (no_values vs)) [
  | inl none_left ↦ rw (none_left, no_values_empty vs none_left) (iterator_of-erase_name m w n its)
  | inr some_left ↦ rw some_left (iterator_of-put_name m w n vs its)
]

left-IsValues :
    (m n : Bytes) (vs : Values) (its : List (Bytes × Values))
    → IsSorted vs
    → IsValues (find_name m its)
    → IsValues (find_name m (left n vs its))
left-IsValues m n vs its s old = elim (Bool-cases (no_values vs)) [
  | inl none_left ↦ rw none_left (erase_name-IsValues m n its old)
  | inr some_left ↦ rw some_left (put_name-IsValues m n vs its (s, some_left) old)
]

abbrev pub this_one : Bytes → Bytes → Bytes → Bytes → Bool
this_one n v m w = same_name m n && same w v

del_value_found-Removed :
    (n v : Bytes) (i : ℕ) (h : HttpHeader)
    → let vs : Values = values_or_empty (find_name n h.its) in
      find_value v vs ≡ some i
      → IsSorted vs
      → IsIndexed h
      → (g : HttpHeader) × ((del_value_found n v (some i) vs h ≡ some (g, true))
          × Removed (this_one n v) h g)
del_value_found-Removed n v i h found s k =
    let vs = values_or_empty (find_name n h.its) in
    let entry : entry_of n v h.container ≡ some i = sym (find_value-agree n v h k) ∙ found in
    let (fs, (erased, r)) = erase_entry-Erased n v i h.container entry k.unique in
    let g : HttpHeader = record h { container = fs; its = left n (erase_value v vs) h.its } in
    (
      g,
      (
        rw erased refl,
        record {
          indexed = record {
            agree = λ m w.
                iterator_of-left m w n (erase_value v vs) h.its
                ∙ ground (
                  arith,
                  find_value-erase_value w v vs,
                  find_value-agree n w h k,
                  k.agree m w,
                  entry_of_cong m n w h.container,
                )
                ∙ sym (r.others m w);
            unique = r.unique;
            fresh = r.kept (λ e. e.iterator < h.next) k.fresh;
            values = λ m.
                left-IsValues m n (erase_value v vs) h.its (erase_value-IsSorted v vs s)
                  (k.values m);
          };
          others = r.others;
        },
      ),
    )

-- A removal of one value, on an indexed header: it is defined, it tells whether the value was there,
-- and nothing else is lost.
pub del_value-Removed :
    (n v : Bytes) (h : HttpHeader)
    → IsIndexed h
    → (g : HttpHeader) × ((del_value n v h ≡ some (g, contains_value n v h))
        × Removed (this_one n v) h g)
unfolding del_value contains_value iterator_of
del_value-Removed n v h k =
    let vs = values_or_empty (find_name n h.its) in
    elim (Option-cases (find_value v vs)) [
      | inl absent ↦
          rw (absent, del_value_found)
            (
              h,
              (
                refl,
                record {
                  indexed = k;
                  others = λ m w. ground (
                    arith,
                    find_value-agree n v h k,
                    absent,
                    entry_of_cong m n w h.container,
                    same_iff w v,
                  );
                },
              ),
            )
      | inr (i, found) ↦
          rw (found, del_value_found)
            (del_value_found-Removed n v i h found
              (values_or_empty-IsSorted (find_name n h.its) (k.values n)) k)
    ]
