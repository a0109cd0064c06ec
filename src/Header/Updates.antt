-- ===== src/Header/Updates.antt =====
-- `del(name)`, `add`, `set` and `clear` of a header, as updates of the set of its names and values.
use io_reactor.Prelude.{
  ℕ, ◌<◌, true, false, not, ◌&&◌, ◌||◌, Option, none, some, List, [], ◌∷◌, if◌then◌else◌, ◌≡◌, refl,
  sym, ap, ◌∙◌, subst, arith, All, Bool-cases, Option-cases, inl, inr,
}
use io_reactor.Text.{Bytes, same_iff, same_self}
use io_reactor.Header.{
  Entry, Values, HttpHeader, append, add, del, del_found, del_value, del_value_found, set, clear,
  contains, contains_value, iterator_of, values_or_empty, erase_values, same_name, find_name,
  find_value, put_value, erase_name, erase_entry, is_found, is_empty,
}
use io_reactor.Header.Maps.{
  find_name-put_name, find_value-put_value, same_name_self, find_name_cong, entry_of, entry_of_cong,
  IsUnique, erase_entry-Erased,
}
use io_reactor.Header.Order.{IsSorted, find_value_below}
use io_reactor.Header.Index.{
  IsValues, IsIndexed, append-IsIndexed, find_value-agree, iterator_of-erase_name,
}
use io_reactor.Header.Removal.{Removed, this_one, del_value-Removed, erase_name-IsValues}

-- The loop over the values of a name.
record ErasedAll (n : Bytes) (vs : Values) (es fs : List Entry) : Type 1 where
  others :
      (m w : Bytes)
      → entry_of m w fs
        ≡ (if same_name m n && is_found (find_value w vs) then none else entry_of m w es)
  unique : IsUnique fs
  kept : (P : Entry → Type 0) → All P es → All P fs

erase_values-ErasedAll :
    (n : Bytes) (vs : Values) (es : List Entry)
    → IsSorted vs
    → ((w : Bytes) (i : ℕ) → find_value w vs ≡ some i → entry_of n w es ≡ some i)
    → IsUnique es
    → (fs : List Entry) × ((erase_values vs es ≡ some fs) × ErasedAll n vs es fs)
unfolding erase_values find_value
erase_values-ErasedAll n [] es s known u =
    (es, (refl, record { others = λ m w. ground arith; unique = u; kept = λ P a. a }))
erase_values-ErasedAll n ((v, i) ∷ vs) es (below, s) known u =
    let first : entry_of n v es ≡ some i = known v i (ground (arith, same_self v)) in
    let (fs, (erased, r)) = erase_entry-Erased n v i es first u in
    let absent = find_value_below v vs below in
    let still : (w : Bytes) (j : ℕ) → find_value w vs ≡ some j → entry_of n w fs ≡ some j =
      λ w j f. ground (arith, f, absent, same_iff w v, r.others n w, known w j) in
    let (gs, (erased_all, t)) = erase_values-ErasedAll n vs fs s still r.unique in
    (
      gs,
      (
        rw erased erased_all,
        record {
          others = λ m w. ground (arith, t.others m w, r.others m w, absent, same_iff w v);
          unique = t.unique;
          kept = λ P a. t.kept P (r.kept P a);
        },
      ),
    )

pub listed :
    (n w : Bytes) (o : Option Values) (h : HttpHeader)
    → IsIndexed h
    → find_name n h.its ≡ o
    → find_value w (values_or_empty o) ≡ entry_of n w h.container
listed n w o h k e = ap (λ x. find_value w (values_or_empty x)) (sym e) ∙ find_value-agree n w h k

del_absent :
    (n : Bytes) (h : HttpHeader)
    → IsIndexed h
    → find_name n h.its ≡ none
    → Removed (λ m w. same_name m n) h h
unfolding find_value
del_absent n h k absent = record {
  indexed = k;
  others = λ m w. ground (arith, listed n w none h k absent, entry_of_cong m n w h.container);
}

del_present :
    (n : Bytes) (vs : Values) (es : List Entry) (h : HttpHeader)
    → IsIndexed h
    → find_name n h.its ≡ some vs
    → ErasedAll n vs h.container es
    → Removed (λ m w. same_name m n) h (record h { container = es; its = erase_name n h.its })
del_present n vs es h k found r = record {
  indexed = record {
    agree = λ m w.
        iterator_of-erase_name m w n h.its
        ∙ ground (
          arith,
          r.others m w,
          listed n w (some vs) h k found,
          entry_of_cong m n w h.container,
          k.agree m w,
        );
    unique = r.unique;
    fresh = r.kept (λ e. e.iterator < h.next) k.fresh;
    values = λ m. erase_name-IsValues m n h.its (k.values m);
  };
  others = λ m w.
      ground (arith, r.others m w, listed n w (some vs) h k found, entry_of_cong m n w h.container);
}

-- A removal of a name, on an indexed header: it is defined, it tells whether the name was there, and
-- no other name loses a value.
pub del-Removed :
    (n : Bytes) (h : HttpHeader)
    → IsIndexed h
    → (g : HttpHeader) × ((del n h ≡ some (g, contains n h)) × Removed (λ m w. same_name m n) h g)
unfolding del contains
del-Removed n h k = elim (Option-cases (find_name n h.its)) [
  | inl absent ↦ rw (absent, del_found) (h, (refl, del_absent n h k absent))
  | inr (vs, found) ↦
      let sorted : IsSorted vs = (subst IsValues found (k.values n)).0 in
      let (es, (erased, r)) =
        erase_values-ErasedAll n vs h.container sorted
          (λ w i f. sym (listed n w (some vs) h k found) ∙ f) k.unique in
      rw (found, del_found)
        (
          record h { container = es; its = erase_name n h.its },
          (rw erased refl, del_present n vs es h k found r),
        )
]

-- On an indexed header a name and value is in the index when it is in the list.
pub contains_value-entry_of :
    (n v : Bytes) (h : HttpHeader)
    → IsIndexed h
    → contains_value n v h ≡ is_found (entry_of n v h.container)
unfolding contains_value
contains_value-entry_of n v h k = ap is_found (k.agree n v)

append-contains_value :
    (n v m w : Bytes) (h : HttpHeader)
    → contains_value m w (append n v h) ≡ (if this_one n v m w then true else contains_value m w h)
unfolding contains_value append iterator_of
append-contains_value n v m w h =
    let vs = values_or_empty (find_name n h.its) in
    let cong = find_name_cong m n h.its in
    ground (
      arith,
      find_name-put_name m n (put_value v h.next vs) h.its,
      find_value-put_value w v h.next vs,
      cong,
    )

not_found : (o : Option ℕ) → is_found o ≡ false → o ≡ none
not_found none e = refl
not_found (some i) e = absurd (ground (arith, e))

-- A name and value that the header has stays the only one that is asked for.
contains_value-there :
    (n v m w : Bytes) (h : HttpHeader)
    → IsIndexed h
    → contains_value n v h ≡ true
    → contains_value m w h ≡ (if this_one n v m w then true else contains_value m w h)
contains_value-there n v m w h k there = ground (
  arith,
  there,
  same_iff w v,
  contains_value-entry_of n v h k,
  contains_value-entry_of m w h k,
  entry_of_cong m n w h.container,
)

-- On an indexed header `add` is the insertion into the set of names and values: it keeps the header
-- indexed, it tells whether the name and value were new, and afterwards the header has them, unless
-- one of them is empty, and whatever it had before.
pub add-IsIndexed :
    (n v : Bytes) (h : HttpHeader)
    → IsIndexed h
    → IsIndexed (add n v h).0
      × ((add n v h).1 ≡ not (is_empty n || is_empty v || contains_value n v h))
      × ((m w : Bytes)
          → contains_value m w (add n v h).0 ≡ (
              if not (is_empty n || is_empty v) && this_one n v m w
              then true
              else contains_value m w h))
unfolding add
add-IsIndexed n v h k = elim (Bool-cases (is_empty n || is_empty v)) [
  | inl void ↦ rw void (k, refl, λ m w. refl)
  | inr full ↦ rw full (elim (Bool-cases (contains_value n v h)) [
    | inl there ↦ rw there (k, refl, λ m w. contains_value-there n v m w h k there)
    | inr new ↦ rw new (
      append-IsIndexed n v h (not_found _ (sym (contains_value-entry_of n v h k) ∙ new)) k,
      refl,
      λ m w. append-contains_value n v m w h,
    )
  ])
]

pub set-IsIndexed :
    (n v : Bytes) (h : HttpHeader)
    → IsIndexed h
    → (g : HttpHeader) × ((set n v h ≡ some g)
        × (IsIndexed g
            × ((m w : Bytes)
                → contains_value m w g
                  ≡ (if this_one n v m w then true else contains_value m w h))))
unfolding set
set-IsIndexed n v h k =
    let (g, (removed, r)) = del_value-Removed n v h k in
    let gone : entry_of n v g.container ≡ none =
      ground (arith, r.others n v, same_name_self n, same_self v) in
    (
      append n v g,
      (
        rw removed refl,
        (
          append-IsIndexed n v g gone r.indexed,
          λ m w.
              append-contains_value n v m w g
              ∙ ground (
                arith,
                contains_value-entry_of m w g r.indexed,
                contains_value-entry_of m w h k,
                r.others m w,
              ),
        ),
      ),
    )

-- `clear` empties the list and leaves the index: after it, the removal of a name and value that were
-- there erases an element that the list does not have.
pub clear-del_value_faults :
    (n v : Bytes) (h : HttpHeader)
    → contains_value n v h ≡ true
    → (del_value n v (clear h) ≡ none) × (contains_value n v (clear h) ≡ true)
unfolding del_value contains_value clear iterator_of erase_entry
clear-del_value_faults n v h there =
    elim (Option-cases (find_value v (values_or_empty (find_name n h.its)))) [
      | inl absent ↦ absurd (ground (arith, there, absent))
      | inr (i, found) ↦ (rw (found, del_value_found) refl, there)
    ]
