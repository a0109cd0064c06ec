-- ===== src/Header/Index.antt =====
-- The index of a header agrees with its list, and the operations that keep it so.
use io_reactor.Prelude.{
  ℕ, ◌+◌, ◌<◌, true, false, ◌&&◌, Option, none, some, List, [], ◌∷◌, ◌++◌, if◌then◌else◌, ◌≡◌, ◌≢◌,
  refl, sym, ap, ◌∙◌, subst, arith, All, All-append, All-map, Bool-cases, inl, inr,
}
use io_reactor.Text.{Bytes, same, same_iff, to_lower}
use io_reactor.Header.{
  Entry, Values, HttpHeader, empty, append, iterator_of, values_or_empty, no_values, same_name,
  find_name, find_value, put_value, put_name, erase_name,
}
use io_reactor.Header.Maps.{
  find_name-put_name, find_name-erase_name, find_value-put_value, find_name_cong, entry_of,
  entry_of_cong, entry_of-append, or_else, IsUnique,
}
use io_reactor.Header.Order.{IsSorted, put_value-IsSorted}

-- The values of a name that is in the index.
abbrev pub IsValues : Option Values → Type 0
IsValues none = Unit
IsValues (some vs) = IsSorted vs × (no_values vs ≡ false)

pub record IsIndexed (h : HttpHeader) : Type 0 where
  -- the index has the iterator of each element, by its name and value
  pub agree : (n v : Bytes) → iterator_of n v h.its ≡ entry_of n v h.container
  pub unique : IsUnique h.container
  pub fresh : All (λ e. e.iterator < h.next) h.container
  pub values : (n : Bytes) → IsValues (find_name n h.its)

pub empty-IsIndexed : IsIndexed empty
unfolding iterator_of entry_of find_name find_value
empty-IsIndexed = record { agree = λ n v. refl; unique = tt; fresh = tt; values = λ n. tt }

IsUnique-append :
    (es : List Entry) (e : Entry)
    → entry_of e.name e.value es ≡ none
    → All (λ f. f.iterator < e.iterator) es
    → IsUnique es
    → IsUnique (es ++ e ∷ [])
unfolding entry_of
IsUnique-append [] e absent below u = (refl, (tt, tt))
IsUnique-append (f ∷ es) e absent (b, below) (gone, (apart, u)) = (
  ground (
    arith,
    entry_of-append f.name f.value es e,
    gone,
    absent,
    same_iff (to_lower f.name) (to_lower e.name),
    same_iff (to_lower e.name) (to_lower f.name),
    same_iff f.value e.value,
    same_iff e.value f.value,
  ),
  (
    All-append (λ g. f.iterator ≢ g.iterator) es (e ∷ []) apart ((λ s. omega (arith, b, s)), tt),
    IsUnique-append es e (ground (arith, absent)) below u,
  ),
)

-- The index after a name got these values.
pub put_name-IsValues :
    (m n : Bytes) (vs : Values) (its : List (Bytes × Values))
    → IsValues (some vs)
    → IsValues (find_name m its)
    → IsValues (find_name m (put_name n vs its))
put_name-IsValues m n vs its v old = elim (Bool-cases (same_name m n)) [
  | inl here ↦
      subst IsValues
        (sym
          (find_name-put_name m n vs its ∙ ap (λ b. if b then some vs else find_name m its) here))
        v
  | inr there ↦
      subst IsValues
        (sym
          (find_name-put_name m n vs its ∙ ap (λ b. if b then some vs else find_name m its) there))
        old
]

put_value-filled : (v : Bytes) (i : ℕ) (vs : Values) → no_values (put_value v i vs) ≡ false
unfolding put_value
put_value-filled v i [] = refl
put_value-filled v i ((w, j) ∷ vs) = ground arith

pub values_or_empty-IsSorted : (o : Option Values) → IsValues o → IsSorted (values_or_empty o)
values_or_empty-IsSorted none k = tt
values_or_empty-IsSorted (some vs) (s, f) = s

pub iterator_of-put_name :
    (m w n : Bytes) (vs : Values) (its : List (Bytes × Values))
    → iterator_of m w (put_name n vs its)
      ≡ (if same_name m n then find_value w vs else iterator_of m w its)
unfolding iterator_of
iterator_of-put_name m w n vs its = ground (arith, find_name-put_name m n vs its)

pub iterator_of-erase_name :
    (m w n : Bytes) (its : List (Bytes × Values))
    → iterator_of m w (erase_name n its) ≡ (if same_name m n then none else iterator_of m w its)
unfolding iterator_of find_value
iterator_of-erase_name m w n its = ground (arith, find_name-erase_name m n its)

pub iterator_of_cong :
    (m n w : Bytes) (its : List (Bytes × Values))
    → same_name m n ≡ true
    → iterator_of m w its ≡ iterator_of n w its
unfolding iterator_of
iterator_of_cong m n w its e = ap (λ o. find_value w (values_or_empty o)) (find_name_cong m n its e)

pub find_value-agree :
    (n w : Bytes) (h : HttpHeader)
    → IsIndexed h
    → find_value w (values_or_empty (find_name n h.its)) ≡ entry_of n w h.container
unfolding iterator_of
find_value-agree n w h k = k.agree n w

append-agree :
    (n v : Bytes) (h : HttpHeader)
    → entry_of n v h.container ≡ none
    → IsIndexed h
    → (m w : Bytes) → iterator_of m w (append n v h).its ≡ entry_of m w (append n v h).container
unfolding append
append-agree n v h absent k m w =
    let vs = put_value v h.next (values_or_empty (find_name n h.its)) in
    let e : Entry = record { iterator = h.next; name = n; value = v } in
    let old = find_value-agree n w h k in
    let new : entry_of m w (e ∷ []) ≡ (if same_name m n && same w v then some h.next else none) =
      unfold entry_of in refl in
    let table = iterator_of-put_name m w n vs h.its in
    let list : entry_of m w (h.container ++ e ∷ [])
        ≡ or_else (entry_of m w h.container)
            (if same_name m n && same w v then some h.next else none) =
      entry_of-append m w h.container e ∙ ap (or_else (entry_of m w h.container)) new in
    table
    ∙ ground (
      arith,
      find_value-put_value w v h.next (values_or_empty (find_name n h.its)),
      old,
      k.agree m w,
      entry_of_cong m n w h.container,
      absent,
      same_iff w v,
    )
    ∙ sym list

pub append-IsIndexed :
    (n v : Bytes) (h : HttpHeader)
    → entry_of n v h.container ≡ none
    → IsIndexed h
    → IsIndexed (append n v h)
unfolding append
append-IsIndexed n v h absent k = record {
  agree = append-agree n v h absent k;
  unique =
      IsUnique-append h.container (record { iterator = h.next; name = n; value = v }) absent k.fresh
        k.unique;
  fresh =
      All-append (λ e. e.iterator < h.next + 1) h.container _
        (All-map (λ e. e.iterator < h.next) (λ e. e.iterator < h.next + 1) h.container
          (λ e b. omega (arith, b)) k.fresh)
        (omega arith, tt);
  values = λ m.
      put_name-IsValues m n _ h.its
        (
          put_value-IsSorted v h.next _ (values_or_empty-IsSorted (find_name n h.its) (k.values n)),
          put_value-filled v h.next _,
        )
        (k.values m);
}
