-- ===== src/Header/Maps.antt =====
-- The laws of the index's maps and of the list, for names that differ in case only.
use io_reactor.Prelude.{
  ℕ, true, false, ◌&&◌, Option, none, some, List, [], ◌∷◌, ◌++◌, if◌then◌else◌, ◌≡◌, ◌≢◌, refl,
  arith, All, Bool-cases, inl, inr,
}
use io_reactor.Text.{Bytes, same, same_iff, same_self, to_lower}
use io_reactor.Header.{
  Entry, Values, same_name, find_name, find_value, put_value, erase_value, put_name, erase_name,
  erase_entry,
}

pub find_name-put_name :
    (m n : Bytes) (vs : Values) (its : List (Bytes × Values))
    → find_name m (put_name n vs its) ≡ (if same_name m n then some vs else find_name m its)
unfolding find_name put_name
find_name-put_name m n vs [] = ground arith
find_name-put_name m n vs ((k, ws) ∷ its) = ground (
  arith,
  same_iff (to_lower m) (to_lower n),
  same_iff (to_lower n) (to_lower k),
  same_iff (to_lower m) (to_lower k),
  find_name-put_name m n vs its,
)

pub find_name-erase_name :
    (m n : Bytes) (its : List (Bytes × Values))
    → find_name m (erase_name n its) ≡ (if same_name m n then none else find_name m its)
unfolding find_name erase_name
find_name-erase_name m n [] = ground arith
find_name-erase_name m n ((k, ws) ∷ its) = ground (
  arith,
  same_iff (to_lower m) (to_lower n),
  same_iff (to_lower n) (to_lower k),
  same_iff (to_lower m) (to_lower k),
  find_name-erase_name m n its,
)

pub find_value-put_value :
    (w v : Bytes) (i : ℕ) (vs : Values)
    → find_value w (put_value v i vs) ≡ (if same w v then some i else find_value w vs)
unfolding find_value put_value
find_value-put_value w v i [] = ground arith
find_value-put_value w v i ((u, j) ∷ vs) =
    ground (arith, same_iff w v, same_iff v u, same_iff w u, find_value-put_value w v i vs)

pub find_value-erase_value :
    (w v : Bytes) (vs : Values)
    → find_value w (erase_value v vs) ≡ (if same w v then none else find_value w vs)
unfolding find_value erase_value
find_value-erase_value w v [] = ground arith
find_value-erase_value w v ((u, j) ∷ vs) =
    ground (arith, same_iff w v, same_iff v u, same_iff w u, find_value-erase_value w v vs)

pub same_name_self : (n : Bytes) → same_name n n ≡ true
same_name_self n = same_self (to_lower n)

pub find_name_cong :
    (m n : Bytes) (its : List (Bytes × Values))
    → same_name m n ≡ true
    → find_name m its ≡ find_name n its
unfolding find_name
find_name_cong m n [] e = refl
find_name_cong m n ((k, ws) ∷ its) e = ground (
  arith,
  e,
  same_iff (to_lower m) (to_lower n),
  same_iff (to_lower n) (to_lower k),
  same_iff (to_lower m) (to_lower k),
  find_name_cong m n its e,
)

-- The first element of a name and a value.
unfoldable pub entry_of : Bytes → Bytes → List Entry → Option ℕ
entry_of n v [] = none
entry_of n v (e ∷ es) =
    if same_name n e.name && same v e.value then some e.iterator else entry_of n v es

pub entry_of_cong :
    (m n v : Bytes) (es : List Entry) → same_name m n ≡ true → entry_of m v es ≡ entry_of n v es
unfolding entry_of
entry_of_cong m n v [] e = refl
entry_of_cong m n v (f ∷ es) e = ground (
  arith,
  e,
  same_iff (to_lower m) (to_lower n),
  same_iff (to_lower n) (to_lower f.name),
  same_iff (to_lower m) (to_lower f.name),
  entry_of_cong m n v es e,
)

abbrev pub or_else : Option ℕ → Option ℕ → Option ℕ
or_else none o = o
or_else (some a) o = some a

pub entry_of-append :
    (n v : Bytes) (es : List Entry) (e : Entry)
    → entry_of n v (es ++ e ∷ []) ≡ or_else (entry_of n v es) (entry_of n v (e ∷ []))
unfolding entry_of
entry_of-append n v [] e = refl
entry_of-append n v (f ∷ es) e = ground (arith, entry_of-append n v es e)

-- No name and value, and no iterator, is there twice.
abbrev pub IsUnique : List Entry → Type 0
IsUnique [] = Unit
IsUnique (e ∷ es) =
    (entry_of e.name e.value es ≡ none) × (All (λ f. e.iterator ≢ f.iterator) es × IsUnique es)

other_iterator :
    (n v : Bytes) (k i : ℕ) (es : List Entry)
    → entry_of n v es ≡ some i
    → All (λ f. k ≢ f.iterator) es
    → k ≢ i
unfolding entry_of
other_iterator n v k i [] e h = ground (arith, e)
other_iterator n v k i (f ∷ es) e (d, h) = ground (arith, e, d, other_iterator n v k i es, h)

-- An element has left the list.
pub record Erased (n v : Bytes) (es fs : List Entry) : Type 1 where
  pub others :
      (m w : Bytes)
      → entry_of m w fs ≡ (if same_name m n && same w v then none else entry_of m w es)
  pub unique : IsUnique fs
  pub kept : (P : Entry → Type 0) → All P es → All P fs

erase_first :
    (n v : Bytes) (f : Entry) (es : List Entry)
    → same_name n f.name && same v f.value ≡ true
    → entry_of f.name f.value es ≡ none
    → IsUnique es
    → Erased n v (f ∷ es) es
unfolding entry_of
erase_first n v f es here gone u = record {
  others = λ m w. ground (
    arith,
    here,
    gone,
    entry_of_cong m f.name w es,
    same_iff (to_lower m) (to_lower n),
    same_iff (to_lower n) (to_lower f.name),
    same_iff (to_lower m) (to_lower f.name),
    same_iff w v,
    same_iff v f.value,
    same_iff w f.value,
  );
  unique = u;
  kept = λ P (p, a). a;
}

erase_later :
    (n v : Bytes) (f : Entry) (es fs : List Entry)
    → same_name n f.name && same v f.value ≡ false
    → entry_of f.name f.value es ≡ none
    → All (λ g. f.iterator ≢ g.iterator) es
    → Erased n v es fs
    → Erased n v (f ∷ es) (f ∷ fs)
unfolding entry_of
erase_later n v f es fs there gone apart r = record {
  others = λ m w. ground (
    arith,
    there,
    r.others m w,
    same_iff (to_lower m) (to_lower n),
    same_iff (to_lower n) (to_lower f.name),
    same_iff (to_lower m) (to_lower f.name),
    same_iff w v,
    same_iff v f.value,
    same_iff w f.value,
  );
  unique = (
    ground (arith, r.others f.name f.value, gone),
    (r.kept (λ g. f.iterator ≢ g.iterator) apart, r.unique),
  );
  kept = λ P (p, a). (p, r.kept P a);
}

pub erase_entry-Erased :
    (n v : Bytes) (i : ℕ) (es : List Entry)
    → entry_of n v es ≡ some i
    → IsUnique es
    → (fs : List Entry) × ((erase_entry i es ≡ some fs) × Erased n v es fs)
unfolding entry_of erase_entry
erase_entry-Erased n v i [] e u = absurd (ground (arith, e))
erase_entry-Erased n v i (f ∷ es) e (gone, (apart, u)) =
    elim (Bool-cases (same_name n f.name && same v f.value)) [
      | inl here ↦ (es, (ground (arith, e, here), erase_first n v f es here gone u))
      | inr there ↦
          let found : entry_of n v es ≡ some i = ground (arith, e, there) in
          let (fs, (erased, r)) = erase_entry-Erased n v i es found u in
          (
            f ∷ fs,
            (
              ground (arith, erased, other_iterator n v f.iterator i es found apart),
              erase_later n v f es fs there gone apart r,
            ),
          )
    ]
