-- ===== src/Text.antt =====
-- Texts as lists of bytes, with what the code takes from std::string and std::string_view: equality,
-- order, `find`, `tolower`, `std::to_string` and `strtoll`.
pub mod Search
pub mod Decimal
use Prim.Native.Char.{code}
use Prim.Native.String.{String}
use io_reactor.Prelude.{
  ℕ, zero, suc, ◌+◌, ◌-◌, ◌*◌, ◌/◌, ◌%◌, ◌^◌, min, length, ◌≤◌, ◌<◌, Bool, true, false, not, ◌&&◌,
  ◌||◌, Option, none, some, List, [], ◌∷◌, ◌++◌, map, ◌≡◌, ◌≢◌, ◌↔◌, refl, ap, ap₂, arith, ltb, leb,
  ◌==◌, ==_iff, if◌then◌else◌, Bool-cases, inl, inr, All,
}

abbrev pub Bytes : Type 0
Bytes = List ℕ

-- The bytes of a literal.
abbrev pub codes : String → Bytes
codes String.[] = []
codes (String.◌∷◌ c s) = code c ∷ codes s

unfoldable pub same : Bytes → Bytes → Bool
same [] [] = true
same [] (y ∷ ys) = false
same (x ∷ xs) [] = false
same (x ∷ xs) (y ∷ ys) = x == y && same xs ys

pub same_sound : (a b : Bytes) → same a b ≡ true → a ≡ b
unfolding same
same_sound [] [] e = refl
same_sound [] (y ∷ ys) e = ground (arith, e)
same_sound (x ∷ xs) [] e = ground (arith, e)
same_sound (x ∷ xs) (y ∷ ys) e = ap₂ ◌∷◌ (ground (arith, e)) (same_sound xs ys (ground (arith, e)))

pub same_self : (a : Bytes) → same a a ≡ true
unfolding same
same_self [] = refl
same_self (x ∷ xs) = ground (arith, same_self xs)

pub same_iff : (a b : Bytes) → (same a b ≡ true) ↔ (a ≡ b)
same_iff a b = (same_sound a b, λ e. rw e (same_self b))

-- `operator<` of std::string.
unfoldable pub less : Bytes → Bytes → Bool
less [] [] = false
less [] (y ∷ ys) = true
less (x ∷ xs) [] = false
less (x ∷ xs) (y ∷ ys) = if ltb x y then true else x == y && less xs ys

-- `std::tolower` in the "C" locale.
unfoldable pub tolower : ℕ → ℕ
tolower c = if leb b'A' c && leb c b'Z' then c + 32 else c

unfoldable pub to_lower : Bytes → Bytes
to_lower [] = []
to_lower (c ∷ s) = tolower c ∷ to_lower s

unfoldable pub starts_with : Bytes → Bytes → Bool
starts_with [] s = true
starts_with (p ∷ ps) [] = false
starts_with (p ∷ ps) (c ∷ s) = p == c && starts_with ps s

abbrev pub raise : Option ℕ → Option ℕ
raise none = none
raise (some n) = some (suc n)

-- `find(pattern)`; `none` is npos.
unfoldable pub find : Bytes → Bytes → Option ℕ
find p [] = if starts_with p [] then some 0 else none
find p (c ∷ s) = let rest = raise (find p s) in if starts_with p (c ∷ s) then some 0 else rest

abbrev pub Lacks : ℕ → Bytes → Type 0
Lacks b = All (λ c. c ≢ b)

-- `std::to_string` of an unsigned number; each round divides by ten, so `n` rounds and one are enough.
unfoldable pub digits : ℕ → ℕ → Bytes → Bytes
digits zero n out = out
digits (suc fuel) n out =
    let more = digits fuel (n / 10) ((b'0' + n % 10) ∷ out) in
    if n / 10 == 0 then (b'0' + n % 10) ∷ out else more

unfoldable pub to_string : ℕ → Bytes
to_string n = digits (suc n) n []

abbrev pub is_digit : ℕ → Bool
is_digit c = leb b'0' c && leb c b'9'

abbrev pub is_space : ℕ → Bool
is_space c = c == b' ' || leb 9 c && leb c 13

-- `strtoll(s, &endptr, 10)` as a `size_t`: spaces, a sign, and the digits up to anything else, cut to
-- the range of a `long long`.
unfoldable pub scan : Bytes → ℕ → ℕ
scan [] n = n
scan (c ∷ s) n = let rest = scan s (n * 10 + (c - b'0')) in if is_digit c then rest else n

abbrev pub skip_spaces : Bytes → Bytes
skip_spaces [] = []
skip_spaces (c ∷ s) = if is_space c then skip_spaces s else c ∷ s

abbrev pub negated : ℕ → ℕ
negated n = (2 ^ 64 - min n (2 ^ 63)) % 2 ^ 64

abbrev pub signed : Bytes → ℕ
signed [] = 0
signed (c ∷ s) =
    if c == b'-'
    then negated (scan s 0)
    else if c == b'+'
    then min (scan s 0) (2 ^ 63 - 1)
    else min (scan (c ∷ s) 0) (2 ^ 63 - 1)

unfoldable pub strtoll : Bytes → ℕ
strtoll s = signed (skip_spaces s)

abbrev pub carriage : ℕ
carriage = 13

abbrev pub crlf : Bytes
crlf = 13 ∷ 10 ∷ []
