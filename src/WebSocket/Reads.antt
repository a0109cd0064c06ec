-- ===== src/WebSocket/Reads.antt =====
-- Where `parse` may stop while it reads the header and the payload of a frame.
use Prim.Native.Nat.{bit_and}
use io_reactor.Prelude.{
  ℕ, zero, suc, ◌+◌, ◌-◌, ◌/◌, ◌^◌, ◌≤◌, ◌<◌, Bool, true, false, List, [], ◌∷◌, ◌≡◌, refl, arith,
  ◌⊎◌, inl, inr, Option-cases, leb, ltb, if◌then◌else◌, length, get_elem?, none, some, ◌==◌, ==_iff,
}
use io_reactor.WebSocket.{
  Outcome, WebSocketException, returns, throws, fault, ◌>>=◌, incomplete_header, incomplete_payload,
  wrong_opcode, unknown, parse_length, parse_mask, unmask_loop, read,
}

-- The header is there, with a payload of `n` bytes from `pos` on.
abbrev pub Announces : List ℕ → ℕ → ℕ → Type 0
Announces buffer pos n =
    (b1 : ℕ) × (start : ℕ) × (key : ℕ) × (get_elem? buffer 1 ≡ some b1)
    × (parse_length buffer (bit_and b1 (2 ^ 32 - 1 - 0x80)) ≡ returns (start, n))
    × (parse_mask buffer (bit_and (b1 / 2 ^ 7) 0x01) start ≡ returns (pos, key))

-- The header is not there: not its first two bytes, not the eight-byte length that it announces, or
-- not the mask key behind the length.
abbrev pub LacksHeader : List ℕ → Type 0
LacksHeader buffer =
    (length buffer < 2)
    ⊎ (((b1 : ℕ) × (get_elem? buffer 1 ≡ some b1)
          × (bit_and b1 (2 ^ 32 - 1 - 0x80) ≡ 127)
          × (length buffer < 10))
        ⊎ ((b1 : ℕ) × (start : ℕ) × (n : ℕ) × (get_elem? buffer 1 ≡ some b1)
            × (parse_length buffer (bit_and b1 (2 ^ 32 - 1 - 0x80)) ≡ returns (start, n))
            × (bit_and (b1 / 2 ^ 7) 0x01 ≡ 1)
            × (length buffer < start + 4)))

-- The reason for an exception.
abbrev pub Lacking : List ℕ → WebSocketException → Type 0
Lacking buffer incomplete_header = LacksHeader buffer
Lacking buffer incomplete_payload =
    (pos : ℕ) × (n : ℕ) × Announces buffer pos n × (length buffer < pos + n)
Lacking buffer wrong_opcode = ⊥
Lacking buffer unknown = ⊥

-- The two-byte length is announced, and not there.
abbrev pub IsCut : List ℕ → Type 0
IsCut buffer =
    (b1 : ℕ) × (get_elem? buffer 1 ≡ some b1)
    × (bit_and b1 (2 ^ 32 - 1 - 0x80) ≡ 126)
    × (length buffer < 4)

-- The announced payload ends behind the bytes, and the place of its end has no 64-bit number.
abbrev pub IsWrapped : List ℕ → Type 0
IsWrapped buffer =
    (pos : ℕ) × (n : ℕ) × Announces buffer pos n × (length buffer < pos + n) × (2 ^ 64 ≤ pos + n)

-- A result that meets `P`, or an exception or a fault that has its reason.
abbrev pub Gives {ℓ} : {A : Type ℓ} → List ℕ → (A → Type 0) → Outcome A → Type 0
Gives buffer P (returns a) = P a
Gives buffer P (throws e) = Lacking buffer e
Gives buffer P fault = IsCut buffer ⊎ IsWrapped buffer

get_elem?-lt : {A : Type 0} (xs : List A) (i : ℕ) {x : A} → get_elem? xs i ≡ some x → i < length xs
get_elem?-lt [] i h = cc
get_elem?-lt (x ∷ xs) zero h = omega arith
get_elem?-lt (x ∷ xs) (suc i) h = omega (arith, get_elem?-lt xs i h)

get_elem?-ge : {A : Type 0} (xs : List A) (i : ℕ) → get_elem? xs i ≡ none → length xs ≤ i
get_elem?-ge [] i h = omega arith
get_elem?-ge (x ∷ xs) zero h = cc
get_elem?-ge (x ∷ xs) (suc i) h = omega (arith, get_elem?-ge xs i h)

module _ (buffer : List ℕ) where
  pub Gives-bind {ℓ κ} :
      {A : Type ℓ} {B : Type κ} (P : A → Type 0) (Q : B → Type 0) (m : Outcome A)
      (f : A → Outcome B)
      → Gives buffer P m
      → ((a : A) → m ≡ returns a → P a → Gives buffer Q (f a))
      → Gives buffer Q (m >>= f)
  Gives-bind P Q (returns a) f h k = k a refl h
  Gives-bind P Q (throws e) f h k = h
  Gives-bind P Q fault f h k = h

  pub Gives-if {ℓ} :
      {A : Type ℓ} (P : A → Type 0) (b : Bool) (m n : Outcome A)
      → (b ≡ true → Gives buffer P m)
      → (b ≡ false → Gives buffer P n)
      → Gives buffer P (if b then m else n)
  Gives-if P true m n hm hn = hm refl
  Gives-if P false m n hm hn = hn refl

  -- A byte that is read is inside the bytes; one that is not has a reason to be asked for.
  pub Gives-read {ℓ} :
      {B : Type ℓ} (Q : B → Type 0) (i : ℕ) (f : ℕ → Outcome B)
      → (length buffer ≤ i → IsCut buffer ⊎ IsWrapped buffer)
      → ((b : ℕ) → get_elem? buffer i ≡ some b → i < length buffer → Gives buffer Q (f b))
      → Gives buffer Q (read buffer i >>= f)
  Gives-read Q i f cut k = elim (Option-cases (get_elem? buffer i)) [
    | inl e ↦ rw (e, read) (cut (get_elem?-ge buffer i e))
    | inr (b, e) ↦ rw (e, read) (k b e (get_elem?-lt buffer i e))
  ]

  pub Gives-read_inside {ℓ} :
      {B : Type ℓ} (Q : B → Type 0) (i : ℕ) (f : ℕ → Outcome B)
      → i < length buffer
      → ((b : ℕ) → Gives buffer Q (f b))
      → Gives buffer Q (read buffer i >>= f)
  Gives-read_inside Q i f inside k = Gives-read Q i f (λ h. absurd (omega arith)) λ b e h. k b

  -- The length fields end inside the bytes.
  abbrev pub IsStart : ℕ × ℕ → Type 0
  IsStart r = (2 ≤ r.0) × (r.0 ≤ length buffer)

  pub parse_length-IsStart :
      (b1 : ℕ)
      → get_elem? buffer 1 ≡ some b1
      → 2 ≤ length buffer
      → Gives buffer IsStart (parse_length buffer (bit_and b1 (2 ^ 32 - 1 - 0x80)))
  unfolding parse_length
  parse_length-IsStart b1 second two =
      let len = bit_and b1 (2 ^ 32 - 1 - 0x80) in
      Gives-if IsStart (leb len 125) _ _ (λ _. (omega arith, omega arith))
        λ _.
          Gives-if IsStart (len == 126) _ _
            (λ is_126.
              let cut : length buffer < 4 → IsCut buffer ⊎ IsWrapped buffer =
                λ short. inl (b1, second, (==_iff len 126).0 is_126, short) in
              Gives-read IsStart 2 _ (λ h. cut (omega arith))
                λ b2 e2 h2.
                  Gives-read IsStart 3 _ (λ h. cut (omega arith))
                    λ b3 e3 h3. (omega arith, omega arith))
            λ _.
              Gives-if IsStart (len == 127) _ _
                (λ is_127.
                  Gives-if IsStart (ltb (length buffer) 10) _ _
                    (λ short.
                      inr (inl (b1, second, (==_iff len 127).0 is_127, ground (arith, short))))
                    λ long.
                      let h : 10 ≤ length buffer = ground (arith, long) in
                      Gives-read_inside IsStart 2 _ (omega arith) λ b2.
                        Gives-read_inside IsStart 3 _ (omega arith) λ b3.
                          Gives-read_inside IsStart 4 _ (omega arith) λ b4.
                            Gives-read_inside IsStart 5 _ (omega arith) λ b5.
                              Gives-read_inside IsStart 6 _ (omega arith) λ b6.
                                Gives-read_inside IsStart 7 _ (omega arith) λ b7.
                                  Gives-read_inside IsStart 8 _ (omega arith) λ b8.
                                    Gives-read_inside IsStart 9 _ (omega arith)
                                      λ b9. (omega arith, omega arith))
                λ _. (omega arith, omega arith)

  -- The mask key ends inside the bytes.
  abbrev pub IsBehind : ℕ → ℕ × ℕ → Type 0
  IsBehind start r = (start ≤ r.0) × (r.0 ≤ length buffer)

  pub parse_mask-IsBehind :
      (b1 start n : ℕ)
      → get_elem? buffer 1 ≡ some b1
      → parse_length buffer (bit_and b1 (2 ^ 32 - 1 - 0x80)) ≡ returns (start, n)
      → start ≤ length buffer
      → Gives buffer (IsBehind start) (parse_mask buffer (bit_and (b1 / 2 ^ 7) 0x01) start)
  unfolding parse_mask
  parse_mask-IsBehind b1 start n second at_length inside =
      let mask = bit_and (b1 / 2 ^ 7) 0x01 in
      let P = IsBehind start in
      Gives-if P (mask == 1) _ _
        (λ masked.
          Gives-if P (ltb (length buffer) (start + 4)) _ _
            (λ short. inr (
              inr
                (b1, start, n, second, at_length, (==_iff mask 1).0 masked, ground (arith, short))))
            λ long.
              let four : start + 4 ≤ length buffer = ground (arith, long) in
              Gives-read_inside P (start + 4 - 4) _ (omega arith) λ a.
                Gives-read_inside P (start + 4 - 3) _ (omega arith) λ b.
                  Gives-read_inside P (start + 4 - 2) _ (omega arith) λ c.
                    Gives-read_inside P (start + 4 - 1) _ (omega arith)
                      λ d. (omega arith, omega arith))
        λ _. (omega arith, omega arith)

  -- The loop reads `n` bytes from `start` on, or it leaves the bytes.
  abbrev pub Unmasked : ℕ → ℕ → Outcome (List ℕ) → Type 0
  Unmasked n start (returns bs) =
      (length bs ≡ n) × (start ≤ length buffer → start + n ≤ length buffer)
  Unmasked n start (throws e) = ⊥
  Unmasked n start fault = length buffer < start + n

  Unmasked-step :
      (n start b : ℕ) (r : Outcome (List ℕ))
      → start < length buffer
      → Unmasked n (start + 1) r
      → Unmasked (suc n) start (r >>= λ rest. returns (b ∷ rest))
  Unmasked-step n start b (returns bs) inside (size, ends) =
      (omega (arith, size), λ h. omega (arith, ends (omega arith)))
  Unmasked-step n start b (throws e) inside u = u
  Unmasked-step n start b fault inside u = omega arith

  pub unmask_loop-Unmasked :
      (n key pos i : ℕ) → Unmasked n (pos + i) (unmask_loop n buffer key pos i)
  unfolding unmask_loop
  unmask_loop-Unmasked zero key pos i = (refl, omega arith)
  unmask_loop-Unmasked (suc n) key pos i =
      let ih : Unmasked n (pos + i + 1) (unmask_loop n buffer key pos (i + 1)) =
        let e : pos + i + 1 ≡ pos + (i + 1) = omega arith in
        rw e (unmask_loop-Unmasked n key pos (i + 1)) in
      elim (Option-cases (get_elem? buffer (pos + i))) [
        | inl e ↦ rw (e, read) (omega (arith, get_elem?-ge buffer (pos + i) e))
        | inr (b, e) ↦
            rw (e, read)
              (Unmasked-step n (pos + i) _ (unmask_loop n buffer key pos (i + 1))
                (get_elem?-lt buffer (pos + i) e) ih)
      ]

  pub Unmasked-beyond :
      (n start : ℕ) (r : Outcome (List ℕ))
      → Unmasked n start r
      → start ≤ length buffer
      → length buffer < start + n
      → r ≡ fault
  Unmasked-beyond n start (returns bs) (size, ends) inside beyond =
      absurd (omega (arith, ends inside))
  Unmasked-beyond n start (throws e) u inside beyond = absurd u
  Unmasked-beyond n start fault u inside beyond = refl
