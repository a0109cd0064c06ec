-- ===== src/WebSocket/Safety.antt =====
-- What `parse` can return, throw or fault on, for every input.
use Prim.Native.Nat.{bit_and}
use io_reactor.Prelude.{
  ℕ, ◌+◌, ◌-◌, ◌/◌, ◌%◌, ◌^◌, ◌≤◌, ◌<◌, true, false, List, [], ◌∷◌, ◌++◌, ◌≡◌, refl, arith, inl,
  inr, Bool-cases, leb, ltb, length, length-append, length-take, get_elem?-append, take, ◌==◌,
}
use io_reactor.Bits.{low_seven_bits}
use io_reactor.WebSocket.Wire.{extended, extended_size, length-extended, length_field}
use io_reactor.WebSocket.RoundTrip.{parse_length_lem, parse_mask_reads, parse_steps}
use io_reactor.WebSocket.Reads.{
  Announces, Gives, Gives-bind, Gives-if, Gives-read_inside, IsStart, IsBehind, Unmasked,
  parse_length-IsStart, parse_mask-IsBehind, unmask_loop-Unmasked, Unmasked-beyond, Gives-read,
}
use io_reactor.WebSocket.{
  WebSocket, Outcome, returns, throws, fault, ◌>>=◌, parse, parse_length, parse_mask, parse_fields,
  parse_payload, first_bytes, unmask_loop, key_of_bytes,
}

-- A frame that the bytes announce, whose buffer is the packet's size, no more than was received.
abbrev pub Framed : List ℕ → WebSocket → Type 0
Framed buffer w =
    Announces buffer w.payload_pos w.payload_size
    × (w.payload_pos + w.payload_size ≡ length w.buffer)
    × (2 ≤ w.payload_pos)
    × (length w.buffer ≤ length buffer)

parse_payload-Framed :
    (buffer : List ℕ) (w : WebSocket)
    → Announces buffer w.payload_pos w.payload_size
    → 2 ≤ w.payload_pos
    → w.payload_pos ≤ length buffer
    → Gives buffer (Framed buffer) (parse_payload buffer w)
unfolding parse_payload first_bytes
parse_payload-Framed buffer w announced two inside =
    let pos = w.payload_pos in
    let n = w.payload_size in
    let total = pos + n in
    let P = Framed buffer in
    let at_pos : leb pos (length buffer) ≡ true = ground arith in
    Gives-if buffer P (ltb (length buffer) (total % 2 ^ 64)) _ _
      (λ short. (pos, n, announced, ground (arith, short)))
      λ passes.
        Gives-if buffer P (w.mask == 0) _ _
          (λ _. elim (Bool-cases (leb total (length buffer))) [
            | inl e ↦ rw e (
              announced,
              ground (arith, length-take total buffer),
              two,
              ground (arith, length-take total buffer),
            )
            | inr e ↦ rw e (inr (pos, n, announced, ground (arith, e), ground (arith, e, passes)))
          ])
          λ _. rw at_pos (
            unmasked (take pos buffer) (ground (arith, length-take pos buffer))
              (unmask_loop n buffer w.mask_key pos 0) passes
              (unmask_loop-Unmasked buffer n w.mask_key pos 0))
  where
    unmasked :
        (header : List ℕ)
        → length header ≡ w.payload_pos
        → (r : Outcome (List ℕ))
        → ltb (length buffer) ((w.payload_pos + w.payload_size) % 2 ^ 64) ≡ false
        → Unmasked buffer w.payload_size (w.payload_pos + 0) r
        → Gives buffer
            (Framed buffer)
            (r >>= λ payload. returns (record w { buffer = header ++ payload }))
    unmasked header size (returns bs) passes (read, ends) = (
      announced,
      ground (arith, length-append header bs, size, read),
      two,
      ground (arith, length-append header bs, size, read, ends (omega arith)),
    )
    unmasked header size (throws e) passes u = absurd u
    unmasked header size fault passes u =
        inr (w.payload_pos, w.payload_size, announced, omega arith, ground (arith, passes))

-- On any bytes, one of four things happens. `parse` returns a frame that the header announces, with
-- the announced size, all of it received. It throws `INCOMPLETE_HEADER`, where there are fewer than
-- two bytes, or fewer than the ten that an eight-byte length ends with, or fewer than the announced
-- mask key ends with. It throws `INCOMPLETE_PAYLOAD`, where the announced payload ends behind the
-- bytes. It faults, where a two-byte length is announced in fewer than four bytes, or where the
-- announced payload ends behind the bytes at a place that has no 64-bit number. It never throws
-- `WRONG_OPCODE` or `UNKNOWN`.
pub parse-Framed : (buffer : List ℕ) → Gives buffer (Framed buffer) (parse buffer)
unfolding parse
parse-Framed buffer =
    let P = Framed buffer in
    Gives-if buffer P (ltb (length buffer) 2) _ _ (λ short. inl (ground (arith, short)))
      λ long.
        let two : 2 ≤ length buffer = ground (arith, long) in
        Gives-read_inside buffer P 0 _ (omega arith) λ b0.
          Gives-read buffer P 1 _ (λ h. absurd (omega arith))
            λ b1 second _.
              let len = bit_and b1 (2 ^ 32 - 1 - 0x80) in
              let mask = bit_and (b1 / 2 ^ 7) 0x01 in
              Gives-bind buffer (IsStart buffer) P (parse_length buffer len) _
                (parse_length-IsStart buffer b1 second two)
                λ (start, size) at_length hs.
                  Gives-bind buffer (IsBehind buffer start) P (parse_mask buffer mask start) _
                    (parse_mask-IsBehind buffer b1 start size second at_length hs.1)
                    λ (pos, key) at_mask hp.
                      parse_payload-Framed buffer (parse_fields b0 b1 size pos key)
                        (unfold parse_fields in (b1, start, key, second, at_length, at_mask))
                        (unfold parse_fields in omega arith) (unfold parse_fields in omega arith)

-- A frame that announces a two-byte length is read past its end while only two or three bytes of it
-- are there: the guard tests `payload_pos_`, not `size`.
pub short_extended_faults :
    (b0 b1 b2 : ℕ)
    → b1 < 256
    → b1 % 128 ≡ 126
    → (parse (b0 ∷ b1 ∷ []) ≡ fault) × (parse (b0 ∷ b1 ∷ b2 ∷ []) ≡ fault)
unfolding parse parse_length
short_extended_faults b0 b1 b2 h e = (rw (low_seven_bits b1 h, e), rw (low_seven_bits b1 h, e))

-- A length of nearly 2^64: with the header added it wraps around 64 bits, and the frame passes the
-- size check. `parse` then leaves the received bytes: without a mask it forms a pointer to the end of
-- the payload, which is outside of them; with a mask it reads the payload past their end.
pub wrapped_length_faults :
    (b0 n k0 k1 k2 k3 : ℕ) (tail : List ℕ)
    → 2 ^ 64 ≤ n + 10
    → n < 2 ^ 64
    → length tail + 14 < 2 ^ 64
    → (parse (b0 ∷ 127 ∷ extended n ++ tail) ≡ fault)
      × (parse (b0 ∷ 255 ∷ extended n ++ (k0 ∷ k1 ∷ k2 ∷ k3 ∷ tail)) ≡ fault)
wrapped_length_faults b0 n k0 k1 k2 k3 tail lo hi fits =
    let ten : extended_size n ≡ 8 = ground arith in
    let field : length_field n ≡ 127 = ground arith in
    let keyed = k0 ∷ k1 ∷ k2 ∷ k3 ∷ tail in
    let key = key_of_bytes k0 k1 k2 k3 in
    let clear = b0 ∷ 127 ∷ extended n ++ tail in
    let masked = b0 ∷ 255 ∷ extended n ++ keyed in
    let clear_size : length clear ≡ length tail + 10 =
      omega (arith, length-append (extended n) tail, length-extended n, ten) in
    let masked_size : length masked ≡ length tail + 14 =
      omega (arith, length-append (extended n) keyed, length-extended n, ten) in
    let clear_length : parse_length clear 127 ≡ returns (10, n) =
      rw (field, ten) at (parse_length_lem b0 127 n tail hi) in
    let masked_length : parse_length masked 127 ≡ returns (10, n) =
      rw (field, ten) at (parse_length_lem b0 255 n keyed hi) in
    let head = b0 ∷ 255 ∷ extended n in
    let at = λ (i m : ℕ) (e : m ≡ 10 + i).
      get_elem?-append head keyed i m (omega (arith, length-extended n, ten)) in
    let masked_key : parse_mask masked 1 10 ≡ returns (14, key) =
      parse_mask_reads masked 10 k0 k1 k2 k3 (omega arith) (at 0 10 refl) (at 1 11 refl)
        (at 2 12 refl) (at 3 13 refl) in
    let beyond : unmask_loop n masked key 14 0 ≡ fault =
      Unmasked-beyond masked n 14 _ (unmask_loop-Unmasked masked n key 14 0) (omega arith)
        (omega arith) in
    (
      parse_steps b0 127 10 n 10 0 (extended n ++ tail) clear_length (unfold parse_mask in refl)
          (unfold parse_payload parse_fields first_bytes in ground (arith, clear_size)),
      parse_steps b0 255 10 n 14 key (extended n ++ keyed) masked_length masked_key
          (unfold parse_payload parse_fields first_bytes in ground (arith, masked_size, beyond)),
    )
