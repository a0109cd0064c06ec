-- ===== src/WebSocket/RoundTrip.antt =====
-- `parse` on what `make` has written, with any bytes behind it.
use Prim.Native.Nat.{bit_and, bit_or, bit_xor}
use io_reactor.Prelude.{
  ℕ, suc, ◌+◌, ◌-◌, ◌*◌, ◌/◌, ◌%◌, ◌^◌, ◌≤◌, ◌<◌, Bool, true, false, List, [], ◌∷◌, ◌++◌, ◌≡◌, refl,
  sym, ap, ◌∙◌, arith, append_assoc, inl, inr, Bool-cases, leb, if◌then◌else◌, length,
  length-append, get_elem?-append, take-append, le→ltb, get_elem?, some, take,
}
use io_reactor.Bits.{bit_or_disjoint, bit_xor_twice, bit_and_one, bit_and_fifteen, low_seven_bits}
use io_reactor.WebSocket.{
  WebSocket, Outcome, returns, parse, parse_length, parse_mask, parse_fields, parse_payload,
  first_bytes, unmask_loop, key_byte, key_bytes, key_of_bytes,
}
use io_reactor.WebSocket.Wire.{
  bit, length_field, extended, extended_size, length-extended, mask_size, mask_bytes, body, masked,
  head_bytes, wire, length_field-lt,
}

-- The `|` of eight bytes, each shifted to its own place.
eight_bytes :
    (a b c d e f g h : ℕ)
    → (a < 256) × (b < 256) × (c < 256) × (d < 256) × (e < 256) × (f < 256) × (g < 256) × (h < 256)
    → let s1 = bit_or (bit_or (a * 2 ^ 56) (b * 2 ^ 48)) (c * 2 ^ 40) in
      let s2 = bit_or (bit_or (bit_or s1 (d * 2 ^ 32)) (e * 2 ^ 24)) (f * 2 ^ 16) in
      bit_or (bit_or s2 (g * 2 ^ 8)) h
      ≡ a * 2 ^ 56 + b * 2 ^ 48 + c * 2 ^ 40 + d * 2 ^ 32 + e * 2 ^ 24 + f * 2 ^ 16 + g * 2 ^ 8 + h
eight_bytes a b c d e f g h bytes =
    let t1 = a * 2 ^ 56 in
    let t2 = t1 + b * 2 ^ 48 in
    let t3 = t2 + c * 2 ^ 40 in
    let t4 = t3 + d * 2 ^ 32 in
    let t5 = t4 + e * 2 ^ 24 in
    let t6 = t5 + f * 2 ^ 16 in
    rw (
      bit_or_disjoint 56 t1 (b * 2 ^ 48) (omega arith) (omega arith),
      bit_or_disjoint 48 t2 (c * 2 ^ 40) (omega arith) (omega arith),
      bit_or_disjoint 40 t3 (d * 2 ^ 32) (omega arith) (omega arith),
      bit_or_disjoint 32 t4 (e * 2 ^ 24) (omega arith) (omega arith),
      bit_or_disjoint 24 t5 (f * 2 ^ 16) (omega arith) (omega arith),
      bit_or_disjoint 16 t6 (g * 2 ^ 8) (omega arith) (omega arith),
      bit_or_disjoint 8 (t6 + g * 2 ^ 8) h (omega arith) (omega arith),
    )

large_length :
    (n : ℕ)
    → n < 2 ^ 64
    → n / 2 ^ 56 % 256 * 2 ^ 56
        + n / 2 ^ 48 % 256 * 2 ^ 48
        + n / 2 ^ 40 % 256 * 2 ^ 40
        + n / 2 ^ 32 % 256 * 2 ^ 32
        + n / 2 ^ 24 % 256 * 2 ^ 24
        + n / 2 ^ 16 % 256 * 2 ^ 16
        + n / 2 ^ 8 % 256 * 2 ^ 8
        + n % 256
      ≡ n
large_length n h = omega arith

pub parse_length_lem :
    (b0 b1 n : ℕ) (tail : List ℕ)
    → n < 2 ^ 64
    → parse_length (b0 ∷ b1 ∷ extended n ++ tail) (length_field n)
      ≡ returns (2 + extended_size n, n)
unfolding parse_length
parse_length_lem b0 b1 n tail h = elim (Bool-cases (leb n 125)) [
  | inl small ↦ rw (small, small)
  | inr more ↦ elim (Bool-cases (leb n 65535)) [
    | inl medium ↦
        let e : bit_or (n / 2 ^ 8 % 256 * 2 ^ 8) (n % 256) ≡ n =
          bit_or_disjoint 8 _ (n % 256) (omega arith) (omega arith) ∙ ground arith in
        rw (more, medium, e)
    | inr large ↦
        let e =
          eight_bytes (n / 2 ^ 56 % 256) (n / 2 ^ 48 % 256) (n / 2 ^ 40 % 256) (n / 2 ^ 32 % 256)
            (n / 2 ^ 24 % 256) (n / 2 ^ 16 % 256) (n / 2 ^ 8 % 256) (n % 256) (omega arith) in
        rw (more, large)
          (rw (
            le→ltb (length (0 ∷ 0 ∷ 0 ∷ 0 ∷ 0 ∷ 0 ∷ 0 ∷ 0 ∷ 0 ∷ 0 ∷ tail)) 10 (omega arith),
            e,
            large_length n h,
          ))
  ]
]

key_of_key_bytes :
    (key : ℕ)
    → key < 2 ^ 32
    → key_of_bytes (key % 256) (key / 256 % 256) (key / 65536 % 256) (key / 16777216 % 256) ≡ key
key_of_key_bytes key h = omega arith

pub parse_mask_reads :
    (buffer : List ℕ) (pos a b c d : ℕ)
    → pos + 4 ≤ length buffer
    → get_elem? buffer (pos + 4 - 4) ≡ some a
    → get_elem? buffer (pos + 4 - 3) ≡ some b
    → get_elem? buffer (pos + 4 - 2) ≡ some c
    → get_elem? buffer (pos + 4 - 1) ≡ some d
    → parse_mask buffer 1 pos ≡ returns (pos + 4, key_of_bytes a b c d)
unfolding parse_mask
parse_mask_reads buffer pos a b c d h ha hb hc hd = ground arith

parse_mask_lem :
    (masking : Bool) (key : ℕ) (pre tail : List ℕ) (pos : ℕ)
    → key < 2 ^ 32
    → pos ≡ length pre
    → parse_mask (pre ++ (mask_bytes masking key ++ tail)) (bit masking) pos
      ≡ returns (pos + mask_size masking, if masking then key else 0)
unfolding parse_mask
parse_mask_lem false key pre tail pos k h = let e : pos + 0 ≡ pos = omega arith in rw e
parse_mask_lem true key pre tail pos k h =
    let xs = key_bytes key ++ tail in
    let at = λ (i n : ℕ) (e : n ≡ length pre + i). get_elem?-append pre xs i n e in
    parse_mask_reads (pre ++ xs) pos _ _ _ _ (omega (arith, length-append pre xs))
      (at 0 (pos + 4 - 4) (omega arith)) (at 1 (pos + 4 - 3) (omega arith))
      (at 2 (pos + 4 - 2) (omega arith)) (at 3 (pos + 4 - 1) (omega arith))
    ∙ ap (λ k. returns (pos + 4, k)) (key_of_key_bytes key k)

unmask_loop_step :
    (n : ℕ) (buffer : List ℕ) (key pos i b : ℕ) (rest : List ℕ)
    → get_elem? buffer (pos + i) ≡ some b
    → unmask_loop n buffer key pos (i + 1) ≡ returns rest
    → unmask_loop (suc n) buffer key pos i ≡ returns (bit_xor b (key_byte key i) ∷ rest)
unfolding unmask_loop
unmask_loop_step n buffer key pos i b rest h e = ground arith

unmask_loop_lem :
    (bs pre tail : List ℕ) (key pos i : ℕ)
    → pos + i ≡ length pre
    → unmask_loop (length bs) (pre ++ (masked key i bs ++ tail)) key pos i ≡ returns bs
unfolding masked
unmask_loop_lem [] pre tail key pos i h = unfold unmask_loop in refl
unmask_loop_lem (b ∷ bs) pre tail key pos i h =
    let m = bit_xor b (key_byte key i) in
    let rest = masked key (i + 1) bs ++ tail in
    let ih =
      unmask_loop_lem bs (pre ++ m ∷ []) tail key pos (i + 1)
        (omega (arith, length-append pre (m ∷ []))) in
    unmask_loop_step (length bs) (pre ++ m ∷ rest) key pos i m bs
      (get_elem?-append pre (m ∷ rest) 0 (pos + i) (omega arith))
      (let e = append_assoc pre (m ∷ []) rest in rw e at ih)
    ∙ ap (λ c. returns (c ∷ bs)) (bit_xor_twice b (key_byte key i))

pub length-masked : (key i : ℕ) (bs : List ℕ) → length (masked key i bs) ≡ length bs
unfolding masked
length-masked key i [] = refl
length-masked key i (b ∷ bs) = ap suc (length-masked key (i + 1) bs)

parse_payload_clear :
    (buffer : List ℕ) (w : WebSocket)
    → w.mask ≡ 0
    → w.payload_pos + w.payload_size ≤ length buffer
    → w.payload_pos + w.payload_size < 2 ^ 64
    → parse_payload buffer w
      ≡ returns (record w { buffer = take (w.payload_pos + w.payload_size) buffer })
unfolding parse_payload first_bytes
parse_payload_clear buffer w m f h = ground arith

parse_payload_masked :
    (buffer bs : List ℕ) (w : WebSocket)
    → w.mask ≡ 1
    → w.payload_pos + w.payload_size ≤ length buffer
    → w.payload_pos + w.payload_size < 2 ^ 64
    → unmask_loop w.payload_size buffer w.mask_key w.payload_pos 0 ≡ returns bs
    → parse_payload buffer w ≡ returns (record w { buffer = take w.payload_pos buffer ++ bs })
unfolding parse_payload first_bytes
parse_payload_masked buffer bs w m f h e = ground arith

parse_payload_lem :
    (w : WebSocket) (masking : Bool) (pre payload rest : List ℕ)
    → w.mask ≡ bit masking
    → w.payload_pos ≡ length pre
    → w.payload_size ≡ length payload
    → length pre + length payload < 2 ^ 64
    → parse_payload (pre ++ (body masking w.mask_key payload ++ rest)) w
      ≡ returns (record w { buffer = pre ++ payload })
parse_payload_lem w false pre payload rest m p s h =
    let buffer = pre ++ (payload ++ rest) in
    let long : w.payload_pos + w.payload_size ≤ length buffer =
      omega (arith, length-append pre (payload ++ rest), length-append payload rest) in
    let cut : take (w.payload_pos + w.payload_size) buffer ≡ pre ++ payload =
      rw (← append_assoc pre payload rest) (
        take-append (pre ++ payload) rest (w.payload_pos + w.payload_size)
          (omega (arith, length-append pre payload))) in
    parse_payload_clear buffer w m long (omega arith)
    ∙ ap (λ b. returns (record w { buffer = b })) cut
parse_payload_lem w true pre payload rest m p s h =
    let bytes = masked w.mask_key 0 payload in
    let buffer = pre ++ (bytes ++ rest) in
    let long : w.payload_pos + w.payload_size ≤ length buffer = omega (
      arith,
      length-append pre (bytes ++ rest),
      length-append bytes rest,
      length-masked w.mask_key 0 payload,
    ) in
    let loop = unmask_loop_lem payload pre rest w.mask_key w.payload_pos 0 (omega arith) in
    parse_payload_masked buffer payload w m long (omega arith) (rw (← s) at loop)
    ∙ ap (λ b. returns (record w { buffer = b ++ payload }))
        (take-append pre (bytes ++ rest) w.payload_pos p)

pub parse_steps :
    (b0 b1 start size pos key : ℕ) (tail : List ℕ) {r : Outcome WebSocket}
    → parse_length (b0 ∷ b1 ∷ tail) (bit_and b1 (2 ^ 32 - 1 - 0x80)) ≡ returns (start, size)
    → parse_mask (b0 ∷ b1 ∷ tail) (bit_and (b1 / 2 ^ 7) 0x01) start ≡ returns (pos, key)
    → parse_payload (b0 ∷ b1 ∷ tail) (parse_fields b0 b1 size pos key) ≡ r
    → parse (b0 ∷ b1 ∷ tail) ≡ r
unfolding parse
parse_steps b0 b1 start size pos key tail hl hm hp =
    rw (le→ltb (suc (suc (length tail))) 2 (omega arith), hl, hm, hp)

bit_bound : (b : Bool) (n : ℕ) → n < 128 → bit b * 128 + n < 256
bit_bound b n h = ground arith

-- The first two bytes, taken apart.
second_byte :
    (masking : Bool) (n : ℕ)
    → n < 128
    → let b1 = bit masking * 128 + n in
      (bit_and b1 (2 ^ 32 - 1 - 0x80) ≡ n) × (bit_and (b1 / 2 ^ 7) 0x01 ≡ bit masking)
second_byte masking n h = (
  low_seven_bits (bit masking * 128 + n) (bit_bound masking n h) ∙ ground arith,
  bit_and_one ((bit masking * 128 + n) / 2 ^ 7) ∙ ground arith,
)

first_byte :
    (last : Bool) (op : ℕ)
    → op < 16
    → let b0 = bit last * 128 + op in
      (bit_and b0 0x0F ≡ op) × (bit_and (b0 / 2 ^ 7) 0x01 ≡ bit last)
first_byte true op h =
    (bit_and_fifteen (128 + op) ∙ omega arith, bit_and_one ((128 + op) / 2 ^ 7) ∙ omega arith)
first_byte false op h = (bit_and_fifteen (0 * 128 + op) ∙ omega arith, bit_and_one _ ∙ omega arith)

-- The frame that a reader gets: the payload stands in its buffer in the clear.
abbrev pub received_frame : Bool → ℕ → Bool → ℕ → List ℕ → WebSocket
received_frame last op masking key payload =
    let n = length payload in
    record {
      fin = bit last;
      opcode = op;
      mask = bit masking;
      mask_key = if masking then key else 0;
      length = length_field n;
      payload_pos = 2 + extended_size n + mask_size masking;
      payload_size = n;
      made = false;
      buffer = (head_bytes last op masking n ++ mask_bytes masking key) ++ payload;
    }

body_key :
    (masking : Bool) (key : ℕ) (payload : List ℕ)
    → body masking key payload ≡ body masking (if masking then key else 0) payload
body_key true key payload = refl
body_key false key payload = refl

pub length-mask_bytes :
    (masking : Bool) (key : ℕ) → length (mask_bytes masking key) ≡ mask_size masking
length-mask_bytes true key = refl
length-mask_bytes false key = refl

pub wire-append :
    (last : Bool) (op : ℕ) (masking : Bool) (key : ℕ) (payload rest : List ℕ)
    → wire last op masking key payload ++ rest
      ≡ head_bytes last op masking (length payload)
        ++ (mask_bytes masking key ++ (body masking key payload ++ rest))
wire-append last op masking key payload rest =
    let head = head_bytes last op masking (length payload) in
    append_assoc head (mask_bytes masking key ++ body masking key payload) rest
    ∙ ap (◌++◌ head) (append_assoc (mask_bytes masking key) (body masking key payload) rest)

-- The frame that `parse` reads from the packet, whatever follows the packet.
pub parse-wire :
    (last : Bool) (op : ℕ) (masking : Bool) (key : ℕ) (payload rest : List ℕ)
    → op < 16
    → key < 2 ^ 32
    → length payload + 14 < 2 ^ 64
    → parse (wire last op masking key payload ++ rest)
      ≡ returns (received_frame last op masking key payload)
unfolding parse_fields
parse-wire last op masking key payload rest ho hk hn =
    let n = length payload in
    let b0 = bit last * 128 + op in
    let b1 = bit masking * 128 + length_field n in
    let head = head_bytes last op masking n in
    let (len_ok, mask_ok) = second_byte masking (length_field n) (length_field-lt n) in
    let (op_ok, fin_ok) = first_byte last op ho in
    let keyed = mask_bytes masking key in
    let text = body masking key payload in
    let start = 2 + extended_size n in
    let pos = start + mask_size masking in
    let k : ℕ = if masking then key else 0 in
    let w = parse_fields b0 b1 n pos k in
    let sizes : length (head ++ keyed) ≡ pos =
      omega (arith, length-append head keyed, length-extended n, length-mask_bytes masking key) in
    let small : extended_size n ≤ 8 = ground arith in
    let payload_ok =
      parse_payload_lem w masking (head ++ keyed) payload rest mask_ok (sym sizes) refl
        (ground (arith, sizes)) in
    rw (wire-append last op masking key payload rest) (
      parse_steps b0 b1 start n pos k (extended n ++ (keyed ++ (text ++ rest)))
        (rw len_ok (parse_length_lem b0 b1 n (keyed ++ (text ++ rest)) (omega arith)))
        (rw mask_ok (
          parse_mask_lem masking key head (text ++ rest) start hk
            (omega (arith, length-extended n))))
        (ap (λ bytes. parse_payload bytes w)
            (ap (λ t. head ++ (keyed ++ (t ++ rest))) (body_key masking key payload)
              ∙ sym (append_assoc head keyed (body masking k payload ++ rest)))
          ∙ payload_ok)
      ∙ rw (fin_ok, op_ok, len_ok, mask_ok))
