-- ===== src/WebSocket/Wire.antt =====
-- The frame layout of RFC 6455 written out as one list, and `make` against it.
use Prim.Native.Nat.{bit_or, bit_xor}
use io_reactor.Prelude.{
  ℕ, zero, suc, ◌+◌, ◌-◌, ◌*◌, ◌/◌, ◌%◌, ◌^◌, ◌<◌, Bool, true, false, List, [], ◌∷◌, ◌++◌, ◌≡◌,
  refl, sym, ap, ◌∙◌, arith, append-nil, append_assoc, inl, inr, Bool-cases, leb, if◌then◌else◌,
  length, replicate, set, length-append,
}
use native.Mathlib.Nat.{div-one}
use io_reactor.Bits.{bit_or_parts, zero-bit_or, bit_and_255}
use io_reactor.WebSocket.{
  WebSocket, make, make_fields, make_flags, make_length, make_payload, header_size, or_at, key_byte,
  key_bytes, write, mask_loop, length_loop,
}

abbrev pub bit : Bool → ℕ
bit b = if b then 1 else 0

-- The 7-bit length field, and the bytes of the extended length, highest first.
abbrev pub length_field : ℕ → ℕ
length_field n = if leb n 125 then n else if leb n 65535 then 126 else 127

abbrev pub extended : ℕ → List ℕ
extended n =
    if leb n 125
    then []
    else if leb n 65535
    then (n / 2 ^ 8 % 256) ∷ (n % 256) ∷ []
    else (n / 2 ^ 56 % 256)
      ∷ (n / 2 ^ 48 % 256)
      ∷ (n / 2 ^ 40 % 256)
      ∷ (n / 2 ^ 32 % 256)
      ∷ (n / 2 ^ 24 % 256)
      ∷ (n / 2 ^ 16 % 256)
      ∷ (n / 2 ^ 8 % 256)
      ∷ (n % 256)
      ∷ []

-- Byte `i` of the payload is masked by byte `i % 4` of the key.
unfoldable pub masked : ℕ → ℕ → List ℕ → List ℕ
masked key i [] = []
masked key i (b ∷ bs) = bit_xor b (key_byte key i) ∷ masked key (i + 1) bs

abbrev pub head_bytes : Bool → ℕ → Bool → ℕ → List ℕ
head_bytes last op masking n =
    (bit last * 128 + op) ∷ (bit masking * 128 + length_field n) ∷ extended n

abbrev pub mask_bytes : Bool → ℕ → List ℕ
mask_bytes masking key = if masking then key_bytes key else []

abbrev pub body : Bool → ℕ → List ℕ → List ℕ
body masking key payload = if masking then masked key 0 payload else payload

abbrev pub wire : Bool → ℕ → Bool → ℕ → List ℕ → List ℕ
wire last op masking key payload =
    head_bytes last op masking (length payload)
    ++ (mask_bytes masking key ++ body masking key payload)

replicate-add : (m n a : ℕ) → replicate (m + n) a ≡ replicate m a ++ replicate n a
replicate-add zero n a = let e : 0 + n ≡ n = omega arith in rw e
replicate-add (suc m) n a =
    let e : suc m + n ≡ suc (m + n) = omega arith in rw e (ap (◌∷◌ a) (replicate-add m n a))

set-append :
    (pre post : List ℕ) (x v n : ℕ)
    → n ≡ length pre
    → set (pre ++ x ∷ post) n v ≡ (pre ++ v ∷ []) ++ post
set-append [] post x v zero h = refl
set-append [] post x v (suc n) h = absurd (omega arith)
set-append (p ∷ pre) post x v zero h = absurd (omega arith)
set-append (p ∷ pre) post x v (suc n) h = ap (◌∷◌ p) (set-append pre post x v n (omega arith))

-- Writing over zeros that are as many as the bytes.
pub write-replicate :
    (bs pre post : List ℕ) (pos : ℕ)
    → pos ≡ length pre
    → write (pre ++ (replicate (length bs) 0 ++ post)) pos bs ≡ pre ++ (bs ++ post)
unfolding write
write-replicate [] pre post pos h = refl
write-replicate (b ∷ bs) pre post pos h =
    ap (λ buffer. write buffer (pos + 1) bs)
      (set-append pre (replicate (length bs) 0 ++ post) 0 b pos h)
    ∙ write-replicate bs (pre ++ b ∷ []) post (pos + 1) (omega (arith, length-append pre (b ∷ [])))
    ∙ append_assoc pre (b ∷ []) (bs ++ post)

mask_loop-replicate :
    (bs pre : List ℕ) (key pos i : ℕ)
    → pos + i ≡ length pre
    → mask_loop (pre ++ replicate (length bs) 0) key pos i bs ≡ pre ++ masked key i bs
unfolding mask_loop masked
mask_loop-replicate [] pre key pos i h = refl
mask_loop-replicate (b ∷ bs) pre key pos i h =
    let m = bit_xor b (key_byte key i) in
    ap (λ buffer. mask_loop buffer key pos (i + 1) bs)
      (set-append pre (replicate (length bs) 0) 0 m (pos + i) h)
    ∙ mask_loop-replicate bs (pre ++ m ∷ []) key pos (i + 1)
        (omega (arith, length-append pre (m ∷ [])))
    ∙ append_assoc pre (m ∷ []) (masked key (i + 1) bs)

flag_or : (b : Bool) (x : ℕ) → x < 128 → bit_or (bit_or 0 (bit b * 2 ^ 7)) x ≡ bit b * 128 + x
flag_or true x h = bit_or_parts 7 1 x h
flag_or false x h = zero-bit_or x ∙ omega arith

abbrev pub mask_size : Bool → ℕ
mask_size masking = if masking then 4 else 0

abbrev pub extended_size : ℕ → ℕ
extended_size n = if leb n 125 then 0 else if leb n 65535 then 2 else 8

make_flags_lem :
    (w : WebSocket) (rest : List ℕ)
    → w.buffer ≡ 0 ∷ 0 ∷ rest
    → make_flags w ≡ record w {
      buffer = bit_or (bit_or 0 (w.fin * 2 ^ 7)) w.opcode ∷ bit_or 0 (w.mask * 2 ^ 7) ∷ rest;
    }
unfolding make_flags or_at
make_flags_lem w rest h = rw h

make_length_lem :
    (w : WebSocket) (a b : ℕ) (rest : List ℕ)
    → w.buffer ≡ a ∷ b ∷ replicate (extended_size w.payload_size) 0 ++ rest
    → make_length w ≡ record w {
      length = length_field w.payload_size;
      buffer = a ∷ bit_or b (length_field w.payload_size) ∷ extended w.payload_size ++ rest;
    }
unfolding make_length or_at length_loop
make_length_lem w a b rest h = elim (Bool-cases (leb w.payload_size 125)) [
  | inl small ↦ rw small (let h' : w.buffer ≡ a ∷ b ∷ rest = rw small at h in rw h')
  | inr more ↦ elim (Bool-cases (leb w.payload_size 65535)) [
    | inl medium ↦
        let h' : w.buffer ≡ a ∷ b ∷ 0 ∷ 0 ∷ rest = rw (more, medium) at h in
        rw (more, medium, h', bit_and_255 (w.payload_size / 2 ^ 8), bit_and_255 w.payload_size)
    | inr large ↦
        let h' : w.buffer ≡ a ∷ b ∷ 0 ∷ 0 ∷ 0 ∷ 0 ∷ 0 ∷ 0 ∷ 0 ∷ 0 ∷ rest = rw (more, large) at h in
        rw (more, large, h') (simp (bit_and_255, div-one))
  ]
]

write_zeros :
    (bs pre : List ℕ) (pos : ℕ)
    → pos ≡ length pre
    → write (pre ++ replicate (length bs) 0) pos bs ≡ pre ++ bs
write_zeros bs pre pos h =
    ap (λ zeros. write (pre ++ zeros) pos bs) (sym (append-nil _))
    ∙ write-replicate bs pre [] pos h
    ∙ ap (◌++◌ pre) (append-nil bs)

make_payload_lem :
    (w : WebSocket) (masking : Bool) (pre payload : List ℕ)
    → w.buffer ≡ pre ++ (replicate (mask_size masking) 0 ++ replicate (length payload) 0)
    → w.mask ≡ bit masking
    → w.payload_pos ≡ length pre + mask_size masking
    → make_payload w payload ≡ record w {
      buffer = pre ++ (mask_bytes masking w.mask_key ++ body masking w.mask_key payload);
    }
unfolding make_payload
make_payload_lem w false pre payload h m p =
    rw (m, h) (let e = write_zeros payload pre w.payload_pos (omega arith) in rw e)
make_payload_lem w true pre payload h m p =
    let key = w.mask_key in
    let e : write w.buffer (w.payload_pos - 4) (key_bytes key)
        ≡ (pre ++ key_bytes key) ++ replicate (length payload) 0 =
      rw h (
        write-replicate (key_bytes key) pre (replicate (length payload) 0) (w.payload_pos - 4)
          (omega arith)
        ∙ sym (append_assoc pre (key_bytes key) (replicate (length payload) 0))) in
    let e' =
      mask_loop-replicate payload (pre ++ key_bytes key) key w.payload_pos 0
        (omega (arith, length-append pre (key_bytes key))) in
    rw m (rw (e, e', append_assoc pre (key_bytes key) (masked key 0 payload)))

-- The frame that `make` is to build.
abbrev pub made_frame : ℕ → ℕ → List ℕ → Bool → Bool → WebSocket
made_frame now op payload masking last =
    let key = if masking then now % 2 ^ 32 else 0 in
    record {
      fin = bit last;
      opcode = op;
      mask = bit masking;
      mask_key = key;
      length = length_field (length payload);
      payload_pos = 2 + extended_size (length payload) + mask_size masking;
      payload_size = length payload;
      made = true;
      buffer = wire last op masking key payload;
    }

room :
    (n : ℕ) (masking : Bool)
    → replicate {A = ℕ} (header_size masking n + n) 0
      ≡ 0 ∷ 0 ∷ replicate (extended_size n) 0 ++ (replicate (mask_size masking) 0 ++ replicate n 0)
unfolding header_size
room n masking =
    let e : header_size masking n + n ≡ suc (suc (extended_size n + (mask_size masking + n))) =
      omega arith in
    ap (λ k. replicate k 0) e
    ∙ ap (λ zeros. 0 ∷ 0 ∷ zeros)
        (replicate-add (extended_size n) (mask_size masking + n) 0
          ∙ ap (◌++◌ (replicate (extended_size n) 0)) (replicate-add (mask_size masking) n 0))

pub length-extended : (n : ℕ) → length (extended n) ≡ extended_size n
length-extended n = ground arith

pub length_field-lt : (n : ℕ) → length_field n < 128
length_field-lt n = ground arith

header_size_lem :
    (n : ℕ) (masking : Bool) → header_size masking n ≡ 2 + extended_size n + mask_size masking
unfolding header_size
header_size_lem n masking = omega arith

-- `make` builds the frame: its fields, and the packet that the in-place writes leave in the buffer.
pub make-wire :
    (now op : ℕ) (payload : List ℕ) (masking last : Bool)
    → op < 128
    → make now op payload masking last ≡ made_frame now op payload masking last
unfolding make make_fields
make-wire now op payload masking last h =
    let n = length payload in
    let key : ℕ = if masking then now % 2 ^ 32 else 0 in
    let zeros : List ℕ = replicate (mask_size masking) 0 ++ replicate n 0 in
    let w = make_fields now op payload masking last in
    let b0 = bit_or (bit_or 0 (bit last * 2 ^ 7)) op in
    let b1 = bit_or 0 (bit masking * 2 ^ 7) in
    let rest : List ℕ = replicate (extended_size n) 0 ++ zeros in
    let w1 = record w { buffer = b0 ∷ b1 ∷ rest } in
    let pre = b0 ∷ bit_or b1 (length_field n) ∷ extended n in
    let w2 = record w { length = length_field n; buffer = pre ++ zeros } in
    ap (λ v. make_payload (make_length v) payload) (make_flags_lem w rest (room n masking))
    ∙ ap (λ v. make_payload v payload) (make_length_lem w1 b0 b1 zeros refl)
    ∙ make_payload_lem w2 masking pre payload refl refl
        (ground (arith, length-extended n, header_size_lem n masking))
    ∙ rw (
      flag_or last op h,
      flag_or masking (length_field n) (length_field-lt n),
      header_size_lem n masking,
    )
