-- ===== src/WebSocket/Payload.antt =====
-- What the two sides read from a frame: `payload_to_string`, `fin`, `opcode` and `size`.
use io_reactor.Prelude.{
  ℕ, ◌+◌, ◌%◌, ◌^◌, ◌<◌, Bool, true, false, List, [], ◌∷◌, ◌++◌, ◌≡◌, refl, sym, ap, ◌∙◌, arith,
  append_assoc, if◌then◌else◌, length, length-append, take, drop, take_all, drop-append,
}
use io_reactor.Bits.{bit_xor_twice}
use io_reactor.WebSocket.{
  WebSocket, returns, make, parse, key_byte, payload_to_string, unmask_string,
}
use io_reactor.WebSocket.Wire.{
  bit, extended_size, length-extended, mask_size, mask_bytes, body, masked, head_bytes, wire,
  made_frame, make-wire,
}
use io_reactor.WebSocket.RoundTrip.{received_frame, parse-wire, length-masked, length-mask_bytes}

unmask_string-masked : (key i : ℕ) (bs : List ℕ) → unmask_string (masked key i bs) key i ≡ bs
unfolding masked unmask_string
unmask_string-masked key i [] = refl
unmask_string-masked key i (b ∷ bs) =
    rw (bit_xor_twice b (key_byte key i), unmask_string-masked key (i + 1) bs)

-- The bytes of a packet in front of its payload.
abbrev front : Bool → ℕ → Bool → ℕ → ℕ → List ℕ
front last op masking key n = head_bytes last op masking n ++ mask_bytes masking key

length-front :
    (last : Bool) (op : ℕ) (masking : Bool) (key n : ℕ)
    → 2 + extended_size n + mask_size masking ≡ length (front last op masking key n)
length-front last op masking key n =
    let head = head_bytes last op masking n in
    omega (
      arith,
      length-append head (mask_bytes masking key),
      length-extended n,
      length-mask_bytes masking key,
    )

payload_slice :
    (pre text : List ℕ) (pos n : ℕ)
    → pos ≡ length pre
    → n ≡ length text
    → take n (drop pos (pre ++ text)) ≡ text
payload_slice pre text pos n p s = rw (drop-append pre text pos p) (take_all n text (omega arith))

length-body :
    (masking : Bool) (key : ℕ) (payload : List ℕ)
    → length (body masking key payload) ≡ length payload
length-body true key payload = length-masked key 0 payload
length-body false key payload = refl

pub payload_of_received :
    (last : Bool) (op : ℕ) (masking : Bool) (key : ℕ) (payload : List ℕ)
    → payload_to_string (received_frame last op masking key payload) ≡ payload
unfolding payload_to_string
payload_of_received last op true key payload =
    payload_slice (front last op true key (length payload)) payload _ _
      (length-front last op true key (length payload)) refl
payload_of_received last op false key payload =
    payload_slice (front last op false key (length payload)) payload _ _
      (length-front last op false key (length payload)) refl

made_slice :
    (last : Bool) (op : ℕ) (masking : Bool) (key : ℕ) (payload : List ℕ)
    → let n = length payload in
      take n (drop (2 + extended_size n + mask_size masking) (wire last op masking key payload))
      ≡ body masking key payload
made_slice last op masking key payload =
    let n = length payload in
    let pos = 2 + extended_size n + mask_size masking in
    ap (λ packet. take n (drop pos packet))
      (sym (
        append_assoc (head_bytes last op masking n) (mask_bytes masking key)
          (body masking key payload)))
    ∙ payload_slice (front last op masking key n) (body masking key payload) pos n
        (length-front last op masking key n) (sym (length-body masking key payload))

payload_of_made :
    (now op : ℕ) (payload : List ℕ) (masking last : Bool)
    → payload_to_string (made_frame now op payload masking last) ≡ payload
unfolding payload_to_string
payload_of_made now op payload true last =
    let key = now % 2 ^ 32 in
    ap (λ bytes. unmask_string bytes key 0) (made_slice last op true key payload)
    ∙ unmask_string-masked key 0 payload
payload_of_made now op payload false last = made_slice last op false 0 payload

-- The sender's frame object gives back the payload that it was made from, masked or not.
pub payload_to_string-make :
    (now op : ℕ) (payload : List ℕ) (masking last : Bool)
    → op < 128
    → payload_to_string (make now op payload masking last) ≡ payload
payload_to_string-make now op payload masking last h =
    ap payload_to_string (make-wire now op payload masking last h)
    ∙ payload_of_made now op payload masking last

length-wire :
    (last : Bool) (op : ℕ) (masking : Bool) (key : ℕ) (payload : List ℕ)
    → length (wire last op masking key payload)
      ≡ 2 + extended_size (length payload) + mask_size masking + length payload
length-wire last op masking key payload =
    let n = length payload in
    let head = head_bytes last op masking n in
    let keyed = mask_bytes masking key in
    omega (
      arith,
      length-append head (keyed ++ body masking key payload),
      length-append keyed (body masking key payload),
      length-body masking key payload,
      length-extended n,
      length-mask_bytes masking key,
    )

length-received :
    (last : Bool) (op : ℕ) (masking : Bool) (key : ℕ) (payload : List ℕ)
    → length (received_frame last op masking key payload).buffer
      ≡ length (wire last op masking key payload)
length-received last op masking key payload = omega (
  arith,
  length-append (front last op masking key (length payload)) payload,
  length-front last op masking key (length payload),
  length-wire last op masking key payload,
)

abbrev pub chosen_key : ℕ → Bool → ℕ
chosen_key now masking = if masking then now % 2 ^ 32 else 0

pub parse-made :
    (now op : ℕ) (payload rest : List ℕ) (masking last : Bool)
    → op < 16
    → length payload + 14 < 2 ^ 64
    → parse ((make now op payload masking last).buffer ++ rest)
      ≡ returns (received_frame last op masking (chosen_key now masking) payload)
parse-made now op payload rest masking last ho hn =
    ap (λ (w : WebSocket). parse (w.buffer ++ rest))
      (make-wire now op payload masking last (omega arith))
    ∙ parse-wire last op masking (chosen_key now masking) payload rest ho (ground arith) hn

pub length-made :
    (now op : ℕ) (payload : List ℕ) (masking last : Bool)
    → op < 16
    → length (received_frame last op masking (chosen_key now masking) payload).buffer
      ≡ length (make now op payload masking last).buffer
length-made now op payload masking last ho =
    length-received last op masking (chosen_key now masking) payload
    ∙ ap (λ (w : WebSocket). length w.buffer)
        (sym (make-wire now op payload masking last (omega arith)))

-- Parsing a packet that `make` built, with any bytes behind it, returns a frame with the flags, the
-- opcode and the payload that went in, and whose size is the size of the packet.
pub parse-make :
    (now op : ℕ) (payload rest : List ℕ) (masking last : Bool)
    → op < 16
    → length payload + 14 < 2 ^ 64
    → let packet = (make now op payload masking last).buffer in
      (w : WebSocket) × (parse (packet ++ rest) ≡ returns w)
      × (w.fin ≡ bit last)
      × (w.opcode ≡ op)
      × (w.mask ≡ bit masking)
      × (payload_to_string w ≡ payload)
      × (length w.buffer ≡ length packet)
parse-make now op payload rest masking last ho hn = (
  received_frame last op masking (chosen_key now masking) payload,
  parse-made now op payload rest masking last ho hn,
  refl,
  refl,
  refl,
  payload_of_received last op masking (chosen_key now masking) payload,
  length-made now op payload masking last ho,
)
