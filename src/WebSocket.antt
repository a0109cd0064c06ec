-- ===== src/WebSocket.antt =====
-- websocket/WebSocket.h, websocket/WebSocket.cpp and websocket/WebSocketException.h: the frame
-- object, `WebSocket::make` and `WebSocket::parse`. Bytes are numbers. The clock that
-- `make` takes its mask key from is the argument `now`. A read outside the received bytes, or a
-- pointer formed past their end, is the outcome `fault`.
pub mod Wire
pub mod RoundTrip
pub mod Payload
pub mod Reads
pub mod Safety
mod Tests
use Prim.Native.Nat.{bit_and, bit_or, bit_xor}
use io_reactor.Prelude.{
  ℕ, zero, suc, ◌+◌, ◌-◌, ◌*◌, ◌/◌, ◌%◌, ◌^◌, Bool, true, false, Option, none, some, List, [], ◌∷◌,
  ◌++◌, ltb, leb, ◌==◌, if◌then◌else◌, length, get_elem?, take, drop, replicate, set,
}

pub record WebSocket : Type 0 where
  pub fin : ℕ
  pub opcode : ℕ
  pub mask : ℕ
  pub mask_key : ℕ
  pub length : ℕ
  pub payload_pos : ℕ
  pub payload_size : ℕ
  pub made : Bool
  pub buffer : List ℕ

-- The constructor's initial values.
abbrev pub blank : WebSocket
blank = record {
  fin = 0;
  opcode = 1;
  mask = 0;
  mask_key = 0;
  length = 0;
  payload_pos = 0;
  payload_size = 0;
  made = false;
  buffer = [];
}

pub data WebSocketException : Type 0 where
  incomplete_header incomplete_payload wrong_opcode unknown : WebSocketException

pub data Outcome {ℓ} (A : Type ℓ) : Type ℓ where
  returns : A → Outcome A
  throws : WebSocketException → Outcome A
  fault : Outcome A

infixl 5 ◌>>=◌
abbrev pub ◌>>=◌ {ℓ κ} : {A : Type ℓ} {B : Type κ} → Outcome A → (A → Outcome B) → Outcome B
returns a >>= f = f a
throws e >>= f = throws e
fault >>= f = fault

abbrev pub opcode_text : ℕ
opcode_text = 0x1

abbrev pub opcode_binary : ℕ
opcode_binary = 0x2

abbrev pub opcode_close : ℕ
opcode_close = 0x8

abbrev pub opcode_ping : ℕ
opcode_ping = 0x9

abbrev pub opcode_pong : ℕ
opcode_pong = 0xA

-- The bytes of a uint32_t in memory, lowest first, and the uint32_t that four bytes stand for.
abbrev pub key_bytes : ℕ → List ℕ
key_bytes key = key % 256 ∷ (key / 256 % 256) ∷ (key / 65536 % 256) ∷ (key / 16777216 % 256) ∷ []

abbrev pub key_of_bytes : ℕ → ℕ → ℕ → ℕ → ℕ
key_of_bytes a b c d = a + b * 256 + c * 65536 + d * 16777216

abbrev or_zero : Option ℕ → ℕ
or_zero none = 0
or_zero (some b) = b

-- `((unsigned char *)(&mask_key_))[index % 4]`
unfoldable pub key_byte : ℕ → ℕ → ℕ
key_byte key index = or_zero (get_elem? (key_bytes key) (index % 4))

-- `memcpy(buffer + pos, bytes)`
unfoldable pub write : List ℕ → ℕ → List ℕ → List ℕ
write buffer pos [] = buffer
write buffer pos (b ∷ bs) = write (set buffer pos b) (pos + 1) bs

-- The loop that masks the payload into the packet; `index` counts up to `payload_size`.
unfoldable pub mask_loop : List ℕ → ℕ → ℕ → ℕ → List ℕ → List ℕ
mask_loop buffer key pos index [] = buffer
mask_loop buffer key pos index (b ∷ bs) =
    mask_loop (set buffer (pos + index) (bit_xor b (key_byte key index))) key pos (index + 1) bs

-- `for (index = 7; index >= 0; --index) buffer[pos++] = (payload_size >> 8 * index) & 0xFF`, with
-- the rounds that are left.
unfoldable pub length_loop : ℕ → List ℕ → ℕ → ℕ → List ℕ
length_loop zero buffer pos size = buffer
length_loop (suc index) buffer pos size =
    length_loop index (set buffer pos (bit_and (size / 2 ^ (8 * index)) 0xFF)) (pos + 1) size

unfoldable pub header_size : Bool → ℕ → ℕ
header_size masking size =
    (2 + (if masking then 4 else 0)) + (if leb size 125 then 0 else if leb size 65535 then 2 else 8)

unfoldable pub or_at : List ℕ → ℕ → ℕ → List ℕ
or_at buffer pos b = set buffer pos (bit_or (or_zero (get_elem? buffer pos)) b)

-- The packet is sized, the flags and the mask key are chosen.
unfoldable pub make_fields : ℕ → ℕ → List ℕ → Bool → Bool → WebSocket
make_fields now op payload masking last =
    let size = length payload in
    let pos = header_size masking size in
    record blank {
      made = true;
      payload_pos = pos;
      payload_size = size;
      buffer = replicate (pos + size) 0;
      fin = if last then 1 else 0;
      opcode = op;
      mask = if masking then 1 else 0;
      mask_key = if masking then now % 2 ^ 32 else 0;
    }

-- The writes to the first two bytes.
unfoldable pub make_flags : WebSocket → WebSocket
make_flags w =
    let b0 = or_at (or_at (set w.buffer 0 0) 0 (w.fin * 2 ^ 7)) 0 w.opcode in
    record w { buffer = or_at (set b0 1 0) 1 (w.mask * 2 ^ 7) }

unfoldable pub make_length : WebSocket → WebSocket
make_length w =
    let size = w.payload_size in
    if leb size 125
    then record w { length = size; buffer = or_at w.buffer 1 size }
    else if leb size 65535
    then record w {
      length = 126;
      buffer =
          set (set (or_at w.buffer 1 126) 2 (bit_and (size / 2 ^ 8) 0xFF)) 3 (bit_and size 0xFF);
    }
    else record w { length = 127; buffer = length_loop 8 (or_at w.buffer 1 127) 2 size }

unfoldable pub make_payload : WebSocket → List ℕ → WebSocket
make_payload w payload =
    if w.mask == 1
    then record w {
      buffer =
          mask_loop (write w.buffer (w.payload_pos - 4) (key_bytes w.mask_key)) w.mask_key
            w.payload_pos 0 payload;
    }
    else record w { buffer = write w.buffer w.payload_pos payload }

-- `WebSocket::make(op_code, payload, payload_size, masking, last)`
unfoldable pub make : ℕ → ℕ → List ℕ → Bool → Bool → WebSocket
make now op payload masking last =
    make_payload (make_length (make_flags (make_fields now op payload masking last))) payload

unfoldable pub make_text : ℕ → List ℕ → Bool → Bool → WebSocket
make_text now payload masking last = make now opcode_text payload masking last

unfoldable pub make_binary : ℕ → List ℕ → Bool → Bool → WebSocket
make_binary now payload masking last = make now opcode_binary payload masking last

unfoldable pub make_ping : ℕ → Bool → WebSocket
make_ping now masking = make now opcode_ping [] masking true

unfoldable pub make_pong : ℕ → Bool → WebSocket
make_pong now masking = make now opcode_pong [] masking true

unfoldable pub make_close : ℕ → List ℕ → Bool → WebSocket
make_close now payload masking = make now opcode_close payload masking true

-- `buffer[index]`
abbrev pub read : List ℕ → ℕ → Outcome ℕ
read buffer index = elim (get_elem? buffer index) [ none ↦ fault | some b ↦ returns b ]

-- `payload_pos_` and `payload_size_` once the length fields are read. The test in the second
-- branch is the source's, on `payload_pos_` itself.
unfoldable pub parse_length : List ℕ → ℕ → Outcome (ℕ × ℕ)
parse_length buffer len =
    if leb len 125
    then returns (2, len)
    else if len == 126
    then (if ltb (2 + 2) 4
        then throws incomplete_header
        else do b2 ← read buffer 2; b3 ← read buffer 3; returns (2 + 2, bit_or (b2 * 2 ^ 8) b3))
    else if len == 127
    then (if ltb (length buffer) (2 + 8) then throws incomplete_header else do
      b2 ← read buffer 2
      b3 ← read buffer 3
      b4 ← read buffer 4
      b5 ← read buffer 5
      b6 ← read buffer 6
      b7 ← read buffer 7
      b8 ← read buffer 8
      b9 ← read buffer 9
      let s1 = bit_or (bit_or (b2 * 2 ^ 56) (b3 * 2 ^ 48)) (b4 * 2 ^ 40)
      let s2 = bit_or (bit_or (bit_or s1 (b5 * 2 ^ 32)) (b6 * 2 ^ 24)) (b7 * 2 ^ 16)
      returns (2 + 8, bit_or (bit_or s2 (b8 * 2 ^ 8)) b9))
    else returns (2, 0)

-- `payload_pos_` and `mask_key_` once the mask key is read.
unfoldable pub parse_mask : List ℕ → ℕ → ℕ → Outcome (ℕ × ℕ)
parse_mask buffer mask pos =
    if mask == 1
    then (if ltb (length buffer) (pos + 4) then throws incomplete_header else do
      a ← read buffer (pos + 4 - 4)
      b ← read buffer (pos + 4 - 3)
      c ← read buffer (pos + 4 - 2)
      d ← read buffer (pos + 4 - 1)
      returns (pos + 4, key_of_bytes a b c d))
    else returns (pos, 0)

-- The bytes from `buffer` up to `buffer + n`. A pointer past the end of the bytes is undefined; on a
-- machine of 64 bits it can wrap around and point before their end, which is not modelled.
unfoldable pub first_bytes : List ℕ → ℕ → Outcome (List ℕ)
first_bytes buffer n = if leb n (length buffer) then returns (take n buffer) else fault

-- The loop that unmasks the payload; the first argument counts the rounds left.
unfoldable pub unmask_loop : ℕ → List ℕ → ℕ → ℕ → ℕ → Outcome (List ℕ)
unmask_loop zero buffer key pos index = returns []
unmask_loop (suc n) buffer key pos index = do
  b ← read buffer (pos + index)
  rest ← unmask_loop n buffer key pos (index + 1)
  returns (bit_xor b (key_byte key index) ∷ rest)

-- The payload, copied or unmasked into the frame's own buffer. The sum in the first test is that of
-- two uint64_t.
unfoldable pub parse_payload : List ℕ → WebSocket → Outcome WebSocket
parse_payload buffer w =
    if ltb (length buffer) ((w.payload_pos + w.payload_size) % 2 ^ 64)
    then throws incomplete_payload
    else if w.mask == 0
    then (do
      whole ← first_bytes buffer (w.payload_pos + w.payload_size)
      returns (record w { buffer = whole }))
    else do
      header ← first_bytes buffer w.payload_pos
      payload ← unmask_loop w.payload_size buffer w.mask_key w.payload_pos 0
      returns (record w { buffer = header ++ payload })

-- The frame before its payload is read.
unfoldable pub parse_fields : ℕ → ℕ → ℕ → ℕ → ℕ → WebSocket
parse_fields b0 b1 size pos key = record blank {
  fin = bit_and (b0 / 2 ^ 7) 0x01;
  opcode = bit_and b0 0x0F;
  mask = bit_and (b1 / 2 ^ 7) 0x01;
  mask_key = key;
  length = bit_and b1 (2 ^ 32 - 1 - 0x80);
  payload_pos = pos;
  payload_size = size;
}

-- `WebSocket::parse(buffer, size)`, with `size` the length of the list.
unfoldable pub parse : List ℕ → Outcome WebSocket
parse buffer = if ltb (length buffer) 2 then throws incomplete_header else do
  b0 ← read buffer 0
  b1 ← read buffer 1
  (start, size) ← parse_length buffer (bit_and b1 (2 ^ 32 - 1 - 0x80))
  (pos, key) ← parse_mask buffer (bit_and (b1 / 2 ^ 7) 0x01) start
  parse_payload buffer (parse_fields b0 b1 size pos key)

unfoldable pub unmask_string : List ℕ → ℕ → ℕ → List ℕ
unmask_string [] key index = []
unmask_string (b ∷ bs) key index = bit_xor b (key_byte key index) ∷ unmask_string bs key (index + 1)

-- `payload_to_string`: only a made frame still holds a masked payload.
unfoldable pub payload_to_string : WebSocket → List ℕ
payload_to_string w =
    let payload = take w.payload_size (drop w.payload_pos w.buffer) in
    if w.mask == 1
    then (if w.made then unmask_string payload w.mask_key 0 else payload)
    else payload
