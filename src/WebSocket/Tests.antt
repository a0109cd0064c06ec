-- ===== src/WebSocket/Tests.antt =====
-- Runs of the frame code, and the properties of frames at concrete inputs.
use io_reactor.Prelude.{
  ℕ, ◌-◌, ◌^◌, List, [], ◌∷◌, ◌++◌, ◌≡◌, refl, true, false, arith, replicate, length,
}
use io_reactor.WebSocket.{
  WebSocket, make, make_text, parse, payload_to_string, returns, throws, fault, incomplete_payload,
  ◌>>=◌, make_fields, make_flags, make_length, make_payload, header_size, or_at, key_byte, write,
  mask_loop, parse_length, parse_mask, parse_fields, parse_payload, first_bytes, unmask_loop,
}
use io_reactor.WebSocket.Wire.{extended, made_frame, make-wire}
use io_reactor.WebSocket.Payload.{payload_to_string-make, parse-make}
use io_reactor.WebSocket.Reads.{Gives}
use io_reactor.WebSocket.Safety.{Framed, parse-Framed, short_extended_faults, wrapped_length_faults}

-- "Hello", masked with the key of RFC 6455, section 5.7.
abbrev hello : List ℕ
hello = 0x48 ∷ 0x65 ∷ 0x6c ∷ 0x6c ∷ 0x6f ∷ []

abbrev rfc_key : ℕ
rfc_key = 0x3d21fa37

rfc_packet :
    (make_text rfc_key hello true true).buffer
    ≡ 0x81 ∷ 0x85 ∷ 0x37 ∷ 0xfa ∷ 0x21 ∷ 0x3d ∷ 0x7f ∷ 0x9f ∷ 0x4d ∷ 0x51 ∷ 0x58 ∷ []
unfolding make_text make make_fields make_flags make_length make_payload header_size or_at key_byte
    write mask_loop
rfc_packet = refl

rfc_read_back :
    (do
      w ← parse ((make_text rfc_key hello true true).buffer ++ 0x89 ∷ [])
      returns (payload_to_string w))
    ≡ returns hello
unfolding make_text make make_fields make_flags make_length make_payload header_size or_at key_byte
    write mask_loop parse parse_length parse_mask parse_fields parse_payload first_bytes unmask_loop
    payload_to_string
rfc_read_back = refl

short_payload : parse (0x81 ∷ 0x05 ∷ 0x48 ∷ []) ≡ throws incomplete_payload
unfolding parse parse_length parse_mask parse_fields parse_payload
short_payload = refl

make-wire_example : make 7 1 hello true true ≡ made_frame 7 1 hello true true
make-wire_example = make-wire 7 1 hello true true (omega arith)

payload_to_string-make_example :
    payload_to_string (make rfc_key 2 (replicate 200 9) true false) ≡ replicate 200 9
payload_to_string-make_example =
    payload_to_string-make rfc_key 2 (replicate 200 9) true false (omega arith)

parse-make_example :
    (w : WebSocket) × (parse ((make rfc_key 1 hello true true).buffer ++ 1 ∷ []) ≡ returns w)
    × (w.fin ≡ 1)
    × (w.opcode ≡ 1)
    × (w.mask ≡ 1)
    × (payload_to_string w ≡ hello)
    × (length w.buffer ≡ length (make rfc_key 1 hello true true).buffer)
parse-make_example = parse-make rfc_key 1 hello (1 ∷ []) true true (omega arith) (omega arith)

parse-Framed_example :
    Gives
      (0x81 ∷ 0x01 ∷ 0x48 ∷ [])
      (Framed (0x81 ∷ 0x01 ∷ 0x48 ∷ []))
      (parse (0x81 ∷ 0x01 ∷ 0x48 ∷ []))
parse-Framed_example = parse-Framed (0x81 ∷ 0x01 ∷ 0x48 ∷ [])

short_extended_faults_example :
    (parse (0x82 ∷ 0x7e ∷ []) ≡ fault) × (parse (0x82 ∷ 0x7e ∷ 0x00 ∷ []) ≡ fault)
short_extended_faults_example = short_extended_faults 0x82 0x7e 0x00 (omega arith) refl

wrapped_length_faults_example :
    (parse (0x82 ∷ 127 ∷ extended (2 ^ 64 - 1) ++ 0 ∷ []) ≡ fault)
    × (parse (0x82 ∷ 255 ∷ extended (2 ^ 64 - 1) ++ (1 ∷ 2 ∷ 3 ∷ 4 ∷ 0 ∷ [])) ≡ fault)
wrapped_length_faults_example =
    wrapped_length_faults 0x82 (2 ^ 64 - 1) 1 2 3 4 (0 ∷ []) (omega arith) (omega arith)
      (omega arith)
