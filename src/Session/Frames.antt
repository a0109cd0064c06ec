-- ===== src/Session/Frames.antt =====
-- The loop over received frames ends, and returns the frames that were sent, in order.
use io_reactor.Prelude.{ℕ, ◌+◌, ◌^◌, ◌<◌, Bool, List, [], ◌∷◌, ◌++◌, map, ◌≡◌, length, drop, ◌⊎◌}
use io_reactor.WebSocket.{
  WebSocket, returns, throws, fault, incomplete_header, incomplete_payload, make, parse,
  payload_to_string,
}
use io_reactor.WebSocket.RoundTrip.{received_frame}
use io_reactor.WebSocket.Payload.{chosen_key}
use io_reactor.Session.{Drained, waiting, failed, faulted, stuck}

-- The bytes are no whole frame yet.
abbrev pub NeedsMore : List ℕ → Type 0
NeedsMore buffer =
    (parse buffer ≡ throws incomplete_header) ⊎ (parse buffer ≡ throws incomplete_payload)

-- The frames that stand one behind the other at the start of the bytes, and the bytes behind them.
abbrev pub Frames : List ℕ → List WebSocket → List ℕ → Type 0
Frames buffer [] rest = rest ≡ buffer
Frames buffer (w ∷ ws) rest =
    (parse buffer ≡ returns w) × Frames (drop (length w.buffer) buffer) ws rest

-- The loop was at these bytes with some frames read, and has ended: it has added the frames that stand
-- there and kept the bytes behind them, which are no whole frame yet, or `parse` faults on those.
abbrev EndedFrom : List ℕ → List WebSocket → Drained → Type 0
EndedFrom buffer read (waiting requests rest) =
    (ws : List WebSocket) × (requests ≡ read ++ ws) × Frames buffer ws rest × NeedsMore rest
EndedFrom buffer read (failed requests e) = ⊥
EndedFrom buffer read faulted =
    (ws : List WebSocket) × (rest : List ℕ) × Frames buffer ws rest × (parse rest ≡ fault)
EndedFrom buffer read stuck = ⊥

-- The same for the whole loop.
abbrev pub Ended : List ℕ → Drained → Type 0
Ended buffer (waiting requests rest) = Frames buffer requests rest × NeedsMore rest
Ended buffer (failed requests e) = ⊥
Ended buffer faulted =
    (ws : List WebSocket) × (rest : List ℕ) × Frames buffer ws rest × (parse rest ≡ fault)
Ended buffer stuck = ⊥

-- A frame as its sender makes it.
pub record Sent : Type 0 where
  pub now : ℕ
  pub opcode : ℕ
  pub payload : List ℕ
  pub masking : Bool
  pub last : Bool

pub record IsSendable (s : Sent) : Type 0 where
  pub opcode_fits : s.opcode < 16
  pub payload_fits : length s.payload + 14 < 2 ^ 64

abbrev pub packet : Sent → List ℕ
packet s = (make s.now s.opcode s.payload s.masking s.last).buffer

abbrev pub packets : List Sent → List ℕ
packets [] = []
packets (s ∷ ss) = packet s ++ packets ss

abbrev pub received : Sent → WebSocket
received s = received_frame s.last s.opcode s.masking (chosen_key s.now s.masking) s.payload

-- The payloads of frames, as `handle_request` reads them.
abbrev pub payloads : List WebSocket → List (List ℕ)
payloads = map payload_to_string
