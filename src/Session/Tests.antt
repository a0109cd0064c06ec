-- ===== src/Session/Tests.antt =====
-- The properties of the frame loop at concrete inputs.
use io_reactor.Prelude.{List, [], ◌∷◌, true, false}
use io_reactor.WebSocket.{WebSocket}
use io_reactor.Session.Frames.{Sent}

abbrev two_frames : List Sent
two_frames =
    record { now = 5; opcode = 1; payload = 104 ∷ 105 ∷ []; masking = true; last = true }
    ∷ record { now = 0; opcode = 9; payload = []; masking = false; last = true }
    ∷ []
