-- ===== src/Session/Https/Logs.antt =====
-- What is in order in the log of a handler of a session, and the steps that keep it so.
use io_reactor.Prelude.{
  Bool, true, false, not, ◌&&◌, ◌||◌, Option, none, some, List, [], ◌∷◌, if◌then◌else◌, ◌≡◌, refl,
  sym, ap, ◌∙◌, arith,
}
use io_reactor.Message.Response.{is_websocket_upgrade}
use io_reactor.Session.Https.{
  Action, handles_request, handles_frames, handles_sent_response, handles_unsent_response,
  passes_response, passes_frame, Https1Handler, created, note,
}

-- A request goes up, or a response goes down.
abbrev pub is_http : Action → Bool
is_http (handles_request r) = true
is_http (passes_response id bytes) = true
is_http _ = false

-- A frame goes up or down.
abbrev pub is_frame : Action → Bool
is_frame (handles_frames ws) = true
is_frame (passes_frame id bytes) = true
is_frame _ = false

-- The application is told the end of the answer to an upgrade.
abbrev pub is_upgrade : Action → Bool
is_upgrade (handles_sent_response r) = is_websocket_upgrade r
is_upgrade (handles_unsent_response r) = is_websocket_upgrade r
is_upgrade _ = false

abbrev pub any : (Action → Bool) → List Action → Bool
any p [] = false
any p (a ∷ log) = p a || any p log

-- In a log, newest first: no request or response is later than a frame, and an upgrade is earlier
-- than any frame.
abbrev pub phased : List Action → Bool
phased [] = true
phased (a ∷ log) =
    (not (is_http a) || not (any is_frame log))
    && ((not (is_frame a) || any is_upgrade log) && phased log)

pub record IsPhased (h : Https1Handler) : Type 0 where
  pub in_order : phased h.log ≡ true
  pub no_frame : h.websocket ≡ false → any is_frame h.log ≡ false
  pub upgraded : h.websocket ≡ true → any is_upgrade h.log ≡ true

pub created-IsPhased : IsPhased created
created-IsPhased = record {
  in_order = refl;
  no_frame = λ e. refl;
  upgraded = λ e. absurd (ground (arith, e));
}

-- An action that fits the phase.
pub note-IsPhased :
    (a : Action) (h : Https1Handler)
    → (is_http a ≡ true → h.websocket ≡ false)
    → (is_frame a ≡ true → h.websocket ≡ true)
    → IsPhased h
    → IsPhased (note a h)
note-IsPhased a h f g k = record {
  in_order = ground (arith, f, g, k.in_order, k.no_frame, k.upgraded);
  no_frame = λ e. ground (arith, e, g, k.no_frame);
  upgraded = λ e. ground (arith, e, k.upgraded);
}

-- The fields that phases depend on.
pub like-IsPhased :
    (h g : Https1Handler) → g.log ≡ h.log → g.websocket ≡ h.websocket → IsPhased h → IsPhased g
like-IsPhased h g e f k = record {
  in_order = ap phased e ∙ k.in_order;
  no_frame = λ w. ap (any is_frame) e ∙ k.no_frame (sym f ∙ w);
  upgraded = λ w. ap (any is_upgrade) e ∙ k.upgraded (sym f ∙ w);
}

pub other : {A : Type 0} → false ≡ true → A
other e = absurd (ground (arith, e))

pub some_inj : (h g : Https1Handler) → some h ≡ some g → h ≡ g
some_inj h g e = ap the e
  where
    the : Option Https1Handler → Https1Handler
    the none = h
    the (some x) = x

-- The two cases of a function that returns the handler and an answer.
pub pair-IsPhased {ℓ} :
    {A : Type ℓ} (b : Bool) (p q : Https1Handler × A)
    → (b ≡ true → IsPhased p.0)
    → (b ≡ false → IsPhased q.0)
    → let r : Https1Handler × A = if b then p else q in IsPhased r.0
pair-IsPhased true p q f g = f refl
pair-IsPhased false p q f g = g refl
