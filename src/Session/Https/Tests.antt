-- ===== src/Session/Https/Tests.antt =====
-- Runs of the handler of a session on small inputs.
use io_reactor.Prelude.{
  true, some, [], ◌∷◌, ◌++◌, ◌≡◌, refl, ap, ◌∙◌, arith, take, drop, append-nil, take-append-drop,
}
use io_reactor.Text.{Bytes, codes, to_string}
use io_reactor.Header.{empty, append, count, find_name}
use io_reactor.Header.Index.{empty-IsIndexed}
use io_reactor.Message.{version_to_string, content_length, print_message}
use io_reactor.Message.Request.{Http1Request, get_request, print_request}
use io_reactor.Message.Request.RoundTrip.{IsSound}
use io_reactor.Message.Request.Packet.{read_back}
use io_reactor.Message.Response.{Http1Response, response}
use io_reactor.Session.Https.{
  Https1Handler, Surroundings, created, run, application_sends, was_sent, sends_response, on_event,
  send, handle_sent,
}
use io_reactor.Session.Https.Logs.{IsPhased}
use io_reactor.Session.Https.Phases.{run-IsPhased}
use io_reactor.Session.Https.Pieces.{all_come_in, answered, run-request_in_pieces}

abbrev quiet : Surroundings
quiet = record { sends = λ a. []; accepts = λ id bytes. true }

abbrev answer : Http1Response
answer = response 1 404 empty (codes "body")

abbrev ended : Https1Handler
ended = handle_sent quiet 1 (send quiet (sends_response answer) created)

run-IsPhased_example : IsPhased ended
run-IsPhased_example =
    run-IsPhased quiet (application_sends (sends_response answer) ∷ was_sent 1 ∷ []) ended
      (unfold run on_event in refl)

abbrev request : Http1Request
request = get_request 1 (codes "/a") (codes "x=1") empty (codes "body") true

abbrev text : Bytes
text = print_request request (append content_length (to_string 4) empty)

request-IsSound : IsSound request
unfolding get_request version_to_string
request-IsSound = record {
  method_parts = (omega arith, omega arith);
  path_parts = (omega arith, (omega arith, omega arith));
  arg_parts = (omega arith, omega arith);
  version_11 = refl;
  short = omega arith;
}

run-request_in_pieces_example :
    run quiet (all_come_in (take 5 text ∷ drop 5 text ∷ [])) created
    ≡ some (answered quiet (read_back request (append content_length (to_string 4) empty)) created)
unfolding get_request version_to_string print_message count find_name
run-request_in_pieces_example =
    run-request_in_pieces quiet request (take 5 text) (drop 5 text ∷ []) created request-IsSound
      empty-IsIndexed refl tt (omega arith) refl refl (refl, (refl, tt))
      (ap (λ t. take 5 text ++ t) (append-nil (drop 5 text)) ∙ take-append-drop 5 text)
