-- ===== src/Message/Tests.antt =====
-- Runs of the messages on small inputs.
use io_reactor.Prelude.{true, some, [], ◌++◌, ◌≡◌, refl, arith, All}
use io_reactor.Text.{codes, same, to_lower, tolower, to_string}
use io_reactor.Header.{
  HttpHeader, empty, add, append, count, contains_value, find_name, find_value, iterator_of,
  put_name, put_value,
}
use io_reactor.Header.Index.{IsIndexed, empty-IsIndexed}
use io_reactor.Header.Updates.{add-IsIndexed}
use io_reactor.Message.{version_to_string, content_length, parsed, print_message}
use io_reactor.Message.Lines.{IsPrintable}
use io_reactor.Message.Ending.{IsEnded, parsers-IsEnded}
use io_reactor.Message.Request
use io_reactor.Message.Request.{
  Http1Request, get_request, parse_request, print_request, of_parts, upgrade_websocket,
  is_upgrade_websocket, get_sec_websocket_key,
}
use io_reactor.Message.Request.RoundTrip.{IsSound}
use io_reactor.Message.Request.Packet
use io_reactor.Message.Request.Packet.{parse_request-packet}
use io_reactor.Message.Request.Bare.{length_line, parse_request-packet_const}
use io_reactor.Message.Response
use io_reactor.Message.Response.{
  Http1Response, response, parse_response, status_line, websocket_permission, is_websocket_upgrade,
  sec_accept_key,
}
use io_reactor.Message.Response.RoundTrip
use io_reactor.Message.Response.RoundTrip.{parse_response-packet}
use io_reactor.Message.Handshake.{asked}
use io_reactor.Message.Upgrade.{IsPlain, upgrade_websocket-received}

abbrev hosted : HttpHeader
hosted = (add (codes "Host") (codes "h") empty).0

hosted-IsIndexed : IsIndexed hosted
hosted-IsIndexed = (add-IsIndexed (codes "Host") (codes "h") empty empty-IsIndexed).0

hosted-length : count content_length hosted ≡ 0
unfolding count add append contains_value iterator_of find_name find_value put_name put_value same
    to_lower tolower
hosted-length = refl

hosted-IsPrintable : All IsPrintable hosted.container
unfolding add append contains_value iterator_of find_name find_value
hosted-IsPrintable = ((refl, (refl, (omega arith, (omega arith, omega arith)))), tt)

abbrev request : Http1Request
request = get_request 1 (codes "/a") (codes "x=1") hosted (codes "body") true

abbrev bare : Http1Request
bare = get_request 1 (codes "/a") (codes "x=1") empty (codes "body") true

request-IsSound : IsSound request
unfolding get_request version_to_string
request-IsSound = record {
  method_parts = (omega arith, omega arith);
  path_parts = (omega arith, (omega arith, omega arith));
  arg_parts = (omega arith, omega arith);
  version_11 = refl;
  short = omega arith;
}

bare-IsSound : IsSound bare
unfolding get_request version_to_string
bare-IsSound = record {
  method_parts = (omega arith, omega arith);
  path_parts = (omega arith, (omega arith, omega arith));
  arg_parts = (omega arith, omega arith);
  version_11 = refl;
  short = omega arith;
}

parse_request-packet_example :
    let h : HttpHeader = append content_length (to_string 4) hosted in
    (Request.packet true request ≡ some (print_request request h, record request { header = h }))
    × (parse_request (print_request request h ++ codes "more")
        ≡ parsed (Request.Packet.read_back request h))
unfolding get_request
parse_request-packet_example =
    parse_request-packet request (codes "more") request-IsSound hosted-IsIndexed hosted-length
      hosted-IsPrintable (omega arith)

abbrev answer : Http1Response
answer = response 1 404 hosted (codes "body")

parse_response-packet_example :
    let h : HttpHeader = append content_length (to_string 4) hosted in
    (Response.packet true answer
      ≡ some (print_message (status_line answer) h (codes "body"), record answer { header = h }))
    × (parse_response (print_message (status_line answer) h (codes "body") ++ codes "more")
        ≡ parsed (Response.RoundTrip.read_back answer h))
unfolding response
parse_response-packet_example =
    parse_response-packet answer (codes "more") refl (omega arith) hosted-IsIndexed hosted-length
      hosted-IsPrintable (omega arith)

parse_request-packet_const_example :
    parse_request (Request.packet_const bare)
    ≡ parsed (
        of_parts (
          record { method = codes "GET"; path = codes "/a"; path_arg = codes "x=1" },
          record {
            header = empty;
            body = length_line (codes "body") ++ codes "body";
            raw_message = Request.packet_const bare;
          },
        ))
unfolding get_request
parse_request-packet_const_example = parse_request-packet_const bare bare-IsSound refl refl

parsers-IsEnded_example :
    IsEnded (parse_request (codes "GET /")) × IsEnded (parse_response (codes "GET /"))
parsers-IsEnded_example = parsers-IsEnded (codes "GET /")

hosted-IsPlain : IsPlain hosted
unfolding add append contains_value iterator_of find_name find_value put_name put_value same
    to_lower tolower
hosted-IsPlain = record {
  indexed = hosted-IsIndexed;
  printable = hosted-IsPrintable;
  no_connection = refl;
  no_upgrade = refl;
  no_version = refl;
  no_key = refl;
  no_length = refl;
}

abbrev asking : Http1Request
asking = get_request 7 (codes "/ws") [] (asked (codes "a2V5") hosted) [] true

asking-IsSound : IsSound asking
unfolding get_request version_to_string
asking-IsSound = record {
  method_parts = (omega arith, omega arith);
  path_parts = (omega arith, (omega arith, omega arith));
  arg_parts = (tt, tt);
  version_11 = refl;
  short = omega arith;
}

upgrade_websocket-received_example :
    let q : Http1Request =
      Request.Packet.read_back asking
        (append content_length (to_string 0) (asked (codes "a2V5") hosted)) in
    (upgrade_websocket 7 (codes "/ws") [] hosted (codes "a2V5") ≡ some asking)
    × (parse_request (Request.packet_const asking ++ codes "more") ≡ parsed q)
    × (is_upgrade_websocket q ≡ true)
    × (get_sec_websocket_key q ≡ codes "a2V5")
upgrade_websocket-received_example =
    upgrade_websocket-received 7 (codes "/ws") [] (codes "a2V5") (codes "more") hosted
      hosted-IsPlain refl (omega arith) asking-IsSound
