-- ===== src/Session/Http/Tests.antt =====
-- A run of the handler without SSL on a small request.
use io_reactor.Prelude.{ℕ, true, none, some, List, [], ◌∷◌, ◌++◌, ◌≡◌, refl, arith, length}
use io_reactor.Text.{codes, to_string, digits}
use io_reactor.Header
use io_reactor.Header.{empty, append, count, find_name, size_of, put_name, put_value}
use io_reactor.Header.Print.{print_loop, add_line}
use io_reactor.Header.Index.{empty-IsIndexed}
use io_reactor.Message.{version_to_string, content_length, print_message}
use io_reactor.Message.Request.{Http1Request, get_request, print_request}
use io_reactor.Message.Request.RoundTrip.{IsSound}
use io_reactor.Message.Request.Packet.{read_back}
use io_reactor.Session.Https.{Surroundings}
use io_reactor.Session.Http.{constructed, received, handle_input}
use io_reactor.Session.Http.Twice.{served, handle_input-twice}

abbrev quiet : Surroundings
quiet = record { sends = λ a. []; accepts = λ id bytes. true }

abbrev request : Http1Request
request = get_request 1 (codes "/") [] empty [] true

request-IsSound : IsSound request
unfolding get_request version_to_string
request-IsSound = record {
  method_parts = (omega arith, omega arith);
  path_parts = (omega arith, (omega arith, omega arith));
  arg_parts = (omega arith, omega arith);
  version_11 = refl;
  short = omega arith;
}

abbrev behind : List ℕ
behind =
    codes "ET / HTTP/1.1" ++ (13 ∷ 10 ∷ (codes "content-length: 0" ++ (13 ∷ 10 ∷ 13 ∷ 10 ∷ [])))

text_run : b'G' ∷ behind ≡ print_request request (append content_length (to_string 0) empty)
unfolding get_request version_to_string print_message append Header.Print.to_string print_loop
    add_line size_of to_string digits find_name put_name put_value
text_run = refl

handle_input-twice_example :
    (handle_input quiet (received (b'G' ∷ behind)) (constructed 10240 655350)
      ≡ some (
          served quiet 10240 655350
            (length (b'G' ∷ behind))
            (read_back request (append content_length (to_string 0) empty))))
    × (handle_input quiet (received (b'G' ∷ [])) (
          served quiet 10240 655350
            (length (b'G' ∷ behind))
            (read_back request (append content_length (to_string 0) empty)))
        ≡ none)
unfolding get_request count find_name
handle_input-twice_example =
    handle_input-twice quiet 10240 655350 b'G' b'G' behind [] request request-IsSound
      empty-IsIndexed refl tt (omega arith) (omega arith) text_run
