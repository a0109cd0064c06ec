-- ===== src/Lib.antt =====
-- A verification library for io_reactor, a C++ framework of epoll reactors with TCP, SSL, HTTP/1.1
-- and WebSocket on top of them.
--
-- WebSocket models websocket/WebSocket.h, websocket/WebSocket.cpp and
-- websocket/WebSocketException.h: the record has the class's fields, `make` and `parse` are the two
-- static functions, cut into the stages that they run through. Where the behaviour of `parse` is
-- undefined, since it reads memory outside of the received bytes or forms a pointer past their end,
-- the outcome is `fault`; a compiled program may let such a pointer wrap around and go on. The clock
-- from which `make` takes its mask key is an argument, and the machine is little-endian.
-- WebSocket/Wire has the layout of RFC 6455, WebSocket/Reads the places where `parse` may stop.
--
-- Session models the input loop of https1_reactor/Https1Handler.cpp (`handle_input_ws`), which
-- http1_client/Http1Client.h repeats (`handle_recv_ws`). Its fuel is one round more than there are
-- bytes: a frame has two bytes at least. Session/Https models the rest of
-- https1_reactor/Https1Handler.cpp on top of Message and this loop: the requests that come in, both
-- `send`, and the ends of what was sent. The application is given by what it sends from within each
-- callback, the session below by its answer to a packet; what leaves the handler is written to a log.
-- Session/Http models http1_reactor/Http1Handler.h and http1_reactor/Http1Handler.cpp, which receive
-- into buffers of a fixed size by themselves; the answers of `recv` are arguments.
--
-- Tcp models tcp_reactor/TCPEventHandler.h and tcp_reactor/TCPEventHandler.cpp: the two send
-- buffers with their message records, and every operation and handler of the class. The session is
-- given by the calls that it makes from within its callbacks, the socket by what `::send` answers;
-- what leaves the handler is written to a log. An operation is one step: the lock of the prepared
-- buffer is not modelled.
--
-- Ssl models ssl_reactor/SSLEventHandler.h, ssl_reactor/SSLEventHandler.cpp and
-- ssl_reactor/SSLState.h, and Ssl/Socket models ssl_reactor/SSLSocket.h: the two send buffers, the
-- state that decides between reading and writing, and every handler. OpenSSL is given by its answers
-- to the calls of one event, a list behind whose end a read waits for bytes; the session by the
-- calls that it makes from within each callback.
--
-- Timer models reactor/ObjectsTimer.h: the map from times to buckets of objects, the map from objects
-- to times, and every operation on them. Times are nanoseconds; a deadline is too small for the 64
-- bits of the clock to matter, while the waiting time is cut to 32 bits as the code cuts it.
--
-- Demuxer models reactor/IoHandleDemuxer.h: the queue and the pipe of control events, the table of
-- epoll masks, and `wait`. What `epoll_ctl`, `epoll_wait` and `recv` answer are arguments, and the
-- calls of `epoll_ctl` are written to a log, from which Demuxer/Interest reads the kernel's side.
-- Demuxer/Listening is about the pipe, by which the events of other threads come.
--
-- Reactor models reactor/Reactor.h and reactor/Reactor.cpp on top of Demuxer and Timer: the
-- requests of handlers, which become events of the demuxer's queue, and the dispatch of the events
-- that come back. A handler is given by the requests that it makes from within each callback, so on
-- the reactor's own thread: they go to the queue, and the pipe of other threads is modelled in
-- Demuxer alone. Reactor/Run has `init`, the loop of `run`, whose rounds are given by what the
-- clocks and epoll tell, and the shutdown; a loop that has not ended in the rounds that are given
-- has no result.
--
-- Header models http1_protocol/HttpHeader.h: the list of names and values and its index. An iterator
-- of the list is the number of its element, and erasing an element that the list does not have is
-- the result `none`. A copy of a header is the header itself; in the code the iterators of a copied
-- index point into the list that was copied, so that erasing by the copy is undefined, which is not
-- modelled. Header/Print has the three `to_string`.
--
-- Message models http1_protocol/Http1Protocol.h and http1_protocol/HttpVersion.h: the parser of a
-- message over the parser of its first line. Message/Request, Message/Response and Message/Status
-- are http1_protocol/Http1Request.h (with HttpRequestData.h), http1_protocol/Http1Response.h and
-- http1_protocol/HttpStatus.h. `std::nullopt` is `incomplete` and an exception is `throws`; the loop
-- over the lines of a header has one round for each byte and one more, and a line has two bytes at
-- least. The key of an upgrade and the digest in its answer, which the copied base64 and SHA-1 code
-- computes, are arguments. Message/Upgrade follows a request for WebSocket from the client to the
-- server.
--
-- Text has what these take from the standard library for texts: lists of bytes, their order, `find`,
-- `tolower`, `std::to_string` and `strtoll`.
--
-- Bits and Prelude hold what the components share: laws of the bit operations, and lists and tests
-- over the native numbers.
--
-- Not modelled: the clients of HTTP (http1_client and https1_client), the sessions of TCP and SSL,
-- which forward to their handlers (tcp_reactor and ssl_reactor), the asynchronous client
-- (tcp_async_client) and the acceptors (reactor/acceptor); sockets, threads, epoll and OpenSSL
-- themselves, which are outside of the code; and the copied base64, SHA-1 and MD5 code.
mod Prelude
mod Bits
pub mod WebSocket
pub mod Session
pub mod Tcp
pub mod Ssl
pub mod Timer
pub mod Demuxer
pub mod Reactor
pub mod Text
pub mod Header
pub mod Message
