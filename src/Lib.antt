-- ===== src/Lib.antt =====
-- rpress is a server library for HTTP/1.1 and HTTP/2 with a Socket.IO server beside it, and a
-- client for that. This library models its core: the functions of engine/src that turn bytes into
-- requests, requests into responses and responses into bytes, and of rpress-client/src, each
-- translated clause by clause, with the theorems that make it right.
--
-- How the parts stand together. The server (`run_server` of engine/src/lib.rs, Server/Listener)
-- takes permits for the sockets that come in, asks the rate limiter about their addresses, and runs
-- a task for each connection; what happens to it is a list of happenings in any order. The ways to
-- launch it and the configuration of TLS (engine/src/core/tls.rs) are in Server/Listener/Launch. A
-- connection (`handle_h1_connection` of engine/src/lib.rs, Server/Connection) collects bytes in a
-- buffer, and streams a long body to its handler; in a loop over the buffer (Server/Requests) the
-- request parser (engine/src/core/request.rs, Request) takes a head and its body, or a frame of
-- chunks, off it. A connection of HTTP/2 has streams (engine/src/core/h2_handler.rs, Server/H2),
-- each with one request and one answer. The server's state and setters are in Server/App, those of
-- a group of routes in Server/Group, the answers in Server/Send. `resolve_route`
-- (engine/src/lib.rs, Server/Dispatch) answers preflight requests, looks up the path and the method
-- in the routing trie (engine/src/core/routes.rs, Routes), which `initialize_routes` filled, and
-- runs the handler with the middleware around it, or gives a static file away (Server/Static). The
-- payload (engine/src/core/handler_response.rs, Payload) gets the headers of the CORS and security
-- configurations (engine/src/core/cors.rs and security.rs, Cors, Security and Server/Headers), and
-- the response writer (engine/src/core/response.rs, Response) compresses and prints it. The rate
-- limiter (engine/src/core/rate_limiter.rs, RateLimiter) counts the requests of an address. The
-- tables of engine/src/types/definitions.rs are in Types.
--
-- The Socket.IO server is in SocketIo, and its code in engine/src/core/socketio. A request on its
-- path is answered by `handle_sio_request` (handler.rs, SocketIo/Server/Http) by its query
-- (transport.rs, SocketIo/Query); sessions (engine_io.rs, SocketIo/Sessions) buffer what their
-- clients poll, and the loop of a session and the reader of a WebSocket are steps in
-- SocketIo/Server/Loops. Engine.IO packets (engine_io.rs, SocketIo/EngineIo) carry Socket.IO
-- packets (socket_io.rs, SocketIo/Packet), on which SocketIo/Server/Handle lets clients in, runs
-- the handlers of events, and disconnects. The state of all this is `Io` (mod.rs and socket.rs,
-- SocketIo/Server), sockets join rooms (room.rs, SocketIo/Rooms), and what sockets send is in
-- SocketIo/Server/Emit. The adapter that passes broadcasts on to other nodes (redis_adapter.rs) is
-- SocketIo/Redis, the trait of both adapters (adapter.rs) SocketIo/Adapter; the server is modelled
-- with the adapter in memory, and over Redis in SocketIo/Cluster. An application sets it up by the
-- functions of SocketIo/Server/Setup. A client (rpress-client/src/client.rs) is SocketIo/Client, and the
-- WebSocket under it (rpress-client/src/transport.rs) SocketIo/Client/Transport; its packets
-- (rpress-client/src/socket_io.rs and engine_io.rs) are the same code as the server's.
--
-- How the code is written down. Functions keep their names; a helper stands for a part of a
-- function's body and is mapped to its lines. Texts and byte strings are lists of bytes (Common),
-- with the operations of the standard library that the code uses. A `HashMap` is an association
-- list whose order means nothing. A function that changes its object gives the new one back. A
-- `Result<Option<A>, E>` of the parser is an `Outcome`, in which a slice that panics has a value of
-- its own; elsewhere a panic is `none` or `false`, as the file says. Counters that may wrap do so
-- at their width, and `checked_add` fails at the limit of 64 bits.
--
-- Parameters. The compressors, the clock, the file system, `str::to_lowercase`, the matches of the
-- two regular expressions, serde, and the application's handlers and middleware are arguments of
-- the definitions that call them; handlers act on a world of any type, and a socket's channel is of
-- any type. JSON is an interface (SocketIo/Json). The handlers of the Socket.IO server act on its
-- own state, which names them, so that what a name does is a function beside it (`World`); a
-- theorem that needs something of a handler says so (`IsQuiet`). Fresh identifiers are a function
-- of how many have been drawn, and the time is a number in the state.
--
-- Steps. The connection, the session loop and the WebSocket reader each do one step for each thing
-- that the network or the clock gives them; a step runs to its end, with the handlers it calls.
-- The program can interleave the steps of several connections at each wait; that is modelled as an
-- order of whole steps, any order in Server/Listener. The streams of a connection of HTTP/2 are
-- taken one after the other. After a timeout or an error of the network the wait of a client ends
-- with the packets that have come. The handler of a streamed request ends when its body has been
-- read to the end, or before that at an event of its own. A channel takes what is sent, without
-- its bound of 64 packets.
--
-- Fuel. The loop over the buffer of a connection runs on the number of its bytes and one; where
-- the source loops without end the result is the end `exhausted`, which is a state of its own. The
-- loop over chunks runs on the number of the buffer's bytes and one: every round but the last
-- takes more than one byte, and running out, which does not happen, would be the value of a panic.
-- Splitting a text and trimming it run on its length likewise. Printing a number runs on the
-- number's successor.
--
-- Not modelled: what rustls does with certificates and in a handshake, of which the protocol that
-- it settles on is an event; the frames of HTTP/2, of which the h2 crate gives requests; logging
-- and metrics; Redis itself; writes that fail, but for the client's; timers, which are events;
-- an adapter that an application writes itself; `body_json`, which only calls serde; the packets of
-- the client's crate, which are the server's code once more; the demonstration application and the
-- benchmarks, which only use the library.
pub mod Common
pub mod Types
pub mod Routes
pub mod Request
pub mod Payload
pub mod Response
pub mod Cors
pub mod Security
pub mod Server
pub mod RateLimiter
pub mod SocketIo
