-- ===== src/Lib.antt =====
-- beauty-cl, an HTTP server and client library on Boost.Beast.
--
-- A request goes through the parts of the server in this order: the session reads it, asks the router
-- for the routes of its verb, takes the first route that matches (which reads the attributes from the
-- query string and the path), runs the middleware and the callback, and writes a response; or it hands
-- the socket to a WebSocket session or to a stream of server-sent events.
--
-- The files and the code that they model:
-- - Prelude: shared notation, tests, lists over the native numbers, and byte strings. A `std::string` is
--   the list of its bytes, each below 256.
-- - Utils/Split, Utils/Escape, Utils/Names: the functions of src/utils.cpp.
-- - Headers: the content types of include/beauty/header.hpp.
-- - Attributes: src/attributes.cpp, include/beauty/attribute.hpp. The hash map is the list of its entries.
-- - Swagger: the records of include/beauty/swagger.hpp and `swagger_path` of src/swagger.cpp.
-- - Route: src/route.cpp and include/beauty/route.hpp: the constructors, with the exception of a bad path
--   as a value, `update_route_info`, and `match`; Route/Calls has the calls of its handler.
-- - Router: src/router.cpp and include/beauty/router.hpp. `std::sort` is a parameter, with the laws that
--   its documentation gives (Router/Sorted, `Sorts`). An `int` is its 32 bits: its overflow is undefined
--   in C++ and wraps in the model, and the theorem on the order is about at most 30 segments, which do
--   not overflow.
-- - Middleware: the chain of `handle_request` in include/beauty/session.hpp. A coroutine is a tree: it
--   ends, or it awaits `next()` and goes on with how that ended. So a middleware that calls `next`
--   without awaiting it, or that never ends, is not modelled. The fuel of `next` bounds how deep its
--   calls are nested, one more than there are middleware.
-- - Session: `handle_request`, `helper::*` of src/utils.cpp, src/exception.cpp and
--   include/beauty/exception.hpp (Session/Errors). Whether the request is an
--   upgrade and the remote endpoint are what Boost says (`remote_endpoint()` may throw, which leaves the
--   request without an answer: that is not followed); the version of the project comes from the build.
--   Session/Connection has the phases of a connection, from `run` to `do_close`, with TLS or
--   without; a postponed response is given with the content that it has when `done` is called, body
--   limits and logging are left out.
-- - Server: src/server.cpp and include/beauty/server.hpp: the registration of routes, with Server/Listening
--   for `listen` and `stop` (with Server/Acceptors and Server/Failures), Server/Description for the JSON
--   of `enable_swagger`, and Server/Registrations for the routers that calls of the verbs' functions and
--   of `use` make, which Server/Answering follows through `handle_request`.
-- - Sse: src/sse_stream.cpp and include/beauty/sse_session.hpp: a queue, and in Sse/Session a session.
--   A handler that is posted to the strand is one step, and so is the end of an asynchronous write;
--   `close` posts its handler, which runs in a later step. Sse/Queue has them as a step relation, and
--   Sse/Reader is a reader of the event stream format, which is not code of the repository.
-- - WriteQueue: the queues of include/beauty/websocket_session.hpp and include/beauty/websocket_client.hpp.
-- - Url: src/url.cpp, with its exceptions as values, and include/beauty/url.hpp.
-- - Application: src/application.cpp and src/timer.cpp. The io_context is whether it was stopped, and the
--   threads are how many are active. Application/Timers and Application/Threads have what can happen as
--   step relations; a call of `stop` waits in the loop that `waits_for_threads` tests. A callback of a
--   timer is any function of the application, in which other threads may go on, and its timer is armed
--   again after it.
--   Application/Singleton is the application that the process shares.
-- - Acceptor: src/acceptor.cpp and src/signal.cpp, with the errors of Boost.Asio's calls as arguments.
-- - ClientSession: src/session_client.hpp. The request contexts are a store, which the queue and the
--   timers share; an asynchronous operation is a value and its end a step (ClientSession/Steps), which may
--   bring any error. `on_timer`, which has neither the lock nor the strand, is one step too. `answered`, `sent`, `calls` and `errors` are records of what happened and are not read
--   by the code. A callback tells whether it was never given or was cleared; the code sees neither.
-- - Client: src/client.cpp and the sessions that it has. The event loop of a synchronous request is a
--   parameter.
-- - Exchange: a client's session and a connection of a server together, as a step relation over both and
--   what is under way between them. What the server reads where the client has written a request is a
--   parameter, since Boost prints and parses it. A connection that the client leaves is not followed.
-- - WebSocket: the states of include/beauty/websocket_session.hpp and include/beauty/websocket_client.hpp.
-- - Base64: include/beauty/base64.hpp, with reads outside its table as a value.
-- - Sha1: src/sha1.cpp and include/beauty/sha1.hpp; Sha1/Spec has FIPS 180-4. Its loop has one more round
--   of fuel than there are bytes to read, and each round but the last reads 64.
-- - Tests: the theorems at concrete inputs.
--
-- Not modelled: what Boost.Asio and Boost.Beast do inside (sockets, TLS, clocks, the printing of JSON), the
-- memory behind the views of a URL, a callback that uses the session that calls it and holds its mutex,
-- and random numbers.
pub mod Prelude
pub mod Server
pub mod Utils
pub mod Attributes
pub mod Swagger
pub mod Headers
pub mod Route
pub mod Router
pub mod Middleware
pub mod Session
pub mod Sse
pub mod WriteQueue
pub mod Url
pub mod Base64
pub mod Sha1
pub mod Application
pub mod Acceptor
pub mod WebSocket
pub mod ClientSession
pub mod Exchange
pub mod Client
pub mod Tests
