-- ===== src/Lib.antt =====
-- da4qi4, a web framework in C++: a model of its core and the theorems about it.
--
-- A server reads requests, finds the application whose root begins the path, and lets the application
-- find the handler for path and method in three routing tables, between the calls of its intercepters.
-- Handlers talk to redis through a client that sends commands one at a time and parses replies as they
-- arrive, to browsers through websocket connections, which are registered by their ids, and give their
-- responses at once or in chunks.
--
-- Which file models what:
-- - Redis/Value: `RedisValue` (include/daqi/redis-client/redis_value.hpp,
--   src/redis-client/redis_value.cpp). `std::vector<RedisValue>` is the type `Values`.
-- - Redis/Wire: the RESP format as a server writes it, which is not part of the program.
-- - Redis/Parser: `RedisParser` (src/redis-client/redis_parser.cpp). `handle` is the switch of
--   `parse_chunk` on one byte, `settle` the block behind it, `loop` the loop, `conclude` the end, and
--   `parse` the call. Its children prove what a run does byte by byte (Stepwise), over two chunks
--   (Chunks), on numbers and lines (Numbers, Lines), at the end of an element (Elements), on the wire
--   format of what is no array (Scalars) and of all (RoundTrip), and on whole replies (Replies).
-- - Redis/Command: `MakeCommand` (src/redis-client/redis_command.cpp).
-- - Redis/Client: `RedisClient` (include/daqi/redis-client/redis_client.hpp,
--   src/redis-client/redis_client.cpp). `on_write`, `on_read`, `on_timer` and `on_connect_finished`
--   are the handlers of its asynchronous operations, `answer` the end of a command. Its children
--   give its steps (Steps), what is in flight and owed (Flight), what every reachable client keeps
--   to (Orderly, Safety), the loop of the read handler (Scanning), the reading of a reply in chunks
--   (Reads), what its answer changes (Answered) and a client that has stopped (Stalled).
-- - Websocket/Frame: `FrameBuilder` and `FrameParser` (src/websocket/frame_websocket.cpp). `round` is
--   one round of the loop in `Parse`, composed of its five steps.
-- - Websocket/Connection: `Websocket::Connection` (src/websocket/connection_websocket.cpp): what it
--   writes, its handshake (Handshake), its reading and the events of its handler (Reading). Steps,
--   Orderly and Heard are about its runs.
-- - Websocket/Connections: `Websocket::Connections`, the registry in the same file.
-- - Router/Methods: `HandlerMethod` and `HandlerMethods` (src/handler.cpp).
-- - Router/Order, Router/Map and Router/LowerBound: the comparisons of src/utilities/string_utilities.cpp
--   and `std::map` with such a comparison, as the list of its entries in the order of iteration.
-- - Router/Table and Router/Regex: `RoutingTable::Add` over the interface `Imp` that the three tables
--   fill, and their matches (include/daqi/router.hpp, src/router.cpp).
-- - Application/Url: `JoinUrlPath` (src/url.cpp).
-- - Application/Dispatch: `AddHandler`, `find_handler` and `do_handle` (src/application.cpp).
-- - Application/Manager: `MountApplication`, `FindByName` and `FindByURL` (src/application.cpp).
-- - Application/Websockets: the websocket connections of an application by their paths
--   (src/application.cpp, with MakesureFullUrlPath of src/url.cpp), each path with a registry of
--   Websocket/Connections.
-- - Application/Intercepter: Start, Pass and Stop of `ContextIMP` (src/context.cpp) on the chain of
--   intercepters.
-- - Response/Status, Response/Cookie, Response/Cookies and Response/Text: the text of a response
--   and of its cookies, and the calls that set them (src/response.cpp, src/cookie.cpp).
--   Response/Text/Reader has a reader of the lines and Response/Text/Expected the lines it expects,
--   which are not part of the program. Response/KeepAlive is about the marks that a response is
--   asked for.
-- - Response/Chunked and Response/Hex: `ChunkedBodies` (src/response.cpp) and `DecIntToHexStr`
--   (src/utilities/string_utilities.cpp). Response/Chunked/Sender is the loop of src/connection.cpp that
--   sends the chunks, Response/Chunked/Sent is about its runs, and Response/Chunked/Decode has a reader
--   of a chunked body, which is not part of the program.
-- - Connection/Headers: the callbacks for header fields in src/connection.cpp, with AppendHeader of
--   src/request.cpp. Connection/Arrivals proves what they make of headers that come in pieces.
-- - Connection/Multipart: the callbacks of the multipart parser in src/connection.cpp.
-- - Connection/Receiving: what a connection holds while it receives a message, its reset, the
--   callbacks of llhttp, with the end of the headers in Head and the body in Body, and what
--   `do_read` does with a complete message and `do_write` behind a response in Message
--   (src/connection.cpp). The reply 100 is written while llhttp goes on: a message that asks for it
--   is followed up to the end of its headers. Limit and Bound are about the size of the body, Whole
--   about a message from its beginning to its end, and Asked about one that waits for the reply
--   100.
-- - Connection/Reply: the headers that a connection adds to a response (src/connection.cpp).
-- - Request/Url: `UrlBase` and `UrlUnderApp` (include/daqi/url.hpp, src/url.cpp).
-- - Request/Lookup: `IsExistsParameter` and `TryGetParameter` (src/request.cpp).
-- - Request/Members, Request/ContentType and Request/FormData: the members of a request and `Reset`, what
--   it makes of its content type, and its form data (include/daqi/request.hpp, src/request.cpp).
--   Request/Fields is about fields of a form, and Request/Arrival about a form that comes in pieces.
-- - StaticFile: src/intercepters/static_file.cpp. `first_entry` is the loop of `on_request`, `chunks` the
--   loop of `on_response`, and the calls of the context are the list of `Action`.
-- - Utilities/Base64: src/utilities/base64_utilities.cpp.
-- - Utilities/Http: the encoding of URLs in src/utilities/http_utilities.cpp.
-- - Utilities/Strings and Utilities/Parameters: Split and SplitByLine of
--   src/utilities/string_utilities.cpp, ParseQueryParameters and ParsePlainTextFormData of
--   src/utilities/http_utilities.cpp, and TransferHeadersToCookies of src/request.cpp. Router/Inserts has
--   the lemmas on inserting one entry after the other.
-- - Base: shared names and lemmas. Tests: runs on concrete inputs.
--
-- Numbers are natural numbers, and where the code computes with words of w bits the model takes the
-- result modulo 2^w. Bytes are numbers below 256, and a string is the list of its bytes. Where the code
-- writes outside of a buffer, or uses an iterator that may not be valid any more, the model gives `none`.
--
-- An asynchronous operation that was started stands in the state of its owner until it ends. It may
-- end at any time and in any way, and a handler of it is a function of the model. Calls that other
-- threads make under a mutex are steps.
--
-- Loops that are not structural run on fuel. The loop of the redis parser reads a byte in each round, so
-- the length of the chunk is enough. A round of the frame parser takes a byte or ends a frame, so twice
-- the length of the data is enough, where payloads are
-- shorter than 2^32 bytes. The loop of
-- `do_handle` ends in its second round. The translation of a matcher takes a character or a parameter in
-- each step. The loop of the read handler of a redis client parses a byte at least in each round, so the
-- number of bytes is enough. The division loop of `DecIntToHexStr` has the number and one more. Each
-- intercepter is called at most twice, so twice the length of the chain and one more is enough. The loop
-- that sends a static file reads a byte at least in each round but the last, so the size and one more is
-- enough.
--
-- Parameters: Boost's case-insensitive comparisons (the record `Algorithms`, with the laws that
-- Boost documents), its splitting and trimming (`StringAlgorithms`) and its replacement, the
-- pattern engine (`Engine`), the handlers and which of them hold a function, what a handler of a
-- redis reply or of a websocket event does in answer (`react`), SHA-1, the GMT text of a time, the
-- application that a release build answers with where none is found, what llhttp tells of a message
-- and finds in a URL, the multipart parser (`MultipartParser`), the file system (`Disk`, `Files`)
-- and the paths of boost::filesystem.
--
-- Not modelled: sockets, threads and timers themselves (the server and its engine, the HTTP client, the
-- pool of redis clients, which is one client for each thread), the synchronous calls of the redis
-- client, which only a debugging build has, a random or a whole view of the websocket registry,
-- templates, uploaded files as streams and sessions, which are calls of the file system and of libraries,
-- the other contents of responses, digests and ciphers, running out of memory and the exceptions of
-- `reserve`, and the copies of other projects
-- in the repository (inja, nlohmann_json, spdlog, llhttp, multipart-parser).
pub mod Application
pub mod Base
pub mod Connection
pub mod Redis
pub mod Request
pub mod Response
pub mod Router
pub mod StaticFile
pub mod Tests
pub mod Utilities
pub mod Websocket
