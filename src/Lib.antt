-- ===== src/Lib.antt =====
-- libcoda_net: a networking library of sockets, buffers, protocols and servers.
--
-- Paths are those of the repository. Bytes are native naturals, texts are lists of them.
--
-- Parts and files
--   * Telnet (src/telnet/socket.cpp, protocol.h): `on_recv` is run by buffered_socket on each
--     block before the block reaches the input buffer. `on_recv`, `handle_telopt`,
--     `handle_sub_neg` and `send_telopt` keep their names; an iterator is a `Cursor`, what is
--     before it and what is from it on. Telnet/Stream writes streams as lists of pieces, which
--     Telnet/Filter and Telnet/Bounds compare with the filter. Telnet/Delivery puts the filter in
--     its place in `socket::recv`, under a read of Buffered.
--   * Uri (src/uri.cpp, uri.h): Uri/Codec has `encode` and `decode`, Uri/Parse the class with
--     `parse`, which is the parser for builds without liburiparser. Uri/Writing writes a URI
--     from its components. Uri/RoundTrip, Uri/Components and Uri/Shapes are about them.
--   * Socket (src/socket.cpp, socket.h, exception.h): the socket as a record, and beside it the
--     list of the descriptors that are open. `connect`, `listen`, `close`, `operator=`, `send`
--     and `recv` take what the system and a secure layer answer as arguments. Socket/Objects has
--     the constructors, moves and operators and the address of the peer. Socket/Ownership follows
--     the descriptors of one socket; Socket/World is a process with any number of sockets as a
--     step relation, with Socket/Counts and Socket/Balance about its open descriptors.
--     Socket/Secure (src/secure_layer.cpp) is the layer over OpenSSL, with a socket that has one,
--     and Socket/Secure/Lifetime is about the objects that a layer holds.
--   * Buffered (src/buffered_socket.cpp, buffered_socket.h): buffers, lines, listeners and
--     transfers, on top of Socket. A listener is a number, `none` is a null pointer, and the
--     calls of listeners are kept in a list. Buffered/Lines, Listeners, Removal, Transfer
--     and Receive are about them. `read_from` takes the filter of a subclass as an argument. Buffered/Connection
--     is about connecting again, and Buffered/Objects about the moves and the constructors.
--     Buffered/Calls has `read_to_buffer` by its calls of `recv`, where the other modules have a
--     script of their answers, and Buffered/Calls/Script compares the two. Buffered/Channel has
--     the specification of the whole object, a pair of byte streams, which
--     Buffered/Channel/Agrees compares with any sequence of calls; the lines of the specification
--     are taken in one pass over the bytes, not by `readln`.
--   * Http (src/http/client.cpp, client.h, protocol.h, socket_impl.cpp): Http/Scan is the
--     `sscanf` of the status line, Http/Response the parser, Http/Client the client, Http/Request
--     the text that `http::socket::request` writes and Http/Exchange the request over a Buffered
--     socket, with the URI from Uri. Http/Curl is the request over libcurl
--     (src/http/curl_impl.cpp), which is a record of what the calls of that library answer.
--     Http/Objects reads headers and assigns clients. Http/Headers has the specification
--     of the headers, a function from names to values. Http/Parsing, Order, OneBlock, Answered
--     and Chunks are about them. The header map is in Base/Maps, and Base/Maps/Canonical is about
--     its order.
--   * Server (src/socket_server.cpp, src/sync/server.cpp, select_impl.cpp, epoll_impl.cpp):
--     Server/Start is about starting on top of Socket, Server/Pause about `wait_time`, and
--     Server/Select is the poller, which sees connections through the interface `Connection` of
--     Server.antt. Server/Fairness and Server/Limit are about the sets of the poller.
--     Server/Epoll is the poller on epoll, and Server/Watching is about the connections that it
--     accepts. Server/Sync is the whole server of src/sync, over a poller that is an argument:
--     Sync/Pauses is about the pauses of its loop, Sync/Restart about starting and
--     stopping it. Sync/Moves has the moves of servers and the setters. Server/Accept (src/socket_factory.cpp)
--     has the default factory and `on_accept`, and Server/Arrivals the connection that becomes of
--     a descriptor. Server/Buffers fills the interface `Connection` with Buffered sockets.
--     Server/Sockets, Serving, Survivors, Covering and Tracking follow the map of the connections and the sets
--     through the polls, Server/Finding, Reading and Delivery the bytes of a peer into the buffer
--     of its connection.
--     Server/Background is the loop in a thread of its own and the thread that stops it, as a
--     step relation.
--   * Encoding (src/encoders.cpp): the maps of `encoding::url`, on Uri/Codec and the maps of
--     Base. Encoding/Pairs is about them. A position is a number, and `npos` is `none`.
--     Encoding/Archives has the encoders over cereal, whose archives are records of what their
--     calls answer.
--   * Async (src/async/client.cpp, server.cpp): the loops that run in threads, on Buffered and on
--     what `accept` returns. Async/Delivery is about the loop of the client, and Async/Objects
--     has the client with its thread. Async/Threads interleaves the accept loop, the rounds of
--     the clients' threads and a call of `stop` as a step relation, which Async/Serial and
--     Async/Stuck are about; what one thread does in a round touches only its own client.
--   * Crest (src/http/crest/util.cpp, jester.cpp, config.cpp, main.cpp): the interactive session,
--     over the lines that it reads, Crest/Options with `parse_options` and `execute`,
--     Crest/Config with the configuration file, whose content is the state, and Crest/Program
--     with `main`, on these and on Http/Client. Crest/Session, Options, History and Program are
--     about them.
--   * Base: names of the libraries, tests, lists, text and maps. The Tests files run the code.
--
-- Bounds and fuel
--   * `recv_loop` is on fuel, the length of the buffer: each round erases a byte.
--   * `parse_headers` is on fuel, the length of the text and one: each round that goes on leaves
--     a shorter rest.
--   * `decode_pairs` is on fuel, the length of the text: each round starts at a later equals
--     sign.
--   * `carry` is on two rounds, as the quotient is under two seconds.
--   * `words` is on fuel, the length of the file: each round takes a word, which is not empty.
--   * `run` of Async is on fuel, its rounds: it says whether it came to its end, as the loop may
--     go on for ever.
--   * `decode_nodes` is on fuel, the number of nodes of the archive: each round takes one.
--   * `decimal` is on fuel, the number and one, and divides it by ten in each round.
--   * All else is structural recursion: loops over buffers go through the bytes, loops over the
--     system's answers through the list of these.
--   * Numbers are cut to a width where the source cuts them, as the bytes of the percent coding
--     are. The size of an output buffer is cast to `int`, which theorems on sends that
--     fail ask to keep it. Descriptors are below FD_SETSIZE, which the code does not test.
--     A code of a status line is kept as it is written; where it does not fit an `int`, C
--     leaves the result of `sscanf` open.
--
-- Not modelled
--   * liburiparser, OpenSSL, libcurl and cereal: third-party code. What they answer is an
--     argument.
--   * Mutexes, the memory model of threads, and listeners that call back into the object that
--     calls them. A round of a client's thread is one step.
--   * Copies of value classes, which copy values, and what a moved string or map holds.
--   * The move assignment of `async::server`, which only calls itself.
--   * The prompts of crest, what it prints, and the opening of its file. The branches for
--     Windows.
--   * Allocation failure.
pub mod Base
pub mod Telnet
pub mod Uri
pub mod Socket
pub mod Buffered
pub mod Http
pub mod Server
pub mod Encoding
pub mod Crest
pub mod Async
