-- ===== src/Lib.antt =====
-- libbtcnet: the network library's own logic, from the bytes of a stream to the life of the
-- handler.
--
-- The program. An application implements `CConnectionHandler` (include/libbtcnet/handler.h) and
-- drives `CConnectionHandlerInt` (src/handler.cpp), which owns the connections in four maps:
-- those that stand, those under way, the sockets that listen, and the lookups. A connection is a
-- `ConnectionBase` (src/connectionbase.cpp) of one of four classes: incoming, direct, proxy and
-- DNS (src/incomingconn.cpp, src/directconn.cpp, src/proxyconn.cpp, src/dnsconn.cpp). Each
-- connects through `CBareConnection` (src/bareconn.cpp) and, behind a proxy, `CBareProxy`
-- (src/bareproxy.cpp), reports to the handler that it is up, has failed or is lost, and once it
-- is up cuts its input into messages (src/message.cpp). What to connect to, and how, is a
-- `CConnection` (src/connection.cpp). The handler passes the reports on to the application, whose
-- answers decide on retries, and asks it for more connections while there is room.
--
-- The files. Base (with Base/Lists and Base/Int) has the shared names, Boolean tests, lists with
-- native lengths and integers; Map is `std::map` with its laws.
--   Message: `first_complete_message_size` (src/message.cpp), `read_cb_message` and
--     `read_cb_chunk` (src/connectionbase.cpp) with `CNetworkConfig`. An `evbuffer` is the list
--     of its bytes. Framing says independently what a message of a stream is; Loop follows the
--     `do` loop; Stream, Tails and Chunks hold the theorems.
--   Base32: src/base32.cpp, encoder and decoder.
--   Connection: the data of include/libbtcnet/connection.h, the permission tests, and the hint
--     for a lookup (src/resolve.cpp). Connection/Host is the constructor from a text, and
--     Connection/Address what a connection says of itself: `GetSockAddr`, `GetHost`, `GetPort` and
--     `ToString`, with `getnameinfo` as a parameter.
--   Event: `CEvent` (src/event.cpp) with its calls of libevent; Calls reads them against the
--     contract of libevent.
--   Channel: the `bufferevent` of a connection that is up, as src/connectionbase.cpp sets it.
--   Object: `ConnectionBase` as one record with the fields of all its classes, and what they
--     share.
--   Transport: the objects until they are up. Each operation returns the changed object with
--     what it reports to the handler. Retries, Dns, Counters and Reports hold the theorems, and
--     Phases says where an object stands on its way up.
--   Peer: the objects that are up (src/connectionbase.cpp): the calls of the application, and the
--     callbacks that libevent calls. Live: the events of such an object and its runs; Keeps,
--     Rest, Healthy, Flow and Closing hold the theorems.
--   Socks: the negotiation of `CBareProxy` (src/bareproxy.cpp). The parent has what each callback
--     makes of its input, Requests and Replies what is written and read. Session is a negotiation
--     from `InitProxy` to its end, as libevent drives it: what comes is added to the input, and the
--     read callback runs if the input is then as long as the read watermark; Waits, Reply, Finals, Answers
--     and Alive hold its theorems.
--   Listener: `CConnListener` (src/listener.cpp).
--   Handle: `event_type` (src/eventtypes.h), the owner of an object of libevent; Ownership says who
--     holds it.
--   ResolveOnly: `CResolveOnly` (src/resolveonly.cpp).
--   AddrInfo: the linked list that evdns answers with, its iterator, and `dns_callback`
--     (src/resolve.cpp); Chains shows that the other modules may take it as a list, and Response is
--     `CDNSResponse` as the owner of an answer.
--   Handler: State is `CConnectionHandlerInt`, Ops what it does with a report, Loop its own life:
--     start, requests, binding, shutdown, and Calls what standing connections do and what is asked
--     of them by id (also src/interface.cpp). Tidy and Bound are the invariant, Reports, Steps,
--     Lives, Lost, Requests, Resolves, Lookups, Starts, Accepts, Binds, Outgoing and Shutdown have the
--     theorems about one operation each, Frame says what each leaves alone, Run is the step
--     relation of the event loop, and Reach and Limit have the theorems about runs. Sound says in
--     which phases the objects of the handler stand, Events which events may come, with the run that
--     they make up, and Told what the application is told of each connection.
--
-- How to read the definitions. `none` (or `abort`) is a failed assertion. Calls of the
-- application's interface are recorded in order, and its answers are a function of what it was
-- told so far. libevent is not modelled: whether a connect, a lookup or a bind succeeds is an
-- input, and so is the parser of numeric addresses. When libevent may call a callback is written
-- out as a test (`raises` of Live, `conn_raises` of Transport/Phases, `look_raises` of
-- Handler/Sound/Looks, and for all of them `MayCome` of Handler/Events): what ends is under way,
-- the callback is set, what it reads is enabled, its watermark is reached. A resolver that
-- succeeds is taken to answer with at least one address. What the application calls back from inside one of its functions is taken to come after
-- it. Connection counters are unbounded integers; ids are taken below 2^63, and the theorems about
-- runs hold while 16 ids are left before they wrap around. A run may start again once
-- the loop has ended after a shutdown. The loop of `read_cb_message` runs on fuel, one round more
-- than there are bytes, and the loop over an answer on any fuel that is not below the number of
-- addresses; the theorems show that this is enough.
--
-- Not modelled: the locks (the model is of the event thread), the destructors and `Cancel` of the
-- connections, the options of a bufferevent and of a socket, and the table of libevent's functions
-- that free an object of each type (src/eventtypes.cpp).
pub mod Base
pub mod Base32
pub mod Map
pub mod Event
pub mod Message
pub mod Connection
pub mod Channel
pub mod Object
pub mod Transport
pub mod Peer
pub mod Live
pub mod Listener
pub mod Handle
pub mod AddrInfo
pub mod ResolveOnly
pub mod Socks
pub mod Handler
