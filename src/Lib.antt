-- ===== src/Lib.antt =====
-- rapp, a web application container in C: the parts that decide what a request gets, as functions,
-- and what makes them right.
--
-- The program loads a plugin (src/container.c) and reads a configuration (src/config) that the
-- core and the plugin declare. The event loop (src/eloop.c) calls back for each descriptor: the
-- listening socket (src/tcpserver.c), for which the HTTP server (src/httpserver.c) makes a
-- connection (src/httpconnection.c over src/tcpconnection.c), each connection, and the signals
-- (src/signalhandler.c). A connection feeds what it receives to the parser through its queue
-- (src/httprequestqueue.c); a request that was read whole (src/httprequest.c) goes to the router
-- (src/httprouter.c), which hands it to a container, and the container fills a response
-- (src/httpresponse.c), which the connection sends in pieces. Connections that are finished are
-- freed at the end of a turn (src/collector.c). All parts report to a logger (src/logger.c).
--
-- Which file models which part:
--   Prelude        what all share; Prelude/Alloc is src/memory.c, Prelude/CString, Int, Decimal and
--                  Run are the C strings, signed integers, printed numbers and faults of the code
--   Config         the data of src/config/common.h and rapp/rapp_config.h; Values, Number, Boolean,
--                  Convert, Store and Destroy are src/config/common.c, Api, Api/Declare and Api/Read
--                  are src/config/api.c, Env is src/config/env.c, CommandLine with its children Early
--                  and Parsing is src/config/commandline.c, Yaml with its child Document is
--                  src/config/yaml.c; Valid, Frame, Options, Converted, Insert,
--                  Making, Declared, Environment, Ownership, Owned, Allocated and History hold the
--                  proofs, Table, Rows, Generating, Generated and Parsed those about the command
--                  line, and Yaml/Entries, Reading, Applied, Fuel and Enough those about YAML
--   HttpRequest    src/httprequest.c; the proofs are in Fields, Lookup and Body
--   HttpRequestQueue  src/httprequestqueue.c, with Feed (http_request_queue_append_data); the proofs
--                  are in Headers, Begun, Payload, Feeding and Whole
--   HttpResponse   src/httpresponse.c, with Status (the table of codes) and Writer; the proofs are in
--                  Buffer, Drain, Writes, StatusLine and Errors
--   Container      src/container.c; the proofs are in Loading
--   HttpRouter     src/httprouter.c; the proofs are in Binding, Scanning, Serving and
--                  Routing
--   Collector      src/collector.c; the proofs are in Frees
--   Eloop          src/eloop.c, with Turn (event_loop_run) and Lifetime; the proofs are in Dispatch,
--                  Entries, Watches, Shape, Interest, Validity and Cancelling
--   TcpConnection  src/tcpconnection.c; the proofs are in Unwatching and Closing
--   TcpServer      src/tcpserver.c; the proofs are in Listening and Stopping
--   HttpConnection src/httpconnection.c; the proofs are in Writing, Sending, Finishing and Serving
--   HttpServer     src/httpserver.c; the proofs are in Closing
--   SignalHandler  src/signalhandler.c; the proofs are in Handling and Sequences
--   Logger         src/logger.c; the proofs are in Tracing
--   Tests          the theorems at concrete inputs, and runs of the code
--
-- A function of the source has the name that it has there, a struct its name in camel case. State
-- is passed on: a function takes the record of the object and the allocator, and returns them
-- changed. A call that fails returns a Status, `none` or -1 as the source does; undefined
-- behaviour is `fault`, and so is an assert that fails, but for that on the length of the headers'
-- block in src/httprequest.c, which is not 0 behind a whole header, and those on pointers, which
-- no caller breaks; a statement that a call is `done` says that it meets neither. Pointers to
-- optional things are Options, lists of the C library's queue macros are Lists.
--
-- The allocator answers its n-th request as `grants` says, so a theorem without a hypothesis on it
-- holds for every pattern of failures; `live` counts the blocks in use. Numbers are natural
-- numbers; a `long` is a signed integer that `strtol` keeps within its bounds, and a route's
-- length is cut to an `int16_t`. A `size_t` or `int` that counts bytes or entries of one object is
-- not cut: such an object would fill the address space. Loops go down a list or a count, but for
-- the two of Config/Yaml that read tokens: their fuel is the number of the tokens and one more,
-- which is enough since a pass takes a token at least; a loop without fuel is a `fault`. An entry
-- of the event loop has an address, the number of the request for its block, by which an event
-- points to it.
--
-- Parameters, since their code is elsewhere: `getenv`, the table of symbols that `dlopen` finds,
-- the callbacks of a plugin, what http_parser calls back and where its pointers stand, what argp
-- calls its parser with, the tokens of libyaml, the free functions of the collector, what
-- `epoll_wait` gives and what a callback of the loop does, the system calls on sockets,
-- descriptors and signals (`epoll_ctl`, `recv`, `send` and the records Sockets and SignalCalls) as
-- functions on a state of the kernel, `fopen`, `realpath`, `scandir`, `vfprintf` and `fflush`, and
-- the text that `time` and `strftime` give. The regular expressions are written as the functions
-- that they denote, and `regcomp` fails for want of memory only.
--
-- Not modelled: src/main.c, the wiring of the parts and process control; the tests and the build
-- scripts; what `free` does with a number that was set as the default of an option of type string.
-- The calls of the logger by the other parts are left out everywhere.
pub mod Prelude
pub mod Config
pub mod HttpRequest
pub mod HttpRequestQueue
pub mod HttpResponse
pub mod Container
pub mod HttpRouter
pub mod Collector
pub mod Eloop
pub mod TcpConnection
pub mod HttpConnection
pub mod TcpServer
pub mod HttpServer
pub mod SignalHandler
pub mod Logger
pub mod Tests
