-- ===== src/Lib.antt =====
-- Arduino Router: a MessagePack-RPC router. Clients connect by a socket or a serial port, register
-- methods, and call the methods of one another and those of the router's internal APIs.
--
-- The parts of the program, and the files that model them:
--
-- - msgpackrpc/limited_buffer.go, LimitedBuffer: a byte buffer of fixed size. `buf` is the storage,
--   whose tail past `length` keeps old bytes, as in the source.
-- - msgpackrpc/type_conversion.go, ToInt and ToUint: Conversion. `Value` has a constructor for each
--   dynamic type of an `any`; int and uint have 64 bits. Network/Ids counts keys with Dict/Counting.
-- - msgpackrpc/connection.go, sending: Connection. A Connection is a record; its stream is the list
--   of the writes made on it, a waiting request holds a callback of a type `H`. Each function
--   returns the new connection beside its result.
-- - msgpackrpc/connection.go, receiving (decodeRpcPacket, Run): Connection/Decode. The loop takes
--   fuel; one unit for each message and one for the end of the stream are enough.
-- - internal/msgpackrouter/errors.go: Router/Errors; rawParams of router.go: Router/Params; the
--   table of routes: Router/Routes, with Router/Routes/History on the history of the calls that
--   change it; the state of the router and the answer to a forwarded request:
--   Router/Store; the request and notification handlers of connectionLoop and the response
--   callbacks: Router. The World has all connections, known by their pointers, the routes, the
--   internal methods and the state `S` of the internal APIs. The closure `fwdRes` is the record
--   Forward, over which `fwd_res` computes.
-- - The running router, an interleaving of accepted connections, packets, ends of connections and the
--   answers of internal methods that waited: Router/Steps. Router/Acts takes every packet apart into elementary changes of the World, so
--   that an invariant is proved once for each kind of change; Router/Dispatch is the switch of the
--   request handler as a rule for proofs. Router/Answering is about what becomes of a request,
--   Router/Keeping and Router/Lasting about how long one waits, Router/Ids about the IDs it waits
--   under.
-- - internal/network-api/network-api.go: Network has the tables of sockets and the search for a free
--   ID, Network/Tcp, Network/Stream and Network/Ssl the TCP methods, Network/Packets the UDP methods
--   on a packet that is written or read by parts, and Network/Udp the opening of UDP sockets, the wait
--   for a packet and the closing. A socket is known by its pointer; what the calls on sockets answer
--   are the parameters Network.Sockets and Network.Packets.UdpSockets. The search takes one unit of
--   fuel for each entry of the tables and one more, which is enough while there are fewer than 2 ^ 32
--   entries.
-- - internal/hciapi/hci-api_linux.go: Hci, with the list of the descriptors that are open beside
--   `hciSocket`. The system calls are the parameter Hci.Kernel. Hci/Descriptors is about the closing
--   of sockets, Hci/Calls about sequences of calls, Hci/Overlap about two calls of hci/open at once,
--   Hci/Names about the names of devices.
-- - internal/monitorapi/monitor-api.go: Monitor, with the clients, the closed sockets, the pipe and
--   the counter. The pipe is the parameter Monitor.Pipe, of a bounded size, at which a Write waits
--   for room, with its documented behaviour as Monitor.Pipes.IsPipe; Monitor/Traces runs connections and methods in any order. Monitor/Overlap
--   has calls of mon/read that overlap, in steps, and Monitor/Overlap/Starving is about them.
-- - main.go: Serial has the methods $/serial/open and $/serial/close and the loop that opens and
--   serves the port, as a step relation, in which the wait for the port is a step that may not come;
--   Serial/Steps is about one step, Serial/Progress about runs.
--   Port is waitForPort, with the parts of a clean path, the answers of os.Stat as a function, and a
--   watcher that reports what is made directly in a directory that it watches; the search for a
--   directory takes one unit of fuel for each part of the path and one more, which is always enough.
-- - main.go, startRouter: Startup has the configuration, the listeners and the internal methods of the
--   router that starts; Startup/Tables has the tables of methods of the APIs over one state, in which
--   each call has answers of its own from outside. Router/Internal is about the internal methods of a
--   router, Startup/Methods about those that are registered, Startup/Listeners about the listeners.
-- - main.go, main and the rest of startRouter: Startup/Serving has the program as it waits: the loops
--   that accept connections, the router, the shutdown, and the command that is run once the router is
--   ready. The loop of the serial port and the goroutines of the APIs are events there. An event that
--   cannot happen is `none`, and none happens after a panic or the shutdown. Startup/Accepting is about
--   the loops, Startup/DebugStream is the stream around the serial port.
-- - cmd/arduino-router-cli/main.go: Cli has composeArgs, which reads the parameters of a call from the
--   words of the command line; Cli/Sending has send, over the parameter Cli.Sending.Link; Cli/Running
--   has what a command prints, over the parameter `marshal_indent`, and its exit code; Cli/Printing prints
--   values as words. composeArgs takes three units of fuel for each word and one more, which is
--   always enough. strconv.ParseFloat is the parameter Cli.Floats.
-- - msgpackrpc/connection.go, handleIncomingRequest with a handler that answers at once:
--   Connection/Serving.
-- - examples: Examples has ping_server, mult_server and ping_client, Examples/Words has
--   generic_sock_client beside the command line client, and Examples/Dump msgpackdump, with fuel for
--   each value and one more. Examples/Servers is about what a server writes, Examples/Through about
--   the way of a call through the router to ping_server and back, Examples/Mult about mult_server.
--   The product of floats is a parameter, on bit patterns.
-- - SendRequest of msgpackrpc/connection.go, which waits for its response or its context:
--   Connection/Waiting.
-- - Error has Go's error values, with errors.Is and errors.As by their constructors; Dict has Go's
--   maps; Strings has strconv.Atoi and strings.CutPrefix; Reply has the answer of an internal
--   method; Prelude the shared names.
--
-- Parameters, not modelled: the encoder of msgpack with the writes that it makes and the streams
-- (Connection.Wire), its decoder (Connection.Decode.Decoder, with its documented behaviour as
-- Connection.Decode.Message.Reading), msgpack.Unmarshal (Router.Env), the internal methods
-- (Router.Handler), which answer once before they return or, where they wait, later, json.MarshalIndent,
-- and those named above.
--
-- Bounds: IDs of requests count modulo 2 ^ 32, as the source's atomic.Uint32 does; statements
-- about a new ID are for a counter that has not come round. `decimal` prints 20 digits, enough for
-- 64 bits.
--
-- Not modelled: logging and its timing, but for what the shutdown and the debug stream log; the
-- goroutines inside a handler, so a packet is one step, in which an answer of an internal method is
-- sent before the next packet, and a call of the network, HCI and monitor APIs is one step too (but
-- for two calls of hci/open, which Hci/Overlap takes apart, and the calls of mon/read in
-- Monitor/Overlap); which call of $/serial/close a late answer of Router/Steps and Startup/Serving
-- belongs to, and that the connection of a call that waits takes no packets until then, which is one
-- of the orders of the steps; the packets of a connection behind a panic in a step of the router alone,
-- where Startup/Serving ends the program; the closing of a stream under a
-- running write; the panic of `make` at a size that is more than memory can hold; of main.go the
-- declaration of the flags and the removal of files while waitForPort watches them; of the command
-- line client the declaration of its flags; in the examples the packets that
-- a server takes before its registration is answered, and the layout of what is printed.
pub mod Prelude
pub mod Dict
pub mod Error
pub mod Value
pub mod Conversion
pub mod LimitedBuffer
pub mod Connection
pub mod Router
pub mod Network
pub mod Strings
pub mod Hci
pub mod Monitor
pub mod Serial
pub mod Port
pub mod Startup
pub mod Cli
pub mod Examples
pub mod Reply
