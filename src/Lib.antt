-- ===== src/Lib.antt =====
-- A model of go-ax25, an AX.25 packet radio library in Go.
--
-- The program has these parts. An address (ax25/address.go) has a wire form of seven bytes and a text
-- form. A frame (ax25/frame.go) has a path of such addresses, a control byte and information. KISS
-- (ax25/kiss.go) puts frames on a byte stream and takes them off it. A connected-mode session
-- (ax25/conn.go) is a state machine that numbers, acknowledges and repeats frames under three timers.
-- The router (ax25/router.go) moves frames between ports, each with a bounded queue and a worker, in
-- one of three modes, and the digipeater (ax25/digipeater.go) is a port of it that relays frames whose
-- next hop it is. A beacon (ax25/beacon.go) sends a text at intervals. The AGWPE protocol (agwpe)
-- carries frames and data between a client and such a node over TCP, in messages with a header of 36
-- bytes; its server and its client are parts of their own. The bulletin board (cmd/bbs) is a program
-- over that client: it reads lines of the stations that connect, keeps their messages in a store, and
-- lets an operator log in. Capture files (pcap) keep frames with their times.
--
-- Where the parts stand:
--   Base          what the other modules share: tests on native numbers, lists, single bits of a byte
--   Types         ax25/types.go: constants, `Address`, `Frame`, and results with the package's errors
--   Address       ax25/address.go; Address/Wire and Address/Text have the proofs on its two forms
--   Kiss          ax25/kiss.go; Kiss/RoundTrip has the proofs
--   Frame         ax25/frame.go; Frame/Control is about control bytes, Frame/Path about the digipeaters
--                 of the wire form, Frame/RoundTrip about encoding and then parsing, Frame/Parsed about
--                 what is parsed
--   Conn/State    the fields of `Conn`, its timers and its queue of actions
--   Conn/Send     `buildFrame` to `retransmitFrom`; Conn/Receive `OnFrame` and its handlers; Conn/Calls
--                 the other public methods and the timer callbacks; Conn/Events all of them as one step
--   Conn/Window   the send window as a list; Conn/Valid the invariant of the session; Conn/Alive its
--                 timers; Conn/Delivery the data passed up; Conn/Retries the limit of retries;
--                 Conn/Held the data held back for a busy peer
--   Digipeater    ax25/digipeater.go: hops and relay; Digipeater/Relay has the proofs; DigiPort
--                 the port of a digipeater in the router
--   Router/Port   a port: `start`, `stop`, `worker`, `deliver`; Router/Table the table of ports and the
--                 calls that change it; Router/Dispatch `Send` and its modes
--   Router/Echo, Router/Pick, Router/Select, Router/Bridge   which ports get a frame, in each mode
--   Router/Throughout, Router/Queue   the bound and the counters of the queues
--   Router/Running, Router/Ready, Router/Lifecycle   the life of the ports, and panics
--   Beacon        ax25/beacon.go: the text and the frame of a beacon; Beacon/Sent has the proofs
--   Agwpe         agwpe/frame.go: the header, `Encode`, `DecodeFrame`, `ReadFrame` and the streaming
--                 `Decoder`; Agwpe/Wire, Agwpe/RoundTrip and Agwpe/Stream have the proofs
--   Agwpe/Convert, Agwpe/Unproto   AX.25 frames in messages (agwpe/frame.go) and out of them
--                 (agwpe/frame.go, agwpe/server.go); Agwpe/Builders messages that carry numbers;
--                 Agwpe/Via the paths of connect requests (agwpe/server.go); Agwpe/Responses the other
--                 messages of the server and Agwpe/Monitor its texts of frames (agwpe/builders.go);
--                 Agwpe/Requests the messages of the client and the names of kinds (agwpe/frame.go)
--   AgwServer     agwpe/server.go: the state of the server, its queue and its calls of the router.
--                 AgwServer/Slots is the table of the outgoing connections, AgwServer/Callbacks what
--                 the sessions call, AgwServer/Listeners the registered callsigns, AgwServer/Connect
--                 `handleConnect`, AgwServer/Commands `handleClientFrame`, AgwServer/Client
--                 `HandleConn` and the steps of a run
--   AgwServer/Lookup, AgwServer/Valid, AgwServer/Left, AgwServer/Served, AgwServer/Refusals   the proofs
--                 on the table, on what every step keeps, on the end of a client, on a whole run, and on
--                 requests that are refused
--   AgwClient     agwpe/client.go: `NewClient` and `SendFrame`; AgwClient/Calls the calls over
--                 `SendFrame`; AgwClient/Steps the goroutines as steps; AgwClient/Stuck a client that
--                 has lost its connection
--   Pcap          pcap/pcap.go: writing a capture file; Pcap/Reader reading one; Pcap/Replay and Pcap/Cut
--                 have the proofs on what is written and read back, and on a file that is cut
--   Heard         cmd/bbs/heard/heard.go: the stations that were heard; Heard/Recent has the proofs
--   Bbs           cmd/bbs: the state of a session and the interface of the store; Bbs/Text what is
--                 read of a line; Bbs/Sysop the challenge of the operator (sysop.go); Bbs/Reading,
--                 Bbs/Writing and Bbs/Admin the commands (commands.go, sysop.go); Bbs/Lines
--                 `processLine` and what calls it; Bbs/Board the session manager (session.go) and the
--                 messages of the client (cmd/bbs/main.go)
--   Bbs/Kept, Bbs/Locked, Bbs/Granted, Bbs/Access   what the handlers keep of a session, and the proofs
--                 on a lockout, on how a station becomes the operator, and on what a line does to the store
--
-- How the code is read. A byte, a uint8 and an int are natural numbers; a byte's arithmetic is written
-- with `% 256` where it can wrap, and the uint64 counters wrap at 2^64. Strings are lists of bytes, and
-- text is ASCII: the Unicode cases of `strings.ToUpper` and `strings.EqualFold` are not modelled. An
-- error is the case `err` of a result or `some` of an option. Copies of slices are the values
-- themselves. A callback is a flag that says whether it is set, and a call of it an entry of a trace.
-- A panic is a result of its own. A port is known by a number, in place of its pointer, into a heap.
--
-- A method of a session holds the mutex throughout and is one step. The one place that releases it, the
-- call of `OnConnect` on an incoming connection, takes what happens meanwhile as the function `during`.
-- The server of AGWPE is one step for each chunk of the client, each frame that a port's worker takes
-- and each timer of a session: its own locks are held only around single accesses, and the callbacks
-- run in the goroutine of the method that calls them. `stop` waits for the worker of its port: when that
-- is busy, which between steps only a worker is that never comes back, the goroutine waits for ever
-- (`waiting` of Router/Table, `waits` of the server). A worker that so waits is busy from then on, and
-- the reader does nothing any more. The end of `HandleConn` takes what happens between its steps as the
-- function `meanwhile`. New sessions and ports get the next number as their pointer.
--
-- A timer is a flag: whether it is running. Its expiry is an event that may come at any time, also when
-- the timer was stopped, since Go may have started the callback already.
--
-- The client of AGWPE is a set of steps: those of its reader, of its writer and of its callers, in any
-- order. `SendFrame` is two, its test of the connection and the rest, with the message in flight between
-- them. The board handles a line at one instant; the store behind its interface is a parameter, whose
-- operations may do anything, and the draws of crypto/rand are an argument, new ones for every byte.
--
-- Fuel: the loop of `handleReceivedNR` gets eight rounds, enough because V(A) and N(R) are three bits
-- wide; the loop of `ParseFrame` over the digipeaters gets the eight that the code allows; `decimal`
-- gets a digit each for the three of a byte and the twenty that an int has at most. All other loops run
-- over a list.
--
-- Not modelled: log lines, the order in which goroutines take the locks of a port within one delivery,
-- the configuration (ax25/config.go), the ticker of the beacon, the listener of AGWPE
-- (agwpe/tcp_server.go), the drivers (phy), the SQLite store (cmd/bbs/store/sqlite.go) and the other
-- commands (cmd), which are I/O, glue or still to come.
pub mod Base
pub mod Types
pub mod Address
pub mod Kiss
pub mod Frame
pub mod Conn
pub mod Digipeater
pub mod Router
pub mod DigiPort
pub mod Beacon
pub mod Agwpe
pub mod Pcap
pub mod AgwServer
pub mod AgwClient
pub mod Heard
pub mod Bbs
