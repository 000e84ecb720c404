-- ===== src/Lib.antt =====
-- EXN-GS: the ground segment daemon, its local IPC, the packet profile and the on-board simulator.
--
-- The daemon (daemon/src/app.cpp) joins four parts. The device link (daemon/src/serial_link.cpp)
-- reads bytes from a serial port or a TCP socket and writes telecommands in order. The framer
-- (shared/src/framer.cpp) cuts the bytes into CCSDS Space Packets. The state store
-- (daemon/src/state.cpp) counts and keeps the last packets. The IPC server (daemon/src/ipc_server.cpp)
-- talks with its clients in the frames of shared/src/protocol.cpp. Packets are built, parsed and
-- inspected by shared/src/ccsds.cpp on top of the library CCSDSPack. The simulator (sim/src/main.cpp)
-- stands in for the on-board computer. Clients of the daemon are the terminal interface
-- (ui/src/ui_app.cpp, on top of ui/src/ipc_client.cpp) and the command line client
-- (tools/gsdctl/main.cpp).
--
-- Which file models what:
-- - Common and its children: Boolean tests, lists, text, bit operations, std::stoi, std::stoul and the
--   splitting of HOST:PORT over the native numbers.
-- - Protocol, Protocol/Bytes: encode, try_decode, pack_string, unpack_string, pack_packet_meta and
--   unpack_packet_meta of shared/src/protocol.cpp under their own names; Protocol/Words, Frames and
--   Strings reason about them. Protocol/Stream is the receive loop of daemon/src/ipc_server.cpp.
-- - Framer: CcsdsFramer::push_bytes; `round` is one pass of its loop. Framer/Laws, Chunks and Packets
--   reason about it.
-- - Types: shared/include/exn/shared/types.hpp. State: StateStore. State/History is a list of its calls
--   and what they amount to, State/Ring and State/Refines compare the two.
-- - SpacePacket: shared/src/ccsds.cpp. SpacePacket/Library lists the calls of CCSDSPack,
--   SpacePacket/Laws what is relied on of them. SpacePacket/Profile, RoundTrip and
--   TmPackets reason about it.
-- - SerialLink: SerialLink, every method and completion handler as a function to the new state and its
--   effects in order. SerialLink/World is the event loop with the outstanding operations as a step
--   relation; SerialLink/Tally, Order, Errors, Fifo and Reconnects reason about it.
-- - Ipc: a session of the IPC server; Ipc/Order and Ipc/Delivery reason about it. Ipc/Server is
--   IpcServer with its list of weak pointers; Ipc/Server/Store and Tracking reason about it.
-- - IpcClient: ui/src/ipc_client.cpp; IpcClient/Timer reasons about its reconnections, IpcClient/Order
--   about what it writes, and IpcClient/Delivery about what it hands to the interface.
-- - Storage: FileLoggerSink; Storage/Lines reads its log back.
-- - App: the callbacks of App::run; App/Events the life of the daemon; App/Honest, Invariant,
--   Packets, Routing and Delivery reason about it. App/Options is daemon/src/main.cpp.
-- - Gsdctl: read_frame, print_frame and the rest of `main` behind the connection, with what the reads
--   give as an argument. Gsdctl/Hex is decode_hex, Gsdctl/Arguments the command line. Gsdctl/Reading
--   and Replies run the program on the frames themselves; Gsdctl/Exchange and Service put it together
--   with the daemon.
-- - Mission: the constants of shared/include/exn/shared/exn_interfaces.h that are used.
--   Mission/Structures holds its packed structures as lists of fields, Mission/Layouts reads and
--   writes such a list. Mission/Services, Health and Camera hold its enumerations as names and values,
--   Mission/Codes looks them up, and Mission/Fields gives the bytes that a value of each takes.
-- - Ui: UiApp, the callbacks of its `run`; Ui/Keys the keys and commands, Ui/Table the packet table,
--   Ui/Options ui/src/main.cpp. Ui/Events is a run of the interface; its children Core, Lights,
--   History, Requests, Typing and Arrivals, and Columns, Cells and Lines below Ui/Table, reason about them.
--   Ui/Screen is the renderer of the screen, on the calls of FTXUI in Ui/Elements; its children Lamps,
--   Height and Width reason about it, with the least sizes of elements in Sizes. Ui/Outgoing follows
--   what the interface hands to its client to the daemon's handler.
-- - Simulator: build_tm, the reports, the acceptance of a packet and one round of tc_dispatch_task;
--   Simulator/Ring is RingQueue, one round of its methods, and Simulator/Ring/Fifo a sequence of them.
--   Simulator/Ring/Threads has one load or store at a time of the two threads that share it (in one
--   order for both, as acquire and release give it to one producer and one consumer);
--   Simulator/Ring/Threads/Views and Sound are about their interleavings, Alone compares with the whole
--   methods.
--   Simulator/Sessions is start_session, start_async_read and tm_tx_task, and
--   Simulator/Sessions/Streams reasons about them. Simulator/Dispatch, Wrap, Reports and Structures
--   reason about the others, Simulator/Answers about the interface's request and its answer.
--   Simulator/Trace is what it prints, Simulator/Startup its `main`, and Simulator/Words the reading of
--   the words in its reports.
-- - Uplink: a request on its way through the interface, its client, the daemon and the device link to
--   the simulator. Downlink: the device's packets on their way to the interface; Downlink/Told and
--   Fields are about what the daemon tells of them, App/Whole about a packet in its framer.
-- - Tests: concrete runs.
--
-- Numbers are natural numbers with the wrap-around of the code's widths written out: 32 bits in the
-- lengths of Protocol, 64 bits in the counters and generations, 16 and 14 bits in the simulator's
-- sequence number. Loops: `frame_loop` and `decode_loop` have one unit of fuel more than there are
-- bytes, and each of their rounds but the last takes a byte at least; the loops of gsdctl have one unit
-- more than there are bytes to come, and a frame has six bytes. That the fuel is enough is part of the
-- results. A read from behind the end of a buffer is a value of its own (`fault`, `overrun`,
-- `undefined`). The clock, localtime_r, the answers of Boost.Asio and HardRT, what FTXUI's input
-- component makes of a key, the least sizes of its elements and the library CCSDSPack are arguments.
--
-- Not modelled: sockets, mutexes and how threads start, the console, how FTXUI lays out and draws the
-- screen, the usage texts, and HardRT's scheduler. Each callback of an event loop runs to its end before
-- the next; the interface's two threads take turns in any order. The clock is read once for the packets
-- of one read of the device, where the code reads it for each.
pub mod Common
pub mod Protocol
pub mod Framer
pub mod Types
pub mod State
pub mod SpacePacket
pub mod SerialLink
pub mod Ipc
pub mod Storage
pub mod IpcClient
pub mod App
pub mod Gsdctl
pub mod Mission
pub mod Ui
pub mod Uplink
pub mod Downlink
pub mod Simulator
pub mod Tests
