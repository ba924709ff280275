-- ===== src/Lib.antt =====
-- The JTAG VPI server: a TCP server that turns the commands of OpenOCD and of other clients into
-- pulses on the pins of a simulated JTAG or cJTAG adapter, and sends back what the TAP shifted out.
--
-- The parts and their files
--
-- Prelude: shared names of the library, lists over the native numbers, Boolean tests, bits.
-- Wire: the layouts of the packets and the byte orders (sim/jtag_vpi_server.h, lines 34 to 57, and
-- the conversions of sim/jtag_vpi_server.cpp). Wire/Order and Wire/Layout hold their proofs.
-- Socket: what `recv`, `recv` with MSG_PEEK and `send` can answer. Each is a script of events or
-- outcomes; a script that has run out answers EAGAIN, as an idle non-blocking socket does.
-- Server/State: the members of the class JtagVpiServer (sim/jtag_vpi_server.h), grouped into
-- records by their use, the constructor `new_server`, and the `World`: the server, the scripts of
-- its sockets and the bytes that it has sent.
-- Server/Signals: `get_pending_signals`, `update_signals`, `set_mode`, by which the simulation
-- drives the pins and hands back TDO.
-- Server/Connection: `close_connection`, the reads into the receive buffers, and `Flow`, which
-- says whether a function has returned early.
-- Server/Response: `send_minimal_response`. Server/Scan: `process_scan` and `continue_scan`.
-- Server/Packet: `process_vpi_packet`. Server/Work: `continue_vpi_work`. Server/Legacy:
-- `process_command`. Server/Poll: `poll`, which composes the others as the source does.
-- Server/Valid: the invariant of the server and that its operations keep it.
-- Server/Poll/Session: a session of scans, resets, TMS sequences and OScan1 exchanges of a client
-- of the full protocol, over polls and the steps of a simulation that takes what is asked for and
-- reports TDO. It rests on Server/Poll/Between (a connection between two commands), Opening (the
-- first packet of a client), Scanning (one scan, with Requests, Shifting and Responses for its
-- phases), Resetting (one reset), Sequencing (one TMS sequence, with Sequence for its bits), Pulled and
-- Overlay (the response that is sent meanwhile), Edges (one exchange) and Replies (the sending).
-- Server/Poll/Attached: the same session with a device that the simulation drives: Asks says what a
-- client asks for and what that means for the device, Device shows one scan and one exchange.
-- Server/Poll/LegacySession: a session of the legacy mode (LegacyCalls: its commands, LegacyLoading
-- and LegacyScan: how they and their buffers are taken in, LegacyServed and LegacyReplies: what they
-- come to). Server/Poll/MinimalScan: one scan of the 8-byte protocol (Loading: its command and
-- buffers, Buffered: its pulses and TDO bytes, as in the legacy mode).
-- Server/Setup: `init` and the destructor. Server/Poll/Parts, Server/Poll/Packets: the polls of a
-- connection while a packet comes in.
-- Sim: the loop of sim/sim_vpi_main.cpp, which polls the server once in each half clock cycle and
-- moves its signals to the pins of the device under test. Sim/Options: its command line.
-- Sim/Timeout: how it ends. Sim/Program: `main` around it.
-- Client: the operations and the tests of the client of vpi/jtag_vpi_advanced.cpp, on a connection
-- that is a parameter. Client/Plain: the client of vpi/jtag_vpi_client.c on the same connection.
-- Client/Connect: how the advanced client connects.
-- Bridge: the server of vpi/jtag_vpi.c, which lives in a Verilog simulator and answers the 4-byte
-- commands of these clients; the simulator is a parameter. Bridge/Thread: its thread. Bridge/Scan
-- and Bridge/Identify put the client on top of it.
-- Bench: the programs of the test benches, sim/sim_main.cpp and sim/sim_system_main.cpp.
-- Tests: runs on concrete inputs.
--
-- Machine integers and memory: `uint32_t` members wrap at 2 ^ 32 (`u32`, `sub32`), bytes at 2 ^ 8
-- (`u8`). Buffers are lists of bytes. A read or store outside of an array is not defined in C++:
-- the model sets a flag and goes on: `fault` of the server, which the invariant says is not set,
-- `overrun` of the answer of vpi/jtag_vpi.c, and the Boolean that `shift_data` of the client returns.
-- The counter `cycle_count` wraps at 2 ^ 64. Fields of a packet that C++ reads through a union are read from the bytes.
--
-- Text is a list of character codes; `stoull` and `stoi` stand in Prelude/Codes.
--
-- Loops: `send_loop` goes down the script of outcomes, one for each call of `send`; past its end
-- every call would block, and the loop gives up after its 1000 tries, so no fuel is needed. Every
-- other loop of the server spreads over calls of `poll`, and the theorems count those calls. The
-- loops of the programs take what the world answers in each pass as a list: the wall clock for
-- `main_loop`, the results of `connect` for `retry`, those of `recv` and `send` for
-- `serve_client`, the evaluations of the bench for `simulate`. `main_loop` says whether it has
-- ended within the list, and Sim/Timeout says how long a list is long enough.
--
-- Not modelled: the settings and the addresses of sockets, `usleep` and `sleep`, debug output and
-- its counters, traces, help texts, the members of the class that no function uses (`tckc_state`,
-- the queue of `TckOp`), the registration of the system task of vpi/jtag_vpi.c, the program under
-- openocd/, which tests the server over TCP, and the RTL. The device under test, the simulator and
-- the benches are parameters: any state, outputs and evaluation.
pub mod Prelude
pub mod Wire
pub mod Socket
pub mod Server
pub mod Sim
pub mod Client
pub mod Bridge
pub mod Bench
pub mod Tests
