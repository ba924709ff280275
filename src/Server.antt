-- ===== src/Server.antt =====
-- `JtagVpiServer` of sim/jtag_vpi_server.h and sim/jtag_vpi_server.cpp.
pub mod State
pub mod Signals
pub mod Connection
pub mod Response
pub mod Scan
pub mod Packet
pub mod Work
pub mod Legacy
pub mod Poll
pub mod Valid
pub mod Setup
