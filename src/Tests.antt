-- ===== src/Tests.antt =====
-- Runs on concrete inputs, and the theorems at inputs that meet their hypotheses.
mod Runs
mod Bytes
mod Scans
mod Commands
mod Clients
mod Loop
mod Client
mod Packets
mod Devices
mod ShortScan
mod LegacyMode
mod Bridge
mod Program
