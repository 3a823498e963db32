-- ===== src/Examples.antt =====
-- The theorems at concrete inputs, over small stand-ins for the libraries that the code uses.
pub mod Toys
mod Packets
mod Reliability
mod Connections
mod Threads
mod Clients
mod Servers
mod Meetings
mod Messages
mod Sockets
