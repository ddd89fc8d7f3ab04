-- ===== src/Net.antt =====
-- src/net: the network stack.
pub mod Ethernet
pub mod Arp
pub mod Interface
pub mod Stack
