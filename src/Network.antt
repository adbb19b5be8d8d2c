-- ===== src/Network.antt =====
-- network.go of the docker daemon: addresses, allocators, port mapper, interfaces and the manager.
pub mod Ip
pub mod IpAllocator
pub mod PortAllocator
pub mod PortMapper
pub mod NatSpec
pub mod Manager
pub mod Examples
