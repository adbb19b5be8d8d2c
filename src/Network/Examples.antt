-- ===== src/Network/Examples.antt =====
-- Runs of dotcloud/docker/network.go on small networks.
pub mod Addresses
pub mod Mappings
