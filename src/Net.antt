-- ===== src/Net.antt =====
-- Addresses, networks, endpoints and connections (collector/lib/NetworkConnection.h and
-- NetworkConnection.cpp).
pub mod Address
pub mod IpNet
pub mod Private
pub mod Bytes
pub mod Endpoint
pub mod Keys
mod Examples
