-- ===== src/Udp.antt =====
-- src/udp_proxy.h and src/udp_proxy.cpp.
pub mod Endpoint
pub mod Server
