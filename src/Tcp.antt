-- ===== src/Tcp.antt =====
-- src/tcp_proxy.h and src/tcp_proxy.cpp.
pub mod Connection
pub mod Proxy
