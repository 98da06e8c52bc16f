-- ===== src/Network.antt =====
-- network/: the frame codec and the message reassembly of web sockets, and the HTTP cache.
pub mod WebSocket
pub mod HttpCache
