-- ===== src/Tcp.antt =====
-- TCP on top of the event loop: connections, the server and the client.
pub mod Acceptor
pub mod Client
pub mod Connection
pub mod Handle
pub mod Connector
pub mod Server
