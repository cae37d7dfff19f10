-- ===== src/Tcp.antt =====
-- include/tcp: connections, their factory, the epoll worker, the listener and the connector.
pub mod Types
pub mod Connection
pub mod Input
pub mod Lifecycle
pub mod Factory
pub mod Listener
pub mod Connector
pub mod Sending
pub mod Framing
pub mod Segments
pub mod Stream
pub mod Room
pub mod Unread
pub mod Status
pub mod Reconnect
pub mod Threads
pub mod Keeps
pub mod Reading
pub mod Worker
pub mod Whole
pub mod Reader
pub mod SendEnd
pub mod Emptied
pub mod Ending
pub mod Closing
pub mod Full
