-- ===== src/Pipe.antt =====
-- include/pipe: messages with a fixed head over a TcpConnection, and the sessions they are for.
pub mod Message
pub mod Connection
pub mod Framing
pub mod Roundtrip
pub mod Side
pub mod Handshake
pub mod Meeting
pub mod TcpPipe
