-- ===== src/Http.antt =====
-- include/http: the text of requests and responses.
pub mod Message
pub mod Encoder
pub mod Decoder
pub mod Response
pub mod Connection
pub mod Dispatch
pub mod Server
pub mod Serving
pub mod Exchange
pub mod Routing
