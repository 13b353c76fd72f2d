-- ===== src/Network.antt =====
-- lib::network and lib::exceptions: the request and response headers, the exceptions that carry a
-- response code, the compression buffer, the service interface and the session loop.
pub mod Packet
pub mod Exceptions
pub mod Exec
pub mod Buffer
pub mod Socket
pub mod Service
pub mod Session
mod Tests
