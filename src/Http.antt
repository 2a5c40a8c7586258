-- ===== src/Http.antt =====
-- src/piorun/http: the HTTP server on top of the fibers.
pub mod Buffer
mod CString
pub mod Text
pub mod Form
pub mod User
pub mod Request
pub mod Response
pub mod Server
pub mod Conn
pub mod BlockDeque
pub mod SqlConnPool
