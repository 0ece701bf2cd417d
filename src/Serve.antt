-- ===== src/Serve.antt =====
-- srvfb.go: the handler's HTTP methods.
pub mod Http
pub mod Header
pub mod Raw
pub mod Video
pub mod Routes
mod Tests
