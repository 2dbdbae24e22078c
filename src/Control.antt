-- ===== src/Control.antt =====
-- internal/control/server.go, in parts: the paths and IDs that it accepts, the request handlers, the
-- listener, and Run.
pub mod Accept
pub mod Handlers
pub mod Listener
pub mod Serving
