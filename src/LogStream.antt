-- ===== src/LogStream.antt =====
-- backend/internal/logstream: the log messages that the clients of the event stream get.
pub mod Hub
