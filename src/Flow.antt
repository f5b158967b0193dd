-- ===== src/Flow.antt =====
-- quic-go/internal/flowcontrol: the windows of the streams and of the connection.
pub mod Controller
pub mod Manager
