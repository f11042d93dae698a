-- ===== src/Protocol.antt =====
-- internal/protocol/protocol.go: the messages of the Olric binary protocol.
pub mod Code
pub mod Wire
pub mod RoundTrip
mod Tests
