-- ===== src/Http2.antt =====
-- pkg/customhttp/h2client.go: one HTTP/2 connection with its streams and flow control.
pub mod Types
pub mod Streams
pub mod Conn
pub mod Flow
pub mod Frames
pub mod Writes
pub mod Sending
pub mod Calls
pub mod Invariant
pub mod Chunks
pub mod SendLoop
pub mod SendEnds
pub mod Padded
pub mod HeaderBlocks
pub mod Errors
pub mod Isolation
pub mod Responses
pub mod Lifecycle
pub mod Steps
mod Tests
